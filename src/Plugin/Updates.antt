-- ===== src/Plugin/Updates.antt =====
-- plugin.go: `UpdateDevices` and `ListAndWatch`, which run at the same time and share the devices
-- and the channel of capacity one.
--
-- `reconcile` calls `UpdateDevices` under its lock, so that there is one sender. There is one
-- stream: the kubelet opens it anew after it has registered the plugin.
use k8s_device_plugin.Prelude.{ℕ, zero, suc, List, Option, none, some, ◌≡◌}
use k8s_device_plugin.Prelude.Texts.{Text}
use k8s_device_plugin.Prelude.Dict.{Dict}
use k8s_device_plugin.Device.{NpuDevice}
use k8s_device_plugin.Inventory.{PluginDevice}
use k8s_device_plugin.Plugin.{Plugin, current_devices, clone_device_map, new_resource_plugin}

-- Where `UpdateDevices` stands: before the first `select`, in its `default` branch before the
-- second, and before the last send.
pub data Sender : Type 0 where
  idle : Sender
  offering draining sending : List PluginDevice → Sender

-- `held` is the list that the stream has in hand and has not sent yet, `seen` the last list that it
-- was sent: none before the first.
pub record Channel : Type 0 where
  pub plugin : Plugin
  pub sender : Sender
  pub held : Option (List PluginDevice)
  pub seen : Option (List PluginDevice)

-- The critical section of `UpdateDevices`.
unfoldable pub replace_devices : Plugin → Dict Text NpuDevice → Plugin
unfolding clone_device_map
replace_devices p devices = record p { devices = clone_device_map devices }

-- What the sender does next. None: it waits, for a call or for room in the channel.
unfoldable pub advance : Channel → Option Channel
advance c = elim c.sender [
  | idle ↦ none
  | offering current ↦ elim c.plugin.update_ch [
    | none ↦
        some (record c { sender = idle; plugin = record c.plugin { update_ch = some current } })
    | some old ↦ some (record c { sender = draining current })
  ]
  | draining current ↦
      some (record c { sender = sending current; plugin = record c.plugin { update_ch = none } })
  | sending current ↦ elim c.plugin.update_ch [
    | none ↦
        some (record c { sender = idle; plugin = record c.plugin { update_ch = some current } })
    | some old ↦ none
  ]
]

unfoldable pub update : Channel → Dict Text NpuDevice → Channel
unfolding replace_devices current_devices
update c devices =
    let p = replace_devices c.plugin devices in
    record c { plugin = p; sender = offering (current_devices p) }

-- The stream is opened, and takes the devices of that moment. A stream that was open is given up.
unfoldable pub watch : Channel → Channel
unfolding current_devices
watch c = record c { held = some (current_devices c.plugin); seen = none }

-- The stream takes a list from the channel.
unfoldable pub receive : Channel → List PluginDevice → Channel
receive c list = record c { plugin = record c.plugin { update_ch = none }; held = some list }

-- The stream sends the list that it has in hand.
unfoldable pub send : Channel → List PluginDevice → Channel
send c list = record c { held = none; seen = some list }

-- The stream ends: its plugin stops, the kubelet has left, or a list could not be sent.
unfoldable pub close : Channel → Channel
close c = record c { held = none; seen = none }

pub data Step (c : Channel) : Channel → Type 0 where
  updates : (devices : Dict Text NpuDevice) → c.sender ≡ idle → Step c (update c devices)
  advances : {next : Channel} → advance c ≡ some next → Step c next
  watches : Step c (watch c)
  receives :
      {list last : List PluginDevice}
      → c.plugin.update_ch ≡ some list
      → c.held ≡ none
      → c.seen ≡ some last
      → Step c (receive c list)
  sends : {list : List PluginDevice} → c.held ≡ some list → Step c (send c list)
  closes : Step c (close c)

unfoldable pub start : Text → Dict Text NpuDevice → Channel
unfolding new_resource_plugin
start resource_name devices = record {
  plugin = new_resource_plugin resource_name devices;
  sender = idle;
  held = none;
  seen = none;
}

pub data Reachable (resource_name : Text) (devices : Dict Text NpuDevice) : Channel → Type 0 where
  started : Reachable resource_name devices (start resource_name devices)
  stepped :
      {c next : Channel}
      → Reachable resource_name devices c
      → Step c next
      → Reachable resource_name devices next

-- The sender alone, for at most so many steps.
unfoldable pub run_sender : ℕ → Channel → Channel
unfolding advance
run_sender zero c = c
run_sender (suc n) c = elim (advance c) [ none ↦ c | some next ↦ run_sender n next ]
