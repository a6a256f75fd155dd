-- ===== src/Manager.antt =====
-- cmd/rbln-device-plugin/manager.go: the plugins that run, and the scan that starts, updates and
-- stops them.
--
-- A plugin's `Start` and `Stop` are calls of another part: they are arguments,
-- which say whether the call succeeds. Registered fills them with the servers of plugin.go.
pub mod Reconciled
pub mod Loop
pub mod Registered
use k8s_device_plugin.Prelude.{Bool, List, [], ◌∷◌, Option, none, some, if◌then◌else◌, ◌==◌}
use k8s_device_plugin.Prelude.Texts.{Text, str, text_eq}
use k8s_device_plugin.Prelude.Dict.{Dict, lookup, insert, erase}
use k8s_device_plugin.Go.Result.{Result}
use k8s_device_plugin.Go.Host.{Host}
use k8s_device_plugin.Device.{Device}
use k8s_device_plugin.Inventory.{DeviceGroup, Groups, discover_device_groups}
use k8s_device_plugin.Plugin.{Plugin, new_resource_plugin, update_devices}

abbrev pub Plugins : Type 0
Plugins = Dict Text Plugin

-- Whether `Start` and `Stop` of the plugin of a resource succeed.
pub record Servers : Type 0 where
  pub starts : Text → Bool
  pub stops : Text → Bool

pub data ManagerError : Type 0 where
  stop_failed start_failed : Text → ManagerError

-- `m.plugins`, the groups that are left, and the error that ended the loop.
pub record Scan : Type 0 where
  pub plugins : Plugins
  pub groups : Groups
  pub failure : Option ManagerError

abbrev keep_plugin : Text → Plugin → Scan → Scan
keep_plugin resource_name p s = record s { plugins = (resource_name, p) ∷ s.plugins }

-- The loop over the plugins that run, in the order in which the map is visited.
unfoldable pub refresh_plugins : Servers → Plugins → Groups → Scan
unfolding lookup erase update_devices
refresh_plugins servers [] groups = record { plugins = []; groups = groups; failure = none }
refresh_plugins servers ((resource_name, p) ∷ plugins) groups =
    let stopped = refresh_plugins servers plugins groups in
    let updated = refresh_plugins servers plugins (erase resource_name groups) in
    elim (lookup resource_name groups) [
      | none ↦ if servers.stops resource_name then stopped else record {
        plugins = (resource_name, p) ∷ plugins;
        groups = groups;
        failure = some (stop_failed resource_name);
      }
      | some group ↦ keep_plugin resource_name (update_devices p group.devices) updated
    ]

-- The loop over the groups that no plugin serves yet.
unfoldable pub start_plugins : Servers → Groups → Plugins → Scan
unfolding insert new_resource_plugin
start_plugins servers [] plugins = record { plugins = plugins; groups = []; failure = none }
start_plugins servers ((resource_name, group) ∷ groups) plugins =
    let more =
      start_plugins servers groups
        (insert resource_name (new_resource_plugin resource_name group.devices) plugins) in
    if servers.starts resource_name then more else record {
      plugins = plugins;
      groups = (resource_name, group) ∷ groups;
      failure = some (start_failed resource_name);
    }

abbrev pub start_after : Servers → Scan → Scan
start_after servers s = elim s.failure [
  | none ↦ start_plugins servers s.groups s.plugins
  | some e ↦ s
]

unfoldable pub reconcile_groups : Servers → Groups → Plugins → Scan
unfolding refresh_plugins start_plugins
reconcile_groups servers groups plugins =
    start_after servers (refresh_plugins servers plugins groups)

unfoldable pub reconcile {ℓ} :
    {E : Type ℓ} → Host → Servers → Result E (List Device) → Plugins → Scan
unfolding reconcile_groups discover_device_groups
reconcile host servers found plugins =
    reconcile_groups servers (discover_device_groups host found) plugins
