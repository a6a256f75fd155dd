-- ===== src/Plugin/Sync.antt =====
-- What the kubelet is told, in every order of the steps of `UpdateDevices` and `ListAndWatch`.
use k8s_device_plugin.Prelude.{
  some-inj, List, Option, none, some, Option-cases, ◌≡◌, refl, sym, subst, ap, ◌⊎◌, inl, inr, ◌∙◌,
  arith,
}
use k8s_device_plugin.Prelude.Texts.{Text}
use k8s_device_plugin.Prelude.Dict.{Dict}
use k8s_device_plugin.Device.{NpuDevice}
use k8s_device_plugin.Inventory.{PluginDevice}
use k8s_device_plugin.Plugin.{Plugin, current_devices, update_devices}
use k8s_device_plugin.Plugin.Updates.{
  Sender, idle, offering, draining, sending, Channel, advance, update, watch, receive, send, close,
  Step, updates, advances, watches, receives, sends, closes, start, run_sender, replace_devices,
  Reachable, started, stepped,
}

abbrev pub Sent : Type 0
Sent = Option (List PluginDevice)

-- The stream has the current list in hand, or it has nothing in hand, and has sent the current list
-- where it has sent one.
abbrev pub IsShown : List PluginDevice → (held seen : Sent) → Type 0
IsShown current held seen =
    (held ≡ some current) ⊎ ((held ≡ none) × ((seen ≡ none) ⊎ (seen ≡ some current)))

-- The current list waits in the channel, or nothing does and the stream is up to date.
abbrev pub IsLatest : List PluginDevice → (update_ch held seen : Sent) → Type 0
IsLatest current update_ch held seen =
    (update_ch ≡ some current) ⊎ ((update_ch ≡ none) × IsShown current held seen)

-- The sender holds the current list, and has emptied the channel where it sends.
abbrev pub IsPlaced : Sender → List PluginDevice → (update_ch held seen : Sent) → Type 0
IsPlaced idle current update_ch held seen = IsLatest current update_ch held seen
IsPlaced (offering list) current update_ch held seen = list ≡ current
IsPlaced (draining list) current update_ch held seen = list ≡ current
IsPlaced (sending list) current update_ch held seen = (list ≡ current) × (update_ch ≡ none)

abbrev pub IsSynced : Channel → Type 0
IsSynced c = IsPlaced c.sender (current_devices c.plugin) c.plugin.update_ch c.held c.seen

-- A step of the stream alone that leaves it up to date where it was.
IsPlaced-shown :
    (s : Sender) (current : List PluginDevice) (update_ch held seen held' seen' : Sent)
    → (IsShown current held seen → IsShown current held' seen')
    → IsPlaced s current update_ch held seen
    → IsPlaced s current update_ch held' seen'
IsPlaced-shown idle current update_ch held seen held' seen' f (inl e) = inl e
IsPlaced-shown idle current update_ch held seen held' seen' f (inr (e, g)) = inr (e, f g)
IsPlaced-shown (offering list) current update_ch held seen held' seen' f h = h
IsPlaced-shown (draining list) current update_ch held seen held' seen' f h = h
IsPlaced-shown (sending list) current update_ch held seen held' seen' f h = h

IsShown-send :
    (current list : List PluginDevice) (held seen : Sent)
    → held ≡ some list
    → IsShown current held seen
    → IsShown current none (some list)
IsShown-send current list held seen e (inl f) = inr (refl, inr (sym e ∙ f))
IsShown-send current list held seen e (inr (f, g)) = absurd (ground (arith, e, f))

IsPlaced-receive :
    (s : Sender) (current list : List PluginDevice) (update_ch held seen : Sent)
    → update_ch ≡ some list
    → IsPlaced s current update_ch held seen
    → IsPlaced s current none (some list) seen
IsPlaced-receive idle current list update_ch held seen e (inl f) = inr (refl, inl (sym e ∙ f))
IsPlaced-receive idle current list update_ch held seen e (inr (f, g)) =
    absurd (ground (arith, e, f))
IsPlaced-receive (offering l) current list update_ch held seen e h = h
IsPlaced-receive (draining l) current list update_ch held seen e h = h
IsPlaced-receive (sending l) current list update_ch held seen e h = absurd (ground (arith, e, h.1))

module _ (p : Plugin) (held seen : Sent) where
  abbrev at_sender : Sender → Channel
  at_sender s = record { plugin = p; sender = s; held = held; seen = seen }

  advance-IsSynced :
      (s : Sender) (next : Channel)
      → IsPlaced s (current_devices p) p.update_ch held seen
      → advance (at_sender s) ≡ some next
      → IsSynced next
  unfolding advance current_devices
  advance-IsSynced idle next h e = absurd (ground (arith, e))
  advance-IsSynced (offering list) next h e = elim (Option-cases p.update_ch) [
    | inl empty ↦ subst IsSynced (some-inj (rw empty at e)) (inl (ap some h))
    | inr (old, full) ↦ subst IsSynced (some-inj (rw full at e)) h
  ]
  advance-IsSynced (draining list) next h e = subst IsSynced (some-inj e) (h, refl)
  advance-IsSynced (sending list) next h e =
      subst IsSynced (some-inj (rw h.1 at e)) (inl (ap some h.0))

  IsPlaced-advance :
      (s : Sender)
      → IsPlaced s (current_devices p) p.update_ch held seen
      → (s ≡ idle) ⊎ ((next : Channel) × (advance (at_sender s) ≡ some next))
  unfolding advance
  IsPlaced-advance idle h = inl refl
  IsPlaced-advance (offering list) h = elim (Option-cases (advance (at_sender (offering list)))) [
    | inl stuck ↦ absurd (ground (arith, stuck))
    | inr step ↦ inr step
  ]
  IsPlaced-advance (draining list) h = inr (_, refl)
  IsPlaced-advance (sending list) h = elim (Option-cases (advance (at_sender (sending list)))) [
    | inl stuck ↦ absurd (ground (arith, stuck, h.1))
    | inr step ↦ inr step
  ]

Step-IsSynced : (c next : Channel) → IsSynced c → Step c next → IsSynced next
unfolding update watch receive send close current_devices
Step-IsSynced c next h (updates devices e) = refl
Step-IsSynced c next h (advances e) = advance-IsSynced c.plugin c.held c.seen c.sender next h e
Step-IsSynced c next h watches =
    let current = current_devices c.plugin in
    IsPlaced-shown c.sender current c.plugin.update_ch c.held c.seen (some current) none
      (λ shown. inl refl) h
Step-IsSynced c next h (receives {list = list} e f g) =
    IsPlaced-receive c.sender (current_devices c.plugin) list c.plugin.update_ch c.held c.seen e h
Step-IsSynced c next h (sends {list = list} e) =
    let current = current_devices c.plugin in
    IsPlaced-shown c.sender current c.plugin.update_ch c.held c.seen none (some list)
      (IsShown-send current list c.held c.seen e) h
Step-IsSynced c next h closes =
    let current = current_devices c.plugin in
    IsPlaced-shown c.sender current c.plugin.update_ch c.held c.seen none none
      (λ shown. inr (refl, inl refl)) h

module _ {resource_name : Text} {devices : Dict Text NpuDevice} where
  Reachable-IsSynced : {c : Channel} → Reachable resource_name devices c → IsSynced c
  unfolding start
  Reachable-IsSynced started = inr (refl, inr (refl, inl refl))
  Reachable-IsSynced (stepped {c = c} {next = next} r step) =
      Step-IsSynced c next (Reachable-IsSynced r) step

  -- When no update runs, none waits in the channel and the stream has none in hand, the list that
  -- the stream was sent last is the list of the current devices.
  pub Reachable-seen :
      {c : Channel} {last : List PluginDevice}
      → Reachable resource_name devices c
      → c.sender ≡ idle
      → c.plugin.update_ch ≡ none
      → c.held ≡ none
      → c.seen ≡ some last
      → last ≡ current_devices c.plugin
  Reachable-seen {c = c} {last = last} r rest empty free sent = latest (
      subst (λ s. IsPlaced s (current_devices c.plugin) c.plugin.update_ch c.held c.seen) rest
        (Reachable-IsSynced r))
    where
      latest :
          IsLatest (current_devices c.plugin) c.plugin.update_ch c.held c.seen
          → last ≡ current_devices c.plugin
      latest (inl e) = absurd (ground (arith, e, empty))
      latest (inr (e, inl f)) = absurd (ground (arith, f, free))
      latest (inr (e, inr (f, inl g))) = absurd (ground (arith, g, sent))
      latest (inr (e, inr (f, inr g))) = some-inj (sym sent ∙ g)

  -- `UpdateDevices` never blocks: while it runs, the sender has a next step that needs no stream.
  pub Reachable-advance :
      {c : Channel}
      → Reachable resource_name devices c
      → (c.sender ≡ idle) ⊎ ((next : Channel) × (advance c ≡ some next))
  Reachable-advance {c = c} r =
      IsPlaced-advance c.plugin c.held c.seen c.sender (Reachable-IsSynced r)

-- A call of `UpdateDevices` that runs alone ends in three steps at most, with the new devices and
-- their list in the channel, whatever waited there before.
pub run_sender-update :
    (p : Plugin) (held seen : Sent) (devices : Dict Text NpuDevice)
    → run_sender 3 (update (record { plugin = p; sender = idle; held = held; seen = seen }) devices)
      ≡ record { plugin = update_devices p devices; sender = idle; held = held; seen = seen }
unfolding run_sender advance update update_devices replace_devices current_devices
run_sender-update p held seen devices = elim (Option-cases p.update_ch) [
  | inl empty ↦ rw empty refl
  | inr (old, full) ↦ rw full refl
]
