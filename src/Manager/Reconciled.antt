-- ===== src/Manager/Reconciled.antt =====
-- What the plugins serve after `reconcile`.
use k8s_device_plugin.Prelude.{
  true, List, [], ◌∷◌, Option, none, some, Option-cases, ◌≡◌, refl, sym, ap, inl, inr, arith, has,
  if◌then◌else◌, ◌==◌, ==_iff,
}
use k8s_device_plugin.Prelude.Texts.{Text, text_eq}
use k8s_device_plugin.Prelude.Dict.{
  Dict, lookup, insert, erase, keys, IsMap, lookup-insert, lookup-erase, erase-IsMap,
  lookup-missing,
}
use k8s_device_plugin.Go.Result.{Result}
use k8s_device_plugin.Go.Host.{Host}
use k8s_device_plugin.Device.{Device, NpuDevice}
use k8s_device_plugin.Inventory.{DeviceGroup, Groups, discover_device_groups}
use k8s_device_plugin.Inventory.Groups.{discover-IsGrouped}
use k8s_device_plugin.Plugin.{Plugin, new_resource_plugin, update_devices, clone_device_map}
use k8s_device_plugin.Manager.{
  Plugins, Servers, refresh_plugins, start_plugins, reconcile_groups, reconcile,
}

clone_device_map-eq : (m : Dict Text NpuDevice) → clone_device_map m ≡ m
unfolding clone_device_map
clone_device_map-eq [] = refl
clone_device_map-eq ((id, d) ∷ m) = ap (λ n. (id, d) ∷ n) (clone_device_map-eq m)

-- The devices that the plugin of a resource manages, and those that a scan found for it.
abbrev pub served : Option Plugin → Option (Dict Text NpuDevice)
served none = none
served (some p) = some p.devices

abbrev pub found : Option DeviceGroup → Option (Dict Text NpuDevice)
found none = none
found (some g) = some g.devices

-- The devices of the group, where there is one, and otherwise those that were served before.
abbrev found_or : Option DeviceGroup → Option (Dict Text NpuDevice) → Option (Dict Text NpuDevice)
found_or none before = before
found_or (some g) before = some g.devices

module _ (servers : Servers) (resource : Text) where
  same-lookup :
      (name : Text) (groups : Groups)
      → (name == resource) ≡ true
      → lookup resource groups ≡ lookup name groups
  same-lookup name groups same = ap (λ k. lookup k groups) (sym ((==_iff name resource).0 same))

  refresh_plugins-served :
      (plugins : Plugins) (groups : Groups)
      → IsMap groups
      → (refresh_plugins servers plugins groups).failure ≡ none
      → served (lookup resource (refresh_plugins servers plugins groups).plugins)
        ≡ (if has resource (keys plugins) then found (lookup resource groups) else none)
  unfolding refresh_plugins update_devices lookup
  refresh_plugins-served [] groups dg h = refl
  refresh_plugins-served ((name, p) ∷ plugins) groups dg h =
      elim (Option-cases (lookup name groups)) [
        | inl absent ↦
            ground
              (arith, absent, same-lookup name groups, refresh_plugins-served plugins groups dg)
        | inr (group, present) ↦ ground (
          arith,
          present,
          same-lookup name groups,
          clone_device_map-eq group.devices,
          lookup-erase name resource groups dg,
          refresh_plugins-served plugins (erase name groups) (erase-IsMap name groups dg),
        )
      ]

  refresh_plugins-groups :
      (plugins : Plugins) (groups : Groups)
      → IsMap groups
      → (refresh_plugins servers plugins groups).failure ≡ none
      → lookup resource (refresh_plugins servers plugins groups).groups
        ≡ (if has resource (keys plugins) then none else lookup resource groups)
  unfolding refresh_plugins
  refresh_plugins-groups [] groups dg h = refl
  refresh_plugins-groups ((name, p) ∷ plugins) groups dg h =
      elim (Option-cases (lookup name groups)) [
        | inl absent ↦
            ground
              (arith, absent, same-lookup name groups, refresh_plugins-groups plugins groups dg)
        | inr (group, present) ↦ ground (
          arith,
          present,
          lookup-erase name resource groups dg,
          refresh_plugins-groups plugins (erase name groups) (erase-IsMap name groups dg),
        )
      ]

  start_plugins-served :
      (groups : Groups) (plugins : Plugins)
      → IsMap groups
      → (start_plugins servers groups plugins).failure ≡ none
      → served (lookup resource (start_plugins servers groups plugins).plugins)
        ≡ found_or (lookup resource groups) (served (lookup resource plugins))
  unfolding start_plugins new_resource_plugin lookup
  start_plugins-served [] plugins d h = refl
  start_plugins-served ((name, group) ∷ groups) plugins d h =
      let p = new_resource_plugin name group.devices in
      ground (
        arith,
        clone_device_map-eq group.devices,
        lookup-missing name groups,
        same-lookup name groups,
        lookup-insert name resource p plugins,
        start_plugins-served groups (insert name p plugins) d.1,
      )

  refresh_plugins-IsMap :
      (plugins : Plugins) (groups : Groups)
      → IsMap groups
      → IsMap (refresh_plugins servers plugins groups).groups
  unfolding refresh_plugins
  refresh_plugins-IsMap [] groups dg = dg
  refresh_plugins-IsMap ((name, p) ∷ plugins) groups dg = elim (Option-cases (lookup name groups)) [
    | inl absent ↦ ground (arith, absent, dg, refresh_plugins-IsMap plugins groups dg)
    | inr (group, present) ↦ ground (
      arith,
      present,
      refresh_plugins-IsMap plugins (erase name groups) (erase-IsMap name groups dg),
    )
  ]

  reconcile_groups-served :
      (groups : Groups) (plugins : Plugins)
      → IsMap groups
      → (reconcile_groups servers groups plugins).failure ≡ none
      → served (lookup resource (reconcile_groups servers groups plugins).plugins)
        ≡ found (lookup resource groups)
  unfolding reconcile_groups
  reconcile_groups-served groups plugins dg h =
      let s = refresh_plugins servers plugins groups in
      elim (Option-cases s.failure) [
        | inl fine ↦ ground (
          arith,
          fine,
          refresh_plugins-served plugins groups dg fine,
          refresh_plugins-groups plugins groups dg fine,
          start_plugins-served s.groups s.plugins (refresh_plugins-IsMap plugins groups dg),
        )
        | inr (e, failed) ↦ absurd (ground (arith, failed, h))
      ]

  -- After a scan that did not fail, the plugin of each resource manages the devices that the scan
  -- found for it, and a resource without any has no plugin, whatever ran before.
  pub reconcile-served {ℓ} :
      {E : Type ℓ} (host : Host) (devices : Result E (List Device)) (plugins : Plugins)
      → (reconcile host servers devices plugins).failure ≡ none
      → served (lookup resource (reconcile host servers devices plugins).plugins)
        ≡ found (lookup resource (discover_device_groups host devices))
  unfolding reconcile
  reconcile-served host devices plugins h =
      reconcile_groups-served (discover_device_groups host devices) plugins
        (discover-IsGrouped host devices).once h

module _ (servers : Servers) (starts : (name : Text) → servers.starts name ≡ true)
    (stops : (name : Text) → servers.stops name ≡ true) where
  refresh_plugins-none :
      (plugins : Plugins) (groups : Groups)
      → (refresh_plugins servers plugins groups).failure ≡ none
  unfolding refresh_plugins
  refresh_plugins-none [] groups = refl
  refresh_plugins-none ((name, p) ∷ plugins) groups = ground (
    arith,
    stops name,
    refresh_plugins-none plugins groups,
    refresh_plugins-none plugins (erase name groups),
  )

  start_plugins-none :
      (groups : Groups) (plugins : Plugins) → (start_plugins servers groups plugins).failure ≡ none
  unfolding start_plugins
  start_plugins-none [] plugins = refl
  start_plugins-none ((name, group) ∷ groups) plugins = ground (
    arith,
    starts name,
    start_plugins-none groups (insert name (new_resource_plugin name group.devices) plugins),
  )

  -- A scan fails only where a plugin does not start or stop.
  pub reconcile-none {ℓ} :
      {E : Type ℓ} (host : Host) (devices : Result E (List Device)) (plugins : Plugins)
      → (reconcile host servers devices plugins).failure ≡ none
  unfolding reconcile reconcile_groups
  reconcile-none host devices plugins =
      let groups = discover_device_groups host devices in
      let s = refresh_plugins servers plugins groups in
      ground (arith, refresh_plugins-none plugins groups, start_plugins-none s.groups s.plugins)
