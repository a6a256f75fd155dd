-- ===== src/Manager/Loop/Restarted.antt =====
-- What a restart of the kubelet leads to.
use k8s_device_plugin.Prelude.{
  Option-cases, [], ◌∷◌, Option, none, some, ◌≡◌, refl, ap, inl, inr, arith, ==_iff,
}
use k8s_device_plugin.Prelude.Texts.{Text, text_eq}
use k8s_device_plugin.Prelude.Dict.{lookup, insert, IsMap, lookup-insert, lookup-missing}
use k8s_device_plugin.Inventory.{DeviceGroup, Groups, discover_device_groups}
use k8s_device_plugin.Inventory.Groups.{discover-IsGrouped}
use k8s_device_plugin.Plugin.{Plugin, new_resource_plugin}
use k8s_device_plugin.Manager.{
  Plugins, Servers, start_plugins, refresh_plugins, reconcile_groups, reconcile,
}
use k8s_device_plugin.Manager.Loop.{
  Manager, World, stop_all, initialize, reconcile_manager, restart,
}

-- The plugin that starts anew for what a scan found.
abbrev pub fresh : Text → Option DeviceGroup → Option Plugin
fresh resource none = none
fresh resource (some g) = some (new_resource_plugin resource g.devices)

abbrev fresh_or : Text → Option DeviceGroup → Option Plugin → Option Plugin
fresh_or resource none before = before
fresh_or resource (some g) before = some (new_resource_plugin resource g.devices)

module _ (servers : Servers) (resource : Text) where
  start_plugins-fresh :
      (groups : Groups) (plugins : Plugins)
      → IsMap groups
      → (start_plugins servers groups plugins).failure ≡ none
      → lookup resource (start_plugins servers groups plugins).plugins
        ≡ fresh_or resource (lookup resource groups) (lookup resource plugins)
  unfolding start_plugins lookup
  start_plugins-fresh [] plugins d h = refl
  start_plugins-fresh ((name, group) ∷ groups) plugins d h =
      let p = new_resource_plugin name group.devices in
      ground (
        arith,
        lookup-missing name groups,
        (==_iff name resource),
        ap (λ k. lookup k groups),
        lookup-insert name resource p plugins,
        start_plugins-fresh groups (insert name p plugins) d.1,
      )

module _ (w : World) (m : Manager) (resource : Text) where
  abbrev groups : Groups
  groups = discover_device_groups w.host w.found

  pub scan-fresh :
      (reconcile_manager w (record m { plugins = [] })).1 ≡ none
      → lookup resource (reconcile_manager w (record m { plugins = [] })).0.plugins
        ≡ fresh resource (lookup resource groups)
  unfolding reconcile_manager reconcile reconcile_groups refresh_plugins lookup
  scan-fresh h =
      let fine : (start_plugins w.servers groups []).failure ≡ none = ground (arith, h) in
      ground (
        arith,
        start_plugins-fresh w.servers resource groups [] (discover-IsGrouped w.host w.found).once
            fine,
      )

  -- After a restart that did not fail, every resource of the scan has a new plugin, with an empty
  -- channel, and nothing is left of the plugins that ran before.
  pub restart-fresh :
      (restart w m).1 ≡ none
      → lookup resource (restart w m).0.plugins ≡ fresh resource (lookup resource groups)
  unfolding restart
  restart-fresh h = elim (Option-cases (stop_all w.servers m.plugins)) [
    | inr (e, stuck) ↦ absurd (ground (arith, stuck, h))
    | inl stopped ↦ elim (Option-cases (initialize w m)) [
      | inr (e, dirty) ↦ absurd (ground (arith, stopped, dirty, h))
      | inl clean ↦ rw (stopped, restart, clean) (scan-fresh (rw (stopped, restart, clean) at h))
    ]
  ]
