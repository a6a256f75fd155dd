-- ===== src/Manager/Registered.antt =====
-- The servers that the manager starts are those of plugin.go.
use k8s_device_plugin.Prelude.{
  Bool, true, false, Option, none, some, Option-cases, [], ◌∷◌, ◌≡◌, refl, sym, ap, ◌∙◌, inl, inr,
  arith, ==_iff,
}
use k8s_device_plugin.Prelude.Texts.{Text, text_eq}
use k8s_device_plugin.Prelude.Dict.{lookup, insert}
use k8s_device_plugin.Inventory.{DeviceGroup, Groups, discover_device_groups}
use k8s_device_plugin.Plugin.{Plugin, new_resource_plugin}
use k8s_device_plugin.Plugin.Server.{System, new_server, start_server, stop_server}
use k8s_device_plugin.Plugin.Server.Sockets.{IsStarted, start_server-IsStarted}
use k8s_device_plugin.Manager.{
  Plugins, Servers, start_plugins, refresh_plugins, reconcile_groups, reconcile,
}
use k8s_device_plugin.Manager.Loop.{
  Manager, World, stop_all, initialize, reconcile_manager, restart,
}
use k8s_device_plugin.Manager.Loop.Restarted.{restart-fresh}

abbrev succeeds {ℓ} : {A : Type ℓ} → Option A → Bool
succeeds none = true
succeeds (some e) = false

-- The paths of a plugin depend on its resource alone, and so does whether it starts or stops.
unfoldable pub servers_of : System → (directory kubelet_socket : Text) → Servers
unfolding new_server start_server stop_server
servers_of sys directory kubelet_socket = record {
  starts = λ name. succeeds (start_server sys (new_server directory kubelet_socket name)).1;
  stops = λ name. succeeds (stop_server sys (new_server directory kubelet_socket name)).1;
}

start_plugins-starts :
    (servers : Servers) (resource : Text) (groups : Groups) (plugins : Plugins) (g : DeviceGroup)
    → (start_plugins servers groups plugins).failure ≡ none
    → lookup resource groups ≡ some g
    → servers.starts resource ≡ true
unfolding start_plugins lookup
start_plugins-starts servers resource [] plugins g h there = absurd cc
start_plugins-starts servers resource ((name, group) ∷ groups) plugins g h there = ground (
  arith,
  ==_iff name resource,
  ap servers.starts,
  start_plugins-starts servers resource groups
      (insert name (new_resource_plugin name group.devices) plugins) g,
)

module _ (w : World) (m : Manager) (resource : Text) where
  scan-starts :
      (g : DeviceGroup)
      → (reconcile_manager w (record m { plugins = [] })).1 ≡ none
      → lookup resource (discover_device_groups w.host w.found) ≡ some g
      → w.servers.starts resource ≡ true
  unfolding reconcile_manager reconcile reconcile_groups refresh_plugins
  scan-starts g h =
      start_plugins-starts w.servers resource (discover_device_groups w.host w.found) [] g
        (ground (arith, h))

  restart-starts :
      (p : Plugin)
      → (restart w m).1 ≡ none
      → lookup resource (restart w m).0.plugins ≡ some p
      → w.servers.starts resource ≡ true
  unfolding restart
  restart-starts p h there =
      elim (Option-cases (lookup resource (discover_device_groups w.host w.found))) [
        | inl absent ↦ absurd (ground (arith, restart-fresh w m resource h, absent, there))
        | inr (g, here) ↦ elim (Option-cases (stop_all w.servers m.plugins)) [
          | inr (e, stuck) ↦ absurd (ground (arith, stuck, h))
          | inl stopped ↦ elim (Option-cases (initialize w m)) [
            | inr (e, dirty) ↦ absurd (ground (arith, stopped, dirty, h))
            | inl clean ↦ scan-starts g (rw (stopped, restart, clean) at h) here
          ]
        ]
      ]

-- Where the manager runs the servers of plugin.go, every plugin that it has after a restart that
-- did not fail serves the listener that it was given for the socket of its resource, and the
-- kubelet, reached at its socket, has accepted the registration of that socket for that resource.
pub restart-IsStarted :
    (sys : System) (directory kubelet_socket : Text) (w : World) (m : Manager) (resource : Text)
    (p : Plugin)
    → w.servers ≡ servers_of sys directory kubelet_socket
    → (restart w m).1 ≡ none
    → lookup resource (restart w m).0.plugins ≡ some p
    → IsStarted sys (new_server directory kubelet_socket resource)
unfolding servers_of new_server
restart-IsStarted sys directory kubelet_socket w m resource p real h there =
    let s = new_server directory kubelet_socket resource in
    let up : (servers_of sys directory kubelet_socket).starts resource ≡ true =
      ap (λ k. k.starts resource) (sym real) ∙ restart-starts w m resource p h there in
    elim (start_server-IsStarted sys s refl) [
      | inl started ↦ started
      | inr (e, failed, down) ↦ absurd (ground (arith, ap succeeds failed, up))
    ]
