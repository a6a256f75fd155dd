-- ===== src/Samples/Loops.antt =====
-- The theorems on the loop of the manager and on its servers, at concrete events.
use k8s_device_plugin.Prelude.{true, List, [], ◌∷◌, ◌++◌, none, some, ◌≡◌, ◌↔◌, ◌⊎◌, refl}
use k8s_device_plugin.Prelude.Texts.{Text, str, text_eq}
use k8s_device_plugin.Prelude.Dict.{lookup}
use k8s_device_plugin.Go.Int.{pos}
use k8s_device_plugin.Go.Result.{ok, err}
use k8s_device_plugin.Go.Host.{not_exist}
use k8s_device_plugin.Device.{Device, unhealthy}
use k8s_device_plugin.Inventory.{discover_device_groups}
use k8s_device_plugin.Inventory.Classes.{vf_1}
use k8s_device_plugin.Sriov.{SriovInfo, vf}
use k8s_device_plugin.Plugin.{new_resource_plugin}
use k8s_device_plugin.Plugin.Server.{System, new_server}
use k8s_device_plugin.Plugin.Server.Sockets.{
  IsStarted, IsNotStarted, start_server-IsStarted, socket_name-inj,
}
use k8s_device_plugin.Manager.{Servers}
use k8s_device_plugin.Manager.Reconciled.{served, found}
use k8s_device_plugin.Manager.Registered.{servers_of, restart-IsStarted}
use k8s_device_plugin.Manager.Loop.{
  Manager, World, WatchEvent, Event, done, tick, watched, watch_failed, cancelled, run_loop,
  restart,
}
use k8s_device_plugin.Manager.Loop.Ends.{IsEnd, run_loop_iff, run_loop-served}
use k8s_device_plugin.Manager.Loop.Restarted.{fresh, restart-fresh}
use k8s_device_plugin.Samples.Machine.{sriov_machine, inventory, npu, rbln}

abbrev generic : Text
generic = str "rebellions.ai/npu"

abbrev kubelet_socket : Text
kubelet_socket = str "/kubelet/kubelet.sock"

abbrev devices : List Device
devices = (npu 0).info ∷ (npu 1).info ∷ (npu 3).info ∷ []

abbrev accepting : System
accepting = record {
  make_dir = λ path. ok tt;
  remove = λ path. err not_exist;
  listen = λ path. ok (record { address = path });
  dial = λ path. ok tt;
  call_register = λ request. ok tt;
}

abbrev servers : Servers
servers = servers_of accepting (str "/kubelet") kubelet_socket

abbrev world : World
world = record {
  host = sriov_machine;
  servers = servers;
  found = ok devices;
  specs = err not_exist;
  remove = λ name. ok tt;
}

abbrev manager : Manager
manager = record {
  kubelet_socket = kubelet_socket;
  cdi_root = str "/var/run/cdi";
  health = none;
  plugins =
      (str "rebellions.ai/npu-vf1", new_resource_plugin (str "rebellions.ai/npu-vf1") inventory)
      ∷ [];
}

abbrev created : WatchEvent
created = record { name = kubelet_socket; created = true }

-- A scan, an error of the watcher, a restart of the kubelet, and the end.
abbrev events : List Event
events = tick world ∷ watch_failed (str "overflow") ∷ watched created world ∷ []

abbrev ended_early : List Event
ended_early = events ++ done ∷ tick world ∷ []

run_loop_iff_example :
    (run_loop ended_early manager ≡ ((run_loop events manager).0, some cancelled))
    ↔ IsEnd ended_early manager (run_loop events manager).0 cancelled
run_loop_iff_example = run_loop_iff ended_early manager (run_loop events manager).0 cancelled

run_loop-served_example :
    served (lookup generic (run_loop (events ++ tick world ∷ []) manager).0.plugins)
    ≡ found (lookup generic (discover_device_groups {E = Text} sriov_machine (ok devices)))
unfolding run_loop servers_of
run_loop-served_example =
    run_loop-served events world manager generic (λ name. refl) (λ name. refl) refl

restart-fresh_example :
    lookup generic (restart world manager).0.plugins
    ≡ fresh generic (lookup generic (discover_device_groups {E = Text} sriov_machine (ok devices)))
unfolding restart servers_of
restart-fresh_example = restart-fresh world manager generic refl

restart-IsStarted_example : IsStarted accepting (new_server (str "/kubelet") kubelet_socket generic)
unfolding restart servers_of
restart-IsStarted_example =
    restart-IsStarted accepting (str "/kubelet") kubelet_socket world manager generic
      (new_resource_plugin generic
        ((rbln 3, record (npu 3) { health = unhealthy; status_name = str "FAULT" }) ∷ []))
      refl refl refl

-- The kubelet does not answer.
abbrev refusing : System
refusing = record accepting { dial = λ path. err (str "refused") }

start_server-IsStarted_example :
    IsStarted refusing (new_server (str "/kubelet") kubelet_socket generic)
    ⊎ IsNotStarted refusing (new_server (str "/kubelet") kubelet_socket generic)
unfolding new_server
start_server-IsStarted_example =
    start_server-IsStarted refusing (new_server (str "/kubelet") kubelet_socket generic) refl

abbrev function : SriovInfo
function = record { class = vf; parent_pf_bus_id = str "0000:00:00.0"; num_vfs = pos 1 }

socket_name-inj_example : str "rebellions.ai/npu-vf1" ≡ str "rebellions.ai/npu-vf1"
socket_name-inj_example =
    socket_name-inj function (record function { parent_pf_bus_id = str "0000:01:00.0" })
      (str "rebellions.ai/npu-vf1") (str "rebellions.ai/npu-vf1") (vf_1 refl refl refl)
      (vf_1 refl refl refl) refl
