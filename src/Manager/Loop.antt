-- ===== src/Manager/Loop.antt =====
-- manager.go: the life of the manager, from `NewManager` over the events of `Run` to `Stop`.
--
-- An event is what the `select` of the loop receives, with what the calls that it causes find of
-- the machine then: the results of the device library, of the file system, and of the plugins'
-- servers.
pub mod Ends
pub mod Restarted
use k8s_device_plugin.Prelude.{
  Bool, true, false, not, List, [], ◌∷◌, Option, none, some, if◌then◌else◌, ◌&&◌,
}
use k8s_device_plugin.Prelude.Texts.{Text, text_beq}
use k8s_device_plugin.Go.Result.{Result, ok, err}
use k8s_device_plugin.Go.Filepath.{clean}
use k8s_device_plugin.Go.Host.{Host, FileError}
use k8s_device_plugin.Device.{Device}
use k8s_device_plugin.Cdi.{Entry, cleanup_transient_specs}
use k8s_device_plugin.Health.{HealthServer, set_serving, stop_health}
use k8s_device_plugin.Manager.{Plugins, Servers, Scan, ManagerError, stop_failed, reconcile}

pub record Manager : Type 0 where
  pub kubelet_socket : Text
  pub cdi_root : Text
  pub health : Option HealthServer
  pub plugins : Plugins

-- What the calls of one event find.
pub record World : Type 0 where
  pub host : Host
  pub servers : Servers
  pub found : Result Text (List Device)
  pub specs : Result FileError (List Entry)
  pub remove : Text → Result FileError (Unit {0})

-- `fsnotify.Event`: the path, and whether `Has(Create)`.
pub record WatchEvent : Type 0 where
  pub name : Text
  pub created : Bool

pub data Event : Type 0 where
  done : Event
  tick : World → Event
  watched : WatchEvent → World → Event
  watch_failed : Text → Event
  watcher_closed : Event

-- Why the loop ended.
pub data RunError : Type 0 where
  cancelled : RunError
  watcher_gone : RunError
  scan_failed : ManagerError → RunError
  cleanup_failed : FileError → RunError
  no_watcher : Text → RunError

unfoldable pub is_kubelet_restart_event : Text → WatchEvent → Bool
unfolding clean
is_kubelet_restart_event kubelet_socket event =
    text_beq (clean event.name) (clean kubelet_socket) && event.created

abbrev pub Stepped : Type 0
Stepped = Manager × Option RunError

abbrev scan_error : Option ManagerError → Option RunError
scan_error none = none
scan_error (some e) = some (scan_failed e)

-- A scan keeps what it has done before it fails.
unfoldable pub reconcile_manager : World → Manager → Stepped
unfolding reconcile
reconcile_manager w m =
    let scan = reconcile w.host w.servers w.found m.plugins in
    (record m { plugins = scan.plugins }, scan_error scan.failure)

-- The first plugin that does not stop.
unfoldable pub stop_all : Servers → Plugins → Option ManagerError
stop_all servers [] = none
stop_all servers ((resource_name, p) ∷ plugins) =
    let rest = stop_all servers plugins in
    if servers.stops resource_name then rest else some (stop_failed resource_name)

unfoldable pub initialize : World → Manager → Option FileError
unfolding cleanup_transient_specs
initialize w m = (cleanup_transient_specs m.cdi_root w.remove w.specs).failure

unfoldable pub restart : World → Manager → Stepped
unfolding stop_all initialize reconcile_manager
restart w m = elim (stop_all w.servers m.plugins) [
  | some e ↦ (m, some (scan_failed e))
  | none ↦ elim (initialize w m) [
    | some e ↦ (record m { plugins = [] }, some (cleanup_failed e))
    | none ↦ reconcile_manager w (record m { plugins = [] })
  ]
]

-- One round of the loop.
unfoldable pub handle : Event → Manager → Stepped
unfolding reconcile_manager restart is_kubelet_restart_event
handle done m = (m, some cancelled)
handle (tick w) m = ((reconcile_manager w m).0, none)
handle (watched event w) m =
    if is_kubelet_restart_event m.kubelet_socket event then restart w m else (m, none)
handle (watch_failed e) m = (m, none)
handle watcher_closed m = (m, some watcher_gone)

-- The loop, over the events that it receives. None: it waits for more.
unfoldable pub run_loop : List Event → Manager → Stepped
unfolding handle
run_loop [] m = (m, none)
run_loop (event ∷ events) m =
    let (next, stop) = handle event m in
    let rest = run_loop events next in elim stop [ some e ↦ (next, some e) | none ↦ rest ]

abbrev pub serve : Bool → Manager → Manager
serve serving m = record m {
  health = elim m.health [ none ↦ none | some h ↦ some (set_serving serving h) ];
}

-- `Run`: the first scan, the health, the watcher, and the loop. Where the first scan has not ended,
-- there is no world: what it has started by then is not shown, and the health is as it was.
unfoldable pub run : Option World → Result Text (Unit {0}) → List Event → Manager → Stepped
unfolding reconcile_manager run_loop set_serving
run none watcher events m = (m, none)
run (some w) watcher events m =
    let (scanned, failure) = reconcile_manager w m in
    let looped = run_loop events (serve true scanned) in
    elim failure [
      | some e ↦ (scanned, some e)
      | none ↦ elim watcher [ err e ↦ (serve true scanned, some (no_watcher e)) | ok u ↦ looped ]
    ]

-- A call of `Stop` of a plugin. That it failed is only recorded.
pub record StopCall : Type 0 where
  pub resource_name : Text
  pub failed : Bool

-- The loop of `Stop`, which goes on where a plugin does not stop.
unfoldable pub stop_each : Servers → Plugins → List StopCall
stop_each servers [] = []
stop_each servers ((resource_name, p) ∷ plugins) =
    record { resource_name = resource_name; failed = not (servers.stops resource_name) }
    ∷ stop_each servers plugins

abbrev stop_served : Option HealthServer → Option HealthServer
stop_served none = none
stop_served (some h) = some (stop_health (set_serving false h))

-- `Stop`: the manager that is left, and the plugins that were stopped.
unfoldable pub stop : Servers → Manager → Manager × List StopCall
unfolding set_serving stop_health stop_each
stop servers m =
    (record m { health = stop_served m.health; plugins = [] }, stop_each servers m.plugins)
