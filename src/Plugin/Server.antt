-- ===== src/Plugin/Server.antt =====
-- plugin.go: `Start`, `register` and `Stop` of a plugin. The sockets and the kubelet's registration
-- service are the system's.
pub mod Sockets
use k8s_device_plugin.Prelude.{Bool, true, false, List, [], ◌∷◌, ◌++◌, Option, none, some}
use k8s_device_plugin.Prelude.Texts.{Text, str}
use k8s_device_plugin.Go.Result.{Result, ok, err}
use k8s_device_plugin.Go.Filepath.{base, dir, join}
use k8s_device_plugin.Go.Host.{FileError, not_exist, io_error}
use k8s_device_plugin.Inventory.{resource_slug}

-- `pluginapi.RegisterRequest`, but for the version of the API.
pub record RegisterRequest : Type 0 where
  pub endpoint : Text
  pub resource_name : Text
  pub preferred_allocation_available : Bool

-- `net.Listener` of a unix socket.
pub record Listener : Type 0 where
  pub address : Text

pub record System : Type 0 where
  pub make_dir : Text → Result Text (Unit {0})
  pub remove : Text → Result FileError (Unit {0})
  pub listen : Text → Result Text Listener
  pub dial : Text → Result Text (Unit {0})
  pub call_register : RegisterRequest → Result Text (Unit {0})

-- The fields of a plugin that its server uses: the paths, the listener that its server serves, none
-- where there is none or it is closed, and whether `stopCh` is closed.
pub record Server : Type 0 where
  pub resource_name : Text
  pub socket_path : Text
  pub kubelet_socket : Text
  pub listening : Option Listener
  pub stopped : Bool

pub data StartError : Type 0 where
  no_directory no_listener no_kubelet not_registered : Text → StartError
  not_removed : FileError → StartError

-- `socketNameForResource` of manager.go
unfoldable pub socket_name_for_resource : Text → Text
unfolding resource_slug
socket_name_for_resource resource_name =
    str "rbln-device-plugin-" ++ (resource_slug resource_name ++ str ".sock")

-- What `NewResourcePlugin` is given for a resource, in the directory of the kubelet.
unfoldable pub new_server : (directory kubelet_socket resource_name : Text) → Server
unfolding socket_name_for_resource join
new_server directory kubelet_socket resource_name = record {
  resource_name = resource_name;
  socket_path = join (directory ∷ socket_name_for_resource resource_name ∷ []);
  kubelet_socket = kubelet_socket;
  listening = none;
  stopped = false;
}

abbrev pub removal : Result FileError (Unit {0}) → Option FileError
removal (ok u) = none
removal (err not_exist) = none
removal (err (io_error e)) = some (io_error e)

unfoldable pub stop_server : System → Server → Server × Option FileError
stop_server sys s =
    (record s { listening = none; stopped = true }, removal (sys.remove s.socket_path))

unfoldable pub request_of : Server → RegisterRequest
unfolding base
request_of s = record {
  endpoint = base s.socket_path;
  resource_name = s.resource_name;
  preferred_allocation_available = true;
}

unfoldable pub register : System → Server → Option StartError
unfolding request_of
register sys s = elim (sys.dial s.kubelet_socket) [
  | err e ↦ some (no_kubelet e)
  | ok u ↦ elim (sys.call_register (request_of s)) [ err e ↦ some (not_registered e) | ok v ↦ none ]
]

-- What follows the listener. A plugin that cannot register is stopped.
unfoldable pub start_listening : System → Server → Listener → Server × Option StartError
unfolding register stop_server
start_listening sys s lis =
    let up = record s { listening = some lis } in
    elim (register sys up) [ none ↦ (up, none) | some e ↦ ((stop_server sys up).0, some e) ]

unfoldable pub start_server : System → Server → Server × Option StartError
unfolding start_listening dir
start_server sys s = elim (sys.make_dir (dir s.socket_path)) [
  | err e ↦ (s, some (no_directory e))
  | ok u ↦ elim (removal (sys.remove s.socket_path)) [
    | some e ↦ (s, some (not_removed e))
    | none ↦ elim (sys.listen s.socket_path) [
      | err e ↦ (s, some (no_listener e))
      | ok lis ↦ start_listening sys s lis
    ]
  ]
]
