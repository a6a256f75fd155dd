-- ===== src/Program.antt =====
-- cmd/rbln-device-plugin/main.go: the command. The parser of the command line, the signals and the
-- tracing library are not the program's: what they give is an argument.
pub mod Stopped
pub mod Liveness
use k8s_device_plugin.Prelude.{
  ℕ, Bool, true, false, List, [], ◌∷◌, Option, none, some, if◌then◌else◌,
}
use k8s_device_plugin.Prelude.Texts.{Text, str}
use k8s_device_plugin.Go.Int.{ℤ}
use k8s_device_plugin.Go.Result.{Result, ok, err}
use k8s_device_plugin.Go.Filepath.{join, base}
use k8s_device_plugin.Go.Host.{FileError}
use k8s_device_plugin.Cdi.{Entry, cleanup_transient_specs}
use k8s_device_plugin.Health.{start_healthcheck}
use k8s_device_plugin.Manager.{Servers}
use k8s_device_plugin.Manager.Loop.{
  Manager, World, Event, RunError, cancelled, watcher_gone, scan_failed, cleanup_failed, no_watcher,
  StopCall, run, stop,
}

pub record Flags : Type 0 where
  pub cdi_root : Text
  pub kubelet_device_plugin_path : Text
  pub healthcheck_port : ℤ

-- `pluginapi.KubeletSocket`, and the path of the socket in the directory of the flags.
unfoldable pub kubelet_socket_path : Text → Flags → Text
unfolding join base
kubelet_socket_path kubelet_socket flags =
    join (flags.kubelet_device_plugin_path ∷ base kubelet_socket ∷ [])

pub data ProgramError : Type 0 where
  no_directory : Text → ProgramError
  no_cdi : FileError → ProgramError
  no_healthcheck : Text → ProgramError
  run_failed : RunError → ProgramError

-- What the system gives the command.
pub record System : Type 0 where
  pub kubelet_socket : Text
  -- `os.MkdirAll`
  pub make_dir : Text → Result Text (Unit {0})
  -- What the cleanup of NewManager finds, and what `os.Remove` does then.
  pub specs : Result FileError (List Entry)
  pub remove : Text → Result FileError (Unit {0})
  pub listen : ℕ → Result Text (Unit {0})
  pub watcher : Result Text (Unit {0})
  -- What the first scan finds, none while it has not ended, and the events that follow.
  pub first : Option World
  pub events : List Event
  -- Whether the plugins stop at the end.
  pub last : Servers
  -- Whether the error of a library that an error of `Run` wraps is `context.Canceled`.
  pub wraps_canceled : RunError → Bool

-- `NewManager`
unfoldable pub new_manager : System → Flags → Result ProgramError Manager
unfolding cleanup_transient_specs start_healthcheck kubelet_socket_path
new_manager sys flags = elim (cleanup_transient_specs flags.cdi_root sys.remove sys.specs).failure [
  | some e ↦ err (no_cdi e)
  | none ↦ elim (start_healthcheck sys.listen flags.healthcheck_port) [
    | err e ↦ err (no_healthcheck e)
    | ok health ↦ ok (record {
      kubelet_socket = kubelet_socket_path sys.kubelet_socket flags;
      cdi_root = flags.cdi_root;
      health = health;
      plugins = [];
    })
  ]
]

-- `errors.Is(err, context.Canceled)` for an error of `Run`: what `ctx.Err()` returns is that error,
-- the loss of the watcher wraps no other, and the others wrap what a library returned.
unfoldable pub is_canceled : (RunError → Bool) → RunError → Bool
is_canceled wraps cancelled = true
is_canceled wraps watcher_gone = false
is_canceled wraps (scan_failed e) = wraps (scan_failed e)
is_canceled wraps (cleanup_failed e) = wraps (cleanup_failed e)
is_canceled wraps (no_watcher e) = wraps (no_watcher e)

-- A cancelled context is the normal end.
unfoldable pub exit_of : System → RunError → Result ProgramError (Unit {0})
unfolding is_canceled
exit_of sys e = if is_canceled sys.wraps_canceled e then ok tt else err (run_failed e)

-- The manager that is left, where one was made, the plugins that its `Stop` has stopped, and how the
-- command ends: none where it waits.
pub record Exit : Type 0 where
  pub manager : Option Manager
  pub stopped : List StopCall
  pub result : Option (Result ProgramError (Unit {0}))

abbrev stopped_exit : System → Manager → RunError → Exit
stopped_exit sys left e =
    let (stopped, calls) = stop sys.last left in
    record { manager = some stopped; stopped = calls; result = some (exit_of sys e) }

-- `Stop` is deferred: it runs whenever `Run` of the manager returns.
unfoldable pub run_manager : System → Manager → Exit
unfolding run stop exit_of
run_manager sys m =
    let (left, failure) = run sys.first sys.watcher sys.events m in
    elim failure [
      | none ↦ record { manager = some left; stopped = []; result = none }
      | some e ↦ stopped_exit sys left e
    ]

abbrev pub refused : ProgramError → Exit
refused e = record { manager = none; stopped = []; result = some (err e) }

-- `Run`. Tracing that cannot be set up is only warned of, and leaves nothing else behind.
unfoldable pub run_program : System → Flags → Exit
unfolding new_manager run_manager
run_program sys flags = elim (sys.make_dir flags.kubelet_device_plugin_path) [
  | err e ↦ refused (no_directory e)
  | ok u ↦ elim (sys.make_dir flags.cdi_root) [
    | err e ↦ refused (no_directory e)
    | ok v ↦ elim (new_manager sys flags) [ err e ↦ refused e | ok m ↦ run_manager sys m ]
  ]
]
