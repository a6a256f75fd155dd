-- ===== src/Samples/Programs.antt =====
-- The theorems on the command and on its log, at concrete inputs.
use k8s_device_plugin.Prelude.{true, false, [], ◌∷◌, none, some, ◌≡◌, ◌↔◌, refl}
use k8s_device_plugin.Prelude.Texts.{str, text_eq}
use k8s_device_plugin.Go.Int.{pos}
use k8s_device_plugin.Go.Result.{ok, err}
use k8s_device_plugin.Go.Host.{not_exist}
use k8s_device_plugin.Health.{HealthServer, not_serving}
use k8s_device_plugin.Logging.{trim_path, setup_from_env, Setup}
use k8s_device_plugin.Logging.Caller.{IsShort, trim_path-IsShort}
use k8s_device_plugin.Logging.RoundTrip.{setup_from_env-settings}
use k8s_device_plugin.Manager.Loop.{Manager, World, done, tick}
use k8s_device_plugin.Program.{System, Flags, new_manager, run_program}
use k8s_device_plugin.Program.Stopped.{
  IsStopped, IsCanceledRun, left_by_run, run_program-IsStopped, run_program_iff,
}
use k8s_device_plugin.Program.Liveness.{ask, run_program-liveness}
use k8s_device_plugin.Samples.Machine.{sriov_machine, npu}

trim_path-IsShort_example :
    IsShort (str "/src/cmd/rbln-device-plugin/main.go") (str "rbln-device-plugin/main.go")
unfolding trim_path
trim_path-IsShort_example = trim_path-IsShort (str "/src/cmd/rbln-device-plugin/main.go")

abbrev setup : Setup
setup = setup_from_env (str " Warning") (str "xml")

abbrev again : Setup
again = setup_from_env setup.settings.level setup.settings.format

setup_from_env-settings_example :
    (again.logger ≡ setup.logger) × (again.settings ≡ setup.settings) × (again.warnings ≡ [])
setup_from_env-settings_example = setup_from_env-settings (str " Warning") (str "xml")

abbrev world : World
world = record {
  host = sriov_machine;
  servers = record { starts = λ name. true; stops = λ name. false };
  found = ok ((npu 0).info ∷ (npu 3).info ∷ []);
  specs = err not_exist;
  remove = λ name. ok tt;
}

abbrev system : System
system = record {
  kubelet_socket = str "/var/lib/kubelet/device-plugins/kubelet.sock";
  make_dir = λ path. ok tt;
  specs = err not_exist;
  remove = λ name. ok tt;
  listen = λ port. ok tt;
  watcher = ok tt;
  first = some world;
  events = tick world ∷ done ∷ [];
  last = world.servers;
  wraps_canceled = λ e. false;
}

abbrev flags : Flags
flags = record {
  cdi_root = str "/var/run/cdi";
  kubelet_device_plugin_path = str "/var/lib/kubelet/device-plugins";
  healthcheck_port = pos 51515;
}

abbrev fresh_health : HealthServer
fresh_health = record { serving = false; running = true }

abbrev fresh : Manager
fresh = record {
  kubelet_socket = str "/var/lib/kubelet/device-plugins/kubelet.sock";
  cdi_root = str "/var/run/cdi";
  health = some fresh_health;
  plugins = [];
}

abbrev down : HealthServer
down = record { serving = false; running = false }

abbrev left : Manager
left = record fresh { health = some down }

run_program-IsStopped_example :
    (made : Manager) × (new_manager system flags ≡ ok made)
    × IsStopped (left_by_run system made) (run_program system flags) left
unfolding run_program
run_program-IsStopped_example = run_program-IsStopped system flags left (ok tt) refl refl

run_program_iff_example :
    ((run_program system flags).result ≡ some (ok tt)) ↔ IsCanceledRun system flags
run_program_iff_example = run_program_iff system flags

-- The first scan has not ended.
abbrev scanning : System
scanning = record system { first = none }

run_program-liveness_example : ask fresh_health (str "liveness") ≡ some (ok not_serving)
unfolding run_program
run_program-liveness_example = run_program-liveness scanning flags fresh fresh_health refl refl
