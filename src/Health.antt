-- ===== src/Health.antt =====
-- cmd/rbln-device-plugin/health.go: the health service. The listener and the gRPC server are the
-- system's: whether the port can be listened on is an argument.
use k8s_device_plugin.Prelude.{ℕ, Bool, true, false, ◌||◌, [], Option, none, some, if◌then◌else◌}
use k8s_device_plugin.Prelude.Texts.{Text, str, text_beq}
use k8s_device_plugin.Go.Int.{ℤ, pos, negsuc}
use k8s_device_plugin.Go.Result.{Result, ok, err}

-- `serving`, and whether the server and the listener still run.
pub record HealthServer : Type 0 where
  pub serving : Bool
  pub running : Bool

-- A negative port disables the service. `err` holds why the port cannot be listened on.
unfoldable pub start_healthcheck :
    (ℕ → Result Text (Unit {0})) → ℤ → Result Text (Option HealthServer)
start_healthcheck listen (negsuc n) = ok none
start_healthcheck listen (pos port) = elim (listen port) [
  | err e ↦ err e
  | ok u ↦ ok (some (record { serving = false; running = true }))
]

unfoldable pub set_serving : Bool → HealthServer → HealthServer
set_serving serving h = record h { serving = serving }

unfoldable pub stop_health : HealthServer → HealthServer
stop_health h = record h { running = false }

pub data ServingStatus : Type 0 where
  serving not_serving : ServingStatus

-- `codes.NotFound`
pub data CheckError : Type 0 where
  unknown_service : CheckError

unfoldable pub check : HealthServer → Text → Result CheckError ServingStatus
check h service =
    if text_beq service [] || text_beq service (str "liveness")
    then ok (if h.serving then serving else not_serving)
    else err unknown_service
