-- ===== src/Bridges.antt =====
-- cmd/rbln-device-plugin/grpclog.go and otellog.go: the records that the gRPC and OpenTelemetry
-- libraries log, as records of the program's own stream. A key or a value of a record is a text.
use k8s_device_plugin.Prelude.{Bool, List, [], ◌∷◌, ◌++◌, nat_beq}
use k8s_device_plugin.Prelude.Texts.{Text, str}
use k8s_device_plugin.Go.Strings.{trim_right_with}
use k8s_device_plugin.Logging.{Level, LogRecord, debug, warn, error, enabled}
pub mod Gated

-- The methods of `grpclog.LoggerV2`, by their severity.
pub data Severity : Type 0 where
  info warning failure fatal : Severity

unfoldable pub grpc_level : Severity → Level
grpc_level info = debug
grpc_level warning = warn
grpc_level failure = error
grpc_level fatal = error

unfoldable pub grpc_log : Severity → Text → LogRecord
unfolding grpc_level
grpc_log severity message = record {
  level = grpc_level severity;
  message = trim_right_with (nat_beq b'\n') message;
  attrs = str "component" ∷ str "grpc" ∷ [];
}

-- `V`, under a gate.
unfoldable pub grpc_verbose : Level → Bool
unfolding enabled
grpc_verbose gate = enabled gate debug

-- `otelLogSink`
pub record LogSink : Type 0 where
  pub attrs : List Text

unfoldable pub otel_log : Level → Text → List Text → LogRecord
otel_log level message args = record {
  level = level;
  message = message;
  attrs = args ++ (str "component" ∷ str "otel" ∷ []);
}

-- `args`
unfoldable pub sink_args : LogSink → List Text → List Text
sink_args s kv = s.attrs ++ kv

unfoldable pub with_values : LogSink → List Text → LogSink
unfolding sink_args
with_values s kv = record { attrs = sink_args s kv }

-- What the library calls: `Info`, `Error`, and `Handle` of the error handler.
pub data OtelCall : Type 0 where
  otel_info : Text → List Text → OtelCall
  otel_error : (failed message : Text) → List Text → OtelCall
  otel_handle : Text → OtelCall

unfoldable pub sink_log : LogSink → OtelCall → LogRecord
unfolding otel_log sink_args
sink_log s (otel_info message kv) = otel_log debug message (sink_args s kv)
sink_log s (otel_error failed message kv) =
    otel_log warn message (sink_args s kv ++ (str "err" ∷ failed ∷ []))
sink_log s (otel_handle failed) =
    otel_log warn (str "OpenTelemetry SDK error") (str "err" ∷ failed ∷ [])
