-- ===== src/Bridges/Gated.antt =====
-- Which records of the libraries reach the stream, and what they carry.
use mathlib.Core.List.{append_assoc}
use k8s_device_plugin.Prelude.{List, ◌++◌, ◌≡◌, ap}
use k8s_device_plugin.Prelude.Texts.{Text}
use k8s_device_plugin.Logging.{debug}
use k8s_device_plugin.Bridges.{LogSink, otel_info, otel_log, sink_log, with_values}

-- A sink that was given values logs a message as the sink before it would with those values in
-- front of the message's own.
pub sink_log-with_values :
    (s : LogSink) (values : List Text) (message : Text) (kv : List Text)
    → sink_log (with_values s values) (otel_info message kv)
      ≡ sink_log s (otel_info message (values ++ kv))
unfolding sink_log with_values
sink_log-with_values s values message kv =
    ap (otel_log debug message) (append_assoc s.attrs values kv)
