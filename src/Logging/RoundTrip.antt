-- ===== src/Logging/RoundTrip.antt =====
-- The settings that the program reports are values that it reads back.
use k8s_device_plugin.Prelude.{◌≡◌, refl, [], arith}
use k8s_device_plugin.Prelude.Texts.{Text}
use k8s_device_plugin.Go.Result.{ok}
use k8s_device_plugin.Logging.{
  Level, debug, info, warn, error, Format, json, text, parse_level, parse_format, level_name,
  format_name, setup_from_env, or_info, or_json,
}

parse_level-level_name : (level : Level) → parse_level (level_name level) ≡ ok level
unfolding parse_level level_name
parse_level-level_name debug = refl
parse_level-level_name info = refl
parse_level-level_name warn = refl
parse_level-level_name error = refl

parse_format-format_name : (format : Format) → parse_format (format_name format) ≡ ok format
unfolding parse_format format_name
parse_format-format_name json = refl
parse_format-format_name text = refl

-- Whatever the two variables hold: set to the settings that the program reports, they give the same
-- logger and the same settings, with no warning.
pub setup_from_env-settings :
    (level format : Text)
    → let s = setup_from_env level format in
      let again = setup_from_env s.settings.level s.settings.format in
      (again.logger ≡ s.logger) × (again.settings ≡ s.settings) × (again.warnings ≡ [])
unfolding setup_from_env
setup_from_env-settings level format =
    rw
      (
        parse_level-level_name (or_info (parse_level level)),
        parse_format-format_name (or_json (parse_format format)),
      )
      (refl, refl, ground arith)
