-- ===== src/Logging.antt =====
-- pkg/logging/logging.go: the level and the format of the log, from the environment, and the short
-- caller of a record. The handlers that write the records are those of `log/slog`.
pub mod Caller
pub mod RoundTrip
pub mod Attrs
use k8s_device_plugin.Prelude.{
  ℕ, Bool, true, false, List, [], ◌∷◌, ◌++◌, Option, none, some, leb, drop, take, ◌+◌,
  if◌then◌else◌,
}
use k8s_device_plugin.Prelude.Texts.{Text, str, text_beq}
use k8s_device_plugin.Go.Result.{Result, ok, err}
use k8s_device_plugin.Go.Strings.{trim_space, to_lower, last_index}

-- `slog.Level`, in the four values that the program uses.
pub data Level : Type 0 where
  debug info warn error : Level

-- The numbers of `log/slog`, from -4 on, raised by four.
unfoldable pub rank : Level → ℕ
rank debug = 0
rank info = 4
rank warn = 8
rank error = 12

-- Whether a logger with the first level emits a record of the second.
unfoldable pub enabled : Level → Level → Bool
unfolding rank
enabled gate level = leb (rank gate) (rank level)

-- A record, whose keys and values alternate as texts.
pub record LogRecord : Type 0 where
  pub level : Level
  pub message : Text
  pub attrs : List Text

-- `strings.ToLower(lvl.String())`
unfoldable pub level_name : Level → Text
level_name debug = str "debug"
level_name info = str "info"
level_name warn = str "warn"
level_name error = str "error"

abbrev level_of : Text → Option Level
level_of s =
    if text_beq s []
    then some info
    else if text_beq s (str "info")
    then some info
    else if text_beq s (str "error")
    then some error
    else if text_beq s (str "warning")
    then some warn
    else if text_beq s (str "warn")
    then some warn
    else if text_beq s (str "debug")
    then some debug
    else none

-- An error keeps the text that was not understood.
unfoldable pub parse_level : Text → Result Text Level
unfolding trim_space to_lower
parse_level s = elim (level_of (to_lower (trim_space s))) [ some level ↦ ok level | none ↦ err s ]

pub data Format : Type 0 where
  json text : Format

unfoldable pub format_name : Format → Text
format_name json = str "json"
format_name text = str "text"

abbrev format_of : Text → Option Format
format_of s =
    if text_beq s []
    then some json
    else if text_beq s (str "json")
    then some json
    else if text_beq s (str "text")
    then some text
    else none

unfoldable pub parse_format : Text → Result Text Format
unfolding trim_space to_lower
parse_format s = elim (format_of (to_lower (trim_space s))) [
  | some format ↦ ok format
  | none ↦ err s
]

-- The logger that is installed: its level, its format, and whether records name their caller.
pub record Logger : Type 0 where
  pub level : Level
  pub format : Format
  pub add_source : Bool

unfoldable pub new_logger : Level → Format → Logger
unfolding rank
new_logger level format = record {
  level = level;
  format = format;
  add_source = leb (rank level) (rank debug);
}

pub record Settings : Type 0 where
  pub level : Text
  pub format : Text

-- The variables that had an invalid value, with the default that is used.
pub data Warning : Type 0 where
  invalid_level invalid_format : Text → Warning

pub record Setup : Type 0 where
  pub logger : Logger
  pub settings : Settings
  pub warnings : List Warning

abbrev pub or_info : Result Text Level → Level
or_info (ok level) = level
or_info (err s) = info

abbrev level_warning : Result Text Level → List Warning
level_warning (ok level) = []
level_warning (err s) = invalid_level s ∷ []

abbrev pub or_json : Result Text Format → Format
or_json (ok format) = format
or_json (err s) = json

abbrev format_warning : Result Text Format → List Warning
format_warning (ok format) = []
format_warning (err s) = invalid_format s ∷ []

-- The records that the installed logger emits of the warnings.
abbrev gated : Level → List Warning → List Warning
gated gate warnings = if leb (rank gate) (rank warn) then warnings else []

-- For the values of the two variables, which are empty where they are not set.
unfoldable pub setup_from_env : (level format : Text) → Setup
unfolding parse_level parse_format new_logger level_name format_name rank
setup_from_env level format =
    let lvl = or_info (parse_level level) in
    let fmt = or_json (parse_format format) in
    record {
      logger = new_logger lvl fmt;
      settings = record { level = level_name lvl; format = format_name fmt };
      warnings =
          gated lvl (level_warning (parse_level level) ++ format_warning (parse_format format));
    }

unfoldable pub trim_path : Text → Text
unfolding last_index
trim_path file = elim (last_index file b'/') [
  | none ↦ file
  | some idx ↦ elim (last_index (take idx file) b'/') [
    | none ↦ file
    | some idx2 ↦ drop (idx2 + 1) file
  ]
]
