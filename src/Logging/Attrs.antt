-- ===== src/Logging/Attrs.antt =====
-- `replaceAttr` of pkg/logging/logging.go: the keys and values of the attributes that every record
-- has. A time and its RFC 3339 text are those of the `time` library.
use k8s_device_plugin.Prelude.{List, [], ◌∷◌, ◌++◌, if◌then◌else◌}
use k8s_device_plugin.Prelude.Texts.{Text, str, text_beq}
use k8s_device_plugin.Go.Int.{ℤ}
use k8s_device_plugin.Go.Strconv.{itoa}
use k8s_device_plugin.Logging.{Level, level_name, trim_path}

-- `slog.Value`. The values of other kinds are kept as texts.
pub data Value (Time : Type 0) : Type 0 where
  string other : Text → Value Time
  time : Time → Value Time
  level : Level → Value Time
  source : (file : Text) (line : ℤ) → Value Time

pub record Attr (Time : Type 0) : Type 0 where
  pub key : Text
  pub value : Value Time

module _ {Time : Type 0} (rfc_3339 : Time → Text) where
  unfoldable pub replace_time : Attr Time → Attr Time
  replace_time a = elim a.value [
    | time t ↦ record { key = str "ts"; value = string (rfc_3339 t) }
    | string s ↦ a
    | other s ↦ a
    | level l ↦ a
    | source file line ↦ a
  ]

  unfoldable pub replace_level : Attr Time → Attr Time
  unfolding level_name
  replace_level a = elim a.value [
    | level l ↦ record { key = a.key; value = string (level_name l) }
    | string s ↦ a
    | other s ↦ a
    | time t ↦ a
    | source file line ↦ a
  ]

  unfoldable pub replace_source : Attr Time → Attr Time
  unfolding trim_path itoa
  replace_source a = elim a.value [
    | source file line ↦ record {
      key = str "caller";
      value = string (trim_path file ++ (b':' ∷ itoa line));
    }
    | string s ↦ a
    | other s ↦ a
    | time t ↦ a
    | level l ↦ a
  ]

  unfoldable pub replace_attr : List Text → Attr Time → Attr Time
  unfolding replace_time replace_level replace_source
  replace_attr (group ∷ groups) a = a
  replace_attr [] a =
      if text_beq a.key (str "time")
      then replace_time a
      else if text_beq a.key (str "level")
      then replace_level a
      else if text_beq a.key (str "source")
      then replace_source a
      else a
