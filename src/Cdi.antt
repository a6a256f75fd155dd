-- ===== src/Cdi.antt =====
-- cmd/rbln-device-plugin/cdi.go: the specs of an earlier run that `Initialize` removes. Reading the
-- directory and removing a file are calls of the system: they are arguments.
pub mod Cleanup
use k8s_device_plugin.Prelude.{
  Bool, not, ◌&&◌, List, [], ◌∷◌, ◌++◌, Option, none, some, if◌then◌else◌,
}
use k8s_device_plugin.Prelude.Texts.{Text, str}
use k8s_device_plugin.Go.Result.{Result, ok, err}
use k8s_device_plugin.Go.Strings.{has_prefix}
use k8s_device_plugin.Go.Filepath.{join}
use k8s_device_plugin.Go.Host.{FileError, not_exist, io_error}
use k8s_device_plugin.Consts.{cdi_vendor, cdi_class}

pub record Entry : Type 0 where
  pub name : Text
  pub is_dir : Bool

abbrev pub transient_prefix : Text
transient_prefix = cdi_vendor ++ str "-" ++ cdi_class ++ str "_"

unfoldable pub is_transient : Entry → Bool
unfolding has_prefix
is_transient entry = not entry.is_dir && has_prefix entry.name transient_prefix

-- The paths that `os.Remove` was called with, in that order, and the error that ended the loop.
pub record Cleaned : Type 0 where
  pub removed : List Text
  pub failure : Option FileError

module _ (root : Text) (remove : Text → Result FileError (Unit {0})) where
  unfoldable pub clean_entries : List Entry → Cleaned
  clean_entries [] = record { removed = []; failure = none }
  clean_entries (entry ∷ entries) =
      let path = join (root ∷ entry.name ∷ []) in
      let rest = clean_entries entries in
      let tried = record rest { removed = path ∷ rest.removed } in
      if is_transient entry
      then elim (remove path) [
        | ok u ↦ tried
        | err not_exist ↦ tried
        | err (io_error e) ↦ record { removed = path ∷ []; failure = some (io_error e) }
      ]
      else rest

  -- For what `ReadDir` returned.
  unfoldable pub cleanup_transient_specs : Result FileError (List Entry) → Cleaned
  unfolding clean_entries
  cleanup_transient_specs (ok entries) = clean_entries entries
  cleanup_transient_specs (err not_exist) = record { removed = []; failure = none }
  cleanup_transient_specs (err (io_error e)) = record { removed = []; failure = some (io_error e) }
