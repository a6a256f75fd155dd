-- ===== src/Samples/Specs.antt =====
-- The cleanup of the CDI specs in a small directory.
use k8s_device_plugin.Prelude.{List, [], ◌∷◌, refl, true, false}
use k8s_device_plugin.Prelude.Texts.{Text, str}
use k8s_device_plugin.Go.Result.{Result, ok, err}
use k8s_device_plugin.Go.Host.{FileError, io_error}
use k8s_device_plugin.Cdi.{Entry, is_transient, cleanup_transient_specs}
use k8s_device_plugin.Cdi.Cleanup.{IsCleaned, IsStuck, cleanup-IsCleaned, cleanup-IsStuck}

abbrev other_spec : Entry
other_spec = record { name = str "nvidia.com-gpu.yaml"; is_dir = false }

-- A spec of the plugin, a spec of another vendor, and a directory with the name of a spec.
abbrev entries : List Entry
entries =
    record { name = str "rebellions.ai-npu_runtime.json"; is_dir = false }
    ∷ other_spec
    ∷ record { name = str "rebellions.ai-npu_old"; is_dir = true }
    ∷ []

abbrev removed : Text → Result FileError (Unit {0})
removed path = ok tt

abbrev cdi_root : Text
cdi_root = str "/var/run/cdi"

cleanup-IsCleaned_example :
    IsCleaned cdi_root removed entries
      (cleanup_transient_specs cdi_root removed (ok entries)).removed
unfolding cleanup_transient_specs is_transient
cleanup-IsCleaned_example = cleanup-IsCleaned cdi_root removed entries refl

-- A directory on a disk that cannot be written.
abbrev read_only : Text → Result FileError (Unit {0})
read_only path = err (io_error (str "read-only file system"))

cleanup-IsStuck_example :
    IsStuck cdi_root read_only entries
      (cleanup_transient_specs cdi_root read_only (ok entries)).removed
      (io_error (str "read-only file system"))
unfolding cleanup_transient_specs is_transient
cleanup-IsStuck_example =
    cleanup-IsStuck cdi_root read_only entries (io_error (str "read-only file system")) refl
