-- ===== src/Go/Host.antt =====
-- What the program reads of the machine that it runs on. The file system is not the program's:
-- it is a record of functions from paths, and a theorem about the program is about every such
-- record. One scan reads a file at most once, so that a function stands for the contents then.
use mathlib.Core.Path.{◌≡◌, refl}
use mathlib.Core.Logic.{◌⊎◌, inl, inr}
use mathlib.Core.Bool.{Bool}
use k8s_device_plugin.Prelude.Texts.{Text}
use k8s_device_plugin.Go.Result.{Result}

-- `os.ErrNotExist`, or another failure.
pub data FileError : Type 0 where
  not_exist : FileError
  io_error : Text → FileError

pub FileError-cases : (e : FileError) → (e ≡ not_exist) ⊎ ((t : Text) × (e ≡ io_error t))
FileError-cases not_exist = inl refl
FileError-cases (io_error t) = inr (t, refl)

pub record Host : Type 0 where
  -- `os.Lstat`: `ok` where the path is there.
  pub lstat : Text → Result FileError (Unit {0})
  pub readlink : Text → Result FileError Text
  pub read_file : Text → Result FileError Text
  pub eval_symlinks : Text → Result FileError Text
  -- `os.Stat` and `IsDir`.
  pub stat_is_dir : Text → Result FileError Bool
