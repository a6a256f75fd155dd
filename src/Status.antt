-- ===== src/Status.antt =====
-- cmd/rbln-device-plugin/status.go: the status of a device in sysfs, and its health.
use k8s_device_plugin.Prelude.{Bool, [], ◌∷◌, ◌++◌, none, some, nat_beq, if◌then◌else◌}
use k8s_device_plugin.Prelude.Texts.{Text, str}
use k8s_device_plugin.Go.Int.{ℤ, pos, negsuc}
use k8s_device_plugin.Go.Result.{Result, ok, err}
use k8s_device_plugin.Go.Strings.{trim_space}
use k8s_device_plugin.Go.Strconv.{atoi, itoa}
use k8s_device_plugin.Go.Filepath.{join}
use k8s_device_plugin.Go.Host.{Host, FileError}
use k8s_device_plugin.Device.{healthy, unhealthy}

pub data StatusError : Type 0 where
  unreadable : FileError → StatusError
  unparsable : Text → StatusError

abbrev pub rebellions_sysfs_class_path : Text
rebellions_sysfs_class_path = str "/sys/class/rebellions"

abbrev pub device_status_unreadable : Text
device_status_unreadable = str "UNREADABLE"

abbrev status_path : Text → Text
status_path name = join (rebellions_sysfs_class_path ∷ name ∷ str "status" ∷ [])

abbrev parse_status : Text → Result StatusError ℤ
parse_status raw = elim (atoi (trim_space raw)) [ none ↦ err (unparsable raw) | some n ↦ ok n ]

unfoldable pub read_device_status : Host → Text → Result StatusError ℤ
unfolding atoi trim_space join
read_device_status host name = elim (host.read_file (status_path name)) [
  | err e ↦ err (unreadable e)
  | ok raw ↦ parse_status raw
]

abbrev unknown_name : ℤ → Text
unknown_name status = str "UNKNOWN(" ++ itoa status ++ str ")"

unfoldable pub device_status_name : ℤ → Text
unfolding itoa
device_status_name (negsuc n) = unknown_name (negsuc n)
device_status_name (pos n) =
    if nat_beq n 0
    then str "READY"
    else if nat_beq n 1
    then str "BUSY"
    else if nat_beq n 2
    then str "INIT"
    else if nat_beq n 3
    then str "FAULT"
    else if nat_beq n 4
    then str "FINISH"
    else unknown_name (pos n)

abbrev pub is_ready : ℤ → Bool
is_ready (pos n) = nat_beq n 0
is_ready (negsuc n) = nat_beq 1 0

-- The health and the name of the status.
unfoldable pub health_for_device : Host → Text → Text × Text
unfolding read_device_status device_status_name
health_for_device host name = elim (read_device_status host name) [
  | err e ↦ (healthy, device_status_unreadable)
  | ok status ↦ ((if is_ready status then healthy else unhealthy), device_status_name status)
]
