-- ===== src/Sriov.antt =====
-- cmd/rbln-device-plugin/sriov.go: what a PCI function is, as sysfs tells.
use k8s_device_plugin.Prelude.{◌||◌, [], ◌∷◌, ◌++◌, none, some, nat_beq, if◌then◌else◌}
use k8s_device_plugin.Prelude.Texts.{Text, str, text_beq}
use k8s_device_plugin.Go.Int.{ℤ, pos, negsuc, is_positive}
use k8s_device_plugin.Go.Result.{Result, ok, err}
use k8s_device_plugin.Go.Strings.{trim_space}
use k8s_device_plugin.Go.Strconv.{atoi, decimal}
use k8s_device_plugin.Go.Filepath.{join, base}
use k8s_device_plugin.Go.Host.{Host, FileError, not_exist}
use k8s_device_plugin.Consts.{vf_resource_name_prefix}

-- `sriovClassNone`, `sriovClassVF`, `sriovClassHostingPF`
pub data SriovClass : Type 0 where
  not_partitioned vf hosting_pf : SriovClass

pub record SriovInfo : Type 0 where
  pub class : SriovClass
  pub parent_pf_bus_id : Text
  pub num_vfs : ℤ

abbrev pub no_sriov : SriovInfo
no_sriov = record { class = not_partitioned; parent_pf_bus_id = []; num_vfs = pos 0 }

pub data NumVfsError : Type 0 where
  unreadable : FileError → NumVfsError
  unparsable : Text → NumVfsError

pub data SriovError : Type 0 where
  read_physfn stat_physfn : Text → FileError → SriovError
  parent_num_vfs : (parent vf : Text) → NumVfsError → SriovError
  own_num_vfs : Text → NumVfsError → SriovError

abbrev pub sriov_sysfs_devices_path : Text
sriov_sysfs_devices_path = str "/sys/bus/pci/devices"

abbrev pub physfn_path : Text → Text
physfn_path bus_id = join (sriov_sysfs_devices_path ∷ bus_id ∷ str "physfn" ∷ [])

abbrev pub num_vfs_path : Text → Text
num_vfs_path bus_id = join (sriov_sysfs_devices_path ∷ bus_id ∷ str "sriov_numvfs" ∷ [])

abbrev parse_num_vfs : Text → Result NumVfsError ℤ
parse_num_vfs raw = elim (atoi (trim_space raw)) [ none ↦ err (unparsable raw) | some n ↦ ok n ]

unfoldable pub read_sriov_num_vfs : Host → Text → Result NumVfsError ℤ
unfolding atoi trim_space join
read_sriov_num_vfs host bus_id = elim (host.read_file (num_vfs_path bus_id)) [
  | err e ↦ err (unreadable e)
  | ok raw ↦ parse_num_vfs raw
]

-- The branch of a device that has the `physfn` link.
unfoldable pub probe_vf : Host → Text → Text → Result SriovError SriovInfo
unfolding read_sriov_num_vfs base
probe_vf host bus_id target = elim (read_sriov_num_vfs host (base target)) [
  | err e ↦ err (parent_num_vfs (base target) bus_id e)
  | ok n ↦ ok (record { class = vf; parent_pf_bus_id = base target; num_vfs = n })
]

-- The branch of a device that has none.
unfoldable pub probe_pf : Host → Text → Result SriovError SriovInfo
unfolding read_sriov_num_vfs
probe_pf host bus_id = elim (read_sriov_num_vfs host bus_id) [
  | err (unreadable not_exist) ↦ ok no_sriov
  | err e ↦ err (own_num_vfs bus_id e)
  | ok n ↦ ok (
      if is_positive n
      then record { class = hosting_pf; parent_pf_bus_id = []; num_vfs = n }
      else no_sriov)
]

unfoldable pub probe_present : Host → Text → Result SriovError SriovInfo
unfolding probe_vf probe_pf join
probe_present host bus_id = elim (host.lstat (physfn_path bus_id)) [
  | err not_exist ↦ probe_pf host bus_id
  | err e ↦ err (stat_physfn bus_id e)
  | ok u ↦ elim (host.readlink (physfn_path bus_id)) [
    | err e ↦ err (read_physfn bus_id e)
    | ok target ↦ probe_vf host bus_id target
  ]
]

unfoldable pub probe_sriov : Host → Text → Result SriovError SriovInfo
unfolding probe_present
probe_sriov host bus_id = if text_beq bus_id [] then ok no_sriov else probe_present host bus_id

-- `ok` holds the name, and `err` the unsupported number of VFs.
unfoldable pub vf_resource_name : ℤ → Result ℤ Text
unfolding decimal
vf_resource_name (negsuc n) = err (negsuc n)
vf_resource_name (pos n) =
    if nat_beq n 1 || nat_beq n 4 then ok (vf_resource_name_prefix ++ decimal n) else err (pos n)
