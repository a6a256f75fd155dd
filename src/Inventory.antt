-- ===== src/Inventory.antt =====
-- cmd/rbln-device-plugin/inventory.go: which devices are advertised, under which resource, and
-- what has changed between two scans.
pub mod Groups
pub mod Classes
pub mod Listing
pub mod Changes
use k8s_device_plugin.Prelude.{
  ℕ, ◌+◌, Bool, true, false, not, ◌&&◌, ◌||◌, List, [], ◌∷◌, ◌++◌, Option, none, some, length,
  nat_beq, if◌then◌else◌,
}
use k8s_device_plugin.Prelude.Texts.{Text, str, text_eq, text_beq}
use k8s_device_plugin.Prelude.Dict.{Dict, lookup, insert, keys}
use k8s_device_plugin.Go.Int.{ℤ}
use k8s_device_plugin.Go.Result.{Result, ok, err}
use k8s_device_plugin.Go.Strings.{to_lower, replace_all}
use k8s_device_plugin.Go.Strconv.{atoi}
use k8s_device_plugin.Go.Host.{Host}
use k8s_device_plugin.Device.{Device, NpuDevice, healthy, unhealthy, sorted_device_ids}
use k8s_device_plugin.Consts.{generic_resource_name}
use k8s_device_plugin.Logging.{Level, info, warn}
use k8s_device_plugin.Sriov.{
  SriovInfo, not_partitioned, vf, hosting_pf, probe_sriov, vf_resource_name,
}
use k8s_device_plugin.Status.{health_for_device}

pub record DeviceGroup : Type 0 where
  pub resource_name : Text
  pub devices : Dict Text NpuDevice

abbrev supported : Result ℤ Text → Result ℤ (Option Text)
supported (err n) = err n
supported (ok name) = ok (some name)

-- The resource of a device: `ok none` where it is not advertised, and `err` where the partition
-- mode is not supported.
unfoldable pub resource_for_device : SriovInfo → Result ℤ (Option Text)
unfolding vf_resource_name
resource_for_device sriov = elim sriov.class [
  | vf ↦ supported (vf_resource_name sriov.num_vfs)
  | hosting_pf ↦ ok none
  | not_partitioned ↦ ok (some generic_resource_name)
]

abbrev pub Groups : Type 0
Groups = Dict Text DeviceGroup

unfoldable pub npu_of : Host → Device → SriovInfo → NpuDevice
unfolding health_for_device
npu_of host device sriov = record {
  info = device;
  health = (health_for_device host device.name).0;
  status_name = (health_for_device host device.name).1;
  parent_pf_bus_id = sriov.parent_pf_bus_id;
}

unfoldable pub group_or_new : Text → Groups → DeviceGroup
unfolding lookup
group_or_new name groups = elim (lookup name groups) [
  | none ↦ record { resource_name = name; devices = [] }
  | some g ↦ g
]

unfoldable pub put_device : Text → NpuDevice → Groups → Groups
unfolding group_or_new insert
put_device name device groups =
    let group = group_or_new name groups in
    insert name (record group { devices = insert device.info.name device group.devices }) groups

-- The body of the loop of `discoverDeviceGroups`: three ways to skip a device.
unfoldable pub classify : Host → Device → Option (Text × SriovInfo)
unfolding probe_sriov resource_for_device
classify host device = elim (probe_sriov host device.pci_bus_id) [
  | err e ↦ none
  | ok sriov ↦ elim (resource_for_device sriov) [
    | err n ↦ none
    | ok none ↦ none
    | ok (some name) ↦ some (name, sriov)
  ]
]

unfoldable pub add_discovered : Host → Groups → Device → Groups
unfolding classify put_device npu_of
add_discovered host groups device = elim (classify host device) [
  | none ↦ groups
  | some (name, sriov) ↦ put_device name (npu_of host device sriov) groups
]

unfoldable pub add_all_discovered : Host → Groups → List Device → Groups
unfolding add_discovered
add_all_discovered host groups [] = groups
add_all_discovered host groups (device ∷ devices) =
    add_all_discovered host (add_discovered host groups device) devices

-- `getDevices` is the device library's: the scan is given what it returned.
unfoldable pub discover_device_groups {ℓ} : {E : Type ℓ} → Host → Result E (List Device) → Groups
unfolding add_all_discovered
discover_device_groups host (err e) = []
discover_device_groups host (ok devices) = add_all_discovered host [] devices

pub record DeviceStateChange : Type 0 where
  pub device : NpuDevice
  pub previous_health : Text
  pub previous_status : Text

pub record DeviceInventoryDelta : Type 0 where
  pub added : List NpuDevice
  pub removed : List Text
  pub changed : List DeviceStateChange

abbrev pub is_nil {ℓ} : {A : Type ℓ} → List A → Bool
is_nil [] = true
is_nil (x ∷ xs) = false

unfoldable pub is_empty : DeviceInventoryDelta → Bool
is_empty d = is_nil d.added && is_nil d.removed && is_nil d.changed

-- One device of the current inventory.
unfoldable pub compare_device :
    Option NpuDevice → NpuDevice → DeviceInventoryDelta → DeviceInventoryDelta
compare_device none device delta = record delta { added = delta.added ++ device ∷ [] }
compare_device (some before) device delta =
    if not (text_beq before.health device.health)
      || not (text_beq before.status_name device.status_name)
    then record delta {
      changed =
          delta.changed
          ++ record {
            device = device;
            previous_health = before.health;
            previous_status = before.status_name;
          }
            ∷ [];
    }
    else delta

unfoldable pub compare_all :
    (previous current : Dict Text NpuDevice)
    → List Text
    → DeviceInventoryDelta
    → DeviceInventoryDelta
unfolding compare_device lookup
compare_all previous current [] delta = delta
compare_all previous current (id ∷ ids) delta = elim (lookup id current) [
  | none ↦ compare_all previous current ids delta
  | some device ↦
      compare_all previous current ids (compare_device (lookup id previous) device delta)
]

unfoldable pub missing_from : Dict Text NpuDevice → List Text → List Text
unfolding lookup
missing_from current [] = []
missing_from current (id ∷ ids) = elim (lookup id current) [
  | none ↦ id ∷ missing_from current ids
  | some device ↦ missing_from current ids
]

unfoldable pub diff_device_inventories :
    (previous current : Dict Text NpuDevice) → DeviceInventoryDelta
unfolding compare_all missing_from sorted_device_ids
diff_device_inventories previous current =
    record (compare_all previous current (sorted_device_ids current)
      (record { added = []; removed = []; changed = [] })) {
        removed = missing_from current (sorted_device_ids previous);
      }

unfoldable pub level_for_health : Text → Level
level_for_health health = if text_beq health unhealthy then warn else info

-- How many are healthy, and how many are not.
unfoldable pub health_counts : Dict Text NpuDevice → ℕ × ℕ
health_counts [] = (0, 0)
health_counts ((id, device) ∷ devices) =
    let (good, bad) = health_counts devices in
    if text_beq device.health unhealthy then (good, bad + 1) else (good + 1, bad)

-- `pluginapi.Device`, with the NUMA node of its topology where it has one.
pub record PluginDevice : Type 0 where
  pub id : Text
  pub health : Text
  pub topology : Option ℤ

unfoldable pub topology_for_device : Text → Option ℤ
unfolding atoi
topology_for_device numa_node = if text_beq numa_node [] then none else atoi numa_node

unfoldable pub to_plugin_device : NpuDevice → PluginDevice
unfolding topology_for_device
to_plugin_device device = record {
  id = device.info.name;
  health = if text_beq device.health [] then healthy else device.health;
  topology = topology_for_device device.info.pci_numa_node;
}

unfoldable pub plugin_devices : Dict Text NpuDevice → List Text → List PluginDevice
unfolding to_plugin_device lookup
plugin_devices devices [] = []
plugin_devices devices (id ∷ ids) = elim (lookup id devices) [
  | none ↦ plugin_devices devices ids
  | some device ↦ to_plugin_device device ∷ plugin_devices devices ids
]

unfoldable pub clone_plugin_devices : Dict Text NpuDevice → List PluginDevice
unfolding plugin_devices sorted_device_ids
clone_plugin_devices devices = plugin_devices devices (sorted_device_ids devices)

unfoldable pub resource_slug : Text → Text
unfolding to_lower replace_all
resource_slug name =
    replace_all (replace_all (replace_all (to_lower name) b'/' b'-') b'.' b'-') b'_' b'-'
