-- ===== src/Plugin/Records.antt =====
-- The records that plugin.go and inventory.go log of the devices: `logInventoryDelta`, the records
-- of `register`, and `deviceLogAttrs`.
pub mod Silent
use k8s_device_plugin.Prelude.{ℕ, ◌+◌, List, [], ◌∷◌, ◌++◌, none, some, if◌then◌else◌}
use k8s_device_plugin.Prelude.Texts.{Text, str, text_eq}
use k8s_device_plugin.Prelude.Dict.{Dict, lookup}
use k8s_device_plugin.Go.Int.{pos}
use k8s_device_plugin.Go.Strconv.{itoa}
use k8s_device_plugin.Device.{NpuDevice, sorted_device_ids}
use k8s_device_plugin.Inventory.{
  DeviceStateChange, DeviceInventoryDelta, is_empty, diff_device_inventories, level_for_health,
  health_counts,
}
use k8s_device_plugin.Logging.{Level, warn, LogRecord}
use k8s_device_plugin.Plugin.{Plugin}

unfoldable pub device_log_attrs : NpuDevice → List Text
device_log_attrs device =
    str "device"
    ∷ device.info.name
    ∷ str "product"
    ∷ device.info.product_name
    ∷ str "pciDeviceID"
    ∷ device.info.pci_device_id
    ∷ str "pciBusID"
    ∷ device.info.pci_bus_id
    ∷ str "numa"
    ∷ device.info.pci_numa_node
    ∷ str "health"
    ∷ device.health
    ∷ str "status"
    ∷ device.status_name
    ∷ []

-- What `p.log` and the logger of `logInventoryDelta` put in front of each record's own attributes.
abbrev pub bound : Text → List Text
bound resource_name = str "resourceName" ∷ resource_name ∷ []

unfoldable pub counted : Text → (healthy unhealthy : ℕ) → List Text
unfolding itoa
counted resource_name healthy unhealthy =
    bound resource_name
    ++ str "deviceCount"
      ∷ itoa (pos (healthy + unhealthy))
      ∷ str "healthyCount"
      ∷ itoa (pos healthy)
      ∷ str "unhealthyCount"
      ∷ itoa (pos unhealthy)
      ∷ []

unfoldable pub added_records : List Text → List NpuDevice → List LogRecord
unfolding level_for_health device_log_attrs
added_records attrs [] = []
added_records attrs (device ∷ devices) =
    record {
      level = level_for_health device.health;
      message = str "Device appeared in inventory";
      attrs = attrs ++ device_log_attrs device;
    }
    ∷ added_records attrs devices

unfoldable pub removed_records : List Text → List Text → List LogRecord
removed_records attrs [] = []
removed_records attrs (id ∷ ids) =
    record {
      level = warn;
      message = str "Device disappeared from inventory; it is no longer allocatable";
      attrs = attrs ++ str "device" ∷ id ∷ [];
    }
    ∷ removed_records attrs ids

unfoldable pub changed_records : List Text → List DeviceStateChange → List LogRecord
unfolding level_for_health device_log_attrs
changed_records attrs [] = []
changed_records attrs (change ∷ changes) =
    record {
      level = level_for_health change.device.health;
      message = str "Device state changed";
      attrs =
          attrs
          ++ device_log_attrs change.device
          ++ str "previousHealth"
            ∷ change.previous_health
            ∷ str "previousStatus"
            ∷ change.previous_status
            ∷ [];
    }
    ∷ changed_records attrs changes

unfoldable pub log_inventory_delta :
    Text → DeviceInventoryDelta → (healthy unhealthy : ℕ) → List LogRecord
unfolding is_empty counted added_records removed_records changed_records
log_inventory_delta resource_name delta healthy unhealthy =
    let attrs = counted resource_name healthy unhealthy in
    if is_empty delta
    then []
    else added_records attrs delta.added
      ++ removed_records attrs delta.removed
      ++ changed_records attrs delta.changed

-- What `UpdateDevices` logs.
unfoldable pub update_records : Plugin → Dict Text NpuDevice → List LogRecord
unfolding log_inventory_delta diff_device_inventories health_counts
update_records p devices =
    let (healthy, unhealthy) = health_counts devices in
    log_inventory_delta p.resource_name (diff_device_inventories p.devices devices) healthy
      unhealthy

unfoldable pub exposed_records : Text → Dict Text NpuDevice → List Text → List LogRecord
unfolding level_for_health device_log_attrs lookup
exposed_records resource_name devices [] = []
exposed_records resource_name devices (id ∷ ids) =
    let rest = exposed_records resource_name devices ids in
    elim (lookup id devices) [
      | none ↦ rest
      | some device ↦
          record {
            level = level_for_health device.health;
            message = str "Device exposed";
            attrs = bound resource_name ++ device_log_attrs device;
          }
          ∷ rest
    ]

-- What `register` logs where it succeeds, after its own record of the counts.
unfoldable pub register_records : Plugin → List LogRecord
unfolding exposed_records sorted_device_ids
register_records p = exposed_records p.resource_name p.devices (sorted_device_ids p.devices)
