-- ===== src/Device.antt =====
-- The devices of an inventory: `rblndevice.Device`, in the fields that the program reads, and
-- `NPUDevice` of cmd/rbln-device-plugin/inventory.go.
use k8s_device_plugin.Prelude.{List}
use k8s_device_plugin.Prelude.Texts.{Text, str}
use k8s_device_plugin.Prelude.Sorting.{sort, text_order}
use k8s_device_plugin.Prelude.Dict.{Dict, keys}

pub record Device : Type 0 where
  pub name : Text
  pub product_name : Text
  pub pci_device_id : Text
  pub pci_bus_id : Text
  pub pci_numa_node : Text
  pub sid : Text

pub record NpuDevice : Type 0 where
  pub info : Device
  pub health : Text
  pub status_name : Text
  pub parent_pf_bus_id : Text

-- `pluginapi.Healthy` and `pluginapi.Unhealthy`, the two values of the kubelet's API.
abbrev pub healthy : Text
healthy = str "Healthy"

abbrev pub unhealthy : Text
unhealthy = str "Unhealthy"

-- `sortedDeviceIDs`
unfoldable pub sorted_device_ids : Dict Text NpuDevice → List Text
unfolding sort
sorted_device_ids devices = sort (keys devices)
