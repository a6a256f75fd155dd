-- ===== src/Plugin.antt =====
-- cmd/rbln-device-plugin/plugin.go: the state of the plugin of one resource, and its answers.
-- Server has its socket and its registration, Records what it logs of its devices.
pub mod Preferred
pub mod Updates
pub mod Sync
pub mod Allocation
pub mod Nodes
pub mod Grants
pub mod Grantable
pub mod Server
pub mod Records
use k8s_device_plugin.Prelude.{ℕ, List, [], ◌∷◌, Option, none, some}
use k8s_device_plugin.Prelude.Texts.{Text}
use k8s_device_plugin.Prelude.Dict.{Dict}
use k8s_device_plugin.Go.Int.{ℤ}
use k8s_device_plugin.Go.Result.{Result, ok, err}
use k8s_device_plugin.Go.Host.{Host}
use k8s_device_plugin.Device.{NpuDevice}
use k8s_device_plugin.Inventory.{PluginDevice, clone_plugin_devices}
use k8s_device_plugin.Allocator.Select.{SelectError, select_preferred_device_ids}

-- `update_ch` is the channel of capacity one.
pub record Plugin : Type 0 where
  pub resource_name : Text
  pub devices : Dict Text NpuDevice
  pub update_ch : Option (List PluginDevice)

unfoldable pub clone_device_map : Dict Text NpuDevice → Dict Text NpuDevice
clone_device_map [] = []
clone_device_map ((id, device) ∷ devices) =
    (
      id,
      record {
        info = device.info;
        health = device.health;
        status_name = device.status_name;
        parent_pf_bus_id = device.parent_pf_bus_id;
      },
    )
    ∷ clone_device_map devices

unfoldable pub new_resource_plugin : Text → Dict Text NpuDevice → Plugin
unfolding clone_device_map
new_resource_plugin resource_name devices = record {
  resource_name = resource_name;
  devices = clone_device_map devices;
  update_ch = none;
}

-- `UpdateDevices` where no stream takes a list from the channel meanwhile.
unfoldable pub update_devices : Plugin → Dict Text NpuDevice → Plugin
unfolding clone_device_map clone_plugin_devices
update_devices p devices = record p {
  devices = clone_device_map devices;
  update_ch = some (clone_plugin_devices (clone_device_map devices));
}

unfoldable pub current_devices : Plugin → List PluginDevice
unfolding clone_plugin_devices
current_devices p = clone_plugin_devices p.devices

-- A container's request for preferred devices.
pub record PreferredRequest : Type 0 where
  pub available : List Text
  pub must_include : List Text
  pub allocation_size : ℤ

-- On an error the kubelet chooses itself.
abbrev pub or_fallback : Result SelectError (List Text) → List Text
or_fallback (ok ids) = ids
or_fallback (err e) = []

unfoldable pub preferred_for : Host → Plugin → PreferredRequest → List Text
unfolding select_preferred_device_ids
preferred_for host p request = or_fallback (
    select_preferred_device_ids host p.devices request.available request.must_include
      request.allocation_size)

unfoldable pub get_preferred_allocation : Host → Plugin → List PreferredRequest → List (List Text)
unfolding preferred_for
get_preferred_allocation host p [] = []
get_preferred_allocation host p (request ∷ requests) =
    preferred_for host p request ∷ get_preferred_allocation host p requests
