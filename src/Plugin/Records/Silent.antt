-- ===== src/Plugin/Records/Silent.antt =====
-- When `UpdateDevices` logs nothing.
use k8s_device_plugin.Prelude.{
  ℕ, true, Bool-cases, inl, inr, ◌&&◌, ◌++◌, List, [], ◌∷◌, ◌≡◌, ◌↔◌, refl,
}
use k8s_device_plugin.Prelude.Texts.{Text}
use k8s_device_plugin.Prelude.Dict.{Dict}
use k8s_device_plugin.Device.{NpuDevice}
use k8s_device_plugin.Inventory.{
  DeviceStateChange, DeviceInventoryDelta, is_nil, is_empty, diff_device_inventories, health_counts,
}
use k8s_device_plugin.Inventory.Changes.{Unchanged, is_empty_iff}
use k8s_device_plugin.Plugin.{Plugin}
use k8s_device_plugin.Plugin.Records.{
  log_inventory_delta, added_records, removed_records, changed_records, counted, update_records,
}

records-nil :
    (attrs : List Text) (a : List NpuDevice) (r : List Text) (c : List DeviceStateChange)
    → added_records attrs a ++ removed_records attrs r ++ changed_records attrs c ≡ []
    → (is_nil a && is_nil r && is_nil c) ≡ true
unfolding added_records removed_records changed_records
records-nil attrs [] [] [] h = refl
records-nil attrs [] [] (x ∷ c) h = absurd cc
records-nil attrs [] (x ∷ r) c h = absurd cc
records-nil attrs (x ∷ a) r c h = absurd cc

records-empty :
    (name : Text) (delta : DeviceInventoryDelta) (good bad : ℕ)
    → log_inventory_delta name delta good bad ≡ []
    → is_empty delta ≡ true
unfolding log_inventory_delta is_empty
records-empty name delta good bad h = elim (Bool-cases (is_empty delta)) [
  | inl e ↦ e
  | inr e ↦
      records-nil (counted name good bad) delta.added delta.removed delta.changed
        (rw (e, log_inventory_delta) at h)
]

empty-records :
    (name : Text) (delta : DeviceInventoryDelta) (good bad : ℕ)
    → is_empty delta ≡ true
    → log_inventory_delta name delta good bad ≡ []
unfolding log_inventory_delta
empty-records name delta good bad e = rw e refl

-- UpdateDevices logs nothing exactly when every ID reports the same health and status before and
-- after it.
pub update_records_iff :
    (p : Plugin) (devices : Dict Text NpuDevice)
    → (update_records p devices ≡ []) ↔ Unchanged p.devices devices
unfolding update_records
update_records_iff p devices =
    let delta = diff_device_inventories p.devices devices in
    let (good, bad) = health_counts devices in
    let (forth, back) = is_empty_iff p.devices devices in
    (
      λ h. forth (records-empty p.resource_name delta good bad h),
      λ same. empty-records p.resource_name delta good bad (back same),
    )
