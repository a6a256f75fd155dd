-- ===== src/Inventory/Listing.antt =====
-- What kubelet is told does not depend on the order in which a map is visited.
use k8s_device_plugin.Prelude.{
  ◌+◌, List, [], ◌∷◌, ◌≡◌, refl, ap, sym, ◌∙◌, inl, inr, arith, Option-cases, length, has,
}
use k8s_device_plugin.Prelude.Texts.{Text, text_eq}
use k8s_device_plugin.Prelude.Sorting.{
  sort, text_order, sort-Ascending, sort-Distinct, has-sort, Ascending-unique,
}
use k8s_device_plugin.Prelude.Dict.{Dict, lookup, keys, IsMap, has_of_lookup, lookup-none_iff}
use k8s_device_plugin.Device.{NpuDevice, sorted_device_ids}
use k8s_device_plugin.Inventory.{plugin_devices, clone_plugin_devices, health_counts}

-- The same inventory, in whatever order it is kept.
abbrev pub SameMap : Dict Text NpuDevice → Dict Text NpuDevice → Type 0
SameMap m n = (id : Text) → lookup id m ≡ lookup id n

module _ (m n : Dict Text NpuDevice) (same : SameMap m n) where
  has-keys_same : (id : Text) → has id (keys m) ≡ has id (keys n)
  has-keys_same id = elim (Option-cases (lookup id m)) [
    | inl e ↦ lookup-none_iff id m e ∙ sym (lookup-none_iff id n (sym (same id) ∙ e))
    | inr (d, e) ↦ has_of_lookup id d m e ∙ sym (has_of_lookup id d n (sym (same id) ∙ e))
  ]

  sorted_device_ids-eq : IsMap m → IsMap n → sorted_device_ids m ≡ sorted_device_ids n
  unfolding sorted_device_ids
  sorted_device_ids-eq dm dn =
      Ascending-unique (sort (keys m)) (sort (keys n)) (sort-Ascending (keys m))
        (sort-Ascending (keys n)) (sort-Distinct (keys m) dm) (sort-Distinct (keys n) dn)
        (λ id. has-sort id (keys m) ∙ has-keys_same id ∙ sym (has-sort id (keys n)))

  plugin_devices-eq : (ids : List Text) → plugin_devices m ids ≡ plugin_devices n ids
  unfolding plugin_devices
  plugin_devices-eq [] = refl
  plugin_devices-eq (id ∷ ids) = ground (arith, same id, plugin_devices-eq ids)

  -- Two maps with the same entries are listed alike.
  pub clone_plugin_devices-eq : IsMap m → IsMap n → clone_plugin_devices m ≡ clone_plugin_devices n
  unfolding clone_plugin_devices
  clone_plugin_devices-eq dm dn =
      ap (plugin_devices m) (sorted_device_ids-eq dm dn) ∙ plugin_devices-eq (sorted_device_ids n)

-- Every device is counted once.
pub health_counts-length :
    (m : Dict Text NpuDevice) → (health_counts m).0 + (health_counts m).1 ≡ length m
unfolding health_counts
health_counts-length [] = refl
health_counts-length ((id, d) ∷ m) = ground (arith, health_counts-length m)
