-- ===== src/Allocator/Model/Indices.antt =====
-- What `newTopologyAllocator` builds is indexed by device: its devices are those of the map in the
-- order of their IDs, and `byID` finds each of them.
use mathlib.Core.List.{map-append, append_assoc, append-nil}
use k8s_device_plugin.Prelude.{
  ℕ, ◌<◌, true, false, List, [], ◌∷◌, ◌++◌, map, ◌≡◌, refl, ap, sym, subst, ◌∙◌, inl, inr, arith,
  length, length-append, has, Distinct, Within, has-append, get_or, get_or-append_left, get_or-snoc,
  ==_iff, ==_refl, ==_ne, Bool-cases, ◌==◌,
}
use k8s_device_plugin.Prelude.Texts.{Text, text_eq}
use k8s_device_plugin.Prelude.Sorting.{has-sort, sort-Distinct, text_order}
use k8s_device_plugin.Prelude.Dict.{Dict, lookup, insert, keys, IsMap, lookup_of_has, lookup-insert}
use k8s_device_plugin.Go.Host.{Host}
use k8s_device_plugin.Device.{NpuDevice, sorted_device_ids}
use k8s_device_plugin.Pci.Tree.{PciTree, new_pci_tree}
use k8s_device_plugin.Allocator.Model.{
  AllocationDevice, Numbering, index_or_zero, add_numbered, add_all_numbered, no_numbers,
  new_topology_allocator,
}
use k8s_device_plugin.Allocator.Search.{device_at, no_device}

abbrev device_ids : List AllocationDevice → List Text
device_ids = map (λ d. d.id)

-- `byID` sends the ID to a device of that ID.
abbrev IsFound : List AllocationDevice → Dict Text ℕ → Text → Type 0
IsFound devices by_id id =
    (index_or_zero (lookup id by_id) < length devices)
    × ((get_or devices (index_or_zero (lookup id by_id)) no_device).id ≡ id)

abbrev IsIndexed : Numbering → Type 0
IsIndexed b = (id : Text) → has id (device_ids b.devices) ≡ true → IsFound b.devices b.by_id id

IsFound-snoc :
    (devices : List AllocationDevice) (d : AllocationDevice) (by_id : Dict Text ℕ) (id : Text)
    → IsFound devices by_id id
    → (id ≡ d.id → ⊥)
    → IsFound (devices ++ d ∷ []) (insert d.id (length devices) by_id) id
IsFound-snoc devices d by_id id (bound, named) other =
    rw (lookup-insert d.id id (length devices) by_id, ==_ne d.id id (λ e. other (sym e)))
      (
        omega (arith, length-append devices (d ∷ [])),
        ap (λ e. e.id) (get_or-append_left devices (d ∷ []) _ no_device bound) ∙ named,
      )

IsFound-last :
    (devices : List AllocationDevice) (d : AllocationDevice) (by_id : Dict Text ℕ)
    → IsFound (devices ++ d ∷ []) (insert d.id (length devices) by_id) d.id
IsFound-last devices d by_id =
    rw (lookup-insert d.id d.id (length devices) by_id, ==_refl d.id)
      (
        omega (arith, length-append devices (d ∷ [])),
        ap (λ e. e.id) (get_or-snoc devices d no_device),
      )

IsIndexed-snoc :
    (devices : List AllocationDevice) (d : AllocationDevice) (by_id : Dict Text ℕ)
    → has d.id (device_ids devices) ≡ false
    → ((id : Text) → has id (device_ids devices) ≡ true → IsFound devices by_id id)
    → (id : Text) → has id (device_ids (devices ++ d ∷ [])) ≡ true
    → IsFound (devices ++ d ∷ []) (insert d.id (length devices) by_id) id
IsIndexed-snoc devices d by_id new h id k = elim (Bool-cases (d.id == id)) [
  | inl same ↦
      subst (IsFound (devices ++ d ∷ []) (insert d.id (length devices) by_id))
        ((==_iff d.id id).0 same) (IsFound-last devices d by_id)
  | inr other ↦
      IsFound-snoc devices d by_id id
        (h id (
          ground (
            arith,
            ap (has id) (map-append (λ (e : AllocationDevice). e.id) devices (d ∷ [])),
            has-append id (device_ids devices) (d.id ∷ []),
          )))
        (λ e. ground (arith, ==_iff d.id id))
]

module _ (tree : PciTree) where
  pub add_numbered-ids :
      (id : Text) (device : NpuDevice) (b : Numbering)
      → device_ids (add_numbered tree id device b).devices ≡ device_ids b.devices ++ id ∷ []
  unfolding add_numbered
  add_numbered-ids id device b = map-append (λ e. e.id) b.devices _

  add_numbered-IsIndexed :
      (id : Text) (device : NpuDevice) (b : Numbering)
      → has id (device_ids b.devices) ≡ false
      → IsIndexed b
      → IsIndexed (add_numbered tree id device b)
  unfolding add_numbered
  add_numbered-IsIndexed id device b new h = IsIndexed-snoc b.devices _ b.by_id new h

  module _ (devices : Dict Text NpuDevice) where
    add_all_numbered-ids :
        (ids : List Text) (b : Numbering)
        → Within ids (keys devices)
        → device_ids (add_all_numbered tree devices ids b).devices ≡ device_ids b.devices ++ ids
    unfolding add_all_numbered
    add_all_numbered-ids [] b w = sym (append-nil _)
    add_all_numbered-ids (id ∷ ids) b w =
        let (device, e) = lookup_of_has id devices (w id (ground (arith, ==_refl id))) in
        rw (e, add_all_numbered)
          (add_all_numbered-ids ids (add_numbered tree id device b) (λ a k. w a (ground arith))
            ∙ ap (λ l. l ++ ids) (add_numbered-ids id device b)
            ∙ append_assoc (device_ids b.devices) (id ∷ []) ids)

    add_all_numbered-IsIndexed :
        (ids : List Text) (b : Numbering)
        → Within ids (keys devices)
        → Distinct ids
        → ((id : Text) → has id ids ≡ true → has id (device_ids b.devices) ≡ false)
        → IsIndexed b
        → IsIndexed (add_all_numbered tree devices ids b)
    unfolding add_all_numbered
    add_all_numbered-IsIndexed [] b w d new h = h
    add_all_numbered-IsIndexed (id ∷ ids) b w d new h =
        let (device, e) = lookup_of_has id devices (w id (ground (arith, ==_refl id))) in
        rw (e, add_all_numbered)
          (add_all_numbered-IsIndexed ids (add_numbered tree id device b)
            (λ a k. w a (ground arith)) d.1
            (λ a k. ground (
              arith,
              ap (has a) (add_numbered-ids id device b),
              has-append a (device_ids b.devices) (id ∷ []),
              new a,
              ==_iff id a,
            ))
            (add_numbered-IsIndexed id device b (new id (ground (arith, ==_refl id))) h))

module _ (host : Host) (devices : Dict Text NpuDevice) where
  sorted-Within : Within (sorted_device_ids devices) (keys devices)
  unfolding sorted_device_ids
  sorted-Within a h = sym (has-sort a (keys devices)) ∙ h

  -- The devices are those of the map, in the order of their IDs.
  pub allocator-ids :
      map (λ d. d.id) (new_topology_allocator host devices).devices ≡ sorted_device_ids devices
  unfolding new_topology_allocator
  allocator-ids =
      add_all_numbered-ids (new_pci_tree host devices) devices (sorted_device_ids devices)
        no_numbers sorted-Within

  -- `byID` finds every device of the map.
  pub allocator-by_id :
      (id : Text)
      → IsMap devices
      → has id (keys devices) ≡ true
      → (device_at
          (new_topology_allocator host devices)
          (index_or_zero (lookup id (new_topology_allocator host devices).by_id))).id
        ≡ id
  unfolding new_topology_allocator device_at sorted_device_ids
  allocator-by_id id m h =
      (add_all_numbered-IsIndexed (new_pci_tree host devices) devices (sorted_device_ids devices)
        no_numbers sorted-Within (sort-Distinct (keys devices) m) (λ a k. refl)
        (λ a k. absurd (ground arith)) id
        (ap (has id) allocator-ids ∙ has-sort id (keys devices) ∙ h)).1
