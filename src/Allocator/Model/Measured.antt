-- ===== src/Allocator/Model/Measured.antt =====
-- The distances of the allocator that `newTopologyAllocator` builds.
use k8s_device_plugin.Prelude.{
  ℕ, zero, suc, ◌<◌, List, [], ◌∷◌, ◌++◌, map, Option-cases, ◌≡◌, refl, sym, ap, ◌∙◌, inl, inr,
  arith, length, get_or,
}
use k8s_device_plugin.Prelude.Texts.{Text, text_eq}
use k8s_device_plugin.Prelude.Dict.{Dict, lookup}
use k8s_device_plugin.Go.Host.{Host}
use k8s_device_plugin.Device.{NpuDevice, sorted_device_ids}
use k8s_device_plugin.Pci.Tree.{PciTree, unknown_distance, distance, new_pci_tree}
use k8s_device_plugin.Pci.Tree.Built.{IsForest, new_pci_tree-IsForest}
use k8s_device_plugin.Pci.Tree.Symmetric.{is_placed, distance_comm, distance-IsDecided}
use k8s_device_plugin.Allocator.Model.{
  AllocationDevice, TopologyAllocator, Numbering, is_some, add_numbered, add_all_numbered,
  no_numbers, allocator_of, all_pairs, new_topology_allocator,
}
use k8s_device_plugin.Allocator.Search.{device_at, pair_at, no_device}
use k8s_device_plugin.Allocator.Bound.Least.{IsMeasured}

-- Each device has a path where it has a node in the tree.
abbrev AllPlaced : PciTree → List AllocationDevice → Type 0
AllPlaced t [] = Unit {0}
AllPlaced t (d ∷ ds) = (d.has_pci ≡ is_placed t d.id) × AllPlaced t ds

AllPlaced-snoc :
    (t : PciTree) (ds : List AllocationDevice) (d : AllocationDevice)
    → AllPlaced t ds
    → d.has_pci ≡ is_placed t d.id
    → AllPlaced t (ds ++ d ∷ [])
AllPlaced-snoc t [] d h e = (e, tt)
AllPlaced-snoc t (x ∷ ds) d h e = (h.0, AllPlaced-snoc t ds d h.1 e)

is_some-placed : (t : PciTree) (id : Text) → is_some (lookup id t.devices) ≡ is_placed t id
is_some-placed t id = elim (Option-cases (lookup id t.devices)) [
  | inl e ↦ ground (arith, e)
  | inr (n, e) ↦ ground (arith, e)
]

add_numbered-AllPlaced :
    (t : PciTree) (id : Text) (device : NpuDevice) (b : Numbering)
    → AllPlaced t b.devices
    → AllPlaced t (add_numbered t id device b).devices
unfolding add_numbered
add_numbered-AllPlaced t id device b h = AllPlaced-snoc t b.devices _ h (is_some-placed t id)

add_all_numbered-AllPlaced :
    (t : PciTree) (devices : Dict Text NpuDevice) (ids : List Text) (b : Numbering)
    → AllPlaced t b.devices
    → AllPlaced t (add_all_numbered t devices ids b).devices
unfolding add_all_numbered
add_all_numbered-AllPlaced t devices [] b h = h
add_all_numbered-AllPlaced t devices (id ∷ ids) b h = elim (Option-cases (lookup id devices)) [
  | inl e ↦ rw (e, add_all_numbered) (add_all_numbered-AllPlaced t devices ids b h)
  | inr (device, e) ↦
      rw (e, add_all_numbered)
        (add_all_numbered-AllPlaced t devices ids (add_numbered t id device b)
          (add_numbered-AllPlaced t id device b h))
]

AllPlaced-get_or :
    (t : PciTree) (ds : List AllocationDevice) (i : ℕ)
    → AllPlaced t ds
    → i < length ds
    → (get_or ds i no_device).has_pci ≡ is_placed t (get_or ds i no_device).id
AllPlaced-get_or t [] i h k = elim k [ ]
AllPlaced-get_or t (d ∷ ds) zero h k = h.0
AllPlaced-get_or t (d ∷ ds) (suc i) h k = AllPlaced-get_or t ds i h.1 (omega (arith, k))

get_or-map {ℓ κ} :
    {A : Type ℓ} {B : Type κ} (f : A → B) (xs : List A) (i : ℕ) (d : A) (e : B)
    → i < length xs
    → get_or (map f xs) i e ≡ f (get_or xs i d)
get_or-map f [] i d e h = elim h [ ]
get_or-map f (x ∷ xs) zero d e h = refl
get_or-map f (x ∷ xs) (suc i) d e h = get_or-map f xs i d e (omega (arith, h))

module _ (t : PciTree) (b : Numbering) where
  abbrev a : TopologyAllocator
  a = allocator_of t b

  pair_at-distance :
      (i j : ℕ)
      → i < length b.devices
      → j < length b.devices
      → pair_at a i j ≡ distance t (device_at a i).id (device_at a j).id
  unfolding pair_at device_at allocator_of all_pairs
  pair_at-distance i j hi hj =
      ap (λ row. get_or row j unknown_distance)
        (get_or-map (λ src. map (λ dst. distance t src.id dst.id) b.devices) b.devices i no_device
          [] hi)
      ∙ get_or-map (λ dst. distance t (get_or b.devices i no_device).id dst.id) b.devices j
          no_device unknown_distance hj

  allocator_of-IsMeasured : IsForest t → AllPlaced t b.devices → IsMeasured a
  unfolding allocator_of device_at
  allocator_of-IsMeasured v h = record {
    symmetric = λ i j hi hj.
        pair_at-distance i j hi hj
        ∙ distance_comm t v (device_at a i).id (device_at a j).id
        ∙ sym (pair_at-distance j i hj hi);
    counted = λ i j hi hj.
        rw (pair_at-distance i j hi hj)
          (distance-IsDecided t (device_at a i).id (device_at a j).id).counted;
    decided = λ i j hi hj.
        rw
          (
            pair_at-distance i j hi hj,
            AllPlaced-get_or t b.devices i h hi,
            AllPlaced-get_or t b.devices j h hj,
          )
          (distance-IsDecided t (device_at a i).id (device_at a j).id).decided;
  }

-- In the allocator of a scan, the distance of two devices is the same each way; it is 0 where it is
-- not known; and two devices have a distance or separate roots exactly where both have a path.
pub new_topology_allocator-IsMeasured :
    (host : Host) (devices : Dict Text NpuDevice) → IsMeasured (new_topology_allocator host devices)
unfolding new_topology_allocator
new_topology_allocator-IsMeasured host devices =
    let t = new_pci_tree host devices in
    allocator_of-IsMeasured t (add_all_numbered t devices (sorted_device_ids devices) no_numbers)
      (new_pci_tree-IsForest host devices)
      (add_all_numbered-AllPlaced t devices (sorted_device_ids devices) no_numbers tt)
