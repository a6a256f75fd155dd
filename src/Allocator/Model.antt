-- ===== src/Allocator/Model.antt =====
-- `topologyAllocator` and how it is built: SID groups, NUMA indices and PCI distances.
pub mod Indices
pub mod Measured
use k8s_device_plugin.Prelude.{
  ℕ, Bool, true, false, not, ◌||◌, List, [], ◌∷◌, ◌++◌, map, Option, none, some, length,
  if◌then◌else◌, nat_eq,
}
use k8s_device_plugin.Prelude.Texts.{Text, str, text_eq, text_beq}
use k8s_device_plugin.Prelude.Dict.{Dict, lookup, insert}
use k8s_device_plugin.Go.Int.{pos, negsuc}
use k8s_device_plugin.Go.Strings.{trim_space, to_lower, trim, trim_prefix}
use k8s_device_plugin.Go.Strconv.{atoi}
use k8s_device_plugin.Go.Host.{Host}
use k8s_device_plugin.Device.{NpuDevice, sorted_device_ids}
use k8s_device_plugin.Pci.Tree.{PciTree, PciDistance, new_pci_tree, distance}

-- `numa` is `none` for the source's -1.
pub record AllocationDevice : Type 0 where
  pub id : Text
  pub sid : ℕ
  pub numa : Option ℕ
  pub has_pci : Bool

pub record TopologyAllocator : Type 0 where
  pub devices : List AllocationDevice
  pub by_id : Dict Text ℕ
  pub pairs : List (List PciDistance)
  pub tree : PciTree
  pub sid_count : ℕ
  pub numa_count : ℕ

unfoldable pub known_sid : Text → Bool
unfolding to_lower trim_space trim trim_prefix
known_sid sid =
    let s = to_lower (trim_space sid) in
    if text_beq s [] || text_beq s (str "n/a") || text_beq s (str "unknown")
    then false
    else not (text_beq (trim (trim_prefix s (str "0x")) b'0') [])

-- The key under which a device shares a card with others.
unfoldable pub sid_key : Text → NpuDevice → Text
unfolding known_sid trim_space
sid_key id device =
    if not (text_beq device.parent_pf_bus_id [])
    then str "pf:" ++ device.parent_pf_bus_id
    else if not (known_sid device.info.sid)
    then str "device:" ++ id
    else str "sid:" ++ trim_space device.info.sid

-- The NUMA node of a device, where it is a number that is not negative.
unfoldable pub numa_node : NpuDevice → Option ℕ
unfolding atoi trim_space
numa_node device = elim (atoi (trim_space device.info.pci_numa_node)) [
  | none ↦ none
  | some (pos n) ↦ some n
  | some (negsuc n) ↦ none
]

-- `if _, exists := m[k]; !exists { m[k] = len(m) }`
unfoldable pub number_sid : Text → Dict Text ℕ → Dict Text ℕ
unfolding lookup insert
number_sid k m = elim (lookup k m) [ none ↦ insert k (length m) m | some i ↦ m ]

unfoldable pub number_numa : ℕ → Dict ℕ ℕ → Dict ℕ ℕ
unfolding lookup insert
number_numa k m = elim (lookup k m) [ none ↦ insert k (length m) m | some i ↦ m ]

-- What the loop of `newTopologyAllocator` builds.
pub record Numbering : Type 0 where
  pub devices : List AllocationDevice
  pub by_id : Dict Text ℕ
  pub sids : Dict Text ℕ
  pub numas : Dict ℕ ℕ

abbrev pub index_or_zero : Option ℕ → ℕ
index_or_zero none = 0
index_or_zero (some i) = i

abbrev pub is_some {ℓ} : {A : Type ℓ} → Option A → Bool
is_some none = false
is_some (some a) = true

abbrev numbered_numas : Option ℕ → Dict ℕ ℕ → Dict ℕ ℕ
numbered_numas none m = m
numbered_numas (some n) m = number_numa n m

abbrev numa_index : Option ℕ → Dict ℕ ℕ → Option ℕ
numa_index none m = none
numa_index (some n) m = some (index_or_zero (lookup n m))

unfoldable pub add_numbered : PciTree → Text → NpuDevice → Numbering → Numbering
unfolding sid_key numa_node number_sid number_numa lookup insert
add_numbered tree id device b =
    let sids = number_sid (sid_key id device) b.sids in
    let numas = numbered_numas (numa_node device) b.numas in
    record {
      devices =
          b.devices
          ++ record {
            id = id;
            sid = index_or_zero (lookup (sid_key id device) sids);
            numa = numa_index (numa_node device) numas;
            has_pci = is_some (lookup id tree.devices);
          }
            ∷ [];
      by_id = insert id (length b.devices) b.by_id;
      sids = sids;
      numas = numas;
    }

unfoldable pub add_all_numbered : PciTree → Dict Text NpuDevice → List Text → Numbering → Numbering
unfolding add_numbered lookup
add_all_numbered tree devices [] b = b
add_all_numbered tree devices (id ∷ ids) b = elim (lookup id devices) [
  | none ↦ add_all_numbered tree devices ids b
  | some device ↦ add_all_numbered tree devices ids (add_numbered tree id device b)
]

abbrev pub no_numbers : Numbering
no_numbers = record { devices = []; by_id = []; sids = []; numas = [] }

unfoldable pub all_pairs : PciTree → List AllocationDevice → List (List PciDistance)
unfolding distance
all_pairs tree devices = map (λ src. map (λ dst. distance tree src.id dst.id) devices) devices

unfoldable pub allocator_of : PciTree → Numbering → TopologyAllocator
unfolding all_pairs
allocator_of tree b = record {
  devices = b.devices;
  by_id = b.by_id;
  pairs = all_pairs tree b.devices;
  tree = tree;
  sid_count = length b.sids;
  numa_count = length b.numas;
}

unfoldable pub new_topology_allocator : Host → Dict Text NpuDevice → TopologyAllocator
unfolding allocator_of add_all_numbered sorted_device_ids new_pci_tree
new_topology_allocator host devices =
    let tree = new_pci_tree host devices in
    allocator_of tree (add_all_numbered tree devices (sorted_device_ids devices) no_numbers)
