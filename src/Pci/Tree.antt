-- ===== src/Pci/Tree.antt =====
-- The forest of pci_topology.go. A pointer to a node is its index in `nodes`, which is the
-- source's `index` field: a node is never removed, and every node is in that slice.
pub mod Shape
pub mod Grown
pub mod Built
pub mod Ancestors
pub mod Distances
pub mod Symmetric
use k8s_device_plugin.Prelude.{
  ℕ, zero, suc, ◌+◌, ◌-◌, ◌*◌, Bool, true, false, not, List, [], ◌∷◌, ◌++◌, Option, none, some,
  length, get_or, set, nat_beq, if◌then◌else◌,
}
use k8s_device_plugin.Prelude.Texts.{Text, text_eq}
use k8s_device_plugin.Prelude.Dict.{Dict, lookup, insert}
use k8s_device_plugin.Go.Result.{ok, err}
use k8s_device_plugin.Go.Host.{Host}
use k8s_device_plugin.Device.{NpuDevice, sorted_device_ids}
use k8s_device_plugin.Pci.Address.{pci_device_ancestors}

pub record PciTreeNode : Type 0 where
  pub parent : Option ℕ
  pub root : ℕ
  pub children : List ℕ
  pub depth : ℕ

pub record PciTree : Type 0 where
  pub devices : Dict Text ℕ
  pub nodes : List PciTreeNode
  pub roots : List ℕ

pub record PciDistance : Type 0 where
  pub known : Bool
  pub separate_roots : Bool
  pub hops : ℕ

-- What a read outside `nodes` gives. The program never makes one.
abbrev pub no_node : PciTreeNode
no_node = record { parent = none; root = 0; children = []; depth = 0 }

unfoldable pub node_at : PciTree → ℕ → PciTreeNode
node_at t i = get_or t.nodes i no_node

abbrev pub empty_tree : PciTree
empty_tree = record { devices = []; nodes = []; roots = [] }

-- A new node for a path that has none: a root, or a child of `parent`.
unfoldable pub add_node : PciTree → Option ℕ → PciTree
unfolding node_at
add_node t none = record t {
  nodes = t.nodes ++ record { parent = none; root = length t.nodes; children = []; depth = 0 } ∷ [];
  roots = t.roots ++ length t.nodes ∷ [];
}
add_node t (some p) = record t {
  nodes =
      set t.nodes p
        (record (node_at t p) { children = (node_at t p).children ++ length t.nodes ∷ [] })
      ++ record {
        parent = some p;
        root = (node_at t p).root;
        children = [];
        depth = (node_at t p).depth + 1;
      }
        ∷ [];
}

-- The loop over the ancestors of a device: the tree, the interned paths, and the last node.
abbrev pub Interned : Type 0
Interned = PciTree × Dict Text ℕ × Option ℕ

unfoldable pub intern_path : Interned → Text → Interned
unfolding add_node lookup insert
intern_path (t, nodes, parent) path = elim (lookup path nodes) [
  | some n ↦ (t, nodes, some n)
  | none ↦ (add_node t parent, insert path (length t.nodes) nodes, some (length t.nodes))
]

unfoldable pub intern_paths : Interned → List Text → Interned
unfolding intern_path
intern_paths s [] = s
intern_paths s (path ∷ paths) = intern_paths (intern_path s path) paths

abbrev pub set_device : Text → Interned → PciTree × Dict Text ℕ
set_device id (t, nodes, none) = (t, nodes)
set_device id (t, nodes, some n) = (record t { devices = insert id n t.devices }, nodes)

-- A device whose path cannot be read keeps out of the tree.
unfoldable pub add_device : Host → Text → NpuDevice → PciTree × Dict Text ℕ → PciTree × Dict Text ℕ
unfolding intern_paths insert pci_device_ancestors
add_device host id device (t, nodes) = elim (pci_device_ancestors host device.info.pci_bus_id) [
  | err e ↦ (t, nodes)
  | ok ancestors ↦ set_device id (intern_paths (t, nodes, none) ancestors)
]

unfoldable pub add_devices :
    Host → Dict Text NpuDevice → List Text → PciTree × Dict Text ℕ → PciTree × Dict Text ℕ
unfolding add_device lookup
add_devices host devices [] s = s
add_devices host devices (id ∷ ids) s = elim (lookup id devices) [
  | none ↦ add_devices host devices ids s
  | some device ↦ add_devices host devices ids (add_device host id device s)
]

unfoldable pub new_pci_tree : Host → Dict Text NpuDevice → PciTree
unfolding add_devices sorted_device_ids
new_pci_tree host devices =
    (add_devices host devices (sorted_device_ids devices) (empty_tree, [])).0

-- `a.parent`. A root has none, and the loops of `distance` do not ask for it.
unfoldable pub parent_of : PciTree → ℕ → ℕ
unfolding node_at
parent_of t i = elim (node_at t i).parent [ none ↦ i | some p ↦ p ]

-- `for a.depth > b.depth { a = a.parent }`, by the difference of the depths.
unfoldable pub climb : PciTree → ℕ → ℕ → ℕ
unfolding parent_of
climb t zero i = i
climb t (suc n) i = climb t n (parent_of t i)

-- `for a != b { a, b = a.parent, b.parent }`, for nodes of one depth, by that depth.
unfoldable pub meet : PciTree → ℕ → ℕ → ℕ → ℕ
unfolding parent_of
meet t zero i j = i
meet t (suc n) i j =
    let above = meet t n (parent_of t i) (parent_of t j) in if nat_beq i j then i else above

unfoldable pub lowest_common : PciTree → ℕ → ℕ → ℕ
unfolding climb meet node_at
lowest_common t i j =
    let a = climb t ((node_at t i).depth - (node_at t j).depth) i in
    let b = climb t ((node_at t j).depth - (node_at t i).depth) j in meet t (node_at t a).depth a b

abbrev pub unknown_distance : PciDistance
unknown_distance = record { known = false; separate_roots = false; hops = 0 }

unfoldable pub node_distance : PciTree → ℕ → ℕ → PciDistance
unfolding lowest_common node_at
node_distance t i j =
    if not (nat_beq (node_at t i).root (node_at t j).root)
    then record { known = false; separate_roots = true; hops = 0 }
    else record {
      known = true;
      separate_roots = false;
      hops =
          (node_at t i).depth + (node_at t j).depth - 2 * (node_at t (lowest_common t i j)).depth;
    }

unfoldable pub distance : PciTree → Text → Text → PciDistance
unfolding node_distance lookup
distance t source destination = elim (lookup source t.devices) [
  | none ↦ unknown_distance
  | some i ↦ elim (lookup destination t.devices) [
    | none ↦ unknown_distance
    | some j ↦ node_distance t i j
  ]
]
