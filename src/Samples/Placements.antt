-- ===== src/Samples/Placements.antt =====
-- The bound of a subtree on a root with two children.
use k8s_device_plugin.Prelude.{◌≤◌, [], ◌∷◌, none, some, refl, arith}
use k8s_device_plugin.Pci.Tree.{PciTree, node_at}
use k8s_device_plugin.Allocator.Placement.{at, Loads, subtree_costs}
use k8s_device_plugin.Allocator.Placement.Placed.{Placed, place, done, child_takes}
use k8s_device_plugin.Allocator.Placement.Subtree.{subtree_costs-least}

abbrev small : PciTree
small = record {
  devices = [];
  nodes =
      record { parent = none; root = 0; children = 1 ∷ 2 ∷ []; depth = 0 }
      ∷ record { parent = some 0; root = 0; children = []; depth = 1 }
      ∷ record { parent = some 0; root = 0; children = []; depth = 1 }
      ∷ [];
  roots = 0 ∷ [];
}

-- A chosen device is below the second child, and a candidate below the first.
abbrev small_loads : Loads
small_loads = record {
  forced = 0 ∷ 0 ∷ 1 ∷ [];
  free = 0 ∷ 1 ∷ 0 ∷ [];
  forced_subtree = 1 ∷ 0 ∷ 1 ∷ [];
  capacity = 2 ∷ 1 ∷ 1 ∷ [];
}

leaf_1 : Placed small small_loads 2 2 1 1 0
unfolding node_at
leaf_1 =
    place {own = 1} {rest = 0} (omega arith) (omega arith) refl (omega arith) (omega arith)
      (done refl)

leaf_2 : Placed small small_loads 2 2 2 1 0
unfolding node_at
leaf_2 =
    place {own = 1} {rest = 0} (omega arith) (omega arith) refl (omega arith) (omega arith)
      (done refl)

both : Placed small small_loads 2 3 0 2 2
unfolding node_at
both = place {own = 0} {rest = 2} (omega arith) (omega arith) refl (omega arith) (omega arith) (
    child_takes {rest = 1} {cost = 1} leaf_1 (omega arith) refl refl
      (child_takes {rest = 0} {cost = 0} leaf_2 (omega arith) refl refl (done refl)))

subtree_costs-least_example : at (subtree_costs small small_loads 0 2 3) 2 ≤ 2
subtree_costs-least_example = subtree_costs-least small small_loads 2 both
