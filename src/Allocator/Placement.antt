-- ===== src/Allocator/Placement.antt =====
-- cmd/rbln-device-plugin/pci_allocation_bounds.go: the least PCI cost of a completion, by a
-- knapsack over the forest. Slices are lists; the loops over an index take the rounds left.
pub mod Rounds
pub mod Placed
pub mod Subtree
use k8s_device_plugin.Prelude.{
  ℕ, zero, suc, ◌+◌, ◌-◌, ◌*◌, min, max, Bool, true, false, not, ◌&&◌, ◌||◌, List, [], ◌∷◌, map,
  none, some, length, get_or, set, replicate, ltb, leb, nat_beq, if◌then◌else◌,
}
use k8s_device_plugin.Prelude.Texts.{text_eq}
use k8s_device_plugin.Prelude.Dict.{lookup}
use k8s_device_plugin.Pci.Tree.{PciTree, node_at}
use k8s_device_plugin.Allocator.Model.{TopologyAllocator}
use k8s_device_plugin.Allocator.Search.{device_at, increment}

pub record PlacementCost : Type 0 where
  pub separate_roots : ℕ
  pub total_distance : ℕ
  pub valid : Bool

unfoldable pub cost_less : PlacementCost → PlacementCost → Bool
cost_less a b =
    a.valid
    && (not b.valid
        || ltb a.separate_roots b.separate_roots
        || (nat_beq a.separate_roots b.separate_roots && ltb a.total_distance b.total_distance))

abbrev pub no_cost : PlacementCost
no_cost = record { separate_roots = 0; total_distance = 0; valid = false }

-- (2^63 - 1) / 4
abbrev pub impossible_cost : ℕ
impossible_cost = 2305843009213693951

abbrev pub at : List ℕ → ℕ → ℕ
at xs i = get_or xs i 0

-- What the bound computes of the nodes before the knapsack.
pub record Loads : Type 0 where
  pub forced : List ℕ
  pub free : List ℕ
  pub forced_subtree : List ℕ
  pub capacity : List ℕ

-- `0, 1, …, n - 1`, moved up by `from`.
abbrev pub range : ℕ → ℕ → List ℕ
range from zero = []
range from (suc n) = from ∷ range (from + 1) n

-- How many of the given devices end at each node.
unfoldable pub count_ends : TopologyAllocator → List ℕ → List ℕ → List ℕ
unfolding increment device_at lookup
count_ends a [] counts = counts
count_ends a (index ∷ rest) counts = elim (lookup (device_at a index).id a.tree.devices) [
  | none ↦ count_ends a rest counts
  | some n ↦ count_ends a rest (increment counts n)
]

abbrev plus_at : List ℕ → ℕ → ℕ → List ℕ
plus_at xs i n = set xs i (at xs i + n)

-- The body of the loop that adds each node to its parent.
unfoldable pub push_up : PciTree → List ℕ → List ℕ → ℕ → List ℕ × List ℕ → List ℕ × List ℕ
unfolding node_at
push_up t forced free i (forced_subtree, capacity) =
    let capacity' = plus_at capacity i (at forced i + at free i) in
    elim (node_at t i).parent [
      | none ↦ (forced_subtree, capacity')
      | some p ↦
          (plus_at forced_subtree p (at forced_subtree i), plus_at capacity' p (at capacity' i))
    ]

-- `for i := n - 1; i >= 0; i--`
unfoldable pub push_all_up : PciTree → List ℕ → List ℕ → ℕ → List ℕ × List ℕ → List ℕ × List ℕ
unfolding push_up
push_all_up t forced free zero s = s
push_all_up t forced free (suc i) s = push_all_up t forced free i (push_up t forced free i s)

unfoldable pub loads : TopologyAllocator → List ℕ → List ℕ → Loads
unfolding count_ends push_all_up
loads a chosen rest =
    let n = length a.tree.nodes in
    let forced = count_ends a chosen (replicate n 0) in
    let free = count_ends a rest (replicate n 0) in
    let (forced_subtree, capacity) = push_all_up a.tree forced free n (forced, replicate n 0) in
    record { forced = forced; free = free; forced_subtree = forced_subtree; capacity = capacity }

-- `for count := …`: the loop over the endpoints that a child takes, for one `before`.
unfoldable pub place_counts : (root_count before base : ℕ) → List ℕ → ℕ → ℕ → List ℕ → List ℕ
place_counts root_count before base child_costs count zero next = next
place_counts root_count before base child_costs count (suc n) next =
    place_counts root_count before base child_costs (count + 1) n (
      if nat_beq (at child_costs count) impossible_cost
      then next
      else set next (before + count) (
          min (at next (before + count))
            (base + at child_costs count + count * (root_count - count))))

-- `for before := 0; before <= usedCapacity; before++`
unfoldable pub place_befores :
    (root_count limit from : ℕ) → List ℕ → List ℕ → ℕ → ℕ → List ℕ → List ℕ
unfolding place_counts
place_befores root_count limit from costs child_costs before zero next = next
place_befores root_count limit from costs child_costs before (suc n) next =
    place_befores root_count limit from costs child_costs (before + 1) n (
      if nat_beq (at costs before) impossible_cost
      then next
      else place_counts root_count before (at costs before) child_costs from
          (min (length child_costs) (limit + 1 - before) - from) next)

-- The loop over the children, for the costs of a child as a function.
unfoldable pub place_children :
    (ℕ → List ℕ) → Loads → (root_count limit : ℕ) → List ℕ → List ℕ → ℕ → List ℕ
unfolding place_befores
place_children child_costs l root_count limit [] costs used = costs
place_children child_costs l root_count limit (child ∷ children) costs used =
    let rest_skipped = place_children child_costs l root_count limit children costs used in
    let rest =
      place_children child_costs l root_count limit children
        (place_befores root_count limit (at l.forced_subtree child) costs (child_costs child) 0
          (used + 1) (replicate (limit + 1) impossible_cost))
        (min limit (used + at l.capacity child)) in
    if nat_beq (at l.capacity child) 0 then rest_skipped else rest

-- `pciSubtreeCosts`. The fuel bounds the depth of the tree, which has fewer levels than nodes.
unfoldable pub subtree_costs : PciTree → Loads → ℕ → (root_count fuel : ℕ) → List ℕ
subtree_costs t l node root_count zero = []
subtree_costs t l node root_count (suc fuel) =
    let limit = min (at l.capacity node) root_count in
    let ends = at l.forced node + at l.free node in
    let costs =
      map (λ count. if leb (at l.forced node) count && leb count ends then 0 else impossible_cost)
        (range 0 (limit + 1)) in
    place_children (λ child. subtree_costs t l child root_count fuel) l root_count limit
      (node_at t node).children costs (min ends root_count)

-- The costs of one root, by the number of endpoints that it takes.
unfoldable pub root_costs :
    PciTree → Loads → (known_count total_capacity total_forced root : ℕ) → List ℕ
unfolding subtree_costs
root_costs t l known_count total_capacity total_forced root =
    let capacity = at l.capacity root in
    let forced = at l.forced_subtree root in
    map
      (λ count.
        if ltb count (max forced (known_count - (total_capacity - capacity)))
          || ltb capacity count
          || ltb known_count (count + (total_forced - forced))
        then impossible_cost
        else at (subtree_costs t l root count (length t.nodes)) count)
      (range 0 (min capacity known_count + 1))

unfoldable pub join_counts :
    (known_count before : ℕ) → PlacementCost → ℕ → List ℕ → List PlacementCost → List PlacementCost
unfolding cost_less
join_counts known_count before previous count [] next = next
join_counts known_count before previous count (cost ∷ costs) next =
    let candidate : PlacementCost = record {
      separate_roots = previous.separate_roots + before * count;
      total_distance = previous.total_distance + cost;
      valid = true;
    } in
    join_counts known_count before previous (count + 1) costs (
      if ltb known_count (before + count) || nat_beq cost impossible_cost
      then next
      else if cost_less candidate (get_or next (before + count) no_cost)
      then set next (before + count) candidate
      else next)

unfoldable pub join_befores :
    (known_count before : ℕ) → List ℕ → List PlacementCost → List PlacementCost → List PlacementCost
unfolding join_counts
join_befores known_count before costs [] next = next
join_befores known_count before costs (previous ∷ forest) next =
    join_befores known_count (before + 1) costs forest
      (if previous.valid then join_counts known_count before previous 0 costs next else next)

unfoldable pub join_roots :
    PciTree
    → Loads
    → (known_count total_capacity total_forced : ℕ) → List ℕ
    → List PlacementCost
    → List PlacementCost
unfolding join_befores root_costs
join_roots t l known_count total_capacity total_forced [] forest = forest
join_roots t l known_count total_capacity total_forced (root ∷ roots) forest =
    join_roots t l known_count total_capacity total_forced roots (
      if nat_beq (at l.capacity root) 0
      then forest
      else join_befores known_count 0 (root_costs t l known_count total_capacity total_forced root)
          forest (replicate (known_count + 1) no_cost))

unfoldable pub sum_at : List ℕ → List ℕ → ℕ
sum_at xs [] = 0
sum_at xs (i ∷ is) = at xs i + sum_at xs is

-- `pciLowerBound`, for the chosen devices and the candidates from `start` on.
unfoldable pub pci_lower_bound : TopologyAllocator → List ℕ → List ℕ → ℕ → PlacementCost
unfolding loads join_roots sum_at
pci_lower_bound a chosen rest known_count =
    let l = loads a chosen rest in
    let forest =
      join_roots a.tree l known_count (sum_at l.capacity a.tree.roots)
        (sum_at l.forced_subtree a.tree.roots) a.tree.roots
        (record { separate_roots = 0; total_distance = 0; valid = true }
          ∷ replicate known_count no_cost) in
    get_or forest known_count no_cost
