-- ===== src/Allocator/Placement/Placed.antt =====
-- Placements of endpoints in the forest, and the lists of costs by number.
use k8s_device_plugin.Prelude.{
  ℕ, zero, suc, ◌+◌, ◌-◌, ◌*◌, ◌≤◌, ◌<◌, List, [], ◌∷◌, map, ◌≡◌, refl, ap, ◌∙◌, arith, length,
  replicate,
}
use k8s_device_plugin.Pci.Tree.{PciTree, node_at}
use k8s_device_plugin.Allocator.Placement.{at, Loads, range}

-- A placement of endpoints below a node, for a root that takes `root_count`: how many end at the
-- node itself, and how many each child takes. Its cost is, for each edge, the pairs that it parts.
mutual
  pub data Placed (t : PciTree) (l : Loads) (root_count : ℕ)
      : (fuel node count cost : ℕ) → Type 0 where
    place :
        {fuel node own rest count cost : ℕ}
        → at l.forced node ≤ own
        → own ≤ at l.forced node + at l.free node
        → count ≡ own + rest
        → count ≤ at l.capacity node
        → count ≤ root_count
        → PlacedAll t l root_count fuel (node_at t node).children rest cost
        → Placed t l root_count (suc fuel) node count cost

  pub data PlacedAll (t : PciTree) (l : Loads) (root_count : ℕ)
      : (fuel : ℕ) → List ℕ → (count cost : ℕ) → Type 0 where
    done : {fuel count cost : ℕ} → count ≡ 0 → PlacedAll t l root_count fuel [] count cost
    child_takes :
        {fuel child k below rest cost count total : ℕ} {children : List ℕ}
        → Placed t l root_count fuel child k below
        → at l.forced_subtree child ≤ k
        → count ≡ k + rest
        → total ≡ below + k * (root_count - k) + cost
        → PlacedAll t l root_count fuel children rest cost
        → PlacedAll t l root_count fuel (child ∷ children) count total

pub at-replicate : (n v y : ℕ) → at (replicate n v) y ≤ v
at-replicate zero v y = omega arith
at-replicate (suc n) v zero = omega arith
at-replicate (suc n) v (suc y) = at-replicate n v y

pub length-range : (from n : ℕ) → length (range from n) ≡ n
length-range from zero = refl
length-range from (suc n) = ap suc (length-range (from + 1) n)

pub at-range : (f : ℕ → ℕ) (from n y : ℕ) → y < n → at (map f (range from n)) y ≡ f (from + y)
at-range f from zero y h = absurd (omega (arith, h))
at-range f from (suc n) zero h = ap f (omega arith)
at-range f from (suc n) (suc y) h =
    at-range f (from + 1) n y (omega (arith, h)) ∙ ap f (omega arith)
