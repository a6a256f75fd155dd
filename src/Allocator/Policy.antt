-- ===== src/Allocator/Policy.antt =====
-- The policy by itself: the score of a list of devices, as the README describes it, with no
-- counters.
pub mod Counts
pub mod Scored
pub mod Best
pub mod Ready
use k8s_device_plugin.Prelude.{
  ℕ, zero, suc, ◌+◌, max, Bool, List, [], ◌∷◌, map, Option, none, some, has, nat_beq, nat_eq,
  if◌then◌else◌,
}
use k8s_device_plugin.Pci.Tree.{PciDistance}
use k8s_device_plugin.Allocator.Score.{Score}
use k8s_device_plugin.Allocator.Model.{AllocationDevice, TopologyAllocator}
use k8s_device_plugin.Allocator.Search.{device_at, pair_at}

unfoldable pub count : ℕ → List ℕ → ℕ
count k [] = 0
count k (x ∷ xs) = let rest = count k xs in if nat_beq x k then rest + 1 else rest

-- How many different numbers a list holds.
unfoldable pub distinct : List ℕ → ℕ
distinct [] = 0
distinct (x ∷ xs) = let rest = distinct xs in if has x xs then rest else rest + 1

-- The sum, and the largest, of `f later earlier` over the pairs of a list.
unfoldable pub sum_from : (ℕ → ℕ → ℕ) → ℕ → List ℕ → ℕ
sum_from f z [] = 0
sum_from f z (x ∷ xs) = f z x + sum_from f z xs

unfoldable pub sum_to : (ℕ → ℕ → ℕ) → List ℕ → ℕ → ℕ
sum_to f [] x = 0
sum_to f (y ∷ ys) x = f y x + sum_to f ys x

unfoldable pub sum_pairs : (ℕ → ℕ → ℕ) → List ℕ → ℕ
unfolding sum_to
sum_pairs f [] = 0
sum_pairs f (x ∷ xs) = sum_to f xs x + sum_pairs f xs

unfoldable pub max_from : (ℕ → ℕ → ℕ) → ℕ → List ℕ → ℕ
max_from f z [] = 0
max_from f z (x ∷ xs) = max (f z x) (max_from f z xs)

unfoldable pub max_to : (ℕ → ℕ → ℕ) → List ℕ → ℕ → ℕ
max_to f [] x = 0
max_to f (y ∷ ys) x = max (f y x) (max_to f ys x)

unfoldable pub max_pairs : (ℕ → ℕ → ℕ) → List ℕ → ℕ
unfolding max_to
max_pairs f [] = 0
max_pairs f (x ∷ xs) = max (max_to f xs x) (max_pairs f xs)

abbrev pub known_hops : PciDistance → ℕ
known_hops p = if p.known then p.hops else 0

abbrev pub crossing : PciDistance → ℕ
crossing p = if p.separate_roots then 1 else 0

module _ (a : TopologyAllocator) where
  unfoldable pub sids : List ℕ → List ℕ
  unfolding device_at
  sids [] = []
  sids (i ∷ is) = (device_at a i).sid ∷ sids is

  unfoldable pub numas : List ℕ → List ℕ
  unfolding device_at
  numas [] = []
  numas (i ∷ is) =
      let rest = numas is in elim (device_at a i).numa [ none ↦ rest | some n ↦ n ∷ rest ]

  unfoldable pub without_numa : List ℕ → ℕ
  unfolding device_at
  without_numa [] = 0
  without_numa (i ∷ is) =
      let rest = without_numa is in elim (device_at a i).numa [ none ↦ rest + 1 | some n ↦ rest ]

  unfoldable pub without_pci : List ℕ → ℕ
  unfolding device_at
  without_pci [] = 0
  without_pci (i ∷ is) =
      let rest = without_pci is in if (device_at a i).has_pci then rest else rest + 1

  unfoldable pub policy_score : List ℕ → Score
  unfolding distinct sids numas without_numa without_pci sum_pairs max_pairs pair_at
  policy_score is = record {
    unknown_numa = without_numa is;
    numa_nodes = distinct (numas is);
    sid_groups = distinct (sids is);
    unknown_pci = without_pci is;
    separate_roots = sum_pairs (λ i j. crossing (pair_at a i j)) is;
    max_distance = max_pairs (λ i j. known_hops (pair_at a i j)) is;
    total_distance = sum_pairs (λ i j. known_hops (pair_at a i j)) is;
  }
