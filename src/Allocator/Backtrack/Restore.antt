-- ===== src/Allocator/Backtrack/Restore.antt =====
-- The search takes back all that it does to its state, but for the best combination.
use k8s_device_plugin.Prelude.{
  ℕ, zero, suc, ◌+◌, ◌-◌, List, [], ◌∷◌, ◌≡◌, refl, ap, ◌∙◌, arith, get_or, set, drop_last,
  drop_last-snoc, set-set, set-get_or,
}
use k8s_device_plugin.Allocator.Model.{AllocationDevice, TopologyAllocator}
use k8s_device_plugin.Allocator.Search.{
  Setup, State, add, take_back, increment, decrement, count_numa, discount_numa, device_at,
}
use k8s_device_plugin.Allocator.Backtrack.{keep_best, try_each, search}
use k8s_device_plugin.Allocator.Backtrack.Cases.{rounds, search_cases}

-- The second state differs from the first in the best combination and its score only.
pub record SameButBest (s t : State) : Type 0 where
  pub chosen : t.chosen ≡ s.chosen
  pub sid_counts : t.sid_counts ≡ s.sid_counts
  pub numa_counts : t.numa_counts ≡ s.numa_counts
  pub score : t.score ≡ s.score

pub SameButBest-refl : (s : State) → SameButBest s s
SameButBest-refl s = record { chosen = refl; sid_counts = refl; numa_counts = refl; score = refl }

pub SameButBest-trans : {s t u : State} → SameButBest s t → SameButBest t u → SameButBest s u
SameButBest-trans p q = record {
  chosen = q.chosen ∙ p.chosen;
  sid_counts = q.sid_counts ∙ p.sid_counts;
  numa_counts = q.numa_counts ∙ p.numa_counts;
  score = q.score ∙ p.score;
}

get_or-set_cases :
    (xs : List ℕ) (i n : ℕ) → set xs i (get_or (set xs i (n + 1)) i 0 - 1) ≡ set xs i n
get_or-set_cases [] i n = refl
get_or-set_cases (x ∷ xs) zero n = ap (λ m. m ∷ xs) (omega arith)
get_or-set_cases (x ∷ xs) (suc i) n = ap (◌∷◌ x) (get_or-set_cases xs i n)

pub decrement-increment : (xs : List ℕ) (i : ℕ) → decrement (increment xs i) i ≡ xs
unfolding increment decrement
decrement-increment xs i =
    set-set xs i (get_or xs i 0 + 1) _ ∙ get_or-set_cases xs i (get_or xs i 0) ∙ set-get_or xs i 0

pub discount_numa-count_numa :
    (d : AllocationDevice) (xs : List ℕ) → discount_numa d (count_numa d xs) ≡ xs
unfolding count_numa discount_numa
discount_numa-count_numa d xs = grind (arith, decrement-increment)

module _ (a : TopologyAllocator) where
  -- What follows `add` in the loop undoes it.
  pub take_back-add :
      (s t : State) (index : ℕ)
      → SameButBest (add a s index) t
      → SameButBest s (take_back a t index s.score)
  unfolding add take_back
  take_back-add s t index h = record {
    chosen = ap drop_last h.chosen ∙ drop_last-snoc s.chosen index;
    sid_counts =
        ap (λ xs. decrement xs (device_at a index).sid) h.sid_counts ∙ decrement-increment _ _;
    numa_counts =
        ap (discount_numa (device_at a index)) h.numa_counts
        ∙ discount_numa-count_numa (device_at a index) s.numa_counts;
    score = refl;
  }

keep_best-SameButBest : (s : State) → SameButBest s (keep_best s)
unfolding keep_best
keep_best-SameButBest s = ground arith

module _ (setup : Setup) where
  try_each-SameButBest :
      (deeper : ℕ → State → State)
      → ((i : ℕ) (s : State) → SameButBest s (deeper i s))
      → (rounds i : ℕ) (s : State) → SameButBest s (try_each setup deeper rounds i s)
  unfolding try_each
  try_each-SameButBest deeper h zero i s = SameButBest-refl s
  try_each-SameButBest deeper h (suc rounds) i s =
      SameButBest-trans (take_back-add setup.allocator s _ _ (h (i + 1) _))
        (try_each-SameButBest deeper h rounds (i + 1) _)

  -- `search` leaves the chosen devices, the counts and the score as it found them.
  pub search-SameButBest :
      (start remaining : ℕ) (s : State) → SameButBest s (search setup start remaining s)
  unfolding search
  search-SameButBest start zero s = keep_best-SameButBest s
  search-SameButBest start (suc remaining) s =
      search_cases setup start remaining s (SameButBest s) (λ _. SameButBest-refl s)
        (λ _. SameButBest-refl s)
        (λ _ _.
          try_each-SameButBest (λ i. search setup i remaining) (λ i. search-SameButBest i remaining)
            (rounds setup start remaining s) start s)
