-- ===== src/Allocator/Backtrack.antt =====
-- `search`: branch and bound over the combinations of the candidates.
pub mod Cases
pub mod Restore
pub mod Picks
pub mod Exhaustive
use k8s_device_plugin.Prelude.{
  ℕ, zero, suc, ◌+◌, ◌-◌, Bool, false, not, none, some, length, get_or, ltb, if◌then◌else◌,
}
use k8s_device_plugin.Allocator.Score.{less}
use k8s_device_plugin.Allocator.Search.{Setup, State, add, take_back}
use k8s_device_plugin.Allocator.Bound.{lower_bound}

-- `s.best = append(s.best[:0], s.chosen...)`: a copy, so `chosen` may change afterwards.
abbrev pub store_best : State → State
store_best s = record s { best = some s.chosen; best_score = s.score }

unfoldable pub keep_best : State → State
keep_best s = elim s.best [
  | none ↦ store_best s
  | some b ↦ if less s.score s.best_score then store_best s else s
]

module _ (setup : Setup) where
  unfoldable pub is_pruned : State → ℕ → ℕ → Bool
  is_pruned s start remaining = elim s.best [
    | none ↦ false
    | some b ↦ not (less (lower_bound setup s start remaining) s.best_score)
  ]

  -- The `for` loop from candidate `i` on, with the rounds that are left and the recursive call.
  unfoldable pub try_each : (ℕ → State → State) → ℕ → ℕ → State → State
  try_each deeper zero i s = s
  try_each deeper (suc rounds) i s =
      let index = get_or setup.candidates i 0 in
      try_each deeper rounds (i + 1)
        (take_back setup.allocator (deeper (i + 1) (add setup.allocator s index)) index s.score)

  unfoldable pub search : ℕ → ℕ → State → State
  unfolding keep_best is_pruned try_each
  search start zero s = keep_best s
  search start (suc remaining) s =
      let tried =
        try_each (λ i. search i remaining) (length setup.candidates - remaining - start) start s in
      if ltb (length setup.candidates - start) (suc remaining)
      then s
      else if is_pruned s start (suc remaining)
      then s
      else tried
