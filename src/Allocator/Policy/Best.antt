-- ===== src/Allocator/Policy/Best.antt =====
-- The score that the search keeps with its best combination.
use k8s_device_plugin.Prelude.{
  some-inj, ℕ, zero, suc, ◌+◌, Bool-cases, List, some, Option-cases, ◌≡◌, sym, ap, ◌∙◌, inl, inr,
  arith, length-set, get_or,
}
use k8s_device_plugin.Allocator.Score.{less}
use k8s_device_plugin.Allocator.Model.{TopologyAllocator}
use k8s_device_plugin.Allocator.Search.{
  Setup, State, device_at, increment, count_numa, add, take_back,
}
use k8s_device_plugin.Allocator.Backtrack.{store_best, keep_best, try_each, search}
use k8s_device_plugin.Allocator.Backtrack.Cases.{rounds, search_cases}
use k8s_device_plugin.Allocator.Backtrack.Restore.{SameButBest, take_back-add, search-SameButBest}
use k8s_device_plugin.Allocator.Policy.{policy_score}
use k8s_device_plugin.Allocator.Policy.Scored.{IsScored, IsInRange, add-IsScored}

module _ (a : TopologyAllocator) where
  -- The score of the best combination is its score by the policy.
  abbrev pub IsBestScored : State → Type 0
  IsBestScored s = (b : List ℕ) → s.best ≡ some b → s.best_score ≡ policy_score a b

  -- A state in which the search can go on.
  pub record IsReady (s : State) : Type 0 where
    pub counted : IsScored a s
    pub in_range : (i : ℕ) → IsInRange a s i
    pub best_scored : IsBestScored s

  IsInRange-add : (s : State) (j i : ℕ) → IsInRange a s i → IsInRange a (add a s j) i
  unfolding add increment count_numa
  IsInRange-add s j i r = record {
    sid_fits = omega (
      arith,
      r.sid_fits,
      length-set s.sid_counts (device_at a j).sid (get_or s.sid_counts (device_at a j).sid 0 + 1),
    );
    numa_fits = λ n e. elim (Option-cases (device_at a j).numa) [
      | inl unknown ↦ ground (arith, unknown, r.numa_fits n e)
      | inr (m, known) ↦
          ground (
            arith,
            known,
            r.numa_fits n e,
            length-set s.numa_counts m (get_or s.numa_counts m 0 + 1),
          )
    ];
  }

  pub add-IsReady : (s : State) (j : ℕ) → IsReady s → IsReady (add a s j)
  unfolding add
  add-IsReady s j v = record {
    counted = add-IsScored a s j v.counted (v.in_range j);
    in_range = λ i. IsInRange-add s j i (v.in_range i);
    best_scored = v.best_scored;
  }

  SameButBest-IsReady : (s t : State) → SameButBest s t → IsReady s → IsBestScored t → IsReady t
  SameButBest-IsReady s t h v b = record {
    counted = record {
      scored = h.score ∙ v.counted.scored ∙ ap (policy_score a) (sym h.chosen);
      by_sid = rw (h.sid_counts, h.chosen) v.counted.by_sid;
      by_numa = rw (h.numa_counts, h.chosen) v.counted.by_numa;
    };
    in_range = λ i. record {
      sid_fits = rw h.sid_counts (v.in_range i).sid_fits;
      numa_fits = rw h.numa_counts (v.in_range i).numa_fits;
    };
    best_scored = b;
  }

  stored : (s : State) → IsReady s → IsBestScored (store_best s)
  stored s v b e = v.counted.scored ∙ ap (policy_score a) (some-inj e)

  keep_best-IsBestScored : (s : State) → IsReady s → IsBestScored (keep_best s)
  unfolding keep_best
  keep_best-IsBestScored s v = elim (Option-cases s.best) [
    | inl first ↦ rw (first, keep_best) (stored s v)
    | inr (old, later) ↦ elim (Bool-cases (less s.score s.best_score)) [
      | inl better ↦ rw (later, keep_best, better) (stored s v)
      | inr worse ↦ rw (later, keep_best, worse) v.best_scored
    ]
  ]

module _ (setup : Setup) where
  abbrev a : TopologyAllocator
  a = setup.allocator

  try_each-IsBestScored :
      (deeper : ℕ → State → State)
      → ((i : ℕ) (s : State) → SameButBest s (deeper i s))
      → ((i : ℕ) (s : State) → IsReady a s → IsBestScored a (deeper i s))
      → (rounds i : ℕ) (s : State) → IsReady a s
      → IsBestScored a (try_each setup deeper rounds i s)
  unfolding try_each take_back
  try_each-IsBestScored deeper same best zero i s v = v.best_scored
  try_each-IsBestScored deeper same best (suc rounds) i s v =
      let index = get_or setup.candidates i 0 in
      let t = deeper (i + 1) (add a s index) in
      let kept : IsBestScored a t = best (i + 1) (add a s index) (add-IsReady a s index v) in
      try_each-IsBestScored deeper same best rounds (i + 1) (take_back a t index s.score) (
        SameButBest-IsReady a s (take_back a t index s.score)
          (take_back-add a s t index (same (i + 1) (add a s index))) v kept)

  -- From a state whose counters are right and whose best combination has its score, `search` ends
  -- with a best combination whose kept score is its score by the policy, computed from the devices
  -- alone.
  pub search-IsBestScored :
      (start remaining : ℕ) (s : State)
      → IsReady a s
      → IsBestScored a (search setup start remaining s)
  unfolding search
  search-IsBestScored start zero s v = keep_best-IsBestScored a s v
  search-IsBestScored start (suc remaining) s v =
      search_cases setup start remaining s (IsBestScored a) (λ _. v.best_scored)
        (λ _. v.best_scored)
        (λ _ _.
          try_each-IsBestScored (λ i. search setup i remaining)
            (λ i. search-SameButBest setup i remaining) (λ i. search-IsBestScored i remaining)
            (rounds setup start remaining s) start s v)
