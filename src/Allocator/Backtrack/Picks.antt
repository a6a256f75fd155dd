-- ===== src/Allocator/Backtrack/Picks.antt =====
-- What the search can store, whatever the bound prunes: the chosen devices and a pick of the
-- candidates; and that it stores something where there are candidates enough.
use mathlib.Core.List.{append_assoc, append-nil}
use k8s_device_plugin.Prelude.{
  ℕ, zero, suc, ◌+◌, ◌-◌, ◌≤◌, true, List, [], ◌∷◌, ◌++◌, Option, none, some, ◌≡◌, refl, ap, sym,
  subst, inl, inr, arith, length, get_or, drop, drop-get_or, Bool-cases, Option-cases,
}
use k8s_device_plugin.Allocator.Score.{less}
use k8s_device_plugin.Allocator.Search.{Setup, State, add, take_back}
use k8s_device_plugin.Allocator.Backtrack.{keep_best, is_pruned, try_each, search}
use k8s_device_plugin.Allocator.Backtrack.Cases.{rounds, search_cases}
use k8s_device_plugin.Allocator.Backtrack.Restore.{take_back-add, search-SameButBest}

-- `p` is `n` entries of a list, in its order.
pub data Pick : ℕ → List ℕ → List ℕ → Type 0 where
  stop : {cs : List ℕ} → Pick zero cs []
  taken : {n c : ℕ} {cs p : List ℕ} → Pick n cs p → Pick (suc n) (c ∷ cs) (c ∷ p)
  skipped : {n c : ℕ} {cs p : List ℕ} → Pick n cs p → Pick n (c ∷ cs) p

pub length-Pick : {n : ℕ} {cs p : List ℕ} → Pick n cs p → length p ≡ n
length-Pick stop = refl
length-Pick (taken h) = ap suc (length-Pick h)
length-Pick (skipped h) = length-Pick h

abbrev pub Holds : (List ℕ → Type 0) → Option (List ℕ) → Type 0
Holds P none = Unit {0}
Holds P (some b) = P b

module _ (P : List ℕ → Type 0) where
  keep_best-Holds : (s : State) → P s.chosen → Holds P s.best → Holds P (keep_best s).best
  unfolding keep_best
  keep_best-Holds s h k = elim (Option-cases s.best) [
    | inl e ↦ rw (e, keep_best) h
    | inr (b, e) ↦ elim (Bool-cases (less s.score s.best_score)) [
      | inl better ↦ rw (e, keep_best, better) h
      | inr worse ↦ rw (e, keep_best, worse) k
    ]
  ]

  module _ (setup : Setup) where
    -- All combinations that can be reached from candidate `i` on satisfy `P`.
    abbrev Reached : ℕ → ℕ → State → Type 0
    Reached i n s = (p : List ℕ) → Pick n (drop i setup.candidates) p → P (s.chosen ++ p)

    try_each-Holds :
        (remaining : ℕ)
        → ((i : ℕ) (s : State)
            → i ≤ length setup.candidates
            → Reached i remaining s
            → Holds P s.best
            → Holds P (search setup i remaining s).best)
        → (rounds i : ℕ) (s : State) → rounds + i ≤ length setup.candidates
        → Reached i (suc remaining) s
        → Holds P s.best
        → Holds P (try_each setup (λ j. search setup j remaining) rounds i s).best
    unfolding try_each add take_back
    try_each-Holds remaining deeper zero i s fits reached h = h
    try_each-Holds remaining deeper (suc rounds) i s fits reached h =
        let a = setup.allocator in
        let c = get_or setup.candidates i 0 in
        let here = drop-get_or setup.candidates i 0 (omega arith) in
        let t = search setup (i + 1) remaining (add a s c) in
        let back = take_back-add a s t c (search-SameButBest setup (i + 1) remaining (add a s c)) in
        try_each-Holds remaining deeper rounds (i + 1) (take_back a t c s.score) (omega arith)
          (λ p k.
            subst (λ l. P (l ++ p)) (sym back.chosen)
              (reached p (subst (λ l. Pick (suc remaining) l p) (sym here) (skipped k))))
          (deeper (i + 1) (add a s c) (omega arith)
            (λ p k.
              subst P (sym (append_assoc s.chosen (c ∷ []) p)) (
                reached (c ∷ p) (subst (λ l. Pick (suc remaining) l (c ∷ p)) (sym here) (taken k))))
            h)

    -- Whatever the search stores, it stored before or reaches from its state.
    pub search-Holds :
        (start remaining : ℕ) (s : State)
        → start ≤ length setup.candidates
        → Reached start remaining s
        → Holds P s.best
        → Holds P (search setup start remaining s).best
    unfolding search
    search-Holds start zero s fits reached h =
        keep_best-Holds s (subst P (append-nil s.chosen) (reached [] stop)) h
    search-Holds start (suc remaining) s fits reached h =
        search_cases setup start remaining s (λ t. Holds P t.best) (λ _. h) (λ _. h)
          (λ _ _.
            try_each-Holds remaining (λ i. search-Holds i remaining)
              (rounds setup start remaining s) start s (omega arith) reached h)

abbrev pub IsSome : Option (List ℕ) → Type 0
IsSome none = ⊥
IsSome (some b) = Unit {0}

keep_best-IsSome : (s : State) → IsSome (keep_best s).best
unfolding keep_best
keep_best-IsSome s = ground arith

module _ (setup : Setup) where
  try_each-stays :
      (remaining : ℕ)
      → ((i : ℕ) (s : State) → IsSome s.best → IsSome (search setup i remaining s).best)
      → (rounds i : ℕ) (s : State) → IsSome s.best
      → IsSome (try_each setup (λ j. search setup j remaining) rounds i s).best
  unfolding try_each add take_back
  try_each-stays remaining deeper zero i s h = h
  try_each-stays remaining deeper (suc rounds) i s h =
      try_each-stays remaining deeper rounds (i + 1) _ (deeper (i + 1) _ h)

  -- A stored combination is only ever replaced.
  search-stays :
      (start remaining : ℕ) (s : State)
      → IsSome s.best
      → IsSome (search setup start remaining s).best
  unfolding search
  search-stays start zero s h = keep_best-IsSome s
  search-stays start (suc remaining) s h =
      search_cases setup start remaining s (λ t. IsSome t.best) (λ _. h) (λ _. h)
        (λ _ _.
          try_each-stays remaining (λ i. search-stays i remaining) (rounds setup start remaining s)
            start s h)

  not-pruned_of_none :
      (s : State) (start remaining : ℕ)
      → s.best ≡ none
      → is_pruned setup s start remaining ≡ true
      → ⊥
  unfolding is_pruned
  not-pruned_of_none s start remaining e h = ground arith

  try_each-IsSome :
      (remaining : ℕ)
      → ((i : ℕ) (s : State)
          → remaining + i ≤ length setup.candidates
          → s.best ≡ none
          → IsSome (search setup i remaining s).best)
      → (rounds i : ℕ) (s : State) → remaining + suc i ≤ length setup.candidates
      → s.best ≡ none
      → IsSome (try_each setup (λ j. search setup j remaining) (suc rounds) i s).best
  unfolding try_each add take_back
  try_each-IsSome remaining deeper rounds i s fits e =
      try_each-stays remaining (λ j. search-stays j remaining) rounds (i + 1) _
        (deeper (i + 1) _ (omega arith) e)

  -- With candidates enough, the search stores a combination.
  pub search-IsSome :
      (start remaining : ℕ) (s : State)
      → remaining + start ≤ length setup.candidates
      → s.best ≡ none
      → IsSome (search setup start remaining s).best
  unfolding search
  search-IsSome start zero s fits e = keep_best-IsSome s
  search-IsSome start (suc remaining) s fits e =
      search_cases setup start remaining s (λ t. IsSome t.best) (λ short. absurd (omega arith))
        (λ cut. absurd (not-pruned_of_none s start (suc remaining) e cut))
        (λ _ _.
          let more : rounds setup start remaining s ≡ suc (rounds setup start remaining s - 1) =
            omega arith in
          rw more (
            try_each-IsSome remaining (λ i. search-IsSome i remaining)
              (rounds setup start remaining s - 1) start s (omega arith) e))
