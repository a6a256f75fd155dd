-- ===== src/Allocator/Backtrack/Exhaustive.antt =====
-- The search without pruning, as a reference: every combination, in the order of the candidates.
-- With an admissible bound the search ends in the same state.
use k8s_device_plugin.Prelude.{
  ℕ, zero, suc, ◌+◌, ◌≤◌, ◌<◌, true, false, List, [], ◌∷◌, ◌++◌, map, Option, some, ◌≡◌, refl, ap,
  sym, subst, ◌∙◌, inl, inr, arith, length, get_or, drop, drop-get_or, length-drop, Option-cases,
}
use k8s_device_plugin.Allocator.Score.{Score, less}
use k8s_device_plugin.Allocator.Model.{TopologyAllocator}
use k8s_device_plugin.Allocator.Search.{Setup, State, add, take_back}
use k8s_device_plugin.Allocator.Backtrack.{keep_best, is_pruned, try_each, search}
use k8s_device_plugin.Allocator.Backtrack.Cases.{rounds, search_cases}
use k8s_device_plugin.Allocator.Backtrack.Restore.{SameButBest-refl, take_back-add}
use k8s_device_plugin.Allocator.Backtrack.Picks.{Pick, stop, taken, skipped}

-- The sublists of `n` entries, those with the first entry before the others.
unfoldable pub combinations : ℕ → List ℕ → List (List ℕ)
combinations zero cs = [] ∷ []
combinations (suc n) [] = []
combinations (suc n) (c ∷ cs) = map (◌∷◌ c) (combinations n cs) ++ combinations (suc n) cs

abbrev pub All : (List ℕ → Type 0) → List (List ℕ) → Type 0
All P [] = Unit {0}
All P (p ∷ ps) = P p × All P ps

All-append : (P : List ℕ → Type 0) (ps qs : List (List ℕ)) → All P ps → All P qs → All P (ps ++ qs)
All-append P [] qs h k = k
All-append P (p ∷ ps) qs h k = (h.0, All-append P ps qs h.1 k)

All-map :
    (P : List ℕ → Type 0) (c : ℕ) (ps : List (List ℕ))
    → All (λ p. P (c ∷ p)) ps
    → All P (map (◌∷◌ c) ps)
All-map P c [] h = tt
All-map P c (p ∷ ps) h = (h.0, All-map P c ps h.1)

-- Each of them is a pick.
pub combinations-All :
    (P : List ℕ → Type 0) (n : ℕ) (cs : List ℕ)
    → ((p : List ℕ) → Pick n cs p → P p)
    → All P (combinations n cs)
unfolding combinations
combinations-All P zero cs h = (h [] stop, tt)
combinations-All P (suc n) [] h = tt
combinations-All P (suc n) (c ∷ cs) h =
    All-append P (map (◌∷◌ c) (combinations n cs)) (combinations (suc n) cs)
      (All-map P c (combinations n cs)
        (combinations-All (λ p. P (c ∷ p)) n cs (λ p k. h (c ∷ p) (taken k))))
      (combinations-All P (suc n) cs (λ p k. h p (skipped k)))

combinations_short : (n : ℕ) (cs : List ℕ) → length cs < n → combinations n cs ≡ []
unfolding combinations
combinations_short zero cs h = absurd (omega arith)
combinations_short (suc n) [] h = refl
combinations_short (suc n) (c ∷ cs) h =
    rw (combinations_short n cs (omega arith), combinations_short (suc n) cs (omega arith))

abbrev pub with_best : State → Option (List ℕ) → Score → State
with_best s b score = record s { best = b; best_score = score }

module _ (a : TopologyAllocator) where
  unfoldable pub add_all : State → List ℕ → State
  add_all s [] = s
  add_all s (c ∷ cs) = add_all (add a s c) cs

  -- The state after a combination has been offered.
  abbrev pub offered : State → List ℕ → State
  offered s p = with_best s (keep_best (add_all s p)).best (keep_best (add_all s p)).best_score

  -- Offers each combination in turn, from the same state.
  unfoldable pub exhaust : State → List (List ℕ) → State
  unfolding add_all
  exhaust s [] = s
  exhaust s (p ∷ ps) = exhaust (offered s p) ps

  exhaust-append :
      (s : State) (ps qs : List (List ℕ)) → exhaust s (ps ++ qs) ≡ exhaust (exhaust s ps) qs
  unfolding exhaust
  exhaust-append s [] qs = refl
  exhaust-append s (p ∷ ps) qs = exhaust-append (offered s p) ps qs

  take_back-add_self : (s : State) (c : ℕ) → take_back a (add a s c) c s.score ≡ s
  unfolding take_back add
  take_back-add_self s c =
      let h = take_back-add a s (add a s c) c (SameButBest-refl (add a s c)) in
      λ i. record {
        chosen = h.chosen i;
        best = s.best;
        sid_counts = h.sid_counts i;
        numa_counts = h.numa_counts i;
        score = s.score;
        best_score = s.best_score;
      }

  -- To offer the combinations that begin with `c` is to add it, offer the rests, and take it back.
  exhaust-map :
      (s : State) (c : ℕ) (ps : List (List ℕ))
      → exhaust s (map (◌∷◌ c) ps) ≡ take_back a (exhaust (add a s c) ps) c s.score
  unfolding exhaust add
  exhaust-map s c [] = sym (take_back-add_self s c)
  exhaust-map s c (p ∷ ps) = exhaust-map (offered s (c ∷ p)) c ps

  add_all-best :
      (s : State) (p : List ℕ)
      → ((add_all s p).best ≡ s.best) × ((add_all s p).best_score ≡ s.best_score)
  unfolding add_all add
  add_all-best s [] = (refl, refl)
  add_all-best s (c ∷ p) = add_all-best (add a s c) p

  offered-rejected :
      (s : State) (b p : List ℕ)
      → s.best ≡ some b
      → less (add_all s p).score s.best_score ≡ false
      → offered s p ≡ s
  unfolding keep_best
  offered-rejected s b p e h = let (same, score) = add_all-best s p in ground arith

  exhaust-rejected :
      (s : State) (b : List ℕ) (ps : List (List ℕ))
      → s.best ≡ some b
      → All (λ p. less (add_all s p).score s.best_score ≡ false) ps
      → exhaust s ps ≡ s
  unfolding exhaust
  exhaust-rejected s b [] e h = refl
  exhaust-rejected s b (p ∷ ps) e h =
      rw (offered-rejected s b p e h.0) (exhaust-rejected s b ps e h.1)

-- What makes the bound safe to prune with: in the states that `Fit` admits for candidate `i`, a
-- pruned search has no combination that is better than the best one.
pub record IsAdmissible (setup : Setup) (Fit : ℕ → State → Type 0) : Type 0 where
  pub fit_add :
      (i : ℕ) (s : State)
      → i < length setup.candidates
      → Fit i s
      → Fit (i + 1) (add setup.allocator s (get_or setup.candidates i 0))
  pub fit_skip :
      (i : ℕ) (s : State) (b : Option (List ℕ)) (score : Score)
      → i < length setup.candidates
      → Fit i s
      → Fit (i + 1) (with_best s b score)
  pub sound :
      (i remaining : ℕ) (s : State) (p : List ℕ)
      → Fit i s
      → is_pruned setup s i (suc remaining) ≡ true
      → Pick (suc remaining) (drop i setup.candidates) p
      → less (add_all setup.allocator s p).score s.best_score ≡ false

exhaust-with_best :
    (a : TopologyAllocator) (s : State) (ps : List (List ℕ))
    → exhaust a s ps ≡ with_best s (exhaust a s ps).best (exhaust a s ps).best_score
unfolding exhaust
exhaust-with_best a s [] = refl
exhaust-with_best a s (p ∷ ps) = exhaust-with_best a (offered a s p) ps

keep_best-with_best :
    (s : State) → keep_best s ≡ with_best s (keep_best s).best (keep_best s).best_score
unfolding keep_best
keep_best-with_best s = ground arith

-- The first candidate, then the others.
exhaust-combinations :
    (a : TopologyAllocator) (s : State) (n c : ℕ) (cs : List ℕ)
    → exhaust a s (combinations (suc n) (c ∷ cs))
      ≡ exhaust a
          (take_back a (exhaust a (add a s c) (combinations n cs)) c s.score)
          (combinations (suc n) cs)
unfolding combinations
exhaust-combinations a s n c cs =
    exhaust-append a s (map (◌∷◌ c) (combinations n cs)) (combinations (suc n) cs)
    ∙ ap (λ t. exhaust a t (combinations (suc n) cs)) (exhaust-map a s c (combinations n cs))

take_back-exhaust :
    (a : TopologyAllocator) (s : State) (c : ℕ) (ps : List (List ℕ))
    → let t = take_back a (exhaust a (add a s c) ps) c s.score in
      t ≡ with_best s t.best t.best_score
take_back-exhaust a s c ps =
    subst (λ t. t ≡ with_best s t.best t.best_score) (exhaust-map a s c ps)
      (exhaust-with_best a s (map (◌∷◌ c) ps))

is_pruned-some :
    (setup : Setup) (s : State) (i n : ℕ)
    → is_pruned setup s i n ≡ true
    → (b : List ℕ) × (s.best ≡ some b)
unfolding is_pruned
is_pruned-some setup s i n h = elim (Option-cases s.best) [
  | inl e ↦ absurd (ground arith)
  | inr found ↦ found
]

module _ (setup : Setup) {Fit : ℕ → State → Type 0} (safe : IsAdmissible setup Fit) where
  open safe use {fit_add, fit_skip, sound}

  try_each-eq-exhaust :
      (remaining : ℕ)
      → ((i : ℕ) (s : State)
          → i ≤ length setup.candidates
          → Fit i s
          → search setup i remaining s
            ≡ exhaust setup.allocator s (combinations remaining (drop i setup.candidates)))
      → (rounds i : ℕ) (s : State) → rounds + i + remaining ≡ length setup.candidates
      → Fit i s
      → try_each setup (λ j. search setup j remaining) rounds i s
        ≡ exhaust setup.allocator s (combinations (suc remaining) (drop i setup.candidates))
  unfolding try_each exhaust
  try_each-eq-exhaust remaining deeper zero i s fits fit = rw (
      combinations_short (suc remaining) (drop i setup.candidates)
        (omega (arith, length-drop i setup.candidates)))
  try_each-eq-exhaust remaining deeper (suc rounds) i s fits fit =
      let a = setup.allocator in
      let c = get_or setup.candidates i 0 in
      let cs = drop (i + 1) setup.candidates in
      let inner : search setup (i + 1) remaining (add a s c)
          ≡ exhaust a (add a s c) (combinations remaining cs) =
        deeper (i + 1) (add a s c) (omega arith) (fit_add i s (omega arith) fit) in
      let next = take_back a (exhaust a (add a s c) (combinations remaining cs)) c s.score in
      let fit' : Fit (i + 1) next =
        subst (Fit (i + 1)) (sym (take_back-exhaust a s c (combinations remaining cs)))
          (fit_skip i s next.best next.best_score (omega arith) fit) in
      rw (inner, drop-get_or setup.candidates i 0 (omega arith))
        (try_each-eq-exhaust remaining deeper rounds (i + 1) next (omega arith) fit'
          ∙ sym (exhaust-combinations a s remaining c cs))

  -- Pruning changes nothing: the search ends as if it had offered every combination.
  pub search-eq-exhaust :
      (start remaining : ℕ) (s : State)
      → start ≤ length setup.candidates
      → Fit start s
      → search setup start remaining s
        ≡ exhaust setup.allocator s (combinations remaining (drop start setup.candidates))
  unfolding search exhaust combinations add_all
  search-eq-exhaust start zero s fits fit = keep_best-with_best s
  search-eq-exhaust start (suc remaining) s fits fit =
      search_cases setup start remaining s
        (λ t.
          t
          ≡ exhaust setup.allocator s (combinations (suc remaining) (drop start setup.candidates)))
        (λ short. rw (
          combinations_short (suc remaining) (drop start setup.candidates)
            (omega (arith, length-drop start setup.candidates))))
        (λ cut.
          let (b, e) = is_pruned-some setup s start (suc remaining) cut in
          sym (
            exhaust-rejected setup.allocator s b _ e
              (combinations-All _ _ _ (λ p. sound start remaining s p fit cut))))
        (λ enough kept.
          try_each-eq-exhaust remaining (λ i. search-eq-exhaust i remaining)
            (rounds setup start remaining s) start s (omega arith) fit)
