-- ===== src/Allocator/Bound/Worst.antt =====
-- The third bound of `lowerBound`, for the distances from the candidates to the chosen devices.
use k8s_device_plugin.Prelude.{
  ℕ, zero, suc, ◌+◌, ◌-◌, ◌≤◌, ◌<◌, max, false, List, [], ◌∷◌, ◌++◌, map, ◌≡◌, refl, sym, subst, ap,
  arith, length, get_or, drop, leb, nat_eq, if◌then◌else◌,
}
use k8s_device_plugin.Prelude.Sorting.{
  sort, insert_sorted, sort-Ascending, Ascending, Below, nat_order,
}
use mathlib.Core.List.{append-nil, append_assoc}
use k8s_device_plugin.Allocator.Score.{Score, less}
use k8s_device_plugin.Allocator.Model.{TopologyAllocator}
use k8s_device_plugin.Allocator.Search.{Setup, State, pair_at}
use k8s_device_plugin.Allocator.Policy.{policy_score, max_from, max_pairs, known_hops}
use k8s_device_plugin.Allocator.Policy.Counts.{max_pairs-snoc}
use k8s_device_plugin.Allocator.Backtrack.Picks.{Pick, stop, taken, skipped}
use k8s_device_plugin.Allocator.Backtrack.Exhaustive.{add_all}
use k8s_device_plugin.Allocator.Bound.{prepare_bounds, bound_counts, farthest, worst, bound_worst}
use k8s_device_plugin.Allocator.Bound.Least.{IsMeasured}
use k8s_device_plugin.Allocator.Bound.Pairs.{distances-append}
use k8s_device_plugin.Allocator.Bound.Counts.{IsBelow, add_all-score}
use k8s_device_plugin.Allocator.Bound.Cheap.{
  IsCompletion, less-bounded, counts-IsBelow, roots-below, max_pairs-append,
}
use k8s_device_plugin.Allocator.Bound.Marks.{AllBelow}

-- How many entries are not above `m`.
unfoldable under : ℕ → List ℕ → ℕ
under m [] = 0
under m (x ∷ xs) = let rest = under m xs in if leb x m then rest + 1 else rest

under-insert_sorted : (m x : ℕ) (xs : List ℕ) → under m (insert_sorted x xs) ≡ under m (x ∷ xs)
unfolding under
under-insert_sorted m x [] = refl
under-insert_sorted m x (y ∷ ys) = ground (arith, under-insert_sorted m x ys)

under-sort : (m : ℕ) (xs : List ℕ) → under m (sort xs) ≡ under m xs
unfolding sort under
under-sort m [] = refl
under-sort m (x ∷ xs) = ground (arith, under-insert_sorted m x (sort xs), under-sort m xs)

under-none : (m x : ℕ) (xs : List ℕ) → Below x xs → m < x → under m xs ≡ 0
unfolding under
under-none m x [] h k = refl
under-none m x (y ∷ ys) h k = ground (arith, h.0, k, under-none m x ys h.1)

-- In an ascending list they are the first.
get_or-under : (m k : ℕ) (xs : List ℕ) → Ascending xs → k < under m xs → get_or xs k 0 ≤ m
unfolding under
get_or-under m k [] h r = absurd (ground (arith, r))
get_or-under m zero (x ∷ xs) h r = ground (arith, r, under-none m x xs h.0)
get_or-under m (suc k) (x ∷ xs) h r = ground (arith, r, get_or-under m k xs h.1)

-- A bound of all values of a list.
abbrev AllUnder : (ℕ → ℕ) → ℕ → List ℕ → Type 0
AllUnder g m [] = Unit {0}
AllUnder g m (c ∷ cs) = (g c ≤ m) × AllUnder g m cs

under-Pick :
    (g : ℕ → ℕ) (m : ℕ) {n : ℕ} {cs p : List ℕ}
    → Pick n cs p
    → AllUnder g m p
    → n ≤ under m (map g cs)
unfolding under
under-Pick g m stop h = omega arith
under-Pick g m (taken p) h = ground (arith, h.0, under-Pick g m p h.1)
under-Pick g m (skipped p) h = ground (arith, under-Pick g m p h)

max_from-append :
    (f : ℕ → ℕ → ℕ) (z : ℕ) (xs ys : List ℕ) → max_from f z xs ≤ max_from f z (xs ++ ys)
unfolding max_from
max_from-append f z [] ys = omega arith
max_from-append f z (x ∷ xs) ys = omega (arith, max_from-append f z xs ys)

-- Each device of a completion is no farther from those before it than the largest distance.
AllUnder-later :
    (f : ℕ → ℕ → ℕ) (xs : List ℕ) (p ys : List ℕ) (m : ℕ)
    → max_pairs f ((xs ++ ys) ++ p) ≤ m
    → AllUnder (λ c. max_from f c xs) m p
AllUnder-later f xs [] ys m h = tt
AllUnder-later f xs (c ∷ p) ys m h =
    let here = append_assoc (xs ++ ys) (c ∷ []) p in
    let next = append_assoc xs ys (c ∷ []) in
    (
      omega (
        arith,
        h,
        ap (max_pairs f) here,
        max_pairs-append f p ((xs ++ ys) ++ c ∷ []),
        max_pairs-snoc f (xs ++ ys) c,
        max_from-append f c xs ys,
      ),
      AllUnder-later f xs p (ys ++ c ∷ []) m
          (omega (arith, h, ap (max_pairs f) here, ap (λ l. max_pairs f (l ++ p)) next)),
    )

module _ (a : TopologyAllocator) (m : IsMeasured a) where
  farthest-from :
      (c : ℕ) (xs : List ℕ) (d : ℕ)
      → c < length a.devices
      → AllBelow (length a.devices) xs
      → farthest a c xs d ≡ max d (max_from (λ i j. known_hops (pair_at a i j)) c xs)
  unfolding farthest max_from
  farthest-from c [] d h k = omega arith
  farthest-from c (x ∷ xs) d h k =
      omega (arith, farthest-from c xs (max d (pair_at a c x).hops) h k.1, m.counted c x h k.0)

  farthest-AllUnder :
      (xs p : List ℕ) (most : ℕ)
      → AllBelow (length a.devices) xs
      → AllBelow (length a.devices) p
      → AllUnder (λ c. max_from (λ i j. known_hops (pair_at a i j)) c xs) most p
      → AllUnder (λ c. farthest a c xs 0) most p
  farthest-AllUnder xs [] most h k u = tt
  farthest-AllUnder xs (c ∷ p) most h k u =
      (omega (arith, farthest-from c xs 0 k.0 h, u.0), farthest-AllUnder xs p most h k.1 u.1)

module _ (a : TopologyAllocator) (candidates : List ℕ) (start remaining : ℕ) (s : State) where
  abbrev setup : Setup
  setup = prepare_bounds a candidates

  abbrev bound : Score
  bound = bound_worst setup s start (suc remaining)

  module _ (m : IsMeasured a) (p : List ℕ)
      (v : IsCompletion a candidates start (suc remaining) s p) where
    abbrev final : Score
    final = policy_score a (s.chosen ++ p)

    worst-below : get_or (worst setup s start (suc remaining)) remaining 0 ≤ final.max_distance
    unfolding worst policy_score prepare_bounds
    worst-below =
        let most = max_pairs (λ i j. known_hops (pair_at a i j)) (s.chosen ++ p) in
        let all =
          AllUnder-later (λ i j. known_hops (pair_at a i j)) s.chosen p [] most
            (omega (
              arith,
              ap (λ l. max_pairs (λ i j. known_hops (pair_at a i j)) (l ++ p))
                  (append-nil s.chosen),
            )) in
        let far = farthest-AllUnder a m s.chosen p most v.chosen_inside v.inside all in
        let values = map (λ c. farthest a c s.chosen 0) (drop start candidates) in
        get_or-under most remaining (sort values) (sort-Ascending values) (
          omega (
            arith,
            under-sort most values,
            under-Pick (λ c. farthest a c s.chosen 0) most v.pick far,
          ))

    worst-IsBelow : IsBelow bound final
    unfolding bound_worst
    worst-IsBelow =
        let c = counts-IsBelow a candidates start (suc remaining) s m p v in
        record {
          unknown_numa = c.unknown_numa;
          numa_nodes = c.numa_nodes;
          sid_groups = c.sid_groups;
          unknown_pci = c.unknown_pci;
        }

    distances-below :
        (bound.max_distance ≤ final.max_distance) × (bound.total_distance ≤ final.total_distance)
    unfolding bound_worst bound_counts policy_score
    distances-below =
        let last : suc remaining - 1 ≡ remaining = omega arith in
        (
          omega (
            arith,
            worst-below,
            ap (λ n. get_or (worst setup s start (suc remaining)) n 0) last,
            ap (λ z. z.max_distance) v.ready.counted.scored,
            max_pairs-append (λ i j. known_hops (pair_at a i j)) p s.chosen,
          ),
          omega (
            arith,
            (distances-append a m candidates p s.chosen v.chosen_inside v.inside v.once).1,
            ap (λ z. z.total_distance) v.ready.counted.scored,
          ),
        )

    -- Where the distances of the allocator are measured (`IsMeasured`): no completion of a state
    -- whose counters are right, by candidates that are left and with each device once, has a score
    -- that is less than the bound of `lowerBound` by the worst distances.
    pub bound_worst-least : less (add_all a s p).score bound ≡ false
    unfolding bound_worst
    bound_worst-least =
        subst (λ z. less z bound ≡ false) (sym (add_all-score a p s v.ready))
          (less-bounded bound final worst-IsBelow
            (roots-below a candidates start (suc remaining) s m p v) (λ e f. distances-below))
