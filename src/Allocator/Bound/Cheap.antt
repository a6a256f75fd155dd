-- ===== src/Allocator/Bound/Cheap.antt =====
-- The second bound of `lowerBound`, for the roots and the distances of all pairs.
use k8s_device_plugin.Prelude.{
  ℕ, ◌+◌, ◌-◌, ◌*◌, ◌≤◌, false, List, [], ◌∷◌, ◌++◌, ◌≡◌, sym, subst, ap, arith, length, drop,
  Distinct, length-append, nat_eq,
}
use mathlib.Core.List.{append-nil, append_assoc}
use k8s_device_plugin.Allocator.Score.{Score, values, slices_less, less}
use k8s_device_plugin.Allocator.Model.{TopologyAllocator}
use k8s_device_plugin.Allocator.Search.{Setup, State, pair_at}
use k8s_device_plugin.Allocator.Policy.{policy_score, max_pairs, known_hops}
use k8s_device_plugin.Allocator.Policy.Counts.{max_pairs-snoc}
use k8s_device_plugin.Allocator.Policy.Best.{IsReady}
use k8s_device_plugin.Allocator.Backtrack.Picks.{Pick, length-Pick}
use k8s_device_plugin.Allocator.Backtrack.Exhaustive.{add_all}
use k8s_device_plugin.Allocator.Bound.{
  prepare_bounds, triangle, bound_counts, known_finally, bound_cheap,
}
use k8s_device_plugin.Allocator.Bound.Least.{IsMeasured}
use k8s_device_plugin.Allocator.Bound.Pairs.{
  links, with_pci, links-crossings, max_pairs-least, crossings-append, distances-append,
}
use k8s_device_plugin.Allocator.Bound.Counts.{IsBelow, policy-IsBelow, add_all-score}
use k8s_device_plugin.Allocator.Bound.Marks.{AllBelow, AllBelow-append}
use k8s_device_plugin.Allocator.Bound.Suffixes.{passing-pci}

-- Fields that are bounded one by one, the last two where those before them that they rest on are
-- equal, are bounded in the order of the scores.
pub less-bounded :
    (bound final : Score)
    → IsBelow bound final
    → bound.separate_roots ≤ final.separate_roots
    → (final.unknown_pci ≡ bound.unknown_pci
        → final.separate_roots ≡ bound.separate_roots
        → (bound.max_distance ≤ final.max_distance) × (bound.total_distance ≤ final.total_distance))
    → less final bound ≡ false
unfolding less values slices_less
less-bounded bound final below roots distances = ground (
  arith, below.unknown_numa, below.numa_nodes, below.sid_groups, below.unknown_pci, roots,
  distances,
)

pub max_pairs-append : (f : ℕ → ℕ → ℕ) (p xs : List ℕ) → max_pairs f xs ≤ max_pairs f (xs ++ p)
max_pairs-append f [] xs = omega (arith, ap (max_pairs f) (append-nil xs))
max_pairs-append f (c ∷ p) xs = omega (
  arith,
  max_pairs-append f p (xs ++ c ∷ []),
  max_pairs-snoc f xs c,
  ap (max_pairs f) (append_assoc xs (c ∷ []) p),
)

module _ (a : TopologyAllocator) (candidates : List ℕ) (start remaining : ℕ) (s : State) where
  abbrev setup : Setup
  setup = prepare_bounds a candidates

  abbrev counts : Score
  counts = bound_counts setup s start remaining

  abbrev cheap : Score
  cheap = bound_cheap setup s start remaining

  -- A completion of the state: a pick of the candidates that are left, each device once.
  pub record IsCompletion (p : List ℕ) : Type 0 where
    pub ready : IsReady a s
    pub size : length s.sid_counts ≡ a.sid_count
    pub fits : start ≤ length candidates
    pub pick : Pick remaining (drop start candidates) p
    pub chosen_inside : AllBelow (length a.devices) s.chosen
    pub inside : AllBelow (length a.devices) p
    pub once : Distinct (s.chosen ++ p)

  module _ (m : IsMeasured a) (p : List ℕ) (v : IsCompletion p) where
    abbrev all : List ℕ
    all = s.chosen ++ p

    abbrev final : Score
    final = policy_score a all

    pub counts-IsBelow : IsBelow counts final
    counts-IsBelow = policy-IsBelow a candidates start remaining s p v.ready v.size v.fits v.pick

    pub roots-below : counts.separate_roots ≤ final.separate_roots
    unfolding bound_counts policy_score triangle
    roots-below =
        let long = length-Pick v.pick in
        let w = setup.min_separate_roots in
        omega (
          arith,
          crossings-append a m candidates p s.chosen v.chosen_inside v.inside v.once,
          ap (λ z. z.separate_roots) v.ready.counted.scored,
          ap (λ n. (n * length s.chosen + triangle n) * w) long,
        )

    -- Where no more devices without a path are chosen than the bound has: how many have one.
    known-all :
        final.unknown_pci ≡ counts.unknown_pci
        → known_finally setup s start remaining ≡ with_pci a m all
    unfolding known_finally policy_score
    known-all e = omega (arith, e, length-Pick v.pick, length-append s.chosen p, passing-pci a all)

    known-now : length s.chosen - s.score.unknown_pci ≡ with_pci a m s.chosen
    unfolding policy_score
    known-now =
        omega (arith, ap (λ z. z.unknown_pci) v.ready.counted.scored, passing-pci a s.chosen)

    -- The links that the completion adds, as the bound counts them.
    new_links :
        final.unknown_pci ≡ counts.unknown_pci
        → final.separate_roots ≡ counts.separate_roots
        → triangle (known_finally setup s start remaining)
            + s.score.separate_roots
            - (triangle (length s.chosen - s.score.unknown_pci) + counts.separate_roots)
          ≡ links a m all - links a m s.chosen
    unfolding policy_score
    new_links e f = omega (
      arith,
      f,
      ap triangle (known-all e),
      ap triangle known-now,
      ap (λ z. z.separate_roots) v.ready.counted.scored,
      links-crossings a m all
          (AllBelow-append (length a.devices) s.chosen p v.chosen_inside v.inside),
      links-crossings a m s.chosen v.chosen_inside,
    )

    distances-below :
        final.unknown_pci ≡ counts.unknown_pci
        → final.separate_roots ≡ counts.separate_roots
        → (cheap.max_distance ≤ final.max_distance) × (cheap.total_distance ≤ final.total_distance)
    unfolding bound_cheap policy_score
    distances-below e f =
        let all_inside = AllBelow-append (length a.devices) s.chosen p v.chosen_inside v.inside in
        let d = distances-append a m candidates p s.chosen v.chosen_inside v.inside v.once in
        let links_all = links-crossings a m all all_inside in
        (
          ground (
            arith,
            f,
            ap triangle (known-all e),
            links_all,
            max_pairs-least a m candidates all all_inside v.once,
            max_pairs-append (λ i j. known_hops (pair_at a i j)) p s.chosen,
            ap (λ z. z.max_distance) v.ready.counted.scored,
          ),
          omega (
            arith,
            d.1,
            ap (λ n. n * setup.min_distance) (new_links e f),
            ap (λ z. z.total_distance) v.ready.counted.scored,
          ),
        )

    cheap-IsBelow : IsBelow cheap final
    unfolding bound_cheap
    cheap-IsBelow = record {
      unknown_numa = counts-IsBelow.unknown_numa;
      numa_nodes = counts-IsBelow.numa_nodes;
      sid_groups = counts-IsBelow.sid_groups;
      unknown_pci = counts-IsBelow.unknown_pci;
    }

    -- Where the distances of the allocator are measured (`IsMeasured`): no completion of a state
    -- whose counters are right, by candidates that are left and with each device once, has a score
    -- that is less than the cheap bound of `lowerBound`.
    pub bound_cheap-least : less (add_all a s p).score cheap ≡ false
    unfolding bound_cheap
    bound_cheap-least =
        subst (λ z. less z cheap ≡ false) (sym (add_all-score a p s v.ready))
          (less-bounded cheap final cheap-IsBelow roots-below distances-below)
