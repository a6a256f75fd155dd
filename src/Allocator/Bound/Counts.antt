-- ===== src/Allocator/Bound/Counts.antt =====
-- The first bound of `lowerBound`, for the counts that need no PCI path.
use k8s_device_plugin.Prelude.{
  ℕ, suc, ◌+◌, ◌≤◌, List, [], ◌∷◌, ◌++◌, Option-cases, ◌≡◌, refl, sym, subst, ap, ◌∙◌, inl, inr,
  arith, length, get_or, drop, nat_eq,
}
use mathlib.Core.List.{append-nil, append_assoc}
use k8s_device_plugin.Allocator.Score.{Score}
use k8s_device_plugin.Allocator.Model.{TopologyAllocator}
use k8s_device_plugin.Allocator.Search.{State, device_at, add}
use k8s_device_plugin.Allocator.Policy.{
  policy_score, distinct, sids, numas, without_numa, without_pci,
}
use k8s_device_plugin.Allocator.Policy.Scored.{IsInRange}
use k8s_device_plugin.Allocator.Policy.Best.{IsReady, add-IsReady}
use k8s_device_plugin.Allocator.Backtrack.Picks.{Pick, length-Pick}
use k8s_device_plugin.Allocator.Backtrack.Exhaustive.{add_all}
use k8s_device_plugin.Allocator.Bound.{prepare_bounds, bound_counts, suffix_sids, new_groups}
use k8s_device_plugin.Allocator.Bound.Groups.{distinct-new_groups}
use k8s_device_plugin.Allocator.Bound.Marks.{
  AllBelow, AllBelow-append, distinct-marks, marks-append,
}
use k8s_device_plugin.Allocator.Bound.Suffixes.{
  suffix_sids-IsRoom, count-Pick, without_numa-Pick, without_pci-Pick,
}

distinct-append :
    (n : ℕ) (xs ys : List ℕ) → AllBelow n xs → AllBelow n ys → distinct xs ≤ distinct (xs ++ ys)
distinct-append n xs ys h k = omega (
  arith,
  distinct-marks n xs h,
  distinct-marks n (xs ++ ys) (AllBelow-append n xs ys h k),
  marks-append xs ys 0 n,
)

module _ (a : TopologyAllocator) where
  sids-append : (is js : List ℕ) → sids a (is ++ js) ≡ sids a is ++ sids a js
  unfolding sids
  sids-append [] js = refl
  sids-append (i ∷ is) js = ap (◌∷◌ (device_at a i).sid) (sids-append is js)

  numas-append : (is js : List ℕ) → numas a (is ++ js) ≡ numas a is ++ numas a js
  unfolding numas
  numas-append [] js = refl
  numas-append (i ∷ is) js = ground (arith, numas-append is js)

  without_numa-append :
      (is js : List ℕ) → without_numa a (is ++ js) ≡ without_numa a is + without_numa a js
  unfolding without_numa
  without_numa-append [] js = omega arith
  without_numa-append (i ∷ is) js = ground (arith, without_numa-append is js)

  without_pci-append :
      (is js : List ℕ) → without_pci a (is ++ js) ≡ without_pci a is + without_pci a js
  unfolding without_pci
  without_pci-append [] js = omega arith
  without_pci-append (i ∷ is) js = ground (arith, without_pci-append is js)

  length-sids : (is : List ℕ) → length (sids a is) ≡ length is
  unfolding sids
  length-sids [] = refl
  length-sids (i ∷ is) = ap suc (length-sids is)

  module _ (s : State) (range : (i : ℕ) → IsInRange a s i) where
    sids-AllBelow : (is : List ℕ) → AllBelow (length s.sid_counts) (sids a is)
    unfolding sids
    sids-AllBelow [] = tt
    sids-AllBelow (i ∷ is) = ((range i).sid_fits, sids-AllBelow is)

    numas-AllBelow : (is : List ℕ) → AllBelow (length s.numa_counts) (numas a is)
    unfolding numas
    numas-AllBelow [] = tt
    numas-AllBelow (i ∷ is) = elim (Option-cases (device_at a i).numa) [
      | inl e ↦ rw (e, numas) (numas-AllBelow is)
      | inr (n, e) ↦ rw (e, numas) ((range i).numa_fits n e, numas-AllBelow is)
    ]

  -- The score of a state to which a combination was added is that of its devices.
  pub add_all-score :
      (p : List ℕ) (s : State)
      → IsReady a s
      → (add_all a s p).score ≡ policy_score a (s.chosen ++ p)
  unfolding add_all add
  add_all-score [] s v = v.counted.scored ∙ ap (policy_score a) (sym (append-nil s.chosen))
  add_all-score (c ∷ p) s v =
      add_all-score p (add a s c) (add-IsReady a s c v)
      ∙ ap (policy_score a) (append_assoc s.chosen (c ∷ []) p)

-- The counts of the first score are not above those of the second.
pub record IsBelow (bound final : Score) : Type 0 where
  pub unknown_numa : bound.unknown_numa ≤ final.unknown_numa
  pub numa_nodes : bound.numa_nodes ≤ final.numa_nodes
  pub sid_groups : bound.sid_groups ≤ final.sid_groups
  pub unknown_pci : bound.unknown_pci ≤ final.unknown_pci

module _ (a : TopologyAllocator) (candidates : List ℕ) (start remaining : ℕ) (s : State) where
  abbrev bound : Score
  bound = bound_counts (prepare_bounds a candidates) s start remaining

  groups-below :
      (p : List ℕ)
      → IsReady a s
      → length s.sid_counts ≡ a.sid_count
      → start ≤ length candidates
      → Pick remaining (drop start candidates) p
      → distinct (sids a s.chosen)
          + new_groups s.sid_counts
              (get_or (suffix_sids a a.sid_count candidates) start [])
              remaining
        ≤ distinct (sids a (s.chosen ++ p))
  groups-below p v size fits pick =
      let room = suffix_sids-IsRoom a a.sid_count candidates start fits in
      let below = λ (is : List ℕ).
        subst (λ n. AllBelow n (sids a is)) (size ∙ sym room.size)
          (sids-AllBelow a s v.in_range is) in
      rw (sids-append a s.chosen p, ← length-Pick pick, ← length-sids a p)
        (distinct-new_groups s.sid_counts (sids a s.chosen) (sids a p) _ v.counted.by_sid
          (size ∙ sym room.size) (below s.chosen) (below p)
          (λ j k. omega (arith, room.counted j (omega (arith, k, room.size)), count-Pick a j pick)))

  pub policy-IsBelow :
      (p : List ℕ)
      → IsReady a s
      → length s.sid_counts ≡ a.sid_count
      → start ≤ length candidates
      → Pick remaining (drop start candidates) p
      → IsBelow bound (policy_score a (s.chosen ++ p))
  unfolding bound_counts prepare_bounds policy_score
  policy-IsBelow p v size fits pick =
      let is = s.chosen in
      let long = length-Pick pick in
      let numa_below = numas-AllBelow a s v.in_range in
      record {
        unknown_numa = omega (
          arith,
          ap (λ z. z.unknown_numa) v.counted.scored,
          without_numa-append a is p,
          without_numa-Pick a candidates start fits pick,
          long,
        );
        numa_nodes = omega (
          arith,
          ap (λ z. z.numa_nodes) v.counted.scored,
          ap distinct (numas-append a is p),
          distinct-append (length s.numa_counts) (numas a is) (numas a p) (numa_below is)
              (numa_below p),
        );
        sid_groups =
            omega (arith, ap (λ z. z.sid_groups) v.counted.scored, groups-below p v size fits pick);
        unknown_pci = omega (
          arith,
          ap (λ z. z.unknown_pci) v.counted.scored,
          without_pci-append a is p,
          without_pci-Pick a candidates start fits pick,
          long,
        );
      }

  -- Where the counters of a state are right, and there is one for each SID group: however it is
  -- completed by candidates that are left, the counts of its final score (devices of unknown NUMA
  -- node, NUMA nodes, SID groups, devices of unknown PCI path) are not below those that
  -- `lowerBound` starts from.
  pub bound_counts-IsBelow :
      (p : List ℕ)
      → IsReady a s
      → length s.sid_counts ≡ a.sid_count
      → start ≤ length candidates
      → Pick remaining (drop start candidates) p
      → IsBelow bound (add_all a s p).score
  bound_counts-IsBelow p v size fits pick =
      subst (IsBelow bound) (sym (add_all-score a p s v)) (policy-IsBelow p v size fits pick)
