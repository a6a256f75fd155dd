-- ===== src/Allocator/Policy/Scored.antt =====
-- The counters that `add` keeps: they are the score of the chosen devices by the policy.
use k8s_device_plugin.Prelude.{
  ℕ, ◌+◌, ◌<◌, max, List, [], ◌∷◌, ◌++◌, none, some, Option-cases, not, ◌≡◌, refl, sym, subst, ap,
  ◌∙◌, inl, inr, arith, has, length, get_or, nat_beq, nat_eq,
}
use k8s_device_plugin.Allocator.Score.{Score}
use k8s_device_plugin.Allocator.Model.{TopologyAllocator}
use k8s_device_plugin.Allocator.Search.{
  State, device_at, pair_at, increment, score_sid, score_numa, count_numa, score_pci, score_pair,
  score_pairs, add,
}
use k8s_device_plugin.Allocator.Policy.{
  distinct, sum_from, max_from, known_hops, crossing, sids, numas, without_numa, without_pci,
  policy_score,
}
use k8s_device_plugin.Allocator.Policy.Counts.{
  has-count, distinct-snoc, sum_pairs-snoc, max_pairs-snoc, IsCounted, increment-IsCounted,
}

module _ (a : TopologyAllocator) where
  sids-snoc : (is : List ℕ) (i : ℕ) → sids a (is ++ i ∷ []) ≡ sids a is ++ (device_at a i).sid ∷ []
  unfolding sids
  sids-snoc [] i = refl
  sids-snoc (j ∷ is) i = ap (◌∷◌ (device_at a j).sid) (sids-snoc is i)

  numas-snoc_none :
      (is : List ℕ) (i : ℕ) → (device_at a i).numa ≡ none → numas a (is ++ i ∷ []) ≡ numas a is
  unfolding numas
  numas-snoc_none [] i h = ground (arith, h)
  numas-snoc_none (j ∷ is) i h = ground (arith, numas-snoc_none is i h)

  numas-snoc_some :
      (is : List ℕ) (i n : ℕ)
      → (device_at a i).numa ≡ some n
      → numas a (is ++ i ∷ []) ≡ numas a is ++ n ∷ []
  unfolding numas
  numas-snoc_some [] i n h = ground (arith, h)
  numas-snoc_some (j ∷ is) i n h = ground (arith, numas-snoc_some is i n h)

  without_numa-snoc :
      (is : List ℕ) (i : ℕ)
      → without_numa a (is ++ i ∷ []) ≡ without_numa a is + without_numa a (i ∷ [])
  unfolding without_numa
  without_numa-snoc [] i = ground arith
  without_numa-snoc (j ∷ is) i = ground (arith, without_numa-snoc is i)

  without_pci-snoc :
      (is : List ℕ) (i : ℕ)
      → without_pci a (is ++ i ∷ []) ≡ without_pci a is + without_pci a (i ∷ [])
  unfolding without_pci
  without_pci-snoc [] i = ground arith
  without_pci-snoc (j ∷ is) i = ground (arith, without_pci-snoc is i)

  -- The loop of `add` adds what the new device has with each of the chosen.
  score_pairs-eq :
      (i : ℕ) (others : List ℕ) (s : Score)
      → score_pairs a i others s ≡ record s {
        separate_roots = s.separate_roots + sum_from (λ j k. crossing (pair_at a j k)) i others;
        max_distance = max s.max_distance (max_from (λ j k. known_hops (pair_at a j k)) i others);
        total_distance = s.total_distance + sum_from (λ j k. known_hops (pair_at a j k)) i others;
      }
  unfolding score_pairs score_pair sum_from max_from
  score_pairs-eq i [] s = ground arith
  score_pairs-eq i (j ∷ others) s =
      ground (arith, score_pairs-eq i others (score_pair (pair_at a i j) s))

  -- What `add` reads of the counters is in their range.
  pub record IsInRange (s : State) (i : ℕ) : Type 0 where
    pub sid_fits : (device_at a i).sid < length s.sid_counts
    pub numa_fits : (n : ℕ) → (device_at a i).numa ≡ some n → n < length s.numa_counts

  -- The counters and the score of the state are those of its chosen devices.
  pub record IsScored (s : State) : Type 0 where
    pub scored : s.score ≡ policy_score a s.chosen
    pub by_sid : IsCounted s.sid_counts (sids a s.chosen)
    pub by_numa : IsCounted s.numa_counts (numas a s.chosen)

  new_sid :
      (s : State) (i : ℕ)
      → IsScored s
      → IsInRange s i
      → nat_beq (get_or s.sid_counts (device_at a i).sid 0) 0
        ≡ not (has (device_at a i).sid (sids a s.chosen))
  new_sid s i c r =
      ap (λ n. nat_beq n 0) (c.by_sid (device_at a i).sid r.sid_fits)
      ∙ has-count (device_at a i).sid (sids a s.chosen)

  new_numa :
      (s : State) (i n : ℕ)
      → IsScored s
      → IsInRange s i
      → (device_at a i).numa ≡ some n
      → nat_beq (get_or s.numa_counts n 0) 0 ≡ not (has n (numas a s.chosen))
  new_numa s i n c r e =
      ap (λ m. nat_beq m 0) (c.by_numa n (r.numa_fits n e)) ∙ has-count n (numas a s.chosen)

  -- The score of `add` before its loop.
  abbrev alone : State → ℕ → Score
  alone s i =
      let device = device_at a i in
      score_pci device (score_numa device s.numa_counts (score_sid device s.sid_counts s.score))

  module _ (s : State) (i : ℕ) (c : IsScored s) (r : IsInRange s i) where
    abbrev more : List ℕ
    more = s.chosen ++ i ∷ []

    alone-pairs :
        ((alone s i).separate_roots ≡ s.score.separate_roots)
        × ((alone s i).max_distance ≡ s.score.max_distance)
        × ((alone s i).total_distance ≡ s.score.total_distance)
    unfolding score_sid score_numa score_pci
    alone-pairs = (ground arith, ground arith, ground arith)

    alone-sid_groups : (alone s i).sid_groups ≡ distinct (sids a more)
    unfolding score_sid score_numa score_pci policy_score
    alone-sid_groups = ground (
      arith,
      ap (λ z. z.sid_groups) c.scored,
      new_sid s i c r,
      ap distinct (sids-snoc s.chosen i),
      distinct-snoc (device_at a i).sid (sids a s.chosen),
    )

    alone-unknown_pci : (alone s i).unknown_pci ≡ without_pci a more
    unfolding score_sid score_numa score_pci policy_score without_pci
    alone-unknown_pci =
        ground (arith, ap (λ z. z.unknown_pci) c.scored, without_pci-snoc s.chosen i)

    alone-numa :
        ((alone s i).unknown_numa ≡ without_numa a more)
        × ((alone s i).numa_nodes ≡ distinct (numas a more))
    unfolding score_sid score_numa score_pci policy_score without_numa
    alone-numa = elim (Option-cases (device_at a i).numa) [
      | inl unknown ↦ (
        ground (arith, unknown, ap (λ z. z.unknown_numa) c.scored, without_numa-snoc s.chosen i),
        ground (
          arith,
          unknown,
          ap (λ z. z.numa_nodes) c.scored,
          ap distinct (numas-snoc_none s.chosen i unknown),
        ),
      )
      | inr (n, known) ↦ (
        ground (arith, known, ap (λ z. z.unknown_numa) c.scored, without_numa-snoc s.chosen i),
        ground (
          arith,
          known,
          ap (λ z. z.numa_nodes) c.scored,
          new_numa s i n c r known,
          ap distinct (numas-snoc_some s.chosen i n known),
          distinct-snoc n (numas a s.chosen),
        ),
      )
    ]

    add-score : (add a s i).score ≡ policy_score a more
    unfolding add policy_score
    add-score = ground (
      arith,
      score_pairs-eq i s.chosen (alone s i),
      alone-pairs,
      alone-sid_groups,
      alone-unknown_pci,
      alone-numa,
      ap (λ z. z.separate_roots) c.scored,
      ap (λ z. z.max_distance) c.scored,
      ap (λ z. z.total_distance) c.scored,
      sum_pairs-snoc (λ j k. crossing (pair_at a j k)) s.chosen i,
      max_pairs-snoc (λ j k. known_hops (pair_at a j k)) s.chosen i,
      sum_pairs-snoc (λ j k. known_hops (pair_at a j k)) s.chosen i,
    )

    add-by_numa : IsCounted (count_numa (device_at a i) s.numa_counts) (numas a more)
    unfolding count_numa
    add-by_numa = elim (Option-cases (device_at a i).numa) [
      | inl unknown ↦ rw (unknown, count_numa, numas-snoc_none s.chosen i unknown) c.by_numa
      | inr (n, known) ↦
          rw (known, count_numa, numas-snoc_some s.chosen i n known)
            (increment-IsCounted s.numa_counts (numas a s.chosen) n c.by_numa)
    ]

    -- Where the score and the counters of a state are those of its chosen devices, and the counters
    -- have room for the new device, they are so after `add`: the incremental score is the score of
    -- the policy, computed from the devices alone.
    pub add-IsScored : IsScored (add a s i)
    unfolding add count_numa
    add-IsScored = record {
      scored = add-score;
      by_sid =
          subst (IsCounted (increment s.sid_counts (device_at a i).sid))
            (sym (sids-snoc s.chosen i))
            (increment-IsCounted s.sid_counts (sids a s.chosen) (device_at a i).sid c.by_sid);
      by_numa = add-by_numa;
    }
