-- ===== src/Allocator/Placement/Rounds.antt =====
-- The loops of `pciSubtreeCosts` over one child: entries only fall, and each round reaches the ones
-- that it is for.
use k8s_device_plugin.Prelude.{
  ℕ, zero, suc, ◌+◌, ◌-◌, ◌*◌, ◌≤◌, ◌<◌, min, true, false, Bool-cases, List, [], ◌∷◌, ◌≡◌, refl,
  subst, ap, ◌∙◌, inl, inr, arith, length, length-set, get_or-set, set, nat_beq, nat_beq_iff,
}
use k8s_device_plugin.Allocator.Placement.{at, impossible_cost, place_counts, place_befores}

at-outside : (xs : List ℕ) (y : ℕ) → length xs ≤ y → at xs y ≡ 0
at-outside [] y h = refl
at-outside (x ∷ xs) zero h = absurd (omega (arith, h))
at-outside (x ∷ xs) (suc y) h = at-outside xs y (omega (arith, h))

set-less : (xs : List ℕ) (i v y : ℕ) → v ≤ at xs i → at (set xs i v) y ≤ at xs y
set-less [] i v y h = omega arith
set-less (x ∷ xs) zero v zero h = omega (arith, h)
set-less (x ∷ xs) zero v (suc y) h = omega arith
set-less (x ∷ xs) (suc i) v zero h = omega arith
set-less (x ∷ xs) (suc i) v (suc y) h = set-less xs i v y h

module _ (root_count : ℕ) where
  pub place_counts-less :
      (before base : ℕ) (child_costs : List ℕ) (count n : ℕ) (next : List ℕ) (y : ℕ)
      → at (place_counts root_count before base child_costs count n next) y ≤ at next y
  unfolding place_counts
  place_counts-less before base child_costs count zero next y = omega arith
  place_counts-less before base child_costs count (suc n) next y =
      elim (Bool-cases (nat_beq (at child_costs count) impossible_cost)) [
        | inl none ↦
            rw (none, place_counts) (place_counts-less before base child_costs (count + 1) n next y)
        | inr some_cost ↦
            let v =
              min (at next (before + count))
                (base + at child_costs count + count * (root_count - count)) in
            let rest =
              place_counts-less before base child_costs (count + 1) n (set next (before + count) v)
                y in
            let here = set-less next (before + count) v y (omega arith) in
            rw (some_cost, place_counts) (omega (arith, rest, here))
      ]

  pub length-place_counts :
      (before base : ℕ) (child_costs : List ℕ) (count n : ℕ) (next : List ℕ)
      → length (place_counts root_count before base child_costs count n next) ≡ length next
  unfolding place_counts
  length-place_counts before base child_costs count zero next = refl
  length-place_counts before base child_costs count (suc n) next =
      elim (Bool-cases (nat_beq (at child_costs count) impossible_cost)) [
        | inl none ↦
            rw (none, place_counts) (length-place_counts before base child_costs (count + 1) n next)
        | inr some_cost ↦
            let v =
              min (at next (before + count))
                (base + at child_costs count + count * (root_count - count)) in
            let rest =
              length-place_counts before base child_costs (count + 1) n
                (set next (before + count) v) in
            rw (some_cost, place_counts) (omega (arith, rest, length-set next (before + count) v))
      ]

  -- The round for `k` endpoints of the child.
  place_counts-at :
      (before base : ℕ) (child_costs : List ℕ) (count n k : ℕ) (next : List ℕ)
      → count ≤ k
      → k < count + n
      → before + k < length next
      → nat_beq (at child_costs k) impossible_cost ≡ false
      → at (place_counts root_count before base child_costs count n next) (before + k)
        ≤ base + at child_costs k + k * (root_count - k)
  unfolding place_counts
  place_counts-at before base child_costs count zero k next low high fits some_cost =
      absurd (omega (arith, low, high))
  place_counts-at before base child_costs count (suc n) k next low high fits some_cost =
      let v =
        min (at next (before + count))
          (base + at child_costs count + count * (root_count - count)) in
      elim (Bool-cases (nat_beq count k)) [
        | inl here ↦
            let same = (nat_beq_iff count k).0 here in
            let now : nat_beq (at child_costs count) impossible_cost ≡ false =
              ap (λ i. nat_beq (at child_costs i) impossible_cost) same ∙ some_cost in
            let rest =
              place_counts-less before base child_costs (count + 1) n (set next (before + count) v)
                (before + k) in
            let slot : nat_beq (before + count) (before + k) ≡ true = ground (arith, same) in
            let wrote = get_or-set next (before + count) (before + k) v 0 fits in
            rw (now, place_counts)
              (omega (
                arith,
                rest,
                wrote,
                rw slot at wrote,
                ap (λ i. at child_costs i + i * (root_count - i)) same,
              ))
        | inr later ↦ elim (Bool-cases (nat_beq (at child_costs count) impossible_cost)) [
          | inl none ↦
              rw (none, place_counts)
                (place_counts-at before base child_costs (count + 1) n k next
                  (ground (arith, later, low)) (omega (arith, high)) fits some_cost)
          | inr now ↦
              rw (now, place_counts)
                (place_counts-at before base child_costs (count + 1) n k
                  (set next (before + count) v) (ground (arith, later, low)) (omega (arith, high))
                  (omega (arith, fits, length-set next (before + count) v)) some_cost)
        ]
      ]

  pub place_befores-less :
      (limit from : ℕ) (costs child_costs : List ℕ) (before n : ℕ) (next : List ℕ) (y : ℕ)
      → at (place_befores root_count limit from costs child_costs before n next) y ≤ at next y
  unfolding place_befores
  place_befores-less limit from costs child_costs before zero next y = omega arith
  place_befores-less limit from costs child_costs before (suc n) next y =
      elim (Bool-cases (nat_beq (at costs before) impossible_cost)) [
        | inl none ↦
            rw (none, place_befores)
              (place_befores-less limit from costs child_costs (before + 1) n next y)
        | inr some_cost ↦
            let rounds = min (length child_costs) (limit + 1 - before) - from in
            let next' =
              place_counts root_count before (at costs before) child_costs from rounds next in
            let rest = place_befores-less limit from costs child_costs (before + 1) n next' y in
            let here = place_counts-less before (at costs before) child_costs from rounds next y in
            rw (some_cost, place_befores) (omega (arith, rest, here))
      ]

  pub length-place_befores :
      (limit from : ℕ) (costs child_costs : List ℕ) (before n : ℕ) (next : List ℕ)
      → length (place_befores root_count limit from costs child_costs before n next) ≡ length next
  unfolding place_befores
  length-place_befores limit from costs child_costs before zero next = refl
  length-place_befores limit from costs child_costs before (suc n) next =
      elim (Bool-cases (nat_beq (at costs before) impossible_cost)) [
        | inl none ↦
            rw (none, place_befores)
              (length-place_befores limit from costs child_costs (before + 1) n next)
        | inr some_cost ↦
            let rounds = min (length child_costs) (limit + 1 - before) - from in
            let next' =
              place_counts root_count before (at costs before) child_costs from rounds next in
            rw (some_cost, place_befores)
              (length-place_befores limit from costs child_costs (before + 1) n next'
                ∙ length-place_counts before (at costs before) child_costs from rounds next)
      ]

  -- The rounds for `x` endpoints before the child, and `k` of the child.
  pub place_befores-at :
      (limit from : ℕ) (costs child_costs : List ℕ) (before n x k : ℕ) (next : List ℕ)
      → before ≤ x
      → x < before + n
      → from ≤ k
      → k < length child_costs
      → x + k ≤ limit
      → length next ≡ limit + 1
      → nat_beq (at costs x) impossible_cost ≡ false
      → nat_beq (at child_costs k) impossible_cost ≡ false
      → at (place_befores root_count limit from costs child_costs before n next) (x + k)
        ≤ at costs x + at child_costs k + k * (root_count - k)
  unfolding place_befores
  place_befores-at limit from costs child_costs before zero x k next low high least most fits size
        one two =
      absurd (omega (arith, low, high))
  place_befores-at limit from costs child_costs before (suc n) x k next low high least most fits
        size one two =
      let rounds = min (length child_costs) (limit + 1 - before) - from in
      let next' = place_counts root_count before (at costs before) child_costs from rounds next in
      elim (Bool-cases (nat_beq before x)) [
        | inl here ↦
            let same = (nat_beq_iff before x).0 here in
            let now : nat_beq (at costs before) impossible_cost ≡ false =
              ap (λ i. nat_beq (at costs i) impossible_cost) same ∙ one in
            let rest =
              place_befores-less limit from costs child_costs (before + 1) n next' (before + k) in
            let wrote =
              place_counts-at before (at costs before) child_costs from rounds k next least
                (omega (arith, least, most, fits, same)) (omega (arith, size, fits, same)) two in
            rw (now, place_befores)
              (subst
                (λ i.
                  at (place_befores root_count limit from costs child_costs (before + 1) n next')
                    (i + k)
                  ≤ at costs i + at child_costs k + k * (root_count - k))
                same (omega (arith, rest, wrote)))
        | inr later ↦ elim (Bool-cases (nat_beq (at costs before) impossible_cost)) [
          | inl none ↦
              rw (none, place_befores)
                (place_befores-at limit from costs child_costs (before + 1) n x k next
                  (ground (arith, later, low)) (omega (arith, high)) least most fits size one two)
          | inr now ↦
              rw (now, place_befores)
                (place_befores-at limit from costs child_costs (before + 1) n x k next'
                  (ground (arith, later, low)) (omega (arith, high)) least most fits
                  (length-place_counts before (at costs before) child_costs from rounds next ∙ size)
                  one two)
        ]
      ]
