-- ===== src/Allocator/Policy/Counts.antt =====
-- The counts, the sums and the maxima of the policy, for one more device.
use k8s_device_plugin.Prelude.{
  ℕ, ◌+◌, ◌<◌, max, Bool-cases, List, [], ◌∷◌, ◌++◌, not, length-set, ◌≡◌, ap, inl, inr, arith, has,
  has-append, length, get_or, get_or-set, nat_beq, nat_eq, nat_beq_iff, if◌then◌else◌,
}
use k8s_device_plugin.Allocator.Search.{increment}
use k8s_device_plugin.Allocator.Policy.{
  count, distinct, sum_from, sum_to, sum_pairs, max_from, max_to, max_pairs,
}

pub count-snoc :
    (k z : ℕ) (xs : List ℕ)
    → count k (xs ++ z ∷ []) ≡ (if nat_beq z k then count k xs + 1 else count k xs)
unfolding count
count-snoc k z [] = ground arith
count-snoc k z (x ∷ xs) = ground (arith, count-snoc k z xs)

pub has-count : (k : ℕ) (xs : List ℕ) → nat_beq (count k xs) 0 ≡ not (has k xs)
unfolding count
has-count k [] = ground arith
has-count k (x ∷ xs) = ground (arith, has-count k xs)

pub distinct-snoc :
    (z : ℕ) (xs : List ℕ)
    → distinct (xs ++ z ∷ []) ≡ (if has z xs then distinct xs else distinct xs + 1)
unfolding distinct
distinct-snoc z [] = ground arith
distinct-snoc z (x ∷ xs) = ground (arith, distinct-snoc z xs, has-append x xs (z ∷ []))

module _ (f : ℕ → ℕ → ℕ) where
  sum_to-snoc : (ys : List ℕ) (z x : ℕ) → sum_to f (ys ++ z ∷ []) x ≡ sum_to f ys x + f z x
  unfolding sum_to
  sum_to-snoc [] z x = ground arith
  sum_to-snoc (y ∷ ys) z x = ground (arith, sum_to-snoc ys z x)

  pub sum_pairs-snoc :
      (xs : List ℕ) (z : ℕ) → sum_pairs f (xs ++ z ∷ []) ≡ sum_pairs f xs + sum_from f z xs
  unfolding sum_pairs sum_from sum_to
  sum_pairs-snoc [] z = ground arith
  sum_pairs-snoc (x ∷ xs) z = ground (arith, sum_pairs-snoc xs z, sum_to-snoc xs z x)

  max_to-snoc : (ys : List ℕ) (z x : ℕ) → max_to f (ys ++ z ∷ []) x ≡ max (max_to f ys x) (f z x)
  unfolding max_to
  max_to-snoc [] z x = ground arith
  max_to-snoc (y ∷ ys) z x = ground (arith, max_to-snoc ys z x)

  pub max_pairs-snoc :
      (xs : List ℕ) (z : ℕ) → max_pairs f (xs ++ z ∷ []) ≡ max (max_pairs f xs) (max_from f z xs)
  unfolding max_pairs max_from max_to
  max_pairs-snoc [] z = ground arith
  max_pairs-snoc (x ∷ xs) z = ground (arith, max_pairs-snoc xs z, max_to-snoc xs z x)

-- Each counter holds how often its number stands in the list.
abbrev pub IsCounted : List ℕ → List ℕ → Type 0
IsCounted counts xs = (k : ℕ) → k < length counts → get_or counts k 0 ≡ count k xs

pub increment-IsCounted :
    (counts xs : List ℕ) (z : ℕ)
    → IsCounted counts xs
    → IsCounted (increment counts z) (xs ++ z ∷ [])
unfolding increment
increment-IsCounted counts xs z h k m =
    let fits : k < length counts = omega (arith, m, length-set counts z (get_or counts z 0 + 1)) in
    let now = get_or-set counts z k (get_or counts z 0 + 1) 0 fits in
    elim (Bool-cases (nat_beq z k)) [
      | inl same ↦ ground (
        arith,
        now,
        same,
        count-snoc k z xs,
        h k fits,
        ap (λ j. get_or counts j 0) ((nat_beq_iff z k).0 same),
      )
      | inr other ↦ ground (arith, now, other, count-snoc k z xs, h k fits)
    ]
