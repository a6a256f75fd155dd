-- ===== src/Allocator/Bound/Cover.antt =====
-- The greedy loop of `lowerBound`: no choice of fewer groups has the room that is needed.
use mathlib.Core.List.{reverse, reverse-cons}
use k8s_device_plugin.Prelude.{
  ℕ, zero, suc, ◌+◌, ◌-◌, ◌≤◌, true, Bool-cases, List, [], ◌∷◌, ◌++◌, ◌≡◌, refl, sym, subst, inl,
  inr, arith, leb,
}
use k8s_device_plugin.Prelude.Sorting.{
  sort, insert_sorted, sort-Ascending, Ascending, Below, nat_order,
}
use k8s_device_plugin.Allocator.Bound.{groups_needed}

-- `k` entries of the list, each taken once, have together at least the room that is needed.
pub data Cover : ℕ → ℕ → List ℕ → Type 0 where
  enough : {need : ℕ} {xs : List ℕ} → need ≡ 0 → Cover 0 need xs
  use_ :
      {k need left c : ℕ} {xs : List ℕ}
      → need ≤ c + left
      → Cover k left xs
      → Cover (suc k) need (c ∷ xs)
  skip : {k need c : ℕ} {xs : List ℕ} → Cover k need xs → Cover k need (c ∷ xs)

pub Cover-eq :
    {k m need goal : ℕ} {xs ys : List ℕ}
    → k ≡ m
    → need ≡ goal
    → xs ≡ ys
    → Cover k need xs
    → Cover m goal ys
Cover-eq {k = k} {need = need} {goal = goal} {ys = ys} e f g p =
    subst (λ i. Cover i goal ys) e (subst (λ n. Cover k n ys) f (subst (Cover k need) g p))

Cover-less : {k need : ℕ} (less : ℕ) {xs : List ℕ} → less ≤ need → Cover k need xs → Cover k less xs
Cover-less less h (enough e) = enough (omega (arith, h, e))
Cover-less less h (use_ e c) = use_ (omega (arith, h, e)) c
Cover-less less h (skip c) = skip (Cover-less less h c)

Cover-cons :
    {k need : ℕ} (c : ℕ) {xs ys : List ℕ}
    → ((k need : ℕ) → Cover k need xs → Cover k need ys)
    → Cover k need (c ∷ xs)
    → Cover k need (c ∷ ys)
Cover-cons c f (enough e) = enough e
Cover-cons c f (use_ {k = k} {left = left} e p) = use_ e (f k left p)
Cover-cons {k = k} {need = need} c f (skip p) = skip (f k need p)

Cover-swap :
    {k need : ℕ} (c d : ℕ) {xs : List ℕ} → Cover k need (c ∷ d ∷ xs) → Cover k need (d ∷ c ∷ xs)
Cover-swap c d (enough e) = enough e
Cover-swap c d (use_ e (enough f)) = skip (use_ e (enough f))
Cover-swap {need = need} c d (use_ e (use_ {left = left} f p)) =
    use_ {left = c + left} (omega (arith, e, f)) (use_ (omega arith) p)
Cover-swap c d (use_ e (skip p)) = skip (use_ e p)
Cover-swap c d (skip (enough e)) = enough e
Cover-swap c d (skip (use_ e p)) = use_ e (skip p)
Cover-swap c d (skip (skip p)) = skip (skip p)

Cover-insert_sorted :
    {k need : ℕ} (c : ℕ) (xs : List ℕ) → Cover k need (c ∷ xs) → Cover k need (insert_sorted c xs)
Cover-insert_sorted c [] p = p
Cover-insert_sorted c (x ∷ xs) p = elim (Bool-cases (leb c x)) [
  | inl le ↦ rw le p
  | inr gt ↦ rw gt (Cover-cons x (λ k need q. Cover-insert_sorted c xs q) (Cover-swap c x p))
]

Cover-sort : {k need : ℕ} (xs : List ℕ) → Cover k need xs → Cover k need (sort xs)
unfolding sort
Cover-sort [] p = p
Cover-sort (x ∷ xs) p =
    Cover-insert_sorted x (sort xs) (Cover-cons x (λ k need q. Cover-sort xs q) p)

Cover-snoc :
    {k need : ℕ} (c : ℕ) (xs : List ℕ) → Cover k need (c ∷ xs) → Cover k need (xs ++ c ∷ [])
Cover-snoc c [] p = p
Cover-snoc c (x ∷ xs) p = Cover-cons x (λ k need q. Cover-snoc c xs q) (Cover-swap c x p)

Cover-reverse : {k need : ℕ} (xs : List ℕ) → Cover k need xs → Cover k need (reverse xs)
Cover-reverse [] p = p
Cover-reverse {k = k} {need = need} (x ∷ xs) p =
    subst (Cover k need) (sym (reverse-cons x xs))
      (Cover-snoc x (reverse xs) (Cover-cons x (λ k need q. Cover-reverse xs q) p))

-- No entry is above the number, and each entry is not below the ones behind it.
abbrev Above : ℕ → List ℕ → Type 0
Above c [] = Unit {0}
Above c (x ∷ xs) = (x ≤ c) × Above c xs

abbrev Descending : List ℕ → Type 0
Descending [] = Unit {0}
Descending (x ∷ xs) = Above x xs × Descending xs

Above-snoc : (c x : ℕ) (xs : List ℕ) → Above c xs → x ≤ c → Above c (xs ++ x ∷ [])
Above-snoc c x [] h e = (e, tt)
Above-snoc c x (y ∷ xs) h e = (h.0, Above-snoc c x xs h.1 e)

Descending-snoc : (c : ℕ) (xs : List ℕ) → Descending xs → Below c xs → Descending (xs ++ c ∷ [])
Descending-snoc c [] d b = (tt, tt)
Descending-snoc c (x ∷ xs) d b =
    (Above-snoc x c xs d.0 (ground (arith, b.0)), Descending-snoc c xs d.1 b.1)

Below-snoc : (c x : ℕ) (xs : List ℕ) → Below c xs → leb c x ≡ true → Below c (xs ++ x ∷ [])
Below-snoc c x [] h e = (e, tt)
Below-snoc c x (y ∷ xs) h e = (h.0, Below-snoc c x xs h.1 e)

Below-reverse : (c : ℕ) (xs : List ℕ) → Below c xs → Below c (reverse xs)
Below-reverse c [] h = tt
Below-reverse c (x ∷ xs) h =
    subst (Below c) (sym (reverse-cons x xs))
      (Below-snoc c x (reverse xs) (Below-reverse c xs h.1) h.0)

reverse-Descending : (xs : List ℕ) → Ascending xs → Descending (reverse xs)
reverse-Descending [] h = tt
reverse-Descending (x ∷ xs) h =
    subst Descending (sym (reverse-cons x xs))
      (Descending-snoc x (reverse xs) (reverse-Descending xs h.1) (Below-reverse x xs h.0))

-- One entry less, where no entry is above `c`.
Cover-drop :
    {k need : ℕ} (c : ℕ) {xs : List ℕ} → Above c xs → Cover (suc k) need xs → Cover k (need - c) xs
Cover-drop {need = need} c h (use_ {c = x} e p) =
    skip (Cover-less (need - c) (omega (arith, e, h.0)) p)
Cover-drop c h (skip p) = skip (Cover-drop c h.1 p)

Cover-zero : {need : ℕ} {xs : List ℕ} → Cover 0 need xs → need ≡ 0
Cover-zero (enough e) = e
Cover-zero (skip p) = Cover-zero p

groups_needed-zero : (xs : List ℕ) → groups_needed xs 0 ≡ 0
unfolding groups_needed
groups_needed-zero [] = refl
groups_needed-zero (x ∷ xs) = ground arith

greedy : (xs : List ℕ) {k need : ℕ} → Descending xs → Cover k need xs → groups_needed xs need ≤ k
unfolding groups_needed
greedy xs d (enough e) = rw (e, groups_needed-zero xs) (omega arith)
greedy (c ∷ xs) {k = suc k} {need = need} d (use_ e p) =
    ground (arith, greedy xs {k = k} d.1 (Cover-less (need - c) (omega (arith, e)) p))
greedy (c ∷ xs) {k = zero} d (skip p) = rw (Cover-zero p, groups_needed-zero (c ∷ xs)) (omega arith)
greedy (c ∷ xs) {k = suc k} d (skip p) = ground (arith, greedy xs {k = k} d.1 (Cover-drop c d.0 p))

-- The greedy loop opens no more groups than any cover of what is needed.
pub groups_needed-least :
    {k need : ℕ} (xs : List ℕ) → Cover k need xs → groups_needed (reverse (sort xs)) need ≤ k
groups_needed-least xs p =
    greedy (reverse (sort xs)) (reverse-Descending (sort xs) (sort-Ascending xs))
      (Cover-reverse (sort xs) (Cover-sort xs p))
