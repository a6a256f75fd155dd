-- ===== src/Prelude/Sorting.antt =====
-- `sort.Strings` and `slices.Sort`: the one ascending arrangement of a list. The library's
-- algorithm is not the program's; insertion gives the same result.
use Prim.Native.Nat.{ℕ, suc}
use mathlib.Core.Path.{◌≡◌, refl, ◌∙◌}
use mathlib.Core.Logic.{inl, inr}
use mathlib.Core.Bool.{Bool, true, false, ◌||◌}
use mathlib.Core.List.{List, [], ◌∷◌, Perm}
use mathlib.Core.List.Perm
use native.Mathlib.Omega.{arith}
use k8s_device_plugin.Prelude.Tests.{
  Eq, ◌==◌, ==_iff, ==_refl, Bool-cases, leb, nat_eq, if◌then◌else◌,
}
use k8s_device_plugin.Prelude.Lists.{length, has, Distinct}
use k8s_device_plugin.Prelude.Texts.{
  Text, text_leb, text_eq, text_leb_total, text_leb_trans, text_leb_antisymm, text_leb_refl,
}

pub record Order {ℓ} (A : Type ℓ) : Type ℓ where
  pub below : A → A → Bool
  pub below_refl : (a : A) → below a a ≡ true
  pub below_total : (a b : A) → below a b ≡ false → below b a ≡ true
  pub below_trans : (a b c : A) → below a b ≡ true → below b c ≡ true → below a c ≡ true
  pub below_antisymm : (a b : A) → below a b ≡ true → below b a ≡ true → a ≡ b

pub nat_total : (a b : ℕ) → leb a b ≡ false → leb b a ≡ true
nat_total a b h = ground arith

pub nat_trans : (a b c : ℕ) → leb a b ≡ true → leb b c ≡ true → leb a c ≡ true
nat_trans a b c h k = ground arith

pub nat_antisymm : (a b : ℕ) → leb a b ≡ true → leb b a ≡ true → a ≡ b
nat_antisymm a b h k = ground arith

pub nat_refl : (a : ℕ) → leb a a ≡ true
nat_refl a = ground arith

instance abbrev pub nat_order : Order ℕ
nat_order = record {
  below = leb;
  below_refl = nat_refl;
  below_total = nat_total;
  below_trans = nat_trans;
  below_antisymm = nat_antisymm;
}

instance abbrev pub text_order : Order Text
text_order = record {
  below = text_leb;
  below_refl = text_leb_refl;
  below_total = text_leb_total;
  below_trans = text_leb_trans;
  below_antisymm = text_leb_antisymm;
}

module _ {ℓ} {A : Type ℓ} ⦃o : Order A⦄ where
  open o use {below, below_refl, below_total, below_trans, below_antisymm}

  abbrev pub insert_sorted : A → List A → List A
  insert_sorted a [] = a ∷ []
  insert_sorted a (x ∷ xs) = if below a x then a ∷ x ∷ xs else x ∷ insert_sorted a xs

  unfoldable pub sort : List A → List A
  sort [] = []
  sort (x ∷ xs) = insert_sorted x (sort xs)

  -- Not below any entry of the list.
  abbrev pub Below : A → List A → Type 0
  Below a [] = Unit {0}
  Below a (x ∷ xs) = (below a x ≡ true) × Below a xs

  abbrev pub Ascending : List A → Type 0
  Ascending [] = Unit {0}
  Ascending (x ∷ xs) = Below x xs × Ascending xs

  pub Below-trans : (a b : A) (xs : List A) → below a b ≡ true → Below b xs → Below a xs
  Below-trans a b [] h k = tt
  Below-trans a b (x ∷ xs) h k = (below_trans a b x h k.0, Below-trans a b xs h k.1)

  Below-insert_sorted :
      (a b : A) (xs : List A) → below b a ≡ true → Below b xs → Below b (insert_sorted a xs)
  Below-insert_sorted a b [] h k = (h, tt)
  Below-insert_sorted a b (x ∷ xs) h k = ground (arith, Below-insert_sorted a b xs h k.1)

  insert_sorted-Ascending : (a : A) (xs : List A) → Ascending xs → Ascending (insert_sorted a xs)
  insert_sorted-Ascending a [] h = (tt, tt)
  insert_sorted-Ascending a (x ∷ xs) h = elim (Bool-cases (below a x)) [
    | inl le ↦ rw le ((le, Below-trans a x xs le h.0), h)
    | inr gt ↦
        rw gt
          (Below-insert_sorted a x xs (below_total a x gt) h.0, insert_sorted-Ascending a xs h.1)
  ]

  pub sort-Ascending : (xs : List A) → Ascending (sort xs)
  unfolding sort
  sort-Ascending [] = tt
  sort-Ascending (x ∷ xs) = insert_sorted-Ascending x (sort xs) (sort-Ascending xs)

  insert_sorted-perm : (a : A) (xs : List A) → Perm (insert_sorted a xs) (a ∷ xs)
  insert_sorted-perm a [] = Perm.rfl
  insert_sorted-perm a (x ∷ xs) = elim (Bool-cases (below a x)) [
    | inl le ↦ rw le Perm.rfl
    | inr gt ↦ rw gt (Perm.trans (Perm.cons x (insert_sorted-perm a xs)) (Perm.swap a x xs))
  ]

  pub sort-perm : (xs : List A) → Perm (sort xs) xs
  unfolding sort
  sort-perm [] = Perm.rfl
  sort-perm (x ∷ xs) = Perm.trans (insert_sorted-perm x (sort xs)) (Perm.cons x (sort-perm xs))

  length-insert_sorted : (a : A) (xs : List A) → length (insert_sorted a xs) ≡ suc (length xs)
  length-insert_sorted a [] = refl
  length-insert_sorted a (x ∷ xs) = ground (arith, length-insert_sorted a xs)

  pub length-sort : (xs : List A) → length (sort xs) ≡ length xs
  unfolding sort
  length-sort [] = refl
  length-sort (x ∷ xs) = omega (arith, length-insert_sorted x (sort xs), length-sort xs)

module _ {ℓ} {A : Type ℓ} ⦃e : Eq A⦄ ⦃o : Order A⦄ where
  open o use {below, below_refl, below_total, below_trans, below_antisymm}

  has-insert_sorted : (a b : A) (xs : List A) → has b (insert_sorted a xs) ≡ (a == b || has b xs)
  has-insert_sorted a b [] = refl
  has-insert_sorted a b (x ∷ xs) = ground (arith, has-insert_sorted a b xs)

  pub has-sort : (b : A) (xs : List A) → has b (sort xs) ≡ has b xs
  unfolding sort
  has-sort b [] = refl
  has-sort b (x ∷ xs) = rw (has-insert_sorted x b (sort xs), has-sort b xs)

  insert_sorted-Distinct :
      (a : A) (xs : List A) → has a xs ≡ false → Distinct xs → Distinct (insert_sorted a xs)
  insert_sorted-Distinct a [] h d = (refl, tt)
  insert_sorted-Distinct a (x ∷ xs) h d =
      ground (arith, insert_sorted-Distinct a xs, has-insert_sorted a x xs, ==_iff a x, ==_iff x a)

  pub sort-Distinct : (xs : List A) → Distinct xs → Distinct (sort xs)
  unfolding sort
  sort-Distinct [] d = tt
  sort-Distinct (x ∷ xs) d =
      insert_sorted-Distinct x (sort xs) (has-sort x xs ∙ d.0) (sort-Distinct xs d.1)

  below_of_has : (a b : A) (xs : List A) → Below a xs → has b xs ≡ true → below a b ≡ true
  below_of_has a b [] h k = ground arith
  below_of_has a b (x ∷ xs) h k = elim (Bool-cases (x == b)) [
    | inl same ↦ rw (← (==_iff x b).0 same) h.0
    | inr other ↦ below_of_has a b xs h.1 (ground arith)
  ]

  -- Two ascending lists with no entry twice and the same entries are equal.
  pub Ascending-unique :
      (xs ys : List A)
      → Ascending xs
      → Ascending ys
      → Distinct xs
      → Distinct ys
      → ((a : A) → has a xs ≡ has a ys)
      → xs ≡ ys
  Ascending-unique [] [] sx sy dx dy h = refl
  Ascending-unique [] (y ∷ ys) sx sy dx dy h = absurd (ground (arith, h y, ==_refl y))
  Ascending-unique (x ∷ xs) [] sx sy dx dy h = absurd (ground (arith, h x, ==_refl x))
  Ascending-unique (x ∷ xs) (y ∷ ys) sx sy dx dy h =
      rw (same, Ascending-unique xs ys sx.1 sy.1 dx.1 dy.1 tails)
    where
      same : x ≡ y
      same = ground (
        arith,
        h x,
        h y,
        ==_refl x,
        ==_refl y,
        ==_iff x y,
        ==_iff y x,
        below_of_has x y xs sx.0,
        below_of_has y x ys sy.0,
        below_antisymm x y,
      )

      tails : (a : A) → has a xs ≡ has a ys
      tails a = ground (arith, h a, ==_iff x a, ==_iff y a, same)
