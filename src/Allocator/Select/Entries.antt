-- ===== src/Allocator/Select/Entries.antt =====
-- Lists of device IDs as sets: what is removed, what is left over, what is kept once.
use k8s_device_plugin.Prelude.{
  suc, ◌+◌, true, false, not, ◌&&◌, ◌||◌, List, [], ◌∷◌, ◌++◌, ◌≡◌, refl, inl, inr, arith, length,
  has, Distinct, Within, has-append, Distinct-snoc, ==_iff, ==_refl, Bool-cases, if◌then◌else◌,
  ◌==◌,
}
use k8s_device_plugin.Prelude.Texts.{Text, text_eq}
use k8s_device_plugin.Allocator.Select.{left_over, normalize_from, normalize_must_include}

remove : Text → List Text → List Text
remove a [] = []
remove a (x ∷ xs) = if x == a then xs else x ∷ remove a xs

has-remove :
    (a b : Text) (xs : List Text) → Distinct xs → has b (remove a xs) ≡ (has b xs && not (a == b))
unfolding remove
has-remove a b [] d = refl
has-remove a b (x ∷ xs) d = ground (arith, has-remove a b xs, ==_iff x a, ==_iff x b, ==_iff a b)

remove-Distinct : (a : Text) (xs : List Text) → Distinct xs → Distinct (remove a xs)
unfolding remove
remove-Distinct a [] d = tt
remove-Distinct a (x ∷ xs) d =
    ground (arith, remove-Distinct a xs, has-remove a x xs, ==_iff x a, ==_iff a x)

length-remove :
    (a : Text) (xs : List Text) → has a xs ≡ true → suc (length (remove a xs)) ≡ length xs
unfolding remove
length-remove a [] h = ground arith
length-remove a (x ∷ xs) h = ground (arith, length-remove a xs)

left_over_eq :
    (xs ys zs : List Text)
    → ((a : Text) → has a zs ≡ true → has a xs ≡ has a ys)
    → left_over xs zs ≡ left_over ys zs
left_over_eq xs ys [] h = refl
left_over_eq xs ys (z ∷ zs) h =
    ground
      (arith, left_over_eq xs ys zs (λ a k. h a (ground arith)), h z (ground (arith, ==_refl z)))

nil_of_Within : (xs : List Text) → Within xs [] → xs ≡ []
nil_of_Within [] h = refl
nil_of_Within (x ∷ xs) h = absurd (ground (arith, h x (ground (arith, ==_refl x))))

-- What is left over, and what was taken, make up the whole.
pub length-left_over :
    (taken xs : List Text)
    → Distinct taken
    → Distinct xs
    → Within taken xs
    → length (left_over taken xs) + length taken ≡ length xs
length-left_over taken [] dt dx w = rw (nil_of_Within taken w)
length-left_over taken (x ∷ xs) dt dx w = elim (Bool-cases (has x taken)) [
  | inl used ↦
      rw
        (
          used,
          left_over_eq taken (remove x taken) xs
              λ a k. ground (arith, has-remove x a taken dt, ==_iff x a),
        )
        (omega (
          arith,
          length-remove x taken used,
          length-left_over (remove x taken) xs (remove-Distinct x taken dt) dx.1
              λ a k. ground (arith, has-remove x a taken dt, w a),
        ))
  | inr free ↦
      rw free
        (omega (arith, length-left_over taken xs dt dx.1 λ a k. ground (arith, w a k, ==_iff x a)))
]

pub has-left_over :
    (a : Text) (taken xs : List Text) → has a (left_over taken xs) ≡ (has a xs && not (has a taken))
has-left_over a taken [] = refl
has-left_over a taken (x ∷ xs) = ground (arith, has-left_over a taken xs, ==_iff x a)

pub left_over-Distinct : (taken xs : List Text) → Distinct xs → Distinct (left_over taken xs)
left_over-Distinct taken [] d = tt
left_over-Distinct taken (x ∷ xs) d =
    ground (arith, left_over-Distinct taken xs d.1, has-left_over x taken xs)

pub Distinct-append :
    (xs ys : List Text)
    → Distinct xs
    → Distinct ys
    → ((a : Text) → has a xs ≡ true → has a ys ≡ false)
    → Distinct (xs ++ ys)
Distinct-append [] ys dx dy h = dy
Distinct-append (x ∷ xs) ys dx dy h = (
  ground (arith, has-append x xs ys, h x, ==_refl x),
  Distinct-append xs ys dx.1 dy λ a k. ground (arith, h a),
)

pub has-normalize_from :
    (a : Text) (selected ids : List Text)
    → has a (normalize_from selected ids) ≡ (has a selected || has a ids)
unfolding normalize_from
has-normalize_from a selected [] = ground arith
has-normalize_from a selected (id ∷ ids) = ground (
  arith,
  has-normalize_from a selected ids,
  has-normalize_from a (selected ++ id ∷ []) ids,
  has-append a selected (id ∷ []),
  ==_iff id a,
)

pub normalize_from-Distinct :
    (selected ids : List Text) → Distinct selected → Distinct (normalize_from selected ids)
unfolding normalize_from
normalize_from-Distinct selected [] d = d
normalize_from-Distinct selected (id ∷ ids) d = elim (Bool-cases (has id selected)) [
  | inl old ↦ rw old (normalize_from-Distinct selected ids d)
  | inr new ↦
      rw new (normalize_from-Distinct (selected ++ id ∷ []) ids (Distinct-snoc selected id d new))
]

module _ (ids : List Text) where
  -- Each entry is kept once, and none is lost or made up.
  pub has-normalize : (a : Text) → has a (normalize_must_include ids) ≡ has a ids
  unfolding normalize_must_include
  has-normalize a = has-normalize_from a [] ids

  pub normalize-Distinct : Distinct (normalize_must_include ids)
  unfolding normalize_must_include
  normalize-Distinct = normalize_from-Distinct [] ids tt
