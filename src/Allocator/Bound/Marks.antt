-- ===== src/Allocator/Bound/Marks.antt =====
-- Numbers below a bound, counted one by one: how many of them a test holds for, and how often they
-- stand in a list.
use k8s_device_plugin.Prelude.{
  ℕ, zero, suc, ◌+◌, ◌≤◌, ◌<◌, Bool, false, not, ◌&&◌, ◌||◌, Bool-cases, List, [], ◌∷◌, ◌++◌, ◌≡◌,
  refl, sym, ap, inl, inr, arith, has, has-append, length, nat_beq, nat_beq_iff, nat_eq,
  if◌then◌else◌,
}
use k8s_device_plugin.Allocator.Policy.{count, distinct}

-- How many of `from`, …, `from + n - 1` pass the test.
unfoldable pub marks : (ℕ → Bool) → (from n : ℕ) → ℕ
marks f from zero = 0
marks f from (suc n) = let rest = marks f (from + 1) n in if f from then rest + 1 else rest

-- How often they stand in the list.
unfoldable pub uses : List ℕ → (from n : ℕ) → ℕ
unfolding count
uses xs from zero = 0
uses xs from (suc n) = count from xs + uses xs (from + 1) n

uses-nil : (from n : ℕ) → uses [] from n ≡ 0
unfolding uses
uses-nil from zero = refl
uses-nil from (suc n) = ground (arith, uses-nil (from + 1) n)

uses-before : (x : ℕ) (xs : List ℕ) (from n : ℕ) → x < from → uses (x ∷ xs) from n ≡ uses xs from n
unfolding uses
uses-before x xs from zero h = refl
uses-before x xs from (suc n) h =
    ground (arith, uses-before x xs (from + 1) n (omega (arith, h)), h)

uses-cons :
    (x : ℕ) (xs : List ℕ) (from n : ℕ)
    → from ≤ x
    → x < from + n
    → uses (x ∷ xs) from n ≡ uses xs from n + 1
unfolding uses
uses-cons x xs from zero h k = absurd (omega (arith, h, k))
uses-cons x xs from (suc n) h k = elim (Bool-cases (nat_beq x from)) [
  | inl here ↦ ground (arith, here, uses-before x xs (from + 1) n (ground (arith, here)))
  | inr later ↦
      ground
        (arith, later, uses-cons x xs (from + 1) n (ground (arith, later, h)) (omega (arith, k)))
]

-- Every entry is below the bound.
abbrev pub AllBelow : ℕ → List ℕ → Type 0
AllBelow n [] = Unit {0}
AllBelow n (x ∷ xs) = (x < n) × AllBelow n xs

pub uses-length : (n : ℕ) (xs : List ℕ) → AllBelow n xs → uses xs 0 n ≡ length xs
uses-length n [] h = uses-nil 0 n
uses-length n (x ∷ xs) h =
    omega (arith, uses-cons x xs 0 n (omega arith) (omega (arith, h.0)), uses-length n xs h.1)

marks-none : (from n : ℕ) → marks (λ j. false) from n ≡ 0
unfolding marks
marks-none from zero = refl
marks-none from (suc n) = ground (arith, marks-none (from + 1) n)

marks-before :
    (x : ℕ) (f : ℕ → Bool) (from n : ℕ)
    → x < from
    → marks (λ j. nat_beq x j || f j) from n ≡ marks f from n
unfolding marks
marks-before x f from zero h = refl
marks-before x f from (suc n) h =
    ground (arith, marks-before x f (from + 1) n (omega (arith, h)), h)

marks-insert :
    (x : ℕ) (f : ℕ → Bool) (from n : ℕ)
    → from ≤ x
    → x < from + n
    → marks (λ j. nat_beq x j || f j) from n ≡ (if f x then marks f from n else marks f from n + 1)
unfolding marks
marks-insert x f from zero h k = absurd (omega (arith, h, k))
marks-insert x f from (suc n) h k = elim (Bool-cases (nat_beq x from)) [
  | inl here ↦ ground (
    arith,
    here,
    ap f ((nat_beq_iff x from).0 here),
    marks-before x f (from + 1) n (ground (arith, here)),
  )
  | inr later ↦
      ground
        (arith, later, marks-insert x f (from + 1) n (ground (arith, later, h)) (omega (arith, k)))
]

pub distinct-marks : (n : ℕ) (xs : List ℕ) → AllBelow n xs → distinct xs ≡ marks (λ j. has j xs) 0 n
unfolding distinct
distinct-marks n [] h = sym (marks-none 0 n)
distinct-marks n (x ∷ xs) h = ground (
  arith,
  distinct-marks n xs h.1,
  marks-insert x (λ j. has j xs) 0 n (omega arith) (omega (arith, h.0)),
)

-- The numbers of two lists are those of the first and the new ones of the second.
pub marks-append :
    (xs ys : List ℕ) (from n : ℕ)
    → marks (λ j. has j (xs ++ ys)) from n
      ≡ marks (λ j. has j xs) from n + marks (λ j. not (has j xs) && has j ys) from n
unfolding marks
marks-append xs ys from zero = refl
marks-append xs ys from (suc n) =
    ground (arith, marks-append xs ys (from + 1) n, has-append from xs ys)

pub marks-same :
    (f g : ℕ → Bool) (from n : ℕ)
    → ((j : ℕ) → from ≤ j → j < from + n → f j ≡ g j)
    → marks f from n ≡ marks g from n
unfolding marks
marks-same f g from zero h = refl
marks-same f g from (suc n) h = ground (
  arith,
  h from (omega arith) (omega arith),
  marks-same f g (from + 1) n (λ j low high. h j (omega (arith, low)) (omega (arith, high))),
)

pub AllBelow-append :
    (n : ℕ) (xs ys : List ℕ) → AllBelow n xs → AllBelow n ys → AllBelow n (xs ++ ys)
AllBelow-append n [] ys h k = k
AllBelow-append n (x ∷ xs) ys h k = (h.0, AllBelow-append n xs ys h.1 k)
