-- ===== src/Allocator/Bound/Pairs.antt =====
-- The pairs of a combination: how many are linked or cross roots, and how far they are apart.
use k8s_device_plugin.Prelude.{
  ℕ, zero, suc, ◌+◌, ◌-◌, ◌*◌, ◌≤◌, ◌<◌, false, Bool-cases, List, [], ◌∷◌, ◌++◌, ◌≡◌, refl, sym,
  subst, ap, ◌∙◌, inl, inr, arith, has, has-append, length, Distinct, nat_beq, nat_eq, nat_beq_iff,
  if◌then◌else◌, length-append,
}
use mathlib.Core.List.{append-nil, append_assoc}
use k8s_device_plugin.Allocator.Model.{TopologyAllocator}
use k8s_device_plugin.Allocator.Search.{Setup, device_at, pair_at}
use k8s_device_plugin.Allocator.Policy.{
  sum_from, sum_to, sum_pairs, max_to, max_pairs, crossing, known_hops,
}
use k8s_device_plugin.Allocator.Policy.Counts.{sum_pairs-snoc}
use k8s_device_plugin.Allocator.Bound.{triangle, prepare_bounds}
use k8s_device_plugin.Allocator.Bound.Least.{linked, IsMeasured, pair-IsUnder}
use k8s_device_plugin.Allocator.Bound.Marks.{AllBelow, AllBelow-append}
use k8s_device_plugin.Allocator.Bound.Suffixes.{passing}

pub triangle-suc : (n : ℕ) → triangle (suc n) ≡ triangle n + n
unfolding triangle
triangle-suc zero = refl
triangle-suc (suc k) =
    let before : suc (suc k) - 1 ≡ suc k = omega arith in
    let last : suc k - 1 ≡ k = omega arith in
    let product : suc (suc k) * suc k ≡ suc k * k + 2 * suc k = omega arith in
    omega (arith, product, ap (λ n. suc (suc k) * n) before, ap (λ n. suc k * n) last)

triangle-zero : triangle 0 ≡ 0
unfolding triangle
triangle-zero = refl

-- The pairs of `n` new devices with each other and with `c` old ones, each of which costs `m`.
new_pairs-zero : (c m : ℕ) → (0 * c + triangle 0) * m ≡ 0
new_pairs-zero c m =
    let none_new : 0 * c + triangle 0 ≡ 0 = omega (arith, triangle-zero) in
    ap (λ k. k * m) none_new ∙ omega arith

mul-plus : (x y m : ℕ) → (x + y) * m ≡ x * m + y * m
mul-plus x y m = omega arith

new_pairs-suc :
    (n c m : ℕ) → (suc n * c + triangle (suc n)) * m ≡ c * m + (n * (c + 1) + triangle n) * m
new_pairs-suc n c m =
    let more : suc n * c + triangle (suc n) ≡ c + (n * (c + 1) + triangle n) =
      omega (arith, triangle-suc n) in
    ap (λ k. k * m) more ∙ mul-plus c (n * (c + 1) + triangle n) m

Distinct-middle : (xs : List ℕ) (c : ℕ) (p : List ℕ) → Distinct (xs ++ c ∷ p) → has c xs ≡ false
Distinct-middle [] c p h = refl
Distinct-middle (x ∷ xs) c p h = ground (
  arith,
  Distinct-middle xs c p h.1,
  h.0,
  has-append x xs (c ∷ p),
  nat_beq_iff x c,
  nat_beq_iff c c,
)

module _ (a : TopologyAllocator) (m : IsMeasured a) where
  abbrev Inside : ℕ → Type 0
  Inside i = i < length a.devices

  abbrev pub links : List ℕ → ℕ
  links = sum_pairs (λ i j. linked (pair_at a i j))

  abbrev pub crossings : List ℕ → ℕ
  crossings = sum_pairs (λ i j. crossing (pair_at a i j))

  abbrev pub distances : List ℕ → ℕ
  distances = sum_pairs (λ i j. known_hops (pair_at a i j))

  abbrev pub with_pci : List ℕ → ℕ
  with_pci = passing a (λ d. d.has_pci)

  decided_to :
      (x : ℕ) (ys : List ℕ)
      → Inside x
      → AllBelow (length a.devices) ys
      → sum_to (λ i j. linked (pair_at a i j)) ys x + sum_to (λ i j. crossing (pair_at a i j)) ys x
        ≡ (if (device_at a x).has_pci then with_pci ys else 0)
  unfolding sum_to passing
  decided_to x [] h k = ground arith
  decided_to x (y ∷ ys) h k = ground (arith, decided_to x ys h k.1, m.decided y x k.0 h)

  -- The pairs of the devices that have a path are linked, or cross roots.
  pub links-crossings :
      (xs : List ℕ)
      → AllBelow (length a.devices) xs
      → links xs + crossings xs ≡ triangle (with_pci xs)
  unfolding sum_pairs passing
  links-crossings [] h = sym triangle-zero
  links-crossings (x ∷ xs) h =
      ground (arith, links-crossings xs h.1, decided_to x xs h.0 h.1, triangle-suc (with_pci xs))

  module _ (candidates : List ℕ) where
    abbrev setup : Setup
    setup = prepare_bounds a candidates

    max_to-least :
        (x : ℕ) (ys : List ℕ)
        → Inside x
        → AllBelow (length a.devices) ys
        → has x ys ≡ false
        → 0 < sum_to (λ i j. linked (pair_at a i j)) ys x
        → setup.min_distance ≤ max_to (λ i j. known_hops (pair_at a i j)) ys x
    unfolding sum_to max_to
    max_to-least x [] h k apart some_link = absurd (omega (arith, some_link))
    max_to-least x (y ∷ ys) h k apart some_link =
        let other : nat_beq y x ≡ false = ground (arith, apart) in
        let u = pair-IsUnder a m candidates y x other k.0 h in
        ground (arith, u.hops, some_link, apart, max_to-least x ys h k.1)

    -- Where a pair is linked, the largest distance is not below the least.
    pub max_pairs-least :
        (xs : List ℕ)
        → AllBelow (length a.devices) xs
        → Distinct xs
        → 0 < links xs
        → setup.min_distance ≤ max_pairs (λ i j. known_hops (pair_at a i j)) xs
    unfolding sum_pairs max_pairs
    max_pairs-least [] h d some_link = absurd (omega (arith, some_link))
    max_pairs-least (x ∷ xs) h d some_link =
        ground (arith, some_link, max_to-least x xs h.0 h.1 d.0, max_pairs-least xs h.1 d.1)

    crossing_from :
        (z : ℕ) (xs : List ℕ)
        → Inside z
        → AllBelow (length a.devices) xs
        → has z xs ≡ false
        → length xs * setup.min_separate_roots ≤ sum_from (λ i j. crossing (pair_at a i j)) z xs
    unfolding sum_from
    crossing_from z [] h k apart = omega arith
    crossing_from z (x ∷ xs) h k apart =
        let other : nat_beq z x ≡ false = ground (arith, apart, nat_beq_iff x z, nat_beq_iff z x) in
        let u = pair-IsUnder a m candidates z x other h k.0 in
        let rest = crossing_from z xs h k.1 (ground (arith, apart)) in omega (arith, u.roots, rest)

    distance_from :
        (z : ℕ) (xs : List ℕ)
        → Inside z
        → AllBelow (length a.devices) xs
        → has z xs ≡ false
        → sum_from (λ i j. linked (pair_at a i j)) z xs * setup.min_distance
          ≤ sum_from (λ i j. known_hops (pair_at a i j)) z xs
    unfolding sum_from
    distance_from z [] h k apart = omega arith
    distance_from z (x ∷ xs) h k apart =
        let other : nat_beq z x ≡ false = ground (arith, apart, nat_beq_iff x z, nat_beq_iff z x) in
        let u = pair-IsUnder a m candidates z x other h k.0 in
        let rest = distance_from z xs h k.1 (ground (arith, apart)) in
        elim (Bool-cases (pair_at a z x).known) [
          | inl e ↦ rw e (omega (arith, rest, u.hops e))
          | inr e ↦ rw e (omega (arith, rest))
        ]

    -- What the devices of `p` add to those before them.
    pub crossings-append :
        (p xs : List ℕ)
        → AllBelow (length a.devices) xs
        → AllBelow (length a.devices) p
        → Distinct (xs ++ p)
        → crossings xs + (length p * length xs + triangle (length p)) * setup.min_separate_roots
          ≤ crossings (xs ++ p)
    crossings-append [] xs h k d =
        omega
          (arith, new_pairs-zero (length xs) setup.min_separate_roots, ap crossings (append-nil xs))
    crossings-append (c ∷ p) xs h k d =
        let apart = Distinct-middle xs c p d in
        let w = setup.min_separate_roots in
        let rest =
          crossings-append p (xs ++ c ∷ [])
            (AllBelow-append (length a.devices) xs (c ∷ []) h (k.0, tt)) k.1
            (subst Distinct (sym (append_assoc xs (c ∷ []) p)) d) in
        omega (
          arith,
          rest,
          new_pairs-suc (length p) (length xs) w,
          crossing_from c xs k.0 h apart,
          sum_pairs-snoc (λ i j. crossing (pair_at a i j)) xs c,
          ap (λ l. (length p * l + triangle (length p)) * w) (length-append xs (c ∷ [])),
          ap crossings (append_assoc xs (c ∷ []) p),
        )

    -- The devices of `p` add links, each of which is at least as long as the least distance.
    pub distances-append :
        (p xs : List ℕ)
        → AllBelow (length a.devices) xs
        → AllBelow (length a.devices) p
        → Distinct (xs ++ p)
        → (links xs ≤ links (xs ++ p))
          × (distances xs + (links (xs ++ p) - links xs) * setup.min_distance ≤ distances (xs ++ p))
    distances-append [] xs h k d =
        let same : links (xs ++ []) - links xs ≡ 0 = omega (arith, ap links (append-nil xs)) in
        (
          omega (arith, ap links (append-nil xs)),
          omega (arith, ap (λ n. n * setup.min_distance) same, ap distances (append-nil xs)),
        )
    distances-append (c ∷ p) xs h k d =
        let apart = Distinct-middle xs c p d in
        let w = setup.min_distance in
        let (more, rest) =
          distances-append p (xs ++ c ∷ [])
            (AllBelow-append (length a.devices) xs (c ∷ []) h (k.0, tt)) k.1
            (subst Distinct (sym (append_assoc xs (c ∷ []) p)) d) in
        let whole = append_assoc xs (c ∷ []) p in
        let new = sum_from (λ i j. linked (pair_at a i j)) c xs in
        let links_snoc = sum_pairs-snoc (λ i j. linked (pair_at a i j)) xs c in
        let split : links (xs ++ c ∷ p) - links xs
            ≡ new + (links ((xs ++ c ∷ []) ++ p) - links (xs ++ c ∷ [])) =
          omega (arith, more, links_snoc, ap links whole) in
        (
          omega (arith, more, links_snoc, ap links whole),
          omega (
            arith,
            rest,
            ap (λ n. n * w) split,
            mul-plus new (links ((xs ++ c ∷ []) ++ p) - links (xs ++ c ∷ [])) w,
            distance_from c xs k.0 h apart,
            sum_pairs-snoc (λ i j. known_hops (pair_at a i j)) xs c,
            ap distances whole,
          ),
        )
