-- ===== src/Allocator/Bound/Least.antt =====
-- What `prepareBounds` finds of all pairs: the least distance, and whether all roots are separate.
use k8s_device_plugin.Prelude.{
  ℕ, zero, suc, ◌+◌, ◌≤◌, ◌<◌, List, ◌&&◌, true, false, Bool-cases, ◌≡◌, sym, subst, inl, inr,
  arith, length, nat_beq, nat_beq_iff, ltb, if◌then◌else◌,
}
use k8s_device_plugin.Pci.Tree.{PciDistance}
use k8s_device_plugin.Allocator.Model.{TopologyAllocator}
use k8s_device_plugin.Allocator.Search.{Setup, pair_at, device_at}
use k8s_device_plugin.Allocator.Policy.{crossing, known_hops}
use k8s_device_plugin.Allocator.Bound.{
  max_int, Least, least_pair, least_row, least_rows, prepare_bounds,
}

abbrev pub linked : PciDistance → ℕ
linked p = if p.known then 1 else 0

-- Both are not above those of the pair.
pub record IsUnder (l : Least) (p : PciDistance) : Type 0 where
  pub hops : p.known ≡ true → l.0 ≤ p.hops
  pub roots : l.1 ≤ crossing p

least_pair-less :
    (p : PciDistance) (l : Least) → ((least_pair p l).0 ≤ l.0) × ((least_pair p l).1 ≤ l.1)
unfolding least_pair
least_pair-less p l = (ground arith, ground arith)

least_pair-IsUnder : (p : PciDistance) (l : Least) → l.1 ≤ 1 → IsUnder (least_pair p l) p
unfolding least_pair
least_pair-IsUnder p l h = record { hops = λ k. ground (arith, k); roots = ground (arith, h) }

IsUnder-less : (l m : Least) (p : PciDistance) → m.0 ≤ l.0 → m.1 ≤ l.1 → IsUnder l p → IsUnder m p
IsUnder-less l m p h k u = record {
  hops = λ e. omega (arith, h, u.hops e);
  roots = omega (arith, k, u.roots);
}

module _ (a : TopologyAllocator) where
  least_row-less :
      (i j n : ℕ) (l : Least) → ((least_row a i j n l).0 ≤ l.0) × ((least_row a i j n l).1 ≤ l.1)
  unfolding least_row
  least_row-less i j zero l = (omega arith, omega arith)
  least_row-less i j (suc n) l =
      let rest = least_row-less i (j + 1) n (least_pair (pair_at a i j) l) in
      let here = least_pair-less (pair_at a i j) l in
      (omega (arith, rest.0, here.0), omega (arith, rest.1, here.1))

  least_row-IsUnder :
      (i j n k : ℕ) (l : Least)
      → l.1 ≤ 1
      → j ≤ k
      → k < j + n
      → IsUnder (least_row a i j n l) (pair_at a i k)
  unfolding least_row
  least_row-IsUnder i j zero k l h low high = absurd (omega (arith, low, high))
  least_row-IsUnder i j (suc n) k l h low high =
      let next = least_pair (pair_at a i j) l in
      let here = least_pair-less (pair_at a i j) l in
      elim (Bool-cases (nat_beq j k)) [
        | inl same ↦
            let rest = least_row-less i (j + 1) n next in
            IsUnder-less next (least_row a i (j + 1) n next) (pair_at a i k) rest.0 rest.1 (
              subst (λ m. IsUnder next (pair_at a i m)) ((nat_beq_iff j k).0 same)
                (least_pair-IsUnder (pair_at a i j) l h))
        | inr other ↦
            least_row-IsUnder i (j + 1) n k next (omega (arith, h, here.1))
              (ground (arith, other, low)) (omega (arith, high))
      ]

  least_rows-less :
      (i n : ℕ) (l : Least) → ((least_rows a i n l).0 ≤ l.0) × ((least_rows a i n l).1 ≤ l.1)
  unfolding least_rows
  least_rows-less i zero l = (omega arith, omega arith)
  least_rows-less i (suc n) l =
      let rest = least_rows-less (i + 1) n (least_row a i 0 i l) in
      let here = least_row-less i 0 i l in
      (omega (arith, rest.0, here.0), omega (arith, rest.1, here.1))

  least_rows-IsUnder :
      (i n j k : ℕ) (l : Least)
      → l.1 ≤ 1
      → i ≤ j
      → j < i + n
      → k < j
      → IsUnder (least_rows a i n l) (pair_at a j k)
  unfolding least_rows
  least_rows-IsUnder i zero j k l h low high less = absurd (omega (arith, low, high))
  least_rows-IsUnder i (suc n) j k l h low high less =
      let next = least_row a i 0 i l in
      let here = least_row-less i 0 i l in
      elim (Bool-cases (nat_beq i j)) [
        | inl same ↦
            let rest = least_rows-less (i + 1) n next in
            let at = (nat_beq_iff i j).0 same in
            IsUnder-less next (least_rows a (i + 1) n next) (pair_at a j k) rest.0 rest.1 (
              subst (λ m. IsUnder next (pair_at a m k)) at
                (least_row-IsUnder i 0 i k l h (omega arith) (omega (arith, less, at))))
        | inr other ↦
            least_rows-IsUnder (i + 1) n j k next (omega (arith, h, here.1))
              (ground (arith, other, low)) (omega (arith, high)) less
      ]

  -- The least distance and the least crossing, of a pair in the order of its indices.
  prepared-IsUnder :
      (candidates : List ℕ) (j k : ℕ)
      → j < length a.devices
      → k < j
      → let setup = prepare_bounds a candidates in
        IsUnder (setup.min_distance, setup.min_separate_roots) (pair_at a j k)
  unfolding prepare_bounds
  prepared-IsUnder candidates j k h less =
      let u =
        least_rows-IsUnder 0 (length a.devices) j k (max_int, 1) (omega arith) (omega arith)
          (omega (arith, h)) less in
      record { hops = λ e. ground (arith, u.hops e); roots = u.roots }

-- The distance of two devices is the same each way, and it is 0 where it is not known.
pub record IsMeasured (a : TopologyAllocator) : Type 0 where
  pub symmetric :
      (i j : ℕ) → i < length a.devices → j < length a.devices → pair_at a i j ≡ pair_at a j i
  pub counted :
      (i j : ℕ)
      → i < length a.devices
      → j < length a.devices
      → (pair_at a i j).hops ≡ known_hops (pair_at a i j)
  -- Two devices with a path have a distance, or separate roots; any others have neither.
  pub decided :
      (i j : ℕ)
      → i < length a.devices
      → j < length a.devices
      → linked (pair_at a i j) + crossing (pair_at a i j)
        ≡ (if (device_at a i).has_pci && (device_at a j).has_pci then 1 else 0)

module _ (a : TopologyAllocator) (m : IsMeasured a) (candidates : List ℕ) where
  abbrev setup : Setup
  setup = prepare_bounds a candidates

  -- No pair of two devices is closer than the least distance, nor crosses less.
  pub pair-IsUnder :
      (i j : ℕ)
      → nat_beq i j ≡ false
      → i < length a.devices
      → j < length a.devices
      → IsUnder (setup.min_distance, setup.min_separate_roots) (pair_at a i j)
  pair-IsUnder i j apart hi hj = elim (Bool-cases (ltb i j)) [
    | inr over ↦ prepared-IsUnder a candidates i j hi (ground (arith, over, apart))
    | inl under ↦
        subst (IsUnder (setup.min_distance, setup.min_separate_roots)) (sym (m.symmetric i j hi hj))
          (prepared-IsUnder a candidates j i hj (ground (arith, under)))
  ]
