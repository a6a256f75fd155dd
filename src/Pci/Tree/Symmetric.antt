-- ===== src/Pci/Tree/Symmetric.antt =====
-- The distance of two devices is the same each way, and what is known of it.
use k8s_device_plugin.Prelude.{
  ℕ, ◌+◌, ◌≤◌, ◌<◌, Bool, true, false, ◌&&◌, Bool-cases, Option-cases, none, some, ◌≡◌, refl, sym,
  ap, inl, inr, ◌∙◌, arith, length, nat_beq, nat_beq_iff, if◌then◌else◌,
}
use k8s_device_plugin.Prelude.Texts.{Text, text_eq}
use k8s_device_plugin.Prelude.Dict.{lookup}
use k8s_device_plugin.Pci.Tree.{PciTree, PciDistance, lowest_common, node_distance, distance}
use k8s_device_plugin.Pci.Tree.Shape.{IsTree}
use k8s_device_plugin.Pci.Tree.Built.{IsForest}
use k8s_device_plugin.Pci.Tree.Ancestors.{depth_at, root_at, Above-depth, lowest_common-IsLowest}

module _ (t : PciTree) (v : IsTree t) where
  lowest-least :
      (i j : ℕ)
      → i < length t.nodes
      → j < length t.nodes
      → root_at t i ≡ root_at t j
      → depth_at t (lowest_common t i j) ≤ depth_at t (lowest_common t j i)
  lowest-least i j hi hj same =
      let c = lowest_common-IsLowest t v i j hi hj same in
      let d = lowest_common-IsLowest t v j i hj hi (sym same) in
      Above-depth t v (d.lowest (lowest_common t i j) c.over_right c.over_left) d.inside

  node_distance_comm :
      (i j : ℕ)
      → i < length t.nodes
      → j < length t.nodes
      → node_distance t i j ≡ node_distance t j i
  unfolding node_distance
  node_distance_comm i j hi hj = elim (Bool-cases (nat_beq (root_at t i) (root_at t j))) [
    | inr other ↦
        let back : nat_beq (root_at t j) (root_at t i) ≡ false = ground (arith, other) in
        rw (other, back) refl
    | inl same ↦
        let e = (nat_beq_iff (root_at t i) (root_at t j)).0 same in
        let back : nat_beq (root_at t j) (root_at t i) ≡ true = ground (arith, same) in
        rw (same, back)
          (ap (λ n. record { known = true; separate_roots = false; hops = n })
            (omega (arith, lowest-least i j hi hj e, lowest-least j i hj hi (sym e))))
  ]

abbrev pub is_placed : PciTree → Text → Bool
is_placed t id = elim (lookup id t.devices) [ none ↦ false | some n ↦ true ]

-- What a distance says of a pair of devices.
pub record IsDecided (t : PciTree) (a b : Text) (d : PciDistance) : Type 0 where
  pub counted : d.hops ≡ (if d.known then d.hops else 0)
  pub decided :
      (if d.known then 1 else 0) + (if d.separate_roots then 1 else 0)
      ≡ (if is_placed t a && is_placed t b then 1 else 0)

pub distance-IsDecided : (t : PciTree) (a b : Text) → IsDecided t a b (distance t a b)
unfolding distance node_distance
distance-IsDecided t a b = elim (Option-cases (lookup a t.devices)) [
  | inl e ↦ record { counted = ground (arith, e); decided = ground (arith, e) }
  | inr (i, e) ↦ elim (Option-cases (lookup b t.devices)) [
    | inl f ↦ record { counted = ground (arith, e, f); decided = ground (arith, e, f) }
    | inr (j, f) ↦ record { counted = ground (arith, e, f); decided = ground (arith, e, f) }
  ]
]

distance_at :
    (t : PciTree) (a b : Text) (i j : ℕ)
    → lookup a t.devices ≡ some i
    → lookup b t.devices ≡ some j
    → distance t a b ≡ node_distance t i j
unfolding distance
distance_at t a b i j e f = rw (e, distance, f) refl

pub distance_comm : (t : PciTree) → IsForest t → (a b : Text) → distance t a b ≡ distance t b a
unfolding distance
distance_comm t v a b = elim (Option-cases (lookup a t.devices)) [
  | inl e ↦ ground (arith, e)
  | inr (i, e) ↦ elim (Option-cases (lookup b t.devices)) [
    | inl f ↦ ground (arith, e, f)
    | inr (j, f) ↦
        distance_at t a b i j e f
        ∙ node_distance_comm t v.shape i j (v.placed a i e) (v.placed b j f)
        ∙ sym (distance_at t b a j i f e)
  ]
]
