-- ===== src/Pci/Tree/Distances.antt =====
-- The hops of two nodes are the length of the shortest walk between them.
use k8s_device_plugin.Prelude.{
  ℕ, suc, ◌+◌, ◌-◌, ◌*◌, ◌≤◌, ◌<◌, Bool-cases, Option-cases, none, some, true, false, ◌≡◌, refl,
  sym, subst, ◌∙◌, ◌⊎◌, inl, inr, arith, length, nat_beq, nat_beq_iff, some-inj,
}
use k8s_device_plugin.Prelude.Texts.{Text, text_eq}
use k8s_device_plugin.Prelude.Dict.{Dict, lookup}
use k8s_device_plugin.Go.Host.{Host}
use k8s_device_plugin.Device.{NpuDevice}
use k8s_device_plugin.Pci.Tree.{
  PciTree, PciDistance, node_at, lowest_common, node_distance, distance, unknown_distance,
  new_pci_tree,
}
use k8s_device_plugin.Pci.Tree.Shape.{IsTree}
use k8s_device_plugin.Pci.Tree.Built.{IsForest, new_pci_tree-IsForest}
use k8s_device_plugin.Pci.Tree.Ancestors.{
  Above, here, up, depth_at, root_at, Above-depth, Above-trans, IsLowest, lowest_common-IsLowest,
}

-- A walk of `n` edges through the forest, each from a node to its parent or back.
pub data Walk (t : PciTree) : ℕ → ℕ → ℕ → Type 0 where
  stay : {i : ℕ} → Walk t i i 0
  rise : {i p j n : ℕ} → (node_at t i).parent ≡ some p → Walk t p j n → Walk t i j (suc n)
  fall :
      {i k j n : ℕ}
      → k < length t.nodes
      → (node_at t k).parent ≡ some i
      → Walk t k j n
      → Walk t i j (suc n)

module _ (t : PciTree) (v : IsTree t) where
  ascend :
      {c i j n : ℕ}
      → Above t c i
      → i < length t.nodes
      → Walk t c j n
      → Walk t i j ((depth_at t i - depth_at t c) + n)
  ascend {j = j} {n = n} here h w = subst (Walk t _ j) (omega arith) w
  ascend {c = c} {i = i} {j = j} {n = n} (up {p = p} e above) h w =
      let (lt, r, d) = v.child_below i p h e in
      let inside : p < length t.nodes = omega (arith, lt, h) in
      subst (Walk t i j) (omega (arith, d, Above-depth t v above inside))
        (rise e (ascend above inside w))

  descend :
      {c i j n : ℕ}
      → Above t c i
      → i < length t.nodes
      → Walk t i j n
      → Walk t c j ((depth_at t i - depth_at t c) + n)
  descend {j = j} {n = n} here h w = subst (Walk t _ j) (omega arith) w
  descend {c = c} {i = i} {j = j} {n = n} (up {p = p} e above) h w =
      let (lt, r, d) = v.child_below i p h e in
      let inside : p < length t.nodes = omega (arith, lt, h) in
      subst (Walk t c j) (omega (arith, d, Above-depth t v above inside))
        (descend above inside (fall h e w))

  Walk-root : {i j n : ℕ} → i < length t.nodes → Walk t i j n → root_at t i ≡ root_at t j
  Walk-root h stay = refl
  Walk-root {i = i} h (rise {p = p} e w) =
      let (lt, r, d) = v.child_below i p h e in r ∙ Walk-root (omega (arith, lt, h)) w
  Walk-root {i = i} h (fall {k = k} inside e w) =
      let (lt, r, d) = v.child_below k i inside e in sym r ∙ Walk-root inside w

  -- A common ancestor of a child of `i` and of `j` is at most one level below the lowest of `i`.
  child-near :
      {i a : ℕ} (c k j : ℕ)
      → k < length t.nodes
      → (node_at t k).parent ≡ some i
      → IsLowest t v i j c
      → Above t a k
      → Above t a j
      → depth_at t a ≤ depth_at t c + 1
  child-near {i = i} c k j inside e low here w =
      let (lt, r, d) = v.child_below k i inside e in
      omega
        (arith, d, Above-depth t v (low.lowest i here (Above-trans t v (up e here) w)) low.inside)
  child-near {i = i} {a = a} c k j inside e low (up {p = p} f u) w =
      let above = subst (Above t a) (some-inj (sym f ∙ e)) u in
      omega (arith, Above-depth t v (low.lowest a above w) low.inside)

  -- A walk is at least as long as the way over the lowest common ancestor.
  Walk-least :
      {i j n : ℕ} (c : ℕ)
      → i < length t.nodes
      → j < length t.nodes
      → Walk t i j n
      → IsLowest t v i j c
      → depth_at t i + depth_at t j ≤ n + 2 * depth_at t c
  Walk-least {i = i} c hi hj stay low =
      omega (arith, Above-depth t v (low.lowest i here here) low.inside)
  Walk-least {i = i} {j = j} c hi hj (rise {p = p} e w) low =
      let (lt, r, d) = v.child_below i p hi e in
      let inside : p < length t.nodes = omega (arith, lt, hi) in
      let next = lowest_common-IsLowest t v p j inside hj (Walk-root inside w) in
      let bound = Walk-least (lowest_common t p j) inside hj w next in
      let above = low.lowest (lowest_common t p j) (up e next.over_left) next.over_right in
      omega (arith, d, bound, Above-depth t v above low.inside)
  Walk-least {i = i} {j = j} c hi hj (fall {k = k} inside e w) low =
      let (lt, r, d) = v.child_below k i inside e in
      let next = lowest_common-IsLowest t v k j inside hj (Walk-root inside w) in
      let bound = Walk-least (lowest_common t k j) inside hj w next in
      let near = child-near c k j inside e low next.over_left next.over_right in
      omega (arith, d, bound, near)

-- What a distance says of the walks between two nodes: separate roots, if there is none, and
-- else the length of the shortest.
pub data IsShortest (t : PciTree) (i j : ℕ) : PciDistance → Type 0 where
  apart :
      {d : PciDistance}
      → d.known ≡ false
      → d.separate_roots ≡ true
      → ((n : ℕ) → ¬ Walk t i j n)
      → IsShortest t i j d
  joined :
      {d : PciDistance}
      → d.known ≡ true
      → d.separate_roots ≡ false
      → Walk t i j d.hops
      → ((n : ℕ) → Walk t i j n → d.hops ≤ n)
      → IsShortest t i j d

module _ (t : PciTree) (v : IsTree t) where
  node_distance-IsShortest :
      (i j : ℕ) → i < length t.nodes → j < length t.nodes → IsShortest t i j (node_distance t i j)
  unfolding node_distance
  node_distance-IsShortest i j hi hj = elim (Bool-cases (nat_beq (root_at t i) (root_at t j))) [
    | inr e ↦ rw e (apart refl refl (λ n w. absurd (ground (arith, e, Walk-root t v hi w))))
    | inl e ↦
        let low =
          lowest_common-IsLowest t v i j hi hj ((nat_beq_iff (root_at t i) (root_at t j)).0 e) in
        let left = Above-depth t v low.over_left hi in
        let right = Above-depth t v low.over_right hj in
        rw e (
          joined refl refl
            (subst (Walk t i j) (omega (arith, left, right))
              (ascend t v low.over_left hi (descend t v low.over_right hj stay)))
            (λ n w. omega (arith, Walk-least t v (lowest_common t i j) hi hj w low)))
  ]

-- A device that has no node is at no known distance, and no roots keep it apart.
pub data IsDistance (t : PciTree) (source destination : Text) : PciDistance → Type 0 where
  unplaced :
      {d : PciDistance}
      → (lookup source t.devices ≡ none) ⊎ (lookup destination t.devices ≡ none)
      → d ≡ unknown_distance
      → IsDistance t source destination d
  placed :
      {d : PciDistance} {i j : ℕ}
      → lookup source t.devices ≡ some i
      → lookup destination t.devices ≡ some j
      → IsShortest t i j d
      → IsDistance t source destination d

module _ (t : PciTree) (v : IsForest t) where
  distance-IsDistance : (a b : Text) → IsDistance t a b (distance t a b)
  unfolding distance
  distance-IsDistance a b = elim (Option-cases (lookup a t.devices)) [
    | inl e ↦ rw (e, distance) (unplaced (inl e) refl)
    | inr (i, e) ↦ elim (Option-cases (lookup b t.devices)) [
      | inl f ↦ rw (e, f, distance) (unplaced (inr f) refl)
      | inr (j, f) ↦
          rw (e, f, distance)
            (placed e f (node_distance-IsShortest t v.shape i j (v.placed a i e) (v.placed b j f)))
    ]
  ]

-- In the tree of a scan, the hops of two devices are the length of the shortest walk between their
-- nodes; the roots are separate where there is no walk; and nothing is known of a device without
-- a node.
pub distance-new_pci_tree :
    (host : Host) (devices : Dict Text NpuDevice) (a b : Text)
    → IsDistance (new_pci_tree host devices) a b (distance (new_pci_tree host devices) a b)
distance-new_pci_tree host devices =
    distance-IsDistance (new_pci_tree host devices) (new_pci_tree-IsForest host devices)
