-- ===== src/Pci/Tree/Ancestors.antt =====
-- The ancestors of a node, and the node that the loops of `distance` end at.
use k8s_device_plugin.Prelude.{
  some-inj, ℕ, zero, suc, ◌+◌, ◌-◌, ◌≤◌, ◌<◌, Bool-cases, Option-cases, some, ◌≡◌, refl, sym, subst,
  ◌∙◌, ◌⊎◌, inl, inr, arith, length, nat_beq, nat_beq_iff, false,
}
use k8s_device_plugin.Pci.Tree.{PciTree, node_at, parent_of, climb, meet, lowest_common}
use k8s_device_plugin.Pci.Tree.Shape.{IsTree}

module _ (t : PciTree) where
  abbrev pub depth_at : ℕ → ℕ
  depth_at i = (node_at t i).depth

  abbrev pub root_at : ℕ → ℕ
  root_at i = (node_at t i).root

  -- `Above a i`: the node `a` is `i` or an ancestor of it.
  pub data Above (a : ℕ) : ℕ → Type 0 where
    here : Above a a
    up : {i p : ℕ} → (node_at t i).parent ≡ some p → Above a p → Above a i

module _ (t : PciTree) (v : IsTree t) where
  pub Above-depth : {a i : ℕ} → Above t a i → i < length t.nodes → depth_at t a ≤ depth_at t i
  Above-depth here h = omega arith
  Above-depth (up {i = i} {p = p} e above) h =
      let (lt, r, d) = v.child_below i p h e in
      omega (arith, d, Above-depth above (omega (arith, lt, h)))

  pub Above-inside : {a i : ℕ} → Above t a i → i < length t.nodes → a < length t.nodes
  Above-inside here h = h
  Above-inside (up {i = i} {p = p} e above) h =
      let (lt, r, d) = v.child_below i p h e in Above-inside above (omega (arith, lt, h))

  pub Above-root : {a i : ℕ} → Above t a i → i < length t.nodes → root_at t a ≡ root_at t i
  Above-root here h = refl
  Above-root (up {i = i} {p = p} e above) h =
      let (lt, r, d) = v.child_below i p h e in Above-root above (omega (arith, lt, h)) ∙ sym r

  -- Above a node that is no root stands its parent.
  pub parent-cases :
      (i : ℕ)
      → i < length t.nodes
      → ((depth_at t i ≡ 0) × (root_at t i ≡ i))
        ⊎ ((p : ℕ) × ((node_at t i).parent ≡ some p)
            × (parent_of t i ≡ p)
            × (p < length t.nodes)
            × (depth_at t i ≡ depth_at t p + 1)
            × (root_at t i ≡ root_at t p))
  unfolding parent_of
  parent-cases i h = elim (Option-cases (node_at t i).parent) [
    | inl top ↦ let (r, d) = v.root_alone i h top in inl (d, r)
    | inr (p, e) ↦
        let (lt, r, d) = v.child_below i p h e in
        inr (p, e, ground (arith, e), omega (arith, lt, h), d, r)
  ]

  -- An ancestor that is less deep is above the parent.
  Above-parent :
      {a i : ℕ} (p : ℕ)
      → Above t a i
      → (node_at t i).parent ≡ some p
      → depth_at t a < depth_at t i
      → Above t a p
  Above-parent p here e h = absurd (omega (arith, h))
  Above-parent p (up {p = q} f above) e h = subst (Above t _) (some-inj (sym f ∙ e)) above

  -- What a node is that an upward loop reaches: above the node `i`, at a depth, and below every
  -- ancestor of `i` that is not deeper.
  pub record Reaches (i c depth : ℕ) : Type 0 where
    pub inside : c < length t.nodes
    pub over : Above t c i
    pub level : depth_at t c ≡ depth
    pub lowest : (a : ℕ) → Above t a i → depth_at t a ≤ depth → Above t a c

  climb-Reaches :
      (n i : ℕ) → i < length t.nodes → n ≤ depth_at t i → Reaches i (climb t n i) (depth_at t i - n)
  unfolding climb
  climb-Reaches zero i h fits = record {
    inside = h;
    over = here;
    level = omega arith;
    lowest = λ a u d. u;
  }
  climb-Reaches (suc n) i h fits = elim (parent-cases i h) [
    | inl (d, r) ↦ absurd (omega (arith, d, fits))
    | inr (p, e, f, inside, d, r) ↦
        let w = climb-Reaches n p inside (omega (arith, d, fits)) in
        rw f (record {
          inside = w.inside;
          over = up e w.over;
          level = omega (arith, w.level, d);
          lowest = λ a u k.
              w.lowest a (Above-parent p u e (omega (arith, k, d, fits))) (omega (arith, k, d));
        })
  ]

  -- An ancestor of the same depth is the node.
  Above-same : {a i : ℕ} → Above t a i → i < length t.nodes → depth_at t a ≡ depth_at t i → a ≡ i
  Above-same here h e = refl
  Above-same (up {i = i} {p = p} f above) h e =
      let (lt, r, d) = v.child_below i p h f in
      absurd (omega (arith, d, e, Above-depth above (omega (arith, lt, h))))

  Above-apart :
      (a i j : ℕ)
      → nat_beq i j ≡ false
      → Above t a i
      → Above t a j
      → i < length t.nodes
      → j < length t.nodes
      → depth_at t i ≡ depth_at t j
      → depth_at t a < depth_at t i
  Above-apart a i j apart u w hi hj e = elim (Bool-cases (nat_beq (depth_at t a) (depth_at t i))) [
    | inl level ↦
        let same = (nat_beq_iff (depth_at t a) (depth_at t i)).0 level in
        absurd (ground (arith, apart, Above-same u hi same, Above-same w hj (same ∙ e)))
    | inr lower ↦ ground (arith, lower, Above-depth u hi)
  ]

  depth_0-root : (i : ℕ) → i < length t.nodes → depth_at t i ≡ 0 → root_at t i ≡ i
  depth_0-root i h e = elim (parent-cases i h) [
    | inl (d, r) ↦ r
    | inr (p, f, g, inside, d, r) ↦ absurd (omega (arith, d, e))
  ]

  -- The lowest common ancestor of two nodes.
  pub record IsLowest (i j c : ℕ) : Type 0 where
    pub inside : c < length t.nodes
    pub over_left : Above t c i
    pub over_right : Above t c j
    pub lowest : (a : ℕ) → Above t a i → Above t a j → Above t a c

  IsLowest-same : (i j : ℕ) → i < length t.nodes → i ≡ j → IsLowest i j i
  IsLowest-same i j h e = record {
    inside = h;
    over_left = here;
    over_right = subst (Above t i) e here;
    lowest = λ a u w. u;
  }

  meet-IsLowest :
      (n i j : ℕ)
      → i < length t.nodes
      → j < length t.nodes
      → depth_at t i ≡ n
      → depth_at t j ≡ n
      → root_at t i ≡ root_at t j
      → IsLowest i j (meet t n i j)
  unfolding meet
  meet-IsLowest zero i j hi hj di dj same =
      IsLowest-same i j hi (sym (depth_0-root i hi di) ∙ same ∙ depth_0-root j hj dj)
  meet-IsLowest (suc n) i j hi hj di dj same = elim (Bool-cases (nat_beq i j)) [
    | inl e ↦ rw e (IsLowest-same i j hi ((nat_beq_iff i j).0 e))
    | inr apart ↦ rw apart (elim (parent-cases i hi) [
      | inl (d, r) ↦ absurd (omega (arith, d, di))
      | inr (p, e, f, pi, d, r) ↦ elim (parent-cases j hj) [
        | inl (d', r') ↦ absurd (omega (arith, d', dj))
        | inr (q, e', f', qi, d', r') ↦
            let w =
              meet-IsLowest n p q pi qi (omega (arith, d, di)) (omega (arith, d', dj))
                (sym r ∙ same ∙ r') in
            rw (f, f')
              (record {
                inside = w.inside;
                over_left = up e w.over_left;
                over_right = up e' w.over_right;
                lowest = λ a u x.
                    let less = Above-apart a i j apart u x hi hj (di ∙ sym dj) in
                    w.lowest a (Above-parent p u e less)
                      (Above-parent q x e' (omega (arith, less, di, dj)));
              })
      ]
    ])
  ]

  pub Above-trans : {a b i : ℕ} → Above t a b → Above t b i → Above t a i
  Above-trans u here = u
  Above-trans u (up e w) = up e (Above-trans u w)

  -- The loops of `distance` end at the lowest common ancestor of two nodes under one root.
  pub lowest_common-IsLowest :
      (i j : ℕ)
      → i < length t.nodes
      → j < length t.nodes
      → root_at t i ≡ root_at t j
      → IsLowest i j (lowest_common t i j)
  unfolding lowest_common
  lowest_common-IsLowest i j hi hj same =
      let a = climb-Reaches (depth_at t i - depth_at t j) i hi (omega arith) in
      let b = climb-Reaches (depth_at t j - depth_at t i) j hj (omega arith) in
      let w =
        meet-IsLowest _ _ _ a.inside b.inside refl (omega (arith, a.level, b.level))
          (Above-root a.over hi ∙ same ∙ sym (Above-root b.over hj)) in
      record {
        inside = w.inside;
        over_left = Above-trans w.over_left a.over;
        over_right = Above-trans w.over_right b.over;
        lowest = λ k u x.
            let left = Above-depth u hi in
            let right = Above-depth x hj in
            w.lowest k (a.lowest k u (omega (arith, left, right)))
              (b.lowest k x (omega (arith, left, right)));
      }
