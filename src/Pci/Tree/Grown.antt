-- ===== src/Pci/Tree/Grown.antt =====
-- A new node keeps the shape of the forest.
use mathlib.Core.List.{append-nil}
use k8s_device_plugin.Prelude.{
  some-inj, ℕ, suc, ◌+◌, ◌<◌, Option-cases, List, [], ◌∷◌, ◌++◌, Option, none, some, ◌≡◌, refl, sym,
  ap, ◌∙◌, ◌⊎◌, inl, inr, arith, length, get_or, get_or-append_left,
}
use k8s_device_plugin.Prelude.Texts.{text_eq}
use k8s_device_plugin.Pci.Tree.{PciTreeNode, PciTree, no_node, node_at, add_node}
use k8s_device_plugin.Pci.Tree.Shape.{
  with_parent, new_root, IsTree, length-add_node, add_node-SameNode, add_node-children,
  add_node-new_root, add_node-new_child, add_node-roots, add_node-parents,
}

with_parent-none :
    (p : ℕ) (nodes : List PciTreeNode) (i : ℕ)
    → ((k : ℕ) (q : ℕ) → k < length nodes → (get_or nodes k no_node).parent ≡ some q → q < p)
    → with_parent (some p) nodes i ≡ []
unfolding with_parent
with_parent-none p [] i h = refl
with_parent-none p (n ∷ nodes) i h =
    let rest = with_parent-none p nodes (i + 1) (λ k q m e. h (suc k) q (omega (arith, m)) e) in
    elim (Option-cases n.parent) [
      | inl top ↦ ground (arith, top, rest)
      | inr (q, below) ↦ ground (arith, below, rest, h 0 q (omega arith) below)
    ]

-- An index of the forest with the new node is the new one, or an old one.
added :
    (t : PciTree) (p : Option ℕ) (i : ℕ)
    → i < length (add_node t p).nodes
    → (i ≡ length t.nodes) ⊎ (i < length t.nodes)
added t p i h = ground (arith, h, length-add_node t p)

module _ (t : PciTree) (v : IsTree t) where
  no_children : with_parent (some (length t.nodes)) t.nodes 0 ≡ []
  unfolding node_at
  no_children =
      with_parent-none (length t.nodes) t.nodes 0
        (λ k q m e. omega (arith, m, (v.child_below k q m e).0))

  -- What a new node leaves of the nodes before it.
  old_root_alone :
      (p : Option ℕ) (i : ℕ)
      → i < length t.nodes
      → (node_at (add_node t p) i).parent ≡ none
      → ((node_at (add_node t p) i).root ≡ i) × ((node_at (add_node t p) i).depth ≡ 0)
  old_root_alone p i old e =
      let (sp, sr, sd) = add_node-SameNode t p i old in
      let (r, d) = v.root_alone i old (sym sp ∙ e) in (sr ∙ r, sd ∙ d)

  old_child_below :
      (p : Option ℕ) (i q : ℕ)
      → i < length t.nodes
      → (node_at (add_node t p) i).parent ≡ some q
      → (q < i)
        × ((node_at (add_node t p) i).root ≡ (node_at (add_node t p) q).root)
        × ((node_at (add_node t p) i).depth ≡ (node_at (add_node t p) q).depth + 1)
  old_child_below p i q old e =
      let (sp, sr, sd) = add_node-SameNode t p i old in
      let (lt, r, d) = v.child_below i q old (sym sp ∙ e) in
      let (tp, tr, td) = add_node-SameNode t p q (omega (arith, lt, old)) in
      (lt, sr ∙ r ∙ sym tr, omega (arith, sd, d, td))

  add_root-old : (i : ℕ) → i < length t.nodes → node_at (add_node t none) i ≡ node_at t i
  unfolding add_node node_at
  add_root-old i h = get_or-append_left t.nodes (new_root t ∷ []) i no_node h

  pub add_root-IsTree : IsTree (add_node t none)
  unfolding add_node
  add_root-IsTree = record {
    root_alone = λ i h e. elim (added t none i h) [
      | inl new ↦
          let here = ap (node_at (add_node t none)) new ∙ add_node-new_root t in
          (ap (λ n. n.root) here ∙ sym new, ap (λ n. n.depth) here)
      | inr old ↦ old_root_alone none i old e
    ];
    child_below = λ i q h e. elim (added t none i h) [
      | inl new ↦
          let here = ap (node_at (add_node t none)) new ∙ add_node-new_root t in
          absurd (ground (arith, ap (λ n. n.parent) here, e))
      | inr old ↦ old_child_below none i q old e
    ];
    all_children = λ q h. elim (added t none q h) [
      | inl new ↦
          let here = ap (node_at (add_node t none)) new ∙ add_node-new_root t in
          ap (λ n. n.children) here
          ∙ sym (
              add_node-roots t (some q)
              ∙ append-nil (with_parent (some q) t.nodes 0)
              ∙ ap (λ k. with_parent (some k) t.nodes 0) new
              ∙ no_children)
      | inr old ↦
          ap (λ n. n.children) (add_root-old q old)
          ∙ v.all_children q old
          ∙ sym (add_node-roots t (some q) ∙ append-nil (with_parent (some q) t.nodes 0))
    ];
    all_roots = ap (λ l. l ++ length t.nodes ∷ []) v.all_roots ∙ sym (add_node-roots t none);
  }

  pub add_child-IsTree : (p : ℕ) → p < length t.nodes → IsTree (add_node t (some p))
  unfolding add_node
  add_child-IsTree p inside = record {
    root_alone = λ i h e. elim (added t (some p) i h) [
      | inl new ↦
          let here = ap (node_at (add_node t (some p))) new ∙ add_node-new_child t p in
          absurd (ground (arith, ap (λ n. n.parent) here, e))
      | inr old ↦ old_root_alone (some p) i old e
    ];
    child_below = λ i q h e. elim (added t (some p) i h) [
      | inl new ↦
          let here = ap (node_at (add_node t (some p))) new ∙ add_node-new_child t p in
          let same : p ≡ q = some-inj (sym (ap (λ n. n.parent) here) ∙ e) in
          let (sp, sr, sd) = add_node-SameNode t (some p) q (omega (arith, inside, same)) in
          (
            omega (arith, inside, same, new),
            ap (λ n. n.root) here ∙ ap (λ k. (node_at t k).root) same ∙ sym sr,
            ap (λ n. n.depth) here
                ∙ ap (λ k. (node_at t k).depth + 1) same
                ∙ ap (λ k. k + 1) (sym sd),
          )
      | inr old ↦ old_child_below (some p) i q old e
    ];
    all_children = λ q h. elim (added t (some p) q h) [
      | inl new ↦
          let here = ap (node_at (add_node t (some p))) new ∙ add_node-new_child t p in
          ap (λ n. n.children) here
          ∙ sym (
              add_node-parents t p (some q)
              ∙ ground
                  (arith, ap (λ k. with_parent (some k) t.nodes 0) new ∙ no_children, new, inside))
      | inr old ↦ ground (
        arith,
        add_node-children t p q old,
        v.all_children q old,
        add_node-parents t p (some q),
        append-nil (with_parent (some q) t.nodes 0),
      )
    ];
    all_roots =
        v.all_roots ∙ sym (add_node-parents t p none ∙ append-nil (with_parent none t.nodes 0));
  }
