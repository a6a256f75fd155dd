-- ===== src/Pci/Tree/Shape.antt =====
-- The shape of the forest that `newPCITree` builds, and what a new node changes of it.
use k8s_device_plugin.Prelude.{
  ℕ, zero, suc, ◌+◌, ◌<◌, Bool, true, false, Bool-cases, List, [], ◌∷◌, ◌++◌, Option, none, some,
  ◌≡◌, refl, sym, ap, ◌∙◌, inl, inr, arith, length, length-append, length-set, get_or, set,
  get_or-append_left, get_or-snoc, get_or-set, nat_beq, nat_beq_iff, if◌then◌else◌,
}
use k8s_device_plugin.Prelude.Texts.{text_eq}
use k8s_device_plugin.Pci.Tree.{PciTreeNode, PciTree, no_node, node_at, add_node}

abbrev pub is_child_of : Option ℕ → PciTreeNode → Bool
is_child_of none node = elim node.parent [ none ↦ true | some q ↦ false ]
is_child_of (some p) node = elim node.parent [ none ↦ false | some q ↦ nat_beq q p ]

-- The indices, from the first one on, of the nodes with a parent: of the roots, for none.
unfoldable pub with_parent : Option ℕ → List PciTreeNode → ℕ → List ℕ
with_parent p [] i = []
with_parent p (node ∷ nodes) i =
    let rest = with_parent p nodes (i + 1) in if is_child_of p node then i ∷ rest else rest

pub with_parent-snoc :
    (p : Option ℕ) (nodes : List PciTreeNode) (node : PciTreeNode) (i : ℕ)
    → with_parent p (nodes ++ node ∷ []) i
      ≡ with_parent p nodes i ++ (if is_child_of p node then (i + length nodes) ∷ [] else [])
unfolding with_parent
with_parent-snoc p [] node i = ground arith
with_parent-snoc p (n ∷ nodes) node i = ground (arith, with_parent-snoc p nodes node (i + 1))

-- A write that keeps the parent.
pub with_parent-set :
    (p : Option ℕ) (nodes : List PciTreeNode) (k : ℕ) (node : PciTreeNode) (i : ℕ)
    → node.parent ≡ (get_or nodes k no_node).parent
    → with_parent p (set nodes k node) i ≡ with_parent p nodes i
unfolding with_parent
with_parent-set p [] k node i h = refl
with_parent-set p (n ∷ nodes) zero node i h = ground (arith, h)
with_parent-set p (n ∷ nodes) (suc k) node i h =
    ground (arith, with_parent-set p nodes k node (i + 1) h)

-- A root is its own root, at depth 0; any other node stands behind its parent, one level deeper,
-- under the same root. The children of a node are the nodes that have it for their parent.
pub record IsTree (t : PciTree) : Type 0 where
  pub root_alone :
      (i : ℕ)
      → i < length t.nodes
      → (node_at t i).parent ≡ none
      → ((node_at t i).root ≡ i) × ((node_at t i).depth ≡ 0)
  pub child_below :
      (i p : ℕ)
      → i < length t.nodes
      → (node_at t i).parent ≡ some p
      → (p < i)
        × ((node_at t i).root ≡ (node_at t p).root)
        × ((node_at t i).depth ≡ (node_at t p).depth + 1)
  pub all_children :
      (p : ℕ) → p < length t.nodes → (node_at t p).children ≡ with_parent (some p) t.nodes 0
  pub all_roots : t.roots ≡ with_parent none t.nodes 0

-- A node but for its children.
abbrev pub SameNode : PciTreeNode → PciTreeNode → Type 0
SameNode m n = (m.parent ≡ n.parent) × (m.root ≡ n.root) × (m.depth ≡ n.depth)

pub length-add_node :
    (t : PciTree) (p : Option ℕ) → length (add_node t p).nodes ≡ length t.nodes + 1
unfolding add_node
length-add_node t none = length-append t.nodes _ ∙ omega arith
length-add_node t (some p) =
    length-append (set t.nodes p _) _ ∙ omega (arith, length-set t.nodes p _)

abbrev pub IsInside : PciTree → Option ℕ → Type 0
IsInside t none = Unit {0}
IsInside t (some p) = p < length t.nodes

module _ (t : PciTree) where
  abbrev pub size : ℕ
  size = length t.nodes

  abbrev pub new_root : PciTreeNode
  new_root = record { parent = none; root = size; children = []; depth = 0 }

  abbrev pub new_child : ℕ → PciTreeNode
  new_child p = record {
    parent = some p;
    root = (node_at t p).root;
    children = [];
    depth = (node_at t p).depth + 1;
  }

  abbrev pub with_child : ℕ → PciTreeNode
  with_child p = record (node_at t p) { children = (node_at t p).children ++ size ∷ [] }

  pub add_node-SameNode :
      (p : Option ℕ) (i : ℕ) → i < size → SameNode (node_at (add_node t p) i) (node_at t i)
  unfolding add_node node_at
  add_node-SameNode none i h = rw (get_or-append_left t.nodes _ i no_node h) (refl, refl, refl)
  add_node-SameNode (some q) i h =
      let v = with_child q in
      let inside : i < length (set t.nodes q v) = omega (arith, h, length-set t.nodes q v) in
      rw
        (
          get_or-append_left (set t.nodes q v) _ i no_node inside,
          get_or-set t.nodes q i v no_node h,
        )
        (elim (Bool-cases (nat_beq q i)) [
          | inl same ↦
              let at_i = ap (node_at t) ((nat_beq_iff q i).0 same) in
              rw same (ap (λ n. n.parent) at_i, ap (λ n. n.root) at_i, ap (λ n. n.depth) at_i)
          | inr other ↦ rw other (refl, refl, refl)
        ])

  pub add_node-children :
      (p i : ℕ)
      → i < size
      → (node_at (add_node t (some p)) i).children
        ≡ (if nat_beq p i then (node_at t i).children ++ size ∷ [] else (node_at t i).children)
  unfolding add_node node_at
  add_node-children p i h =
      let v = with_child p in
      let inside : i < length (set t.nodes p v) = omega (arith, h, length-set t.nodes p v) in
      rw
        (
          get_or-append_left (set t.nodes p v) _ i no_node inside,
          get_or-set t.nodes p i v no_node h,
        )
        (elim (Bool-cases (nat_beq p i)) [
          | inl same ↦
              let at_i = ap (node_at t) ((nat_beq_iff p i).0 same) in
              rw same (ap (λ n. n.children ++ size ∷ []) at_i)
          | inr other ↦ rw other refl
        ])

  pub add_node-new_root : node_at (add_node t none) size ≡ new_root
  unfolding add_node node_at
  add_node-new_root = get_or-snoc t.nodes new_root no_node

  pub add_node-new_child : (p : ℕ) → node_at (add_node t (some p)) size ≡ new_child p
  unfolding add_node node_at
  add_node-new_child p =
      ap (λ k. get_or (set t.nodes p (with_child p) ++ new_child p ∷ []) k no_node)
        (sym (length-set t.nodes p (with_child p)))
      ∙ get_or-snoc (set t.nodes p (with_child p)) (new_child p) no_node

  abbrev pub only_root : Option ℕ → List ℕ
  only_root none = size ∷ []
  only_root (some q) = []

  abbrev pub only_child : ℕ → Option ℕ → List ℕ
  only_child p none = []
  only_child p (some q) = if nat_beq p q then size ∷ [] else []

  pub add_node-roots :
      (q : Option ℕ)
      → with_parent q (add_node t none).nodes 0 ≡ with_parent q t.nodes 0 ++ only_root q
  unfolding add_node
  add_node-roots none = ground (arith, with_parent-snoc none t.nodes new_root 0)
  add_node-roots (some r) = ground (arith, with_parent-snoc (some r) t.nodes new_root 0)

  pub add_node-parents :
      (p : ℕ) (q : Option ℕ)
      → with_parent q (add_node t (some p)).nodes 0 ≡ with_parent q t.nodes 0 ++ only_child p q
  unfolding add_node node_at
  add_node-parents p none = ground (
    arith,
    with_parent-snoc none (set t.nodes p (with_child p)) (new_child p) 0,
    with_parent-set none t.nodes p (with_child p) 0 refl,
  )
  add_node-parents p (some r) = ground (
    arith,
    with_parent-snoc (some r) (set t.nodes p (with_child p)) (new_child p) 0,
    with_parent-set (some r) t.nodes p (with_child p) 0 refl,
    length-set t.nodes p (with_child p),
  )
