-- ===== src/Allocator/Placement/Subtree.antt =====
-- `pciSubtreeCosts`: no placement of endpoints in a subtree costs less.
use k8s_device_plugin.Prelude.{
  ℕ, zero, suc, ◌+◌, ◌-◌, ◌*◌, ◌≤◌, ◌<◌, min, Bool-cases, List, [], ◌∷◌, map, ◌≡◌, subst, ap, ◌∙◌,
  inl, inr, arith, length, length-map, length-replicate, replicate, leb, nat_beq, nat_beq_iff,
  if◌then◌else◌, ◌&&◌,
}
use k8s_device_plugin.Pci.Tree.{PciTree, node_at}
use k8s_device_plugin.Allocator.Placement.{
  at, impossible_cost, Loads, range, place_befores, place_children, subtree_costs,
}
use k8s_device_plugin.Allocator.Placement.Rounds.{
  place_befores-less, length-place_befores, place_befores-at,
}
use k8s_device_plugin.Allocator.Placement.Placed.{
  Placed, place, PlacedAll, done, child_takes, at-replicate, length-range, at-range,
}

module _ (t : PciTree) (l : Loads) (root_count : ℕ) where
  Placed-capacity :
      {fuel node count cost : ℕ}
      → Placed t l root_count fuel node count cost
      → count ≤ at l.capacity node
  Placed-capacity (place low high split fits most all) = fits

  -- What is shown of each child.
  abbrev IsLeast : ℕ → Type 0
  IsLeast fuel =
      (node count cost : ℕ)
      → Placed t l root_count fuel node count cost
      → (count < length (subtree_costs t l node root_count fuel))
        × (at (subtree_costs t l node root_count fuel) count ≤ cost)

  length-place_children :
      (child_costs : ℕ → List ℕ) (limit : ℕ) (children costs : List ℕ) (used : ℕ)
      → length costs ≡ limit + 1
      → length (place_children child_costs l root_count limit children costs used) ≡ limit + 1
  unfolding place_children
  length-place_children child_costs limit [] costs used h = h
  length-place_children child_costs limit (child ∷ children) costs used h =
      elim (Bool-cases (nat_beq (at l.capacity child) 0)) [
        | inl none ↦
            rw (none, place_children)
              (length-place_children child_costs limit children costs used h)
        | inr some_room ↦
            rw (some_room, place_children)
              (length-place_children child_costs limit children
                (place_befores root_count limit (at l.forced_subtree child) costs
                  (child_costs child) 0 (used + 1) (replicate (limit + 1) impossible_cost))
                (min limit (used + at l.capacity child))
                (length-place_befores root_count limit (at l.forced_subtree child) costs
                    (child_costs child) 0 (used + 1) (replicate (limit + 1) impossible_cost)
                  ∙ length-replicate (limit + 1) impossible_cost))
      ]

  module _ (limit from used x k v below : ℕ) (costs child_costs : List ℕ) where
    abbrev after : List ℕ
    after =
        place_befores root_count limit from costs child_costs 0 (used + 1)
          (replicate (limit + 1) impossible_cost)

    after-most : (y : ℕ) → at after y ≤ impossible_cost
    after-most y = omega (
      arith,
      place_befores-less root_count limit from costs child_costs 0 (used + 1)
          (replicate (limit + 1) impossible_cost) y,
      at-replicate (limit + 1) impossible_cost y,
    )

    -- The costs after one child, for `k` endpoints of it and `x` before it.
    after-least :
        at costs x ≤ v
        → at child_costs k ≤ below
        → x ≤ used
        → from ≤ k
        → k < length child_costs
        → x + k ≤ limit
        → at after (x + k) ≤ v + below + k * (root_count - k)
    after-least one two low least most fits =
        elim (Bool-cases (nat_beq (at costs x) impossible_cost)) [
          | inl none ↦
              let full = (nat_beq_iff (at costs x) impossible_cost).0 none in
              omega (arith, full, one, after-most (x + k))
          | inr some_cost ↦ elim (Bool-cases (nat_beq (at child_costs k) impossible_cost)) [
            | inl none ↦
                let full = (nat_beq_iff (at child_costs k) impossible_cost).0 none in
                omega (arith, full, two, after-most (x + k))
            | inr child_cost ↦ omega (
              arith,
              one,
              two,
              place_befores-at root_count limit from costs child_costs 0 (used + 1) x k
                  (replicate (limit + 1) impossible_cost) (omega arith) (omega (arith, low)) least
                  most fits (length-replicate (limit + 1) impossible_cost) some_cost child_cost,
            )
          ]
        ]

  place_children-least :
      {fuel rest cost : ℕ} {children : List ℕ}
      → IsLeast fuel
      → PlacedAll t l root_count fuel children rest cost
      → (limit used x v : ℕ) (costs : List ℕ) → at costs x ≤ v
      → x ≤ used
      → x + rest ≤ limit
      → at
          (place_children
            (λ child. subtree_costs t l child root_count fuel)
            l
            root_count
            limit
            children
            costs
            used)
          (x + rest)
        ≤ v + cost
  unfolding place_children
  place_children-least {rest = rest} {cost = cost} ih (done e) limit used x v costs one low fits =
      let here : x + rest ≡ x = omega (arith, e) in omega (arith, ap (at costs) here, one)
  place_children-least {fuel = fuel} {rest = count} {cost = whole} ih
        (child_takes {child = child} {k = k} {below = below} {rest = rest} {cost = cost}
          {children = children} p forced split total all)
        limit used x v costs one low fits =
      let child_costs = subtree_costs t l child root_count fuel in
      let (short, least) = ih child k below p in
      elim (Bool-cases (nat_beq (at l.capacity child) 0)) [
        | inl none ↦
            let empty = (nat_beq_iff (at l.capacity child) 0).0 none in
            let same : x + rest ≡ x + count = omega (arith, split, empty, Placed-capacity p) in
            let step =
              place_children-least ih all limit used x v costs one low
                (omega (arith, fits, same)) in
            rw (none, place_children)
              (subst
                (λ i.
                  at
                    (place_children (λ c. subtree_costs t l c root_count fuel) l root_count limit
                      children costs used)
                    i
                  ≤ v + whole)
                same (omega (arith, step, total)))
        | inr some_room ↦
            let costs' =
              after limit (at l.forced_subtree child) used x k v below costs child_costs in
            let used' = min limit (used + at l.capacity child) in
            let v' = v + below + k * (root_count - k) in
            let reached =
              after-least limit (at l.forced_subtree child) used x k v below costs child_costs one
                least low forced short (omega (arith, fits, split)) in
            let same : x + k + rest ≡ x + count = omega (arith, split) in
            let step =
              place_children-least ih all limit used' (x + k) v' costs' reached
                (omega (arith, low, fits, split, Placed-capacity p)) (omega (arith, fits, same)) in
            rw (some_room, place_children)
              (subst
                (λ i.
                  at
                    (place_children (λ c. subtree_costs t l c root_count fuel) l root_count limit
                      children costs' used')
                    i
                  ≤ v + whole)
                same (omega (arith, step, total)))
      ]

  subtree_costs-IsLeast : (fuel : ℕ) → IsLeast fuel
  unfolding subtree_costs
  subtree_costs-IsLeast zero node count cost p = elim p [ ]
  subtree_costs-IsLeast (suc fuel) node count cost
        (place {own = own} {rest = rest} low high split fits most all) =
      let limit = min (at l.capacity node) root_count in
      let ends = at l.forced node + at l.free node in
      let costs =
        map (λ n. if leb (at l.forced node) n && leb n ends then 0 else impossible_cost)
          (range 0 (limit + 1)) in
      let long : length costs ≡ limit + 1 =
        length-map (λ n. if leb (at l.forced node) n && leb n ends then 0 else impossible_cost)
          (range 0 (limit + 1))
        ∙ length-range 0 (limit + 1) in
      let start : at costs own ≤ 0 = ground (
        arith,
        at-range (λ n. if leb (at l.forced node) n && leb n ends then 0 else impossible_cost) 0
            (limit + 1) own (omega (arith, split, fits, most)),
        low,
        high,
      ) in
      let same : own + rest ≡ count = omega (arith, split) in
      let least =
        place_children-least (subtree_costs-IsLeast fuel) all limit (min ends root_count) own 0
          costs start (omega (arith, high, split, most)) (omega (arith, split, fits, most)) in
      (
        omega (
          arith,
          fits,
          most,
          length-place_children (λ child. subtree_costs t l child root_count fuel) limit
              (node_at t node).children costs (min ends root_count) long,
        ),
        subst
            (λ i.
              at
                (place_children (λ child. subtree_costs t l child root_count fuel) l root_count
                  limit (node_at t node).children costs (min ends root_count))
                i
              ≤ cost)
            same (omega (arith, least)),
      )

  -- The cost that `pciSubtreeCosts` gives for a number of endpoints is not above that of any
  -- placement of as many in the subtree, which keeps to what is forced and to what there is room
  -- for.
  pub subtree_costs-least :
      {fuel node count cost : ℕ}
      → Placed t l root_count fuel node count cost
      → at (subtree_costs t l node root_count fuel) count ≤ cost
  subtree_costs-least {fuel = fuel} {node = node} {count = count} {cost = cost} p =
      (subtree_costs-IsLeast fuel node count cost p).1
