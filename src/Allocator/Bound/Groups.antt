-- ===== src/Allocator/Bound/Groups.antt =====
-- The SID groups that a combination must open: `lowerBound` counts no more than it does.
use mathlib.Core.List.{append_assoc, append-nil}
use k8s_device_plugin.Prelude.{
  ℕ, suc, ◌+◌, ◌-◌, ◌≤◌, ◌<◌, Bool, false, not, ◌&&◌, Bool-cases, List, [], ◌∷◌, ◌++◌, ◌≡◌, refl,
  sym, subst, ap, ◌∙◌, inl, inr, arith, has, length, get_or, ltb, nat_eq,
}
use k8s_device_plugin.Prelude.Sorting.{nat_order}
use k8s_device_plugin.Allocator.Policy.{count, distinct}
use k8s_device_plugin.Allocator.Policy.Counts.{has-count, IsCounted}
use k8s_device_plugin.Allocator.Bound.{group_room, new_groups}
use k8s_device_plugin.Allocator.Bound.Cover.{
  Cover, Cover-eq, enough, use_, skip, groups_needed-least,
}
use k8s_device_plugin.Allocator.Bound.Marks.{
  marks, uses, uses-length, AllBelow, distinct-marks, marks-append, marks-same, AllBelow-append,
}

module _ (sid_counts : List ℕ) where
  abbrev is_open : ℕ → Bool
  is_open j = ltb 0 (get_or sid_counts j 0)

  group_room-acc :
      (sid : ℕ) (room : List ℕ) (need : ℕ) (caps : List ℕ)
      → group_room sid_counts sid room need caps ≡ (
        (group_room sid_counts sid room need []).0,
        caps ++ (group_room sid_counts sid room need []).1,
      )
  unfolding group_room
  group_room-acc sid [] need caps = λ i. (need, sym (append-nil caps) i)
  group_room-acc sid (c ∷ room) need caps = elim (Bool-cases (is_open sid)) [
    | inl open_group ↦ rw (open_group, group_room) (group_room-acc (sid + 1) room (need - c) caps)
    | inr new ↦ elim (Bool-cases (ltb 0 c)) [
      | inr full ↦ rw (new, full, group_room) (group_room-acc (sid + 1) room need caps)
      | inl some_room ↦
          let rest = group_room sid_counts (sid + 1) room need [] in
          let a = group_room-acc (sid + 1) room need (caps ++ c ∷ []) in
          let b = group_room-acc (sid + 1) room need (c ∷ []) in
          rw (new, some_room, group_room)
            (a
              ∙ ap (λ l. (rest.0, l)) (append_assoc caps (c ∷ []) rest.1)
              ∙ sym (ap (λ y. (y.0, caps ++ y.1)) b))
    ]
  ]

  module _ (used : List ℕ) where
    -- A group that is not open, and that the list has an entry of.
    abbrev is_fresh : ℕ → Bool
    is_fresh j = not (is_open j) && has j used

    -- A group that is not open yet: it is opened where the list has an entry of it.
    new_group :
        (sid c : ℕ) (room : List ℕ) (need extra : ℕ)
        → is_open sid ≡ false
        → count sid used ≤ c
        → Cover
            (marks is_fresh (sid + 1) (length room))
            ((group_room sid_counts (sid + 1) room need []).0 - (extra + count sid used))
            (group_room sid_counts (sid + 1) room need []).1
        → Cover
            (marks is_fresh sid (suc (length room)))
            ((group_room sid_counts sid (c ∷ room) need []).0 - extra)
            (group_room sid_counts sid (c ∷ room) need []).1
    unfolding group_room marks
    new_group sid c room need extra new fits p = elim (Bool-cases (ltb 0 c)) [
      | inr full ↦
          Cover-eq (ground (arith, new, full, fits, has-count sid used))
            (ground (arith, new, full, fits)) (ground (arith, new, full)) p
      | inl some_room ↦
          let caps = group_room-acc (sid + 1) room need (c ∷ []) in
          elim (Bool-cases (has sid used)) [
            | inl taken ↦
                let opened : Cover (suc (marks is_fresh (sid + 1) (length room)))
                    ((group_room sid_counts sid (c ∷ room) need []).0 - extra)
                    (c ∷ (group_room sid_counts (sid + 1) room need []).1) =
                  use_ (ground (arith, new, some_room, caps, fits)) p in
                Cover-eq (ground (arith, new, taken)) refl (ground (arith, new, some_room, caps))
                  opened
            | inr absent ↦
                Cover-eq (ground (arith, new, absent))
                  (ground (arith, new, some_room, caps, absent, has-count sid used))
                  (ground (arith, new, some_room, caps)) (skip {c = c} p)
          ]
    ]

    -- What the first loop leaves to place is covered by the groups that the list opens, each with
    -- its room.
    group_room-Cover :
        (sid : ℕ) (room : List ℕ) (need extra : ℕ)
        → ((j : ℕ) → j < length room → count (sid + j) used ≤ get_or room j 0)
        → need ≤ extra + uses used sid (length room)
        → Cover
            (marks is_fresh sid (length room))
            ((group_room sid_counts sid room need []).0 - extra)
            (group_room sid_counts sid room need []).1
    unfolding group_room marks uses
    group_room-Cover sid [] need extra fits h = enough (omega (arith, h))
    group_room-Cover sid (c ∷ room) need extra fits h =
        let here : count sid used ≤ c = ground (arith, fits 0 (omega arith)) in
        let later : (j : ℕ) → j < length room → count (sid + 1 + j) used ≤ get_or room j 0 = λ j k.
          subst (λ i. count i used ≤ get_or room j 0) (omega arith)
            (fits (suc j) (omega (arith, k))) in
        elim (Bool-cases (is_open sid)) [
          | inl open_group ↦
              Cover-eq (ground (arith, open_group)) (ground (arith, open_group))
                (ground (arith, open_group))
                (group_room-Cover (sid + 1) room (need - c) extra later (omega (arith, h, here)))
          | inr new ↦ new_group sid c room need extra new here (
              group_room-Cover (sid + 1) room need (extra + count sid used) later
                (omega (arith, h)))
        ]

-- A combination opens at least as many groups as `lowerBound` adds to those of the chosen devices.
pub distinct-new_groups :
    (sid_counts chosen used room : List ℕ)
    → IsCounted sid_counts chosen
    → length sid_counts ≡ length room
    → AllBelow (length room) chosen
    → AllBelow (length room) used
    → ((j : ℕ) → j < length room → count j used ≤ get_or room j 0)
    → distinct chosen + new_groups sid_counts room (length used) ≤ distinct (chosen ++ used)
unfolding new_groups
distinct-new_groups sid_counts chosen used room counted size chosen_below used_below fits =
    let n = length room in
    let need = length used in
    let cover =
      group_room-Cover sid_counts used 0 room need 0
        (λ j k. subst (λ i. count i used ≤ get_or room j 0) (omega arith) (fits j k))
        (omega (arith, uses-length n used used_below)) in
    let least : new_groups sid_counts room need ≤ marks (is_fresh sid_counts used) 0 n =
      groups_needed-least _ (Cover-eq refl (omega arith) refl cover) in
    let same : (j : ℕ)
        → 0 ≤ j
        → j < 0 + n
        → is_fresh sid_counts used j ≡ (not (has j chosen) && has j used) =
      λ j low high. ground (arith, counted j (omega (arith, high, size)), has-count j chosen) in
    omega (
      arith,
      least,
      marks-same (is_fresh sid_counts used) (λ j. not (has j chosen) && has j used) 0 n same,
      marks-append chosen used 0 n,
      distinct-marks n chosen chosen_below,
      distinct-marks n (chosen ++ used) (AllBelow-append n chosen used chosen_below used_below),
    )
