-- ===== src/Allocator/Select/Granted.antt =====
-- What a request that passed the checks is granted, on each branch of `selectPreferredDeviceIDs`.
use mathlib.Core.List.{map-append, append-nil}
use k8s_device_plugin.Prelude.{
  ℕ, ◌+◌, ◌-◌, ◌≤◌, ◌<◌, true, false, List, [], ◌∷◌, ◌++◌, map, ◌≡◌, refl, ap, ap₂, sym, subst, ◌∙◌,
  inl, inr, arith, length, length-append, length-map, has, Distinct, Within, has-append, ==_refl,
  Bool-cases, leb, nat_beq,
}
use k8s_device_plugin.Prelude.Texts.{Text, text_eq}
use k8s_device_plugin.Prelude.Sorting.{has-sort, sort-Distinct, length-sort, text_order}
use k8s_device_plugin.Prelude.Dict.{Dict, keys, IsMap, length-keys}
use k8s_device_plugin.Go.Result.{ok}
use k8s_device_plugin.Go.Host.{Host}
use k8s_device_plugin.Device.{NpuDevice, sorted_device_ids}
use k8s_device_plugin.Allocator.Model.{TopologyAllocator, new_topology_allocator}
use k8s_device_plugin.Allocator.Model.Indices.{allocator-ids, allocator-by_id}
use k8s_device_plugin.Allocator.Backtrack.Picks.{Pick, length-Pick}
use k8s_device_plugin.Allocator.Select.{
  ids_of, select_devices, left_over, choose_preferred, normalize_must_include,
}
use k8s_device_plugin.Allocator.Select.Entries.{
  length-left_over, has-left_over, left_over-Distinct, Distinct-append, has-normalize,
  normalize-Distinct,
}
use k8s_device_plugin.Allocator.Select.Picked.{
  Pick-Within, Pick-Distinct, id_at, index_of, candidates, candidates_from-ids, search_all-best,
}

-- `ids` is a choice of `size` different devices of the request, the required ones included.
pub record IsChoice (available required : List Text) (size : ℕ) (ids : List Text) : Type 0 where
  pub exact : length ids ≡ size
  pub distinct : Distinct ids
  pub complete : Within required ids
  pub sound : Within ids available

nat_beq-of_eq : (a b : ℕ) → a ≡ b → nat_beq a b ≡ true
nat_beq-of_eq a b h = ground arith

leb-of_lt : (a b : ℕ) → a < b → leb b a ≡ false
leb-of_lt a b h = ground arith

-- The branch of the search: the required devices, and a pick of those that are left.
module _ (host : Host) (available : Dict Text NpuDevice) (required : List Text) (size : ℕ)
    (keys_once : IsMap available) (known : Within required (keys available)) where
  abbrev allocator : TopologyAllocator
  allocator = new_topology_allocator host available

  abbrev selected : List Text
  selected = normalize_must_include required

  abbrev others : List Text
  others = left_over selected (sorted_device_ids available)

  selected-known : Within selected (sorted_device_ids available)
  unfolding sorted_device_ids
  selected-known id h =
      has-sort id (keys available) ∙ known id (sym (has-normalize required id) ∙ h)

  sorted-Distinct : Distinct (sorted_device_ids available)
  unfolding sorted_device_ids
  sorted-Distinct = sort-Distinct (keys available) keys_once

  length-sorted : length (sorted_device_ids available) ≡ length (keys available)
  unfolding sorted_device_ids
  length-sorted = length-sort (keys available)

  length-others : length others + length selected ≡ length (keys available)
  length-others =
      length-left_over selected (sorted_device_ids available) (normalize-Distinct required)
        sorted-Distinct selected-known
      ∙ length-sorted

  others-apart : (id : Text) → has id selected ≡ true → has id others ≡ false
  others-apart id h = ground (arith, has-left_over id selected (sorted_device_ids available))

  others-known : Within others (keys available)
  unfolding sorted_device_ids
  others-known id h =
      ground (
        arith,
        has-left_over id selected (sorted_device_ids available),
        has-sort id (keys available),
      )

  -- The selected devices, and some of the others.
  abbrev chosen_with : List Text → List Text
  chosen_with more = selected ++ more

  append-IsChoice :
      (more : List Text)
      → length more + length selected ≡ size
      → Distinct more
      → Within more others
      → IsChoice (keys available) required size (chosen_with more)
  append-IsChoice more exact distinct within = record {
    exact = omega (arith, length-append selected more);
    distinct =
        Distinct-append selected more (normalize-Distinct required) distinct
          λ id h. ground (arith, others-apart id h, within id);
    complete = λ id h. ground (arith, has-append id selected more, has-normalize required id);
    sound = λ id h. ground (
      arith,
      has-append id selected more,
      has-normalize required id,
      known id,
      others-known id,
      within id,
    );
  }

  ids-selected :
      (ids : List Text)
      → Within ids (keys available)
      → map (id_at allocator) (map (index_of allocator) ids) ≡ ids
  ids-selected [] w = refl
  ids-selected (id ∷ ids) w =
      ap₂ (◌∷◌) (allocator-by_id host available id keys_once (w id (ground (arith, ==_refl id))))
        (ids-selected ids (λ a k. w a (ground arith)))

  candidates-others : map (id_at allocator) (candidates allocator selected) ≡ others
  candidates-others =
      candidates_from-ids allocator selected 0 allocator.devices refl
      ∙ ap (left_over selected) (allocator-ids host available)

  length-candidates : length (candidates allocator selected) ≡ length others
  length-candidates =
      sym (length-map (id_at allocator) (candidates allocator selected))
      ∙ ap length candidates-others

  -- `SelectDevices` returns the required devices, followed by a pick of the others.
  select_devices-picks :
      length selected < size
      → size ≤ length (keys available)
      → (p : List ℕ) × (select_devices allocator required size
          ≡ selected ++ map (id_at allocator) p)
        × Pick (size - length selected) (candidates allocator selected) p
  unfolding select_devices ids_of
  select_devices-picks more fits =
      let (b, stored, (p, split, k)) =
        search_all-best allocator selected (size - length selected)
          (omega (arith, length-candidates, length-others)) in
      (
        p,
        rw (leb-of_lt (length selected) size more, stored, split)
            (map-append (id_at allocator) (map (index_of allocator) selected) p
              ∙ ap (λ l. l ++ map (id_at allocator) p)
                  (ids-selected selected (λ id h. known id (sym (has-normalize required id) ∙ h)))),
        k,
      )

  select_devices-IsChoice :
      length selected < size
      → size ≤ length (keys available)
      → IsChoice (keys available) required size (select_devices allocator required size)
  select_devices-IsChoice more fits =
      let (p, e, k) = select_devices-picks more fits in
      rw e (
        append-IsChoice (map (id_at allocator) p)
          (omega (arith, length-map (id_at allocator) p, length-Pick k))
          (Pick-Distinct (id_at allocator) k (
            rw candidates-others
              (left_over-Distinct selected (sorted_device_ids available) sorted-Distinct)))
          (λ id h. rw candidates-others at (Pick-Within (id_at allocator) k id h)))

  -- A request that passed the checks is granted, with a choice.
  pub choose_preferred-IsChoice :
      length selected ≤ size
      → size ≤ length (keys available)
      → (ids : List Text) × (choose_preferred host available required size ≡ ok ids)
        × IsChoice (keys available) required size ids
  unfolding choose_preferred
  choose_preferred-IsChoice enough fits = elim (Bool-cases (nat_beq (length selected) size)) [
    | inl all ↦ (
      selected,
      rw all refl,
      subst (IsChoice (keys available) required size) (append-nil selected)
          (append-IsChoice [] (ground arith) tt (λ id h. absurd (ground arith))),
    )
    | inr some_free ↦ elim (Bool-cases (nat_beq size (length available))) [
      | inl whole ↦ (
        selected ++ others,
        rw (some_free, whole) refl,
        append-IsChoice others (ground (arith, length-others, length-keys available))
            (left_over-Distinct selected (sorted_device_ids available) sorted-Distinct) (λ id h. h),
      )
      | inr part ↦
          let choice = select_devices-IsChoice (ground arith) fits in
          (
            select_devices allocator required size,
            rw (some_free, part, nat_beq-of_eq _ size choice.exact) refl,
            choice,
          )
    ]
  ]
