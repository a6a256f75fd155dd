-- ===== src/Allocator/Select/Picked.antt =====
-- What `SelectDevices` adds to the required devices: a pick of the candidates.
use mathlib.Core.List.{append_assoc, append-nil}
use k8s_device_plugin.Prelude.{
  ℕ, ◌+◌, ◌≤◌, List, [], ◌∷◌, ◌++◌, map, Option, none, some, ◌≡◌, refl, ap, sym, subst, ◌∙◌, arith,
  length, drop, drop-cons, Distinct, Within,
}
use k8s_device_plugin.Prelude.Texts.{Text, text_eq}
use k8s_device_plugin.Prelude.Sorting.{text_order}
use k8s_device_plugin.Prelude.Dict.{lookup}
use k8s_device_plugin.Allocator.Model.{AllocationDevice, TopologyAllocator, index_or_zero}
use k8s_device_plugin.Allocator.Search.{State, device_at, no_device, add}
use k8s_device_plugin.Allocator.Bound.{prepare_bounds}
use k8s_device_plugin.Allocator.Backtrack.Picks.{
  Pick, stop, taken, skipped, Holds, search-Holds, search-IsSome, IsSome,
}
use k8s_device_plugin.Allocator.Select.{
  candidates_from, add_ids, initial_state, search_all, left_over,
}

Holds-some :
    (P : List ℕ → Type 0) (o : Option (List ℕ))
    → Holds P o
    → IsSome o
    → (b : List ℕ) × (o ≡ some b) × P b
Holds-some P none h k = absurd k
Holds-some P (some b) h k = (b, refl, h)

module _ (f : ℕ → Text) where
  pub Pick-Within : {n : ℕ} {cs p : List ℕ} → Pick n cs p → Within (map f p) (map f cs)
  Pick-Within stop a k = absurd (ground arith)
  Pick-Within (taken {c = c} h) a k = ground (arith, Pick-Within h a)
  Pick-Within (skipped {c = c} h) a k = ground (arith, Pick-Within h a k)

  pub Pick-Distinct :
      {n : ℕ} {cs p : List ℕ} → Pick n cs p → Distinct (map f cs) → Distinct (map f p)
  Pick-Distinct stop d = tt
  Pick-Distinct (taken {c = c} {p = p} h) d =
      (ground (arith, Pick-Within h (f c)), Pick-Distinct h d.1)
  Pick-Distinct (skipped h) d = Pick-Distinct h d.1

module _ (a : TopologyAllocator) where
  abbrev pub id_at : ℕ → Text
  id_at i = (device_at a i).id

  abbrev pub index_of : Text → ℕ
  index_of id = index_or_zero (lookup id a.by_id)

  pub candidates_from-ids :
      (excluded : List Text) (i : ℕ) (ds : List AllocationDevice)
      → drop i a.devices ≡ ds
      → map id_at (candidates_from excluded i ds) ≡ left_over excluded (map (λ d. d.id) ds)
  unfolding candidates_from device_at
  candidates_from-ids excluded i [] h = refl
  candidates_from-ids excluded i (d ∷ ds) h =
      let (e, f) = drop-cons a.devices ds i d no_device h in
      ground (arith, candidates_from-ids excluded (i + 1) ds f)

  add_ids-chosen :
      (s : State) (ids : List Text)
      → ((add_ids a s ids).chosen ≡ s.chosen ++ map index_of ids)
        × ((add_ids a s ids).best ≡ s.best)
  unfolding add_ids add
  add_ids-chosen s [] = (sym (append-nil s.chosen), refl)
  add_ids-chosen s (id ∷ ids) =
      let (e, f) = add_ids-chosen (add a s (index_of id)) ids in
      (e ∙ append_assoc s.chosen (index_of id ∷ []) (map index_of ids), f)

  abbrev pub candidates : List Text → List ℕ
  candidates selected = candidates_from selected 0 a.devices

  -- What the search may store: the selected devices, and a pick of the candidates.
  abbrev pub Extends : List Text → ℕ → List ℕ → Type 0
  Extends selected remaining b =
      (p : List ℕ) × (b ≡ map index_of selected ++ p) × Pick remaining (candidates selected) p

  pub search_all-best :
      (selected : List Text) (remaining : ℕ)
      → remaining ≤ length (candidates selected)
      → (b : List ℕ) × ((search_all a selected remaining).best ≡ some b)
        × Extends selected remaining b
  unfolding search_all prepare_bounds
  search_all-best selected remaining fits =
      let setup = prepare_bounds a (candidates selected) in
      let s = add_ids a (initial_state a) selected in
      let (chosen, best) = add_ids-chosen (initial_state a) selected in
      Holds-some (Extends selected remaining) _
        (search-Holds (Extends selected remaining) setup 0 remaining s (omega arith)
          (λ p k. (p, ap (λ l. l ++ p) chosen, k))
          (subst (Holds (Extends selected remaining)) (sym best) tt))
        (search-IsSome setup 0 remaining s (omega arith) best)
