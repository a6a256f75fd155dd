-- ===== src/Inventory/Changes.antt =====
-- `diffDeviceInventories` is silent exactly when nothing that it reports has changed.
use k8s_device_plugin.Prelude.{
  true, false, List, [], ◌∷◌, ◌++◌, Option, none, some, ◌≡◌, refl, ap, sym, ◌∙◌, ◌↔◌, inl, inr,
  arith, Option-cases, Bool-cases, has, ==_iff, ==_refl, ◌==◌,
}
use k8s_device_plugin.Prelude.Texts.{Text, text_eq, text_beq_iff}
use k8s_device_plugin.Prelude.Sorting.{has-sort, text_order}
use k8s_device_plugin.Prelude.Dict.{Dict, lookup, keys, has_of_lookup, lookup_of_has}
use k8s_device_plugin.Device.{NpuDevice, sorted_device_ids}
use k8s_device_plugin.Inventory.{
  DeviceInventoryDelta, is_nil, is_empty, compare_device, compare_all, missing_from,
  diff_device_inventories,
}

-- What a scan reports of a device: whether it is there, its health and its status.
abbrev pub reported : Option NpuDevice → Option (Text × Text)
reported none = none
reported (some d) = some (d.health, d.status_name)

abbrev Silent : DeviceInventoryDelta → Type 0
Silent d = (is_nil d.added ≡ true) × (is_nil d.changed ≡ true)

is_nil-snoc {ℓ} : {A : Type ℓ} (xs : List A) (x : A) → is_nil (xs ++ x ∷ []) ≡ false
is_nil-snoc [] x = refl
is_nil-snoc (y ∷ xs) x = refl

-- One comparison is silent if nothing was reported before and the device is as it was.
compare_device-Silent :
    (before : Option NpuDevice) (d : NpuDevice) (delta : DeviceInventoryDelta)
    → Silent (compare_device before d delta)
    → Silent delta × (reported before ≡ some (d.health, d.status_name))
unfolding compare_device
compare_device-Silent none d delta h = absurd (ground (arith, is_nil-snoc delta.added d))
compare_device-Silent (some b) d delta h = ground (
  arith,
  text_beq_iff b.health d.health,
  text_beq_iff b.status_name d.status_name,
  is_nil-snoc delta.changed
      (record { device = d; previous_health = b.health; previous_status = b.status_name }),
)

compare_device-keeps :
    (before : Option NpuDevice) (d : NpuDevice) (delta : DeviceInventoryDelta)
    → reported before ≡ some (d.health, d.status_name)
    → compare_device before d delta ≡ delta
unfolding compare_device
compare_device-keeps none d delta h = ground arith
compare_device-keeps (some b) d delta h =
    ground (arith, text_beq_iff b.health d.health, text_beq_iff b.status_name d.status_name)

module _ (previous current : Dict Text NpuDevice) where
  -- A device that is there now was there with the same report.
  abbrev Kept : Text → Type 0
  Kept id =
      (d : NpuDevice)
      → lookup id current ≡ some d
      → reported (lookup id previous) ≡ some (d.health, d.status_name)

  compare_all-Silent :
      (ids : List Text) (delta : DeviceInventoryDelta)
      → Silent (compare_all previous current ids delta)
      → Silent delta × ((id : Text) → has id ids ≡ true → Kept id)
  unfolding compare_all
  compare_all-Silent [] delta h = (h, λ id k. absurd (ground arith))
  compare_all-Silent (j ∷ ids) delta h = elim (Option-cases (lookup j current)) [
    | inl e ↦
        let (quiet, kept) = compare_all-Silent ids delta (rw (e, compare_all) at h) in
        (quiet, λ id k d f. kept id (ground (arith, ==_iff j id)) d f)
    | inr (c, e) ↦
        let (quiet, kept) =
          compare_all-Silent ids (compare_device (lookup j previous) c delta)
            (rw (e, compare_all) at h) in
        let (before, same) = compare_device-Silent (lookup j previous) c delta quiet in
        (
          before,
          λ id k d f. elim (Bool-cases (j == id)) [
            | inl this ↦ ground (arith, ==_iff j id)
            | inr other ↦ kept id (ground arith) d f
          ],
        )
  ]

  compare_all-keeps :
      (ids : List Text) (delta : DeviceInventoryDelta)
      → ((id : Text) → has id ids ≡ true → Kept id)
      → compare_all previous current ids delta ≡ delta
  unfolding compare_all
  compare_all-keeps [] delta kept = refl
  compare_all-keeps (j ∷ ids) delta kept =
      let rest = compare_all-keeps ids delta (λ id k. kept id (ground arith)) in
      elim (Option-cases (lookup j current)) [
        | inl e ↦ rw (e, compare_all) rest
        | inr (c, e) ↦
            rw
              (
                e,
                compare_all,
                compare_device-keeps (lookup j previous) c delta
                    (kept j (ground (arith, ==_refl j)) c e),
              )
              rest
      ]

module _ (current : Dict Text NpuDevice) where
  missing_from-nil :
      (ids : List Text)
      → is_nil (missing_from current ids) ≡ true
      → (id : Text) → has id ids ≡ true
      → lookup id current ≡ none
      → ⊥
  unfolding missing_from
  missing_from-nil [] h id k e = ground arith
  missing_from-nil (j ∷ ids) h id k e = elim (Option-cases (lookup j current)) [
    | inl f ↦ ground arith
    | inr (d, f) ↦ missing_from-nil ids (ground arith) id (ground (arith, ==_iff j id)) e
  ]

  nil-missing_from :
      (ids : List Text)
      → ((id : Text) → has id ids ≡ true → lookup id current ≡ none → ⊥)
      → missing_from current ids ≡ []
  unfolding missing_from
  nil-missing_from [] h = refl
  nil-missing_from (j ∷ ids) h =
      let rest = nil-missing_from ids (λ id k. h id (ground arith)) in
      elim (Option-cases (lookup j current)) [
        | inl e ↦ absurd (h j (ground (arith, ==_refl j)) e)
        | inr (d, e) ↦ rw (e, missing_from) rest
      ]

has-sorted : (id : Text) (m : Dict Text NpuDevice) → has id (sorted_device_ids m) ≡ has id (keys m)
unfolding sorted_device_ids
has-sorted id m = has-sort id (keys m)

module _ (previous current : Dict Text NpuDevice) where
  abbrev pub Unchanged : Type 0
  Unchanged = (id : Text) → reported (lookup id previous) ≡ reported (lookup id current)

  empty→Unchanged : is_empty (diff_device_inventories previous current) ≡ true → Unchanged
  unfolding is_empty diff_device_inventories
  empty→Unchanged h id =
      let (_, kept) =
        compare_all-Silent previous current (sorted_device_ids current)
          (record { added = []; removed = []; changed = [] }) (ground arith) in
      elim (Option-cases (lookup id current)) [
        | inr (d, e) ↦ rw e (kept id (has-sorted id current ∙ has_of_lookup id d current e) d e)
        | inl e ↦ elim (Option-cases (lookup id previous)) [
          | inl f ↦ ap reported (f ∙ sym e)
          | inr (d, f) ↦ absurd (
              missing_from-nil current (sorted_device_ids previous) (ground arith) id
                (has-sorted id previous ∙ has_of_lookup id d previous f) e)
        ]
      ]

  Unchanged→empty : Unchanged → is_empty (diff_device_inventories previous current) ≡ true
  unfolding is_empty diff_device_inventories
  Unchanged→empty same = rw (
    compare_all-keeps previous current (sorted_device_ids current)
        (record { added = []; removed = []; changed = [] }) (λ id k d e. same id ∙ ap reported e),
    nil-missing_from current (sorted_device_ids previous) (λ id k e.
        let (d, f) = lookup_of_has id previous (sym (has-sorted id previous) ∙ k) in
        let clash : reported (some d) ≡ none = sym (ap reported f) ∙ same id ∙ ap reported e in cc),
  )

  -- The delta is empty exactly when every ID reports the same in both inventories.
  pub is_empty_iff : (is_empty (diff_device_inventories previous current) ≡ true) ↔ Unchanged
  is_empty_iff = (empty→Unchanged, Unchanged→empty)
