-- ===== src/Allocator/Select/Choice.antt =====
-- What `selectPreferredDeviceIDs` returns, whatever the host, the scores and the bound are.
use k8s_device_plugin.Prelude.{
  ℕ, ◌≤◌, false, List, ◌≡◌, ap, sym, subst, ◌∙◌, inl, inr, arith, length, has, Within, ltb,
}
use k8s_device_plugin.Prelude.Texts.{Text, text_eq}
use k8s_device_plugin.Prelude.Sorting.{text_order}
use k8s_device_plugin.Prelude.Dict.{Dict, keys, IsMap, length-keys}
use k8s_device_plugin.Go.Int.{pos}
use k8s_device_plugin.Go.Result.{ok, Result-cases}
use k8s_device_plugin.Go.Host.{Host}
use k8s_device_plugin.Device.{NpuDevice}
use k8s_device_plugin.Allocator.Select.{
  choose_preferred, prefer_available, select_preferred_device_ids, normalize_must_include,
  available_devices, validate_must_include,
}
use k8s_device_plugin.Allocator.Select.Entries.{has-normalize, normalize-Distinct}
use k8s_device_plugin.Allocator.Select.Requests.{
  available_devices-keys, available_devices-Within, available_devices-ok, validate-ok,
  validate-Within,
}
use k8s_device_plugin.Allocator.Select.Granted.{IsChoice, choose_preferred-IsChoice}

ltb-of_le : (a b : ℕ) → a ≤ b → ltb b a ≡ false
ltb-of_le a b h = ground arith

-- A request is met where the resource manages the available devices, they include the required
-- ones, and there are enough of them and not too many required.
pub record IsFeasible (managed available required : List Text) (size : ℕ) : Type 0 where
  pub managed_all : Within available managed
  pub required_known : Within required available
  pub enough : length (normalize_must_include required) ≤ size
  pub fits : size ≤ length (normalize_must_include available)

-- Between the keys of the available devices and the IDs of the request.
module _ (av : Dict Text NpuDevice) (available : List Text)
    (same : keys av ≡ normalize_must_include available) where
  keys-once : IsMap av
  keys-once = rw same (normalize-Distinct available)

  has-keys : (id : Text) → has id (keys av) ≡ has id available
  has-keys id = ap (has id) same ∙ has-normalize available id

  length-available : length av ≡ length (normalize_must_include available)
  length-available = sym (length-keys av) ∙ ap length same

  of-keys :
      {required ids : List Text} {size : ℕ}
      → IsChoice (keys av) required size ids
      → IsChoice available required size ids
  of-keys c = record {
    exact = c.exact;
    distinct = c.distinct;
    complete = c.complete;
    sound = λ id h. sym (has-keys id) ∙ c.sound id h;
  }

  choose-available :
      (host : Host) (required : List Text) (size : ℕ)
      → Within required available
      → length (normalize_must_include required) ≤ size
      → size ≤ length (normalize_must_include available)
      → (ids : List Text) × (prefer_available host required size (ok av) ≡ ok ids)
        × (choose_preferred host av required size ≡ ok ids)
        × IsChoice available required size ids
  unfolding prefer_available
  choose-available host required size known enough fits =
      let known' : Within required (keys av) = λ id h. has-keys id ∙ known id h in
      let (ids, e, c) =
        choose_preferred-IsChoice host av required size keys-once known' enough
          (omega (arith, length-available, length-keys av)) in
      (
        ids,
        rw
            (
              ltb-of_le size (length av) (omega (arith, length-available)),
              validate-ok av required size known' enough,
            )
            e,
        e,
        of-keys c,
      )

module _ (host : Host) (managed : Dict Text NpuDevice) (available required : List Text)
    (size : ℕ) where
  -- A feasible request is granted, with a choice.
  pub select_preferred-ok :
      IsFeasible (keys managed) available required size
      → (ids : List Text) × (select_preferred_device_ids host managed available required (pos size)
          ≡ ok ids)
        × IsChoice available required size ids
  unfolding select_preferred_device_ids
  select_preferred-ok h =
      let (av, e) = available_devices-ok managed available h.managed_all in
      let (ids, granted, _, c) =
        choose-available av available (available_devices-keys managed av available e) host required
          size h.required_known h.enough h.fits in
      (ids, rw e granted, c)

  prefer_available-IsFeasible :
      (av : Dict Text NpuDevice) (ids : List Text)
      → available_devices managed available ≡ ok av
      → prefer_available host required size (ok av) ≡ ok ids
      → IsFeasible (keys managed) available required size
  unfolding prefer_available
  prefer_available-IsFeasible av ids e h =
      let same = available_devices-keys managed av available e in
      elim (Result-cases (validate_must_include av required size)) [
        | inl (_, valid) ↦
            let (known, enough) = validate-Within av required size valid in
            record {
              managed_all = available_devices-Within managed av available e;
              required_known = λ id k. sym (has-keys av available same id) ∙ known id k;
              enough = enough;
              fits = ground (arith, length-available av available same);
            }
        | inr (_, invalid) ↦ absurd (ground arith)
      ]

  -- Only a feasible request is granted, and then with a choice.
  pub select_preferred-IsChoice :
      (ids : List Text)
      → select_preferred_device_ids host managed available required (pos size) ≡ ok ids
      → IsFeasible (keys managed) available required size × IsChoice available required size ids
  unfolding select_preferred_device_ids prefer_available
  select_preferred-IsChoice ids h = elim (Result-cases (available_devices managed available)) [
    | inl (av, e) ↦
        let f = prefer_available-IsFeasible av ids e (rw e at h) in
        let (ids', granted, c) = select_preferred-ok f in
        (f, subst (IsChoice available required size) (ground arith) c)
    | inr (failure, e) ↦ absurd (ground arith)
  ]
