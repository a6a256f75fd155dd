-- ===== src/Allocator/Select/Requests.antt =====
-- The checks of a request: `availableDevices` and `validateMustInclude`.
use k8s_device_plugin.Prelude.{
  ℕ, ◌≤◌, true, false, List, [], ◌∷◌, ◌++◌, none, some, ◌≡◌, refl, ap, ◌⊎◌, inl, inr, arith, length,
  has, Within, has-append, ==_iff, ==_refl, Bool-cases, Option-cases,
}
use k8s_device_plugin.Prelude.Texts.{Text, text_eq}
use k8s_device_plugin.Prelude.Dict.{
  Dict, lookup, insert, keys, lookup_of_has, has_of_lookup, lookup-none_iff,
}
use k8s_device_plugin.Go.Result.{ok, Result-cases}
use k8s_device_plugin.Device.{NpuDevice}
use k8s_device_plugin.Allocator.Select.{
  normalize_from, normalize_must_include, validate_from, check_required, validate_must_include,
  available_from, available_devices,
}

-- A key that the map has not goes to the end.
keys-insert :
    (k : Text) (d : NpuDevice) (m : Dict Text NpuDevice)
    → has k (keys m) ≡ false
    → keys (insert k d m) ≡ keys m ++ k ∷ []
unfolding insert
keys-insert k d [] h = refl
keys-insert k d ((j, e) ∷ m) h = ground (arith, keys-insert k d m)

lookup-has_cases :
    (k : Text) (m : Dict Text NpuDevice)
    → ((lookup k m ≡ none) × (has k (keys m) ≡ false))
      ⊎ ((d : NpuDevice) × (lookup k m ≡ some d) × (has k (keys m) ≡ true))
lookup-has_cases k m = elim (Option-cases (lookup k m)) [
  | inl e ↦ inl (e, lookup-none_iff k m e)
  | inr (d, e) ↦ inr (d, e, has_of_lookup k d m e)
]

Within-cons :
    (id : Text) (ids known : List Text)
    → has id known ≡ true
    → Within ids known
    → Within (id ∷ ids) known
Within-cons id ids known h w a k = ground (arith, w a, ==_iff id a)

Within-snoc :
    (id : Text) (ids known : List Text)
    → has id known ≡ true
    → Within ids known
    → Within (ids ++ id ∷ []) known
Within-snoc id ids known h w a k = ground (arith, w a, ==_iff id a, has-append a ids (id ∷ []))

module _ (managed : Dict Text NpuDevice) where
  -- The keys of the available devices are the IDs of the request, each once.
  available_from-keys :
      (acc av : Dict Text NpuDevice) (ids : List Text)
      → available_from managed acc ids ≡ ok av
      → keys av ≡ normalize_from (keys acc) ids
  unfolding available_from normalize_from
  available_from-keys acc av [] h = ap keys (ground arith)
  available_from-keys acc av (id ∷ ids) h = elim (lookup-has_cases id acc) [
    | inl (e, new) ↦ elim (Option-cases (lookup id managed)) [
      | inl missing ↦ absurd (ground arith)
      | inr (d, found) ↦
          ground (arith, available_from-keys (insert id d acc) av ids, keys-insert id d acc new)
    ]
    | inr (d, e, old) ↦ ground (arith, available_from-keys acc av ids)
  ]

  pub available_devices-keys :
      (av : Dict Text NpuDevice) (ids : List Text)
      → available_devices managed ids ≡ ok av
      → keys av ≡ normalize_must_include ids
  unfolding available_devices normalize_must_include
  available_devices-keys av ids h = available_from-keys [] av ids h

  -- An ID that the resource does not manage is the only refusal.
  available_from-ok :
      (acc : Dict Text NpuDevice) (ids : List Text)
      → Within ids (keys managed)
      → (av : Dict Text NpuDevice) × (available_from managed acc ids ≡ ok av)
  unfolding available_from
  available_from-ok acc [] w = (acc, refl)
  available_from-ok acc (id ∷ ids) w = elim (lookup-has_cases id acc) [
    | inl (e, new) ↦
        let (d, found) = lookup_of_has id managed (w id (ground (arith, ==_refl id))) in
        let (av, h) = available_from-ok (insert id d acc) ids (λ a k. w a (ground arith)) in
        (av, ground arith)
    | inr (d, e, old) ↦
        let (av, h) = available_from-ok acc ids (λ a k. w a (ground arith)) in (av, ground arith)
  ]

  available_from-Within :
      (acc av : Dict Text NpuDevice) (ids : List Text)
      → available_from managed acc ids ≡ ok av
      → Within (keys acc) (keys managed)
      → Within ids (keys managed)
  unfolding available_from
  available_from-Within acc av [] h w = λ a k. absurd (ground arith)
  available_from-Within acc av (id ∷ ids) h w = elim (lookup-has_cases id acc) [
    | inl (e, new) ↦ elim (lookup-has_cases id managed) [
      | inl (missing, _) ↦ absurd (ground arith)
      | inr (d, found, there) ↦ Within-cons id ids (keys managed) there (
          available_from-Within (insert id d acc) av ids (ground arith)
            (rw (keys-insert id d acc new) (Within-snoc id (keys acc) (keys managed) there w)))
    ]
    | inr (d, e, old) ↦
        Within-cons id ids (keys managed) (w id old)
          (available_from-Within acc av ids (ground arith) w)
  ]

  -- The request is granted exactly when the resource manages all of its devices.
  pub available_devices-Within :
      (av : Dict Text NpuDevice) (ids : List Text)
      → available_devices managed ids ≡ ok av
      → Within ids (keys managed)
  unfolding available_devices
  available_devices-Within av ids h =
      available_from-Within [] av ids h (λ a k. absurd (ground arith))

  pub available_devices-ok :
      (ids : List Text)
      → Within ids (keys managed)
      → (av : Dict Text NpuDevice) × (available_devices managed ids ≡ ok av)
  unfolding available_devices
  available_devices-ok ids w = available_from-ok [] ids w

module _ (available : Dict Text NpuDevice) where
  validate_from-ok :
      (seen ids : List Text)
      → Within ids (keys available)
      → validate_from available seen ids ≡ ok (normalize_from seen ids)
  unfolding validate_from normalize_from
  validate_from-ok seen [] w = refl
  validate_from-ok seen (id ∷ ids) w =
      let (d, found) = lookup_of_has id available (w id (ground (arith, ==_refl id))) in
      ground (
        arith,
        validate_from-ok seen ids (λ a k. w a (ground arith)),
        validate_from-ok (seen ++ id ∷ []) ids (λ a k. w a (ground arith)),
      )

  validate_from-Within :
      (seen all ids : List Text)
      → validate_from available seen ids ≡ ok all
      → Within seen (keys available)
      → Within ids (keys available)
  unfolding validate_from
  validate_from-Within seen all [] h w = λ a k. absurd (ground arith)
  validate_from-Within seen all (id ∷ ids) h w = elim (Bool-cases (has id seen)) [
    | inl old ↦
        Within-cons id ids (keys available) (w id old)
          (validate_from-Within seen all ids (ground arith) w)
    | inr new ↦ elim (lookup-has_cases id available) [
      | inl (missing, _) ↦ absurd (ground arith)
      | inr (d, found, there) ↦ Within-cons id ids (keys available) there (
          validate_from-Within (seen ++ id ∷ []) all ids (ground arith)
            (Within-snoc id seen (keys available) there w))
    ]
  ]

  pub validate-ok :
      (ids : List Text) (size : ℕ)
      → Within ids (keys available)
      → length (normalize_must_include ids) ≤ size
      → validate_must_include available ids size ≡ ok tt
  unfolding validate_must_include check_required normalize_must_include
  validate-ok ids size w fits = rw (validate_from-ok [] ids w) (ground arith)

  pub validate-Within :
      (ids : List Text) (size : ℕ)
      → validate_must_include available ids size ≡ ok tt
      → Within ids (keys available) × (length (normalize_must_include ids) ≤ size)
  unfolding validate_must_include check_required normalize_must_include
  validate-Within ids size h = elim (Result-cases (validate_from available [] ids)) [
    | inl (all, e) ↦
        let w : Within ids (keys available) =
          validate_from-Within [] all ids e (λ a k. absurd (ground arith)) in
        (w, ground (arith, validate_from-ok [] ids w))
    | inr (failure, e) ↦ absurd (ground arith)
  ]
