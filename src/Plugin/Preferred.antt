-- ===== src/Plugin/Preferred.antt =====
-- What `GetPreferredAllocation` answers.
use k8s_device_plugin.Prelude.{
  ℕ, List, [], ◌∷◌, ◌≡◌, refl, sym, ap, ◌⊎◌, inl, inr, ◌∙◌, arith, subst,
}
use k8s_device_plugin.Prelude.Texts.{Text}
use k8s_device_plugin.Prelude.Dict.{keys}
use k8s_device_plugin.Go.Int.{ℤ, pos, negsuc, ℤ-cases, pos-inj}
use k8s_device_plugin.Go.Result.{Result, ok, err, Result-cases}
use k8s_device_plugin.Go.Host.{Host}
use k8s_device_plugin.Allocator.Select.{SelectError, negative_size, select_preferred_device_ids}
use k8s_device_plugin.Allocator.Select.Granted.{IsChoice}
use k8s_device_plugin.Allocator.Select.Choice.{
  IsFeasible, select_preferred-IsChoice, select_preferred-ok,
}
use k8s_device_plugin.Plugin.{
  Plugin, PreferredRequest, or_fallback, preferred_for, get_preferred_allocation,
}

-- The size of the request is a natural number for which it is feasible.
pub record IsMet (p : Plugin) (r : PreferredRequest) (size : ℕ) : Type 0 where
  pub sized : r.allocation_size ≡ pos size
  pub feasible : IsFeasible (keys p.devices) r.available r.must_include size

-- A feasible request has a choice for its answer, and any other an empty one.
abbrev pub IsAnswer : Plugin → PreferredRequest → List Text → Type 0
IsAnswer p r ids =
    ((size : ℕ) × IsMet p r size × IsChoice r.available r.must_include size ids)
    ⊎ (((size : ℕ) → ¬ IsMet p r size) × (ids ≡ []))

-- One answer for each request, in their order.
pub data Answers (p : Plugin) : List PreferredRequest → List (List Text) → Type 0 where
  answered : Answers p [] []
  answer :
      {r : PreferredRequest} {rs : List PreferredRequest} {ids : List Text}
      {rest : List (List Text)}
      → IsAnswer p r ids
      → Answers p rs rest
      → Answers p (r ∷ rs) (ids ∷ rest)

module _ (host : Host) (p : Plugin) where
  refused-not_IsMet :
      (r : PreferredRequest) (size : ℕ) (failure : SelectError)
      → r.allocation_size ≡ pos size
      → select_preferred_device_ids host p.devices r.available r.must_include (pos size)
        ≡ err failure
      → (n : ℕ) → ¬ IsMet p r n
  refused-not_IsMet r size failure e refused n h =
      let (ids, granted, c) =
        select_preferred-ok host p.devices r.available r.must_include n h.feasible in
      absurd (ground (arith, pos-inj (sym e ∙ h.sized), granted, refused))

  preferred_for-result :
      (r : PreferredRequest) (z : ℤ) (res : Result SelectError (List Text))
      → r.allocation_size ≡ z
      → select_preferred_device_ids host p.devices r.available r.must_include z ≡ res
      → IsAnswer p r (or_fallback res)
      → IsAnswer p r (preferred_for host p r)
  unfolding preferred_for
  preferred_for-result r z res e f known =
      let select = select_preferred_device_ids host p.devices r.available r.must_include in
      subst (λ y. IsAnswer p r (or_fallback y)) (sym (ap select e ∙ f)) known

  preferred_for-IsAnswer : (r : PreferredRequest) → IsAnswer p r (preferred_for host p r)
  unfolding select_preferred_device_ids
  preferred_for-IsAnswer r = elim (ℤ-cases r.allocation_size) [
    | inl (size, e) ↦
        elim (Result-cases
          (select_preferred_device_ids host p.devices r.available r.must_include (pos size))) [
            | inl (ids, granted) ↦
                let (f, c) =
                  select_preferred-IsChoice host p.devices r.available r.must_include size ids
                    granted in
                preferred_for-result r (pos size) (ok ids) e granted
                  (inl (size, record { sized = e; feasible = f }, c))
            | inr (failure, refused) ↦
                preferred_for-result r (pos size) (err failure) e refused
                  (inr (refused-not_IsMet r size failure e refused, refl))
          ]
    | inr (n, e) ↦
        preferred_for-result r (negsuc n) (err negative_size) e refl
          (inr ((λ m h. absurd (ground (arith, sym e ∙ h.sized))), refl))
  ]

  -- `GetPreferredAllocation` answers every request, in their order: a feasible one with a choice of
  -- its size, and any other with no devices.
  pub get_preferred_allocation-Answers :
      (rs : List PreferredRequest) → Answers p rs (get_preferred_allocation host p rs)
  unfolding get_preferred_allocation
  get_preferred_allocation-Answers [] = answered
  get_preferred_allocation-Answers (r ∷ rs) =
      answer (preferred_for-IsAnswer r) (get_preferred_allocation-Answers rs)
