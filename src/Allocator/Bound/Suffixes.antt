-- ===== src/Allocator/Bound/Suffixes.antt =====
-- What `prepareBounds` keeps of the candidates that are left.
use k8s_device_plugin.Prelude.{
  get_or-replicate, ℕ, zero, suc, ◌+◌, ◌-◌, ◌≤◌, ◌<◌, Bool, Option-cases, List, [], ◌∷◌, ◌≡◌, refl,
  ap, ◌∙◌, inl, inr, arith, length, get_or, get_or-set, length-set, length-replicate, drop,
  nat_beq_iff, if◌then◌else◌,
}
use k8s_device_plugin.Allocator.Model.{AllocationDevice, TopologyAllocator}
use k8s_device_plugin.Allocator.Search.{device_at, increment}
use k8s_device_plugin.Allocator.Policy.{count, sids, without_numa, without_pci}
use k8s_device_plugin.Allocator.Bound.{has_numa, suffix_sids, suffix_known}
use k8s_device_plugin.Allocator.Backtrack.Picks.{Pick, stop, taken, skipped}

module _ (a : TopologyAllocator) where
  -- The room of each group is what the candidates have of it.
  pub record IsRoom (groups : ℕ) (cs room : List ℕ) : Type 0 where
    pub size : length room ≡ groups
    pub counted : (j : ℕ) → j < groups → get_or room j 0 ≡ count j (sids a cs)

  suffix_sids-first :
      (groups : ℕ) (cs : List ℕ) → IsRoom groups cs (get_or (suffix_sids a groups cs) 0 [])
  unfolding suffix_sids increment sids count
  suffix_sids-first groups [] = record {
    size = length-replicate {A = ℕ} groups 0;
    counted = λ j k. get_or-replicate groups j;
  }
  suffix_sids-first groups (c ∷ cs) =
      let v = suffix_sids-first groups cs in
      let room = get_or (suffix_sids a groups cs) 0 [] in
      let sid = (device_at a c).sid in
      record {
        size = length-set room sid (get_or room sid 0 + 1) ∙ v.size;
        counted = λ j k.
            let now = get_or-set room sid j (get_or room sid 0 + 1) 0 (omega (arith, k, v.size)) in
            ground (arith, now, v.counted j k, ap (λ i. get_or room i 0), nat_beq_iff sid j);
      }

  suffix_sids-drop :
      (groups : ℕ) (cs : List ℕ) (i : ℕ)
      → i ≤ length cs
      → get_or (suffix_sids a groups cs) i [] ≡ get_or (suffix_sids a groups (drop i cs)) 0 []
  unfolding suffix_sids
  suffix_sids-drop groups cs zero h = refl
  suffix_sids-drop groups [] (suc i) h = absurd (omega (arith, h))
  suffix_sids-drop groups (c ∷ cs) (suc i) h = suffix_sids-drop groups cs i (omega (arith, h))

  pub suffix_sids-IsRoom :
      (groups : ℕ) (cs : List ℕ) (i : ℕ)
      → i ≤ length cs
      → IsRoom groups (drop i cs) (get_or (suffix_sids a groups cs) i [])
  suffix_sids-IsRoom groups cs i h =
      rw (suffix_sids-drop groups cs i h) (suffix_sids-first groups (drop i cs))

  pub count-Pick :
      (j : ℕ) {n : ℕ} {cs p : List ℕ} → Pick n cs p → count j (sids a p) ≤ count j (sids a cs)
  unfolding count sids
  count-Pick j stop = omega arith
  count-Pick j (taken h) = ground (arith, count-Pick j h)
  count-Pick j (skipped h) = ground (arith, count-Pick j h)

  -- How many of the devices pass the test.
  unfoldable pub passing : (AllocationDevice → Bool) → List ℕ → ℕ
  passing test [] = 0
  passing test (i ∷ is) =
      let rest = passing test is in if test (device_at a i) then rest + 1 else rest

  suffix_known-first :
      (test : AllocationDevice → Bool) (cs : List ℕ)
      → get_or (suffix_known test a cs) 0 0 ≡ passing test cs
  unfolding suffix_known passing
  suffix_known-first test [] = refl
  suffix_known-first test (c ∷ cs) = ground (arith, suffix_known-first test cs)

  suffix_known-drop :
      (test : AllocationDevice → Bool) (cs : List ℕ) (i : ℕ)
      → i ≤ length cs
      → get_or (suffix_known test a cs) i 0 ≡ passing test (drop i cs)
  unfolding suffix_known
  suffix_known-drop test cs zero h = suffix_known-first test cs
  suffix_known-drop test [] (suc i) h = absurd (omega (arith, h))
  suffix_known-drop test (c ∷ cs) (suc i) h = suffix_known-drop test cs i (omega (arith, h))

  passing-Pick :
      (test : AllocationDevice → Bool) {n : ℕ} {cs p : List ℕ}
      → Pick n cs p
      → passing test p ≤ passing test cs
  unfolding passing
  passing-Pick test stop = omega arith
  passing-Pick test (taken h) = ground (arith, passing-Pick test h)
  passing-Pick test (skipped h) = ground (arith, passing-Pick test h)

  passing-numa : (is : List ℕ) → passing has_numa is + without_numa a is ≡ length is
  unfolding passing without_numa
  passing-numa [] = refl
  passing-numa (i ∷ is) = elim (Option-cases (device_at a i).numa) [
    | inl e ↦ ground (arith, e, passing-numa is)
    | inr (n, e) ↦ ground (arith, e, passing-numa is)
  ]

  pub passing-pci : (is : List ℕ) → passing (λ d. d.has_pci) is + without_pci a is ≡ length is
  unfolding passing without_pci
  passing-pci [] = refl
  passing-pci (i ∷ is) = ground (arith, passing-pci is)

  -- A pick has at least as many devices of unknown node, or path, as the bound adds.
  module _ (cs : List ℕ) (i : ℕ) (fits : i ≤ length cs) where
    pub without_numa-Pick :
        {n : ℕ} {p : List ℕ}
        → Pick n (drop i cs) p
        → length p - get_or (suffix_known has_numa a cs) i 0 ≤ without_numa a p
    without_numa-Pick {p = p} h =
        omega (arith, suffix_known-drop has_numa cs i fits, passing-Pick has_numa h, passing-numa p)

    pub without_pci-Pick :
        {n : ℕ} {p : List ℕ}
        → Pick n (drop i cs) p
        → length p - get_or (suffix_known (λ d. d.has_pci) a cs) i 0 ≤ without_pci a p
    without_pci-Pick {p = p} h = omega (
      arith,
      suffix_known-drop (λ d. d.has_pci) cs i fits,
      passing-Pick (λ d. d.has_pci) h,
      passing-pci p,
    )
