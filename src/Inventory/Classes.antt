-- ===== src/Inventory/Classes.antt =====
-- Who is advertised at all: the classes of `resourceForDevice` and what sysfs makes of them.
use k8s_device_plugin.Prelude.{
  ℕ, [], some, ◌≡◌, ◌≢◌, refl, ap, ◌∙◌, ◌⊎◌, ◌↔◌, inl, inr, arith, Bool-cases,
}
use k8s_device_plugin.Prelude.Texts.{Text, str, text_beq}
use k8s_device_plugin.Go.Int.{ℤ, pos, negsuc}
use k8s_device_plugin.Go.Result.{ok, Result-cases}
use k8s_device_plugin.Go.Filepath.{base}
use k8s_device_plugin.Go.Host.{Host, FileError-cases}
use k8s_device_plugin.Device.{Device}
use k8s_device_plugin.Sriov.{
  SriovClass, SriovInfo, not_partitioned, vf, hosting_pf, probe_vf, probe_pf, probe_present,
  probe_sriov, read_sriov_num_vfs, vf_resource_name, physfn_path,
}
use k8s_device_plugin.Inventory.{resource_for_device, classify}

-- The three resources, each for one class.
pub data IsAdvertised (i : SriovInfo) (name : Text) : Type 0 where
  whole : i.class ≡ not_partitioned → name ≡ str "rebellions.ai/npu" → IsAdvertised i name
  vf_1 : i.class ≡ vf → i.num_vfs ≡ pos 1 → name ≡ str "rebellions.ai/npu-vf1" → IsAdvertised i name
  vf_4 : i.class ≡ vf → i.num_vfs ≡ pos 4 → name ≡ str "rebellions.ai/npu-vf4" → IsAdvertised i name

-- What the parent of a function must be: an address for a VF, nothing else otherwise.
abbrev pub IsParented : SriovInfo → Type 0
IsParented i = (i.class ≡ vf → i.parent_pf_bus_id ≢ []) × (i.class ≢ vf → i.parent_pf_bus_id ≡ [])

base-ne_nil : (p : Text) → base p ≢ []
unfolding base
base-ne_nil p h = ground arith

probe_vf-IsParented :
    (host : Host) (b t : Text) (i : SriovInfo) → probe_vf host b t ≡ ok i → IsParented i
unfolding probe_vf
probe_vf-IsParented host b t i h = elim (Result-cases (read_sriov_num_vfs host (base t))) [
  | inl (n, e) ↦ (λ c p. base-ne_nil t (ground arith), λ c. absurd (ground arith))
  | inr (failure, e) ↦ absurd (ground arith)
]

probe_pf-IsParented :
    (host : Host) (b : Text) (i : SriovInfo) → probe_pf host b ≡ ok i → IsParented i
unfolding probe_pf
probe_pf-IsParented host b i h = ground arith

probe_present-IsParented :
    (host : Host) (b : Text) (i : SriovInfo) → probe_present host b ≡ ok i → IsParented i
unfolding probe_present
probe_present-IsParented host b i h = elim (Result-cases (host.lstat (physfn_path b))) [
  | inl (_, e) ↦ elim (Result-cases (host.readlink (physfn_path b))) [
    | inl (t, f) ↦ probe_vf-IsParented host b t i (ground arith)
    | inr (failure, f) ↦ absurd (ground arith)
  ]
  | inr (failure, e) ↦ elim (FileError-cases failure) [
    | inl missing ↦ probe_pf-IsParented host b i (ground arith)
    | inr (t, f) ↦ absurd (ground arith)
  ]
]

-- The parent's address is recorded for every VF, and for no other function.
pub probe_sriov-IsParented :
    (host : Host) (b : Text) (i : SriovInfo) → probe_sriov host b ≡ ok i → IsParented i
unfolding probe_sriov
probe_sriov-IsParented host b i h = elim (Bool-cases (text_beq b [])) [
  | inl no_address ↦ ground arith
  | inr address ↦ probe_present-IsParented host b i (ground arith)
]

only_1_or_4 : (n : ℕ) (name : Text) → vf_resource_name (pos n) ≡ ok name → (n ≡ 1) ⊎ (n ≡ 4)
unfolding vf_resource_name
only_1_or_4 n name h = ground arith

vf_resource_name-1 : vf_resource_name (pos 1) ≡ ok (str "rebellions.ai/npu-vf1")
unfolding vf_resource_name
vf_resource_name-1 = refl

vf_resource_name-4 : vf_resource_name (pos 4) ≡ ok (str "rebellions.ai/npu-vf4")
unfolding vf_resource_name
vf_resource_name-4 = refl

vf_resource_name_negative : (n : ℕ) (name : Text) → vf_resource_name (negsuc n) ≢ ok name
unfolding vf_resource_name
vf_resource_name_negative n name h = cc

vf_resource_name-cases :
    (n : ℤ) (name : Text)
    → vf_resource_name n ≡ ok name
    → ((n ≡ pos 1) × (name ≡ str "rebellions.ai/npu-vf1"))
      ⊎ ((n ≡ pos 4) × (name ≡ str "rebellions.ai/npu-vf4"))
vf_resource_name-cases (negsuc n) name h = absurd (vf_resource_name_negative n name h)
vf_resource_name-cases (pos n) name h = elim (only_1_or_4 n name h) [
  | inl e ↦ inl (ap pos e, cc vf_resource_name-1)
  | inr e ↦ inr (ap pos e, cc vf_resource_name-4)
]

resource_of_class :
    (c : SriovClass) (i : SriovInfo) (name : Text)
    → i.class ≡ c
    → resource_for_device i ≡ ok (some name)
    → IsAdvertised i name
unfolding resource_for_device
resource_of_class not_partitioned i name c h = whole c (ground arith)
resource_of_class hosting_pf i name c h = absurd (ground arith)
resource_of_class vf i name c h = elim (Result-cases (vf_resource_name i.num_vfs)) [
  | inl (m, e) ↦ elim (vf_resource_name-cases i.num_vfs m e) [
    | inl (n, l) ↦ vf_1 c n (ground arith)
    | inr (n, l) ↦ vf_4 c n (ground arith)
  ]
  | inr (n, e) ↦ absurd (ground arith)
]

resource_of_IsAdvertised :
    (i : SriovInfo) (name : Text) → IsAdvertised i name → resource_for_device i ≡ ok (some name)
unfolding resource_for_device
resource_of_IsAdvertised i name (whole c l) = ground arith
resource_of_IsAdvertised i name (vf_1 c n l) =
    ground (arith, ap vf_resource_name n ∙ vf_resource_name-1)
resource_of_IsAdvertised i name (vf_4 c n l) =
    ground (arith, ap vf_resource_name n ∙ vf_resource_name-4)

module _ (host : Host) (device : Device) (name : Text) (i : SriovInfo) where
  -- A device is classified to a resource exactly when its SR-IOV state can be read and is one of
  -- the three that are advertised.
  pub classify_iff :
      (classify host device ≡ some (name, i))
      ↔ ((probe_sriov host device.pci_bus_id ≡ ok i) × IsAdvertised i name)
  unfolding classify
  classify_iff = (there, back)
    where
      there :
          classify host device ≡ some (name, i)
          → (probe_sriov host device.pci_bus_id ≡ ok i) × IsAdvertised i name
      there h = elim (Result-cases (probe_sriov host device.pci_bus_id)) [
        | inl (j, e) ↦
            let same : j ≡ i = ground arith in
            (rw (← same) e, resource_of_class i.class i name refl (ground arith))
        | inr (failure, e) ↦ absurd (ground arith)
      ]

      back :
          (probe_sriov host device.pci_bus_id ≡ ok i) × IsAdvertised i name
          → classify host device ≡ some (name, i)
      back (e, a) = ground (arith, resource_of_IsAdvertised i name a)
