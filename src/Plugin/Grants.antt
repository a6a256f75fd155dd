-- ===== src/Plugin/Grants.antt =====
-- What `Allocate` hands out, and what the driver and the nodes said.
use k8s_device_plugin.Prelude.{
  false, List, [], ◌∷◌, map, some, Option-cases, Bool-cases, ◌≡◌, sym, subst, ap, ap₂, ◌∙◌, inl,
  inr, arith, has, ◌≢◌,
}
use k8s_device_plugin.Prelude.Texts.{Text, text_eq, text_beq}
use k8s_device_plugin.Prelude.Sorting.{sort, text_order}
use k8s_device_plugin.Prelude.Dict.{lookup}
use k8s_device_plugin.Go.Result.{ok, >>=-ok, map_err, map_err-ok, ok-inj}
use k8s_device_plugin.Device.{NpuDevice}
use k8s_device_plugin.Plugin.{Plugin}
use k8s_device_plugin.Plugin.Allocation.{
  Node, DeviceSpec, ContainerResponse, selected_devices, bus_ids_of, allocate_selected,
  allocate_container, rsd_group_failed, annotations_failed, annotate_rds, allocate,
  rds_device_present, rds_annotations_failed,
}
use k8s_device_plugin.Plugin.Nodes.{AllAppeared, specs_of, device_specs-AllAppeared}

-- The devices that a plugin manages under the IDs, in their order.
abbrev pub AreManaged : Plugin → List Text → List NpuDevice → Type 0
AreManaged p ids devices = map (λ id. lookup id p.devices) ids ≡ map (λ d. some d) devices

selected_devices-AreManaged :
    (p : Plugin) (ids : List Text) (devices : List NpuDevice)
    → selected_devices p ids ≡ ok devices
    → AreManaged p ids devices
unfolding selected_devices
selected_devices-AreManaged p [] devices h = ap (map (λ d. some d)) (ok-inj h)
selected_devices-AreManaged p (id ∷ ids) devices h = elim (Option-cases (lookup id p.devices)) [
  | inl unknown ↦ absurd (ground (arith, h, unknown))
  | inr (device, known) ↦
      let (rest, others, e) =
        >>=-ok (selected_devices p ids) (λ ds. ok (device ∷ ds)) devices
          (rw (known, selected_devices) at h) in
      ap₂ (◌∷◌) known (selected_devices-AreManaged p ids rest others)
      ∙ ap (map (λ d. some d)) (ok-inj e)
]

bus_ids_of-map :
    (devices : List NpuDevice) (bus_ids : List Text)
    → bus_ids_of devices ≡ ok bus_ids
    → (bus_ids ≡ map (λ d. d.info.pci_bus_id) devices) × (has [] bus_ids ≡ false)
unfolding bus_ids_of
bus_ids_of-map [] bus_ids h = (sym (ok-inj h), ap (has []) (sym (ok-inj h)))
bus_ids_of-map (device ∷ devices) bus_ids h =
    elim (Bool-cases (text_beq device.info.pci_bus_id [])) [
      | inl missing ↦ absurd (ground (arith, h, missing))
      | inr given ↦
          let (rest, others, e) =
            >>=-ok (bus_ids_of devices) (λ bs. ok (device.info.pci_bus_id ∷ bs)) bus_ids
              (rw given at h) in
          let (same, clean) = bus_ids_of-map devices rest others in
          (
            sym (ok-inj e) ∙ ap (λ bs. device.info.pci_bus_id ∷ bs) same,
            subst (λ bs. has [] bs ≡ false) (ok-inj e) (ground (arith, clean, given)),
          )
    ]

-- A container is granted the devices of its IDs: the driver gives a group for their sorted bus IDs,
-- the response lists the nodes of the group and of the devices, and each node was there at a poll,
-- no later than the first one after its deadline, where every poll before found it missing.
pub record IsAllocated (node : Node) (p : Plugin) (ids : List Text) (specs : List DeviceSpec)
    : Type 0 where
  pub asked : ids ≢ []
  pub devices : List NpuDevice
  pub managed : AreManaged p ids devices
  pub placed : has [] (map (λ d. d.info.pci_bus_id) devices) ≡ false
  pub rsd_path : Text
  pub grouped : node.recreate_rsd_group (sort (map (λ d. d.info.pci_bus_id) devices)) ≡ ok rsd_path
  pub listed : specs ≡ specs_of rsd_path devices
  pub appeared : AllAppeared node specs

module _ (node : Node) (p : Plugin) where
  allocate_selected-IsAllocated :
      (ids : List Text) (devices : List NpuDevice) (response : ContainerResponse)
      → ids ≢ []
      → AreManaged p ids devices
      → allocate_selected node devices ≡ ok response
      → IsAllocated node p ids response.devices
  unfolding allocate_selected
  allocate_selected-IsAllocated ids devices response asked managed h =
      let (bus_ids, placed, e) = >>=-ok (bus_ids_of devices) _ response h in
      let (rsd_path, grouped, f) = >>=-ok _ _ response e in
      let (specs, listed, g) = >>=-ok _ _ response f in
      let (annotations, annotated, i) =
        >>=-ok (map_err annotations_failed node.runtime_annotations)
          (λ annotations. ok (record { annotations = annotations; devices = specs })) response g in
      let (same, clean) = bus_ids_of-map devices bus_ids placed in
      let (all, there) = device_specs-AllAppeared node devices rsd_path specs listed in
      let kept : specs ≡ response.devices = ap (λ r. r.devices) (ok-inj i) in
      record {
        asked = asked;
        devices = devices;
        managed = managed;
        placed = subst (λ bs. has [] bs ≡ false) same clean;
        rsd_path = rsd_path;
        grouped =
            subst (λ bs. node.recreate_rsd_group (sort bs) ≡ ok rsd_path) same
              (map_err-ok rsd_group_failed _ rsd_path grouped);
        listed = sym kept ∙ all;
        appeared = subst (AllAppeared node) kept there;
      }

  allocate_container-IsAllocated :
      (ids : List Text) (response : ContainerResponse)
      → allocate_container node p ids ≡ ok response
      → IsAllocated node p ids response.devices
  unfolding allocate_container
  allocate_container-IsAllocated [] response h = absurd cc
  allocate_container-IsAllocated (id ∷ ids) response h = elim (Bool-cases node.has_cdi) [
    | inl set_up ↦
        let (devices, selected, e) =
          >>=-ok (selected_devices p (id ∷ ids)) (allocate_selected node) response
            (rw set_up at h) in
        allocate_selected-IsAllocated (id ∷ ids) devices response (λ no. cc)
          (selected_devices-AreManaged p (id ∷ ids) devices selected) e
    | inr missing ↦ absurd (ground (arith, h, missing))
  ]

  annotate_rds-devices :
      (response annotated : ContainerResponse)
      → annotate_rds node response ≡ ok annotated
      → response.devices ≡ annotated.devices
  unfolding annotate_rds
  annotate_rds-devices response annotated h = elim (Bool-cases (rds_device_present node)) [
    | inl there ↦
        let (annotations, made, e) =
          >>=-ok (map_err rds_annotations_failed (node.rds_annotations response.annotations))
            (λ annotations. ok (record response { annotations = annotations })) annotated
            (rw there at h) in
        ap (λ r. r.devices) (ok-inj e)
    | inr none_there ↦ ap (λ r. r.devices) (ok-inj (rw none_there at h))
  ]

  -- One grant for each container, in their order.
  pub data Allocations : List (List Text) → List ContainerResponse → Type 0 where
    no_more : Allocations [] []
    allocated :
        {ids : List Text} {requests : List (List Text)} {response : ContainerResponse}
        {responses : List ContainerResponse}
        → IsAllocated node p ids response.devices
        → Allocations requests responses
        → Allocations (ids ∷ requests) (response ∷ responses)

  -- Where `Allocate` succeeds, every container was granted, in the order of the request, the
  -- nodes of the devices that the plugin manages under its IDs. The driver gives a group for their
  -- sorted bus IDs, and each node was there at a poll, no later than the first one after its
  -- deadline, where every poll before found it missing.
  pub allocate-Allocations :
      (requests : List (List Text)) (responses : List ContainerResponse)
      → allocate node p requests ≡ ok responses
      → Allocations requests responses
  unfolding allocate
  allocate-Allocations [] responses h = subst (Allocations []) (ok-inj h) no_more
  allocate-Allocations (ids ∷ requests) responses h =
      let (response, granted, e) = >>=-ok (allocate_container node p ids) _ responses h in
      let (annotated, kept, f) = >>=-ok (annotate_rds node response) _ responses e in
      let (others, more, g) = >>=-ok (allocate node p requests) _ responses f in
      subst (Allocations (ids ∷ requests)) (ok-inj g) (
        allocated
          (subst (IsAllocated node p ids) (annotate_rds-devices response annotated kept)
            (allocate_container-IsAllocated ids response granted))
          (allocate-Allocations requests others more))
