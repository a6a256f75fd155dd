-- ===== src/Plugin/Grantable.antt =====
-- When `allocateContainer` grants a container its devices.
use k8s_device_plugin.Prelude.{
  ℕ, zero, suc, ◌+◌, ◌≤◌, true, false, List, [], ◌∷◌, map, some, Bool-cases, ◌≡◌, ◌≢◌, refl, ap,
  ◌∙◌, inl, inr, arith, has, nat_beq, nat_beq_iff,
}
use k8s_device_plugin.Prelude.Texts.{Text, text_eq, text_beq}
use k8s_device_plugin.Prelude.Sorting.{sort, text_order}
use k8s_device_plugin.Prelude.Dict.{lookup}
use k8s_device_plugin.Go.Result.{Result, ok, err}
use k8s_device_plugin.Go.Host.{FileError, not_exist}
use k8s_device_plugin.Device.{NpuDevice}
use k8s_device_plugin.Plugin.{Plugin}
use k8s_device_plugin.Plugin.Allocation.{
  Node, Annotations, poll_node, wait_for_device_node, spec, new_device_spec, rbln_specs,
  rsd_container_path, device_path, device_specs_for_devices, selected_devices, bus_ids_of,
  allocate_selected, allocate_container,
}
use k8s_device_plugin.Plugin.Nodes.{Appeared, AllAppeared, rbln_spec, specs_of}
use k8s_device_plugin.Plugin.Grants.{AreManaged}

poll_node-ok :
    (stat : ℕ → Result FileError (Unit {0})) (left n k : ℕ)
    → n ≤ k
    → k ≤ n + left
    → stat k ≡ ok tt
    → ((m : ℕ) → n ≤ m → suc m ≤ k → stat m ≡ err not_exist)
    → poll_node stat left n ≡ ok tt
unfolding poll_node
poll_node-ok stat zero n k p q there missing =
    let same : n ≡ k = omega (arith, p, q) in ap stat same ∙ there
poll_node-ok stat (suc left) n k p q there missing = elim (Bool-cases (nat_beq n k)) [
  | inl now ↦ ground (arith, there, ap stat ((nat_beq_iff n k).0 now))
  | inr later ↦
      let further : n + 1 ≤ k = ground (arith, p, later) in
      ground (
        arith,
        missing n (omega arith) (omega (arith, further)),
        poll_node-ok stat left (n + 1) k further (omega (arith, q)) there
            (λ m r s. missing m (omega (arith, r)) s),
      )
]

module _ (node : Node) where
  new_device_spec-ok :
      (container path : Text)
      → Appeared (node.stat path) 0 node.polls
      → new_device_spec node container path ≡ ok (spec container path)
  unfolding new_device_spec wait_for_device_node
  new_device_spec-ok container path a = ground (
    arith,
    poll_node-ok (node.stat path) node.polls 0 a.poll (omega arith) (omega (arith, a.before))
        a.there a.missing,
  )

  rbln_specs-ok :
      (devices : List NpuDevice)
      → AllAppeared node (map rbln_spec devices)
      → rbln_specs node devices ≡ ok (map rbln_spec devices)
  unfolding rbln_specs
  rbln_specs-ok [] a = refl
  rbln_specs-ok (device ∷ devices) a =
      rw
        (
          new_device_spec-ok (device_path device) (device_path device) a.0,
          rbln_specs-ok devices a.1,
        )
        refl

  device_specs-ok :
      (devices : List NpuDevice) (rsd_path : Text)
      → AllAppeared node (specs_of rsd_path devices)
      → device_specs_for_devices node devices rsd_path ≡ ok (specs_of rsd_path devices)
  unfolding device_specs_for_devices
  device_specs-ok devices rsd_path a = elim (Bool-cases (text_beq rsd_path [])) [
    | inl shared ↦ rw shared (rbln_specs-ok devices (rw shared at a))
    | inr own ↦
        let b : AllAppeared node (spec rsd_container_path rsd_path ∷ map rbln_spec devices) =
          rw own at a in
        rw (own, new_device_spec-ok rsd_container_path rsd_path b.0, rbln_specs-ok devices b.1) refl
  ]

selected_devices-ok :
    (p : Plugin) (ids : List Text) (devices : List NpuDevice)
    → AreManaged p ids devices
    → selected_devices p ids ≡ ok devices
unfolding selected_devices
selected_devices-ok p [] [] h = refl
selected_devices-ok p [] (d ∷ devices) h = absurd (ground (arith, h))
selected_devices-ok p (id ∷ ids) [] h = absurd (ground (arith, h))
selected_devices-ok p (id ∷ ids) (d ∷ devices) h =
    let known : lookup id p.devices ≡ some d = cc in
    let others : AreManaged p ids devices = cc in
    ground (arith, known, selected_devices-ok p ids devices others)

bus_ids_of-ok :
    (devices : List NpuDevice)
    → has [] (map (λ d. d.info.pci_bus_id) devices) ≡ false
    → bus_ids_of devices ≡ ok (map (λ d. d.info.pci_bus_id) devices)
unfolding bus_ids_of
bus_ids_of-ok [] h = refl
bus_ids_of-ok (device ∷ devices) h = ground (arith, h, bus_ids_of-ok devices)

-- The plugin manages the devices, the driver makes their group, every node appears in time, and
-- the CDI handler writes the annotations.
pub record IsGrantable (node : Node) (p : Plugin) (ids : List Text) : Type 0 where
  pub asked : ids ≢ []
  pub set_up : node.has_cdi ≡ true
  pub devices : List NpuDevice
  pub managed : AreManaged p ids devices
  pub placed : has [] (map (λ d. d.info.pci_bus_id) devices) ≡ false
  pub rsd_path : Text
  pub grouped : node.recreate_rsd_group (sort (map (λ d. d.info.pci_bus_id) devices)) ≡ ok rsd_path
  pub appeared : AllAppeared node (specs_of rsd_path devices)
  pub annotations : Annotations
  pub annotated : node.runtime_annotations ≡ ok annotations

module _ (node : Node) (p : Plugin) where
  -- A container is granted its devices where the plugin manages them all, each has a bus ID, the
  -- driver makes their group, every node appears by the deadline, and the CDI handler gives its
  -- annotations.
  pub allocate_container-ok :
      (ids : List Text) (g : IsGrantable node p ids)
      → allocate_container node p ids
        ≡ ok (record { annotations = g.annotations; devices = specs_of g.rsd_path g.devices })
  unfolding allocate_container allocate_selected
  allocate_container-ok [] g = absurd (g.asked refl)
  allocate_container-ok (id ∷ ids) g =
      rw
        (
          g.set_up,
          selected_devices-ok p (id ∷ ids) g.devices g.managed,
          bus_ids_of-ok g.devices g.placed,
          g.grouped,
          device_specs-ok node g.devices g.rsd_path g.appeared,
          g.annotated,
        )
        refl
