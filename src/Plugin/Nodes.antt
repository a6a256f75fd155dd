-- ===== src/Plugin/Nodes.antt =====
-- The device nodes that `deviceSpecsForDevices` waits for and lists.
use k8s_device_plugin.Prelude.{
  ℕ, zero, suc, ◌+◌, ◌≤◌, List, [], ◌∷◌, map, Bool-cases, ◌≡◌, sym, subst, ap, ap₂, ◌∙◌, inl, inr,
  arith, if◌then◌else◌, nat_beq, nat_beq_iff,
}
use k8s_device_plugin.Prelude.Texts.{Text, text_eq, text_beq}
use k8s_device_plugin.Prelude.Sorting.{text_order}
use k8s_device_plugin.Go.Result.{
  Result, ok, err, ◌>>=◌, >>=-ok, map_err, map_err-ok, ok-inj, Result-cases,
}
use k8s_device_plugin.Go.Host.{FileError, not_exist, FileError-cases}
use k8s_device_plugin.Device.{NpuDevice}
use k8s_device_plugin.Plugin.Allocation.{
  Node, AllocateError, DeviceSpec, poll_node, wait_for_device_node, spec, new_device_spec,
  device_path, rbln_specs, rsd_container_path, device_specs_for_devices, rsd_node_failed,
  rbln_node_failed,
}

-- The node of the path was seen at a poll, and each poll before found that it did not exist.
pub record Appeared (stat : ℕ → Result FileError (Unit {0})) (first last : ℕ) : Type 0 where
  pub poll : ℕ
  pub after : first ≤ poll
  pub before : poll ≤ last
  pub there : stat poll ≡ ok tt
  pub missing : (n : ℕ) → first ≤ n → suc n ≤ poll → stat n ≡ err not_exist

poll_node-Appeared :
    (stat : ℕ → Result FileError (Unit {0})) (left n last : ℕ)
    → n + left ≡ last
    → poll_node stat left n ≡ ok tt
    → Appeared stat n last
unfolding poll_node
poll_node-Appeared stat zero n last e h = record {
  poll = n;
  after = omega arith;
  before = omega (arith, e);
  there = h;
  missing = λ m p q. absurd (omega (arith, p, q));
}
poll_node-Appeared stat (suc left) n last e h = elim (Result-cases (stat n)) [
  | inl (u, there) ↦ record {
    poll = n;
    after = omega arith;
    before = omega (arith, e);
    there = there;
    missing = λ m p q. absurd (omega (arith, p, q));
  }
  | inr (failure, absent) ↦ elim (FileError-cases failure) [
    | inl gone ↦
        let later =
          poll_node-Appeared stat left (n + 1) last (omega (arith, e))
            (ground (arith, h, absent, gone)) in
        record {
          poll = later.poll;
          after = omega (arith, later.after);
          before = later.before;
          there = later.there;
          missing = λ m p q. elim (Bool-cases (nat_beq m n)) [
            | inl first ↦ ground (arith, absent, gone, ap stat ((nat_beq_iff m n).0 first))
            | inr after ↦ later.missing m (ground (arith, p, after)) q
          ];
        }
    | inr (t, broken) ↦ absurd (ground (arith, h, absent, broken))
  ]
]

abbrev pub AllAppeared : Node → List DeviceSpec → Type 0
AllAppeared node [] = Unit {0}
AllAppeared node (s ∷ specs) =
    Appeared (node.stat s.host_path) 0 node.polls × AllAppeared node specs

abbrev pub rbln_spec : NpuDevice → DeviceSpec
rbln_spec device = spec (device_path device) (device_path device)

-- The node of the group, where it has one, before the nodes of the devices.
abbrev pub specs_of : Text → List NpuDevice → List DeviceSpec
specs_of rsd_path devices =
    if text_beq rsd_path []
    then map rbln_spec devices
    else spec rsd_container_path rsd_path ∷ map rbln_spec devices

module _ (node : Node) where
  wait-Appeared :
      (path : Text) (u : Unit {0})
      → wait_for_device_node node path ≡ ok u
      → Appeared (node.stat path) 0 node.polls
  unfolding wait_for_device_node
  wait-Appeared path u h =
      poll_node-Appeared (node.stat path) node.polls 0 node.polls (omega arith) h

  new_device_spec-Appeared :
      (container path : Text) (s : DeviceSpec)
      → new_device_spec node container path ≡ ok s
      → (spec container path ≡ s) × Appeared (node.stat path) 0 node.polls
  unfolding new_device_spec
  new_device_spec-Appeared container path s h =
      let (u, waited, e) =
        >>=-ok (wait_for_device_node node path) (λ u. ok (spec container path)) s h in
      (cc, wait-Appeared path u waited)

  -- One node, and the nodes after it.
  cons-AllAppeared :
      (f : FileError → AllocateError) (container path : Text) (devices : List NpuDevice)
      (specs : List DeviceSpec)
      → ((rest : List DeviceSpec)
          → rbln_specs node devices ≡ ok rest
          → (rest ≡ map rbln_spec devices) × AllAppeared node rest)
      → (map_err f (new_device_spec node container path) >>= λ first.
          rbln_specs node devices >>= λ rest. ok (first ∷ rest))
        ≡ ok specs
      → (specs ≡ spec container path ∷ map rbln_spec devices) × AllAppeared node specs
  cons-AllAppeared f container path devices specs k h =
      let (first, made, e) = >>=-ok _ _ specs h in
      let (rest, others, e') = >>=-ok _ _ specs e in
      let (same, there) =
        new_device_spec-Appeared container path first (map_err-ok f _ first made) in
      let (tail, present) = k rest others in
      (
        sym (ok-inj e') ∙ ap₂ (◌∷◌) (sym same) tail,
        subst (AllAppeared node) (ok-inj e')
            (subst (λ s. Appeared (node.stat s.host_path) 0 node.polls) same there, present),
      )

  rbln_specs-AllAppeared :
      (devices : List NpuDevice) (specs : List DeviceSpec)
      → rbln_specs node devices ≡ ok specs
      → (specs ≡ map rbln_spec devices) × AllAppeared node specs
  unfolding rbln_specs
  rbln_specs-AllAppeared [] specs h = (sym (ok-inj h), subst (AllAppeared node) (ok-inj h) tt)
  rbln_specs-AllAppeared (device ∷ devices) specs h =
      cons-AllAppeared rbln_node_failed (device_path device) (device_path device) devices specs
        (λ rest. rbln_specs-AllAppeared devices rest) h

  pub device_specs-AllAppeared :
      (devices : List NpuDevice) (rsd_path : Text) (specs : List DeviceSpec)
      → device_specs_for_devices node devices rsd_path ≡ ok specs
      → (specs ≡ specs_of rsd_path devices) × AllAppeared node specs
  unfolding device_specs_for_devices
  device_specs-AllAppeared devices rsd_path specs h = elim (Bool-cases (text_beq rsd_path [])) [
    | inl shared ↦ rw shared (rbln_specs-AllAppeared devices specs (rw shared at h))
    | inr own ↦ rw own (
        cons-AllAppeared rsd_node_failed rsd_container_path rsd_path devices specs
          (rbln_specs-AllAppeared devices) (rw own at h))
  ]
