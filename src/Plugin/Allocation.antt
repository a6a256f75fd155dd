-- ===== src/Plugin/Allocation.antt =====
-- plugin.go: `Allocate`, and the device nodes that it waits for.
--
-- The group driver, the CDI library and the device nodes are not the program's: they are the
-- fields of `Node`. Time is the number of a poll: `polls` is the first after the deadline.
use k8s_device_plugin.Prelude.{
  ℕ, zero, suc, ◌+◌, Bool, false, ◌||◌, List, [], ◌∷◌, ◌++◌, none, some, if◌then◌else◌,
}
use k8s_device_plugin.Prelude.Texts.{Text, str, text_beq, text_eq}
use k8s_device_plugin.Prelude.Sorting.{sort, text_order}
use k8s_device_plugin.Prelude.Dict.{Dict, lookup}
use k8s_device_plugin.Go.Result.{Result, ok, err, ◌>>=◌, map_err}
use k8s_device_plugin.Go.Host.{FileError, not_exist, io_error}
use k8s_device_plugin.Device.{NpuDevice}
use k8s_device_plugin.Plugin.{Plugin}

-- The annotations of a container.
abbrev pub Annotations : Type 0
Annotations = Dict Text Text

pub record Node : Type 0 where
  -- `os.Stat` of a path, at each poll.
  pub stat : Text → ℕ → Result FileError (Unit {0})
  pub polls : ℕ
  -- `rsdgroup.RecreateRsdGroup`
  pub recreate_rsd_group : List Text → Result Text Text
  -- `RuntimeAnnotations` and `RDSAnnotations` of the CDI handler, where there is one.
  pub has_cdi : Bool
  pub runtime_annotations : Result Text Annotations
  pub rds_annotations : Annotations → Result Text Annotations
  -- `filepath.Glob` of the RDS devices, and whether each is there and no directory.
  pub rds_paths : Result Text (List Text)
  pub is_node : Text → Bool

pub data AllocateError : Type 0 where
  no_device_ids : AllocateError
  no_cdi_handler : AllocateError
  not_managed : Text → AllocateError
  missing_bus_id : Text → AllocateError
  rsd_group_failed : Text → AllocateError
  rsd_node_failed rbln_node_failed : FileError → AllocateError
  annotations_failed : Text → AllocateError
  rds_annotations_failed : Text → AllocateError

-- The permissions are "rw".
pub record DeviceSpec : Type 0 where
  pub container_path : Text
  pub host_path : Text
  pub permissions : Text

pub record ContainerResponse : Type 0 where
  pub annotations : Annotations
  pub devices : List DeviceSpec

-- The loop from poll `n` on, with the polls that are left before the deadline.
unfoldable pub poll_node : (ℕ → Result FileError (Unit {0})) → ℕ → ℕ → Result FileError (Unit {0})
poll_node stat zero n = stat n
poll_node stat (suc left) n =
    let later = poll_node stat left (n + 1) in
    elim (stat n) [ ok u ↦ ok u | err not_exist ↦ later | err (io_error e) ↦ err (io_error e) ]

unfoldable pub wait_for_device_node : Node → Text → Result FileError (Unit {0})
unfolding poll_node
wait_for_device_node node path = poll_node (node.stat path) node.polls 0

abbrev pub spec : Text → Text → DeviceSpec
spec container_path host_path = record {
  container_path = container_path;
  host_path = host_path;
  permissions = str "rw";
}

unfoldable pub new_device_spec : Node → Text → Text → Result FileError DeviceSpec
unfolding wait_for_device_node
new_device_spec node container_path host_path =
    wait_for_device_node node host_path >>= λ u. ok (spec container_path host_path)

abbrev pub device_path : NpuDevice → Text
device_path device = str "/dev/" ++ device.info.name

unfoldable pub rbln_specs : Node → List NpuDevice → Result AllocateError (List DeviceSpec)
unfolding new_device_spec
rbln_specs node [] = ok []
rbln_specs node (device ∷ devices) =
    map_err rbln_node_failed (new_device_spec node (device_path device) (device_path device))
    >>= λ first. rbln_specs node devices >>= λ rest. ok (first ∷ rest)

abbrev pub rsd_container_path : Text
rsd_container_path = str "/dev/rsd0"

unfoldable pub device_specs_for_devices :
    Node → List NpuDevice → Text → Result AllocateError (List DeviceSpec)
unfolding new_device_spec rbln_specs
device_specs_for_devices node devices host_rsd_path =
    if text_beq host_rsd_path []
    then rbln_specs node devices
    else (map_err rsd_node_failed (new_device_spec node rsd_container_path host_rsd_path)
        >>= λ first. rbln_specs node devices >>= λ rest. ok (first ∷ rest))

unfoldable pub selected_devices : Plugin → List Text → Result AllocateError (List NpuDevice)
unfolding lookup
selected_devices p [] = ok []
selected_devices p (id ∷ ids) =
    let rest = selected_devices p ids in
    elim (lookup id p.devices) [
      | none ↦ err (not_managed id)
      | some device ↦ rest >>= λ devices. ok (device ∷ devices)
    ]

unfoldable pub bus_ids_of : List NpuDevice → Result AllocateError (List Text)
bus_ids_of [] = ok []
bus_ids_of (device ∷ devices) =
    let rest = bus_ids_of devices in
    if text_beq device.info.pci_bus_id []
    then err (missing_bus_id device.info.name)
    else (rest >>= λ bus_ids. ok (device.info.pci_bus_id ∷ bus_ids))

-- What follows the two guards of `allocateContainer`.
unfoldable pub allocate_selected : Node → List NpuDevice → Result AllocateError ContainerResponse
unfolding bus_ids_of sort device_specs_for_devices
allocate_selected node selected = bus_ids_of selected >>= λ bus_ids.
    map_err rsd_group_failed (node.recreate_rsd_group (sort bus_ids)) >>= λ host_rsd_path.
    device_specs_for_devices node selected host_rsd_path >>= λ specs.
    map_err annotations_failed node.runtime_annotations >>= λ annotations.
    ok (record { annotations = annotations; devices = specs })

unfoldable pub allocate_container :
    Node → Plugin → List Text → Result AllocateError ContainerResponse
unfolding selected_devices allocate_selected
allocate_container node p [] = err no_device_ids
allocate_container node p (id ∷ ids) =
    if node.has_cdi
    then (selected_devices p (id ∷ ids) >>= allocate_selected node)
    else err no_cdi_handler

abbrev any_node : Node → List Text → Bool
any_node node [] = false
any_node node (path ∷ paths) = node.is_node path || any_node node paths

unfoldable pub rds_device_present : Node → Bool
rds_device_present node = elim node.rds_paths [ ok paths ↦ any_node node paths | err e ↦ false ]

unfoldable pub annotate_rds : Node → ContainerResponse → Result AllocateError ContainerResponse
unfolding rds_device_present
annotate_rds node response =
    if rds_device_present node
    then (map_err rds_annotations_failed (node.rds_annotations response.annotations)
        >>= λ annotations. ok (record response { annotations = annotations }))
    else ok response

unfoldable pub allocate :
    Node → Plugin → List (List Text) → Result AllocateError (List ContainerResponse)
unfolding allocate_container annotate_rds
allocate node p [] = ok []
allocate node p (ids ∷ requests) = allocate_container node p ids >>= λ response.
    annotate_rds node response >>= λ annotated.
    allocate node p requests >>= λ responses. ok (annotated ∷ responses)
