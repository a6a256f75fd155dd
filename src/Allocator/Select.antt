-- ===== src/Allocator/Select.antt =====
-- `SelectDevices`, `selectPreferredDeviceIDs` and their helpers; `availableDevices` of plugin.go.
mod Entries
mod Requests
pub mod Picked
pub mod Granted
pub mod Choice
use k8s_device_plugin.Prelude.{
  ℕ, suc, ◌+◌, ◌-◌, Bool, true, not, List, [], ◌∷◌, ◌++◌, map, Option, none, some, length,
  replicate, ltb, leb, nat_beq, if◌then◌else◌, has,
}
use k8s_device_plugin.Prelude.Texts.{Text, text_eq}
use k8s_device_plugin.Prelude.Dict.{Dict, lookup, insert, keys}
use k8s_device_plugin.Go.Int.{ℤ, pos, negsuc}
use k8s_device_plugin.Go.Result.{Result, ok, err}
use k8s_device_plugin.Go.Host.{Host}
use k8s_device_plugin.Device.{NpuDevice, sorted_device_ids}
use k8s_device_plugin.Allocator.Score.{zero_score}
use k8s_device_plugin.Allocator.Model.{
  AllocationDevice, TopologyAllocator, new_topology_allocator, index_or_zero,
}
use k8s_device_plugin.Allocator.Search.{State, device_at, add}
use k8s_device_plugin.Allocator.Bound.{prepare_bounds}
use k8s_device_plugin.Allocator.Backtrack.{search}

pub data SelectError : Type 0 where
  negative_size : SelectError
  not_managed : Text → SelectError
  too_few : (size available : ℕ) → SelectError
  unknown_required : Text → SelectError
  too_many_required : (required size : ℕ) → SelectError
  wrong_count : (selected size : ℕ) → SelectError

-- `normalizeMustInclude`: the list and the set that it builds have the same entries.
unfoldable pub normalize_from : List Text → List Text → List Text
normalize_from selected [] = selected
normalize_from selected (id ∷ ids) =
    normalize_from (if has id selected then selected else selected ++ id ∷ []) ids

unfoldable pub normalize_must_include : List Text → List Text
unfolding normalize_from
normalize_must_include ids = normalize_from [] ids

unfoldable pub validate_from :
    Dict Text NpuDevice → List Text → List Text → Result SelectError (List Text)
unfolding lookup
validate_from available seen [] = ok seen
validate_from available seen (id ∷ ids) =
    let skip = validate_from available seen ids in
    let found = validate_from available (seen ++ id ∷ []) ids in
    if has id seen
    then skip
    else elim (lookup id available) [ none ↦ err (unknown_required id) | some d ↦ found ]

unfoldable pub check_required : ℕ → Result SelectError (List Text) → Result SelectError (Unit {0})
check_required size (err e) = err e
check_required size (ok seen) =
    if ltb size (length seen) then err (too_many_required (length seen) size) else ok tt

unfoldable pub validate_must_include :
    Dict Text NpuDevice → List Text → ℕ → Result SelectError (Unit {0})
unfolding validate_from check_required
validate_must_include available ids size = check_required size (validate_from available [] ids)

-- `availableDevices` of plugin.go, for the devices that the resource manages.
unfoldable pub available_from :
    Dict Text NpuDevice → Dict Text NpuDevice → List Text → Result SelectError (Dict Text NpuDevice)
unfolding lookup insert
available_from managed available [] = ok available
available_from managed available (id ∷ ids) =
    let skip = available_from managed available ids in
    elim (lookup id available) [
      | some d ↦ skip
      | none ↦ elim (lookup id managed) [
        | none ↦ err (not_managed id)
        | some d ↦ available_from managed (insert id d available) ids
      ]
    ]

unfoldable pub available_devices :
    Dict Text NpuDevice → List Text → Result SelectError (Dict Text NpuDevice)
unfolding available_from
available_devices managed ids = available_from managed [] ids

-- The indices of the devices that are not taken already.
unfoldable pub candidates_from : List Text → ℕ → List AllocationDevice → List ℕ
candidates_from excluded i [] = []
candidates_from excluded i (d ∷ ds) =
    if has d.id excluded
    then candidates_from excluded (i + 1) ds
    else i ∷ candidates_from excluded (i + 1) ds

unfoldable pub add_ids : TopologyAllocator → State → List Text → State
unfolding add lookup
add_ids a s [] = s
add_ids a s (id ∷ ids) = add_ids a (add a s (index_or_zero (lookup id a.by_id))) ids

abbrev pub initial_state : TopologyAllocator → State
initial_state a = record {
  chosen = [];
  best = none;
  sid_counts = replicate a.sid_count 0;
  numa_counts = replicate a.numa_count 0;
  score = zero_score;
  best_score = zero_score;
}

unfoldable pub ids_of : TopologyAllocator → Option (List ℕ) → List Text
unfolding device_at
ids_of a none = []
ids_of a (some indices) = map (λ i. (device_at a i).id) indices

unfoldable pub search_all : TopologyAllocator → List Text → ℕ → State
unfolding add_ids candidates_from prepare_bounds search
search_all a selected remaining =
    search (prepare_bounds a (candidates_from selected 0 a.devices)) 0 remaining
      (add_ids a (initial_state a) selected)

unfoldable pub select_devices : TopologyAllocator → List Text → ℕ → List Text
unfolding normalize_must_include search_all ids_of
select_devices a required size =
    let selected = normalize_must_include required in
    if leb size (length selected)
    then selected
    else ids_of a (search_all a selected (size - length selected)).best

abbrev pub left_over : List Text → List Text → List Text
left_over excluded [] = []
left_over excluded (id ∷ ids) =
    if has id excluded then left_over excluded ids else id ∷ left_over excluded ids

abbrev pub of_size : ℕ → List Text → Result SelectError (List Text)
of_size size selected =
    if nat_beq (length selected) size then ok selected else err (wrong_count (length selected) size)

-- The choice, once the request has been checked.
unfoldable pub choose_preferred :
    Host → Dict Text NpuDevice → List Text → ℕ → Result SelectError (List Text)
unfolding normalize_must_include sorted_device_ids new_topology_allocator select_devices
choose_preferred host available required size =
    let selected = normalize_must_include required in
    if nat_beq (length selected) size
    then ok selected
    else if nat_beq size (length available)
    then ok (selected ++ left_over selected (sorted_device_ids available))
    else of_size size (select_devices (new_topology_allocator host available) required size)

unfoldable pub prefer_available :
    Host → List Text → ℕ → Result SelectError (Dict Text NpuDevice) → Result SelectError (List Text)
unfolding validate_must_include choose_preferred
prefer_available host required size (err e) = err e
prefer_available host required size (ok available) =
    if ltb (length available) size
    then err (too_few size (length available))
    else elim (validate_must_include available required size) [
      | err e ↦ err e
      | ok u ↦ choose_preferred host available required size
    ]

-- `selectPreferredDeviceIDs`
unfoldable pub select_preferred_device_ids :
    Host
    → Dict Text NpuDevice
    → (available required : List Text) → ℤ
    → Result SelectError (List Text)
unfolding available_devices prefer_available
select_preferred_device_ids host managed available required (negsuc n) = err negative_size
select_preferred_device_ids host managed available required (pos size) =
    prefer_available host required size (available_devices managed available)
