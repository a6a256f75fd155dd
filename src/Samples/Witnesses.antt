-- ===== src/Samples/Witnesses.antt =====
-- The theorems at concrete inputs: the machine of the README, and devices in each SR-IOV state.
use k8s_device_plugin.Prelude.{
  true, List, [], ◌∷◌, some, ◌≡◌, refl, subst, ◌↔◌, arith, has, Within, ==_iff,
}
use k8s_device_plugin.Prelude.Texts.{Text, str, text_eq}
use k8s_device_plugin.Prelude.Dict.{Dict, lookup, keys}
use k8s_device_plugin.Go.Int.{pos}
use k8s_device_plugin.Go.Result.{ok}
use k8s_device_plugin.Device.{Device, NpuDevice}
use k8s_device_plugin.Allocator.Score.{less}
use k8s_device_plugin.Allocator.Search.{take_back}
use k8s_device_plugin.Allocator.Bound.{lower_bound, prepare_bounds}
use k8s_device_plugin.Allocator.Model.{new_topology_allocator}
use k8s_device_plugin.Allocator.Backtrack.{search}
use k8s_device_plugin.Allocator.Backtrack.Restore.{SameButBest, search-SameButBest}
use k8s_device_plugin.Allocator.Select.{
  select_preferred_device_ids, normalize_must_include, initial_state,
}
use k8s_device_plugin.Allocator.Select.Granted.{IsChoice}
use k8s_device_plugin.Allocator.Select.Choice.{
  IsFeasible, select_preferred-ok, select_preferred-IsChoice,
}
use k8s_device_plugin.Sriov.{SriovInfo, vf, probe_sriov}
use k8s_device_plugin.Inventory.{
  discover_device_groups, classify, clone_plugin_devices, diff_device_inventories, is_empty,
}
use k8s_device_plugin.Inventory.Groups.{
  IsGrouped, managed, advertised, managed-discover, discover-IsGrouped,
}
use k8s_device_plugin.Inventory.Classes.{
  IsAdvertised, IsParented, classify_iff, probe_sriov-IsParented,
}
use k8s_device_plugin.Inventory.Listing.{SameMap, clone_plugin_devices-eq}
use k8s_device_plugin.Inventory.Changes.{Unchanged, is_empty_iff}
use k8s_device_plugin.Samples.Machine.{
  machine, sriov_machine, npu, inventory, rbln, ids, bus, faulted,
}

open_all : Unit {0}
unfolding select_preferred_device_ids take_back less lower_bound normalize_must_include
open_all = tt

Within-one : (a : Text) (known : List Text) → has a known ≡ true → Within (a ∷ []) known
Within-one a known h b k = subst (λ c. has c known ≡ true) ((==_iff a b).0 (ground arith)) h

-- Three of seven devices, with the one that has no PCI path.
feasible : IsFeasible (keys inventory) (keys inventory) (ids (6 ∷ [])) 3
unfolding open_all
feasible = record {
  managed_all = λ a h. h;
  required_known = Within-one (rbln 6) (keys inventory) refl;
  enough = omega arith;
  fits = omega arith;
}

select_preferred-ok_example :
    (found : List Text) × (select_preferred_device_ids machine inventory
        (keys inventory)
        (ids (6 ∷ []))
        (pos 3)
      ≡ ok found)
    × IsChoice (keys inventory) (ids (6 ∷ [])) 3 found
select_preferred-ok_example =
    select_preferred-ok machine inventory (keys inventory) (ids (6 ∷ [])) 3 feasible

select_preferred-IsChoice_example :
    IsFeasible (keys inventory) (keys inventory) (ids (6 ∷ [])) 3
    × IsChoice (keys inventory) (ids (6 ∷ [])) 3 (ids (6 ∷ 0 ∷ 2 ∷ []))
unfolding open_all
select_preferred-IsChoice_example =
    select_preferred-IsChoice machine inventory (keys inventory) (ids (6 ∷ [])) 3
      (ids (6 ∷ 0 ∷ 2 ∷ [])) refl

search-SameButBest_example :
    let a = new_topology_allocator machine inventory in
    let setup = prepare_bounds a (0 ∷ 1 ∷ 2 ∷ 3 ∷ []) in
    SameButBest (initial_state a) (search setup 0 2 (initial_state a))
search-SameButBest_example =
    let a = new_topology_allocator machine inventory in
    search-SameButBest (prepare_bounds a (0 ∷ 1 ∷ 2 ∷ 3 ∷ [])) 0 2 (initial_state a)

-- Two VFs of a PF in the mode of four, the PF itself, and a whole device.
abbrev partitioned : List Device
partitioned = (npu 0).info ∷ (npu 1).info ∷ (npu 2).info ∷ (npu 3).info ∷ []

managed-discover_example :
    managed
      (discover_device_groups {E = Text} sriov_machine (ok partitioned))
      (str "rebellions.ai/npu-vf4")
      (rbln 1)
    ≡ advertised sriov_machine (str "rebellions.ai/npu-vf4") (rbln 1) partitioned
managed-discover_example =
    managed-discover sriov_machine (str "rebellions.ai/npu-vf4") (rbln 1) partitioned

discover-IsGrouped_example :
    IsGrouped (discover_device_groups {E = Text} sriov_machine (ok partitioned))
discover-IsGrouped_example = discover-IsGrouped sriov_machine (ok partitioned)

abbrev vf_info : SriovInfo
vf_info = record { class = vf; parent_pf_bus_id = bus 0; num_vfs = pos 4 }

classify_iff_example :
    (classify sriov_machine (npu 1).info ≡ some (str "rebellions.ai/npu-vf4", vf_info)) ↔ (
      (probe_sriov sriov_machine (bus 1) ≡ ok vf_info)
      × IsAdvertised vf_info (str "rebellions.ai/npu-vf4"))
classify_iff_example = classify_iff sriov_machine (npu 1).info (str "rebellions.ai/npu-vf4") vf_info

probe_sriov-IsParented_example : IsParented vf_info
unfolding probe_sriov lookup
probe_sriov-IsParented_example = probe_sriov-IsParented sriov_machine (bus 1) vf_info refl

is_empty_iff_example :
    (is_empty (diff_device_inventories inventory faulted) ≡ true) ↔ Unchanged inventory faulted
is_empty_iff_example = is_empty_iff inventory faulted

-- Two devices, kept in the two orders.
abbrev first_order : Dict Text NpuDevice
first_order = (rbln 0, npu 0) ∷ (rbln 1, npu 1) ∷ []

abbrev second_order : Dict Text NpuDevice
second_order = (rbln 1, npu 1) ∷ (rbln 0, npu 0) ∷ []

same_entries : SameMap first_order second_order
unfolding lookup
same_entries id = ground (arith, ==_iff (rbln 0) id, ==_iff (rbln 1) id)

clone_plugin_devices-eq_example :
    clone_plugin_devices first_order ≡ clone_plugin_devices second_order
clone_plugin_devices-eq_example =
    clone_plugin_devices-eq first_order second_order same_entries (refl, (refl, tt))
      (refl, (refl, tt))
