-- ===== src/Samples/Servers.antt =====
-- The theorems on the plugin and the manager at concrete inputs.
use k8s_device_plugin.Prelude.{
  ℕ, suc, ◌≤◌, true, false, nat_beq, if◌then◌else◌, arith, List, [], ◌∷◌, none, some, ◌≡◌, ◌↔◌,
  refl, ◌⊎◌,
}
use k8s_device_plugin.Prelude.Texts.{Text, str, text_eq}
use k8s_device_plugin.Prelude.Dict.{lookup}
use k8s_device_plugin.Go.Int.{pos, negsuc}
use k8s_device_plugin.Go.Result.{ok, err}
use k8s_device_plugin.Go.Host.{not_exist}
use k8s_device_plugin.Plugin.Allocation.{Node, ContainerResponse, allocate, allocate_container}
use k8s_device_plugin.Plugin.Nodes.{Appeared, specs_of}
use k8s_device_plugin.Plugin.Grants.{Allocations, allocate-Allocations}
use k8s_device_plugin.Plugin.Grantable.{IsGrantable, allocate_container-ok}
use k8s_device_plugin.Device.{Device}
use k8s_device_plugin.Inventory.{discover_device_groups}
use k8s_device_plugin.Plugin.{
  Plugin, PreferredRequest, new_resource_plugin, get_preferred_allocation, current_devices,
  update_devices,
}
use k8s_device_plugin.Inventory.Changes.{Unchanged}
use k8s_device_plugin.Plugin.Records.{update_records}
use k8s_device_plugin.Plugin.Records.Silent.{update_records_iff}
use k8s_device_plugin.Plugin.Preferred.{Answers, get_preferred_allocation-Answers}
use k8s_device_plugin.Plugin.Updates.{
  Channel, idle, Reachable, started, stepped, updates, advances, watches, receives, sends, start,
  watch, update, receive, send, advance, replace_devices, run_sender,
}
use k8s_device_plugin.Plugin.Sync.{Reachable-seen, Reachable-advance, run_sender-update}
use k8s_device_plugin.Manager.{Servers, Plugins, reconcile}
use k8s_device_plugin.Manager.Reconciled.{served, found, reconcile-served, reconcile-none}
use k8s_device_plugin.Samples.Machine.{machine, sriov_machine, inventory, faulted, ids, npu}

abbrev generic : Text
generic = str "rebellions.ai/npu"

abbrev plugin : Plugin
plugin = new_resource_plugin generic inventory

-- Two devices with the first one, and a request of a negative size.
abbrev requests : List PreferredRequest
requests =
    record {
      available = ids (0 ∷ 1 ∷ 2 ∷ []);
      must_include = ids (0 ∷ []);
      allocation_size = pos 2;
    }
    ∷ record { available = ids (0 ∷ []); must_include = []; allocation_size = negsuc 0 }
    ∷ []

get_preferred_allocation-Answers_example :
    Answers plugin requests (get_preferred_allocation machine plugin requests)
get_preferred_allocation-Answers_example = get_preferred_allocation-Answers machine plugin requests

-- The stream is open, and a device has changed its health.
abbrev opened : Channel
opened = watch (start generic inventory)

abbrev updating : Channel
updating = update (send opened (current_devices plugin)) faulted

updating-Reachable : Reachable generic inventory updating
unfolding watch start send
updating-Reachable = stepped (stepped (stepped started watches) (sends refl)) (updates faulted refl)

abbrev updated : Channel
updated = record updating {
  sender = idle;
  plugin = record updating.plugin { update_ch = some (current_devices updating.plugin) };
}

updated-Reachable : Reachable generic inventory updated
unfolding advance update replace_devices watch start send new_resource_plugin
updated-Reachable = stepped updating-Reachable (advances refl)

abbrev received : Channel
received = receive updated (current_devices updated.plugin)

received-Reachable : Reachable generic inventory received
unfolding update replace_devices watch start send new_resource_plugin current_devices
received-Reachable = stepped updated-Reachable (receives refl refl refl)

abbrev delivered : Channel
delivered = send received (current_devices updated.plugin)

delivered-Reachable : Reachable generic inventory delivered
unfolding receive
delivered-Reachable = stepped received-Reachable (sends refl)

Reachable-seen_example : current_devices updated.plugin ≡ current_devices delivered.plugin
unfolding receive send update
Reachable-seen_example = Reachable-seen delivered-Reachable refl refl refl refl

Reachable-advance_example :
    (updating.sender ≡ idle) ⊎ ((next : Channel) × (advance updating ≡ some next))
Reachable-advance_example = Reachable-advance updating-Reachable

abbrev open_channel : Channel
open_channel = record { plugin = updated.plugin; sender = idle; held = none; seen = some [] }

run_sender-update_example :
    run_sender 3 (update open_channel inventory)
    ≡ record open_channel { plugin = update_devices updated.plugin inventory }
run_sender-update_example = run_sender-update updated.plugin none (some []) inventory

abbrev all_start : Servers
all_start = record { starts = λ name. true; stops = λ name. true }

abbrev devices : List Device
devices = (npu 0).info ∷ (npu 1).info ∷ (npu 3).info ∷ []

abbrev running : Plugins
running = (generic, plugin) ∷ (str "rebellions.ai/npu-vf1", plugin) ∷ []

reconcile-served_example :
    served
      (lookup generic (reconcile {E = Text} sriov_machine all_start (ok devices) running).plugins)
    ≡ found (lookup generic (discover_device_groups {E = Text} sriov_machine (ok devices)))
reconcile-served_example =
    reconcile-served all_start generic sriov_machine (ok devices) running
      (reconcile-none all_start (λ name. refl) (λ name. refl) sriov_machine (ok devices) running)

-- Every node appears at the second poll.
abbrev node : Node
node = record {
  stat = λ path n. if nat_beq n 0 then err not_exist else ok tt;
  polls = 3;
  recreate_rsd_group = λ bus_ids. ok (str "/dev/rsd1");
  has_cdi = true;
  runtime_annotations = ok [];
  rds_annotations = λ annotations. ok annotations;
  rds_paths = ok [];
  is_node = λ path. false;
}

abbrev granted : ContainerResponse
granted = record { annotations = []; devices = specs_of (str "/dev/rsd1") (npu 1 ∷ npu 0 ∷ []) }

allocate-Allocations_example : Allocations node plugin (ids (1 ∷ 0 ∷ []) ∷ []) (granted ∷ [])
unfolding allocate new_resource_plugin
allocate-Allocations_example =
    allocate-Allocations node plugin (ids (1 ∷ 0 ∷ []) ∷ []) (granted ∷ []) refl

first_missing : (n : ℕ) → 0 ≤ n → suc n ≤ 1 → node.stat [] n ≡ err not_exist
first_missing n p q = ground (arith, q)

second_poll : Appeared (node.stat []) 0 3
second_poll = record {
  poll = 1;
  after = omega arith;
  before = omega arith;
  there = refl;
  missing = first_missing;
}

grantable : IsGrantable node plugin (ids (1 ∷ 0 ∷ []))
unfolding new_resource_plugin lookup
grantable = record {
  asked = λ no. cc;
  set_up = refl;
  devices = npu 1 ∷ npu 0 ∷ [];
  managed = refl;
  placed = refl;
  rsd_path = str "/dev/rsd1";
  grouped = refl;
  appeared = (second_poll, (second_poll, (second_poll, tt)));
  annotations = [];
  annotated = refl;
}

allocate_container-ok_example : allocate_container node plugin (ids (1 ∷ 0 ∷ [])) ≡ ok granted
unfolding grantable
allocate_container-ok_example = allocate_container-ok node plugin (ids (1 ∷ 0 ∷ [])) grantable

update_records_iff_example : (update_records plugin faulted ≡ []) ↔ Unchanged plugin.devices faulted
update_records_iff_example = update_records_iff plugin faulted
