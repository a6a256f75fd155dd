-- ===== src/Samples/Policies.antt =====
-- The theorems on the policy and the search on the machine of the README.
use k8s_device_plugin.Prelude.{ℕ, false, List, [], ◌∷◌, ◌≡◌, refl, arith}
use k8s_device_plugin.Allocator.Model.{TopologyAllocator, new_topology_allocator}
use k8s_device_plugin.Allocator.Search.{State, add}
use k8s_device_plugin.Allocator.Bound.{prepare_bounds, bound_counts, bound_cheap, bound_worst}
use k8s_device_plugin.Allocator.Bound.Least.{IsMeasured}
use k8s_device_plugin.Allocator.Bound.Cheap.{IsCompletion, bound_cheap-least}
use k8s_device_plugin.Allocator.Bound.Worst.{bound_worst-least}
use k8s_device_plugin.Allocator.Model.Measured.{new_topology_allocator-IsMeasured}
use k8s_device_plugin.Allocator.Score.{less}
use k8s_device_plugin.Allocator.Bound.Counts.{IsBelow, bound_counts-IsBelow}
use k8s_device_plugin.Allocator.Backtrack.Picks.{stop, taken, skipped}
use k8s_device_plugin.Allocator.Backtrack.Exhaustive.{add_all}
use k8s_device_plugin.Allocator.Backtrack.{search}
use k8s_device_plugin.Allocator.Select.{initial_state}
use k8s_device_plugin.Allocator.Policy.Scored.{IsScored, add-IsScored}
use k8s_device_plugin.Allocator.Policy.Best.{
  IsReady, add-IsReady, IsBestScored, search-IsBestScored,
}
use k8s_device_plugin.Allocator.Policy.Ready.{all_below, numa_below, initial_state-IsReady}
use k8s_device_plugin.Samples.Machine.{machine, inventory}

abbrev readme : TopologyAllocator
readme = new_topology_allocator machine inventory

ready : IsReady readme (initial_state readme)
unfolding all_below numa_below new_topology_allocator
ready = initial_state-IsReady readme refl

add-IsScored_example : IsScored readme (add readme (initial_state readme) 3)
add-IsScored_example = add-IsScored readme (initial_state readme) 3 ready.counted (ready.in_range 3)

search-IsBestScored_example :
    IsBestScored readme
      (search (prepare_bounds readme (0 ∷ 1 ∷ 2 ∷ 3 ∷ 4 ∷ [])) 0 3 (initial_state readme))
unfolding prepare_bounds
search-IsBestScored_example =
    search-IsBestScored (prepare_bounds readme (0 ∷ 1 ∷ 2 ∷ 3 ∷ 4 ∷ [])) 0 3 (initial_state readme)
      ready

abbrev with_5 : State
with_5 = add readme (initial_state readme) 5

with_5-IsReady : IsReady readme with_5
with_5-IsReady = add-IsReady readme (initial_state readme) 5 ready

bound_counts-IsBelow_example :
    IsBelow
      (bound_counts (prepare_bounds readme (0 ∷ 1 ∷ 2 ∷ 3 ∷ 4 ∷ [])) with_5 1 2)
      (add_all readme with_5 (2 ∷ 4 ∷ [])).score
unfolding add new_topology_allocator
bound_counts-IsBelow_example =
    bound_counts-IsBelow readme (0 ∷ 1 ∷ 2 ∷ 3 ∷ 4 ∷ []) 1 2 with_5 (2 ∷ 4 ∷ []) with_5-IsReady refl
      (omega arith) (skipped (taken (skipped (taken stop))))

readme-IsMeasured : IsMeasured readme
readme-IsMeasured = new_topology_allocator-IsMeasured machine inventory

abbrev offered : List ℕ
offered = 0 ∷ 1 ∷ 2 ∷ 3 ∷ 4 ∷ []

-- Devices 2 and 4, from the second candidate on.
completion : IsCompletion readme offered 1 2 with_5 (2 ∷ 4 ∷ [])
unfolding add new_topology_allocator
completion = record {
  ready = with_5-IsReady;
  size = refl;
  fits = omega arith;
  pick = skipped (taken (skipped (taken stop)));
  chosen_inside = (omega arith, tt);
  inside = (omega arith, (omega arith, tt));
  once = (refl, (refl, (refl, tt)));
}

bound_cheap-least_example :
    less
      (add_all readme with_5 (2 ∷ 4 ∷ [])).score
      (bound_cheap (prepare_bounds readme offered) with_5 1 2)
    ≡ false
bound_cheap-least_example =
    bound_cheap-least readme offered 1 2 with_5 readme-IsMeasured (2 ∷ 4 ∷ []) completion

bound_worst-least_example :
    less
      (add_all readme with_5 (2 ∷ 4 ∷ [])).score
      (bound_worst (prepare_bounds readme offered) with_5 1 2)
    ≡ false
bound_worst-least_example =
    bound_worst-least readme offered 1 1 with_5 readme-IsMeasured (2 ∷ 4 ∷ []) completion
