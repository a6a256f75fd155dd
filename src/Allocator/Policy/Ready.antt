-- ===== src/Allocator/Policy/Ready.antt =====
-- The state in which `SelectDevices` starts, before it adds the required devices.
use k8s_device_plugin.Prelude.{
  get_or-replicate, ℕ, zero, suc, ◌<◌, Bool, true, ◌&&◌, List, [], ◌∷◌, Option, none, some, ◌≡◌,
  refl, arith, length-replicate, get_or, ltb,
}
use k8s_device_plugin.Allocator.Model.{AllocationDevice, TopologyAllocator}
use k8s_device_plugin.Allocator.Search.{device_at, no_device}
use k8s_device_plugin.Allocator.Select.{initial_state}
use k8s_device_plugin.Allocator.Policy.{
  policy_score, count, distinct, sids, numas, without_numa, without_pci, sum_pairs, max_pairs,
}
use k8s_device_plugin.Allocator.Policy.Best.{IsReady}

unfoldable pub numa_below : ℕ → Option ℕ → Bool
numa_below bound none = true
numa_below bound (some n) = ltb n bound

-- The groups and the nodes of the devices are below the two counts.
unfoldable pub all_below : (sids numas : ℕ) → List AllocationDevice → Bool
unfolding numa_below
all_below sids numas [] = ltb 0 sids
all_below sids numas (d ∷ ds) = ltb d.sid sids && numa_below numas d.numa && all_below sids numas ds

all_below-get_or :
    (sids numas : ℕ) (ds : List AllocationDevice) (i : ℕ)
    → all_below sids numas ds ≡ true
    → ((get_or ds i no_device).sid < sids)
      × ((n : ℕ) → (get_or ds i no_device).numa ≡ some n → n < numas)
unfolding all_below numa_below
all_below-get_or sids numas [] i h = (ground (arith, h), λ n e. absurd cc)
all_below-get_or sids numas (d ∷ ds) zero h = (ground (arith, h), λ n e. ground (arith, h, e))
all_below-get_or sids numas (d ∷ ds) (suc i) h =
    all_below-get_or sids numas ds i (ground (arith, h))

pub initial_state-IsReady :
    (a : TopologyAllocator)
    → all_below a.sid_count a.numa_count a.devices ≡ true
    → IsReady a (initial_state a)
unfolding device_at policy_score count distinct sids numas without_numa without_pci sum_pairs
    max_pairs
initial_state-IsReady a h = record {
  counted = record {
    scored = refl;
    by_sid = λ k m. get_or-replicate a.sid_count k;
    by_numa = λ k m. get_or-replicate a.numa_count k;
  };
  in_range = λ i.
      let (s, n) = all_below-get_or a.sid_count a.numa_count a.devices i h in
      record {
        sid_fits = omega (arith, s, length-replicate {A = ℕ} a.sid_count 0);
        numa_fits = λ m e. omega (arith, n m e, length-replicate {A = ℕ} a.numa_count 0);
      };
  best_scored = λ b e. absurd cc;
}
