-- ===== src/Allocator/Bound.antt =====
-- `prepareBounds` and `lowerBound`.
--
-- Counts are natural numbers. Where the source subtracts below zero and then takes `max(0, …)` or
-- asks `> 0`, the model moves the subtrahend to the other side, or stops at zero.
pub mod Cheap
pub mod Worst
pub mod Least
pub mod Pairs
pub mod Counts
pub mod Suffixes
pub mod Groups
pub mod Cover
pub mod Marks
use mathlib.Core.List.{reverse}
use k8s_device_plugin.Prelude.{
  ℕ, zero, suc, ◌+◌, ◌-◌, ◌*◌, ◌/◌, min, max, Bool, true, false, not, List, [], ◌∷◌, ◌++◌, map,
  none, some, length, get_or, replicate, take, drop, ltb, nat_beq, if◌then◌else◌,
}
use k8s_device_plugin.Prelude.Sorting.{sort, nat_order}
use k8s_device_plugin.Pci.Tree.{PciDistance}
use k8s_device_plugin.Allocator.Score.{Score, values, slices_less, less}
use k8s_device_plugin.Allocator.Model.{AllocationDevice, TopologyAllocator}
use k8s_device_plugin.Allocator.Search.{Setup, State, device_at, pair_at, increment}
use k8s_device_plugin.Allocator.Placement.{pci_lower_bound}

abbrev pub has_numa : AllocationDevice → Bool
has_numa d = elim d.numa [ none ↦ false | some n ↦ true ]

-- Entry `i` counts, for each SID group, the candidates from `i` on.
unfoldable pub suffix_sids : TopologyAllocator → ℕ → List ℕ → List (List ℕ)
unfolding increment device_at
suffix_sids a groups [] = replicate groups 0 ∷ []
suffix_sids a groups (c ∷ cs) =
    let rest = suffix_sids a groups cs in increment (get_or rest 0 []) (device_at a c).sid ∷ rest

-- Entry `i` counts the candidates from `i` on that pass the test.
unfoldable pub suffix_known : (AllocationDevice → Bool) → TopologyAllocator → List ℕ → List ℕ
unfolding device_at
suffix_known test a [] = 0 ∷ []
suffix_known test a (c ∷ cs) =
    let rest = suffix_known test a cs in
    (if test (device_at a c) then get_or rest 0 0 + 1 else get_or rest 0 0) ∷ rest

-- `int(^uint(0) >> 1)`
abbrev pub max_int : ℕ
max_int = 9223372036854775807

abbrev pub Least : Type 0
Least = ℕ × ℕ

-- `minDistance` and `minSeparateRoots` after one pair.
unfoldable pub least_pair : PciDistance → Least → Least
least_pair pair (hops, roots) = (
  (if pair.known then min hops pair.hops else hops),
  (if not pair.separate_roots then 0 else roots),
)

-- `for j := 0; j < i; j++`, with `n` rounds left.
unfoldable pub least_row : TopologyAllocator → ℕ → ℕ → ℕ → Least → Least
unfolding least_pair pair_at
least_row a i j zero l = l
least_row a i j (suc n) l = least_row a i (j + 1) n (least_pair (pair_at a i j) l)

unfoldable pub least_rows : TopologyAllocator → ℕ → ℕ → Least → Least
unfolding least_row
least_rows a i zero l = l
least_rows a i (suc n) l = least_rows a (i + 1) n (least_row a i 0 i l)

unfoldable pub prepare_bounds : TopologyAllocator → List ℕ → Setup
unfolding suffix_sids suffix_known least_rows
prepare_bounds a candidates =
    let (hops, roots) = least_rows a 0 (length a.devices) (max_int, 1) in
    record {
      allocator = a;
      candidates = candidates;
      suffix_sid = suffix_sids a a.sid_count candidates;
      suffix_known_numa = suffix_known has_numa a candidates;
      suffix_known_pci = suffix_known (λ d. d.has_pci) a candidates;
      min_distance = if nat_beq hops max_int then 0 else hops;
      min_separate_roots = roots;
    }

-- `n * (n - 1) / 2`
unfoldable pub triangle : ℕ → ℕ
triangle n = n * (n - 1) / 2

-- The first loop of `lowerBound`: what open groups leave to place, and the room of the others.
unfoldable pub group_room : List ℕ → ℕ → List ℕ → ℕ → List ℕ → ℕ × List ℕ
group_room sid_counts sid [] need_new capacities = (need_new, capacities)
group_room sid_counts sid (capacity ∷ rest) need_new capacities =
    let open_group = ltb 0 (get_or sid_counts sid 0) in
    group_room sid_counts (sid + 1) rest (if open_group then need_new - capacity else need_new) (
      if open_group
      then capacities
      else if ltb 0 capacity
      then capacities ++ capacity ∷ []
      else capacities)

-- The second loop, over the capacities from the largest on: how many groups must be opened.
unfoldable pub groups_needed : List ℕ → ℕ → ℕ
groups_needed [] need_new = 0
groups_needed (capacity ∷ rest) need_new =
    let more = groups_needed rest (need_new - capacity) in if ltb 0 need_new then more + 1 else 0

unfoldable pub new_groups : List ℕ → List ℕ → ℕ → ℕ
unfolding group_room groups_needed sort
new_groups sid_counts room remaining =
    let (need_new, capacities) = group_room sid_counts 0 room remaining [] in
    groups_needed (reverse (sort capacities)) need_new

-- The largest distance from a candidate to a chosen device.
unfoldable pub farthest : TopologyAllocator → ℕ → List ℕ → ℕ → ℕ
unfolding pair_at
farthest a candidate [] distance = distance
farthest a candidate (chosen ∷ rest) distance =
    farthest a candidate rest (max distance (pair_at a candidate chosen).hops)

module _ (setup : Setup) (s : State) (start remaining : ℕ) where
  -- `bound` after the counts that need no PCI path.
  unfoldable pub bound_counts : Score
  unfolding new_groups
  bound_counts = record s.score {
    sid_groups =
        s.score.sid_groups + new_groups s.sid_counts (get_or setup.suffix_sid start []) remaining;
    unknown_numa = s.score.unknown_numa + (remaining - get_or setup.suffix_known_numa start 0);
    unknown_pci = s.score.unknown_pci + (remaining - get_or setup.suffix_known_pci start 0);
    separate_roots =
        s.score.separate_roots
        + (remaining * length s.chosen + remaining * (remaining - 1) / 2)
          * setup.min_separate_roots;
  }

  unfoldable pub known_finally : ℕ
  unfolding bound_counts
  known_finally = length s.chosen + remaining - bound_counts.unknown_pci

  unfoldable pub bound_cheap : Score
  unfolding bound_counts known_finally triangle
  bound_cheap =
      let bound = bound_counts in
      let known_now = length s.chosen - s.score.unknown_pci in
      record bound {
        total_distance =
            bound.total_distance
            + (triangle known_finally
                + s.score.separate_roots
                - (triangle known_now + bound.separate_roots))
              * setup.min_distance;
        max_distance =
            if ltb bound.separate_roots (triangle known_finally)
            then max bound.max_distance setup.min_distance
            else bound.max_distance;
      }

  -- The distances from the candidates that are left to the chosen devices, in ascending order.
  unfoldable pub worst : List ℕ
  unfolding farthest sort
  worst = sort (map (λ c. farthest setup.allocator c s.chosen 0) (drop start setup.candidates))

  unfoldable pub bound_worst : Score
  unfolding bound_counts worst
  bound_worst = record bound_counts {
    max_distance = max bound_counts.max_distance (get_or worst (remaining - 1) 0);
  }

  unfoldable pub bound_tree : Score
  unfolding bound_worst known_finally triangle pci_lower_bound
  bound_tree =
      let pci =
        pci_lower_bound setup.allocator s.chosen (drop start setup.candidates) known_finally in
      record bound_worst {
        separate_roots = pci.separate_roots;
        total_distance = pci.total_distance;
        max_distance =
            if ltb pci.separate_roots (triangle known_finally)
            then max bound_worst.max_distance setup.min_distance
            else bound_worst.max_distance;
      }

  unfoldable pub lower_bound : Score
  unfolding bound_cheap bound_worst bound_tree less values slices_less
  lower_bound =
      if not (less bound_cheap s.best_score)
      then bound_cheap
      else if slices_less (take 4 (values bound_counts)) (take 4 (values s.best_score))
      then bound_cheap
      else if not (less bound_worst s.best_score)
      then bound_worst
      else bound_tree
