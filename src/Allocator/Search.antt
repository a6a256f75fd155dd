-- ===== src/Allocator/Search.antt =====
-- `allocationSearch`: the state of the search, and what `add` and its undoing do to it. The
-- fields that `prepareBounds` sets, and that the search only reads, are a record of their own.
use k8s_device_plugin.Prelude.{
  ℕ, ◌+◌, ◌-◌, max, false, List, [], ◌∷◌, ◌++◌, Option, none, some, get_or, set, drop_last, nat_beq,
  if◌then◌else◌,
}
use k8s_device_plugin.Pci.Tree.{PciDistance, unknown_distance}
use k8s_device_plugin.Allocator.Score.{Score}
use k8s_device_plugin.Allocator.Model.{AllocationDevice, TopologyAllocator}

pub record Setup : Type 0 where
  pub allocator : TopologyAllocator
  pub candidates : List ℕ
  pub suffix_sid : List (List ℕ)
  pub suffix_known_numa : List ℕ
  pub suffix_known_pci : List ℕ
  pub min_distance : ℕ
  pub min_separate_roots : ℕ

-- `best` is `none` for a nil slice. At a leaf of the search `chosen` is never empty, so that what
-- the source stores there is not nil.
pub record State : Type 0 where
  pub chosen : List ℕ
  pub best : Option (List ℕ)
  pub sid_counts : List ℕ
  pub numa_counts : List ℕ
  pub score : Score
  pub best_score : Score

-- What a read out of range gives. The indices of the program are in range.
abbrev pub no_device : AllocationDevice
no_device = record { id = []; sid = 0; numa = none; has_pci = false }

unfoldable pub device_at : TopologyAllocator → ℕ → AllocationDevice
device_at a i = get_or a.devices i no_device

unfoldable pub pair_at : TopologyAllocator → ℕ → ℕ → PciDistance
pair_at a i j = get_or (get_or a.pairs i []) j unknown_distance

-- `counts[i]++` and `counts[i]--`
unfoldable pub increment : List ℕ → ℕ → List ℕ
increment counts i = set counts i (get_or counts i 0 + 1)

unfoldable pub decrement : List ℕ → ℕ → List ℕ
decrement counts i = set counts i (get_or counts i 0 - 1)

unfoldable pub score_sid : AllocationDevice → List ℕ → Score → Score
score_sid device sid_counts score =
    if nat_beq (get_or sid_counts device.sid 0) 0
    then record score { sid_groups = score.sid_groups + 1 }
    else score

unfoldable pub score_numa : AllocationDevice → List ℕ → Score → Score
score_numa device numa_counts score = elim device.numa [
  | none ↦ record score { unknown_numa = score.unknown_numa + 1 }
  | some n ↦
      if nat_beq (get_or numa_counts n 0) 0
      then record score { numa_nodes = score.numa_nodes + 1 }
      else score
]

unfoldable pub count_numa : AllocationDevice → List ℕ → List ℕ
unfolding increment
count_numa device numa_counts = elim device.numa [
  | none ↦ numa_counts
  | some n ↦ increment numa_counts n
]

unfoldable pub score_pci : AllocationDevice → Score → Score
score_pci device score =
    if device.has_pci then score else record score { unknown_pci = score.unknown_pci + 1 }

unfoldable pub score_pair : PciDistance → Score → Score
score_pair pair score =
    let rooted = record score {
      separate_roots =
          if pair.separate_roots then score.separate_roots + 1 else score.separate_roots;
    } in
    if pair.known
    then record rooted {
      max_distance = max score.max_distance pair.hops;
      total_distance = score.total_distance + pair.hops;
    }
    else rooted

unfoldable pub score_pairs : TopologyAllocator → ℕ → List ℕ → Score → Score
unfolding score_pair pair_at
score_pairs a index [] score = score
score_pairs a index (other ∷ others) score =
    score_pairs a index others (score_pair (pair_at a index other) score)

unfoldable pub add : TopologyAllocator → State → ℕ → State
unfolding device_at increment score_sid score_numa count_numa score_pci score_pairs
add a s index =
    let device = device_at a index in
    record s {
      chosen = s.chosen ++ index ∷ [];
      sid_counts = increment s.sid_counts device.sid;
      numa_counts = count_numa device s.numa_counts;
      score = score_pairs a index s.chosen (
          score_pci device
            (score_numa device s.numa_counts (score_sid device s.sid_counts s.score)));
    }

unfoldable pub discount_numa : AllocationDevice → List ℕ → List ℕ
unfolding decrement
discount_numa device numa_counts = elim device.numa [
  | none ↦ numa_counts
  | some n ↦ decrement numa_counts n
]

-- The last statements of the loop of `search`, for the score that was saved before `add`.
unfoldable pub take_back : TopologyAllocator → State → ℕ → Score → State
unfolding device_at decrement discount_numa
take_back a s index previous =
    let device = device_at a index in
    record s {
      chosen = drop_last s.chosen;
      sid_counts = decrement s.sid_counts device.sid;
      numa_counts = discount_numa device s.numa_counts;
      score = previous;
    }
