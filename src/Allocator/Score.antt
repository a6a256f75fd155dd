-- ===== src/Allocator/Score.antt =====
-- `allocationScore`: seven numbers, compared in their order.
use k8s_device_plugin.Prelude.{ℕ, Bool, true, false, List, [], ◌∷◌, ltb, if◌then◌else◌}

pub record Score : Type 0 where
  pub unknown_numa : ℕ
  pub numa_nodes : ℕ
  pub sid_groups : ℕ
  pub unknown_pci : ℕ
  pub separate_roots : ℕ
  pub max_distance : ℕ
  pub total_distance : ℕ

abbrev pub zero_score : Score
zero_score = record {
  unknown_numa = 0;
  numa_nodes = 0;
  sid_groups = 0;
  unknown_pci = 0;
  separate_roots = 0;
  max_distance = 0;
  total_distance = 0;
}

unfoldable pub values : Score → List ℕ
values s =
    s.unknown_numa ∷ s.numa_nodes ∷ s.sid_groups ∷ s.unknown_pci ∷ s.separate_roots ∷ s.max_distance
    ∷ s.total_distance ∷ []

-- `slices.Compare(xs, ys) < 0`
unfoldable pub slices_less : List ℕ → List ℕ → Bool
slices_less [] [] = false
slices_less [] (y ∷ ys) = true
slices_less (x ∷ xs) [] = false
slices_less (x ∷ xs) (y ∷ ys) =
    if ltb x y then true else if ltb y x then false else slices_less xs ys

unfoldable pub less : Score → Score → Bool
unfolding slices_less values
less s other = slices_less (values s) (values other)
