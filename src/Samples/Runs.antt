-- ===== src/Samples/Runs.antt =====
-- The rows of the README's table that keep the metadata of its tree, and two refusals.
use k8s_device_plugin.Prelude.{◌≡◌, refl, [], ◌∷◌}
use k8s_device_plugin.Go.Int.{pos, negsuc}
use k8s_device_plugin.Go.Result.{ok, err}
use k8s_device_plugin.Pci.Tree.{new_pci_tree, distance}
use k8s_device_plugin.Allocator.Select.{select_preferred_device_ids, negative_size, too_few}
use k8s_device_plugin.Allocator.Score.{less}
use k8s_device_plugin.Allocator.Search.{take_back}
use k8s_device_plugin.Allocator.Bound.{lower_bound}
use k8s_device_plugin.Samples.Machine.{machine, inventory, rbln, ids}

open_all : Unit {0}
unfolding select_preferred_device_ids new_pci_tree distance take_back less lower_bound
open_all = tt

distance-siblings : (distance (new_pci_tree machine inventory) (rbln 0) (rbln 2)).hops ≡ 2
unfolding open_all
distance-siblings = refl

distance-cousins : (distance (new_pci_tree machine inventory) (rbln 0) (rbln 4)).hops ≡ 6
unfolding open_all
distance-cousins = refl

closest_pair :
    select_preferred_device_ids machine inventory (ids (0 ∷ 1 ∷ 2 ∷ 3 ∷ 4 ∷ 5 ∷ 6 ∷ [])) [] (pos 2)
    ≡ ok (ids (0 ∷ 2 ∷ []))
unfolding open_all
closest_pair = refl

required_without_path :
    select_preferred_device_ids machine inventory
      (ids (0 ∷ 1 ∷ 2 ∷ 3 ∷ 4 ∷ 5 ∷ 6 ∷ []))
      (ids (6 ∷ []))
      (pos 3)
    ≡ ok (ids (6 ∷ 0 ∷ 2 ∷ []))
unfolding open_all
required_without_path = refl

same_root_first :
    select_preferred_device_ids machine inventory (ids (5 ∷ 4 ∷ 0 ∷ [])) (ids (0 ∷ [])) (pos 2)
    ≡ ok (ids (0 ∷ 4 ∷ []))
unfolding open_all
same_root_first = refl

refused_negative :
    select_preferred_device_ids machine inventory (ids (0 ∷ [])) [] (negsuc 0) ≡ err negative_size
unfolding open_all
refused_negative = refl

refused_too_few :
    select_preferred_device_ids machine inventory (ids (0 ∷ 0 ∷ [])) [] (pos 2) ≡ err (too_few 2 1)
unfolding open_all
refused_too_few = refl
