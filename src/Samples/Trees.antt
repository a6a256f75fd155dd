-- ===== src/Samples/Trees.antt =====
-- The theorems on the PCI tree, at the machine of README.md.
use k8s_device_plugin.Pci.Tree.{new_pci_tree, distance}
use k8s_device_plugin.Pci.Tree.Built.{IsForest, new_pci_tree-IsForest}
use k8s_device_plugin.Pci.Tree.Distances.{IsDistance, distance-new_pci_tree}
use k8s_device_plugin.Samples.Machine.{machine, inventory, rbln}

new_pci_tree-IsForest_example : IsForest (new_pci_tree machine inventory)
new_pci_tree-IsForest_example = new_pci_tree-IsForest machine inventory

distance-new_pci_tree_example :
    IsDistance
      (new_pci_tree machine inventory)
      (rbln 0)
      (rbln 1)
      (distance (new_pci_tree machine inventory) (rbln 0) (rbln 1))
distance-new_pci_tree_example = distance-new_pci_tree machine inventory (rbln 0) (rbln 1)
