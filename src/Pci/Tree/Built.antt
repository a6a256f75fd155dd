-- ===== src/Pci/Tree/Built.antt =====
-- Every tree that `newPCITree` returns is a well-formed forest, whatever sysfs holds.
use k8s_device_plugin.Prelude.{
  ℕ, ◌<◌, Option-cases, List, [], ◌∷◌, Option, none, some, ◌≡◌, refl, inl, inr, arith, length,
}
use k8s_device_plugin.Prelude.Texts.{Text, text_eq}
use k8s_device_plugin.Prelude.Dict.{Dict, lookup, insert, lookup-insert}
use k8s_device_plugin.Go.Result.{Result-cases}
use k8s_device_plugin.Go.Host.{Host}
use k8s_device_plugin.Device.{NpuDevice, sorted_device_ids}
use k8s_device_plugin.Pci.Address.{pci_device_ancestors}
use k8s_device_plugin.Pci.Tree.{
  PciTree, node_at, empty_tree, add_node, Interned, intern_path, intern_paths, set_device,
  add_device, add_devices, new_pci_tree,
}
use k8s_device_plugin.Pci.Tree.Shape.{IsTree, IsInside, with_parent, length-add_node}
use k8s_device_plugin.Pci.Tree.Grown.{add_root-IsTree, add_child-IsTree}

-- A map into the nodes of a tree.
abbrev pub AllInside : PciTree → Dict Text ℕ → Type 0
AllInside t m = (key : Text) (n : ℕ) → lookup key m ≡ some n → n < length t.nodes

-- A well-formed tree whose devices stand at its nodes.
pub record IsForest (t : PciTree) : Type 0 where
  pub shape : IsTree t
  pub placed : AllInside t t.devices

AllInside-insert :
    (t : PciTree) (m : Dict Text ℕ) (key : Text) (n : ℕ)
    → n < length t.nodes
    → AllInside t m
    → AllInside t (insert key n m)
AllInside-insert t m key n h v other k e =
    ground (arith, h, v other k, lookup-insert key other n m, e)

add_node-IsForest :
    (t : PciTree) (p : Option ℕ) → IsInside t p → IsForest t → IsForest (add_node t p)
unfolding add_node
add_node-IsForest t none h v = record {
  shape = add_root-IsTree t v.shape;
  placed = λ key n e. ground (arith, v.placed key n e, length-add_node t none);
}
add_node-IsForest t (some p) h v = record {
  shape = add_child-IsTree t v.shape p h;
  placed = λ key n e. ground (arith, v.placed key n e, length-add_node t (some p));
}

-- The state of the loop over the ancestors.
record IsInterned (s : Interned) : Type 0 where
  forest : IsForest s.0
  nodes_inside : AllInside s.0 s.1
  parent_inside : IsInside s.0 s.2

intern_path-IsInterned :
    (s : Interned) (path : Text) → IsInterned s → IsInterned (intern_path s path)
unfolding intern_path
intern_path-IsInterned (t, nodes, parent) path v = elim (Option-cases (lookup path nodes)) [
  | inl new ↦
      rw (new, intern_path)
        (record {
          forest = add_node-IsForest t parent v.parent_inside v.forest;
          nodes_inside =
              AllInside-insert (add_node t parent) nodes path (length t.nodes)
                (omega (arith, length-add_node t parent))
                (λ key n e. omega (arith, v.nodes_inside key n e, length-add_node t parent));
          parent_inside = omega (arith, length-add_node t parent);
        })
  | inr (n, old) ↦
      rw (old, intern_path)
        (record {
          forest = v.forest;
          nodes_inside = v.nodes_inside;
          parent_inside = v.nodes_inside path n old;
        })
]

intern_paths-IsInterned :
    (paths : List Text) (s : Interned) → IsInterned s → IsInterned (intern_paths s paths)
unfolding intern_paths
intern_paths-IsInterned [] s v = v
intern_paths-IsInterned (path ∷ paths) s v =
    intern_paths-IsInterned paths (intern_path s path) (intern_path-IsInterned s path v)

-- The state of the loop over the devices.
record IsBuilt (s : PciTree × Dict Text ℕ) : Type 0 where
  forest : IsForest s.0
  nodes_inside : AllInside s.0 s.1

set_device-IsBuilt : (id : Text) (s : Interned) → IsInterned s → IsBuilt (set_device id s)
unfolding node_at
set_device-IsBuilt id (t, nodes, none) v = record {
  forest = v.forest;
  nodes_inside = v.nodes_inside;
}
set_device-IsBuilt id (t, nodes, some n) v = record {
  forest = record {
    shape = record {
      root_alone = v.forest.shape.root_alone;
      child_below = v.forest.shape.child_below;
      all_children = v.forest.shape.all_children;
      all_roots = v.forest.shape.all_roots;
    };
    placed = AllInside-insert t t.devices id n v.parent_inside v.forest.placed;
  };
  nodes_inside = v.nodes_inside;
}

add_device-IsBuilt :
    (host : Host) (id : Text) (device : NpuDevice) (s : PciTree × Dict Text ℕ)
    → IsBuilt s
    → IsBuilt (add_device host id device s)
unfolding add_device
add_device-IsBuilt host id device (t, nodes) v =
    elim (Result-cases (pci_device_ancestors host device.info.pci_bus_id)) [
      | inl (ancestors, e) ↦
          rw (e, add_device)
            (set_device-IsBuilt id (intern_paths (t, nodes, none) ancestors) (
              intern_paths-IsInterned ancestors (t, nodes, none)
                (record { forest = v.forest; nodes_inside = v.nodes_inside; parent_inside = tt })))
      | inr (e, f) ↦ rw (f, add_device) v
    ]

add_devices-IsBuilt :
    (host : Host) (devices : Dict Text NpuDevice) (ids : List Text) (s : PciTree × Dict Text ℕ)
    → IsBuilt s
    → IsBuilt (add_devices host devices ids s)
unfolding add_devices
add_devices-IsBuilt host devices [] s v = v
add_devices-IsBuilt host devices (id ∷ ids) s v = elim (Option-cases (lookup id devices)) [
  | inl e ↦ rw (e, add_devices) (add_devices-IsBuilt host devices ids s v)
  | inr (device, e) ↦
      rw (e, add_devices)
        (add_devices-IsBuilt host devices ids (add_device host id device s)
          (add_device-IsBuilt host id device s v))
]

-- Every tree that `newPCITree` returns is well formed, whatever sysfs holds.
pub new_pci_tree-IsForest :
    (host : Host) (devices : Dict Text NpuDevice) → IsForest (new_pci_tree host devices)
unfolding new_pci_tree lookup with_parent
new_pci_tree-IsForest host devices =
    (add_devices-IsBuilt host devices (sorted_device_ids devices) (empty_tree, [])
      (record {
        forest = record {
          shape = record {
            root_alone = λ i h e. absurd (omega (arith, h));
            child_below = λ i q h e. absurd (omega (arith, h));
            all_children = λ q h. absurd (omega (arith, h));
            all_roots = refl;
          };
          placed = λ key n e. absurd (ground (arith, e));
        };
        nodes_inside = λ key n e. absurd (ground (arith, e));
      })).forest
