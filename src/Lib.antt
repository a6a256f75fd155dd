-- ===== src/Lib.antt =====
-- The Kubernetes device plugin for Rebellions NPUs: cmd/rbln-device-plugin, pkg/consts and
-- pkg/logging.
--
-- The program scans the devices of a node. The scan classifies each device by the SR-IOV state
-- that sysfs shows, groups the devices by the resource that advertises them, and reports their
-- health. For each resource there is a plugin server, which the kubelet asks for its devices,
-- and for the devices that it should prefer for a container. It scores combinations of devices,
-- by NUMA nodes first, then cards, then PCI paths, and looks for the least score by a branch-
-- and-bound search. The manager scans at every tick, starts the plugins anew when the kubelet
-- does, and ends with the command; the health service reports whether it runs.
--
-- The files and the code that they model:
-- - Prelude, with its children: Boolean tests on the native numbers, lists, texts as lists of
--   bytes, sorting, and maps as association lists.
-- - Go: what the program uses of the Go library. Results are values or errors; integers are
--   unbounded; strings, strconv and filepath are the functions that the code calls, on bytes of
--   ASCII. Go.Host is the file system, as one function for each call that the program makes.
-- - Consts: pkg/consts/consts.go.
-- - Device: a device as the device library reports it, NPUDevice and sortedDeviceIDs of
--   inventory.go.
-- - Pci.Address and Pci.Tree: pci_topology.go, with the shape of the forest, the ancestors of a
--   node and the walks of the forest as an independent description. Nodes of the forest are
--   indices into its list of nodes, which the source keeps in a field as well.
-- - Allocator.Score, Model, Search, Bound, Backtrack and Select: topology_allocator.go, in the
--   order of the file. Allocator.Placement: pci_allocation_bounds.go; its child Placed describes
--   a placement of endpoints and its cost by itself. Allocator.Bound has a child for each part
--   of lowerBound: the counts and the greedy cover of groups, all pairs, and the worst
--   distances. Allocator.Policy: the score of a list of devices as README.md describes it, with
--   no counters. The search state is passed from call to call; what prepareBounds computes once
--   is a record of its own.
-- - Sriov: sriov.go. Status: status.go. Inventory: inventory.go.
-- - Plugin, with Updates: plugin.go. UpdateDevices is a sender that moves in steps between the
--   steps of a stream, which is ListAndWatch; they share the channel. A stream that has received
--   a list sends it in a step of its own. There is one sender, since reconcile holds the lock of
--   the manager, and one stream.
-- - Plugin.Server: Start, register and Stop of plugin.go; the directory, the socket with its
--   listener and the registration are functions of the system. Plugin.Records:
--   logInventoryDelta, and deviceLogAttrs of inventory.go.
-- - Plugin.Allocation: Allocate of plugin.go. The group driver, the CDI library and the device
--   nodes are fields of a record; time is the number of a poll, and the polls before the
--   deadline are counted down.
-- - Manager: reconcile of manager.go. Whether Start and Stop of a plugin succeed is an argument,
--   which Manager.Registered fills with the servers of Plugin.Server. Manager.Loop: NewManager's
--   record, the events of Run, restart and Stop. An event comes with what the calls that it
--   causes find of the machine then. The first scan takes time: a run without a first scan is
--   one in which it has not ended. Stop records the plugins that it stops.
-- - Health: health.go. Program: Run and NewManager, of main.go and manager.go. Tracing:
--   tracing.go.
-- - Logging: pkg/logging/logging.go. Bridges: grpclog.go and otellog.go.
-- - Cdi: the cleanup of specs in cdi.go, with the paths that it removes; Cdi.Cleanup describes
--   the specs by their names.
-- - Samples: the machine of the README, runs of the code on it, and the theorems at concrete
--   inputs.
--
-- Loops are recursion on the list they run over, or on the number of rounds they make.
-- pciSubtreeCosts recurses down the tree; its fuel is the number of nodes, and no path is
-- longer. climb and meet of the distance run on the depths of the nodes in the same way. Numbers
-- that the source never makes negative are natural numbers; where it subtracts, the model moves
-- the subtrahend to the other side of the comparison, or stops at zero as max(0, …) does.
-- Numbers are not bounded by the width of a machine word.
--
-- A Go map is visited in no fixed order; the program sorts the keys wherever the order matters.
-- A map is here an association list with each key once, which is a hypothesis where a theorem
-- needs it.
--
-- Not modelled: the annotations of CDI (the rest of cdi.go, which calls its library); flags,
-- arguments and signals of the command (the rest of main.go, which calls libraries for them);
-- spans of the tracing library in Allocate; records that state what a theorem states of the code
-- anyway, as those of a scan or of an allocation; and messages of errors beyond what they name.
pub mod Prelude
pub mod Go
pub mod Consts
pub mod Device
pub mod Pci
pub mod Allocator
pub mod Sriov
pub mod Status
pub mod Inventory
pub mod Plugin
pub mod Health
pub mod Manager
pub mod Program
pub mod Tracing
pub mod Bridges
pub mod Cdi
pub mod Logging
pub mod Samples
