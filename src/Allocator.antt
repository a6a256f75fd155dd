-- ===== src/Allocator.antt =====
-- cmd/rbln-device-plugin/topology_allocator.go and pci_allocation_bounds.go: the choice of the
-- devices that a container should get.
pub mod Score
pub mod Model
pub mod Search
pub mod Placement
pub mod Bound
pub mod Backtrack
pub mod Select
pub mod Policy
