-- ===== src/Pci.antt =====
-- cmd/rbln-device-plugin/pci_topology.go: PCI paths, the forest that they make, and distances.
pub mod Address
pub mod Tree
