-- ===== src/Samples/Machine.antt =====
-- The PCI tree of README.md ("Preferred device allocation") as a file system and an inventory.
use k8s_device_plugin.Prelude.{ℕ, ◌+◌, true, List, [], ◌∷◌, ◌++◌, Option, none, some}
use k8s_device_plugin.Prelude.Texts.{Text, str, text_eq}
use k8s_device_plugin.Prelude.Dict.{Dict, lookup}
use k8s_device_plugin.Go.Result.{Result, ok, err}
use k8s_device_plugin.Go.Host.{Host, FileError, not_exist}
use k8s_device_plugin.Device.{NpuDevice, healthy, unhealthy}

abbrev found {ℓ} : {A : Type ℓ} → Option A → Result FileError A
found none = err not_exist
found (some a) = ok a

abbrev pub bus : ℕ → Text
bus n = str "0000:0" ++ (b'0' + n) ∷ str ":00.0"

abbrev pci_root : Text
pci_root = str "/sys/devices/pci0000:00/0000:00:01.0/0000:10:00.0"

abbrev pub real_paths : Dict Text Text
real_paths =
    (str "/sys/bus/pci/devices/" ++ bus 0, pci_root ++ str "/0000:11:00.0/" ++ bus 0)
    ∷ (str "/sys/bus/pci/devices/" ++ bus 1, pci_root ++ str "/0000:11:01.0/" ++ bus 1)
    ∷ (str "/sys/bus/pci/devices/" ++ bus 2, pci_root ++ str "/0000:11:00.0/" ++ bus 2)
    ∷ (str "/sys/bus/pci/devices/" ++ bus 3, pci_root ++ str "/0000:11:01.0/" ++ bus 3)
    ∷ (str "/sys/bus/pci/devices/" ++ bus 4, str "/sys/devices/pci0000:00/0000:00:02.0/" ++ bus 4)
    ∷ (str "/sys/bus/pci/devices/" ++ bus 5, str "/sys/devices/pci0000:80/0000:80:01.0/" ++ bus 5)
    ∷ []

abbrev pub machine : Host
machine = record {
  lstat = λ p. err not_exist;
  readlink = λ p. err not_exist;
  read_file = λ p. err not_exist;
  eval_symlinks = λ p. found (lookup p real_paths);
  stat_is_dir = λ p. ok true;
}

-- Devices with distinct SIDs on NUMA node 0.
abbrev pub npu : ℕ → NpuDevice
npu n = record {
  info = record {
    name = str "rbln" ++ (b'0' + n) ∷ [];
    product_name = str "RBLN-CA25";
    pci_device_id = str "1250";
    pci_bus_id = bus n;
    pci_numa_node = str "0";
    sid = str "sid-" ++ (b'0' + n) ∷ [];
  };
  health = healthy;
  status_name = str "READY";
  parent_pf_bus_id = [];
}

abbrev pub rbln : ℕ → Text
rbln n = str "rbln" ++ (b'0' + n) ∷ []

abbrev inventory_of : List ℕ → Dict Text NpuDevice
inventory_of [] = []
inventory_of (n ∷ ns) = (rbln n, npu n) ∷ inventory_of ns

abbrev pub ids : List ℕ → List Text
ids [] = []
ids (n ∷ ns) = rbln n ∷ ids ns

-- A map may be visited in any order.
abbrev pub inventory : Dict Text NpuDevice
inventory = inventory_of (3 ∷ 0 ∷ 6 ∷ 1 ∷ 5 ∷ 2 ∷ 4 ∷ [])

-- Functions 1 and 2 are VFs of function 0, in the mode of four; function 3 is not partitioned.
abbrev sysfs : Text → Text → Text
sysfs bus_id file = str "/sys/bus/pci/devices/" ++ bus_id ++ str "/" ++ file

abbrev links : Dict Text Text
links =
    (sysfs (bus 1) (str "physfn"), str "../" ++ bus 0)
    ∷ (sysfs (bus 2) (str "physfn"), str "../" ++ bus 0)
    ∷ []

abbrev files : Dict Text Text
files =
    (sysfs (bus 0) (str "sriov_numvfs"), str "4\n")
    ∷ (sysfs (bus 3) (str "sriov_numvfs"), str "0\n")
    ∷ (str "/sys/class/rebellions/rbln3/status", str "3\n")
    ∷ []

abbrev present : Option Text → Result FileError (Unit {0})
present none = err not_exist
present (some t) = ok tt

abbrev pub sriov_machine : Host
sriov_machine = record machine {
  lstat = λ p. present (lookup p links);
  readlink = λ p. found (lookup p links);
  read_file = λ p. found (lookup p files);
}

-- The inventory after a fault of one device.
abbrev pub faulted : Dict Text NpuDevice
faulted = (rbln 0, record (npu 0) { health = unhealthy; status_name = str "FAULT" }) ∷ []
