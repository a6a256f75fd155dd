-- ===== src/Pci/Address.antt =====
-- The two patterns of pci_topology.go, and `pciDeviceAncestors`.
use k8s_device_plugin.Prelude.{
  ℕ, Bool, true, false, not, ◌&&◌, ◌||◌, List, [], ◌∷◌, ◌++◌, leb, nat_beq, if◌then◌else◌, length,
  ltb,
}
use k8s_device_plugin.Prelude.Texts.{Text, str}
use k8s_device_plugin.Go.Result.{Result, ok, err}
use k8s_device_plugin.Go.Strings.{to_lower, split, equal_fold}
use k8s_device_plugin.Go.Filepath.{clean, join, base}
use k8s_device_plugin.Go.Host.{Host, FileError}

abbrev is_hex : ℕ → Bool
is_hex c = (leb b'0' c && leb c b'9') || (leb b'a' c && leb c b'f') || (leb b'A' c && leb c b'F')

abbrev is_octal : ℕ → Bool
is_octal c = leb b'0' c && leb c b'7'

-- A pattern of one test for each byte, anchored at both ends.
match_bytes : List (ℕ → Bool) → Text → Bool
match_bytes [] [] = true
match_bytes (p ∷ ps) (c ∷ s) = p c && match_bytes ps s
match_bytes _ _ = false

abbrev hex_4_colon_hex_2 : List (ℕ → Bool)
hex_4_colon_hex_2 = is_hex ∷ is_hex ∷ is_hex ∷ is_hex ∷ nat_beq b':' ∷ is_hex ∷ is_hex ∷ []

unfoldable pub is_pci_address : Text → Bool
unfolding match_bytes
is_pci_address =
    match_bytes (hex_4_colon_hex_2 ++ nat_beq b':' ∷ is_hex ∷ is_hex ∷ nat_beq b'.' ∷ is_octal ∷ [])

unfoldable pub is_pci_root : Text → Bool
unfolding match_bytes
is_pci_root = match_bytes (nat_beq b'p' ∷ nat_beq b'c' ∷ nat_beq b'i' ∷ hex_4_colon_hex_2)

abbrev pub pci_sysfs_devices_path : Text
pci_sysfs_devices_path = str "/sys/bus/pci/devices"

pub data AncestorError : Type 0 where
  invalid_address : Text → AncestorError
  unreadable : FileError → AncestorError
  not_at_device : Text → AncestorError
  unexpected_component : Text → AncestorError
  root_missing : Text → AncestorError

-- The loop over the segments of the path: `current` is the path so far.
pub collect : Text → List Text → List Text → Result AncestorError (List Text)
unfolding is_pci_address is_pci_root join
collect current found [] = ok found
collect current found (segment ∷ segments) =
    let next = join (current ∷ segment ∷ []) in
    let with_next = collect next (found ++ next ∷ []) segments in
    let without = collect next found segments in
    if is_pci_root segment && nat_beq (length found) 0
    then with_next
    else if ltb 0 (length found)
    then (if not (is_pci_address segment) then err (unexpected_component segment) else with_next)
    else without

unfoldable pub long_enough :
    Text → Result AncestorError (List Text) → Result AncestorError (List Text)
long_enough bus_id (err e) = err e
long_enough bus_id (ok found) = if ltb (length found) 2 then err (root_missing bus_id) else ok found

unfoldable pub ancestors_of_path : Text → Text → Bool → Result AncestorError (List Text)
unfolding collect long_enough clean split base equal_fold
ancestors_of_path bus_id path is_dir =
    if not is_dir || not (equal_fold (base path) bus_id)
    then err (not_at_device bus_id)
    else long_enough bus_id (collect (str "/") [] (split (clean path) b'/'))

unfoldable pub pci_device_ancestors : Host → Text → Result AncestorError (List Text)
unfolding ancestors_of_path is_pci_address join to_lower
pci_device_ancestors host bus_id =
    if not (is_pci_address bus_id)
    then err (invalid_address bus_id)
    else elim (host.eval_symlinks (join (pci_sysfs_devices_path ∷ to_lower bus_id ∷ []))) [
      | err e ↦ err (unreadable e)
      | ok path ↦ elim (host.stat_is_dir path) [
        | err e ↦ err (unreadable e)
        | ok is_dir ↦ ancestors_of_path bus_id path is_dir
      ]
    ]
