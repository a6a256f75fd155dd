-- ===== src/Inventory/Groups.antt =====
-- `discoverDeviceGroups` against a description of who is advertised where.
use k8s_device_plugin.Prelude.{
  Bool, true, false, ◌&&◌, List, [], ◌∷◌, Option, none, some, ◌≡◌, refl, sym, subst, inl, inr,
  arith, Option-cases, Bool-cases, ==_iff, if◌then◌else◌, ◌==◌, ◌∙◌,
}
use k8s_device_plugin.Prelude.Texts.{Text, text_eq}
use k8s_device_plugin.Prelude.Dict.{Dict, lookup, insert, IsMap, lookup-insert, insert-IsMap}
use k8s_device_plugin.Go.Result.{Result, ok, err}
use k8s_device_plugin.Go.Host.{Host}
use k8s_device_plugin.Device.{Device, NpuDevice}
use k8s_device_plugin.Inventory.{
  DeviceGroup, Groups, npu_of, group_or_new, put_device, classify, add_discovered,
  add_all_discovered, discover_device_groups,
}

-- The device that a resource manages under an ID.
abbrev find_managed : Option DeviceGroup → Text → Option NpuDevice
find_managed none id = none
find_managed (some g) id = lookup id g.devices

abbrev pub managed : Groups → Text → Text → Option NpuDevice
managed groups resource id = find_managed (lookup resource groups) id

find_managed-group_or_new :
    (groups : Groups) (resource id : Text)
    → lookup id (group_or_new resource groups).devices ≡ managed groups resource id
unfolding group_or_new lookup
find_managed-group_or_new groups resource id = ground arith

pub managed-put_device :
    (name : Text) (device : NpuDevice) (groups : Groups) (resource id : Text)
    → managed (put_device name device groups) resource id ≡ (
        if name == resource && device.info.name == id
        then some device
        else managed groups resource id)
unfolding put_device
managed-put_device name device groups resource id = ground (
  arith,
  lookup-insert name resource
      (record (group_or_new name groups) {
        devices = insert device.info.name device (group_or_new name groups).devices;
      })
      groups,
  lookup-insert device.info.name id device (group_or_new name groups).devices,
  find_managed-group_or_new groups name id,
  ==_iff name resource,
)

abbrev or_else : Option NpuDevice → Option NpuDevice → Option NpuDevice
or_else none b = b
or_else (some a) b = some a

module _ (host : Host) (resource id : Text) where
  -- What a device contributes: itself, if it is classified to the resource and has the ID as name.
  abbrev pub contribution : Device → Option NpuDevice
  contribution device = elim (classify host device) [
    | none ↦ none
    | some (name, sriov) ↦
        if name == resource && device.name == id then some (npu_of host device sriov) else none
  ]

  -- The last device of a scan that contributes.
  abbrev pub advertised : List Device → Option NpuDevice
  advertised [] = none
  advertised (device ∷ devices) = or_else (advertised devices) (contribution device)

  managed-add_discovered :
      (groups : Groups) (device : Device)
      → managed (add_discovered host groups device) resource id
        ≡ or_else (contribution device) (managed groups resource id)
  unfolding add_discovered npu_of
  managed-add_discovered groups device = elim (Option-cases (classify host device)) [
    | inl e ↦ ground arith
    | inr ((name, sriov), e) ↦
        rw (e, add_discovered)
          (managed-put_device name (npu_of host device sriov) groups resource id ∙ ground arith)
  ]

  managed-add_all :
      (groups : Groups) (devices : List Device)
      → managed (add_all_discovered host groups devices) resource id
        ≡ or_else (advertised devices) (managed groups resource id)
  unfolding add_all_discovered
  managed-add_all groups [] = refl
  managed-add_all groups (device ∷ devices) = ground (
    arith,
    managed-add_all (add_discovered host groups device) devices,
    managed-add_discovered groups device,
  )

  -- A scan makes a resource manage, under an ID, the last device of that name that is classified
  -- to the resource, and nothing else.
  pub managed-discover :
      (devices : List Device)
      → managed (discover_device_groups {E = Text} host (ok devices)) resource id
        ≡ advertised devices
  unfolding discover_device_groups
  managed-discover devices = managed-add_all [] devices ∙ ground arith

-- A group is kept under its own name, its devices under theirs, and it has one at least.
pub record IsGroup (name : Text) (g : DeviceGroup) : Type 0 where
  pub named : g.resource_name ≡ name
  pub keys_once : IsMap g.devices
  pub keyed : (id : Text) (d : NpuDevice) → lookup id g.devices ≡ some d → d.info.name ≡ id
  pub inhabited : g.devices ≡ [] → ⊥

pub record IsGrouped (groups : Groups) : Type 0 where
  pub once : IsMap groups
  pub each : (name : Text) (g : DeviceGroup) → lookup name groups ≡ some g → IsGroup name g

insert-inhabited : (id : Text) (d : NpuDevice) (m : Dict Text NpuDevice) → insert id d m ≡ [] → ⊥
unfolding insert
insert-inhabited id d [] h = cc
insert-inhabited id d ((j, e) ∷ m) h = ground arith

-- What the loop finds of a group before it puts a device in: no device yet, or a group.
record IsStarted (name : Text) (g : DeviceGroup) : Type 0 where
  named : g.resource_name ≡ name
  keys_once : IsMap g.devices
  keyed : (id : Text) (d : NpuDevice) → lookup id g.devices ≡ some d → d.info.name ≡ id

group_or_new-IsStarted :
    (name : Text) (groups : Groups) → IsGrouped groups → IsStarted name (group_or_new name groups)
unfolding group_or_new lookup
group_or_new-IsStarted name groups v = elim (Option-cases (lookup name groups)) [
  | inl e ↦ rw (e, group_or_new) (record { named = refl; keys_once = tt; keyed = λ id d h. cc })
  | inr (g, e) ↦
      let w = v.each name g e in
      rw (e, group_or_new) (record { named = w.named; keys_once = w.keys_once; keyed = w.keyed })
]

put_in-IsGroup :
    (name : Text) (g : DeviceGroup) (device : NpuDevice)
    → IsStarted name g
    → IsGroup name (record g { devices = insert device.info.name device g.devices })
put_in-IsGroup name g device v = record {
  named = v.named;
  keys_once = insert-IsMap device.info.name device g.devices v.keys_once;
  keyed = λ id d h. ground (
    arith,
    lookup-insert device.info.name id device g.devices,
    ==_iff device.info.name id,
    v.keyed id d,
  );
  inhabited = insert-inhabited device.info.name device g.devices;
}

if_true :
    (b : Bool) (g h : DeviceGroup) (o : Option DeviceGroup)
    → b ≡ true
    → (if b then some g else o) ≡ some h
    → g ≡ h
if_true b g h o p q = ground arith

if_false :
    (b : Bool) (g h : DeviceGroup) (o : Option DeviceGroup)
    → b ≡ false
    → (if b then some g else o) ≡ some h
    → o ≡ some h
if_false b g h o p q = ground arith

insert-IsGrouped :
    (name : Text) (g : DeviceGroup) (groups : Groups)
    → IsGroup name g
    → IsGrouped groups
    → IsGrouped (insert name g groups)
insert-IsGrouped name g groups w v = record {
  once = insert-IsMap name g groups v.once;
  each = λ other h e. elim (Bool-cases (name == other)) [
    | inl same ↦
        subst (λ k. IsGroup other k)
          (if_true _ g h _ same (sym (lookup-insert name other g groups) ∙ e))
          (subst (λ k. IsGroup k g) ((==_iff name other).0 same) w)
    | inr apart ↦
        v.each other h (if_false _ g h _ apart (sym (lookup-insert name other g groups) ∙ e))
  ];
}

put_device-IsGrouped :
    (name : Text) (device : NpuDevice) (groups : Groups)
    → IsGrouped groups
    → IsGrouped (put_device name device groups)
unfolding put_device
put_device-IsGrouped name device groups v =
    insert-IsGrouped name _ groups
      (put_in-IsGroup name (group_or_new name groups) device (group_or_new-IsStarted name groups v))
      v

add_all-IsGrouped :
    (host : Host) (groups : Groups) (devices : List Device)
    → IsGrouped groups
    → IsGrouped (add_all_discovered host groups devices)
unfolding add_all_discovered add_discovered
add_all-IsGrouped host groups [] v = v
add_all-IsGrouped host groups (device ∷ devices) v =
    add_all-IsGrouped host (add_discovered host groups device) devices
      (elim (Option-cases (classify host device)) [
        | inl e ↦ rw (e, add_discovered) v
        | inr ((name, sriov), e) ↦
            rw (e, add_discovered) (put_device-IsGrouped name (npu_of host device sriov) groups v)
      ])

-- Whatever the device library returns, the groups of a scan are well formed.
pub discover-IsGrouped {ℓ} :
    {E : Type ℓ} (host : Host) (found : Result E (List Device))
    → IsGrouped (discover_device_groups host found)
unfolding discover_device_groups lookup
discover-IsGrouped host (err e) = record { once = tt; each = λ name g h. absurd (ground arith) }
discover-IsGrouped host (ok devices) =
    add_all-IsGrouped host [] devices
      (record { once = tt; each = λ name g h. absurd (ground arith) })
