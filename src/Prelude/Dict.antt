-- ===== src/Prelude/Dict.antt =====
-- A Go map as a list of pairs. Insertion replaces the value of a key in its place, and a new key
-- goes to the end: the order of the list is an order in which `range` may visit the map.
use Prim.Native.Nat.{suc}
use mathlib.Core.Path.{◌≡◌, refl, ap}
use mathlib.Core.Logic.{inl, inr}
use mathlib.Core.Bool.{true, false, not, ◌&&◌, ◌||◌}
use mathlib.Core.Option.{Option, none, some}
use mathlib.Core.List.{List, [], ◌∷◌}
use native.Mathlib.Omega.{arith}
use k8s_device_plugin.Prelude.Tests.{Eq, ◌==◌, ==_iff, Bool-cases, if◌then◌else◌}
use k8s_device_plugin.Prelude.Lists.{length, has, Distinct}

abbrev pub Dict {ℓ κ} : Type ℓ → Type κ → Type (ℓ ⊔ κ)
Dict K V = List (K × V)

abbrev pub keys {ℓ κ} : {K : Type ℓ} {V : Type κ} → Dict K V → List K
keys [] = []
keys ((k, v) ∷ m) = k ∷ keys m

pub length-keys {ℓ κ} : {K : Type ℓ} {V : Type κ} (m : Dict K V) → length (keys m) ≡ length m
length-keys [] = refl
length-keys ((k, v) ∷ m) = ap suc (length-keys m)

module _ {ℓ κ} {K : Type ℓ} ⦃e : Eq K⦄ {V : Type κ} where
  unfoldable pub lookup : K → Dict K V → Option V
  lookup key [] = none
  lookup key ((other, value) ∷ rest) = if other == key then some value else lookup key rest

  -- `m[key] = value`
  unfoldable pub insert : K → V → Dict K V → Dict K V
  insert key value [] = (key, value) ∷ []
  insert key value ((other, old) ∷ rest) =
      let inserted = insert key value rest in
      if other == key then (key, value) ∷ rest else (other, old) ∷ inserted

  -- `delete(m, k)`
  unfoldable pub erase : K → Dict K V → Dict K V
  erase k [] = []
  erase k ((j, w) ∷ m) = if j == k then m else (j, w) ∷ erase k m

  -- Maps hold each key once.
  abbrev pub IsMap : Dict K V → Type 0
  IsMap m = Distinct (keys m)

  pub lookup-insert :
      (key asked : K) (value : V) (m : Dict K V)
      → lookup asked (insert key value m) ≡ (if key == asked then some value else lookup asked m)
  unfolding insert lookup
  lookup-insert key asked value [] = refl
  lookup-insert key asked value ((i, w) ∷ m) =
      let rest = lookup-insert key asked value m in
      ground (arith, rest, ==_iff key asked, ==_iff i key, ==_iff i asked)

  pub has-keys-insert :
      (k j : K) (v : V) (m : Dict K V) → has j (keys (insert k v m)) ≡ (k == j || has j (keys m))
  unfolding insert
  has-keys-insert k j v [] = refl
  has-keys-insert k j v ((i, w) ∷ m) =
      ground (arith, ==_iff k j, ==_iff i k, ==_iff i j, has-keys-insert k j v m)

  pub insert-IsMap : (k : K) (v : V) (m : Dict K V) → IsMap m → IsMap (insert k v m)
  unfolding insert
  insert-IsMap k v [] d = (refl, tt)
  insert-IsMap k v ((i, w) ∷ m) d =
      ground (arith, insert-IsMap k v m d.1, has-keys-insert k i v m, ==_iff k i, ==_iff i k)

  pub lookup-none_iff : (k : K) (m : Dict K V) → lookup k m ≡ none → has k (keys m) ≡ false
  unfolding lookup
  lookup-none_iff k [] h = refl
  lookup-none_iff k ((i, w) ∷ m) h = ground (arith, lookup-none_iff k m)

  pub lookup_of_has :
      (k : K) (m : Dict K V) → has k (keys m) ≡ true → (v : V) × (lookup k m ≡ some v)
  unfolding lookup
  lookup_of_has k [] h = absurd (ground arith)
  lookup_of_has k ((i, w) ∷ m) h = elim (Bool-cases (i == k)) [
    | inl same ↦ rw same (w, refl)
    | inr other ↦ rw other (lookup_of_has k m (ground arith))
  ]

  pub has_of_lookup : (k : K) (v : V) (m : Dict K V) → lookup k m ≡ some v → has k (keys m) ≡ true
  unfolding lookup
  has_of_lookup k v [] h = absurd (ground arith)
  has_of_lookup k v ((i, w) ∷ m) h = ground (arith, has_of_lookup k v m)

  pub has-keys-erase :
      (k j : K) (m : Dict K V)
      → IsMap m
      → has j (keys (erase k m)) ≡ (not (k == j) && has j (keys m))
  unfolding erase
  has-keys-erase k j [] d = ground arith
  has-keys-erase k j ((i, w) ∷ m) d =
      ground (arith, has-keys-erase k j m d.1, ==_iff k j, ==_iff i k, ==_iff i j)

  pub erase-IsMap : (k : K) (m : Dict K V) → IsMap m → IsMap (erase k m)
  unfolding erase
  erase-IsMap k [] d = tt
  erase-IsMap k ((i, w) ∷ m) d = ground (arith, erase-IsMap k m d.1, has-keys-erase k i m d.1)

  pub lookup-missing : (k : K) (m : Dict K V) → has k (keys m) ≡ false → lookup k m ≡ none
  unfolding lookup
  lookup-missing k [] h = refl
  lookup-missing k ((i, w) ∷ m) h = ground (arith, lookup-missing k m)

  pub lookup-erase :
      (k j : K) (m : Dict K V)
      → IsMap m
      → lookup j (erase k m) ≡ (if k == j then none else lookup j m)
  unfolding erase lookup
  lookup-erase k j [] d = ground arith
  lookup-erase k j ((i, w) ∷ m) d =
      ground (arith, lookup-erase k j m d.1, lookup-missing i m, ==_iff k j, ==_iff i k, ==_iff i j)
