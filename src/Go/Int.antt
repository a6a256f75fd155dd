-- ===== src/Go/Int.antt =====
-- Go's `int`, without its bounds: the values that the program computes with are counts and
-- parsed numbers, and the parser checks the range of 64 bits.
use Prim.Native.Nat.{ℕ}
use mathlib.Core.Path.{◌≡◌, refl, ap}
use mathlib.Core.Logic.{◌⊎◌, inl, inr}
use mathlib.Core.Bool.{Bool, false}
use k8s_device_plugin.Prelude.Tests.{ltb}

-- `negsuc n` is -(n + 1).
pub data ℤ : Type 0 where
  pos : ℕ → ℤ
  negsuc : ℕ → ℤ

-- `z > 0`
abbrev pub is_positive : ℤ → Bool
is_positive (pos n) = ltb 0 n
is_positive (negsuc n) = false

pub ℤ-cases : (z : ℤ) → ((n : ℕ) × (z ≡ pos n)) ⊎ ((n : ℕ) × (z ≡ negsuc n))
ℤ-cases (pos n) = inl (n, refl)
ℤ-cases (negsuc n) = inr (n, refl)

pub pos-inj : {m n : ℕ} → pos m ≡ pos n → m ≡ n
pos-inj h = ap size h
  where
    size : ℤ → ℕ
    size (pos n) = n
    size (negsuc n) = n
