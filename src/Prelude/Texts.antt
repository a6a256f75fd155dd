-- ===== src/Prelude/Texts.antt =====
-- Go strings as their bytes, compared bytewise.
use Prim.Native.Nat.{ℕ}
use Prim.Native.Char.{code}
use Prim.Native.String.{String}
use mathlib.Core.Path.{◌≡◌, refl}
use mathlib.Core.Logic.{◌↔◌}
use mathlib.Core.Bool.{Bool, true, false, ◌&&◌}
use mathlib.Core.List.{List, [], ◌∷◌}
use native.Mathlib.Omega.{arith}
use k8s_device_plugin.Prelude.Tests.{Eq, ltb, nat_beq, nat_beq_iff, if◌then◌else◌}

abbrev pub Text : Type 0
Text = List ℕ

-- The bytes of an ASCII literal.
abbrev pub str : String → Text
str String.[] = []
str (String.◌∷◌ c s) = code c ∷ str s

abbrev pub text_beq : Text → Text → Bool
text_beq [] [] = true
text_beq (x ∷ s) (y ∷ t) = nat_beq x y && text_beq s t
text_beq _ _ = false

pub text_beq_iff : (s t : Text) → (text_beq s t ≡ true) ↔ (s ≡ t)
text_beq_iff [] [] = ground arith
text_beq_iff [] (y ∷ t) = ground arith
text_beq_iff (x ∷ s) [] = ground arith
text_beq_iff (x ∷ s) (y ∷ t) = ground (arith, text_beq_iff s t, nat_beq_iff x y)

instance abbrev pub text_eq : Eq Text
text_eq = record { same_iff = text_beq_iff; same = text_beq }

-- Go's `s <= t`.
abbrev pub text_leb : Text → Text → Bool
text_leb [] t = true
text_leb (x ∷ s) [] = false
text_leb (x ∷ s) (y ∷ t) = if ltb x y then true else if ltb y x then false else text_leb s t

pub text_leb_refl : (s : Text) → text_leb s s ≡ true
text_leb_refl [] = refl
text_leb_refl (x ∷ s) = ground (arith, text_leb_refl s)

pub text_leb_total : (s t : Text) → text_leb s t ≡ false → text_leb t s ≡ true
text_leb_total [] t h = ground arith
text_leb_total (x ∷ s) [] h = refl
text_leb_total (x ∷ s) (y ∷ t) h = ground (arith, text_leb_total s t)

pub text_leb_trans :
    (s t u : Text) → text_leb s t ≡ true → text_leb t u ≡ true → text_leb s u ≡ true
text_leb_trans [] t u h k = refl
text_leb_trans (x ∷ s) [] u h k = ground arith
text_leb_trans (x ∷ s) (y ∷ t) [] h k = ground arith
text_leb_trans (x ∷ s) (y ∷ t) (z ∷ u) h k = ground (arith, text_leb_trans s t u)

pub text_leb_antisymm : (s t : Text) → text_leb s t ≡ true → text_leb t s ≡ true → s ≡ t
text_leb_antisymm [] [] h k = refl
text_leb_antisymm [] (y ∷ t) h k = ground arith
text_leb_antisymm (x ∷ s) [] h k = ground arith
text_leb_antisymm (x ∷ s) (y ∷ t) h k = ground (arith, text_leb_antisymm s t)
