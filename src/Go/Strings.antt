-- ===== src/Go/Strings.antt =====
-- `strings`: trimming, case, replacing a byte, splitting at a byte.
use Prim.Native.Nat.{ℕ, ◌+◌}
use mathlib.Core.Bool.{Bool, true, false, ◌&&◌, ◌||◌}
use mathlib.Core.Option.{Option, none, some}
use mathlib.Core.List.{List, [], ◌∷◌, map, reverse}
use k8s_device_plugin.Prelude.Tests.{leb, nat_beq, if◌then◌else◌}
use k8s_device_plugin.Prelude.Texts.{Text, text_beq}

abbrev is_space : ℕ → Bool
is_space c = nat_beq c b' ' || (leb 9 c && leb c 13)

abbrev drop_while : (ℕ → Bool) → Text → Text
drop_while p [] = []
drop_while p (c ∷ s) = let rest = drop_while p s in if p c then rest else c ∷ s

abbrev pub trim_right_with : (ℕ → Bool) → Text → Text
trim_right_with p s = reverse (drop_while p (reverse s))

abbrev trim_with : (ℕ → Bool) → Text → Text
trim_with p s = trim_right_with p (drop_while p s)

unfoldable pub trim_space : Text → Text
trim_space s = trim_with is_space s

-- `strings.Trim` with a cutset of one byte.
unfoldable pub trim : Text → ℕ → Text
trim s c = trim_with (nat_beq c) s

unfoldable pub to_lower : Text → Text
to_lower s = map (λ c. if leb b'A' c && leb c b'Z' then c + 32 else c) s

unfoldable pub has_prefix : Text → Text → Bool
has_prefix s [] = true
has_prefix [] (p ∷ ps) = false
has_prefix (c ∷ s) (p ∷ ps) = nat_beq c p && has_prefix s ps

-- `strings.Contains`
unfoldable pub contains : Text → Text → Bool
unfolding has_prefix
contains [] p = has_prefix [] p
contains (c ∷ s) p = let rest = contains s p in if has_prefix (c ∷ s) p then true else rest

strip : Text → Text → Text
strip s [] = s
strip [] (p ∷ ps) = []
strip (c ∷ s) (p ∷ ps) = strip s ps

unfoldable pub trim_prefix : Text → Text → Text
unfolding has_prefix strip
trim_prefix s p = if has_prefix s p then strip s p else s

-- `strings.ReplaceAll` of one byte by another.
unfoldable pub replace_all : Text → ℕ → ℕ → Text
replace_all s old new = map (λ c. if nat_beq c old then new else c) s

abbrev push_byte : ℕ → List Text → List Text
push_byte c [] = (c ∷ []) ∷ []
push_byte c (w ∷ ws) = (c ∷ w) ∷ ws

-- `strings.Split` at one byte.
unfoldable pub split : Text → ℕ → List Text
split [] sep = [] ∷ []
split (c ∷ s) sep = let rest = split s sep in if nat_beq c sep then [] ∷ rest else push_byte c rest

-- `strings.EqualFold`.
unfoldable pub equal_fold : Text → Text → Bool
unfolding to_lower
equal_fold s t = text_beq (to_lower s) (to_lower t)

abbrev shifted : Option ℕ → Option ℕ
shifted none = none
shifted (some n) = some (n + 1)

abbrev or_zero_if : Bool → Option ℕ → Option ℕ
or_zero_if here (some n) = some n
or_zero_if here none = if here then some 0 else none

-- `strings.LastIndexByte`: none for -1.
unfoldable pub last_index : Text → ℕ → Option ℕ
last_index [] c = none
last_index (x ∷ s) c = or_zero_if (nat_beq x c) (shifted (last_index s c))
