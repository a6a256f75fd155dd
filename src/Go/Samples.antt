-- ===== src/Go/Samples.antt =====
-- Runs on small inputs.
use mathlib.Core.Path.{◌≡◌, refl}
use mathlib.Core.Option.{none, some}
use mathlib.Core.List.{[], ◌∷◌}
use k8s_device_plugin.Prelude.Texts.{str}
use k8s_device_plugin.Go.Int.{pos, negsuc}
use k8s_device_plugin.Go.Strings.{trim_space, trim, to_lower, trim_prefix, split}
use k8s_device_plugin.Go.Strconv.{atoi, itoa}
use k8s_device_plugin.Go.Filepath.{clean, join, base}

texts : Unit {0}
unfolding trim_space trim to_lower trim_prefix split atoi itoa clean join base
texts = tt

trim_space-sample : trim_space (str " 42 ") ≡ str "42"
unfolding texts
trim_space-sample = refl

trim-sample : trim (trim_prefix (str "0x00a00") (str "0x")) b'0' ≡ str "a"
unfolding texts
trim-sample = refl

atoi-sample :
    (atoi (str "-10") ≡ some (negsuc 9))
    × (atoi (str "9223372036854775808") ≡ none)
    × (atoi (str "+7") ≡ some (pos 7))
    × (atoi (str "4x") ≡ none)
unfolding texts
atoi-sample = (refl, refl, refl, refl)

itoa-sample : itoa (negsuc 119) ≡ str "-120"
unfolding texts
itoa-sample = refl

clean-sample : clean (str "/a//b/./../c/") ≡ str "/a/c"
unfolding texts
clean-sample = refl

clean-relative : clean (str "../a/../..") ≡ str "../.."
unfolding texts
clean-relative = refl

join-sample : join (str "/sys" ∷ [] ∷ str "a" ∷ str "b" ∷ []) ≡ str "/sys/a/b"
unfolding texts
join-sample = refl

base-sample : base (str "../0000:06:00.0/") ≡ str "0000:06:00.0"
unfolding texts
base-sample = refl
