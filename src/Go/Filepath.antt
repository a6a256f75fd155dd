-- ===== src/Go/Filepath.antt =====
-- `path/filepath` on Unix: `Clean`, `Join` and `Base`.
use mathlib.Core.Bool.{Bool, false, not, ◌&&◌}
use Prim.Native.Nat.{ℕ, ◌+◌}
use mathlib.Core.Option.{Option, none, some}
use mathlib.Core.List.{List, [], ◌∷◌, ◌++◌, reverse}
use k8s_device_plugin.Prelude.Tests.{nat_beq, if◌then◌else◌}
use k8s_device_plugin.Prelude.Texts.{Text, str, text_beq}
use k8s_device_plugin.Prelude.Lists.{take}
use k8s_device_plugin.Go.Strings.{split, trim_right_with, last_index}

-- One segment of a path, on the stack of those kept so far.
abbrev push_segment : Bool → List Text → Text → List Text
push_segment rooted [] seg =
    if text_beq seg []
    then []
    else if text_beq seg (str ".")
    then []
    else if rooted && text_beq seg (str "..")
    then []
    else seg ∷ []
push_segment rooted (top ∷ kept) seg =
    if text_beq seg []
    then top ∷ kept
    else if text_beq seg (str ".")
    then top ∷ kept
    else if text_beq seg (str "..") && not (text_beq top (str ".."))
    then kept
    else seg ∷ top ∷ kept

abbrev push_segments : Bool → List Text → List Text → List Text
push_segments rooted kept [] = kept
push_segments rooted kept (seg ∷ segs) = push_segments rooted (push_segment rooted kept seg) segs

abbrev pub join_with_slash : List Text → Text
join_with_slash [] = []
join_with_slash (s ∷ []) = s
join_with_slash (s ∷ t ∷ ss) = s ++ b'/' ∷ join_with_slash (t ∷ ss)

abbrev is_rooted : Text → Bool
is_rooted [] = false
is_rooted (c ∷ s) = nat_beq c b'/'

abbrev or_dot : Text → Text
or_dot [] = str "."
or_dot (c ∷ s) = c ∷ s

unfoldable pub clean : Text → Text
unfolding split
clean p =
    let kept = reverse (push_segments (is_rooted p) [] (split p b'/')) in
    if is_rooted p then b'/' ∷ join_with_slash kept else or_dot (join_with_slash kept)

abbrev non_empty : List Text → List Text
non_empty [] = []
non_empty (s ∷ ss) = if text_beq s [] then non_empty ss else s ∷ non_empty ss

abbrev clean_unless_empty : List Text → Text
clean_unless_empty [] = []
clean_unless_empty (s ∷ ss) = clean (join_with_slash (s ∷ ss))

unfoldable pub join : List Text → Text
unfolding clean
join elems = clean_unless_empty (non_empty elems)

abbrev last_or : Text → List Text → Text
last_or d [] = d
last_or d (s ∷ ss) = last_or s ss

abbrev or_slash : Text → Text
or_slash [] = str "/"
or_slash (c ∷ s) = c ∷ s

unfoldable pub base : Text → Text
unfolding split
base p =
    if text_beq p []
    then str "."
    else or_slash (last_or [] (split (trim_right_with (nat_beq b'/') p) b'/'))

abbrev up_to : Option ℕ → Text → Text
up_to none p = []
up_to (some i) p = take (i + 1) p

-- `filepath.Dir`
unfoldable pub dir : Text → Text
unfolding clean last_index
dir p = clean (up_to (last_index p b'/') p)
