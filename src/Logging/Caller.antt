-- ===== src/Logging/Caller.antt =====
-- The short caller of a record.
use mathlib.Core.List.{append_assoc}
use k8s_device_plugin.Prelude.{
  ℕ, suc, ◌+◌, ◌≤◌, Option-cases, [], ◌∷◌, ◌++◌, none, some, ◌≡◌, refl, sym, subst, ap, inl, inr,
  arith, drop, take, nat_beq, nat_beq_iff, if◌then◌else◌, ◌⊎◌, length, ◌∙◌,
}
use k8s_device_plugin.Prelude.Texts.{Text}
use k8s_device_plugin.Go.Strings.{last_index}
use k8s_device_plugin.Logging.{trim_path}

-- How many slashes a path has.
unfoldable pub slashes : Text → ℕ
slashes [] = 0
slashes (c ∷ s) = let rest = slashes s in if nat_beq c b'/' then rest + 1 else rest

slashes-append : (s t : Text) → slashes (s ++ t) ≡ slashes s + slashes t
unfolding slashes
slashes-append [] t = ground arith
slashes-append (c ∷ s) t = ground (arith, slashes-append s t)

last_index-none : (s : Text) → last_index s b'/' ≡ none → slashes s ≡ 0
unfolding last_index slashes
last_index-none [] h = refl
last_index-none (c ∷ s) h = elim (Option-cases (last_index s b'/')) [
  | inl e ↦ ground (arith, e, h, last_index-none s e)
  | inr (n, e) ↦ absurd (ground (arith, e, h))
]

-- A text at its last slash.
record IsSplit (s : Text) (n : ℕ) : Type 0 where
  front : Text
  back : Text
  whole : s ≡ front ++ b'/' ∷ back
  place : n ≡ length front
  taken : take n s ≡ front
  clear : slashes back ≡ 0

last_index-IsSplit : (s : Text) (n : ℕ) → last_index s b'/' ≡ some n → IsSplit s n
unfolding last_index
last_index-IsSplit [] n h = absurd (ground (arith, h))
last_index-IsSplit (c ∷ s) n h = elim (Option-cases (last_index s b'/')) [
  | inl e ↦
      let first : n ≡ 0 = ground (arith, e, h) in
      let slash : c ≡ b'/' = ground (arith, e, h, nat_beq_iff c b'/') in
      record {
        front = [];
        back = s;
        whole = ap (λ d. d ∷ s) slash;
        place = first;
        taken = rw first refl;
        clear = last_index-none s e;
      }
  | inr (m, e) ↦
      let split = last_index-IsSplit s m e in
      let later : n ≡ suc m = ground (arith, e, h) in
      record {
        front = c ∷ split.front;
        back = split.back;
        whole = ap (◌∷◌ c) split.whole;
        place = omega (arith, later, split.place);
        taken = rw later (ap (◌∷◌ c) split.taken);
        clear = split.clear;
      }
]

drop-front :
    (front : Text) (c : ℕ) (back : Text) (k : ℕ)
    → k ≡ suc (length front)
    → drop k (front ++ c ∷ back) ≡ back
drop-front [] c back k h = rw h refl
drop-front (d ∷ front) c back k h = rw h (drop-front front c back (suc (length front)) refl)

slash_first : (s : Text) → slashes (b'/' ∷ s) ≡ slashes s + 1
unfolding slashes
slash_first s = refl

-- `short` is the end of a path, with one slash at most: it is the whole path, or it has one slash
-- and the path is cut behind another.
pub record IsShort (file short : Text) : Type 0 where
  pub bounded : slashes short ≤ 1
  pub cut : (short ≡ file) ⊎ ((front : Text) × (file ≡ front ++ b'/' ∷ short) × (slashes short ≡ 1))

-- `trimPath` keeps the last two segments of a path.
pub trim_path-IsShort : (file : Text) → IsShort file (trim_path file)
unfolding trim_path
trim_path-IsShort file = elim (Option-cases (last_index file b'/')) [
  | inl e ↦
      rw (e, trim_path) (record { bounded = omega (arith, last_index-none file e); cut = inl refl })
  | inr (n, e) ↦
      let last = last_index-IsSplit file n e in
      elim (Option-cases (last_index (take n file) b'/')) [
        | inl f ↦
            rw (e, trim_path, f)
              (record {
                bounded = omega (
                  arith,
                  ap slashes last.whole,
                  slashes-append last.front (b'/' ∷ last.back),
                  slash_first last.back,
                  last.clear,
                  ap slashes last.taken,
                  last_index-none (take n file) f,
                );
                cut = inl refl;
              })
        | inr (m, f) ↦
            let first = last_index-IsSplit (take n file) m f in
            let whole : file ≡ first.front ++ b'/' ∷ (first.back ++ b'/' ∷ last.back) =
              last.whole
              ∙ ap (λ s. s ++ b'/' ∷ last.back) (sym last.taken ∙ first.whole)
              ∙ append_assoc first.front (b'/' ∷ first.back) (b'/' ∷ last.back) in
            let short : drop (m + 1) file ≡ first.back ++ b'/' ∷ last.back =
              ap (drop (m + 1)) whole
              ∙ drop-front first.front b'/' _ (m + 1) (omega (arith, first.place)) in
            let one : slashes (first.back ++ b'/' ∷ last.back) ≡ 1 = omega (
              arith,
              slashes-append first.back (b'/' ∷ last.back),
              slash_first last.back,
              first.clear,
              last.clear,
            ) in
            rw (e, trim_path, f)
              (subst (IsShort file) (sym short)
                (record { bounded = omega (arith, one); cut = inr (first.front, whole, one) }))
      ]
]
