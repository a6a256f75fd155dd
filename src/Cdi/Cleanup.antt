-- ===== src/Cdi/Cleanup.antt =====
-- What the cleanup of the specs removes, and what it leaves.
use k8s_device_plugin.Prelude.{
  Bool-cases, true, false, List, [], ◌∷◌, ◌++◌, map, none, some, ◌≡◌, ◌≢◌, ◌⊎◌, refl, sym, ap, ap₂,
  inl, inr, arith, some-inj, ◌∙◌,
}
use k8s_device_plugin.Prelude.Texts.{Text, str}
use k8s_device_plugin.Go.Result.{Result, ok, err, Result-cases}
use k8s_device_plugin.Go.Strings.{has_prefix}
use k8s_device_plugin.Go.Filepath.{join}
use k8s_device_plugin.Go.Host.{FileError, not_exist, io_error, FileError-cases}
use k8s_device_plugin.Cdi.{Entry, is_transient, clean_entries, cleanup_transient_specs}

-- A spec that the plugin wrote: a file whose name begins with its vendor and class.
abbrev pub IsSpec : Entry → Type 0
IsSpec entry =
    (entry.is_dir ≡ false) × (rest : Text) × (entry.name ≡ str "rebellions.ai-npu_" ++ rest)

-- The entries that are specs of the plugin, in their order, and no other.
pub data Specs : List Entry → List Entry → Type 0 where
  no_entries : Specs [] []
  foreign :
      {entry : Entry} {entries specs : List Entry}
      → ¬ IsSpec entry
      → Specs entries specs
      → Specs (entry ∷ entries) specs
  own :
      {entry : Entry} {entries specs : List Entry}
      → IsSpec entry
      → Specs entries specs
      → Specs (entry ∷ entries) (entry ∷ specs)

has_prefix-split :
    (s prefix : Text) → has_prefix s prefix ≡ true → (rest : Text) × (s ≡ prefix ++ rest)
unfolding has_prefix
has_prefix-split s [] h = (s, refl)
has_prefix-split [] (p ∷ prefix) h = absurd cc
has_prefix-split (c ∷ s) (p ∷ prefix) h =
    let (rest, e) = has_prefix-split s prefix (ground (arith, h)) in
    let same : c ≡ p = ground (arith, h) in (rest, ap₂ (◌∷◌) same e)

has_prefix-append : (prefix rest : Text) → has_prefix (prefix ++ rest) prefix ≡ true
unfolding has_prefix
has_prefix-append [] rest = refl
has_prefix-append (p ∷ prefix) rest = ground (arith, has_prefix-append prefix rest)

is_transient-IsSpec : (entry : Entry) → is_transient entry ≡ true → IsSpec entry
unfolding is_transient
is_transient-IsSpec entry h =
    let (rest, named) =
      has_prefix-split entry.name (str "rebellions.ai-npu_") (ground (arith, h)) in
    (ground (arith, h), rest, named)

IsSpec-is_transient : (entry : Entry) → IsSpec entry → is_transient entry ≡ true
unfolding is_transient
IsSpec-is_transient entry (file, rest, named) =
    rw (file, named, has_prefix-append (str "rebellions.ai-npu_") rest) refl

-- A removal with this result has removed a file or found none.
abbrev pub IsGone : Result FileError (Unit {0}) → Type 0
IsGone result = (result ≡ ok tt) ⊎ (result ≡ err not_exist)

module _ (root : Text) (remove : Text → Result FileError (Unit {0})) where
  abbrev pub path_of : Entry → Text
  path_of entry = join (root ∷ entry.name ∷ [])

  pub data AllGone : List Entry → Type 0 where
    no_more : AllGone []
    gone :
        {entry : Entry} {entries : List Entry}
        → IsGone (remove (path_of entry))
        → AllGone entries
        → AllGone (entry ∷ entries)

  -- The specs of a directory, all of which a cleanup has removed or found gone.
  pub record IsCleaned (entries : List Entry) (removed : List Text) : Type 0 where
    pub specs : List Entry
    pub are_specs : Specs entries specs
    pub paths : removed ≡ map path_of specs
    pub all_gone : AllGone specs

  -- The specs of a directory, where the removal of one gives an error.
  pub record IsStuck (entries : List Entry) (removed : List Text) (e : FileError) : Type 0 where
    pub before : List Entry
    pub entry : Entry
    pub after : List Entry
    pub are_specs : Specs entries (before ++ entry ∷ after)
    pub paths : removed ≡ map path_of (before ++ entry ∷ [])
    pub all_gone : AllGone before
    pub stuck : remove (path_of entry) ≡ err e
    pub broken : e ≢ not_exist

  removed_one :
      (entry : Entry) (entries : List Entry)
      → is_transient entry ≡ true
      → IsGone (remove (path_of entry))
      → clean_entries root remove (entry ∷ entries) ≡ record (clean_entries root remove entries) {
        removed = path_of entry ∷ (clean_entries root remove entries).removed;
      }
  unfolding clean_entries
  removed_one entry entries transient (inl h) = rw (transient, clean_entries, h) refl
  removed_one entry entries transient (inr h) = rw (transient, clean_entries, h) refl

  -- What a removal comes to, for an entry that is a spec.
  clean_entries-own :
      (entry : Entry) (entries : List Entry)
      → is_transient entry ≡ true
      → IsGone (remove (path_of entry))
        ⊎ ((t : Text) × (remove (path_of entry) ≡ err (io_error t))
            × (clean_entries root remove (entry ∷ entries)
                ≡ record { removed = path_of entry ∷ []; failure = some (io_error t) }))
  unfolding clean_entries
  clean_entries-own entry entries transient = elim (Result-cases (remove (path_of entry))) [
    | inl (u, h) ↦ inl (inl h)
    | inr (e, h) ↦ elim (FileError-cases e) [
      | inl missing ↦ inl (inr (h ∙ ap err missing))
      | inr (t, broken) ↦
          let k = h ∙ ap err broken in inr (t, k, rw (transient, clean_entries, k) refl)
    ]
  ]

  not_removed :
      (entry : Entry) (entries : List Entry)
      → is_transient entry ≡ false
      → clean_entries root remove (entry ∷ entries) ≡ clean_entries root remove entries
  unfolding clean_entries
  not_removed entry entries kept = rw (kept, clean_entries) refl

  not-IsSpec : (entry : Entry) → is_transient entry ≡ false → ¬ IsSpec entry
  not-IsSpec entry kept spec = absurd (ground (arith, kept, IsSpec-is_transient entry spec))

  clean_entries-IsCleaned :
      (entries : List Entry)
      → (clean_entries root remove entries).failure ≡ none
      → IsCleaned entries (clean_entries root remove entries).removed
  unfolding clean_entries
  clean_entries-IsCleaned [] h = record {
    specs = [];
    are_specs = no_entries;
    paths = refl;
    all_gone = no_more;
  }
  clean_entries-IsCleaned (entry ∷ entries) h = elim (Bool-cases (is_transient entry)) [
    | inr kept ↦
        let same = not_removed entry entries kept in
        let v = clean_entries-IsCleaned entries (sym (ap (λ c. c.failure) same) ∙ h) in
        record {
          specs = v.specs;
          are_specs = foreign (not-IsSpec entry kept) v.are_specs;
          paths = ap (λ c. c.removed) same ∙ v.paths;
          all_gone = v.all_gone;
        }
    | inl transient ↦ elim (clean_entries-own entry entries transient) [
      | inr (t, stuck, ends) ↦ absurd (ground (arith, h, ap (λ c. c.failure) ends))
      | inl is_gone ↦
          let next = removed_one entry entries transient is_gone in
          let v = clean_entries-IsCleaned entries (sym (ap (λ c. c.failure) next) ∙ h) in
          record {
            specs = entry ∷ v.specs;
            are_specs = own (is_transient-IsSpec entry transient) v.are_specs;
            paths = ap (λ c. c.removed) next ∙ ap (◌∷◌ (path_of entry)) v.paths;
            all_gone = gone is_gone v.all_gone;
          }
    ]
  ]

  Specs-in : (entries : List Entry) → (specs : List Entry) × Specs entries specs
  Specs-in [] = ([], no_entries)
  Specs-in (entry ∷ entries) =
      let (specs, others) = Specs-in entries in
      elim (Bool-cases (is_transient entry)) [
        | inl transient ↦ (entry ∷ specs, own (is_transient-IsSpec entry transient) others)
        | inr kept ↦ (specs, foreign (not-IsSpec entry kept) others)
      ]

  clean_entries-IsStuck :
      (entries : List Entry) (e : FileError)
      → (clean_entries root remove entries).failure ≡ some e
      → IsStuck entries (clean_entries root remove entries).removed e
  unfolding clean_entries
  clean_entries-IsStuck [] e h = absurd cc
  clean_entries-IsStuck (entry ∷ entries) e h = elim (Bool-cases (is_transient entry)) [
    | inr kept ↦
        let same = not_removed entry entries kept in
        let v = clean_entries-IsStuck entries e (sym (ap (λ c. c.failure) same) ∙ h) in
        record {
          before = v.before;
          entry = v.entry;
          after = v.after;
          are_specs = foreign (not-IsSpec entry kept) v.are_specs;
          paths = ap (λ c. c.removed) same ∙ v.paths;
          all_gone = v.all_gone;
          stuck = v.stuck;
          broken = v.broken;
        }
    | inl transient ↦
        let spec = is_transient-IsSpec entry transient in
        elim (clean_entries-own entry entries transient) [
          | inr (t, stuck, ends) ↦
              let same : io_error t ≡ e = some-inj (sym (ap (λ c. c.failure) ends) ∙ h) in
              record {
                before = [];
                entry = entry;
                after = (Specs-in entries).0;
                are_specs = own spec (Specs-in entries).1;
                paths = ap (λ c. c.removed) ends;
                all_gone = no_more;
                stuck = stuck ∙ ap err same;
                broken = λ missing. absurd (ground (arith, missing, same));
              }
          | inl is_gone ↦
              let next = removed_one entry entries transient is_gone in
              let v = clean_entries-IsStuck entries e (sym (ap (λ c. c.failure) next) ∙ h) in
              record {
                before = entry ∷ v.before;
                entry = v.entry;
                after = v.after;
                are_specs = own spec v.are_specs;
                paths = ap (λ c. c.removed) next ∙ ap (◌∷◌ (path_of entry)) v.paths;
                all_gone = gone is_gone v.all_gone;
                stuck = v.stuck;
                broken = v.broken;
              }
        ]
  ]

  -- A cleanup that did not fail has called remove with the path of each spec of the plugin, in the
  -- order of the entries, and with no other path, and each call has removed a file or found none.
  pub cleanup-IsCleaned :
      (entries : List Entry)
      → (cleanup_transient_specs root remove (ok entries)).failure ≡ none
      → IsCleaned entries (cleanup_transient_specs root remove (ok entries)).removed
  unfolding cleanup_transient_specs
  cleanup-IsCleaned entries h = clean_entries-IsCleaned entries h

  -- A cleanup of entries that failed has called remove with the paths of the first specs of the
  -- plugin, in the order of the entries, up to the one whose removal gave the error, and with no
  -- other path. Each call before that one has removed a file or found none.
  pub cleanup-IsStuck :
      (entries : List Entry) (e : FileError)
      → (cleanup_transient_specs root remove (ok entries)).failure ≡ some e
      → IsStuck entries (cleanup_transient_specs root remove (ok entries)).removed e
  unfolding cleanup_transient_specs
  cleanup-IsStuck entries e h = clean_entries-IsStuck entries e h
