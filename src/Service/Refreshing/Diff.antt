-- ===== src/Service/Refreshing/Diff.antt =====
-- What a refresh of service/executors.go takes for changed, and what it leaves in the table.
use godeepwiki.Common.{
  ◌≡◌, refl, Bool, true, false, ◌&&◌, ◌||◌, String, List, [], ◌∷◌, ◌++◌, none, some, str_eq, eq_iff,
  arith, Bool-cases, inl, inr,
}
use godeepwiki.Common.Dict.{lookup, insert, lookup-insert}
use godeepwiki.Store.Chunks.{is_among}
use godeepwiki.Ingest.Chunker.{SourceFile}
use godeepwiki.Service.Refreshing.{
  Hashes, new_hashes, is_changed, changed_files, paths_of, gone_paths, dirty_paths,
}

-- A file of the tree with this path and this hash.
abbrev pub has_version : String → String → List SourceFile → Bool
has_version path hash [] = false
has_version path hash (f ∷ fs) =
    (str_eq f.path path && str_eq f.hash hash) || has_version path hash fs

abbrev has_path : String → List SourceFile → Bool
has_path path [] = false
has_path path (f ∷ fs) = str_eq f.path path || has_path path fs

is_among-append :
    (p : String) (xs ys : List String) → is_among p (xs ++ ys) ≡ (is_among p xs || is_among p ys)
unfolding is_among
is_among-append p [] ys = refl
is_among-append p (x ∷ xs) ys = ground (arith, is_among-append p xs ys)

lookup-new_hashes :
    (p : String) (fs : List SourceFile) (m : Hashes)
    → has_path p fs ≡ false
    → lookup p (new_hashes fs m) ≡ lookup p m
unfolding new_hashes
lookup-new_hashes p [] m h = refl
lookup-new_hashes p (f ∷ fs) m h =
    ground (arith, lookup-new_hashes p fs (insert f.path f.hash m), lookup-insert f.path p f.hash m)

gone_paths-among :
    (p h : String) (new old : Hashes)
    → lookup p old ≡ some h
    → lookup p new ≡ none
    → is_among p (gone_paths new old) ≡ true
unfolding gone_paths is_among lookup
gone_paths-among p h new [] found missing = ground arith
gone_paths-among p h new ((q, x) ∷ old) found missing =
    ground (arith, eq_iff q p, gone_paths-among p h new old)

changed_files-among :
    (p h : String) (old : Hashes) (fs : List SourceFile)
    → lookup p old ≡ some h
    → has_path p fs ≡ true
    → is_among p (paths_of (changed_files old fs)) ≡ false
    → has_version p h fs ≡ true
unfolding changed_files is_among is_changed
changed_files-among p h old [] found there clean = ground arith
changed_files-among p h old (f ∷ fs) found there clean =
    ground
      (arith, eq_iff f.path p, eq_iff h f.hash, eq_iff f.hash h, changed_files-among p h old fs)

-- A path whose rows have a hash, and which is not dirty, is in the tree with that hash.
pub clean_path :
    (p h : String) (old : Hashes) (fs : List SourceFile)
    → lookup p old ≡ some h
    → is_among p (dirty_paths old fs) ≡ false
    → has_version p h fs ≡ true
unfolding dirty_paths
clean_path p h old fs found clean = elim (Bool-cases (has_path p fs)) [
  | inl there ↦ changed_files-among p h old fs found there (
      ground (
        arith,
        is_among-append p (paths_of (changed_files old fs)) (gone_paths (new_hashes fs []) old),
      ))
  | inr away ↦ absurd (
      ground (
        arith,
        is_among-append p (paths_of (changed_files old fs)) (gone_paths (new_hashes fs []) old),
        gone_paths-among p h (new_hashes fs []) old found (lookup-new_hashes p fs [] away),
      ))
]
