-- ===== src/Config/Patch.antt =====
-- The map tools of config/manager.go: mergePatch, flattenPatch, setDotted and findSecretKeys. A Go map
-- is the list of its members; a value that is no object and not null is held as its JSON text, since
-- nothing here looks inside.
pub mod Merge
pub mod Secrets
use Prim.Native.Char.{Char, code}
use Prim.Native.String.{◌++◌ as concat}
use godeepwiki.Common.{
  ℕ, Bool, true, false, not, ◌&&◌, ◌||◌, ◌==◌, String, List, [], ◌∷◌, ◌++◌, Option, none, some,
  if◌then◌else◌, str_eq,
}

abbrev concat_char : Char → String → String
concat_char c s = String.◌∷◌ c s

mutual
  pub data Json : Type 0 where
    null : Json
    value : String → Json
    object : Members → Json

  pub data Members : Type 0 where
    no_members : Members
    member : String → Json → Members → Members

unfoldable pub get : String → Members → Option Json
get k no_members = none
get k (member j v m) = if str_eq j k then some v else get k m

-- delete(m, k)
unfoldable pub remove : String → Members → Members
remove k no_members = no_members
remove k (member j v m) = let rest = remove k m in if str_eq j k then rest else member j v rest

-- m[k] = v
unfoldable pub put : String → Json → Members → Members
unfolding remove
put k v m = member k v (remove k m)

-- v.(map[string]interface{}), or a new map.
abbrev pub members_in : Option Json → Members
members_in none = no_members
members_in (some null) = no_members
members_in (some (value t)) = no_members
members_in (some (object o)) = o

unfoldable pub members_at : String → Members → Members
unfolding get
members_at k m = members_in (get k m)

-- The members of the patch, one after the other, into the destination.
unfoldable pub merge_patch : Members → Members → Members
unfolding put remove members_at
merge_patch no_members dst = dst
merge_patch (member k null rest) dst = merge_patch rest (remove k dst)
merge_patch (member k (value t) rest) dst = merge_patch rest (put k (value t) dst)
merge_patch (member k (object m) rest) dst =
    merge_patch rest (put k (object (merge_patch m (members_at k dst))) dst)

-- prefix + "." + k, or k where the prefix is empty.
abbrev pub dotted : String → String → String
dotted prefix k = if str_eq prefix "" then k else concat prefix (concat "." k)

abbrev pub is_secret : String → Bool
is_secret path = str_eq path "embedding.api_key" || str_eq path "llm.api_key"

unfoldable pub find_secret_keys : Members → String → List String
find_secret_keys no_members prefix = []
find_secret_keys (member k null rest) prefix =
    let found = find_secret_keys rest prefix in
    if is_secret (dotted prefix k) then dotted prefix k ∷ found else found
find_secret_keys (member k (value t) rest) prefix =
    let found = find_secret_keys rest prefix in
    if is_secret (dotted prefix k) then dotted prefix k ∷ found else found
find_secret_keys (member k (object m) rest) prefix =
    let found = find_secret_keys rest prefix in
    let inside = find_secret_keys m (dotted prefix k) in
    if is_secret (dotted prefix k) then dotted prefix k ∷ found else inside ++ found

-- The overrides of a patch: one for each leaf, under its dotted key. An empty object is a leaf.
unfoldable pub flatten_patch : Members → String → List (String × Json)
flatten_patch no_members prefix = []
flatten_patch (member k null rest) prefix = (dotted prefix k, null) ∷ flatten_patch rest prefix
flatten_patch (member k (value t) rest) prefix =
    (dotted prefix k, value t) ∷ flatten_patch rest prefix
flatten_patch (member k (object no_members) rest) prefix =
    (dotted prefix k, object no_members) ∷ flatten_patch rest prefix
flatten_patch (member k (object (member j v m)) rest) prefix =
    flatten_patch (member j v m) (dotted prefix k) ++ flatten_patch rest prefix

-- strings.Split(key, ".")
abbrev extend_part : Char → List String → List String
extend_part c [] = concat_char c "" ∷ []
extend_part c (p ∷ ps) = concat_char c p ∷ ps

unfoldable pub split_dots : String → List String
split_dots String.[] = "" ∷ []
split_dots (String.◌∷◌ c s) =
    let rest = split_dots s in if code c == 46 then "" ∷ rest else extend_part c rest

-- setDotted: the maps on the way are made where there is none.
unfoldable pub set_path : List String → Json → Members → Members
unfolding put members_at
set_path [] v m = m
set_path (p ∷ []) v m = put p v m
set_path (p ∷ q ∷ ps) v m = put p (object (set_path (q ∷ ps) v (members_at p m))) m

unfoldable pub set_dotted : String → Json → Members → Members
unfolding set_path split_dots
set_dotted key v m = set_path (split_dots key) v m
