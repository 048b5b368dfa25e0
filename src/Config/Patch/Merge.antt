-- ===== src/Config/Patch/Merge.antt =====
-- mergePatch of config/manager.go against the rules of JSON Merge Patch (RFC 7396).
use godeepwiki.Common.{
  ◌≡◌, refl, ◌∙◌, subst, inl, inr, false, String, Option, none, some, arith, Bool-cases,
  if◌then◌else◌, str_eq, eq_iff, eq_refl,
}
use godeepwiki.Config.Patch.{
  Json, null, value, object, Members, no_members, member, get, remove, put, members_at, merge_patch,
}

-- No key of the map stands twice.
abbrev pub IsMap : Members → Type 0
IsMap no_members = Unit {0}
IsMap (member k v m) = (get k m ≡ none) × IsMap m

pub get-remove :
    (k j : String) (m : Members) → get j (remove k m) ≡ (if str_eq k j then none else get j m)
unfolding get remove
get-remove k j no_members = ground arith
get-remove k j (member i v m) = ground (arith, eq_iff k j, eq_iff i k, eq_iff i j, get-remove k j m)

pub get-put :
    (k j : String) (v : Json) (m : Members)
    → get j (put k v m) ≡ (if str_eq k j then some v else get j m)
unfolding get put
get-put k j v m = ground (arith, get-remove k j m)

-- What a member of the patch asks for, by RFC 7396: no member leaves the target, null removes, an
-- object is merged with the target's object or with an empty one, and any other value replaces.
abbrev pub asked : Option Json → Option Json → Members → Option Json
asked none target at = target
asked (some null) target at = none
asked (some (value t)) target at = some (value t)
asked (some (object m)) target at = some (object (merge_patch m at))

-- One member of the patch, whose key the rest of the patch does not have.
member_step :
    (k j : String) (v : Json) (rest dst after : Members)
    → get j rest ≡ none
    → get j after ≡ asked (some v) (get j dst) (members_at j dst)
    → (str_eq j k ≡ false → get k after ≡ get k dst)
    → asked (get k rest) (get k after) (members_at k after)
      ≡ asked (if str_eq j k then some v else get k rest) (get k dst) (members_at k dst)
unfolding members_at
member_step k j v rest dst after free here there = elim (Bool-cases (str_eq j k)) [
  | inr miss ↦ rw (miss, there miss, members_at) refl
  | inl hit ↦
      let same : j ≡ k = (eq_iff j k).0 hit in
      let free_k : get k rest ≡ none = subst (λ i. get i rest ≡ none) same free in
      rw (hit, free_k)
        (subst (λ i. get i after ≡ asked (some v) (get i dst) (members_at i dst)) same here)
]

get-put_same : (k : String) (v : Json) (m : Members) → get k (put k v m) ≡ some v
get-put_same k v m = ground (arith, get-put k k v m, eq_refl k)

-- The merge of a patch in which no key stands twice gives, at every key, what RFC 7396 asks for.
pub merge_patch_lem :
    (k : String) (patch dst : Members)
    → IsMap patch
    → get k (merge_patch patch dst) ≡ asked (get k patch) (get k dst) (members_at k dst)
unfolding merge_patch
merge_patch_lem k no_members dst u = refl
merge_patch_lem k (member j null rest) dst (free, u) =
    merge_patch_lem k rest (remove j dst) u
    ∙ member_step k j null rest dst (remove j dst) free
        (ground (arith, get-remove j j dst, eq_refl j)) (λ miss. get-remove j k dst ∙ rw miss refl)
merge_patch_lem k (member j (value t) rest) dst (free, u) =
    merge_patch_lem k rest (put j (value t) dst) u
    ∙ member_step k j (value t) rest dst (put j (value t) dst) free (get-put_same j (value t) dst)
        (λ miss. get-put j k (value t) dst ∙ rw miss refl)
merge_patch_lem k (member j (object m) rest) dst (free, u) =
    let merged = object (merge_patch m (members_at j dst)) in
    merge_patch_lem k rest (put j merged dst) u
    ∙ member_step k j (object m) rest dst (put j merged dst) free (get-put_same j merged dst)
        (λ miss. get-put j k merged dst ∙ rw miss refl)
