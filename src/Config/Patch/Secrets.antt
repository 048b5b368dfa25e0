-- ===== src/Config/Patch/Secrets.antt =====
-- What findSecretKeys of config/manager.go keeps out of the configuration.
use godeepwiki.Common.{
  ◌≡◌, refl, ap, ◌∙◌, subst, ◌⊎◌, inl, inr, Bool, true, false, String, List, [], ◌∷◌, ◌++◌, Option,
  none, some, arith, Bool-cases, Option-cases, if◌then◌else◌, str_eq, eq_iff,
}
use godeepwiki.Config.Patch.{
  Json, null, value, object, Members, no_members, member, get, members_at, members_in, merge_patch,
  dotted, is_secret, find_secret_keys,
}
use godeepwiki.Config.Patch.Merge.{IsMap, merge_patch_lem}

-- None of the members, and none inside them, is a secret.
abbrev IsClean : Members → String → Type 0
IsClean m prefix = find_secret_keys m prefix ≡ []

leaf_nil :
    (b : Bool) (p : String) (xs : List String)
    → (if b then p ∷ xs else xs) ≡ []
    → (b ≡ false) × (xs ≡ [])
leaf_nil true p xs h = absurd (ground arith)
leaf_nil false p xs h = (refl, h)

object_nil :
    (b : Bool) (p : String) (inside xs : List String)
    → (if b then p ∷ xs else inside ++ xs) ≡ []
    → (b ≡ false) × (inside ≡ []) × (xs ≡ [])
object_nil true p inside xs h = absurd (ground arith)
object_nil false p [] xs h = (refl, refl, h)
object_nil false p (q ∷ inside) xs h = absurd (ground arith)

-- The first member of a clean map, and the rest.
IsClean-split :
    (k : String) (v : Json) (rest : Members) (prefix : String)
    → IsClean (member k v rest) prefix
    → (is_secret (dotted prefix k) ≡ false) × IsClean rest prefix
unfolding find_secret_keys
IsClean-split k null rest prefix h = leaf_nil _ _ _ h
IsClean-split k (value t) rest prefix h = leaf_nil _ _ _ h
IsClean-split k (object m) rest prefix h =
    let (a, b, c) =
      object_nil (is_secret (dotted prefix k)) (dotted prefix k)
        (find_secret_keys m (dotted prefix k)) (find_secret_keys rest prefix) h in
    (a, c)

IsClean-inside :
    (k : String) (m rest : Members) (prefix : String)
    → IsClean (member k (object m) rest) prefix
    → IsClean m (dotted prefix k)
unfolding find_secret_keys
IsClean-inside k m rest prefix h =
    (object_nil (is_secret (dotted prefix k)) (dotted prefix k)
      (find_secret_keys m (dotted prefix k)) (find_secret_keys rest prefix) h).1

IsClean-get :
    (k : String) (v : Json) (m : Members) (prefix : String)
    → IsClean m prefix
    → get k m ≡ some v
    → is_secret (dotted prefix k) ≡ false
unfolding get
IsClean-get k v no_members prefix c e = absurd (ground arith)
IsClean-get k v (member j x rest) prefix c e =
    let (own, others) = IsClean-split j x rest prefix c in
    elim (Bool-cases (str_eq j k)) [
      | inl hit ↦ subst (λ i. is_secret (dotted prefix i) ≡ false) ((eq_iff j k).0 hit) own
      | inr miss ↦ IsClean-get k v rest prefix others (ground arith)
    ]

IsClean-get_object :
    (k : String) (o m : Members) (prefix : String)
    → IsClean m prefix
    → get k m ≡ some (object o)
    → IsClean o (dotted prefix k)
unfolding get
IsClean-get_object k o no_members prefix c e = absurd (ground arith)
IsClean-get_object k o (member j x rest) prefix c e = elim (Bool-cases (str_eq j k)) [
  | inl hit ↦
      let same : x ≡ object o = ground arith in
      let c' : IsClean (member j (object o) rest) prefix =
        subst (λ y. IsClean (member j y rest) prefix) same c in
      subst (λ i. IsClean o (dotted prefix i)) ((eq_iff j k).0 hit)
        (IsClean-inside j o rest prefix c')
  | inr miss ↦ IsClean-get_object k o rest prefix (IsClean-split j x rest prefix c).1 (ground arith)
]

-- The API key of a section, if the section is an object that has one.
abbrev pub api_key_at : String → Members → Option Json
api_key_at s m = get "api_key" (members_at s m)

-- No key stands twice in the patch or in its section `s`.
abbrev pub IsSectionMap : String → Members → Type 0
IsSectionMap s m = IsMap m × IsMap (members_at s m)

section_lem :
    (s : String) (patch dst : Members)
    → is_secret (dotted (dotted "" s) "api_key") ≡ true
    → IsSectionMap s patch
    → IsClean patch ""
    → (api_key_at s (merge_patch patch dst) ≡ api_key_at s dst)
      ⊎ (api_key_at s (merge_patch patch dst) ≡ none)
unfolding members_at
section_lem s patch dst secret (u, u') c =
    let key = λ (o : Option Json). get "api_key" (members_in o) in
    let law = merge_patch_lem s patch dst u in
    elim (Option-cases (get s patch)) [
      | inl e ↦
          let same : get s (merge_patch patch dst) ≡ get s dst = law ∙ rw e refl in
          inl (ap key same)
      | inr (null, e) ↦
          let gone : get s (merge_patch patch dst) ≡ none = law ∙ rw e refl in inr (ap key gone)
      | inr (value t, e) ↦
          let plain : get s (merge_patch patch dst) ≡ some (value t) = law ∙ rw e refl in
          inr (ap key plain)
      | inr (object o, e) ↦
          let clean = IsClean-get_object s o patch "" c e in
          let whole : get s (merge_patch patch dst)
              ≡ some (object (merge_patch o (members_at s dst))) =
            law ∙ rw e refl in
          let merged : members_at s (merge_patch patch dst) ≡ merge_patch o (members_at s dst) =
            ap members_in whole in
          let absent : get "api_key" o ≡ none = elim (Option-cases (get "api_key" o)) [
            | inl a ↦ a
            | inr (v, a) ↦
                absurd (ground (arith, secret, IsClean-get "api_key" v o (dotted "" s) clean a))
          ] in
          inl (
            ap (get "api_key") merged
            ∙ merge_patch_lem "api_key" o (members_at s dst) (subst IsMap (ap members_in e) u')
            ∙ rw absent refl)
    ]

-- A patch in which findSecretKeys finds nothing, and no key stands twice, never writes an API key:
-- after the merge the key of either section is the one before, or it is gone.
pub merge_patch-no_secret :
    (patch dst : Members)
    → IsSectionMap "embedding" patch
    → IsSectionMap "llm" patch
    → find_secret_keys patch "" ≡ []
    → ((api_key_at "embedding" (merge_patch patch dst) ≡ api_key_at "embedding" dst)
        ⊎ (api_key_at "embedding" (merge_patch patch dst) ≡ none))
      × ((api_key_at "llm" (merge_patch patch dst) ≡ api_key_at "llm" dst)
          ⊎ (api_key_at "llm" (merge_patch patch dst) ≡ none))
merge_patch-no_secret patch dst e l c =
    (section_lem "embedding" patch dst refl e c, section_lem "llm" patch dst refl l c)
