-- ===== src/Config/Manager/Applying.antt =====
-- What Apply and a reload of config/manager.go leave of the configuration.
use godeepwiki.Common.{
  ℕ, ◌≡◌, refl, sym, subst, ◌⊎◌, inl, inr, Bool, true, false, String, List, [], ◌∷◌, ◌++◌, Option,
  none, some, Bool-cases, Option-cases,
}
use godeepwiki.Config.Patch.{Json, Members, member, merge_patch, find_secret_keys}
use godeepwiki.Config.Manager.{
  Secrets, Settings, Decoder, ConfigManager, ApplyEnv, Rejection, store_unavailable, secret_keys,
  invalid, reject, no_secrets, issues_of, commit, check_and_commit, apply, reload, merge_overrides,
  apply_txn, probe_dimension, embedding_changed,
}

list_cases : {A : Type 0} (xs : List A) → (xs ≡ []) ⊎ ((x : A) × (ys : List A) × (xs ≡ x ∷ ys))
list_cases [] = inl refl
list_cases (x ∷ xs) = inr (x, xs, refl)

-- The configuration in force is the one before.
abbrev pub Kept : ConfigManager → ConfigManager → Type 0
Kept m m' =
    (m'.snapshot ≡ m.snapshot)
    × (m'.version ≡ m.version)
    × (m'.notified ≡ m.notified)
    × (m'.etcd.overrides ≡ m.etcd.overrides)

-- The secrets that a reload takes from the base.
abbrev pub KeepsSecrets : Secrets → Secrets → Type 0
KeepsSecrets s s' =
    (s'.auth ≡ s.auth)
    × (s'.postgres_dsn ≡ s.postgres_dsn)
    × (s'.rabbitmq_url ≡ s.rabbitmq_url)
    × (s'.redis_password ≡ s.redis_password)

abbrev pub or_else_one : Option ℕ → ℕ
or_else_one none = 1
or_else_one (some v) = v

module _ (d : Decoder) where
  -- The candidate is in force, has passed the rules and was announced, and etcd has its version.
  abbrev pub InForce : Members → ConfigManager → ConfigManager → Type 0
  InForce candidate m m' =
      (m'.snapshot.sections ≡ candidate)
      × (m'.snapshot.secrets ≡ no_secrets)
      × (issues_of d candidate ≡ [])
      × (m'.notified ≡ m.notified ++ m'.snapshot ∷ [])
      × (m'.etcd.version ≡ some m'.version)

  abbrev pub Outcome : Members → ConfigManager → Option Rejection × ConfigManager → Type 0
  Outcome candidate m r =
      ((why : Rejection) × (r.0 ≡ some why) × Kept m r.1) ⊎ ((r.0 ≡ none) × InForce candidate m r.1)

  reject-Outcome :
      (committed : Bool) (by reason : String) (why : Rejection) (candidate : Members)
      (m : ConfigManager)
      → Outcome candidate m (reject d committed by reason why m)
  unfolding apply_txn
  reject-Outcome true by reason why candidate m = inl (why, refl, (refl, refl, refl, refl))
  reject-Outcome false by reason why candidate m = inl (why, refl, (refl, refl, refl, refl))

  commit-Outcome :
      (env : ApplyEnv) (by : String) (patch candidate : Members) (m : ConfigManager)
      → issues_of d candidate ≡ []
      → Outcome candidate m (commit d env by patch candidate m)
  unfolding commit apply_txn
  commit-Outcome env by patch candidate m fine = elim (Bool-cases env.txn_ok) [
    | inl yes' ↦ rw (yes', commit) (inr (refl, (refl, refl, fine, refl, rw (yes', apply_txn) refl)))
    | inr no' ↦ rw (no', commit) (inl (store_unavailable, refl, (refl, refl, refl, refl)))
  ]

  check_and_commit-Outcome :
      (env : ApplyEnv) (by : String) (patch candidate : Members) (m : ConfigManager)
      → Outcome candidate m (check_and_commit d env by patch candidate m)
  unfolding check_and_commit
  check_and_commit-Outcome env by patch candidate m = elim (list_cases (issues_of d candidate)) [
    | inr (i, is, e) ↦
        let refused = reject d env.txn_ok by "validation failed" (invalid (i ∷ is)) m in
        let q : check_and_commit d env by patch candidate m ≡ refused =
          rw (e, check_and_commit) refl in
        subst (Outcome candidate m) (sym q)
          (reject-Outcome env.txn_ok by "validation failed" (invalid (i ∷ is)) candidate m)
    | inl fine ↦
        let done = commit-Outcome env by patch candidate m fine in
        let now = check_and_commit d env by patch candidate m in
        let goes_on = commit d env by patch candidate m in
        elim (Bool-cases
          (embedding_changed d (d.embedding m.snapshot.sections) (d.embedding candidate))) [
            | inr same ↦
                let q : now ≡ goes_on =
                  rw (fine, check_and_commit) (rw (same, check_and_commit) refl) in
                subst (Outcome candidate m) (sym q) done
            | inl new ↦ elim (Option-cases (probe_dimension d env m.snapshot)) [
              | inl e ↦
                  let q : now ≡ goes_on =
                    rw (fine, check_and_commit)
                      (rw (new, check_and_commit) (rw (e, check_and_commit) refl)) in
                  subst (Outcome candidate m) (sym q) done
              | inr ((reason, why), e) ↦
                  let q : now ≡ reject d env.txn_ok by reason why m =
                    rw (fine, check_and_commit)
                      (rw (new, check_and_commit) (rw (e, check_and_commit) refl)) in
                  subst (Outcome candidate m) (sym q)
                    (reject-Outcome env.txn_ok by reason why candidate m)
            ]
          ]
  ]

  -- Apply of a patch that is an object with members. If it is refused, for whatever reason, the
  -- snapshot, the version, the overrides in etcd and the subscribers see nothing of it. If it
  -- succeeds, the snapshot is the merge of the patch into the one before, decoded; it has passed the
  -- rules, was announced, and has the version that etcd has; its fields that JSON leaves out, the
  -- secrets, are empty.
  pub apply_lem :
      (env : ApplyEnv) (by k : String) (v : Json) (rest : Members) (m : ConfigManager)
      → Outcome
          (d.decode (merge_patch (member k v rest) m.snapshot.sections))
          m
          (apply d env by (some (member k v rest)) m)
  unfolding apply
  apply_lem env by k v rest m =
      let candidate = d.decode (merge_patch (member k v rest) m.snapshot.sections) in
      elim (Bool-cases env.healthy) [
        | inr down ↦ rw (down, apply) (inl (store_unavailable, refl, (refl, refl, refl, refl)))
        | inl up ↦ elim (list_cases (find_secret_keys (member k v rest) "")) [
          | inr (s, ss, e) ↦
              rw (up, apply)
                (rw (e, apply)
                  (reject-Outcome env.txn_ok by "secret key in patch" (secret_keys (s ∷ ss))
                    candidate m))
          | inl clean ↦
              rw (up, apply)
                (rw (clean, apply) (check_and_commit-Outcome env by (member k v rest) candidate m))
        ]
      ]

  abbrev pub Reloaded : ConfigManager → ConfigManager → Type 0
  Reloaded m m' =
      (m'.snapshot ≡ merge_overrides d m.base m.etcd.overrides)
      × (d.struct_issues m'.snapshot.sections ≡ [])
      × (m'.notified ≡ m.notified ++ m'.snapshot ∷ [])
      × (m'.version ≡ or_else_one m.etcd.version)
      × KeepsSecrets m.base.secrets m'.snapshot.secrets

  merge_overrides-KeepsSecrets :
      (base : Settings) (overrides : List (String × Json))
      → KeepsSecrets base.secrets (merge_overrides d base overrides).secrets
  unfolding merge_overrides
  merge_overrides-KeepsSecrets base [] = (refl, refl, refl, refl)
  merge_overrides-KeepsSecrets base (o ∷ os) = (refl, refl, refl, refl)

  -- A reload changes nothing, or puts the base with all overrides in force; then it has passed the
  -- validator, was announced under the version of etcd, and has the API keys of the server, the DSN,
  -- the URL of the queue and the password of Redis that the base has.
  pub reload_lem :
      (loaded : Bool) (m : ConfigManager) → let m' = reload d loaded m in (m' ≡ m) ⊎ Reloaded m m'
  unfolding reload
  reload_lem false m = inl refl
  reload_lem true m =
      elim (list_cases (d.struct_issues (merge_overrides d m.base m.etcd.overrides).sections)) [
        | inr (i, is, e) ↦ inl (rw (e, reload) refl)
        | inl fine ↦
            let next : ConfigManager = record m {
              snapshot = merge_overrides d m.base m.etcd.overrides;
              version = or_else_one m.etcd.version;
              notified = m.notified ++ merge_overrides d m.base m.etcd.overrides ∷ [];
            } in
            let q : reload d true m ≡ next = rw (fine, reload) refl in
            inr (
              subst (λ x. Reloaded m x) (sym q)
                (refl, fine, refl, refl, merge_overrides-KeepsSecrets m.base m.etcd.overrides))
      ]
