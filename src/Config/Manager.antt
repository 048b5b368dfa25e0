-- ===== src/Config/Manager.antt =====
-- config.Manager (config/manager.go) and its transaction in etcd (config/etcd_source.go). The struct
-- Config is the JSON object of its fields and, apart, the fields that JSON leaves out. What
-- encoding/json and the validator make of an object is the parameter `Decoder`. The numbers in the
-- texts of issues and audits are left out.
pub mod Applying
use godeepwiki.Common.{
  ℕ, zero, suc, ◌+◌, ◌/◌, Bool, true, false, not, ◌&&◌, ◌||◌, ◌==◌, ltb, String, List, [], ◌∷◌,
  ◌++◌, Option, none, some, if◌then◌else◌, str_eq, Result, ok, err,
}
use godeepwiki.Common.Dict.{insert}
use godeepwiki.Model.Errors.{ErrorDetail}
use godeepwiki.Config.Patch.{
  Json, null, value, object, Members, no_members, member, merge_patch, flatten_patch, set_dotted,
  find_secret_keys,
}

-- The fields tagged json:"-".
pub record Secrets : Type 0 where
  pub auth : List String
  pub postgres_dsn : String
  pub rabbitmq_url : String
  pub redis_password : String
  pub search_username : String
  pub search_password : String

abbrev pub no_secrets : Secrets
no_secrets = record {
  auth = [];
  postgres_dsn = "";
  rabbitmq_url = "";
  redis_password = "";
  search_username = "";
  search_password = "";
}

pub record Settings : Type 0 where
  pub sections : Members
  pub secrets : Secrets

pub record Embedding : Type 0 where
  pub provider : String
  pub model : String
  pub base_url : String

-- The numbers of the rules across fields.
pub record Limits : Type 0 where
  pub chunk_size : ℕ
  pub chunk_overlap : ℕ
  pub rps : ℕ
  pub burst : ℕ

-- `decode`: the object after a pass through the struct; `struct_issues`: the tags of the validator.
pub record Decoder : Type 0 where
  pub decode : Members → Members
  pub limits : Members → Limits
  pub embedding : Members → Embedding
  pub dimensions : Members → ℕ
  pub struct_issues : Members → List ErrorDetail

pub record Audit : Type 0 where
  pub changed_by : String
  pub accepted : Bool
  pub reason : String

-- What etcd holds; no version is the missing key.
pub record Etcd : Type 0 where
  pub overrides : List (String × Json)
  pub version : Option ℕ
  pub audits : List (ℕ × Audit)

pub record ConfigManager : Type 0 where
  pub base : Settings
  pub snapshot : Settings
  pub version : ℕ
  pub etcd : Etcd
  pub notified : List Settings

pub data Rejection : Type 0 where
  store_unavailable no_object empty_patch : Rejection
  secret_keys : List String → Rejection
  invalid : List ErrorDetail → Rejection
  probe_failed dimension_mismatch : Rejection

-- What etcd and the embedding provider do: `txn_ok`: the one
-- transaction of the call commits; `chunks`: the count, if it can be taken; `probe`: the length of the vector, if there is one.
pub record ApplyEnv : Type 0 where
  pub healthy : Bool
  pub txn_ok : Bool
  pub can_probe : Bool
  pub chunks : Option ℕ
  pub prober_ok : Bool
  pub probe : Option ℕ

abbrev next_version : Etcd → ℕ
next_version e = elim e.version [ none ↦ 1 | some v ↦ v + 1 ]

abbrev put_all : List (String × Json) → List (String × Json) → List (String × Json)
put_all [] m = m
put_all ((k, v) ∷ changes) m = put_all changes (insert k v m)

-- The version is raised with every transaction, also with one that only writes an audit.
unfoldable pub apply_txn : Bool → List (String × Json) → Audit → Etcd → Option ℕ × Etcd
unfolding insert
apply_txn committed changes audit e =
    if committed
    then (
      some (next_version e),
      record {
        overrides = put_all changes e.overrides;
        version = some (next_version e);
        audits = e.audits ++ (next_version e, audit) ∷ [];
      },
    )
    else (none, e)

abbrev set_all : List (String × Json) → Members → Members
set_all [] m = m
set_all ((k, v) ∷ overrides) m = set_all overrides (set_dotted k v m)

module _ (d : Decoder) where
  -- The secrets of the base that are carried over; the others are empty.
  unfoldable pub merge_overrides : Settings → List (String × Json) → Settings
  unfolding set_dotted
  merge_overrides base [] = base
  merge_overrides base (o ∷ os) = record {
    sections = d.decode (set_all (o ∷ os) base.sections);
    secrets = record no_secrets {
      auth = base.secrets.auth;
      postgres_dsn = base.secrets.postgres_dsn;
      rabbitmq_url = base.secrets.rabbitmq_url;
      redis_password = base.secrets.redis_password;
    };
  }

  unfoldable pub issues_of : Members → List ErrorDetail
  issues_of m =
      d.struct_issues m
      ++ ((if ltb ((d.limits m).chunk_size / 2) (d.limits m).chunk_overlap
            then record {
              field = "ingest.chunk_overlap";
              issue = "chunk_overlap must be <= chunk_size/2";
              existing_repo_id = "";
            }
              ∷ []
            else [])
          ++ (if ltb (d.limits m).burst (d.limits m).rps
              then record {
                field = "rate_limit.per_ip";
                issue = "burst must be >= rps";
                existing_repo_id = "";
              }
                ∷ []
              else []))

  unfoldable pub embedding_changed : Embedding → Embedding → Bool
  embedding_changed old new =
      not (str_eq old.provider new.provider)
      || (not (str_eq old.model new.model) || not (str_eq old.base_url new.base_url))

  -- Nothing, or the reason and the rejection of probeEmbeddingDimension.
  unfoldable pub probe_dimension : ApplyEnv → Settings → Option (String × Rejection)
  probe_dimension env current = if not env.can_probe then none else elim env.chunks [
    | none ↦ none
    | some zero ↦ none
    | some (suc n) ↦
        if not env.prober_ok
        then some ("dimension probe build failed", probe_failed)
        else elim env.probe [
          | none ↦ some ("dimension probe failed", probe_failed)
          | some zero ↦ some ("dimension probe failed", probe_failed)
          | some (suc got) ↦
              if suc got == d.dimensions current.sections
              then none
              else some ("dimension mismatch", dimension_mismatch)
        ]
  ]

  -- A rejection, with its audit; that the audit fails is ignored.
  abbrev pub reject :
      Bool → String → String → Rejection → ConfigManager → Option Rejection × ConfigManager
  reject committed changed_by reason why m =
      let audit : Audit = record { changed_by = changed_by; accepted = false; reason = reason } in
      (some why, record m { etcd = (apply_txn committed [] audit m.etcd).1 })

  -- The transaction, and on success the new snapshot. The candidate comes from JSON alone.
  unfoldable pub commit :
      ApplyEnv → String → Members → Members → ConfigManager → Option Rejection × ConfigManager
  unfolding apply_txn flatten_patch
  commit env changed_by patch candidate m =
      let audit : Audit = record { changed_by = changed_by; accepted = true; reason = "" } in
      let snapshot : Settings = record { sections = candidate; secrets = no_secrets } in
      let (done, etcd) = apply_txn env.txn_ok (flatten_patch patch "") audit m.etcd in
      elim done [
        | none ↦ (some store_unavailable, m)
        | some v ↦ (
          none,
          record m {
            snapshot = snapshot;
            version = v;
            etcd = etcd;
            notified = m.notified ++ snapshot ∷ [];
          },
        )
      ]

  unfoldable pub check_and_commit :
      ApplyEnv → String → Members → Members → ConfigManager → Option Rejection × ConfigManager
  unfolding issues_of embedding_changed probe_dimension commit
  check_and_commit env changed_by patch candidate m = elim (issues_of candidate) [
    | i ∷ is ↦ reject env.txn_ok changed_by "validation failed" (invalid (i ∷ is)) m
    | [] ↦
        if embedding_changed (d.embedding m.snapshot.sections) (d.embedding candidate)
        then elim (probe_dimension env m.snapshot) [
          | some (reason, why) ↦ reject env.txn_ok changed_by reason why m
          | none ↦ commit env changed_by patch candidate m
        ]
        else commit env changed_by patch candidate m
  ]

  -- Apply: `none` is success.
  unfoldable pub apply :
      ApplyEnv → String → Option Members → ConfigManager → Option Rejection × ConfigManager
  unfolding check_and_commit find_secret_keys merge_patch
  apply env changed_by patch m =
      if not env.healthy then (some store_unavailable, m) else elim patch [
        | none ↦ (some no_object, m)
        | some no_members ↦ (some empty_patch, m)
        | some (member k v rest) ↦ elim (find_secret_keys (member k v rest) "") [
          | s ∷ ss ↦ reject env.txn_ok changed_by "secret key in patch" (secret_keys (s ∷ ss)) m
          | [] ↦
              check_and_commit env changed_by (member k v rest)
                (d.decode (merge_patch (member k v rest) m.snapshot.sections)) m
        ]
      ]

  -- A change in etcd: everything is read again. A version that is missing counts as 1.
  unfoldable pub reload : Bool → ConfigManager → ConfigManager
  unfolding merge_overrides
  reload loaded m =
      let snapshot = merge_overrides m.base m.etcd.overrides in
      if not loaded then m else elim (d.struct_issues snapshot.sections) [
        | i ∷ is ↦ m
        | [] ↦ record m {
          snapshot = snapshot;
          version = elim m.etcd.version [ none ↦ 1 | some v ↦ v ];
          notified = m.notified ++ snapshot ∷ [];
        }
      ]
