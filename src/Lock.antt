-- ===== src/Lock.antt =====
-- deepwiki/internal/lock/redis_lock.go: the refresh lock of a repository. Redis keeps, for each lock
-- key, a token and the second at which it expires; the key "lock:refresh:<repo_id>" is written as
-- the repository's identifier. `redis_ok` says whether Redis answers.
pub mod Exclusion
pub mod Holding
use godeepwiki.Common.{
  ℕ, ◌+◌, Bool, true, false, String, List, Option, none, some, if◌then◌else◌, ltb, Result, ok, err,
  str_eq,
}
use godeepwiki.Common.Dict.{lookup, insert, delete}
use godeepwiki.Model.Errors.{Error, wrapped}

pub record Held : Type 0 where
  pub token : String
  pub expires : ℕ

abbrev pub Locks : Type 0
Locks = List (String × Held)

abbrev pub refresh_lock_ttl : ℕ
refresh_lock_ttl = 300

-- What GET sees: an expired entry is gone.
unfoldable pub holder : ℕ → String → Locks → Option String
unfolding lookup
holder now key locks = elim (lookup key locks) [
  | none ↦ none
  | some h ↦ if ltb now h.expires then some h.token else none
]

-- SET key token NX PX ttl
unfoldable pub lock : Bool → ℕ → String → String → ℕ → Locks → Result Error Bool × Locks
unfolding holder insert
lock redis_ok now key token ttl locks =
    if redis_ok
    then elim (holder now key locks) [
      | some other ↦ (ok false, locks)
      | none ↦ (ok true, insert key (record { token = token; expires = now + ttl }) locks)
    ]
    else (err (wrapped "lock acquire"), locks)

-- The unlock script: DEL only if GET gives the caller's token.
unfoldable pub unlock : Bool → ℕ → String → String → Locks → Result Error (Unit {0}) × Locks
unfolding holder delete
unlock redis_ok now key token locks =
    if redis_ok
    then (
      ok tt,
      elim (holder now key locks) [
        | none ↦ locks
        | some owner ↦ if str_eq owner token then delete key locks else locks
      ],
    )
    else (err (wrapped "lock release"), locks)

-- The token is the random one of this call; it is given back only when the lock was free.
unfoldable pub acquire_refresh :
    Bool → ℕ → String → String → Locks → Result Error (Option String) × Locks
unfolding lock
acquire_refresh redis_ok now token repo_id locks =
    elim (lock redis_ok now repo_id token refresh_lock_ttl locks).0 [
      | err e ↦ (err e, (lock redis_ok now repo_id token refresh_lock_ttl locks).1)
      | ok won ↦ (
        ok (if won then some token else none),
        (lock redis_ok now repo_id token refresh_lock_ttl locks).1,
      )
    ]

unfoldable pub release_refresh :
    Bool → ℕ → String → String → Locks → Result Error (Unit {0}) × Locks
unfolding unlock
release_refresh redis_ok now repo_id token locks = unlock redis_ok now repo_id token locks
