-- ===== src/Lock/Holding.antt =====
-- The refresh lock of redis_lock.go over many calls: who has it, and for how long.
use godeepwiki.Common.{
  ℕ, ◌+◌, ◌≤◌, ◌<◌, ◌≡◌, ◌≢◌, Bool, true, String, List, [], ◌∷◌, none, some, if◌then◌else◌, ok, err,
  eq_iff, arith, All,
}
use godeepwiki.Common.Dict.{lookup, lookup-insert, lookup-delete}
use godeepwiki.Model.Errors.{wrapped}
use godeepwiki.Lock.{Locks, holder, acquire_refresh, release_refresh, refresh_lock_ttl}

-- A call of any node: whether Redis answers, the time, the repository and the token.
pub data LockCall : Type 0 where
  acquires releases : Bool → ℕ → String → String → LockCall

unfoldable pub after_call : LockCall → Locks → Locks
unfolding acquire_refresh release_refresh
after_call (acquires redis_ok now repo token) locks =
    (acquire_refresh redis_ok now token repo locks).1
after_call (releases redis_ok now repo token) locks =
    (release_refresh redis_ok now repo token locks).1

unfoldable pub after_calls : List LockCall → Locks → Locks
unfolding after_call
after_calls [] locks = locks
after_calls (c ∷ cs) locks = after_calls cs (after_call c locks)

-- A call before `end` that is no release of this lock with this token.
abbrev pub LeavesIt : String → String → ℕ → LockCall → Type 0
LeavesIt repo token end (acquires redis_ok now other by) = now < end
LeavesIt repo token end (releases redis_ok now other by) = (now < end) × (other ≡ repo → by ≢ token)

after_call-keeps :
    (repo token : String) (end : ℕ) (c : LockCall) (locks : Locks)
    → LeavesIt repo token end c
    → lookup repo locks ≡ some (record { token = token; expires = end })
    → lookup repo (after_call c locks) ≡ some (record { token = token; expires = end })
unfolding after_call holder
after_call-keeps repo token end (acquires redis_ok now other by) locks early held = ground (
  arith,
  eq_iff other repo,
  lookup-insert other repo (record { token = by; expires = now + 300 }) locks,
)
after_call-keeps repo token end (releases redis_ok now other by) locks (early, not_ours) held =
    ground (arith, eq_iff other repo, eq_iff token by, lookup-delete other repo locks, not_ours)

after_calls-keeps :
    (repo token : String) (end : ℕ) (cs : List LockCall) (locks : Locks)
    → All (LeavesIt repo token end) cs
    → lookup repo locks ≡ some (record { token = token; expires = end })
    → lookup repo (after_calls cs locks) ≡ some (record { token = token; expires = end })
unfolding after_calls
after_calls-keeps repo token end [] locks quiet held = held
after_calls-keeps repo token end (c ∷ cs) locks (q, quiet) held =
    after_calls-keeps repo token end cs (after_call c locks) quiet
      (after_call-keeps repo token end c locks q held)

acquire_refresh-holds :
    (redis_ok : Bool) (now : ℕ) (token repo : String) (locks : Locks)
    → (acquire_refresh redis_ok now token repo locks).0 ≡ ok (some token)
    → lookup repo (acquire_refresh redis_ok now token repo locks).1
      ≡ some (record { token = token; expires = now + refresh_lock_ttl })
unfolding acquire_refresh holder
acquire_refresh-holds redis_ok now token repo locks won = ground (
  arith,
  eq_iff repo repo,
  lookup-insert repo repo (record { token = token; expires = now + 300 }) locks,
)

-- What a call finds while the lock is held and has not expired: an acquisition does not get it, and
-- after the holder's release one does.
module _ (later : ℕ) (token by repo : String) (locks : Locks) where
  acquire_refresh-refused :
      (redis_ok : Bool) (end : ℕ)
      → lookup repo locks ≡ some (record { token = token; expires = end })
      → later < end
      → ((acquire_refresh redis_ok later by repo locks).0
          ≡ (if redis_ok then ok none else err (wrapped "lock acquire")))
        × ((acquire_refresh redis_ok later by repo locks).1 ≡ locks)
  unfolding acquire_refresh holder
  acquire_refresh-refused redis_ok end held early = (ground arith, ground arith)

  acquire_refresh-freed :
      (end : ℕ)
      → lookup repo locks ≡ some (record { token = token; expires = end })
      → later < end
      → (acquire_refresh true later by repo (release_refresh true later repo token locks).1).0
        ≡ ok (some by)
  unfolding acquire_refresh release_refresh holder
  acquire_refresh-freed end held early =
      ground (arith, eq_iff repo repo, eq_iff token token, lookup-delete repo repo locks)

  acquire_refresh-expired :
      (end : ℕ)
      → lookup repo locks ≡ some (record { token = token; expires = end })
      → end ≤ later
      → (acquire_refresh true later by repo locks).0 ≡ ok (some by)
  unfolding acquire_refresh holder
  acquire_refresh-expired end held late = ground arith

-- A call got the lock of a repository with its token at `now`. Then come any calls of any nodes for
-- any repositories, Redis answering or not, all before the lock expires, `refresh_lock_ttl` seconds
-- after `now`, and none of them a release of this lock with this token. Another call for the
-- repository at a time `later` then never gets the lock before it expires: it is told that the lock
-- is taken, or that Redis does not answer, and changes no lock. While Redis answers, it does get
-- the lock when the holder releases it just before, or once the lock has expired.
pub acquire_refresh-IsExclusive :
    (redis_ok : Bool) (now later : ℕ) (token by repo : String) (locks : Locks) (cs : List LockCall)
    → (acquire_refresh redis_ok now token repo locks).0 ≡ ok (some token)
    → All (LeavesIt repo token (now + refresh_lock_ttl)) cs
    → let held = after_calls cs (acquire_refresh redis_ok now token repo locks).1 in
      (later < now + refresh_lock_ttl
        → (up : Bool)
        → ((acquire_refresh up later by repo held).0
            ≡ (if up then ok none else err (wrapped "lock acquire")))
          × ((acquire_refresh up later by repo held).1 ≡ held))
      × (later < now + refresh_lock_ttl
          → (acquire_refresh true later by repo (release_refresh true later repo token held).1).0
            ≡ ok (some by))
      × (now + refresh_lock_ttl ≤ later
          → (acquire_refresh true later by repo held).0 ≡ ok (some by))
acquire_refresh-IsExclusive redis_ok now later token by repo locks cs won quiet =
    let first = (acquire_refresh redis_ok now token repo locks).1 in
    let end = now + refresh_lock_ttl in
    let held =
      after_calls-keeps repo token end cs first quiet
        (acquire_refresh-holds redis_ok now token repo locks won) in
    let rest = after_calls cs first in
    (
      λ early up. acquire_refresh-refused later token by repo rest up end held early,
      λ early. acquire_refresh-freed later token by repo rest end held early,
      λ late. acquire_refresh-expired later token by repo rest end held late,
    )
