-- ===== src/Lock/Exclusion.antt =====
-- Mutual exclusion by the refresh lock of redis_lock.go.
use godeepwiki.Common.{
  ℕ, ◌+◌, ◌≡◌, ◌≢◌, true, String, none, some, if◌then◌else◌, ltb, ok, eq_iff, arith, Option-cases,
  inl, inr, is_some,
}
use godeepwiki.Common.Dict.{lookup, lookup-insert, lookup-delete}
use godeepwiki.Lock.{Locks, holder, acquire_refresh, release_refresh, refresh_lock_ttl}

-- While Redis answers, an acquisition succeeds exactly when nobody holds the repository's lock. The
-- holder is then the caller, with its token, until `refresh_lock_ttl` seconds have passed; the holder of any other
-- repository's lock stays the same.
pub acquire_refresh_lem :
    (now later : ℕ) (token repo other : String) (locks : Locks)
    → let r = acquire_refresh true now token repo locks in
      (r.0 ≡ ok (if is_some (holder now repo locks) then none else some token))
      × (r.0 ≡ ok (some token)
          → holder later repo r.1
            ≡ (if ltb later (now + refresh_lock_ttl) then some token else none))
      × (repo ≢ other → holder later other r.1 ≡ holder later other locks)
unfolding acquire_refresh holder
acquire_refresh_lem now later token repo other locks = (
  ground arith,
  λ h. ground (
    arith,
    lookup-insert repo repo (record { token = token; expires = now + 300 }) locks,
    eq_iff repo repo,
  ),
  λ h. ground (
    arith,
    h,
    lookup-insert repo other (record { token = token; expires = now + 300 }) locks,
    eq_iff repo other,
  ),
)

-- A release by the holder frees the lock, and a release with any other token changes no lock.
pub release_refresh_lem :
    (now later : ℕ) (token repo : String) (locks : Locks)
    → let r = release_refresh true now repo token locks in
      (holder now repo locks ≡ some token → holder later repo r.1 ≡ none)
      × (holder now repo locks ≢ some token → r.1 ≡ locks)
unfolding release_refresh holder
release_refresh_lem now later token repo locks = (
  λ h. ground (arith, lookup-delete repo repo locks, eq_iff repo repo, eq_iff token token),
  λ h. elim (Option-cases (lookup repo locks)) [
    | inl free ↦ ground (arith, free)
    | inr (x, found) ↦ ground (arith, h, found, eq_iff x.token token)
  ],
)
