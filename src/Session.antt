-- ===== src/Session.antt =====
-- internal/core/session.go: the routes by which a store is opened, and the version floor.
use angou.Prelude.{◌≡◌, refl, Bool, true, false, Bool-cases, inl, inr, arith, if◌then◌else◌}
use angou.Prelude.{Result, ok, err, bad_version, ◌>>=◌, ◌>>◌}
use angou.Prelude.Bytes.{Bytes, is_empty}
use angou.Release.Versions.{Sign, below, same, above, compare_versions}
use angou.Release.Order.{at_most, compare_versions_swap, compare_versions_trans}

-- release.CompareVersions(version, floor) >= 0
abbrev pub is_at_least : Sign → Bool
is_at_least below = false
is_at_least same = true
is_at_least above = true

unfoldable pub check_version_floor : Bytes → Bytes → Result (Unit {0})
check_version_floor floor version =
    if is_empty floor
    then ok tt
    else if is_at_least (compare_versions version floor)
    then ok tt
    else err bad_version

pub data Route : Type 0 where
  route_none route_agent route_local_key route_recovery : Route

-- The three ways to open, as functions: to ask the agent, to unwrap the local key, to ask for the
-- recovery passphrase; and whether this machine has a local key.
module _ {S : Type 0} where
  abbrev by_recovery : Result S → Result S × Route
  by_recovery (ok s) = (ok s, route_recovery)
  by_recovery (err e) = (err e, route_none)

  unfoldable pub open_route : Result S → Bool → Result S → Result S → Result S × Route
  open_route (ok s) has_local by_key recovery = (ok s, route_agent)
  open_route (err e) true by_key recovery = (by_key, route_local_key)
  open_route (err e) false by_key recovery = by_recovery recovery

  abbrev keep_route : Route → S → S × Route
  keep_route route s = (s, route)

  -- Open: what the route gave, under the version floor of the store that it opened.
  unfoldable pub open_session : (S → Bytes) → Bytes → Result S × Route → Result (S × Route)
  open_session floor_of version (opened, route) =
      opened >>= λ s. check_version_floor (floor_of s) version >> ok (keep_route route s)

at_least-at_most :
    (a b : Bytes)
    → is_at_least (compare_versions a b) ≡ true
    → at_most (compare_versions b a) ≡ true
at_least-at_most a b h = rw (compare_versions_swap a b) (ground arith)

at_most-at_least :
    (a b : Bytes)
    → at_most (compare_versions b a) ≡ true
    → is_at_least (compare_versions a b) ≡ true
at_most-at_least a b h = rw (compare_versions_swap b a) (ground arith)

-- A version that the floor admits is admitted still when it is replaced by one that is not lower.
pub check_version_floor_mono :
    (floor version newer : Bytes)
    → check_version_floor floor version ≡ ok tt
    → at_most (compare_versions version newer) ≡ true
    → check_version_floor floor newer ≡ ok tt
unfolding check_version_floor
check_version_floor_mono floor version newer h up = elim (Bool-cases (is_empty floor)) [
  | inl e ↦ rw e refl
  | inr e ↦ elim (Bool-cases (is_at_least (compare_versions version floor))) [
    | inr low ↦ absurd (ground arith)
    | inl high ↦
        rw
          (
            e,
            at_most-at_least newer floor (
                compare_versions_trans floor version newer (at_least-at_most version floor high)
                  up),
          )
          refl
  ]
]
