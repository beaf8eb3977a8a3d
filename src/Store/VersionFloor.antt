-- ===== src/Store/VersionFloor.antt =====
-- The version floor that a store records.
use angou.Prelude.{
  ◌≡◌, ◌≢◌, refl, ap, true, false, Bool-cases, inl, inr, [], ◌∷◌, arith, if◌then◌else◌, not, ◌&&◌,
}
use angou.Prelude.{Result, ok, err}
use angou.Prelude.Bytes.{Bytes, is_empty}
use angou.External.{External}
use angou.Release.Versions.{compare_versions}
use angou.Release.Order.{at_most, is_above, compare_versions_refl, compare_versions_swap}
use angou.Store.Act
use angou.Store.Act.{Cell, reads}
use angou.Store.Core.{write_meta}
use angou.Store.Ops.{raise_version_floor}

module _ (x : External) where
  filled : (s : Bytes) → s ≢ [] → is_empty s ≡ false
  filled [] ne = absurd (ne refl)
  filled (b ∷ s) ne = refl

  cell_kept :
      (p : Result (Unit {0}) × Cell x) → (Act.continue p (λ u c. (Result.ok true, c))).1 ≡ p.1
  cell_kept (ok u, c) = refl
  cell_kept (err e, c) = refl

  abbrev with_floor : Bytes → Cell x → Cell x
  with_floor version c = record c {
    store = record (c.store) { meta = record (c.store.meta) { version_floor = version } };
  }

  raised_floor :
      (version : Bytes) (c : Cell x)
      → (raise_version_floor x version
          (λ a b. is_above (compare_versions a b))
          c).1.store.meta.version_floor
        ≡ (if not (is_empty c.store.meta.version_floor)
              && not (is_above (compare_versions version c.store.meta.version_floor))
            then c.store.meta.version_floor
            else version)
  unfolding raise_version_floor
  raised_floor version c =
      elim (not (is_empty c.store.meta.version_floor)
          && not (is_above (compare_versions version c.store.meta.version_floor)))
        as (λ b.
          (if b
            then (Result.ok false, c)
            else Act.continue (reads (write_meta x) (with_floor version c))
                (λ u c'. (ok true, c'))).1.store.meta.version_floor
          ≡ (if b then c.store.meta.version_floor else version)) [
            | true ↦ refl
            | false ↦
                ap (λ (k : Cell x). k.store.meta.version_floor)
                  (cell_kept (reads (write_meta x) (with_floor version c)))
          ]

  higher :
      (a b : Bytes) → is_above (compare_versions b a) ≡ true → at_most (compare_versions a b) ≡ true
  higher a b h = rw (compare_versions_swap b a) (ground arith)

  -- Whatever calls fail, RaiseVersionFloor under CompareVersions never leaves a recorded floor that
  -- is lower than the one before.
  pub raise_version_floor-at_most :
      (version : Bytes) (c : Cell x)
      → c.store.meta.version_floor ≢ []
      → at_most (
          compare_versions c.store.meta.version_floor
            (raise_version_floor x version
              (λ a b. is_above (compare_versions a b))
              c).1.store.meta.version_floor)
        ≡ true
  unfolding raise_version_floor
  raise_version_floor-at_most version c ne =
      rw (raised_floor version c, filled c.store.meta.version_floor ne)
        (elim (Bool-cases (is_above (compare_versions version c.store.meta.version_floor))) [
          | inl e ↦ rw e (higher c.store.meta.version_floor version e)
          | inr e ↦ rw (e, compare_versions_refl c.store.meta.version_floor) refl
        ])
