-- ===== src/Store/Blobs.antt =====
-- Blobs: what is sealed opens, a blob is bound to its name, and its file is no other file of the
-- store.
use angou.Prelude.{
  ℕ, ◌≡◌, refl, sym, ap, ◌∙◌, ◌≢◌, Bool, true, false, Option, none, some, List, [], ◌∷◌, ◌++◌, ◌==◌,
  length, arith, if◌then◌else◌, length-append, ◌+◌,
}
use angou.Prelude
use angou.Prelude.{Result, ok, err, ok-injective, name_binding, guard, guard-eq-ok}
use angou.Prelude.Bytes.{Bytes, bytes_eq}
use angou.Prelude.Bytes.Laws.{bytes_eq_iff}
use angou.Container
use angou.Container.{Blob, Encoding, extension}
use angou.Container.RoundTrip.{unmarshal-marshal}
use angou.Envelope
use angou.Envelope.{Envelope}
use angou.External.{External}
use angou.PgpCrypto
use angou.PgpCrypto.RoundTrip.{open_payload-seal}
use angou.Store.Core.{Store, is_armor, seal_container, open_container, store_blob_id, check_blob}
use angou.Store.Lawful.{IsLawful}
use angou.World.{World, M, continue}

-- An action's parts, where it returned no error.
pub world-eq-ok :
    {A B : Type 0} (p : Result A × World) (f : A → M B) {b : B} {w' : World}
    → continue p f ≡ (ok b, w')
    → (a : A) × (w1 : World) × (p ≡ (ok a, w1)) × (f a w1 ≡ (ok b, w'))
world-eq-ok (ok a, w1) f h = (a, w1, refl, h)
world-eq-ok (err e, w1) f h = cc

marshal-validate :
    (b : Blob) {raw : Bytes} → Container.marshal b ≡ ok raw → Container.validate b.encoding ≡ ok tt
unfolding Container.marshal
marshal-validate b h =
    let (u, valid, rest) = Prelude.>>=-eq-ok (Container.validate b.encoding) _ h in valid

open_marshal :
    (b : Blob) {raw : Bytes} → Container.marshal b ≡ ok raw → Container.unmarshal raw ≡ ok b
open_marshal b {raw} h = let again = unmarshal-marshal b (marshal-validate b h) in rw h at again

module _ (x : External) where
  -- A blob that is read without error has the name that its envelope's path addresses.
  pub check_blob-binding :
      (s : Store x) (id raw : Bytes) {env : Envelope}
      → check_blob x s id raw ≡ ok env
      → store_blob_id x s env.path ≡ ok id
  unfolding check_blob
  check_blob-binding s id raw {env} h =
      let (plain, opened, h1) = Prelude.>>=-eq-ok (open_container x s.identity raw) _ h in
      let (e, parsed, h2) =
        Prelude.>>=-eq-ok (Envelope.unmarshal x.sha256 x.decode_envelope plain) _ h1 in
      let (want, named, h3) = Prelude.>>=-eq-ok (store_blob_id x s e.path) _ h2 in
      let (u, same, h4) = Prelude.>>=-eq-ok (guard (bytes_eq want id) _) _ h3 in
      let same' : want ≡ id = (bytes_eq_iff want id).0 (guard-eq-ok _ name_binding same) in
      rw (← ok-injective h4) (named ∙ ap ok same')

  pub seal_container_lem :
      IsLawful x
      → (identity : x.Entity) (plain : Bytes) (enc : Encoding) (w : World) {blob : Bytes}
        {w' : World}
      → seal_container x identity plain enc w ≡ (ok blob, w')
      → (w'.disk ≡ w.disk) × (open_container x identity blob ≡ ok plain)
  unfolding seal_container open_container
  seal_container_lem l identity plain enc w {blob} {w'} h =
      let (payload, w1, sealed, h1) =
        world-eq-ok
          (
            PgpCrypto.seal x identity plain (is_armor x enc) w.draws,
            record w { draws = w.draws + 1 },
          )
          _ h in
      let read =
        open_marshal (record { encoding = enc; payload = payload })
          (ap (λ (p : Result Bytes × World). p.0) h1) in
      (
        sym (ap (λ (p : Result Bytes × World). p.1.disk) h1)
            ∙ sym (ap (λ (p : Result Bytes × World). p.1.disk) sealed),
        rw read (
            open_payload-seal x l.openpgp identity plain (is_armor x enc) w.draws
              (ap (λ (p : Result Bytes × World). p.0) sealed)),
      )
