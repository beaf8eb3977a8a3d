-- ===== src/Tests/Runs.antt =====
-- The theorems on the store, at the small store and its files.
use angou.Prelude.{◌≡◌, ◌≢◌, arith}
use angou.Prelude.{ok, err, no_such_path}
use angou.Prelude.Bytes.{bytes}
use angou.Container.{armor}
use angou.Envelope
use angou.Envelope.{Envelope}
use angou.Store.Blobs.{check_blob-binding}
use angou.Store.Core.{get, store_blob_id}
use angou.Store.GetPut.{calm, get-put_with_origin, Succeeds, get-put_invalid}
use angou.Store.Lawful.{as_json}
use angou.Store.Moves.{move_lem, move_onto_itself}
use angou.Store.Ops.{move, put_with_origin}
use angou.Tests.Toy.{toy, toy-IsLawful}
use angou.Tests.Files.{
  cell, empty_store, notes, secret, origin, with_notes, notes_id, other_id, stored,
  notes_normalizes, other_normalizes, moved, stray, after_stray, stray_id, stray_envelope,
  stray_blob, stray_sealing, stray_writing, stray_indexing, stray_addressed, stray_sealed,
  stray_written, stray_indexed, stray_normalizes, stray_renamed, moved_onto, notes_valid,
  other_valid, notes_blob, notes_checked, notes_addressed_later, other_addressed_later,
}

get-put_with_origin_example :
    (get toy with_notes.1.store notes (calm with_notes.1.world)).0
    ≡ ok (as_json (Envelope.new toy.sha256 notes (bytes "text/plain") 384 9 secret origin))
get-put_with_origin_example =
    get-put_with_origin toy toy-IsLawful cell notes secret 384 9 (bytes "text/plain") origin armor
      stored notes notes_normalizes notes_valid

stray_succeeds :
    Succeeds toy toy-IsLawful cell stray secret 384 9
      (bytes "text/plain")
      origin
      armor
      stray
      stray_id
      stray_blob
      stray_sealing.1
      stray_writing.1
      stray_indexing.1
stray_succeeds = record {
  normal = stray_normalizes;
  addressed = stray_addressed;
  sealed = stray_sealed;
  written = stray_written;
  indexed = stray_indexed;
}

get-put_invalid_example :
    (put_with_origin toy stray secret 384 9 (bytes "text/plain") origin armor cell
      ≡ (ok stray_id, after_stray))
    × ((get toy after_stray.store stray (calm after_stray.world)).0 ≢ ok stray_envelope)
get-put_invalid_example =
    get-put_invalid toy toy-IsLawful cell stray secret 384 9 (bytes "text/plain") origin armor stray
      stray_id stray_blob stray_sealing.1 stray_writing.1 stray_indexing.1 stray_envelope
      stray_succeeds stray_renamed

check_blob-binding_example :
    store_blob_id toy empty_store
      (as_json (Envelope.new toy.sha256 notes (bytes "text/plain") 384 9 secret origin)).path
    ≡ ok notes_id
check_blob-binding_example = check_blob-binding toy empty_store notes_id notes_blob notes_checked

move_lem_example :
    (env : Envelope) × ((get toy with_notes.1.store notes with_notes.1.world).0 ≡ ok env)
    × ((get toy
          (move toy notes (bytes "b/d") with_notes.1).1.store
          (bytes "b/d")
          (calm (move toy notes (bytes "b/d") with_notes.1).1.world)).0
        ≡ ok (
            as_json (
              Envelope.new toy.sha256
                (bytes "b/d")
                env.mime
                env.mode
                env.mtime
                env.content
                env.origin)))
    × ((get toy
          (move toy notes (bytes "b/d") with_notes.1).1.store
          notes
          (calm (move toy notes (bytes "b/d") with_notes.1).1.world)).0
        ≡ err no_such_path)
move_lem_example =
    move_lem toy toy-IsLawful with_notes.1 notes (bytes "b/d") notes (bytes "b/d") notes_id other_id
      moved notes_normalizes notes_addressed_later other_normalizes other_addressed_later
      (λ h. absurd (ground arith)) other_valid

move_onto_itself_example :
    (env : Envelope) × ((get toy with_notes.1.store notes with_notes.1.world).0 ≡ ok env)
    × ((get toy
          (move toy notes notes with_notes.1).1.store
          notes
          (calm (move toy notes notes with_notes.1).1.world)).0
        ≡ err no_such_path)
    × ((get toy
          (move toy notes notes with_notes.1).1.store
          notes
          (calm (move toy notes notes with_notes.1).1.world)).0
        ≡ err no_such_path)
move_onto_itself_example =
    move_onto_itself toy toy-IsLawful with_notes.1 notes notes notes notes_id moved_onto
      notes_normalizes notes_normalizes notes_addressed_later
