-- ===== src/Tests/Histories.antt =====
-- The theorem on runs of the store's operations, at two paths of the small store.
use mathlib.Core.List.{Memᴰ}
use mathlib.Core.List.Memᴰ
use angou.Prelude.{◌≡◌, ◌≢◌, arith, refl, sym, false, none, List, [], ◌∷◌, All, if◌then◌else◌}
use angou.Prelude.{ok, err, Error}
use angou.Prelude.Bytes.Laws.{bytes_eq-false}
use angou.Prelude.Bytes.{Bytes, bytes}
use angou.Prelude.Bytes.{
  bytes_eq, bytes_lt, cut_prefix, has_prefix, has_suffix, trim_suffix, contains, cut, cut_last,
  split,
}
use angou.Prelude.Bytes.Space.{trim_space}
use angou.Prelude.Bytes.Utf8.{runes, runes_from, decode_rune, to_valid_from, to_valid_utf8}
use angou.Container
use angou.Container.{
  armor, binary, extension, marshal, begin_line, end_line, magic, header_format, header_encoding,
  parse_line, parse_lines, parse_header, strip_separator, read_frame, check_header, read_body,
}
use angou.Envelope
use angou.Envelope.{Envelope}
use angou.PgpCrypto
use angou.PgpCrypto.{armor_message_type}
use angou.Store.BlobId.{letter, base32, blob_id}
use angou.Store.Core.{
  store_blob_id, seal_container, open_container, write_index, blob_path, is_armor, check_blob,
  read_blob, get,
}
use angou.Store.LogicalPath.{
  normalize_path, check_path, good_segment, is_letter, drive_letter, is_drive_or_unc,
}
use angou.Store.Ops.{
  index_insert, index_delete, put_with_origin, put_envelope, commit_blob, remove_path, remove_id,
  forget_blob, put_moved, move,
}
use angou.Store.Types.{entry_from_envelope, index_name}
use angou.World.{
  write_file_atomic, create_temp, touch, write_temp, commit_temp, rename, remove, temp_prefix,
  has_dir, dir_eq, is_at, find_entry, insert_entry, remove_entry, file_at, read_file,
}
use angou.Store.History.{
  Op, write, readdress, Files, apply, run, file_ops, IsNamed, Represents, KeepsTo,
}
use angou.Store.GetPut.{calm}
use angou.Store.Refinement.{run-Represents}
use angou.Tests.Toy.{toy, toy-IsLawful}
use angou.Tests.Files.{
  cell, empty_store, notes, secret, origin, notes_id, other_id, notes_normalizes, notes_addressed,
  other_normalizes, other_addressed, notes_valid, other_valid,
}

abbrev other : Bytes
other = bytes "b/d"

abbrev both : List Bytes
both = notes ∷ other ∷ []

abbrev name_of : Bytes → Bytes
name_of p = if bytes_eq p notes then notes_id else other_id

abbrev no_files : Files
no_files p = none

-- A file is written, and moved.
abbrev ops : List Op
ops = write notes secret 384 9 (bytes "text/plain") origin armor ∷ readdress notes other ∷ []

module _ (P : Bytes → Type 0) (first : P notes) (second : P other) where
  at_both : (p : Bytes) → Memᴰ p both → P p
  at_both p (Memᴰ.head e) = rw e first
  at_both p (Memᴰ.tail (Memᴰ.head e)) = rw e second
  at_both p (Memᴰ.tail (Memᴰ.tail m)) = absurd (Memᴰ.not-nil m)

notes_named : name_of notes ≡ notes_id
unfolding bytes_eq
notes_named = refl

other_named : name_of other ≡ other_id
unfolding bytes_eq
other_named = refl

notes_other : notes_id ≢ other_id
unfolding bytes_eq
notes_other = bytes_eq-false notes_id other_id refl

names_apart :
    (p : Bytes)
    → Memᴰ p both
    → (q : Bytes) → Memᴰ q both
    → bytes_eq p q ≡ false
    → name_of p ≢ name_of q
unfolding bytes_eq
names_apart =
    at_both (λ p. (q : Bytes) → Memᴰ q both → bytes_eq p q ≡ false → name_of p ≢ name_of q)
      (at_both (λ q. bytes_eq notes q ≡ false → name_of notes ≢ name_of q)
        (λ h. absurd (ground arith)) (λ h. notes_other))
      (at_both (λ q. bytes_eq other q ≡ false → name_of other ≢ name_of q)
        (λ h e. notes_other (sym e)) (λ h. absurd (ground arith)))

both-IsNamed : IsNamed toy empty_store both
both-IsNamed = record {
  name = name_of;
  normal = at_both (λ p. normalize_path toy.nfc p ≡ ok p) notes_normalizes other_normalizes;
  valid = at_both (λ p. to_valid_utf8 p ≡ p) notes_valid other_valid;
  addressed =
      at_both (λ p. store_blob_id toy empty_store p ≡ ok (name_of p))
        (rw notes_named notes_addressed) (rw other_named other_addressed);
  apart = λ p q m k. names_apart p m q k;
}

empty_Represents : Represents toy both cell no_files
unfolding put_with_origin put_envelope commit_blob index_insert entry_from_envelope normalize_path
    check_path good_segment is_letter drive_letter is_drive_or_unc runes runes_from decode_rune
    bytes_eq bytes_lt cut_prefix has_prefix has_suffix contains cut split letter base32 blob_id
    store_blob_id seal_container write_index blob_path is_armor extension armor binary index_name
    PgpCrypto.seal armor_message_type Container.validate marshal begin_line end_line magic
    header_format header_encoding Envelope.new Envelope.hex write_file_atomic create_temp touch
    write_temp commit_temp rename remove temp_prefix has_dir dir_eq is_at find_entry insert_entry
    remove_entry file_at get read_blob check_blob open_container Container.unmarshal parse_line
    parse_lines parse_header strip_separator read_frame check_header read_body cut_last trim_space
    trim_suffix PgpCrypto.open_payload PgpCrypto.unarmor Envelope.check Envelope.unmarshal read_file
    to_valid_utf8 to_valid_from remove_path remove_id forget_blob index_delete move put_moved
empty_Represents =
    at_both (λ p. (get toy empty_store p (calm cell.world)).0 ≡ err Error.no_such_path) refl refl

ops-run : run toy ops cell ≡ (ok tt, (run toy ops cell).1)
unfolding run apply put_with_origin put_envelope commit_blob index_insert entry_from_envelope
    normalize_path check_path good_segment is_letter drive_letter is_drive_or_unc runes runes_from
    decode_rune bytes_eq bytes_lt cut_prefix has_prefix has_suffix contains cut split letter base32
    blob_id store_blob_id seal_container write_index blob_path is_armor extension armor binary
    index_name PgpCrypto.seal armor_message_type Container.validate marshal begin_line end_line
    magic header_format header_encoding Envelope.new Envelope.hex write_file_atomic create_temp
    touch write_temp commit_temp rename remove temp_prefix has_dir dir_eq is_at find_entry
    insert_entry remove_entry file_at get read_blob check_blob open_container Container.unmarshal
    parse_line parse_lines parse_header strip_separator read_frame check_header read_body cut_last
    trim_space trim_suffix PgpCrypto.open_payload PgpCrypto.unarmor Envelope.check
    Envelope.unmarshal read_file to_valid_utf8 to_valid_from remove_path remove_id forget_blob
    index_delete move put_moved
ops-run = refl

ops_keep : All (KeepsTo toy both) ops
unfolding bytes_eq
ops_keep = (Memᴰ.head refl, ((Memᴰ.head refl, Memᴰ.tail (Memᴰ.head refl), refl), tt))

run-Represents_example : Represents toy both (run toy ops cell).1 (file_ops toy ops no_files)
run-Represents_example =
    run-Represents toy toy-IsLawful both ops cell no_files both-IsNamed empty_Represents ops_keep
      ops-run
