-- ===== src/Tests/Files.antt =====
-- A small store and its files.
use angou.Prelude.{◌≡◌, ◌≢◌, arith, refl, true, false, Option, some, [], ◌∷◌}
use angou.Prelude.{Result, ok, err}
use angou.Prelude.Bytes.{Bytes, bytes}
use angou.Prelude.Bytes.{
  bytes_eq, bytes_lt, cut_prefix, has_prefix, has_suffix, trim_suffix, contains, cut, cut_last,
  split,
}
use angou.Prelude.Bytes.Space.{trim_space}
use angou.Prelude.Bytes.Utf8.{runes, runes_from, decode_rune, to_valid_from, to_valid_utf8}
use angou.Container
use angou.Container.{
  armor, binary, extension, marshal, begin_line, end_line, magic, header_format, header_encoding,
  parse_line, parse_lines, parse_header, strip_separator, read_frame, check_header, read_body,
}
use angou.Envelope
use angou.Envelope.{Envelope}
use angou.PgpCrypto
use angou.PgpCrypto.{armor_message_type}
use angou.Store.Act.{Cell}
use angou.Store.Lawful.{as_json}
use angou.Store.BlobId.{letter, base32, blob_id}
use angou.Store.Core.{
  Store, store_blob_id, seal_container, open_container, write_index, blob_path, is_armor,
  check_blob, read_blob, get,
}
use angou.Store.LogicalPath.{
  normalize_path, check_path, good_segment, is_letter, drive_letter, is_drive_or_unc,
}
use angou.Store.Ops.{
  index_insert, index_delete, put_with_origin, put_envelope, commit_blob, remove_path, remove_id,
  forget_blob, put_moved, move,
}
use angou.Store.Types.{entry_from_envelope, index_name}
use angou.World.{
  World, Node, file, store_root, write_file_atomic, create_temp, touch, write_temp, commit_temp,
  rename, remove, temp_prefix, has_dir, dir_eq, is_at, find_entry, insert_entry, remove_entry,
  file_at, read_file,
}
use angou.Tests.Toy.{toy, zeros}

abbrev pub empty_store : Store toy
empty_store = record {
  root = store_root;
  identity = 5;
  meta = record {
    name_key = zeros 32;
    bootstrap_sha256 = [];
    bootstrap_ps1_sha256 = [];
    version_floor = [];
  };
  index = [];
  index_trusted = true;
  skipped_on_reindex = [];
  unreadable_on_reindex = [];
}

abbrev pub quiet : World
quiet = record {
  disk = record { has_root = true; has_bootstrap = false; has_staging = false; entries = [] };
  schedule = [];
  draws = 0;
}

abbrev pub cell : Cell toy
cell = record { store = empty_store; world = quiet }

abbrev pub notes : Bytes
notes = bytes "a/b"

abbrev pub secret : Bytes
secret = bytes "hunter2"

abbrev pub origin : Bytes
origin = bytes "~/b"

abbrev pub with_notes : Result Bytes × Cell toy
with_notes = put_with_origin toy notes secret 384 9 (bytes "text/plain") origin armor cell

abbrev contents : Option Node → Bytes
contents (some (file b)) = b
contents _ = []

abbrev pub notes_id : Bytes
notes_id = bytes "mexweaaaaaaaaaaaaaaaaaaaaa"

abbrev pub other_id : Bytes
other_id = bytes "mixwiaaaaaaaaaaaaaaaaaaaaa"

pub stored : with_notes ≡ (ok notes_id, with_notes.1)
unfolding put_with_origin put_envelope commit_blob index_insert entry_from_envelope normalize_path
    check_path good_segment is_letter drive_letter is_drive_or_unc runes runes_from decode_rune
    bytes_eq bytes_lt cut_prefix has_prefix has_suffix contains cut split letter base32 blob_id
    store_blob_id seal_container write_index blob_path is_armor extension armor binary index_name
    PgpCrypto.seal armor_message_type Container.validate marshal begin_line end_line magic
    header_format header_encoding Envelope.new Envelope.hex write_file_atomic create_temp touch
    write_temp commit_temp rename remove temp_prefix has_dir dir_eq is_at find_entry insert_entry
    remove_entry file_at
stored = refl

pub notes_normalizes : normalize_path toy.nfc notes ≡ ok notes
unfolding put_with_origin put_envelope commit_blob index_insert entry_from_envelope normalize_path
    check_path good_segment is_letter drive_letter is_drive_or_unc runes runes_from decode_rune
    bytes_eq bytes_lt cut_prefix has_prefix has_suffix contains cut split letter base32 blob_id
    store_blob_id seal_container write_index blob_path is_armor extension armor binary index_name
    PgpCrypto.seal armor_message_type Container.validate marshal begin_line end_line magic
    header_format header_encoding Envelope.new Envelope.hex write_file_atomic create_temp touch
    write_temp commit_temp rename remove temp_prefix has_dir dir_eq is_at find_entry insert_entry
    remove_entry file_at
notes_normalizes = refl

pub notes_addressed : store_blob_id toy empty_store notes ≡ ok notes_id
unfolding put_with_origin put_envelope commit_blob index_insert entry_from_envelope normalize_path
    check_path good_segment is_letter drive_letter is_drive_or_unc runes runes_from decode_rune
    bytes_eq bytes_lt cut_prefix has_prefix has_suffix contains cut split letter base32 blob_id
    store_blob_id seal_container write_index blob_path is_armor extension armor binary index_name
    PgpCrypto.seal armor_message_type Container.validate marshal begin_line end_line magic
    header_format header_encoding Envelope.new Envelope.hex write_file_atomic create_temp touch
    write_temp commit_temp rename remove temp_prefix has_dir dir_eq is_at find_entry insert_entry
    remove_entry file_at
notes_addressed = refl

pub other_normalizes : normalize_path toy.nfc (bytes "b/d") ≡ ok (bytes "b/d")
unfolding put_with_origin put_envelope commit_blob index_insert entry_from_envelope normalize_path
    check_path good_segment is_letter drive_letter is_drive_or_unc runes runes_from decode_rune
    bytes_eq bytes_lt cut_prefix has_prefix has_suffix contains cut split letter base32 blob_id
    store_blob_id seal_container write_index blob_path is_armor extension armor binary index_name
    PgpCrypto.seal armor_message_type Container.validate marshal begin_line end_line magic
    header_format header_encoding Envelope.new Envelope.hex write_file_atomic create_temp touch
    write_temp commit_temp rename remove temp_prefix has_dir dir_eq is_at find_entry insert_entry
    remove_entry file_at
other_normalizes = refl

pub other_addressed : store_blob_id toy empty_store (bytes "b/d") ≡ ok other_id
unfolding put_with_origin put_envelope commit_blob index_insert entry_from_envelope normalize_path
    check_path good_segment is_letter drive_letter is_drive_or_unc runes runes_from decode_rune
    bytes_eq bytes_lt cut_prefix has_prefix has_suffix contains cut split letter base32 blob_id
    store_blob_id seal_container write_index blob_path is_armor extension armor binary index_name
    PgpCrypto.seal armor_message_type Container.validate marshal begin_line end_line magic
    header_format header_encoding Envelope.new Envelope.hex write_file_atomic create_temp touch
    write_temp commit_temp rename remove temp_prefix has_dir dir_eq is_at find_entry insert_entry
    remove_entry file_at
other_addressed = refl

pub removed : remove_path toy notes with_notes.1 ≡ (ok tt, (remove_path toy notes with_notes.1).1)
unfolding put_with_origin put_envelope commit_blob index_insert entry_from_envelope normalize_path
    check_path good_segment is_letter drive_letter is_drive_or_unc runes runes_from decode_rune
    bytes_eq bytes_lt cut_prefix has_prefix has_suffix contains cut split letter base32 blob_id
    store_blob_id seal_container write_index blob_path is_armor extension armor binary index_name
    PgpCrypto.seal armor_message_type Container.validate marshal begin_line end_line magic
    header_format header_encoding Envelope.new Envelope.hex write_file_atomic create_temp touch
    write_temp commit_temp rename remove temp_prefix has_dir dir_eq is_at find_entry insert_entry
    remove_entry file_at remove_path remove_id forget_blob index_delete
removed = refl

pub moved :
    move toy notes (bytes "b/d") with_notes.1
    ≡ (ok tt, (move toy notes (bytes "b/d") with_notes.1).1)
unfolding put_with_origin put_envelope commit_blob index_insert entry_from_envelope normalize_path
    check_path good_segment is_letter drive_letter is_drive_or_unc runes runes_from decode_rune
    bytes_eq bytes_lt cut_prefix has_prefix has_suffix contains cut split letter base32 blob_id
    store_blob_id seal_container write_index blob_path is_armor extension armor binary index_name
    PgpCrypto.seal armor_message_type Container.validate marshal begin_line end_line magic
    header_format header_encoding Envelope.new Envelope.hex write_file_atomic create_temp touch
    write_temp commit_temp rename remove temp_prefix has_dir dir_eq is_at find_entry insert_entry
    remove_entry file_at get read_blob check_blob open_container Container.unmarshal parse_line
    parse_lines parse_header strip_separator read_frame check_header read_body cut_last trim_space
    trim_suffix PgpCrypto.open_payload PgpCrypto.unarmor Envelope.check Envelope.unmarshal read_file
    to_valid_utf8 to_valid_from remove_path remove_id forget_blob index_delete move put_moved
moved = refl

-- A path of one byte that is no UTF-8.
abbrev pub stray : Bytes
stray = 128 ∷ []

abbrev pub stray_id : Bytes
stray_id = bytes "qaaaaaaaaaaaaaaaaaaaaaaaaa"

abbrev pub stray_envelope : Envelope
stray_envelope = Envelope.new toy.sha256 stray (bytes "text/plain") 384 9 secret origin

abbrev bytes_of : Result Bytes → Bytes
bytes_of (ok s) = s
bytes_of (err e) = []

abbrev pub stray_sealing : Result Bytes × World
stray_sealing =
    seal_container toy empty_store.identity (toy.encode_envelope stray_envelope) armor quiet

abbrev pub stray_blob : Bytes
stray_blob = bytes_of stray_sealing.0

abbrev stray_store : Store toy
stray_store = record empty_store {
  index = index_insert stray_id (entry_from_envelope stray_envelope) empty_store.index;
}

abbrev pub stray_writing : Result (Unit {0}) × World
stray_writing =
    write_file_atomic toy.temp_digits empty_store.root (blob_path toy stray_id) stray_blob
      stray_sealing.1

abbrev pub stray_indexing : Result (Unit {0}) × World
stray_indexing = write_index toy stray_store stray_writing.1

-- What the Put of the stray path leaves.
abbrev pub after_stray : Cell toy
after_stray = record { store = stray_store; world = stray_indexing.1 }

pub stray_addressed : store_blob_id toy empty_store stray ≡ ok stray_id
unfolding put_with_origin put_envelope commit_blob index_insert entry_from_envelope normalize_path
    check_path good_segment is_letter drive_letter is_drive_or_unc runes runes_from decode_rune
    bytes_eq bytes_lt cut_prefix has_prefix has_suffix contains cut split letter base32 blob_id
    store_blob_id seal_container write_index blob_path is_armor extension armor binary index_name
    PgpCrypto.seal armor_message_type Container.validate marshal begin_line end_line magic
    header_format header_encoding Envelope.new Envelope.hex write_file_atomic create_temp touch
    write_temp commit_temp rename remove temp_prefix has_dir dir_eq is_at find_entry insert_entry
    remove_entry file_at
stray_addressed = refl

pub stray_sealed : stray_sealing ≡ (ok stray_blob, stray_sealing.1)
unfolding put_with_origin put_envelope commit_blob index_insert entry_from_envelope normalize_path
    check_path good_segment is_letter drive_letter is_drive_or_unc runes runes_from decode_rune
    bytes_eq bytes_lt cut_prefix has_prefix has_suffix contains cut split letter base32 blob_id
    store_blob_id seal_container write_index blob_path is_armor extension armor binary index_name
    PgpCrypto.seal armor_message_type Container.validate marshal begin_line end_line magic
    header_format header_encoding Envelope.new Envelope.hex write_file_atomic create_temp touch
    write_temp commit_temp rename remove temp_prefix has_dir dir_eq is_at find_entry insert_entry
    remove_entry file_at
stray_sealed = refl

pub stray_written : stray_writing ≡ (ok tt, stray_writing.1)
unfolding put_with_origin put_envelope commit_blob index_insert entry_from_envelope normalize_path
    check_path good_segment is_letter drive_letter is_drive_or_unc runes runes_from decode_rune
    bytes_eq bytes_lt cut_prefix has_prefix has_suffix contains cut split letter base32 blob_id
    store_blob_id seal_container write_index blob_path is_armor extension armor binary index_name
    PgpCrypto.seal armor_message_type Container.validate marshal begin_line end_line magic
    header_format header_encoding Envelope.new Envelope.hex write_file_atomic create_temp touch
    write_temp commit_temp rename remove temp_prefix has_dir dir_eq is_at find_entry insert_entry
    remove_entry file_at
stray_written = refl

pub stray_indexed : stray_indexing ≡ (ok tt, stray_indexing.1)
unfolding put_with_origin put_envelope commit_blob index_insert entry_from_envelope normalize_path
    check_path good_segment is_letter drive_letter is_drive_or_unc runes runes_from decode_rune
    bytes_eq bytes_lt cut_prefix has_prefix has_suffix contains cut split letter base32 blob_id
    store_blob_id seal_container write_index blob_path is_armor extension armor binary index_name
    PgpCrypto.seal armor_message_type Container.validate marshal begin_line end_line magic
    header_format header_encoding Envelope.new Envelope.hex write_file_atomic create_temp touch
    write_temp commit_temp rename remove temp_prefix has_dir dir_eq is_at find_entry insert_entry
    remove_entry file_at
stray_indexed = refl

pub stray_normalizes : normalize_path toy.nfc stray ≡ ok stray
unfolding put_with_origin put_envelope commit_blob index_insert entry_from_envelope normalize_path
    check_path good_segment is_letter drive_letter is_drive_or_unc runes runes_from decode_rune
    bytes_eq bytes_lt cut_prefix has_prefix has_suffix contains cut split letter base32 blob_id
    store_blob_id seal_container write_index blob_path is_armor extension armor binary index_name
    PgpCrypto.seal armor_message_type Container.validate marshal begin_line end_line magic
    header_format header_encoding Envelope.new Envelope.hex write_file_atomic create_temp touch
    write_temp commit_temp rename remove temp_prefix has_dir dir_eq is_at find_entry insert_entry
    remove_entry file_at
stray_normalizes = refl

-- encoding/json puts U+FFFD in the byte's place, and that addresses another blob.
pub stray_renamed :
    store_blob_id toy empty_store (to_valid_utf8 stray) ≢ store_blob_id toy empty_store stray
unfolding put_with_origin put_envelope commit_blob index_insert entry_from_envelope normalize_path
    check_path good_segment is_letter drive_letter is_drive_or_unc runes runes_from decode_rune
    bytes_eq bytes_lt cut_prefix has_prefix has_suffix contains cut split letter base32 blob_id
    store_blob_id seal_container write_index blob_path is_armor extension armor binary index_name
    PgpCrypto.seal armor_message_type Container.validate marshal begin_line end_line magic
    header_format header_encoding Envelope.new Envelope.hex write_file_atomic create_temp touch
    write_temp commit_temp rename remove temp_prefix has_dir dir_eq is_at find_entry insert_entry
    remove_entry file_at get read_blob check_blob open_container Container.unmarshal parse_line
    parse_lines parse_header strip_separator read_frame check_header read_body cut_last trim_space
    trim_suffix PgpCrypto.open_payload PgpCrypto.unarmor Envelope.check Envelope.unmarshal read_file
    to_valid_utf8 to_valid_from remove_path remove_id forget_blob index_delete move put_moved
stray_renamed = λ h. absurd (ground arith)

pub moved_onto : move toy notes notes with_notes.1 ≡ (ok tt, (move toy notes notes with_notes.1).1)
unfolding put_with_origin put_envelope commit_blob index_insert entry_from_envelope normalize_path
    check_path good_segment is_letter drive_letter is_drive_or_unc runes runes_from decode_rune
    bytes_eq bytes_lt cut_prefix has_prefix has_suffix contains cut split letter base32 blob_id
    store_blob_id seal_container write_index blob_path is_armor extension armor binary index_name
    PgpCrypto.seal armor_message_type Container.validate marshal begin_line end_line magic
    header_format header_encoding Envelope.new Envelope.hex write_file_atomic create_temp touch
    write_temp commit_temp rename remove temp_prefix has_dir dir_eq is_at find_entry insert_entry
    remove_entry file_at get read_blob check_blob open_container Container.unmarshal parse_line
    parse_lines parse_header strip_separator read_frame check_header read_body cut_last trim_space
    trim_suffix PgpCrypto.open_payload PgpCrypto.unarmor Envelope.check Envelope.unmarshal read_file
    to_valid_utf8 to_valid_from remove_path remove_id forget_blob index_delete move put_moved
moved_onto = refl

pub notes_valid : to_valid_utf8 notes ≡ notes
unfolding put_with_origin put_envelope commit_blob index_insert entry_from_envelope normalize_path
    check_path good_segment is_letter drive_letter is_drive_or_unc runes runes_from decode_rune
    bytes_eq bytes_lt cut_prefix has_prefix has_suffix contains cut split letter base32 blob_id
    store_blob_id seal_container write_index blob_path is_armor extension armor binary index_name
    PgpCrypto.seal armor_message_type Container.validate marshal begin_line end_line magic
    header_format header_encoding Envelope.new Envelope.hex write_file_atomic create_temp touch
    write_temp commit_temp rename remove temp_prefix has_dir dir_eq is_at find_entry insert_entry
    remove_entry file_at get read_blob check_blob open_container Container.unmarshal parse_line
    parse_lines parse_header strip_separator read_frame check_header read_body cut_last trim_space
    trim_suffix PgpCrypto.open_payload PgpCrypto.unarmor Envelope.check Envelope.unmarshal read_file
    to_valid_utf8 to_valid_from remove_path remove_id forget_blob index_delete move put_moved
notes_valid = refl

pub other_valid : to_valid_utf8 (bytes "b/d") ≡ bytes "b/d"
unfolding put_with_origin put_envelope commit_blob index_insert entry_from_envelope normalize_path
    check_path good_segment is_letter drive_letter is_drive_or_unc runes runes_from decode_rune
    bytes_eq bytes_lt cut_prefix has_prefix has_suffix contains cut split letter base32 blob_id
    store_blob_id seal_container write_index blob_path is_armor extension armor binary index_name
    PgpCrypto.seal armor_message_type Container.validate marshal begin_line end_line magic
    header_format header_encoding Envelope.new Envelope.hex write_file_atomic create_temp touch
    write_temp commit_temp rename remove temp_prefix has_dir dir_eq is_at find_entry insert_entry
    remove_entry file_at get read_blob check_blob open_container Container.unmarshal parse_line
    parse_lines parse_header strip_separator read_frame check_header read_body cut_last trim_space
    trim_suffix PgpCrypto.open_payload PgpCrypto.unarmor Envelope.check Envelope.unmarshal read_file
    to_valid_utf8 to_valid_from remove_path remove_id forget_blob index_delete move put_moved
other_valid = refl

-- The bytes of the blob's file.
abbrev pub notes_blob : Bytes
notes_blob = contents (file_at with_notes.1.world.disk store_root (blob_path toy notes_id))

pub notes_checked :
    check_blob toy empty_store notes_id notes_blob
    ≡ ok (as_json (Envelope.new toy.sha256 notes (bytes "text/plain") 384 9 secret origin))
unfolding put_with_origin put_envelope commit_blob index_insert entry_from_envelope normalize_path
    check_path good_segment is_letter drive_letter is_drive_or_unc runes runes_from decode_rune
    bytes_eq bytes_lt cut_prefix has_prefix has_suffix contains cut split letter base32 blob_id
    store_blob_id seal_container write_index blob_path is_armor extension armor binary index_name
    PgpCrypto.seal armor_message_type Container.validate marshal begin_line end_line magic
    header_format header_encoding Envelope.new Envelope.hex write_file_atomic create_temp touch
    write_temp commit_temp rename remove temp_prefix has_dir dir_eq is_at find_entry insert_entry
    remove_entry file_at get read_blob check_blob open_container Container.unmarshal parse_line
    parse_lines parse_header strip_separator read_frame check_header read_body cut_last trim_space
    trim_suffix PgpCrypto.open_payload PgpCrypto.unarmor Envelope.check Envelope.unmarshal read_file
    to_valid_utf8 to_valid_from remove_path remove_id forget_blob index_delete move put_moved
notes_checked = refl

-- The same, in the store that the Put has left.
pub notes_addressed_later : store_blob_id toy with_notes.1.store notes ≡ ok notes_id
unfolding put_with_origin put_envelope commit_blob index_insert entry_from_envelope normalize_path
    check_path good_segment is_letter drive_letter is_drive_or_unc runes runes_from decode_rune
    bytes_eq bytes_lt cut_prefix has_prefix has_suffix contains cut split letter base32 blob_id
    store_blob_id seal_container write_index blob_path is_armor extension armor binary index_name
    PgpCrypto.seal armor_message_type Container.validate marshal begin_line end_line magic
    header_format header_encoding Envelope.new Envelope.hex write_file_atomic create_temp touch
    write_temp commit_temp rename remove temp_prefix has_dir dir_eq is_at find_entry insert_entry
    remove_entry file_at
notes_addressed_later = refl

pub other_addressed_later : store_blob_id toy with_notes.1.store (bytes "b/d") ≡ ok other_id
unfolding put_with_origin put_envelope commit_blob index_insert entry_from_envelope normalize_path
    check_path good_segment is_letter drive_letter is_drive_or_unc runes runes_from decode_rune
    bytes_eq bytes_lt cut_prefix has_prefix has_suffix contains cut split letter base32 blob_id
    store_blob_id seal_container write_index blob_path is_armor extension armor binary index_name
    PgpCrypto.seal armor_message_type Container.validate marshal begin_line end_line magic
    header_format header_encoding Envelope.new Envelope.hex write_file_atomic create_temp touch
    write_temp commit_temp rename remove temp_prefix has_dir dir_eq is_at find_entry insert_entry
    remove_entry file_at
other_addressed_later = refl
