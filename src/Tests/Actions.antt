-- ===== src/Tests/Actions.antt =====
-- The theorems on the operations of internal/core/ops.go, at a small machine.
use angou.Prelude.{ℕ, ◌++◌, ◌==◌, ◌≡◌, refl, Bool, true, false, some, List, [], ◌∷◌}
use angou.Prelude.{Result, ok, err}
use angou.Prelude.Bytes.{Bytes, bytes}
use angou.Prelude.Bytes.{
  bytes_eq, bytes_lt, cut_prefix, has_prefix, has_suffix, trim_suffix, contains, cut, cut_last,
  split,
}
use angou.Prelude.Bytes.Space.{trim_space}
use angou.Prelude.Bytes.Utf8.{runes, runes_from, decode_rune, to_valid_from, to_valid_utf8}
use angou.Container
use angou.Container.{
  armor, binary, extension, marshal, begin_line, end_line, magic, header_format, header_encoding,
  parse_line, parse_lines, parse_header, strip_separator, read_frame, check_header, read_body,
}
use angou.Envelope
use angou.Envelope.{Envelope}
use angou.PgpCrypto
use angou.PgpCrypto.{armor_message_type}
use angou.Store.Act.{Cell}
use angou.Store.Lawful.{as_json}
use angou.Store.BlobId.{letter, base32, blob_id}
use angou.Store.Core.{
  store_blob_id, seal_container, open_container, write_index, blob_path, is_armor, check_blob,
  read_blob, get,
}
use angou.Store.LogicalPath.{
  normalize_path, check_path, good_segment, is_letter, drive_letter, is_drive_or_unc,
}
use angou.Store.Ops.{
  index_insert, index_delete, put_with_origin, put_envelope, commit_blob, remove_path, remove_id,
  forget_blob, put_moved, move,
}
use angou.Store.Types.{entry_from_envelope, index_name}
use angou.World.{
  write_file_atomic, create_temp, touch, write_temp, commit_temp, rename, remove, temp_prefix,
  has_dir, dir_eq, is_at, find_entry, insert_entry, remove_entry, file_at, read_file,
}
use angou.Operations.{always_default}
use angou.Operations.Encrypt.{
  Outside, EncryptResult, default_logical_path, expand_path, mime_for, or_else, recorded_mode,
  recorded_mode_unix, trim_prefix, encrypt_source, encrypt_file, encrypt_candidates,
}
use angou.Operations.Guards.{Outcome, restore_to_origin_lem}
use angou.Operations.Restore.{Machine, regular_file, restore_to_origin}
use angou.Operations.Rounds.{Explained, encrypt_candidates-Explained}
use angou.Operations.Stored.{get-encrypt_file}
use angou.Scan.Walk.{Candidate}
use angou.Store.GetPut.{calm}
use angou.Tests.Toy.{toy, toy-IsLawful}
use angou.Tests.Files.{cell, notes, notes_valid, secret}

abbrev rooted : Bytes → Bool
rooted [] = false
rooted (b ∷ s) = b == 47

-- A machine of which the files are read whatever their names are.
abbrev machine : Outside
machine = record {
  is_abs = rooted;
  abs = λ p. some p;
  rel = λ base p. cut_prefix p (base ++ bytes "/");
  join = λ base p. base ++ (b'/' ∷ p);
  to_slash = λ p. p;
  volume_name = λ p. [];
  separator = bytes "/";
  home = some (bytes "/home/me");
  type_by_extension = λ p. [];
  read = λ p. some secret;
  stat = λ p. some (384, 9);
  windows = false;
}

abbrev encrypted : Result EncryptResult × Cell toy
encrypted = encrypt_file machine toy (bytes "/home/me/a/b") [] armor cell

abbrev reported : Result EncryptResult → EncryptResult
reported (ok r) = r
reported (err e) = record { logical_path = []; blob_id = []; derived = false; origin = [] }

encrypted_ok : encrypted ≡ (ok (reported encrypted.0), encrypted.1)
unfolding recorded_mode_unix encrypt_file encrypt_source expand_path default_logical_path mime_for
    trim_prefix put_with_origin put_envelope commit_blob index_insert entry_from_envelope
    normalize_path check_path good_segment is_letter drive_letter is_drive_or_unc runes runes_from
    decode_rune bytes_eq bytes_lt cut_prefix has_prefix has_suffix contains cut split letter base32
    blob_id store_blob_id seal_container write_index blob_path is_armor extension armor binary
    index_name PgpCrypto.seal armor_message_type Container.validate marshal begin_line end_line
    magic header_format header_encoding Envelope.new Envelope.hex write_file_atomic create_temp
    touch write_temp commit_temp rename remove temp_prefix has_dir dir_eq is_at find_entry
    insert_entry remove_entry file_at get read_blob check_blob open_container Container.unmarshal
    parse_line parse_lines parse_header strip_separator read_frame check_header read_body cut_last
    trim_space trim_suffix PgpCrypto.open_payload PgpCrypto.unarmor Envelope.check
    Envelope.unmarshal read_file to_valid_utf8 to_valid_from remove_path remove_id forget_blob
    index_delete move put_moved
encrypted_ok = refl

encrypted_as : (reported encrypted.0).logical_path ≡ notes
unfolding recorded_mode_unix encrypt_file encrypt_source expand_path default_logical_path mime_for
    trim_prefix put_with_origin put_envelope commit_blob index_insert entry_from_envelope
    normalize_path check_path good_segment is_letter drive_letter is_drive_or_unc runes runes_from
    decode_rune bytes_eq bytes_lt cut_prefix has_prefix has_suffix contains cut split letter base32
    blob_id store_blob_id seal_container write_index blob_path is_armor extension armor binary
    index_name PgpCrypto.seal armor_message_type Container.validate marshal begin_line end_line
    magic header_format header_encoding Envelope.new Envelope.hex write_file_atomic create_temp
    touch write_temp commit_temp rename remove temp_prefix has_dir dir_eq is_at find_entry
    insert_entry remove_entry file_at get read_blob check_blob open_container Container.unmarshal
    parse_line parse_lines parse_header strip_separator read_frame check_header read_body cut_last
    trim_space trim_suffix PgpCrypto.open_payload PgpCrypto.unarmor Envelope.check
    Envelope.unmarshal read_file to_valid_utf8 to_valid_from remove_path remove_id forget_blob
    index_delete move put_moved
encrypted_as = refl

encrypted_valid :
    to_valid_utf8 (reported encrypted.0).logical_path ≡ (reported encrypted.0).logical_path
encrypted_valid = rw encrypted_as notes_valid

get-encrypt_file_example :
    (content : Bytes) × (info : ℕ × ℕ) × (machine.read (expand_path machine (bytes "/home/me/a/b"))
      ≡ some content)
    × (machine.stat (expand_path machine (bytes "/home/me/a/b")) ≡ some info)
    × ((get toy encrypted.1.store (reported encrypted.0).logical_path (calm encrypted.1.world)).0
        ≡ ok (
            as_json (
              Envelope.new toy.sha256
                (reported encrypted.0).logical_path
                (mime_for machine (expand_path machine (bytes "/home/me/a/b")))
                (recorded_mode machine.windows info.0)
                info.1
                content
                (or_else (machine.abs (expand_path machine (bytes "/home/me/a/b"))) []))))
get-encrypt_file_example =
    get-encrypt_file machine toy toy-IsLawful (bytes "/home/me/a/b") [] armor cell encrypted_ok
      encrypted_valid

abbrev offers : List Candidate
offers =
    record { path = bytes ".env" ∷ []; reason = bytes "environment file"; size = 7 }
    ∷ record { path = bytes "a" ∷ bytes ".env" ∷ []; reason = bytes "environment file"; size = 7 }
    ∷ []

encrypt_candidates-Explained_example :
    Explained machine toy
      (bytes "/home/me")
      always_default
      armor
      (λ n. n == 1)
      0
      offers
      cell
      (record { stored = 0; skipped = 0 })
      (encrypt_candidates machine toy
        (bytes "/home/me")
        always_default
        armor
        (λ n. n == 1)
        offers
        cell)
encrypt_candidates-Explained_example =
    encrypt_candidates-Explained machine toy (bytes "/home/me") always_default armor (λ n. n == 1)
      offers cell

abbrev kept : Envelope
kept = Envelope.new toy.sha256 notes (bytes "text/plain") 384 9 secret (bytes "/home/me/a/b")

-- A file stands at the origin.
abbrev workstation : Machine
workstation = record {
  found = λ p. some regular_file;
  failing = false ∷ false ∷ true ∷ [];
  effects = [];
}

restore_to_origin_lem_example :
    Outcome rooted
      (λ p. bytes "/home/me/a")
      kept
      true
      always_default
      workstation
      (restore_to_origin rooted (λ p. bytes "/home/me/a") kept true always_default workstation)
restore_to_origin_lem_example =
    restore_to_origin_lem rooted (λ p. bytes "/home/me/a") kept true always_default workstation
