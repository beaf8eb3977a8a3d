-- ===== src/Tests/Interruptions.antt =====
-- A second interruption of a rotation, at the small store.
use angou.Prelude.{◌≡◌, refl, true, false, arith, some, [], ◌∷◌}
use angou.Prelude.Bytes.{Bytes}
use angou.Prelude.Bytes.{
  bytes_eq, bytes_lt, cut_prefix, has_prefix, has_suffix, trim_suffix, contains, cut, cut_last,
  split,
}
use angou.Prelude.Bytes.Space.{trim_space}
use angou.Container
use angou.Container.{
  armor, binary, extension, marshal, begin_line, end_line, magic, header_format, header_encoding,
  parse_line, parse_lines, parse_header, strip_separator, read_frame, check_header, read_body,
}
use angou.KeyBundle
use angou.PgpCrypto
use angou.PgpCrypto.{armor_message_type, parse_private}
use angou.Store.Core.{seal_container, open_container, write_index, write_meta, blob_path, is_armor}
use angou.Store.Bundles.{init, init_empty, new_bundle, exists, open_bytes, identity_opens}
use angou.Store.Twice.{OnlySuperseded, killed_third, swap-not-IsOpenable}
use angou.Store.Rekey.{superseded_name, retain_bundle, swap}
use angou.Store.Rotation.{bundle_fits, IsOpenable}
use angou.Store.Types.{meta_name, index_name, key_bundle_name, key_bundle_prefix}
use angou.World.{
  Disk, file, store_root, bootstrap_dir, staging_dir, write_file_atomic, create_temp, touch,
  write_temp, commit_temp, rename, remove, ◌>>◌, temp_prefix, has_dir, dir_eq, is_at, find_entry,
  insert_entry, remove_entry, file_at, read_file, mkdir_all, stat,
}
use angou.Tests.Toy.{toy}
use angou.Tests.Rotations.{passphrase, old_bundle, old_meta, new_bundle_raw}

-- What an interrupted rotation leaves: the new bundle is current, and the old one has its other name.
abbrev half_rotated : Bytes → Bytes → Bytes → Bytes → Disk
half_rotated name current other meta = record {
  has_root = true;
  has_bootstrap = true;
  has_staging = true;
  entries =
      record { dir = bootstrap_dir; name = name; node = file other }
      ∷ record { dir = bootstrap_dir; name = key_bundle_name; node = file current }
      ∷ record { dir = store_root; name = meta_name; node = file meta }
      ∷ [];
}

half_rotated_only :
    (sup current other meta name raw : Bytes)
    → bytes_eq sup name ≡ false
    → file_at (half_rotated sup current other meta) bootstrap_dir name ≡ some (file raw)
    → raw ≡ current
unfolding file_at find_entry is_at dir_eq
half_rotated_only sup current other meta name raw apart at = ground arith

half_rotated_current :
    (fp current other meta : Bytes)
    → file_at (half_rotated (superseded_name fp) current other meta) bootstrap_dir key_bundle_name
      ≡ some (file current)
unfolding file_at find_entry is_at dir_eq bytes_eq key_bundle_name superseded_name key_bundle_prefix
half_rotated_current fp current other meta = refl

half_rotated_meta :
    (fp current other meta : Bytes)
    → file_at (half_rotated (superseded_name fp) current other meta) store_root meta_name
      ≡ some (file meta)
unfolding file_at find_entry is_at dir_eq bytes_eq meta_name extension
half_rotated_meta fp current other meta = refl

new_shut : bundle_fits toy passphrase new_bundle_raw old_meta ≡ false
unfolding write_index seal_container blob_path is_armor extension armor binary index_name
    PgpCrypto.seal armor_message_type Container.validate marshal begin_line end_line magic
    header_format header_encoding write_file_atomic create_temp touch write_temp commit_temp rename
    remove temp_prefix has_dir dir_eq is_at find_entry insert_entry remove_entry file_at
    open_container Container.unmarshal parse_line parse_lines parse_header strip_separator
    read_frame check_header read_body cut_last trim_space trim_suffix PgpCrypto.open_payload
    PgpCrypto.unarmor read_file init init_empty new_bundle exists open_bytes identity_opens
    mkdir_all stat write_meta meta_name key_bundle_name key_bundle_prefix parse_private
    KeyBundle.seal KeyBundle.open_bundle KeyBundle.validate KeyBundle.open_aead KeyBundle.seal_aead
    KeyBundle.derive KeyBundle.check_memory KeyBundle.check_memory_against KeyBundle.default_params
    KeyBundle.algorithm_argon2id bytes_eq bytes_lt cut_prefix has_prefix has_suffix contains cut
    split
new_shut = refl

half_rotated-OnlySuperseded :
    OnlySuperseded toy passphrase
      (0 ∷ [])
      new_bundle_raw
      old_meta
      (half_rotated (superseded_name (0 ∷ [])) new_bundle_raw old_bundle old_meta)
half_rotated-OnlySuperseded name raw apart at =
    rw
      (half_rotated_only (superseded_name (0 ∷ [])) new_bundle_raw old_bundle old_meta name raw
        apart at)
      new_shut

swap-not-IsOpenable_example :
    ¬ IsOpenable toy passphrase
      ((retain_bundle (superseded_name (0 ∷ []))
          >> swap toy.temp_digits staging_dir store_root old_bundle)
        (killed_third
          (half_rotated (superseded_name (0 ∷ [])) new_bundle_raw old_bundle old_meta)
          20)).1.disk
swap-not-IsOpenable_example =
    swap-not-IsOpenable toy passphrase toy.temp_digits (0 ∷ []) new_bundle_raw old_meta old_bundle
      (half_rotated (superseded_name (0 ∷ [])) new_bundle_raw old_bundle old_meta) 20 refl
      (half_rotated_current (0 ∷ []) new_bundle_raw old_bundle old_meta)
      (half_rotated_meta (0 ∷ []) new_bundle_raw old_bundle old_meta) new_shut
      half_rotated-OnlySuperseded
