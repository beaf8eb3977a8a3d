-- ===== src/Tests/Passes.antt =====
-- The theorems on Reindex, PruneOrphans, the bundles and the version floor, at the small store.
use angou.Prelude.{
  ℕ, ◌≡◌, refl, ap, ◌∙◌, List, Bool, false, if◌then◌else◌, true, none, [], ◌∷◌, All, arith,
}
use angou.Prelude.{Result, ok, err, not_exist}
use angou.Prelude.Bytes.{bytes}
use angou.Prelude.Bytes.{
  bytes_eq, bytes_lt, cut_prefix, has_prefix, has_suffix, trim_suffix, contains, cut, cut_last,
  split,
}
use angou.Prelude.Bytes.Space.{trim_space}
use angou.Prelude.Bytes.Utf8.{runes, runes_from, decode_rune, to_valid_utf8}
use angou.Container
use angou.Container.{
  armor, binary, extension, marshal, begin_line, end_line, magic, header_format, header_encoding,
  parse_line, parse_lines, parse_header, strip_separator, read_frame, check_header, read_body,
}
use angou.Envelope
use angou.Envelope.{Envelope}
use angou.PgpCrypto
use angou.PgpCrypto.{armor_message_type}
use angou.Store.Act.{Cell}
use angou.Store.BlobId.{letter, base32, blob_id}
use angou.Store.Core.{
  store_blob_id, seal_container, open_container, write_index, blob_path, is_armor, check_blob,
  read_blob, get,
}
use angou.Store.LogicalPath.{
  normalize_path, check_path, good_segment, is_letter, drive_letter, is_drive_or_unc,
}
use angou.Store.Ops.{index_insert, put_with_origin, put_envelope, commit_blob}
use angou.Store.Types.{entry_from_envelope, index_name}
use angou.World.{
  works, fails, Fate, Disk, World, continue, pure, store_root, write_file_atomic, create_temp,
  touch, write_temp, commit_temp, rename, remove, temp_prefix, has_dir, dir_eq, is_at, find_entry,
  insert_entry, remove_entry, file_at, read_file,
}
use angou.Prelude.Bytes.{bytes}
use angou.KeyBundle
use angou.PgpCrypto.{parse_private}
use angou.Release.Order.{at_most, is_above}
use angou.Release.Versions.{compare_versions}
use angou.Store.BlobId.{looks_like_blob_id, in_alphabet}
use angou.Store.Core.{write_meta}
use angou.Store.Types.{meta_name, key_bundle_name, key_bundle_prefix}
use angou.Store.Ops.{raise_version_floor}
use angou.Store.OpenIdentity.{open_identity_for-fits}
use angou.Store.Orphans.{prune_orphans-failed_read}
use angou.Store.Rebuild.{IsFiled, rebuild-IsFiled}
use angou.Store.VersionFloor.{raise_version_floor-at_most}
use angou.Store.Scan.{
  Rebuilt, rebuild, prune_names, prune_orphans, blob_file_names, blob_names, reindex_entries,
  reindex_entry, reindex_file, file_blob, is_passed_over,
}
use angou.Store.Bundles.{
  init, init_empty, new_bundle, exists, open_identity_for, try_listed, try_bundles, read_bundle,
  open_bytes, identity_opens, fits, bundle_paths, order_bundles, has_current, superseded_names,
  insert_descending,
}
use angou.World.{read_dir, list_dir, mkdir_all, stat}
use angou.Tests.Toy.{toy}
use angou.Tests.Files.{cell, quiet, empty_store, notes_id, with_notes}

-- The read of the one blob will fail.
abbrev unlucky : World
unlucky = record {
  disk = with_notes.1.world.disk;
  schedule = works ∷ fails ∷ works ∷ [];
  draws = 4;
}

abbrev unlucky_now : World
unlucky_now = record { disk = with_notes.1.world.disk; schedule = fails ∷ works ∷ []; draws = 4 }

-- A listing that works leaves all but the schedule alone.
listed_world :
    (d : Disk) (rest : List Fate) (n : ℕ)
    → (blob_file_names toy empty_store (record { disk = d; schedule = works ∷ rest; draws = n })).1
      ≡ record { disk = d; schedule = rest; draws = n }
unfolding blob_file_names read_dir
listed_world d rest n = either (has_dir d store_root)
  where
    either :
        (b : Bool)
        → (continue
            (
              if b then ok (list_dir store_root d.entries) else err not_exist,
              record { disk = d; schedule = rest; draws = n },
            )
            (λ es. pure (blob_names es))).1
          ≡ record { disk = d; schedule = rest; draws = n }
    either true = refl
    either false = refl

notes_listed :
    blob_file_names toy empty_store unlucky
    ≡ (ok (blob_path toy notes_id ∷ []), (blob_file_names toy empty_store unlucky).1)
unfolding put_with_origin put_envelope commit_blob index_insert entry_from_envelope normalize_path
    check_path good_segment is_letter drive_letter is_drive_or_unc runes runes_from decode_rune
    bytes_eq bytes_lt cut_prefix has_prefix has_suffix contains cut split letter base32 blob_id
    store_blob_id seal_container write_index blob_path is_armor extension armor binary index_name
    PgpCrypto.seal armor_message_type Container.validate marshal begin_line end_line magic
    header_format header_encoding Envelope.new Envelope.hex write_file_atomic create_temp touch
    write_temp commit_temp rename remove temp_prefix has_dir dir_eq is_at find_entry insert_entry
    remove_entry file_at get read_blob check_blob open_container Container.unmarshal parse_line
    parse_lines parse_header strip_separator read_frame check_header read_body cut_last trim_space
    trim_suffix PgpCrypto.open_payload PgpCrypto.unarmor Envelope.check Envelope.unmarshal read_file
    rebuild reindex_entries reindex_entry reindex_file file_blob is_passed_over looks_like_blob_id
    in_alphabet meta_name read_dir list_dir to_valid_utf8 blob_file_names blob_names
notes_listed = refl

none_pruned :
    prune_names toy empty_store [] (record { removed = []; misnamed = [] }) unlucky_now
    ≡ (ok (record { removed = []; misnamed = [] }), unlucky_now)
unfolding prune_names
none_pruned = refl

prune_orphans-failed_read_example :
    file_at (prune_orphans toy empty_store unlucky).1.disk store_root (blob_path toy notes_id)
    ≡ none
prune_orphans-failed_read_example =
    prune_orphans-failed_read toy empty_store [] (blob_path toy notes_id) [] unlucky unlucky_now
      (record { removed = []; misnamed = [] }) with_notes.1.world.disk [] 4
      (notes_listed
        ∙ ap (λ (v : World). (ok (blob_path toy notes_id ∷ []), v))
            (listed_world with_notes.1.world.disk (fails ∷ works ∷ []) 4))
      none_pruned

abbrev floored : Cell toy
floored = record cell {
  store = record empty_store { meta = record (empty_store.meta) { version_floor = bytes "1.2.0" } };
}

raise_version_floor-at_most_example :
    at_most (
      compare_versions
        (bytes "1.2.0")
        (raise_version_floor toy
          (bytes "1.1.9")
          (λ a b. is_above (compare_versions a b))
          floored).1.store.meta.version_floor)
    ≡ true
raise_version_floor-at_most_example =
    raise_version_floor-at_most toy (bytes "1.1.9") floored (λ h. absurd (ground arith))

abbrev notes_rebuilt : Result Rebuilt × World
notes_rebuilt = rebuild toy with_notes.1.store with_notes.1.world

abbrev rebuilt : Result Rebuilt → Rebuilt
rebuilt (ok r) = r
rebuilt (err e) = record { index = []; skipped = []; unreadable = [] }

notes_reindexed : notes_rebuilt ≡ (ok (rebuilt notes_rebuilt.0), notes_rebuilt.1)
unfolding put_with_origin put_envelope commit_blob index_insert entry_from_envelope normalize_path
    check_path good_segment is_letter drive_letter is_drive_or_unc runes runes_from decode_rune
    bytes_eq bytes_lt cut_prefix has_prefix has_suffix contains cut split letter base32 blob_id
    store_blob_id seal_container write_index blob_path is_armor extension armor binary index_name
    PgpCrypto.seal armor_message_type Container.validate marshal begin_line end_line magic
    header_format header_encoding Envelope.new Envelope.hex write_file_atomic create_temp touch
    write_temp commit_temp rename remove temp_prefix has_dir dir_eq is_at find_entry insert_entry
    remove_entry file_at get read_blob check_blob open_container Container.unmarshal parse_line
    parse_lines parse_header strip_separator read_frame check_header read_body cut_last trim_space
    trim_suffix PgpCrypto.open_payload PgpCrypto.unarmor Envelope.check Envelope.unmarshal read_file
    rebuild reindex_entries reindex_entry reindex_file file_blob is_passed_over looks_like_blob_id
    in_alphabet meta_name read_dir list_dir to_valid_utf8
notes_reindexed = refl

rebuild-IsFiled_example :
    All (IsFiled toy with_notes.1.store with_notes.1.world.disk) (rebuilt notes_rebuilt.0).index
rebuild-IsFiled_example = rebuild-IsFiled toy with_notes.1.store with_notes.1.world notes_reindexed

-- The world that Init leaves.
abbrev started : World
started = (init toy store_root (bytes "pass") quiet).1

notes_opened :
    open_identity_for toy store_root (bytes "pass") started
    ≡ (ok (0 ∷ []), (open_identity_for toy store_root (bytes "pass") started).1)
unfolding put_with_origin put_envelope commit_blob index_insert entry_from_envelope normalize_path
    check_path good_segment is_letter drive_letter is_drive_or_unc runes runes_from decode_rune
    bytes_eq bytes_lt cut_prefix has_prefix has_suffix contains cut split letter base32 blob_id
    store_blob_id seal_container write_index blob_path is_armor extension armor binary index_name
    PgpCrypto.seal armor_message_type Container.validate marshal begin_line end_line magic
    header_format header_encoding Envelope.new Envelope.hex write_file_atomic create_temp touch
    write_temp commit_temp rename remove temp_prefix has_dir dir_eq is_at find_entry insert_entry
    remove_entry file_at get read_blob check_blob open_container Container.unmarshal parse_line
    parse_lines parse_header strip_separator read_frame check_header read_body cut_last trim_space
    trim_suffix PgpCrypto.open_payload PgpCrypto.unarmor Envelope.check Envelope.unmarshal read_file
    init init_empty new_bundle exists open_identity_for try_listed try_bundles read_bundle
    open_bytes identity_opens fits bundle_paths order_bundles has_current superseded_names
    insert_descending mkdir_all stat write_meta meta_name key_bundle_name key_bundle_prefix read_dir
    list_dir parse_private KeyBundle.seal KeyBundle.open_bundle KeyBundle.validate
    KeyBundle.open_aead KeyBundle.seal_aead KeyBundle.derive KeyBundle.check_memory
    KeyBundle.check_memory_against KeyBundle.default_params KeyBundle.algorithm_argon2id
notes_opened = refl

open_identity_for-fits_example :
    fits toy (read_file store_root meta_name (bundle_paths started).1).0 (0 ∷ []) ≡ true
open_identity_for-fits_example =
    open_identity_for-fits toy store_root (bytes "pass") started notes_opened
