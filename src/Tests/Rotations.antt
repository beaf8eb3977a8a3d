-- ===== src/Tests/Rotations.antt =====
-- The theorems on the rotation of the identity and on the bundles, at the small store.
use angou.Prelude.{◌≡◌, refl, true, Option, some, [], ◌∷◌}
use angou.Prelude.{ok}
use angou.Prelude.Bytes.{Bytes, bytes}
use angou.Prelude.Bytes.{
  bytes_eq, bytes_lt, cut_prefix, has_prefix, has_suffix, trim_suffix, contains, cut, cut_last,
  split,
}
use angou.Prelude.Bytes.Space.{trim_space}
use angou.Container
use angou.Container.{
  armor, binary, extension, marshal, begin_line, end_line, magic, header_format, header_encoding,
  parse_line, parse_lines, parse_header, strip_separator, read_frame, check_header, read_body,
}
use angou.KeyBundle
use angou.PgpCrypto
use angou.PgpCrypto.{armor_message_type, parse_private}
use angou.Store.Core.{
  Store, seal_container, open_container, write_index, write_meta, blob_path, is_armor,
}
use angou.Store.Bundles.{
  init, init_empty, new_bundle, exists, open_identity_for, open_bytes, identity_opens,
}
use angou.Store.GetPut.{calm}
use angou.Store.Rekey.{commit_rekey, prune_superseded, rewrap_recovery}
use angou.Store.Retire.{Pruned, prune_superseded-Pruned}
use angou.Store.Rotation.{bundle_fits, IsOpenable, current_bundle}
use angou.Store.Survival.{Rewrapped, commit_rekey-opens, rewrap_recovery-Rewrapped}
use angou.Store.Types.{meta_name, index_name, key_bundle_name, key_bundle_prefix}
use angou.World.{
  works, dies, World, Node, file, store_root, bootstrap_dir, staging_dir, write_file_atomic,
  create_temp, touch, write_temp, commit_temp, rename, remove, temp_prefix, has_dir, dir_eq, is_at,
  find_entry, insert_entry, remove_entry, file_at, read_file, mkdir_all, stat,
}
use angou.Tests.Toy.{toy, toy-IsBundleLawful}
use angou.Tests.Files.{quiet, empty_store}

abbrev pub passphrase : Bytes
passphrase = bytes "pass"

-- What Init leaves, and what it leaves of another identity.
abbrev pub old_world : World
old_world = (init toy store_root passphrase quiet).1

abbrev pub new_world : World
new_world = (init toy store_root passphrase (record quiet { draws = 9 })).1

abbrev pub raw_of : Option Node → Bytes
raw_of (some (file raw)) = raw
raw_of _ = []

abbrev pub old_bundle : Bytes
old_bundle = raw_of (file_at old_world.disk bootstrap_dir key_bundle_name)

abbrev pub old_meta : Bytes
old_meta = raw_of (file_at old_world.disk store_root meta_name)

abbrev pub new_bundle_raw : Bytes
new_bundle_raw = raw_of (file_at new_world.disk bootstrap_dir key_bundle_name)

abbrev new_meta : Bytes
new_meta = raw_of (file_at new_world.disk store_root meta_name)

-- The new metadata is staged, and the program is killed at the tenth call.
abbrev rotating : World
rotating = record old_world {
  disk = record (old_world.disk) {
    has_staging = true;
    entries =
        insert_entry (record { dir = staging_dir; name = meta_name; node = file new_meta })
          old_world.disk.entries;
  };
  schedule = works ∷ works ∷ works ∷ works ∷ works ∷ works ∷ works ∷ works ∷ works ∷ dies ∷ [];
}

rotating_bundle : file_at rotating.disk bootstrap_dir key_bundle_name ≡ some (file old_bundle)
unfolding write_index seal_container blob_path is_armor extension armor binary index_name
    PgpCrypto.seal armor_message_type Container.validate marshal begin_line end_line magic
    header_format header_encoding write_file_atomic create_temp touch write_temp commit_temp rename
    remove temp_prefix has_dir dir_eq is_at find_entry insert_entry remove_entry file_at
    open_container Container.unmarshal parse_line parse_lines parse_header strip_separator
    read_frame check_header read_body cut_last trim_space trim_suffix PgpCrypto.open_payload
    PgpCrypto.unarmor read_file init init_empty new_bundle exists open_bytes identity_opens
    mkdir_all stat write_meta meta_name key_bundle_name key_bundle_prefix parse_private
    KeyBundle.seal KeyBundle.open_bundle KeyBundle.validate KeyBundle.open_aead KeyBundle.seal_aead
    KeyBundle.derive KeyBundle.check_memory KeyBundle.check_memory_against KeyBundle.default_params
    KeyBundle.algorithm_argon2id bytes_eq bytes_lt cut_prefix has_prefix has_suffix contains cut
    split
rotating_bundle = refl

rotating_meta : file_at rotating.disk store_root meta_name ≡ some (file old_meta)
unfolding write_index seal_container blob_path is_armor extension armor binary index_name
    PgpCrypto.seal armor_message_type Container.validate marshal begin_line end_line magic
    header_format header_encoding write_file_atomic create_temp touch write_temp commit_temp rename
    remove temp_prefix has_dir dir_eq is_at find_entry insert_entry remove_entry file_at
    open_container Container.unmarshal parse_line parse_lines parse_header strip_separator
    read_frame check_header read_body cut_last trim_space trim_suffix PgpCrypto.open_payload
    PgpCrypto.unarmor read_file init init_empty new_bundle exists open_bytes identity_opens
    mkdir_all stat write_meta meta_name key_bundle_name key_bundle_prefix parse_private
    KeyBundle.seal KeyBundle.open_bundle KeyBundle.validate KeyBundle.open_aead KeyBundle.seal_aead
    KeyBundle.derive KeyBundle.check_memory KeyBundle.check_memory_against KeyBundle.default_params
    KeyBundle.algorithm_argon2id bytes_eq bytes_lt cut_prefix has_prefix has_suffix contains cut
    split
rotating_meta = refl

rotating_staged : file_at rotating.disk staging_dir meta_name ≡ some (file new_meta)
unfolding write_index seal_container blob_path is_armor extension armor binary index_name
    PgpCrypto.seal armor_message_type Container.validate marshal begin_line end_line magic
    header_format header_encoding write_file_atomic create_temp touch write_temp commit_temp rename
    remove temp_prefix has_dir dir_eq is_at find_entry insert_entry remove_entry file_at
    open_container Container.unmarshal parse_line parse_lines parse_header strip_separator
    read_frame check_header read_body cut_last trim_space trim_suffix PgpCrypto.open_payload
    PgpCrypto.unarmor read_file init init_empty new_bundle exists open_bytes identity_opens
    mkdir_all stat write_meta meta_name key_bundle_name key_bundle_prefix parse_private
    KeyBundle.seal KeyBundle.open_bundle KeyBundle.validate KeyBundle.open_aead KeyBundle.seal_aead
    KeyBundle.derive KeyBundle.check_memory KeyBundle.check_memory_against KeyBundle.default_params
    KeyBundle.algorithm_argon2id bytes_eq bytes_lt cut_prefix has_prefix has_suffix contains cut
    split
rotating_staged = refl

rotating_there : rotating.disk.has_bootstrap ≡ true
unfolding write_index seal_container blob_path is_armor extension armor binary index_name
    PgpCrypto.seal armor_message_type Container.validate marshal begin_line end_line magic
    header_format header_encoding write_file_atomic create_temp touch write_temp commit_temp rename
    remove temp_prefix has_dir dir_eq is_at find_entry insert_entry remove_entry file_at
    open_container Container.unmarshal parse_line parse_lines parse_header strip_separator
    read_frame check_header read_body cut_last trim_space trim_suffix PgpCrypto.open_payload
    PgpCrypto.unarmor read_file init init_empty new_bundle exists open_bytes identity_opens
    mkdir_all stat write_meta meta_name key_bundle_name key_bundle_prefix parse_private
    KeyBundle.seal KeyBundle.open_bundle KeyBundle.validate KeyBundle.open_aead KeyBundle.seal_aead
    KeyBundle.derive KeyBundle.check_memory KeyBundle.check_memory_against KeyBundle.default_params
    KeyBundle.algorithm_argon2id bytes_eq bytes_lt cut_prefix has_prefix has_suffix contains cut
    split
rotating_there = refl

old_fits : bundle_fits toy passphrase old_bundle old_meta ≡ true
unfolding write_index seal_container blob_path is_armor extension armor binary index_name
    PgpCrypto.seal armor_message_type Container.validate marshal begin_line end_line magic
    header_format header_encoding write_file_atomic create_temp touch write_temp commit_temp rename
    remove temp_prefix has_dir dir_eq is_at find_entry insert_entry remove_entry file_at
    open_container Container.unmarshal parse_line parse_lines parse_header strip_separator
    read_frame check_header read_body cut_last trim_space trim_suffix PgpCrypto.open_payload
    PgpCrypto.unarmor read_file init init_empty new_bundle exists open_bytes identity_opens
    mkdir_all stat write_meta meta_name key_bundle_name key_bundle_prefix parse_private
    KeyBundle.seal KeyBundle.open_bundle KeyBundle.validate KeyBundle.open_aead KeyBundle.seal_aead
    KeyBundle.derive KeyBundle.check_memory KeyBundle.check_memory_against KeyBundle.default_params
    KeyBundle.algorithm_argon2id bytes_eq bytes_lt cut_prefix has_prefix has_suffix contains cut
    split
old_fits = refl

new_fits : bundle_fits toy passphrase new_bundle_raw new_meta ≡ true
unfolding write_index seal_container blob_path is_armor extension armor binary index_name
    PgpCrypto.seal armor_message_type Container.validate marshal begin_line end_line magic
    header_format header_encoding write_file_atomic create_temp touch write_temp commit_temp rename
    remove temp_prefix has_dir dir_eq is_at find_entry insert_entry remove_entry file_at
    open_container Container.unmarshal parse_line parse_lines parse_header strip_separator
    read_frame check_header read_body cut_last trim_space trim_suffix PgpCrypto.open_payload
    PgpCrypto.unarmor read_file init init_empty new_bundle exists open_bytes identity_opens
    mkdir_all stat write_meta meta_name key_bundle_name key_bundle_prefix parse_private
    KeyBundle.seal KeyBundle.open_bundle KeyBundle.validate KeyBundle.open_aead KeyBundle.seal_aead
    KeyBundle.derive KeyBundle.check_memory KeyBundle.check_memory_against KeyBundle.default_params
    KeyBundle.algorithm_argon2id bytes_eq bytes_lt cut_prefix has_prefix has_suffix contains cut
    split
new_fits = refl

old_opens : identity_opens toy (0 ∷ []) old_meta ≡ true
unfolding write_index seal_container blob_path is_armor extension armor binary index_name
    PgpCrypto.seal armor_message_type Container.validate marshal begin_line end_line magic
    header_format header_encoding write_file_atomic create_temp touch write_temp commit_temp rename
    remove temp_prefix has_dir dir_eq is_at find_entry insert_entry remove_entry file_at
    open_container Container.unmarshal parse_line parse_lines parse_header strip_separator
    read_frame check_header read_body cut_last trim_space trim_suffix PgpCrypto.open_payload
    PgpCrypto.unarmor read_file init init_empty new_bundle exists open_bytes identity_opens
    mkdir_all stat write_meta meta_name key_bundle_name key_bundle_prefix parse_private
    KeyBundle.seal KeyBundle.open_bundle KeyBundle.validate KeyBundle.open_aead KeyBundle.seal_aead
    KeyBundle.derive KeyBundle.check_memory KeyBundle.check_memory_against KeyBundle.default_params
    KeyBundle.algorithm_argon2id bytes_eq bytes_lt cut_prefix has_prefix has_suffix contains cut
    split
old_opens = refl

abbrev interrupted : World
interrupted = (commit_rekey toy empty_store staging_dir new_bundle_raw [] rotating).1

commit_rekey-opens_example :
    (exported : Bytes) × (open_identity_for toy store_root passphrase (calm interrupted)
      ≡ (ok exported, calm interrupted))
commit_rekey-opens_example =
    commit_rekey-opens toy passphrase empty_store old_bundle old_meta new_bundle_raw new_meta []
      rotating refl rotating_there rotating_bundle rotating_meta rotating_staged old_fits new_fits
      tt tt

old_IsOpenable : IsOpenable toy passphrase rotating.disk
old_IsOpenable = record {
  name = key_bundle_name;
  raw = old_bundle;
  meta_raw = old_meta;
  named = current_bundle;
  bundle = rotating_bundle;
  meta = rotating_meta;
  fits = old_fits;
  there = rotating_there;
}

prune_superseded-Pruned_example :
    Pruned toy passphrase
      (prune_superseded toy store_root passphrase rotating).0
      (prune_superseded toy store_root passphrase rotating).1.disk
prune_superseded-Pruned_example = prune_superseded-Pruned toy passphrase rotating old_IsOpenable

abbrev old_store : Store toy
old_store = record empty_store { identity = 0 }

rewrap_recovery-Rewrapped_example :
    Rewrapped toy passphrase
      (bytes "next")
      (rewrap_recovery toy old_store (bytes "next") rotating).0
      (rewrap_recovery toy old_store (bytes "next") rotating).1.disk
rewrap_recovery-Rewrapped_example =
    rewrap_recovery-Rewrapped toy passphrase (bytes "next") toy-IsBundleLawful old_store (0 ∷ [])
      old_meta rotating refl refl old_opens rotating_meta old_IsOpenable
