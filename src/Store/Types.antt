-- ===== src/Store/Types.antt =====
-- internal/store/store.go: the metadata, the index, and the file names of a store.
use angou.Prelude.{ℕ, List, ◌++◌}
use angou.Prelude.Bytes.{Bytes, bytes}
use angou.Container.{extension}
use angou.Envelope.{Envelope}

unfoldable pub meta_name : Bytes
unfolding extension
meta_name = bytes "store" ++ extension

unfoldable pub index_name : Bytes
unfolding extension
index_name = bytes "index" ++ extension

unfoldable pub key_bundle_name : Bytes
key_bundle_name = bytes "keybundle.json"

unfoldable pub key_bundle_prefix : Bytes
key_bundle_prefix = bytes "keybundle-"

pub record Meta : Type 0 where
  pub name_key : Bytes
  pub bootstrap_sha256 : Bytes
  pub bootstrap_ps1_sha256 : Bytes
  pub version_floor : Bytes

pub record IndexEntry : Type 0 where
  pub path : Bytes
  pub mime : Bytes
  pub size : ℕ
  pub mtime : ℕ
  pub mode : ℕ
  pub origin : Bytes
  pub tags : List Bytes

-- The map from blob_id to entry, as an association list.
abbrev pub Index : Type 0
Index = List (Bytes × IndexEntry)

unfoldable pub entry_from_envelope : Envelope → IndexEntry
entry_from_envelope e = record {
  path = e.path;
  mime = e.mime;
  size = e.size;
  mtime = e.mtime;
  mode = e.mode;
  origin = e.origin;
  tags = List.[];
}
