-- ===== src/Release/Catalog.antt =====
-- internal/release/release.go: the artifacts of a bootstrap namespace. List, Prune, Find and
-- Platforms.
use angou.Prelude.{
  ℕ, suc, Bool, true, false, not, ◌&&◌, ◌||◌, Option, none, some, List, [], ◌∷◌, ◌++◌, leb,
  if◌then◌else◌,
}
use angou.Prelude.{Result, ok, err, not_exist, bad_argument, no_binary, guard}
use angou.Prelude.Bytes.{Bytes, bytes, bytes_eq, bytes_lt, has_suffix}
use angou.Release.Names.{cli, kind_name, Parts, parse_binary_name}
use angou.Release.Order.{is_above}
use angou.Release.Versions.{compare_versions}
use angou.World.{
  Entry, Node, file, folder, bootstrap_dir, M, pure, lift, try, ◌>>=◌, ◌>>◌, read_dir, read_file,
  remove_if_there,
}

pub record Metadata : Type 0 where
  pub version : Bytes
  pub commit : Bytes
  pub toolchain : Bytes
  pub build_flags : Bytes
  pub goos : Bytes
  pub goarch : Bytes
  pub sha256 : Bytes
  pub size : ℕ

pub record Artifact : Type 0 where
  pub name : Bytes
  pub parts : Parts
  pub metadata : Metadata

unfoldable pub signature_suffix : Bytes
signature_suffix = bytes ".sig"

unfoldable pub metadata_suffix : Bytes
metadata_suffix = bytes ".json"

unfoldable pub platform : Parts → Bytes
platform p = p.goos ++ (bytes "/" ++ p.goarch)

abbrev is_folder : Node → Bool
is_folder (file content) = false
is_folder folder = true

abbrev pub no_metadata : Metadata
no_metadata = record {
  version = [];
  commit = [];
  toolchain = [];
  build_flags = [];
  goos = [];
  goarch = [];
  sha256 = [];
  size = 0;
}

-- The order that List sorts by: kind, platform, and the newest version first. Where two artifacts
-- stand level, which comes first is not laid down; here it is the one that is listed later.
unfoldable pub goes_before : Artifact → Artifact → Bool
unfolding bytes_eq bytes_lt kind_name
goes_before a b =
    if not (bytes_eq (kind_name a.parts.kind) (kind_name b.parts.kind))
    then bytes_lt (kind_name a.parts.kind) (kind_name b.parts.kind)
    else if not (bytes_eq (platform a.parts) (platform b.parts))
    then bytes_lt (platform a.parts) (platform b.parts)
    else is_above (compare_versions a.parts.version b.parts.version)

unfoldable pub insert_artifact : Artifact → List Artifact → List Artifact
insert_artifact a [] = a ∷ []
insert_artifact a (b ∷ bs) =
    let later = b ∷ insert_artifact a bs in if goes_before b a then later else a ∷ b ∷ bs

unfoldable pub sort_artifacts : List Artifact → List Artifact
unfolding insert_artifact
sort_artifacts [] = []
sort_artifacts (a ∷ others) = insert_artifact a (sort_artifacts others)

-- `seen` holds a key for each artifact so far: its kind and its platform.
abbrev pub key : Artifact → Bytes
key a = kind_name a.parts.kind ++ (bytes " " ++ platform a.parts)

unfoldable pub count : Bytes → List Bytes → ℕ
unfolding bytes_eq
count k [] = 0
count k (j ∷ js) = let rest = count k js in if bytes_eq j k then suc rest else rest

-- The artifacts beyond the first `keep` of their kind and platform.
unfoldable pub excess : ℕ → List Bytes → List Artifact → List Artifact
excess keep seen [] = []
excess keep seen (a ∷ others) =
    let rest = excess keep (key a ∷ seen) others in
    if leb (count (key a) (key a ∷ seen)) keep then rest else a ∷ rest

unfoldable pub find_cli : Bytes → Bytes → List Artifact → Option Artifact
unfolding bytes_eq
find_cli goos goarch [] = none
find_cli goos goarch (a ∷ others) =
    let rest = find_cli goos goarch others in
    if bytes_eq (kind_name a.parts.kind) (kind_name cli)
      && bytes_eq a.parts.goos goos
      && bytes_eq a.parts.goarch goarch
    then some a
    else rest

-- `decode` is what json.Unmarshal leaves in a Metadata, also where it returns an error.
module _ (decode : Bytes → Metadata) where
  abbrev read_metadata : Result Bytes → Metadata
  read_metadata (ok raw) = decode raw
  read_metadata (err e) = no_metadata

  abbrev with_artifact : Bytes → Option Parts → M (List Artifact) → M (List Artifact)
  with_artifact name none rest = rest
  with_artifact name (some parts) rest = do
    raw ← try (read_file bootstrap_dir (name ++ metadata_suffix))
    others ← rest
    pure (record { name = name; parts = parts; metadata = read_metadata raw } ∷ others)

  unfoldable pub gather : List Entry → M (List Artifact)
  unfolding has_suffix
  gather [] = pure []
  gather (e ∷ es) =
      let rest = gather es in
      if is_folder e.node || has_suffix e.name signature_suffix || has_suffix e.name metadata_suffix
      then rest
      else with_artifact e.name (parse_binary_name e.name) rest

  abbrev or_nothing : Result (List Entry) → Result (List Entry)
  or_nothing (ok es) = ok es
  or_nothing (err not_exist) = ok []
  or_nothing (err e) = err e

  unfoldable pub list_artifacts : M (List Artifact)
  list_artifacts = do
    result ← try (read_dir bootstrap_dir)
    entries ← lift (or_nothing result)
    found ← gather entries
    pure (sort_artifacts found)

  unfoldable pub remove_artifacts : List Artifact → M (List Bytes)
  remove_artifacts [] = pure []
  remove_artifacts (a ∷ others) = do
    remove_if_there bootstrap_dir a.name
    remove_if_there bootstrap_dir (a.name ++ signature_suffix)
    remove_if_there bootstrap_dir (a.name ++ metadata_suffix)
    names ← remove_artifacts others
    pure (a.name ∷ names)

  -- Prune. The names removed before an error are not returned with it.
  unfoldable pub prune : ℕ → M (List Bytes)
  prune keep = do
    lift (guard (leb 1 keep) bad_argument)
    others ← list_artifacts
    remove_artifacts (excess keep [] others)

  abbrev or_no_binary : Option Artifact → Result Artifact
  or_no_binary none = err no_binary
  or_no_binary (some a) = ok a

  unfoldable pub find : Bytes → Bytes → M Artifact
  find goos goarch = do others ← list_artifacts; lift (or_no_binary (find_cli goos goarch others))
