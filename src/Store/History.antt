-- ===== src/Store/History.antt =====
-- Runs of PutWithOrigin, Remove and Move of internal/store/store.go, and what they are to do: a map
-- from paths to envelopes.
use mathlib.Core.List.{Memᴰ}
use angou.Prelude.{ℕ, ◌≡◌, ◌≢◌, ◌∙◌, false, Option, none, some, List, [], ◌∷◌, if◌then◌else◌}
use angou.Prelude.{Result, ok, err, no_such_path}
use angou.Prelude.Bytes.{Bytes, bytes_eq}
use angou.Prelude.Bytes.Utf8.{to_valid_utf8}
use angou.Container.{Encoding}
use angou.Envelope
use angou.Envelope.{Envelope}
use angou.External.{External}
use angou.Store.Act
use angou.Store.Act.{Cell, Act}
use angou.Store.Core.{Store, store_blob_id, get}
use angou.Store.GetPut.{calm, same_id}
use angou.Store.Lawful.{as_json}
use angou.Store.LogicalPath.{normalize_path}
use angou.Store.Ops.{put_with_origin, remove_path, move}

-- PutWithOrigin, Remove and Move.
pub data Op : Type 0 where
  write : Bytes → Bytes → ℕ → ℕ → Bytes → Bytes → Encoding → Op
  delete : Bytes → Op
  readdress : Bytes → Bytes → Op

-- The specification: what is filed under each path.
abbrev pub Files : Type 0
Files = Bytes → Option Envelope

abbrev pub update : Files → Bytes → Option Envelope → Files
update files p v q = if bytes_eq p q then v else files q

abbrev pub renamed : (Bytes → Bytes) → Bytes → Option Envelope → Option Envelope
renamed sha256 to none = none
renamed sha256 to (some e) =
    some (as_json (Envelope.new sha256 to e.mime e.mode e.mtime e.content e.origin))

module _ (x : External) where
  unfoldable pub apply : Op → Act x (Unit {0})
  unfolding put_with_origin remove_path move
  apply (write path content mode mtime mime origin enc) =
      Act.◌>>=◌ (put_with_origin x path content mode mtime mime origin enc) (λ id. Act.pure tt)
  apply (delete path) = remove_path x path
  apply (readdress from to) = move x from to

  unfoldable pub run : List Op → Act x (Unit {0})
  run [] = Act.pure tt
  run (op ∷ ops) = Act.◌>>◌ (apply op) (run ops)

  -- What each operation does to the map.
  unfoldable pub file_op : Op → Files → Files
  file_op (write path content mode mtime mime origin enc) files =
      update files path (some (as_json (Envelope.new x.sha256 path mime mode mtime content origin)))
  file_op (delete path) files = update files path none
  file_op (readdress from to) files =
      update (update files to (renamed x.sha256 to (files from))) from none

  unfoldable pub file_ops : List Op → Files → Files
  file_ops [] files = files
  file_ops (op ∷ ops) files = file_ops ops (file_op op files)

  abbrev pub reply : Option Envelope → Result Envelope
  reply none = err no_such_path
  reply (some e) = ok e

  -- Paths in normal form and in UTF-8, of which each has a blob name of its own.
  pub record IsNamed (s : Store x) (paths : List Bytes) : Type 0 where
    pub name : Bytes → Bytes
    pub normal : (p : Bytes) → Memᴰ p paths → normalize_path x.nfc p ≡ ok p
    pub valid : (p : Bytes) → Memᴰ p paths → to_valid_utf8 p ≡ p
    pub addressed : (p : Bytes) → Memᴰ p paths → store_blob_id x s p ≡ ok (name p)
    pub apart : (p q : Bytes) → Memᴰ p paths → Memᴰ q paths → bytes_eq p q ≡ false → name p ≢ name q

  pub IsNamed-same :
      (s s' : Store x) (paths : List Bytes) → s'.meta ≡ s.meta → IsNamed s paths → IsNamed s' paths
  IsNamed-same s s' paths e u = record {
    name = u.name;
    normal = u.normal;
    valid = u.valid;
    addressed = λ p m. same_id x s s' p e ∙ u.addressed p m;
    apart = u.apart;
  }

  -- At each of the paths, Get returns what the map has, if none of its calls fails.
  abbrev pub Represents : List Bytes → Cell x → Files → Type 0
  Represents paths c files =
      (p : Bytes) → Memᴰ p paths → (get x c.store p (calm c.world)).0 ≡ reply (files p)

  -- The operation keeps to the paths; a Move is between two of them.
  abbrev pub KeepsTo : List Bytes → Op → Type 0
  KeepsTo paths (write path content mode mtime mime origin enc) = Memᴰ path paths
  KeepsTo paths (delete path) = Memᴰ path paths
  KeepsTo paths (readdress from to) = Memᴰ from paths × Memᴰ to paths × (bytes_eq from to ≡ false)
