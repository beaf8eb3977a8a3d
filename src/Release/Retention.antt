-- ===== src/Release/Retention.antt =====
-- What Prune takes away.
use angou.Prelude.{
  ℕ, ◌≡◌, ◌+◌, Bool, true, false, ◌&&◌, none, List, [], ◌∷◌, ◌++◌, All, if◌then◌else◌,
}
use angou.Prelude.{Result, ok, err}
use angou.Prelude.Bytes.{Bytes, bytes, bytes_eq}
use angou.Release.Catalog.{Artifact, key}
use angou.Release.Names.{Kind, cli, gui, kind_name}
use angou.World.{World, Disk, bootstrap_dir, file_at}
use angou.World.Shrinks.{Shrinks}

abbrev keys : List Artifact → List Bytes
keys [] = []
keys (a ∷ others) = key a ∷ keys others

abbrev pub names_of : List Artifact → List Bytes
names_of [] = []
names_of (a ∷ others) = a.name ∷ names_of others

abbrev same_kind : Kind → Kind → Bool
same_kind cli cli = true
same_kind gui gui = true
same_kind _ _ = false

-- Whether a build is of this kind, and for this platform: the system and the architecture with a
-- slash in between.
abbrev is_build_for : Kind → Bytes → Artifact → Bool
is_build_for kind target a =
    same_kind a.parts.kind kind && bytes_eq (a.parts.goos ++ (bytes "/" ++ a.parts.goarch)) target

abbrev pub builds_for : Kind → Bytes → List Artifact → ℕ
builds_for kind target [] = 0
builds_for kind target (a ∷ others) =
    (if is_build_for kind target a then 1 else 0) + builds_for kind target others

key_of : Kind → Bytes → Bytes
key_of kind target = kind_name kind ++ (bytes " " ++ target)

-- What comes of taking artifacts away.
abbrev Taken : List Artifact → Disk → Result (List Bytes) → Disk → Type 0
Taken others d (ok names) d' =
    Shrinks d d'
    × (names ≡ names_of others)
    × All (λ (a : Artifact). file_at d' bootstrap_dir a.name ≡ none) others
Taken others d (err e) d' = Unit
