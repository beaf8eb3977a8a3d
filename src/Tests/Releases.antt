-- ===== src/Tests/Releases.antt =====
-- Prune of internal/release/release.go, at a bootstrap directory with three builds of two programs.
use angou.Prelude.{true, List, [], ◌∷◌}
use angou.Prelude.{Result}
use angou.Prelude.Bytes.{Bytes, bytes}
use angou.Release.Catalog.{no_metadata, prune}
use angou.World.{World, Entry, file, bootstrap_dir}

abbrev build : Bytes → Entry
build name = record { dir = bootstrap_dir; name = name; node = file (bytes "ELF") }

abbrev bootstrap : World
bootstrap = record {
  disk = record {
    has_root = true;
    has_bootstrap = true;
    has_staging = true;
    entries =
        build (bytes "angou-gui-linux-amd64-1.1.0")
        ∷ build (bytes "angou-linux-amd64-1.0.0")
        ∷ build (bytes "angou-linux-amd64-1.1.0")
        ∷ [];
  };
  schedule = [];
  draws = 0;
}

abbrev pruned : Result (List Bytes) × World
pruned = prune (λ raw. no_metadata) 1 bootstrap
