-- ===== src/Store/OpenIdentity.antt =====
-- Which identity opens a store.
use angou.Prelude.{◌≡◌, ap, true, Bool-cases, inl, inr, List, [], ◌∷◌}
use angou.Prelude.{Result, ok, err, Error, no_usable_bundle, ok-injective}
use angou.Prelude.Bytes.{Bytes}
use angou.External.{External}
use angou.Store.Blobs.{world-eq-ok}
use angou.Store.Bundles.{
  round, fits, read_bundle, try_bundles, try_listed, open_identity_for, bundle_paths, last_error,
}
use angou.Store.Types.{meta_name}
use angou.World.{Dir, World, read_file, M}

module _ (x : External) where
  round-fits :
      (meta_raw : Result Bytes) (outcome : Result Bytes) (rest : M Bytes) (w : World)
      {exported : Bytes} {w' : World}
      → ((v : World) → rest v ≡ (ok exported, w') → fits x meta_raw exported ≡ true)
      → round x meta_raw outcome rest w ≡ (ok exported, w')
      → fits x meta_raw exported ≡ true
  round-fits meta_raw (err e) rest w later h = later w h
  round-fits meta_raw (ok b) rest w {exported} later h = elim (Bool-cases (fits x meta_raw b)) [
    | inl e ↦ rw (← ok-injective (ap (λ (p : Result Bytes × World). p.0) (rw e at h))) e
    | inr e ↦ later w (rw e at h)
  ]

  try_bundles-fits :
      (recovery : Bytes) (meta_raw : Result Bytes) (last : Error) (names : List Bytes) (w : World)
      {exported : Bytes} {w' : World}
      → try_bundles x recovery meta_raw last names w ≡ (ok exported, w')
      → fits x meta_raw exported ≡ true
  unfolding try_bundles
  try_bundles-fits recovery meta_raw last [] w h = cc
  try_bundles-fits recovery meta_raw last (name ∷ names) w h =
      round-fits meta_raw (read_bundle x recovery name w).0
        (try_bundles x recovery meta_raw (last_error x (read_bundle x recovery name w).0) names)
        (read_bundle x recovery name w).1
        (λ v k.
          try_bundles-fits recovery meta_raw (last_error x (read_bundle x recovery name w).0) names
            v k)
        h

  try_listed-fits :
      (root : Dir) (recovery : Bytes) (names : List Bytes) (w : World) {exported : Bytes}
      {w' : World}
      → try_listed x root recovery names w ≡ (ok exported, w')
      → fits x (read_file root meta_name w).0 exported ≡ true
  unfolding try_listed
  try_listed-fits root recovery [] w h = cc
  try_listed-fits root recovery (name ∷ names) w h =
      try_bundles-fits recovery (read_file root meta_name w).0 no_usable_bundle (name ∷ names)
        (read_file root meta_name w).1 h

  -- The identity that a recovery passphrase gives opens the store's metadata, if the metadata could
  -- be read: a bundle of another identity is passed over.
  pub open_identity_for-fits :
      (root : Dir) (recovery : Bytes) (w : World) {exported : Bytes} {w' : World}
      → open_identity_for x root recovery w ≡ (ok exported, w')
      → fits x (read_file root meta_name (bundle_paths w).1).0 exported ≡ true
  unfolding open_identity_for
  open_identity_for-fits root recovery w h =
      let (names, w1, listed, h1) = world-eq-ok (bundle_paths w) _ h in
      rw listed (try_listed-fits root recovery names w1 h1)
