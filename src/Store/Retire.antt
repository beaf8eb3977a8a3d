-- ===== src/Store/Retire.antt =====
-- internal/store/rekey.go, PruneSupersededBundles: which bundle is kept, and what is left.
use angou.Prelude.{
  ◌≡◌, inl, inr, refl, Bool, true, false, not, ◌&&◌, ◌||◌, Bool-cases, Option-cases, none, some,
  List, [], ◌∷◌, arith,
}
use angou.Prelude.{Result, ok, err, Error, not_exist, not_a_store}
use angou.Prelude.Bytes.{Bytes, bytes_eq}
use angou.Prelude.Bytes.Laws.{bytes_eq_refl}
use angou.External.{External}
use angou.Store.Bundles.{
  order_bundles, bundle_paths, open_bytes, read_bundle, identity_opens, or_no_store,
}
use angou.Store.Opens.{among, find_entry-listed, order_bundles_complete}
use angou.Store.Prune.{
  Opening, Promoted, Cleared, Left, promote-Promoted, remove_others_lem, order_bundles_sound,
}
use angou.Store.Rekey.{keep_or, find_keep, promote, remove_others, prune_superseded}
use angou.Store.Rotation.{bundle_fits, is_bundle_name, IsOpenable}
use angou.Store.Types.{meta_name, key_bundle_name}
use angou.World.{
  Dir, store_root, bootstrap_dir, Node, file, Entry, Disk, World, M, file_at, has_dir, list_dir,
  read_file, read_dir, continue, ◌>>◌, pure, lift,
}
use angou.World.Calls.{Post-read_file, Post-read_dir}
use angou.World.Triple.{Post, Post-bind}

-- The names of the bundles of a disk.
abbrev listed : Disk → List Bytes
listed d = order_bundles (list_dir bootstrap_dir d.entries)

unlisted_missing :
    (d : Disk) (name : Bytes)
    → is_bundle_name name ≡ true
    → among name (listed d) ≡ false
    → file_at d bootstrap_dir name ≡ none
unfolding file_at
unlisted_missing d name b h = elim (Option-cases (file_at d bootstrap_dir name)) [
  | inl e ↦ e
  | inr (node, e) ↦ absurd (clash e)
]
  where
    clash : {node : Node} → file_at d bootstrap_dir name ≡ some node → ⊥
    clash e = cc (
        order_bundles_complete name (list_dir bootstrap_dir d.entries) b
          (find_entry-listed bootstrap_dir name d.entries e))

abbrev Listed : Disk → Result (List Bytes) → Disk → Type 0
Listed d (ok names) d' = (d' ≡ d) × (names ≡ listed d) × (d.has_bootstrap ≡ true)
Listed d (err e) d' = d' ≡ d

abbrev Read : Disk → Result (List Entry) → Disk → Type 0
Read d (ok es) d' = (d' ≡ d) × (es ≡ list_dir bootstrap_dir d.entries) × (d.has_bootstrap ≡ true)
Read d (err e) d' = d' ≡ d

or_no_store-err : (e : Error) → (e' : Error) × (or_no_store {A = List Entry} (err e) ≡ err e')
or_no_store-err not_exist = (not_a_store, refl)
or_no_store-err e = (e, refl)

Read-Listed :
    (d : Disk) (p : Result (List Entry) × World)
    → Read d p.0 p.1.disk
    → (let q = continue (lift (or_no_store p.0) p.1) (λ es. pure (order_bundles es)) in
        Listed d q.0 q.1.disk)
Read-Listed d (ok es, w) h = (h.0, rw h.1 refl, h.2)
Read-Listed d (err e, w) h = let (e', same) = or_no_store-err e in rw same h

bundle_paths-Listed : (w : World) → Post bundle_paths w (Listed w.disk)
unfolding bundle_paths has_dir
bundle_paths-Listed w =
    Read-Listed w.disk (read_dir bootstrap_dir w)
      (Post-read_dir bootstrap_dir (Read w.disk) w (λ e. refl) (λ there. (refl, refl, there)))

-- What reading a file gave.
abbrev Loaded : Dir → Bytes → Disk → Result Bytes → Disk → Type 0
Loaded dir n d (ok raw) d' = (d' ≡ d) × (file_at d dir n ≡ some (file raw))
Loaded dir n d (err e) d' = d' ≡ d

module _ (x : External) (recovery meta_raw : Bytes) where
  abbrev Kept : List Bytes → Disk → Result Bytes → Disk → Type 0
  Kept names d (ok name) d' =
      (d' ≡ d) × (among name names ≡ true) × Opening x recovery meta_raw name d
  Kept names d (err e) d' = d' ≡ d

  Kept-later :
      (n : Bytes) (ns : List Bytes) (d : Disk) (r : Result Bytes) (d' : Disk)
      → Kept ns d r d'
      → Kept (n ∷ ns) d r d'
  Kept-later n ns d (ok name) d' h = (h.0, ground arith, h.2)
  Kept-later n ns d (err e) d' h = h

  -- What reading a bundle gave.
  abbrev Gave : Bytes → Disk → Result Bytes → Disk → Type 0
  Gave n d (ok exported) d' =
      (d' ≡ d)
      × ((raw : Bytes) × (file_at d bootstrap_dir n ≡ some (file raw))
          × (open_bytes x recovery raw ≡ ok exported))
  Gave n d (err e) d' = d' ≡ d

  Loaded-Gave :
      (n : Bytes) (d : Disk) (p : Result Bytes × World)
      → Loaded bootstrap_dir n d p.0 p.1.disk
      → (let q = continue p (λ raw. lift (open_bytes x recovery raw)) in Gave n d q.0 q.1.disk)
  Loaded-Gave n d (ok raw, w) h = opened (open_bytes x recovery raw) refl
    where
      opened : (o : Result Bytes) → open_bytes x recovery raw ≡ o → Gave n d o w.disk
      opened (ok exported) e = (h.0, (raw, h.1, e))
      opened (err _) e = h.0
  Loaded-Gave n d (err e, w) h = h

  read_bundle-Gave : (n : Bytes) (w : World) → Post (read_bundle x recovery n) w (Gave n w.disk)
  unfolding read_bundle
  read_bundle-Gave n w = Loaded-Gave n w.disk (read_file bootstrap_dir n w) (
      Post-read_file bootstrap_dir n (Loaded bootstrap_dir n w.disk) w (λ e. refl)
        (λ raw at. (refl, at)))

  keep_or-Kept :
      (n : Bytes) (ns : List Bytes) (d : Disk) (r : Result Bytes) (rest : M Bytes) (w : World)
      → file_at d store_root meta_name ≡ some (file meta_raw)
      → d.has_bootstrap ≡ true
      → Gave n d r w.disk
      → (w.disk ≡ d → Post rest w (Kept ns d))
      → Post (keep_or x meta_raw n r rest) w (Kept (n ∷ ns) d)
  keep_or-Kept n ns d (err e) rest w m t g later = Kept-later n ns d _ _ (later g)
  keep_or-Kept n ns d (ok exported) rest w m t g later =
      elim (Bool-cases (identity_opens x exported meta_raw)) [
        | inl opens ↦ rw opens (
          g.0,
          rw (bytes_eq_refl n) refl,
          record {
            raw = g.1.0;
            bundle = g.1.1;
            meta = m;
            fits = rw (g.1.2, bundle_fits) opens;
            there = t;
          },
        )
        | inr shut ↦ rw shut (Kept-later n ns d _ _ (later g.0))
      ]

  find_keep-Kept :
      (names : List Bytes) (d : Disk) (w : World)
      → w.disk ≡ d
      → file_at d store_root meta_name ≡ some (file meta_raw)
      → d.has_bootstrap ≡ true
      → Post (find_keep x recovery meta_raw names) w (Kept names d)
  unfolding find_keep
  find_keep-Kept [] d w e m t = e
  find_keep-Kept (n ∷ ns) d w e m t =
      let (r, w1) = read_bundle x recovery n w in
      keep_or-Kept n ns d r (find_keep x recovery meta_raw ns) w1 m t
        (rw (← e) (read_bundle-Gave n w)) (λ same. find_keep-Kept ns d w1 same m t)

-- The bundles of a store of which the superseded ones have been removed.
pub record IsRetired (x : External) (recovery : Bytes) (d : Disk) : Type 0 where
  pub raw : Bytes
  pub meta_raw : Bytes
  pub bundle : file_at d bootstrap_dir key_bundle_name ≡ some (file raw)
  pub meta : file_at d store_root meta_name ≡ some (file meta_raw)
  pub fits : bundle_fits x recovery raw meta_raw ≡ true
  pub alone :
      (name : Bytes)
      → is_bundle_name name ≡ true
      → bytes_eq name key_bundle_name ≡ false
      → file_at d bootstrap_dir name ≡ none

module _ (x : External) (recovery : Bytes) where
  abbrev pub Pruned : Result (Unit {0}) → Disk → Type 0
  Pruned (ok u) d = IsRetired x recovery d
  Pruned (err e) d = IsOpenable x recovery d

  module _ (meta_raw : Bytes) (d : Disk) where
    -- The names that no bundle of the disk has.
    abbrev unlisted : Bytes → Bool
    unlisted name = is_bundle_name name && not (among name (listed d))

    Left-Pruned :
        (r : Result (Unit {0})) (d' : Disk)
        → Left x recovery meta_raw (λ m. unlisted m || among m (listed d)) r d'
        → Pruned r d'
    Left-Pruned (ok u) d' (o, clear) = record {
      raw = o.raw;
      meta_raw = meta_raw;
      bundle = o.bundle;
      meta = o.meta;
      fits = o.fits;
      alone = λ name b a. clear name a (ground arith);
    }
    Left-Pruned (err e) d' h = h

    unlisted-Cleared : Cleared x recovery meta_raw unlisted d
    unlisted-Cleared name a t = unlisted_missing d name (ground arith) (ground arith)

    remove_promoted_lem :
        (keep : Bytes) (w : World)
        → w.disk ≡ d
        → among keep (listed d) ≡ true
        → Opening x recovery meta_raw keep d
        → Post (promote keep >> remove_others (listed d)) w Pruned
    remove_promoted_lem keep w e k o =
        Post-bind _ (Promoted x recovery meta_raw d) Pruned (promote keep) w
          (rw (← e)
            (promote-Promoted x recovery meta_raw keep w (order_bundles_sound keep _ k) (rw e o)))
          (λ a w1 (o1, none_new). Left-Pruned _ _ (
            remove_others_lem x recovery meta_raw unlisted (listed d) w1 o1
              (λ name b t. none_new name b (unlisted-Cleared name b t))))
          (λ e d h. h)

  -- Some bundle opens the store under the passphrase given. Whichever calls of
  -- PruneSupersededBundles fail: where it returns no error, the current bundle opens the store and
  -- there is no other bundle; where it returns one, some bundle still opens the store.
  pub prune_superseded-Pruned :
      (w : World)
      → IsOpenable x recovery w.disk
      → Post (prune_superseded x store_root recovery) w Pruned
  unfolding prune_superseded
  prune_superseded-Pruned w o =
      Post-bind _ (Listed w.disk) Pruned bundle_paths w (bundle_paths-Listed w)
        (λ names w1 (e1, names_eq, there). rw names_eq (
          Post-bind _ (Loaded store_root meta_name w.disk) Pruned (read_file store_root meta_name)
            w1 (load_meta w1 e1)
            (λ meta_raw w2 (e2, m).
              Post-bind _ (Kept x recovery meta_raw (listed w.disk) w.disk) Pruned
                (find_keep x recovery meta_raw (listed w.disk)) w2
                (find_keep-Kept x recovery meta_raw (listed w.disk) w.disk w2 e2 m there)
                (λ keep w3 (e3, k, opening).
                  remove_promoted_lem meta_raw w.disk keep w3 e3 k opening)
                (λ e d h. rw h o))
            (λ e d h. rw h o)))
        (λ e d h. rw h o)
    where
      load_meta :
          (w1 : World)
          → w1.disk ≡ w.disk
          → Post (read_file store_root meta_name) w1 (Loaded store_root meta_name w.disk)
      load_meta w1 e = rw (← e) (
          Post-read_file store_root meta_name (Loaded store_root meta_name w1.disk) w1 (λ _. refl)
            (λ raw at. (refl, at)))
