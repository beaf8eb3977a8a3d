-- ===== src/Store/Commit.antt =====
-- internal/store/rekey.go, commitRekey: each of its steps, whenever the program is killed.
use angou.Prelude.{
  ℕ, ◌≡◌, ◌⊎◌, inl, inr, Bool, false, ◌||◌, Bool-cases, some, List, [], ◌∷◌, All, arith,
  if◌then◌else◌,
}
use angou.Prelude.{Result, ok, err, not_exist}
use angou.Prelude.Bytes.{Bytes, bytes_eq}
use angou.External.{External}
use angou.Store.Core.{Store}
use angou.Store.Rekey.{
  is_swapped_later, move_staged, superseded_name, retain_if, retain_bundle, swap, remove_each,
  commit_rekey,
}
use angou.Store.Rotation.{
  Change, IsBefore, IsRetained, Openable, IsBefore-IsOpenable, IsAfter-IsOpenable, moved-IsBefore,
  moved-IsRetained,
}
use angou.Store.Scan.{is_folder}
use angou.Store.Types.{meta_name, key_bundle_name}
use angou.World.{
  store_root, bootstrap_dir, staging_dir, Node, file, Entry, Disk, World, file_at, rename, stat,
  present, has_dir, read_dir, continue, ◌>>◌,
}
use angou.World.Calls.{
  moved, Post-rename, IsOnlyKilled, call-IsOnlyKilled, continue_lem, IsDead, call_killed,
}
use angou.World.Triple.{Post, Post-call, Post-bind}
use angou.Store.Swap.{Swapped, swap-Swapped, swap_dead, remove_each-IsAfter}

module _ {x : External} {recovery : Bytes} (c : Change x recovery) where
  -- The state before the swap, in a world where nothing worse happens than that the program is killed.
  abbrev Waiting : World → Type 0
  Waiting w = IsBefore c w.disk × IsOnlyKilled w.schedule

  abbrev OpenAfter : {A : Type 0} → Result A → World → Type 0
  OpenAfter r w = Openable c w.disk

  read_staged-Waiting : (w : World) → Waiting w → Waiting (read_dir staging_dir w).1
  unfolding read_dir
  read_staged-Waiting w h = (
    Post-call _ (λ r d. IsBefore c d) w h.0 (same (has_dir w.disk staging_dir)),
    call-IsOnlyKilled _ w h.1,
  )
    where
      same : (b : Bool) → IsBefore c w.disk
      same b = h.0

  rename_staged-Waiting :
      (name : Bytes) (w : World)
      → is_swapped_later name ≡ false
      → Waiting w
      → Waiting (rename staging_dir name store_root name w).1
  unfolding rename
  rename_staged-Waiting name w other h = (
    unfold rename in
        Post-rename staging_dir name store_root name (λ r d. IsBefore c d) w (λ e. h.0)
          (λ node at. moved-IsBefore c name node other h.0),
    call-IsOnlyKilled _ w h.1,
  )

  or_apart : (a b : Bool) → (a || b) ≡ false → b ≡ false
  or_apart a b h = ground arith

  move_staged-Waiting :
      (es : List Entry) (w : World)
      → Waiting w
      → Waiting (move_staged staging_dir store_root es w).1
  unfolding move_staged
  move_staged-Waiting [] w h = h
  move_staged-Waiting (e ∷ es) w h =
      elim (Bool-cases (is_folder e.node || is_swapped_later e.name)) [
        | inl later ↦ rw later (move_staged-Waiting es w h)
        | inr other ↦ rw other (
            continue_lem (λ _. move_staged staging_dir store_root es) (λ r w'. Waiting w')
              (λ r w'. Waiting w') (rename staging_dir e.name store_root e.name w)
              (rename_staged-Waiting e.name w (or_apart _ _ other) h)
              (λ a w' k. move_staged-Waiting es w' k) (λ _ w' k. k))
      ]

  -- What retaining the bundle leaves: it is retained, or the program has been killed.
  abbrev Retained : Result (Unit {0}) → World → Type 0
  Retained (ok u) w = IsRetained c w.disk ⊎ (IsBefore c w.disk × IsDead w.schedule)
  Retained (err e) w = Openable c w.disk

  abbrev Moved : Result (Unit {0}) → Disk → Type 0
  Moved (ok u) d = IsRetained c d
  Moved (err e) d = Openable c d

  Moved-Retained : (p : Result (Unit {0}) × World) → Moved p.0 p.1.disk → Retained p.0 p.1
  Moved-Retained (ok u, w) h = inl h
  Moved-Retained (err e, w) h = h

  retain-Moved :
      (w : World)
      → IsBefore c w.disk
      → Post (rename bootstrap_dir key_bundle_name bootstrap_dir (superseded_name c.fp)) w Moved
  retain-Moved w h =
      Post-rename bootstrap_dir key_bundle_name bootstrap_dir (superseded_name c.fp) Moved w
        (λ e. IsBefore-IsOpenable c h) (λ node at. taken node (at_current node at))
    where
      at_current :
          (node : Node)
          → file_at w.disk bootstrap_dir key_bundle_name ≡ some node
          → node ≡ file c.cur
      at_current node at = cc h.bundle

      taken :
          (node : Node)
          → node ≡ file c.cur
          → IsRetained c
              (moved bootstrap_dir key_bundle_name bootstrap_dir (superseded_name c.fp) node w.disk)
      taken node e = rw e (moved-IsRetained c h)

  retain_bundle-Retained :
      (w : World) → Waiting w → (let p = retain_bundle (superseded_name c.fp) w in Retained p.0 p.1)
  unfolding retain_bundle stat
  retain_bundle-Retained w h =
      call_killed _ w (λ r w'. let p = retain_if r (superseded_name c.fp) w' in Retained p.0 p.1)
        h.1 (λ dead. inr (h.0, dead)) (λ w' same. found w' same)
    where
      moved_from :
          (w' : World)
          → w'.disk ≡ w.disk
          → (let p = retain_if (ok tt) (superseded_name c.fp) w' in Retained p.0 p.1)
      moved_from w' same =
          Moved-Retained (retain_if (ok tt) (superseded_name c.fp) w')
            (retain-Moved w' (rw same h.0))

      found :
          (w' : World)
          → w'.disk ≡ w.disk
          → (let p =
                retain_if
                  (if present (file_at w.disk bootstrap_dir key_bundle_name)
                    then ok tt
                    else err not_exist)
                  (superseded_name c.fp)
                  w' in
              Retained p.0 p.1)
      found w' same = rw h.0.bundle (moved_from w' same)

  -- The swap and what follows it, on what retaining the bundle left.
  finish_lem :
      (digits : ℕ → Bytes) (names : List Bytes) (w : World)
      → Retained (ok tt) w
      → All (λ name. bytes_eq name meta_name ≡ false) names
      → Post
          (swap digits staging_dir store_root c.new >> remove_each store_root names)
          w
          (λ r d. Openable c d)
  finish_lem digits names w (inl h) apart =
      Post-bind _ (Swapped c) (λ r d. Openable c d) (swap digits staging_dir store_root c.new) w
        (swap-Swapped c digits w h)
        (λ a w1 h1. IsAfter-IsOpenable c (remove_each-IsAfter c names w1 h1 apart)) (λ e d k. k)
  finish_lem digits names w (inr (h, dead)) apart =
      rw (swap_dead digits c.new w dead) (IsBefore-IsOpenable c h)

-- What stands behind the swap's moves: whenever the program is killed, some bundle opens.
pub commit_lem :
    {x : External} {recovery : Bytes} (c : Change x recovery) (s : Store x) (names : List Bytes)
    (w : World)
    → s.root ≡ store_root
    → x.fingerprint s.identity ≡ c.fp
    → IsBefore c w.disk
    → IsOnlyKilled w.schedule
    → All (λ name. bytes_eq name meta_name ≡ false) names
    → Openable c (commit_rekey x s staging_dir c.new names w).1.disk
unfolding commit_rekey
commit_lem {x} c s names w root fp before killed apart =
    rw (root, fp)
      (continue_lem _ (λ _ w'. Waiting c w') (λ r w'. Openable c w'.disk) (read_dir staging_dir w)
        (read_staged-Waiting c w (before, killed))
        (λ entries w1 h1.
          continue_lem _ (λ _ w'. Waiting c w') (λ r w'. Openable c w'.disk)
            (move_staged staging_dir store_root entries w1) (move_staged-Waiting c entries w1 h1)
            (λ a w2 h2.
              continue_lem _ (Retained c) (λ r w'. Openable c w'.disk)
                (retain_bundle (superseded_name c.fp) w2) (retain_bundle-Retained c w2 h2)
                (λ b w3 h3. after_retained b w3 h3) (λ e w' k. k))
            (λ e w' k. IsBefore-IsOpenable c k.0))
        (λ e w' k. IsBefore-IsOpenable c k.0))
  where
    after_retained :
        (b : Unit {0}) (w3 : World)
        → Retained c (ok b) w3
        → Openable c
            (continue
              (swap x.temp_digits staging_dir store_root c.new w3)
              (λ _. remove_each store_root names)).1.disk
    after_retained b w3 h3 = finish_lem c x.temp_digits names w3 h3 apart
