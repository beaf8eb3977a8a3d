-- ===== src/Store/Swap.antt =====
-- internal/store/rekey.go, commitRekey: the swap and the removal of the old blobs.
use angou.Prelude.{ℕ, ◌+◌, ◌≡◌, refl, false, some, List, [], ◌∷◌, All, arith}
use angou.Prelude.{Result, ok, err, io_error}
use angou.Prelude.Bytes.{Bytes, bytes_eq}
use angou.External.{External}
use angou.Store.Rekey.{swap, remove_each}
use angou.Store.Rotation.{
  Change, IsRetained, HasBoth, IsAfter, Openable, IsRetained-IsOpenable, IsAfter-IsOpenable,
  Unchanged-IsRetained, Written-HasBoth, moved-IsAfter,
}
use angou.Store.Types.{meta_name, index_name, key_bundle_name}
use angou.World.{
  Dir, store_root, bootstrap_dir, staging_dir, dir_eq, Node, file, Disk, World, file_at, rename,
  create_temp, remove_if_there, write_file_atomic,
}
use angou.World.Atomic.{AtomicWrite, write_file_atomic_lem}
use angou.World.Calls.{
  moved, without, file_at-moved, file_at-without, Post-rename, Post-remove_if_there, IsDead,
  call_dead,
}
use angou.World.Triple.{Post, Post-bind}

index_apart : bytes_eq index_name meta_name ≡ false
unfolding bytes_eq index_name meta_name
index_apart = refl

-- Nothing is swapped any more once the program has been killed.
create_dead :
    (digits : ℕ → Bytes) (dir : Dir) (w : World)
    → IsDead w.schedule
    → create_temp digits dir w ≡ (err io_error, record w { draws = w.draws + 1 })
unfolding create_temp
create_dead digits dir w dead = call_dead _ (record w { draws = w.draws + 1 }) dead

write_dead :
    (digits : ℕ → Bytes) (dir : Dir) (name content : Bytes) (w : World)
    → IsDead w.schedule
    → write_file_atomic digits dir name content w ≡ (err io_error, record w { draws = w.draws + 1 })
unfolding write_file_atomic
write_dead digits dir name content w dead = rw (create_dead digits dir w dead) refl

pub swap_dead :
    (digits : ℕ → Bytes) (bundle : Bytes) (w : World)
    → IsDead w.schedule
    → swap digits staging_dir store_root bundle w ≡ (err io_error, record w { draws = w.draws + 1 })
unfolding swap
swap_dead digits bundle w dead =
    rw (write_dead digits bootstrap_dir key_bundle_name bundle w dead) refl

module _ {x : External} {recovery : Bytes} (c : Change x recovery) where
  -- What the swap leaves.
  abbrev pub Swapped : Result (Unit {0}) → Disk → Type 0
  Swapped (ok u) d = IsAfter c d
  Swapped (err e) d = Openable c d

  abbrev New : Result (Unit {0}) → Disk → Type 0
  New (ok u) d = HasBoth c d
  New (err e) d = Openable c d

  written-New :
      (r : Result (Unit {0})) (d d' : Disk)
      → IsRetained c d
      → AtomicWrite bootstrap_dir key_bundle_name c.new d r d'
      → New r d'
  written-New (ok u) d d' h a = Written-HasBoth c a h
  written-New (err e) d d' h a = IsRetained-IsOpenable c (Unchanged-IsRetained c a h)

  moved_index-IsAfter :
      (node : Node) {d : Disk}
      → IsAfter c d
      → IsAfter c (moved staging_dir index_name store_root index_name node d)
  unfolding dir_eq
  moved_index-IsAfter node {d} h = record {
    bundle = ground (
      arith,
      file_at-moved staging_dir index_name store_root index_name node d bootstrap_dir
          key_bundle_name,
    );
    meta = ground (
      arith,
      index_apart,
      file_at-moved staging_dir index_name store_root index_name node d store_root meta_name,
    );
    there = h.there;
  }

  swap_index_lem :
      (w : World)
      → IsAfter c w.disk
      → Post (rename staging_dir index_name store_root index_name) w Swapped
  swap_index_lem w h =
      Post-rename staging_dir index_name store_root index_name Swapped w
        (λ e. IsAfter-IsOpenable c h) (λ node at. moved_index-IsAfter node h)

  swap_meta_lem :
      (w : World)
      → HasBoth c w.disk
      → Post (rename staging_dir meta_name store_root meta_name) w Swapped
  swap_meta_lem w h =
      Post-rename staging_dir meta_name store_root meta_name Swapped w
        (λ e. IsRetained-IsOpenable c h.retained) (λ node at. taken node (from_staged node at))
    where
      from_staged :
          (node : Node) → file_at w.disk staging_dir meta_name ≡ some node → node ≡ file c.new_meta
      from_staged node at = cc h.retained.staged

      taken :
          (node : Node)
          → node ≡ file c.new_meta
          → IsAfter c (moved staging_dir meta_name store_root meta_name node w.disk)
      taken node e = rw e (moved-IsAfter c h)

  pub swap-Swapped :
      (digits : ℕ → Bytes) (w : World)
      → IsRetained c w.disk
      → Post (swap digits staging_dir store_root c.new) w Swapped
  unfolding swap
  swap-Swapped digits w h =
      Post-bind _ New Swapped (write_file_atomic digits bootstrap_dir key_bundle_name c.new) w
        (written-New _ _ _ h (write_file_atomic_lem digits bootstrap_dir key_bundle_name c.new w))
        (λ a w1 h1.
          Post-bind _ Swapped Swapped (rename staging_dir meta_name store_root meta_name) w1
            (swap_meta_lem w1 h1) (λ b w2 h2. swap_index_lem w2 h2) (λ e d k. k))
        (λ e d k. k)

  without-IsAfter :
      (name : Bytes) {d : Disk}
      → bytes_eq name meta_name ≡ false
      → IsAfter c d
      → IsAfter c (without store_root name d)
  unfolding dir_eq
  without-IsAfter name {d} apart h = record {
    bundle = ground (arith, file_at-without store_root name d bootstrap_dir key_bundle_name);
    meta = ground (arith, file_at-without store_root name d store_root meta_name);
    there = h.there;
  }

  pub remove_each-IsAfter :
      (names : List Bytes) (w : World)
      → IsAfter c w.disk
      → All (λ name. bytes_eq name meta_name ≡ false) names
      → Post (remove_each store_root names) w (λ r d. IsAfter c d)
  unfolding remove_each
  remove_each-IsAfter [] w h apart = h
  remove_each-IsAfter (name ∷ names) w h apart =
      Post-bind _ (λ r d. IsAfter c d) (λ r d. IsAfter c d) (remove_if_there store_root name) w
        (Post-remove_if_there store_root name (λ r d. IsAfter c d) w h (λ missing. h)
          (without-IsAfter name apart.0 h))
        (λ a w1 h1. remove_each-IsAfter names w1 h1 apart.1) (λ e d k. k)
