-- ===== src/World/Atomic.antt =====
-- writeFileAtomic replaces one file whole, or changes no file but temporary ones.
use mathlib.Core.Bool.{not}
use angou.Prelude.{ℕ, ◌+◌, ◌≡◌, refl, Bool, true, false, ◌&&◌, some, [], ◌++◌, arith, if◌then◌else◌}
use angou.Prelude.{Result, ok, err, not_exist, already_exists}
use angou.Prelude.Bytes.{Bytes, has_prefix}
use angou.Prelude.Bytes.Laws.{bytes_eq_iff, has_prefix-append}
use angou.World.{
  Dir, file, Disk, World, file_at, temp_prefix, create_temp, touch, write_temp, commit_temp, remove,
  rename, put_file, has_dir, present, move_node, remove_entry, insert_entry, write_file_atomic,
  ◌>>◌,
}
use angou.World.Files.{same_file, find-insert_entry, find-remove_entry, dir_eq_iff}
use angou.World.Triple.{Post, Post-call, Post-bind}

abbrev pub is_temp : Bytes → Bool
is_temp name = has_prefix name temp_prefix

-- The same files, but for temporary ones, and the same directories.
pub record Unchanged (d d' : Disk) : Type 0 where
  pub files :
      (dir : Dir) (name : Bytes) → is_temp name ≡ false → file_at d' dir name ≡ file_at d dir name
  pub root : d'.has_root ≡ d.has_root
  pub bootstrap : d'.has_bootstrap ≡ d.has_bootstrap
  pub staging : d'.has_staging ≡ d.has_staging

-- The file at one name holds `content`, and nothing else has changed but temporary files.
pub record Written (at : Dir) (as_name : Bytes) (content : Bytes) (d d' : Disk) : Type 0 where
  pub files :
      (dir : Dir) (name : Bytes)
      → is_temp name ≡ false
      → file_at d' dir name
        ≡ (if same_file at as_name dir name then some (file content) else file_at d dir name)
  pub root : d'.has_root ≡ d.has_root
  pub bootstrap : d'.has_bootstrap ≡ d.has_bootstrap
  pub staging : d'.has_staging ≡ d.has_staging

abbrev pub AtomicWrite : Dir → Bytes → Bytes → Disk → Result (Unit {0}) → Disk → Type 0
AtomicWrite dir name content d (ok u) d' = Written dir name content d d'
AtomicWrite dir name content d (err e) d' = Unchanged d d'

Unchanged-refl : (d : Disk) → Unchanged d d
Unchanged-refl d = record {
  files = λ dir name h. refl;
  root = refl;
  bootstrap = refl;
  staging = refl;
}

put_temp-Unchanged :
    (d d' : Disk) (dir : Dir) (tmp content : Bytes)
    → is_temp tmp ≡ true
    → Unchanged d d'
    → Unchanged d (put_file dir tmp content d')
unfolding file_at
put_temp-Unchanged d d' dir tmp content t u = record {
  files = λ dir' name h. ground (
    arith,
    find-insert_entry dir' name (record { dir = dir; name = tmp; node = file content }) d'.entries,
    u.files dir' name,
    bytes_eq_iff tmp name,
  );
  root = u.root;
  bootstrap = u.bootstrap;
  staging = u.staging;
}

file_at-put_file :
    (d : Disk) (dir : Dir) (name content : Bytes)
    → file_at (put_file dir name content d) dir name ≡ some (file content)
unfolding file_at
file_at-put_file d dir name content = ground (
  arith,
  find-insert_entry dir name (record { dir = dir; name = name; node = file content }) d.entries,
  bytes_eq_iff name name,
  dir_eq_iff dir dir,
)

module _ (dir : Dir) (name content : Bytes) (d : Disk) where
  -- A removed temporary file leaves either outcome as it was.
  drop_temp-AtomicWrite :
      (r : Result (Unit {0})) (tmp : Bytes) (d' : Disk)
      → is_temp tmp ≡ true
      → AtomicWrite dir name content d r d'
      → AtomicWrite dir name content d r (record d' { entries = remove_entry dir tmp d'.entries })
  unfolding file_at
  drop_temp-AtomicWrite (ok _) tmp d' t u = record {
    files = λ dir' name' h. ground (
      arith,
      find-remove_entry dir' name' dir tmp d'.entries,
      u.files dir' name',
      bytes_eq_iff tmp name',
    );
    root = u.root;
    bootstrap = u.bootstrap;
    staging = u.staging;
  }
  drop_temp-AtomicWrite (err _) tmp d' t u = record {
    files = λ dir' name' h. ground (
      arith,
      find-remove_entry dir' name' dir tmp d'.entries,
      u.files dir' name',
      bytes_eq_iff tmp name',
    );
    root = u.root;
    bootstrap = u.bootstrap;
    staging = u.staging;
  }

  -- The rename puts the temporary file's content under the name.
  rename_temp-Written :
      (tmp : Bytes) (d' : Disk)
      → is_temp tmp ≡ true
      → Unchanged d d'
      → Written dir name content d (record d' {
        entries =
            insert_entry
              (record { dir = dir; name = name; node = file content })
              (remove_entry dir tmp d'.entries);
      })
  unfolding file_at
  rename_temp-Written tmp d' t u = record {
    files = λ dir' name' h. ground (
      arith,
      find-insert_entry dir' name' (record { dir = dir; name = name; node = file content })
          (remove_entry dir tmp d'.entries),
      find-remove_entry dir' name' dir tmp d'.entries,
      u.files dir' name',
      bytes_eq_iff tmp name',
    );
    root = u.root;
    bootstrap = u.bootstrap;
    staging = u.staging;
  }

  touch_lem : (P : Disk → Type 0) (w : World) → P w.disk → Post touch w (λ r d'. P d')
  unfolding touch
  touch_lem P w h = Post-call _ (λ r d'. P d') w h h

  rename_lem :
      (tmp : Bytes) (w : World)
      → is_temp tmp ≡ true
      → Unchanged d w.disk
      → file_at w.disk dir tmp ≡ some (file content)
      → Post (rename dir tmp dir name) w (AtomicWrite dir name content d)
  unfolding rename
  rename_lem tmp w t u at =
      Post-call _ (AtomicWrite dir name content d) w u (done (has_dir w.disk dir))
    where
      done :
          (b : Bool)
          → (let p =
                (if b
                  then move_node (file_at w.disk dir tmp) dir tmp dir name w.disk
                  else (err not_exist, w.disk)) in
              AtomicWrite dir name content d p.0 p.1)
      done true = rw at (rename_temp-Written tmp w.disk t u)
      done false = u

  -- The temporary file holds the content, and nothing else has changed.
  abbrev IsStaged : Bytes → Disk → Type 0
  IsStaged tmp d' = Unchanged d d' × (file_at d' dir tmp ≡ some (file content))

  abbrev StagedIfOk : Bytes → Result (Unit {0}) → Disk → Type 0
  StagedIfOk tmp (ok _) d' = IsStaged tmp d'
  StagedIfOk tmp (err _) d' = Unchanged d d'

  write_temp_lem :
      (tmp : Bytes) (w : World)
      → is_temp tmp ≡ true
      → Unchanged d w.disk
      → Post (write_temp dir tmp content) w (StagedIfOk tmp)
  unfolding write_temp
  write_temp_lem tmp w t u =
      Post-call _ (StagedIfOk tmp) w u
        (put_temp-Unchanged d w.disk dir tmp content t u, file_at-put_file w.disk dir tmp content)

  seal_temp_lem :
      (tmp : Bytes) (w : World)
      → is_temp tmp ≡ true
      → IsStaged tmp w.disk
      → Post (touch >> (touch >> rename dir tmp dir name)) w (AtomicWrite dir name content d)
  seal_temp_lem tmp w t s =
      Post-bind _ (λ r d'. IsStaged tmp d') (AtomicWrite dir name content d) touch w
        (touch_lem (IsStaged tmp) w s)
        (λ _ w1 s1.
          Post-bind _ (λ r d'. IsStaged tmp d') (AtomicWrite dir name content d) touch w1
            (touch_lem (IsStaged tmp) w1 s1) (λ _ w2 s2. rename_lem tmp w2 t s2.0 s2.1)
            (λ e d' h. h.0))
        (λ e d' h. h.0)

  commit_temp_lem :
      (tmp : Bytes) (w : World)
      → is_temp tmp ≡ true
      → Unchanged d w.disk
      → Post (commit_temp dir tmp name content) w (AtomicWrite dir name content d)
  unfolding commit_temp
  commit_temp_lem tmp w t u =
      Post-bind _ (λ r d'. Unchanged d d') (AtomicWrite dir name content d) touch w
        (touch_lem (Unchanged d) w u)
        (λ _ w1 u1.
          Post-bind _ (StagedIfOk tmp) (AtomicWrite dir name content d) (write_temp dir tmp content)
            w1 (write_temp_lem tmp w1 t u1) (λ _ w2 s2. seal_temp_lem tmp w2 t s2) (λ e d' h. h))
        (λ e d' h. h)

  -- The deferred removal of the temporary file, after any outcome.
  cleanup_lem :
      (tmp : Bytes) (p : Result (Unit {0}) × World)
      → is_temp tmp ≡ true
      → AtomicWrite dir name content d p.0 p.1.disk
      → AtomicWrite dir name content d p.0 (remove dir tmp p.1).1.disk
  unfolding remove
  cleanup_lem tmp (r, w) t h =
      Post-call _ (λ _ d'. AtomicWrite dir name content d r d') w h
        (removed (present (file_at w.disk dir tmp)))
    where
      removed :
          (b : Bool)
          → (let p : Result (Unit {0}) × Disk =
                (if b
                  then (ok tt, record w.disk { entries = remove_entry dir tmp w.disk.entries })
                  else (err not_exist, w.disk)) in
              AtomicWrite dir name content d r p.1)
      removed true = drop_temp-AtomicWrite r tmp w.disk t h
      removed false = h

module _ (digits : ℕ → Bytes) (dir : Dir) (name content : Bytes) where
  abbrev NamedTemp : Disk → Result Bytes → Disk → Type 0
  NamedTemp d (ok tmp) d' = Unchanged d d' × (is_temp tmp ≡ true)
  NamedTemp d (err e) d' = Unchanged d d'

  create_temp_lem : (w : World) → Post (create_temp digits dir) w (NamedTemp w.disk)
  unfolding create_temp
  create_temp_lem w =
      Post-call _ (NamedTemp w.disk) (record w { draws = w.draws + 1 }) (Unchanged-refl w.disk)
        (made (
          has_dir w.disk dir && not (present (file_at w.disk dir (temp_prefix ++ digits w.draws)))))
    where
      made :
          (b : Bool)
          → (let p : Result Bytes × Disk =
                (if b
                  then (
                    ok (temp_prefix ++ digits w.draws),
                    put_file dir (temp_prefix ++ digits w.draws) [] w.disk,
                  )
                  else (err already_exists, w.disk)) in
              NamedTemp w.disk p.0 p.1)
      made true = (
        put_temp-Unchanged w.disk w.disk dir (temp_prefix ++ digits w.draws) []
            (has_prefix-append temp_prefix (digits w.draws)) (Unchanged-refl w.disk),
        has_prefix-append temp_prefix (digits w.draws),
      )
      made false = Unchanged-refl w.disk

  -- Whichever calls fail: when writeFileAtomic returns no error, the named file holds the content
  -- and every other file is what it was; when it returns one, every file is what it was.
  -- Temporary files are left out of both.
  pub write_file_atomic_lem :
      (w : World)
      → AtomicWrite dir name content w.disk
          (write_file_atomic digits dir name content w).0
          (write_file_atomic digits dir name content w).1.disk
  unfolding write_file_atomic
  write_file_atomic_lem w =
      Post-bind _ (NamedTemp w.disk) (AtomicWrite dir name content w.disk) (create_temp digits dir)
        w (create_temp_lem w)
        (λ tmp w1 h.
          cleanup_lem dir name content w.disk tmp (commit_temp dir tmp name content w1) h.1
            (commit_temp_lem dir name content w.disk tmp w1 h.1 h.0))
        (λ e d' h. h)
