-- ===== src/World/Shrinks.antt =====
-- Programs that take files away and make none.
use angou.Prelude.{◌≡◌, refl, Bool, true, false, none, ◌∙◌, if◌then◌else◌}
use angou.Prelude.{Result, ok, err}
use angou.Prelude.Bytes.{Bytes}
use angou.World.{World, Dir, Disk, file_at, remove, remove_if_there}
use angou.World.Calls.{without, file_at-without, Post-remove, Post-remove_if_there}
use angou.World.Files.{dir_eq_refl}
use angou.World.Triple.{Post}
use angou.Prelude.Bytes.Laws.{bytes_eq_refl}

-- What is not there before is not there afterwards.
abbrev pub Shrinks : Disk → Disk → Type 0
Shrinks d d' = (at : Dir) (this : Bytes) → file_at d at this ≡ none → file_at d' at this ≡ none

pub Shrinks-refl : (d : Disk) → Shrinks d d
Shrinks-refl d at this h = h

pub Shrinks-trans : (a b c : Disk) → Shrinks a b → Shrinks b c → Shrinks a c
Shrinks-trans a b c f g at this h = g at this (f at this h)

pub without-Shrinks : (dir : Dir) (name : Bytes) (d : Disk) → Shrinks d (without dir name d)
without-Shrinks dir name d at this h = file_at-without dir name d at this ∙ either _ h
  where
    either : (b : Bool) → file_at d at this ≡ none → (if b then none else file_at d at this) ≡ none
    either true h = refl
    either false h = h

pub without_gone :
    (dir : Dir) (name : Bytes) (d : Disk) → file_at (without dir name d) dir name ≡ none
without_gone dir name d =
    file_at-without dir name d dir name ∙ rw (dir_eq_refl dir, bytes_eq_refl name) refl

-- A removal makes no file, and where it returns no error, the file is gone.
abbrev pub Gone : Dir → Bytes → Disk → Result (Unit {0}) → Disk → Type 0
Gone dir name d (ok u) d' = Shrinks d d' × (file_at d' dir name ≡ none)
Gone dir name d (err e) d' = Shrinks d d'

module _ (dir : Dir) (name : Bytes) (w : World) where
  pub remove-Gone : Post (remove dir name) w (Gone dir name w.disk)
  remove-Gone =
      Post-remove dir name (Gone dir name w.disk) w (Shrinks-refl w.disk) (λ e. Shrinks-refl w.disk)
        (without-Shrinks dir name w.disk, without_gone dir name w.disk)

  pub remove_if_there-Gone : Post (remove_if_there dir name) w (Gone dir name w.disk)
  remove_if_there-Gone =
      Post-remove_if_there dir name (Gone dir name w.disk) w (Shrinks-refl w.disk)
        (λ e. (Shrinks-refl w.disk, e))
        (without-Shrinks dir name w.disk, without_gone dir name w.disk)
