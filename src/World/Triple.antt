-- ===== src/World/Triple.antt =====
-- Rules for what an action leaves behind, whichever of its calls fail.
use angou.Prelude.{List, [], ◌∷◌}
use angou.Prelude.{Result, ok, err, Error, io_error}
use angou.World.{World, Fate, works, fails, dies, Disk, M, continue, ◌>>=◌, call, outcome}

-- `Q` holds of the result of `m` in `w` and of the disk that `m` leaves.
abbrev pub Post {ℓ} : {A : Type ℓ} → M A → World → (Result A → Disk → Type 0) → Type 0
Post m w Q = Q (m w).0 (m w).1.disk

module _ {ℓ} {A : Type ℓ} (act : Disk → Result A × Disk) (Q : Result A → Disk → Type 0) where
  Post-outcome :
      (s : List Fate) (w : World)
      → Q (err io_error) w.disk
      → Q (act w.disk).0 (act w.disk).1
      → Q (outcome act s w).0 (outcome act s w).1.disk
  Post-outcome [] w failed done = done
  Post-outcome (works ∷ s) w failed done = done
  Post-outcome (fails ∷ s) w failed done = failed
  Post-outcome (dies ∷ s) w failed done = failed

  -- A call has failed and left the disk alone, or done what it does.
  pub Post-call :
      (w : World) → Q (err io_error) w.disk → Q (act w.disk).0 (act w.disk).1 → Post (call act) w Q
  Post-call w failed done = Post-outcome w.schedule w failed done

module _ {ℓ κ} {A : Type ℓ} {B : Type κ} (f : A → M B) (R : Result A → Disk → Type 0)
    (Q : Result B → Disk → Type 0) where
  Post-continue :
      (p : Result A × World)
      → R p.0 p.1.disk
      → ((a : A) (w : World) → R (ok a) w.disk → Post (f a) w Q)
      → ((e : Error) (d : Disk) → R (err e) d → Q (err e) d)
      → Q (continue p f).0 (continue p f).1.disk
  Post-continue (ok a, w) h next stop = next a w h
  Post-continue (err e, w) h next stop = stop e w.disk h

  -- What `m` leaves is what the rest starts from; if `m` fails, the rest is not run.
  pub Post-bind :
      (m : M A) (w : World)
      → Post m w R
      → ((a : A) (w : World) → R (ok a) w.disk → Post (f a) w Q)
      → ((e : Error) (d : Disk) → R (err e) d → Q (err e) d)
      → Post (m >>= f) w Q
  Post-bind m w h next stop = Post-continue (m w) h next stop
