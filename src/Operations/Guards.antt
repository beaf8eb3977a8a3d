-- ===== src/Operations/Guards.antt =====
-- internal/core/ops.go, RestoreToOrigin: when it writes, and what.
use mathlib.Core.List.{append_assoc}
use angou.Prelude.{
  ◌≡◌, ◌⊎◌, inl, inr, refl, Bool, true, false, ◌||◌, Bool-cases, Option, none, some, List, [], ◌∷◌,
  ◌++◌, arith,
}
use angou.Prelude.{Result, ok, err, Error}
use angou.Prelude.Bytes.{Bytes}
use angou.Envelope.{Envelope}
use angou.Operations.{Decider}
use angou.Operations.Restore.{
  Found, regular_file, symbolic_link, other_file, Effect, make_dirs, write_file, change_mode,
  Machine, Ext, continue, perform, perm, write_to, existing, looked, looked_or_failed, lstat,
  done_or_failed, restore_question, replace_question, agreed, restore_to_origin,
}

continue_lem :
    {A B : Type 0} (f : A → Ext B) (R : Result A × Machine → Type 0)
    (Q : Result B × Machine → Type 0) (p : Result A × Machine)
    → R p
    → ((a : A) (m : Machine) → R (ok a, m) → Q (f a m))
    → ((e : Error) (m : Machine) → R (err e, m) → Q (err e, m))
    → Q (continue p f)
continue_lem f R Q (ok a, m) h next stop = next a m h
continue_lem f R Q (err e, m) h next stop = stop e m h

-- The effect stands behind what has been done before, if the call did not fail.
abbrev Performed : List Effect → Effect → Result (Unit {0}) × Machine → Type 0
Performed before e (ok u, m') = m'.effects ≡ before ++ (e ∷ [])
Performed before e (err x, m') = Unit

perform_lem : (e : Effect) (m : Machine) → Performed m.effects e (perform e m)
unfolding perform
perform_lem e m = by_schedule m.failing
  where
    by_schedule : (l : List Bool) → Performed m.effects e (done_or_failed e l m)
    by_schedule [] = refl
    by_schedule (true ∷ l) = tt
    by_schedule (false ∷ l) = refl

module _ (is_abs : Bytes → Bool) (dir_of : Bytes → Bytes) (env : Envelope) (overwrite : Bool)
    (d : Decider) (m : Machine) where
  -- Lstat is the first of the calls.
  abbrev pub FirstFails : List Bool → Type 0
  FirstFails [] = ⊥
  FirstFails (true ∷ rest) = Unit
  FirstFails (false ∷ rest) = ⊥

  -- Lstat fails, or nothing stands at the origin; or a file that the answers allow to replace.
  abbrev pub MayReplace : Type 0
  MayReplace =
      FirstFails m.failing
      ⊎ ((m.found env.origin ≡ none)
          ⊎ ((m.found env.origin ≡ some regular_file)
              × ((overwrite || d (replace_question env)) ≡ true)))

  pub record IsAllowed : Type 0 where
    pub absolute : is_abs env.origin ≡ true
    pub free : MayReplace
    pub wanted : d (restore_question env) ≡ true

  agreed_wanted :
      (exists : Bool) {u : Unit {0}}
      → agreed env overwrite d exists ≡ ok u
      → d (restore_question env) ≡ true
  unfolding agreed
  agreed_wanted exists h = ground arith

  agreed_replace :
      {u : Unit {0}}
      → agreed env overwrite d true ≡ ok u
      → (overwrite || d (replace_question env)) ≡ true
  unfolding agreed
  agreed_replace h = ground arith

  free_found :
      (o : Option Found) (exists : Bool) {u : Unit {0}}
      → m.found env.origin ≡ o
      → existing (looked o) ≡ ok exists
      → agreed env overwrite d exists ≡ ok u
      → MayReplace
  free_found none exists e x h = inr (inl e)
  free_found (some regular_file) true e x h = inr (inr (e, agreed_replace h))
  free_found (some regular_file) false e x h = cc
  free_found (some symbolic_link) exists e x h = cc
  free_found (some other_file) exists e x h = cc

  -- What Lstat left: nothing has been done yet.
  abbrev Looked : Result Found × Machine → Type 0
  Looked (r, m') =
      (m'.effects ≡ m.effects)
      × ((exists : Bool) (u : Unit {0})
          → existing r ≡ ok exists
          → agreed env overwrite d exists ≡ ok u
          → MayReplace)

  lstat-Looked : Looked (lstat env.origin m)
  unfolding lstat
  lstat-Looked = by_schedule m.failing refl
    where
      by_schedule :
          (l : List Bool) → m.failing ≡ l → Looked (looked_or_failed (m.found env.origin) l m)
      by_schedule [] e = (refl, λ exists u x h. free_found (m.found env.origin) exists refl x h)
      by_schedule (true ∷ l) e = (refl, λ exists u x h. inl (rw e tt))
      by_schedule (false ∷ l) e =
          (refl, λ exists u x h. free_found (m.found env.origin) exists refl x h)

  -- What has been done when the three steps have been taken.
  abbrev pub steps : List Effect
  steps =
      make_dirs (dir_of env.origin)
      ∷ write_file env.origin env.content (perm env.mode)
      ∷ change_mode env.origin (perm env.mode)
      ∷ []

  abbrev pub Outcome : Result Bytes × Machine → Type 0
  Outcome (ok target, m') = IsAllowed × (target ≡ env.origin) × (m'.effects ≡ m.effects ++ steps)
  Outcome (err e, m') = (m'.effects ≡ m.effects) ⊎ IsAllowed

  -- What follows the answers.
  abbrev finish : Ext Bytes
  finish m0 =
      continue (perform (make_dirs (dir_of env.origin)) m0)
        (λ _ m1. continue (write_to env.origin env m1) (λ _ m2. (ok env.origin, m2)))

  steps_lem : (m0 : Machine) → m0.effects ≡ m.effects → IsAllowed → Outcome (finish m0)
  unfolding write_to
  steps_lem m0 e a =
      continue_lem _ (Performed m0.effects (make_dirs (dir_of env.origin))) Outcome
        (perform (make_dirs (dir_of env.origin)) m0) (perform_lem _ m0)
        (λ _ m1 h1.
          continue_lem _ Written Outcome (write_to env.origin env m1) (written m1 h1)
            (λ _ m2 h2. (a, refl, h2)) (λ x m2 h2. inr a))
        (λ x m1 h1. inr a)
    where
      Written : Result (Unit {0}) × Machine → Type 0
      Written (ok u, m2) = m2.effects ≡ m.effects ++ steps
      Written (err x, m2) = Unit

      all_done :
          (m1 : Machine)
          → m1.effects ≡ m0.effects ++ (make_dirs (dir_of env.origin) ∷ [])
          → (m2 : Machine)
          → m2.effects ≡ m1.effects ++ (write_file env.origin env.content (perm env.mode) ∷ [])
          → (p : Result (Unit {0}) × Machine)
          → Performed m2.effects (change_mode env.origin (perm env.mode)) p
          → Written p
      all_done m1 h1 m2 h2 (ok u, m3) h3 = simp (h3, h2, h1, e, append_assoc)
      all_done m1 h1 m2 h2 (err x, m3) h3 = tt

      written :
          (m1 : Machine)
          → m1.effects ≡ m0.effects ++ (make_dirs (dir_of env.origin) ∷ [])
          → Written (write_to env.origin env m1)
      written m1 h1 =
          continue_lem _ (Performed m1.effects (write_file env.origin env.content (perm env.mode)))
            Written (perform (write_file env.origin env.content (perm env.mode)) m1)
            (perform_lem _ m1)
            (λ _ m2 h2.
              all_done m1 h1 m2 h2 (perform (change_mode env.origin (perm env.mode)) m2)
                (perform_lem _ m2))
            (λ x m2 h2. tt)

  agreed_lem :
      (exists : Bool) (m0 : Machine) (r : Result (Unit {0}))
      → m0.effects ≡ m.effects
      → is_abs env.origin ≡ true
      → ((u : Unit {0}) → agreed env overwrite d exists ≡ ok u → MayReplace)
      → agreed env overwrite d exists ≡ r
      → Outcome (continue (r, m0) (λ _. finish))
  agreed_lem exists m0 (ok u) s a x g =
      steps_lem m0 s (record { absolute = a; free = x u g; wanted = agreed_wanted exists g })
  agreed_lem exists m0 (err e) s a x g = inl s

  found_lem :
      (p : Result Found × Machine)
      → is_abs env.origin ≡ true
      → Looked p
      → Outcome (
          continue
            (existing p.0, p.1)
            (λ exists m'. continue (agreed env overwrite d exists, m') (λ _. finish)))
  found_lem (r, m0) a (s, free) = by_existing (existing r) refl
    where
      by_existing :
          (b : Result Bool)
          → existing r ≡ b
          → Outcome (
              continue
                (b, m0)
                (λ exists m'. continue (agreed env overwrite d exists, m') (λ _. finish)))
      by_existing (ok exists) e =
          agreed_lem exists m0 (agreed env overwrite d exists) s a (λ u h. free exists u e h) refl
      by_existing (err x) e = inl s

  -- RestoreToOrigin writes only where it may: if the recorded location is absolute, if the answer to
  -- the first question is yes, and if there is nothing at that location, or a regular file and
  -- either the overwrite flag or a yes to the question whether to replace it, or if the Lstat of the
  -- location has failed, whatever is there. Otherwise it returns an error and nothing has been done.
  -- Whichever calls fail: where it returns no error, it returns the location, and the directories
  -- have been made, the content written and the mode set, in that order.
  pub restore_to_origin_lem : Outcome (restore_to_origin is_abs dir_of env overwrite d m)
  unfolding restore_to_origin perform write_to agreed lstat
  restore_to_origin_lem = elim (Bool-cases (is_abs env.origin)) [
    | inl a ↦ rw a (found_lem (lstat env.origin m) a lstat-Looked)
    | inr a ↦ rw a (inl refl)
  ]
