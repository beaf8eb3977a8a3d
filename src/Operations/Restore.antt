-- ===== src/Operations/Restore.antt =====
-- internal/core/ops.go: WriteTo and RestoreToOrigin.
use angou.Prelude.{
  ℕ, ◌%◌, Bool, true, false, not, ◌&&◌, Option, none, some, List, [], ◌∷◌, ◌++◌, if◌then◌else◌,
}
use angou.Prelude.{Result, ok, err, bad_path, unsafe_extract, not_exist, declined, io_error, guard}
use angou.Prelude.Bytes.{Bytes}
use angou.Envelope.{Envelope}
use angou.Operations.{restore_to, replace, Decision, Decider}

-- What Lstat says of a path that is there.
pub data Found : Type 0 where
  regular_file symbolic_link other_file : Found

pub data Effect : Type 0 where
  make_dirs : Bytes → Effect
  write_file : Bytes → Bytes → ℕ → Effect
  change_mode : Bytes → ℕ → Effect

-- The machine's files outside the store: what is where, which calls are to fail, Lstat among them,
-- and what has been done so far, the first first.
pub record Machine : Type 0 where
  pub found : Bytes → Option Found
  pub failing : List Bool
  pub effects : List Effect

abbrev pub Ext : Type 0 → Type 0
Ext A = Machine → Result A × Machine

abbrev pub continue : {A B : Type 0} → Result A × Machine → (A → Ext B) → Result B × Machine
continue (ok a, m) f = f a m
continue (err e, m) f = (err e, m)

infixl 5 ◌>>=◌ ◌>>◌
abbrev pub ◌>>=◌ : {A B : Type 0} → Ext A → (A → Ext B) → Ext B
◌>>=◌ a f m = continue (a m) f

abbrev pub ◌>>◌ : {A B : Type 0} → Ext A → Ext B → Ext B
a >> b = a >>= λ _. b

abbrev pub pure : {A : Type 0} → A → Ext A
pure a m = (ok a, m)

abbrev pub lift : {A : Type 0} → Result A → Ext A
lift r m = (r, m)

abbrev pub done_or_failed : Effect → List Bool → Machine → Result (Unit {0}) × Machine
done_or_failed e [] m = (ok tt, record m { effects = m.effects ++ (e ∷ []) })
done_or_failed e (true ∷ rest) m = (err io_error, record m { failing = rest })
done_or_failed e (false ∷ rest) m =
    (ok tt, record m { failing = rest; effects = m.effects ++ (e ∷ []) })

-- A call fails and does nothing, or has its effect.
unfoldable pub perform : Effect → Ext (Unit {0})
perform e m = done_or_failed e m.failing m

abbrev pub looked : Option Found → Result Found
looked none = err not_exist
looked (some f) = ok f

abbrev pub looked_or_failed : Option Found → List Bool → Machine → Result Found × Machine
looked_or_failed f [] m = (looked f, m)
looked_or_failed f (true ∷ rest) m = (err io_error, record m { failing = rest })
looked_or_failed f (false ∷ rest) m = (looked f, record m { failing = rest })

-- os.Lstat: it fails, or says what is there.
unfoldable pub lstat : Bytes → Ext Found
lstat path m = looked_or_failed (m.found path) m.failing m

-- os.FileMode(mode).Perm()
abbrev pub perm : ℕ → ℕ
perm mode = mode % 512

unfoldable pub write_to : Bytes → Envelope → Ext (Unit {0})
unfolding perform
write_to path env = do
  perform (write_file path env.content (perm env.mode))
  perform (change_mode path (perm env.mode))

-- Whether something is there that may be replaced; a link and what is no file are refused. An error
-- of Lstat counts as nothing being there, whatever error it is.
abbrev pub existing : Result Found → Result Bool
existing (err e) = ok false
existing (ok regular_file) = ok true
existing (ok symbolic_link) = err unsafe_extract
existing (ok other_file) = err unsafe_extract

abbrev pub restore_question : Envelope → Decision
restore_question env = record {
  question = restore_to env.path env.origin;
  by_default = true;
  destructive = false;
}

abbrev pub replace_question : Envelope → Decision
replace_question env = record {
  question = replace env.origin;
  by_default = false;
  destructive = true;
}

-- What is asked before anything is done: whether to restore, and whether to replace.
unfoldable pub agreed : Envelope → Bool → Decider → Bool → Result (Unit {0})
agreed env overwrite d exists =
    if not (d (restore_question env))
    then err declined
    else guard (not (exists && (not overwrite && not (d (replace_question env))))) declined

-- The look at the target, and what is made of it.
abbrev pub found_at : Bytes → Ext Bool
found_at path m = let (r, m') = lstat path m in (existing r, m')

-- `is_abs` and `dir_of` are filepath.IsAbs and filepath.Dir.
module _ (is_abs : Bytes → Bool) (dir_of : Bytes → Bytes) where
  unfoldable pub restore_to_origin : Envelope → Bool → Decider → Ext Bytes
  unfolding perform write_to agreed lstat
  restore_to_origin env overwrite d = do
    lift (guard (is_abs env.origin) bad_path)
    exists ← found_at env.origin
    lift (agreed env overwrite d exists)
    perform (make_dirs (dir_of env.origin))
    write_to env.origin env
    pure env.origin
