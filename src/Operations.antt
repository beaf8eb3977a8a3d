-- ===== src/Operations.antt =====
-- internal/core/ops.go: the questions that operations ask, and their answers.
pub mod Restore
pub mod Guards
pub mod Encrypt
pub mod Stored
pub mod Rounds
use angou.Prelude.{ℕ, Bool, true, false}
use angou.Prelude.Bytes.{Bytes}
use angou.Scan.Walk.{Candidate}

-- What is asked, with what the question's text names.
pub data Question : Type 0 where
  restore_to : Bytes → Bytes → Question
  replace : Bytes → Question
  encrypt : Bytes → Bytes → ℕ → Bytes → Question

pub record Decision : Type 0 where
  pub question : Question
  pub by_default : Bool
  pub destructive : Bool

abbrev pub Decider : Type 0
Decider = Decision → Bool

-- AlwaysDefault
unfoldable pub always_default : Decider
always_default d = d.by_default
