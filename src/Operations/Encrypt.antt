-- ===== src/Operations/Encrypt.antt =====
-- internal/core/ops.go: EncryptFile, StoredAs and EncryptCandidates; ExpandPath of core.go and
-- DefaultLogicalPath of logicalpath.go.
use angou.Prelude.{
  ℕ, ◌+◌, ◌%◌, ◌/◌, ◌==◌, Bool, true, false, not, ◌&&◌, ◌||◌, Option, none, some, List, [], ◌∷◌,
  ◌++◌, drop, if◌then◌else◌,
}
use angou.Prelude.{Result, ok, err, Error, cancelled, io_error, or_err}
use angou.Prelude.Bytes.{Bytes, bytes, bytes_eq, is_empty, has_prefix, cut_prefix}
use angou.Container.{Encoding}
use angou.External.{External}
use angou.Operations.{encrypt, Decision, Decider}
use angou.Scan.Walk.{Candidate}
use angou.Store.Act
use angou.Store.Act.{Cell, Act}
use angou.Store.LogicalPath.{normalize_path}
use angou.Store.Ops.{put_with_origin}

-- path/filepath, os and mime as the operations use them, and whether the program is built for
-- Windows. `read` and `stat` are os.ReadFile, and the mode and the modification time of os.Stat;
-- `none` is an error.
pub record Outside : Type 0 where
  pub is_abs : Bytes → Bool
  pub abs : Bytes → Option Bytes
  pub rel : Bytes → Bytes → Option Bytes
  pub join : Bytes → Bytes → Bytes
  pub to_slash : Bytes → Bytes
  pub volume_name : Bytes → Bytes
  pub separator : Bytes
  pub home : Option Bytes
  pub type_by_extension : Bytes → Bytes
  pub read : Bytes → Option Bytes
  pub stat : Bytes → Option (ℕ × ℕ)
  pub windows : Bool

pub record EncryptResult : Type 0 where
  pub logical_path : Bytes
  pub blob_id : Bytes
  pub derived : Bool
  pub origin : Bytes

pub record EncryptAllResult : Type 0 where
  pub stored : ℕ
  pub skipped : ℕ

-- recordedMode, of a mode whose last nine bits are the permissions.
unfoldable pub recorded_mode_unix : ℕ → ℕ
recorded_mode_unix mode = mode % 512

-- 0400 where the owner may not write, and 0600 elsewhere.
unfoldable pub recorded_mode_windows : ℕ → ℕ
recorded_mode_windows mode = if mode % 512 / 128 % 2 == 0 then 256 else 384

abbrev pub recorded_mode : Bool → ℕ → ℕ
recorded_mode windows mode = if windows then recorded_mode_windows mode else recorded_mode_unix mode

-- strings.TrimPrefix
abbrev or_whole : Option Bytes → Bytes → Bytes
or_whole none s = s
or_whole (some rest) s = rest

unfoldable pub trim_prefix : Bytes → Bytes → Bytes
unfolding cut_prefix
trim_prefix s p = or_whole (cut_prefix s p) s

abbrev pub or_else : Option Bytes → Bytes → Bytes
or_else none s = s
or_else (some t) s = t

-- The path of a candidate below the root that was scanned.
unfoldable pub full_path : Bytes → List Bytes → Bytes
full_path root [] = root
full_path root (name ∷ names) = full_path (root ++ (b'/' ∷ name)) names

module _ (o : Outside) where
  abbrev expand_home : Option Bytes → Bytes → Bytes
  expand_home none p = p
  expand_home (some home) p =
      if is_empty home then p else if bytes_eq p (bytes "~") then home else o.join home (drop 2 p)

  unfoldable pub expand_path : Bytes → Bytes
  unfolding bytes_eq has_prefix
  expand_path p =
      if not (bytes_eq p (bytes "~")) && not (has_prefix p (bytes "~/"))
      then p
      else expand_home o.home p

  -- Below the home directory: a path that does not lead out of it.
  abbrev inside : Option Bytes → Bytes → Bytes
  inside none outside = outside
  inside (some rel) outside =
      if bytes_eq rel (bytes "..") || has_prefix rel (bytes ".." ++ o.separator)
      then outside
      else o.to_slash rel

  abbrev below_home : Option Bytes → Bytes → Bytes → Bytes
  below_home none abs outside = outside
  below_home (some home) abs outside = inside (o.rel home abs) outside

  abbrev derive_path : Bytes → Bytes
  derive_path abs =
      below_home o.home abs
        (trim_prefix (trim_prefix (o.to_slash abs) (o.to_slash (o.volume_name abs))) (bytes "/"))

  unfoldable pub default_logical_path : Bytes → Bytes × Bool
  unfolding bytes_eq has_prefix trim_prefix
  default_logical_path src =
      if not (o.is_abs src)
      then (o.to_slash src, false)
      else (derive_path (or_else (o.abs src) src), true)

  unfoldable pub mime_for : Bytes → Bytes
  mime_for name =
      if is_empty (o.type_by_extension name)
      then bytes "application/octet-stream"
      else o.type_by_extension name

  module _ (x : External) where
    unfoldable pub stored_as : Bytes → Result Bytes
    unfolding default_logical_path normalize_path
    stored_as path = normalize_path x.nfc (default_logical_path path).0

    -- EncryptFile, behind ExpandPath.
    unfoldable pub encrypt_source : Bytes → Bytes → Encoding → Act x EncryptResult
    unfolding default_logical_path mime_for
    encrypt_source src as_path enc =
        let (target, derived) =
          (if is_empty as_path then default_logical_path src else (as_path, false)) in
        Act.◌>>=◌ (Act.lift (or_err (o.read src) io_error)) (λ content.
          Act.◌>>=◌ (Act.lift (or_err (o.stat src) io_error)) (λ (info : ℕ × ℕ).
            Act.◌>>=◌ (Act.lift (normalize_path x.nfc target)) (λ normalized.
              Act.◌>>=◌
                (put_with_origin x normalized content (recorded_mode o.windows info.0) info.1
                  (mime_for src) (or_else (o.abs src) []) enc)
                (λ id. Act.pure (record {
                  logical_path = normalized;
                  blob_id = id;
                  derived = derived;
                  origin = or_else (o.abs src) [];
                })))))

    unfoldable pub encrypt_file : Bytes → Bytes → Encoding → Act x EncryptResult
    unfolding expand_path encrypt_source
    encrypt_file src as_path enc = encrypt_source (expand_path src) as_path enc

    abbrev pub skip : EncryptAllResult → EncryptAllResult
    skip r = record r { skipped = r.skipped + 1 }

    abbrev pub counted :
        EncryptAllResult → Result EncryptResult × Cell x → EncryptAllResult × Cell x
    counted r (ok res, c) = (record r { stored = r.stored + 1 }, c)
    counted r (err e, c) = (skip r, c)

    abbrev pub encrypt_question : Bytes → Candidate → Bytes → Decision
    encrypt_question path cand logical = record {
      question = encrypt path cand.reason cand.size logical;
      by_default = true;
      destructive = false;
    }

    abbrev pub if_named :
        Result Bytes
        → Decider
        → Bytes
        → Candidate
        → Encoding
        → EncryptAllResult
        → Cell x
        → EncryptAllResult × Cell x
    if_named (err e) d path cand enc r c = (skip r, c)
    if_named (ok logical) d path cand enc r c =
        if d (encrypt_question path cand logical)
        then counted r (encrypt_file path logical enc c)
        else (skip r, c)

    -- One round of EncryptCandidates: it cannot be named, it is not wanted, it fails, or it is
    -- stored.
    unfoldable pub encrypt_candidate :
        Bytes
        → Decider
        → Encoding
        → Candidate
        → EncryptAllResult
        → Cell x
        → EncryptAllResult × Cell x
    unfolding full_path stored_as encrypt_file
    encrypt_candidate root d enc cand r c =
        if_named (stored_as (full_path root cand.path)) d (full_path root cand.path) cand enc r c

    -- `done` says whether the context is done when so many files have been dealt with. The counts
    -- come back with the error.
    unfoldable pub encrypt_rest :
        Bytes
        → Decider
        → Encoding
        → (ℕ → Bool)
        → List Candidate
        → EncryptAllResult
        → Cell x
        → (EncryptAllResult × Option Error) × Cell x
    unfolding encrypt_candidate
    encrypt_rest root d enc done [] r c = ((r, none), c)
    encrypt_rest root d enc done (cand ∷ cands) r c =
        let next =
          (let (r', c') = encrypt_candidate root d enc cand r c in
            encrypt_rest root d enc done cands r' c') in
        if done (r.stored + r.skipped) then ((r, some cancelled), c) else next

    unfoldable pub encrypt_candidates :
        Bytes
        → Decider
        → Encoding
        → (ℕ → Bool)
        → List Candidate
        → Cell x
        → (EncryptAllResult × Option Error) × Cell x
    unfolding encrypt_rest
    encrypt_candidates root d enc done cands c =
        encrypt_rest root d enc done cands (record { stored = 0; skipped = 0 }) c
