-- ===== src/Operations/Rounds.antt =====
-- internal/core/ops.go, EncryptCandidates: what becomes of each candidate, as a step relation, and
-- that the loop takes these steps.
use angou.Prelude.{
  ℕ, suc, ◌+◌, ◌≡◌, ◌≢◌, refl, sym, ap, ◌∙◌, Bool, true, false, Bool-cases, inl, inr, Option, none,
  some, List, [], ◌∷◌, length, arith,
}
use angou.Prelude.{Result, ok, err, Error, cancelled}
use angou.Prelude.Bytes.{Bytes}
use angou.Container.{Encoding}
use angou.External.{External}
use angou.Operations.{Decider}
use angou.Operations.Encrypt.{
  Outside, EncryptResult, EncryptAllResult, full_path, stored_as, skip, counted, encrypt_question,
  if_named, encrypt_file, encrypt_candidate, encrypt_rest, encrypt_candidates,
}
use angou.Scan.Walk.{Candidate}
use angou.Store.Act.{Cell}

-- How many of the rounds stored a file, and how many did not.
abbrev pub stored_in : List (Option EncryptResult) → ℕ
stored_in [] = 0
stored_in (some res ∷ rounds) = 1 + stored_in rounds
stored_in (none ∷ rounds) = stored_in rounds

abbrev pub skipped_in : List (Option EncryptResult) → ℕ
skipped_in [] = 0
skipped_in (some res ∷ rounds) = skipped_in rounds
skipped_in (none ∷ rounds) = 1 + skipped_in rounds

module _ (o : Outside) (x : External) (root : Bytes) (d : Decider) (enc : Encoding) where
  -- What may become of one candidate, and of the store: no name that the store can have, a no to
  -- the question, an EncryptFile that fails, or one that stores the file.
  pub data Round : Candidate → Cell x → Option EncryptResult → Cell x → Type 0 where
    unnamed :
        {cand : Candidate} {c : Cell x} {e : Error}
        → stored_as o x (full_path root cand.path) ≡ err e
        → Round cand c none c
    declined :
        {cand : Candidate} {c : Cell x} (logical : Bytes)
        → stored_as o x (full_path root cand.path) ≡ ok logical
        → d (encrypt_question o x (full_path root cand.path) cand logical) ≡ false
        → Round cand c none c
    failed :
        {cand : Candidate} {c c' : Cell x} {e : Error} (logical : Bytes)
        → stored_as o x (full_path root cand.path) ≡ ok logical
        → d (encrypt_question o x (full_path root cand.path) cand logical) ≡ true
        → encrypt_file o x (full_path root cand.path) logical enc c ≡ (err e, c')
        → Round cand c none c'
    encrypted :
        {cand : Candidate} {c c' : Cell x} {res : EncryptResult} (logical : Bytes)
        → stored_as o x (full_path root cand.path) ≡ ok logical
        → d (encrypt_question o x (full_path root cand.path) cand logical) ≡ true
        → encrypt_file o x (full_path root cand.path) logical enc c ≡ (ok res, c')
        → Round cand c (some res) c'

  -- The rounds from the n-th on, and the candidates that are left after them. Before each round the
  -- context was not done.
  pub data Rounds (done : ℕ → Bool)
      : ℕ
        → List Candidate
        → Cell x
        → List (Option EncryptResult)
        → List Candidate
        → Cell x
        → Type 0 where
    stops : {n : ℕ} {cands : List Candidate} {c : Cell x} → Rounds done n cands c [] cands c
    goes_on :
        {n : ℕ} {cand : Candidate} {cands left : List Candidate} {c c1 c2 : Cell x}
        {outcome : Option EncryptResult} {rounds : List (Option EncryptResult)}
        → done n ≡ false
        → Round cand c outcome c1
        → Rounds done (n + 1) cands c1 rounds left c2
        → Rounds done n (cand ∷ cands) c (outcome ∷ rounds) left c2

  -- What one round adds to the counts.
  add : EncryptAllResult → Option EncryptResult → EncryptAllResult
  add r (some res) = record r { stored = r.stored + 1 }
  add r none = skip o x r

  encrypted_or_failed :
      (cand : Candidate) (logical : Bytes) (r : EncryptAllResult) (c : Cell x)
      (p : Result EncryptResult × Cell x)
      → stored_as o x (full_path root cand.path) ≡ ok logical
      → d (encrypt_question o x (full_path root cand.path) cand logical) ≡ true
      → encrypt_file o x (full_path root cand.path) logical enc c ≡ p
      → (outcome : Option EncryptResult) × Round cand c outcome (counted o x r p).1
        × ((counted o x r p).0 ≡ add r outcome)
  unfolding add
  encrypted_or_failed cand logical r c (ok res, c') named wanted h =
      (some res, encrypted logical named wanted h, refl)
  encrypted_or_failed cand logical r c (err e, c') named wanted h =
      (none, failed logical named wanted h, refl)

  encrypt_candidate-Round :
      (cand : Candidate) (r : EncryptAllResult) (c : Cell x)
      → (outcome : Option EncryptResult) × Round cand c outcome
          (encrypt_candidate o x root d enc cand r c).1
        × ((encrypt_candidate o x root d enc cand r c).0 ≡ add r outcome)
  unfolding encrypt_candidate add
  encrypt_candidate-Round cand r c = by_name (stored_as o x (full_path root cand.path)) refl
    where
      by_name :
          (n : Result Bytes)
          → stored_as o x (full_path root cand.path) ≡ n
          → (outcome : Option EncryptResult) × Round cand c outcome
              (if_named o x n d (full_path root cand.path) cand enc r c).1
            × ((if_named o x n d (full_path root cand.path) cand enc r c).0 ≡ add r outcome)
      by_name (err e) h = (none, unnamed h, refl)
      by_name (ok logical) h =
          elim (Bool-cases (d (encrypt_question o x (full_path root cand.path) cand logical))) [
            | inl wanted ↦ rw wanted (
                encrypted_or_failed cand logical r c
                  (encrypt_file o x (full_path root cand.path) logical enc c) h wanted refl)
            | inr unwanted ↦ rw unwanted (none, declined logical h unwanted, refl)
          ]

  add_counts :
      (r : EncryptAllResult) (outcome : Option EncryptResult)
      → ((add r outcome).stored ≡ r.stored + stored_in (outcome ∷ []))
        × ((add r outcome).skipped ≡ r.skipped + skipped_in (outcome ∷ []))
        × ((add r outcome).stored + (add r outcome).skipped ≡ r.stored + r.skipped + 1)
  unfolding add
  add_counts r (some res) = (refl, omega arith, omega arith)
  add_counts r none = (omega arith, refl, omega arith)

  module _ (done : ℕ → Bool) where
    -- Why the loop has ended behind the n-th round, with these candidates left.
    abbrev pub Ended : ℕ → List Candidate → Option Error → Type 0
    Ended n left none = left ≡ []
    Ended n left (some e) = (e ≡ cancelled) × (done n ≡ true) × (left ≢ [])

    abbrev pub Explained :
        ℕ
        → List Candidate
        → Cell x
        → EncryptAllResult
        → (EncryptAllResult × Option Error) × Cell x
        → Type 0
    Explained n cands c r ((r', e), c') =
        (rounds : List (Option EncryptResult)) × (left : List Candidate) × Rounds done n cands c
          rounds left c'
        × (r'.stored ≡ r.stored + stored_in rounds)
        × (r'.skipped ≡ r.skipped + skipped_in rounds)
        × Ended (n + length rounds) left e

    Ended-later :
        (n k : ℕ) (left : List Candidate) (e : Option Error)
        → Ended (n + 1 + k) left e
        → Ended (n + suc k) left e
    Ended-later n k left none h = h
    Ended-later n k left (some e) (a, b, l) = (a, ap done (omega arith) ∙ b, l)

    stored_in-first :
        (outcome : Option EncryptResult) (rounds : List (Option EncryptResult))
        → (stored_in (outcome ∷ rounds) ≡ stored_in (outcome ∷ []) + stored_in rounds)
          × (skipped_in (outcome ∷ rounds) ≡ skipped_in (outcome ∷ []) + skipped_in rounds)
    stored_in-first (some res) rounds = (omega arith, omega arith)
    stored_in-first none rounds = (omega arith, omega arith)

    one_more :
        (n : ℕ) (cand : Candidate) (cands : List Candidate) (c c1 : Cell x)
        (r r1 : EncryptAllResult) (outcome : Option EncryptResult)
        (p : (EncryptAllResult × Option Error) × Cell x)
        → done n ≡ false
        → Round cand c outcome c1
        → r1 ≡ add r outcome
        → Explained (n + 1) cands c1 r1 p
        → Explained n (cand ∷ cands) c r p
    one_more n cand cands c c1 r r1 outcome ((r', e), c') more step counts
          (rounds, left, steps, s, k, ended) =
        let (s1, k1, both) = add_counts r outcome in
        let (s2, k2) = stored_in-first outcome rounds in
        let s3 = ap (λ (q : EncryptAllResult). q.stored) counts in
        let k3 = ap (λ (q : EncryptAllResult). q.skipped) counts in
        (
          outcome ∷ rounds,
          left,
          goes_on more step steps,
          omega (arith, s, s1, s2, s3),
          omega (arith, k, k1, k2, k3),
          Ended-later n (length rounds) left e ended,
        )

    encrypt_rest-Explained :
        (cands : List Candidate) (n : ℕ) (r : EncryptAllResult) (c : Cell x)
        → r.stored + r.skipped ≡ n
        → Explained n cands c r (encrypt_rest o x root d enc done cands r c)
    unfolding encrypt_rest
    encrypt_rest-Explained [] n r c h = ([], [], stops, omega arith, omega arith, refl)
    encrypt_rest-Explained (cand ∷ cands) n r c h =
        elim (Bool-cases (done (r.stored + r.skipped))) [
          | inl stop ↦ rw stop (
            [],
            cand ∷ cands,
            stops,
            omega arith,
            omega arith,
            (refl, ap done (omega (arith, h)) ∙ stop, λ k. cc),
          )
          | inr more ↦
              let (outcome, step, counts) = encrypt_candidate-Round cand r c in
              let (s1, k1, both) = add_counts r outcome in
              let (r1, c1) = encrypt_candidate o x root d enc cand r c in
              let e : r1.stored + r1.skipped ≡ n + 1 =
                ap (λ (q : EncryptAllResult). q.stored + q.skipped) counts
                ∙ omega (arith, both, h) in
              rw more (
                one_more n cand cands c c1 r r1 outcome _ (ap done (sym h) ∙ more) step counts
                  (encrypt_rest-Explained cands (n + 1) r1 c1 e))
        ]

    -- EncryptCandidates takes one round after another, each on the store that the rounds before it
    -- have left: the candidate has no name that the store can have, or the question is answered with
    -- no, and the store stays as it is; or EncryptFile is called, and it fails or stores the file. The
    -- rounds in which it stored the file are counted as stored and the others as skipped. Before each
    -- round the context was not done. No error is returned just if no candidate is left; and the only
    -- error is that the context was done, which it was before a candidate that is left.
    pub encrypt_candidates-Explained :
        (cands : List Candidate) (c : Cell x)
        → Explained 0 cands c
            (record { stored = 0; skipped = 0 })
            (encrypt_candidates o x root d enc done cands c)
    unfolding encrypt_candidates
    encrypt_candidates-Explained cands c =
        encrypt_rest-Explained cands 0 (record { stored = 0; skipped = 0 }) c refl
