-- ===== src/Store/BlobId/Shape.antt =====
-- Every name that BlobID returns passes LooksLikeBlobID.
use angou.Prelude.{
  ℕ, zero, suc, ◌≡◌, refl, true, [], ◌∷◌, ◌<◌, ◌≤◌, ◌*◌, ◌==◌, length, length-take, take, all,
  arith, All,
}
use angou.Prelude.{Result, ok, >>=-eq-ok, guard}
use angou.Prelude.Bytes.{Bytes}
use angou.Prelude.Bytes.Utf8.{runes, decode_rune, runes_from}
use angou.Store.LogicalPath.{normalize_path}
use angou.Store.BlobId.{letter, base32, in_alphabet, looks_like_blob_id, blob_id, blob_id_len}

abbrev IsLetter : ℕ → Type 0
IsLetter c = (in_alphabet c ≡ true) × (c < 128)

letter_table : (n : ℕ) → n < 32 → IsLetter (letter n)
unfolding letter in_alphabet
letter_table n h = ground arith

base32-IsLetter : (s : Bytes) → All IsLetter (base32 s)
unfolding base32
base32-IsLetter [] = tt
base32-IsLetter (a ∷ []) = (letter_table _ (omega arith), (letter_table _ (omega arith), tt))
base32-IsLetter (a ∷ b ∷ []) = (
  letter_table _ (omega arith),
  (
    letter_table _ (omega arith),
    (letter_table _ (omega arith), (letter_table _ (omega arith), tt)),
  ),
)
base32-IsLetter (a ∷ b ∷ c ∷ []) = (
  letter_table _ (omega arith),
  (
    letter_table _ (omega arith),
    (
      letter_table _ (omega arith),
      (letter_table _ (omega arith), (letter_table _ (omega arith), tt)),
    ),
  ),
)
base32-IsLetter (a ∷ b ∷ c ∷ d ∷ []) = (
  letter_table _ (omega arith),
  (
    letter_table _ (omega arith),
    (
      letter_table _ (omega arith),
      (
        letter_table _ (omega arith),
        (
          letter_table _ (omega arith),
          (letter_table _ (omega arith), (letter_table _ (omega arith), tt)),
        ),
      ),
    ),
  ),
)
base32-IsLetter (a ∷ b ∷ c ∷ d ∷ e ∷ s) = (
  letter_table _ (omega arith),
  (
    letter_table _ (omega arith),
    (
      letter_table _ (omega arith),
      (
        letter_table _ (omega arith),
        (
          letter_table _ (omega arith),
          (
            letter_table _ (omega arith),
            (letter_table _ (omega arith), (letter_table _ (omega arith), base32-IsLetter s)),
          ),
        ),
      ),
    ),
  ),
)

length-base32 : (s : Bytes) → length s * 8 ≤ length (base32 s) * 5
unfolding base32
length-base32 [] = omega arith
length-base32 (a ∷ []) = omega arith
length-base32 (a ∷ b ∷ []) = omega arith
length-base32 (a ∷ b ∷ c ∷ []) = omega arith
length-base32 (a ∷ b ∷ c ∷ d ∷ []) = omega arith
length-base32 (a ∷ b ∷ c ∷ d ∷ e ∷ s) = omega (arith, length-base32 s)

-- Bytes below 128 are their own runes.
runes_ascii : (s : Bytes) → All IsLetter s → runes_from 0 s ≡ s
unfolding runes_from decode_rune
runes_ascii [] h = refl
runes_ascii (b ∷ s) h = ground (arith, runes_ascii s h.1)

take_letters : (n : ℕ) (s : Bytes) → All IsLetter s → All IsLetter (take n s)
take_letters zero s h = tt
take_letters (suc n) [] h = tt
take_letters (suc n) (x ∷ s) h = (h.0, take_letters n s h.1)

all_letters : (s : Bytes) → All IsLetter s → all in_alphabet s ≡ true
all_letters [] h = refl
all_letters (x ∷ s) h = ground (arith, all_letters s h.1)

letters-LooksLikeBlobId :
    (s : Bytes) → All IsLetter s → length s ≡ blob_id_len → looks_like_blob_id s ≡ true
unfolding looks_like_blob_id runes
letters-LooksLikeBlobId s h e = rw (runes_ascii s h, all_letters s h) (ground arith)

-- Where the MAC has 32 bytes, as HMAC-SHA256 has, every name that BlobID returns has the shape by
-- which the readers tell blobs from other files.
pub blob_id-looks_like_blob_id :
    (nfc : Bytes → Bytes) (hmac : Bytes → Bytes → Bytes)
    → ((key message : Bytes) → length (hmac key message) ≡ 32)
    → (name_key path : Bytes) {id : Bytes} → blob_id nfc hmac name_key path ≡ ok id
    → looks_like_blob_id id ≡ true
unfolding blob_id
blob_id-looks_like_blob_id nfc hmac len name_key path {id} h =
    let (u, keyed, h1) = >>=-eq-ok (guard (length name_key == 32) _) _ h in
    let (p, normal, h2) = >>=-eq-ok (normalize_path nfc path) _ h1 in
    let letters = base32 (hmac name_key p) in
    rw (← id_eq letters h2) (
      letters-LooksLikeBlobId (take blob_id_len letters)
        (take_letters blob_id_len letters (base32-IsLetter (hmac name_key p)))
        (length-take blob_id_len letters
          (omega (arith, length-base32 (hmac name_key p), len name_key p))))
  where
    id_eq :
        (letters : Bytes)
        → Result.ok (take blob_id_len letters) ≡ ok id
        → take blob_id_len letters ≡ id
    id_eq letters e = cc
