-- ===== src/Store/Names.antt =====
-- The file of a blob is neither a temporary file nor one of the store's own files.
use angou.Prelude.{ℕ, ◌≡◌, sym, ◌∙◌, ap, ◌≢◌, true, false, [], ◌∷◌, length, arith, length-append}
use mathlib.Core.Bool.{false≢true}
use mathlib.Core.Path.{subst}
use angou.Prelude.Bytes.{Bytes, has_prefix}
use angou.Prelude.Bytes.Utf8.{runes, runes_from, decode_rune}
use angou.Container.{extension}
use angou.External.{External}
use angou.Store.BlobId.{looks_like_blob_id, in_alphabet}
use angou.Store.Core.{blob_path}
use angou.Store.Types.{meta_name, index_name}
use angou.World.{temp_prefix}
use angou.World.Atomic.{is_temp}

pub looks_like_blob_id-length : (id : Bytes) → looks_like_blob_id id ≡ true → length id ≡ 26
unfolding looks_like_blob_id
looks_like_blob_id-length id h = ground arith

-- No letter of the alphabet is a dot, with which a temporary file's name starts.
dot_refused : (s : Bytes) → looks_like_blob_id (b'.' ∷ s) ≡ false
unfolding looks_like_blob_id runes runes_from decode_rune in_alphabet
dot_refused s = ground arith

first_letter : (b : ℕ) (s : Bytes) → looks_like_blob_id (b ∷ s) ≡ true → b ≢ b'.'
first_letter b s h e =
    let h' = subst (λ (c : ℕ). looks_like_blob_id (c ∷ s) ≡ true) e h in
    false≢true (sym (dot_refused s) ∙ h')

pub blob_path-IsTemp :
    (x : External) (id : Bytes) → looks_like_blob_id id ≡ true → is_temp (blob_path x id) ≡ false
unfolding blob_path has_prefix temp_prefix
blob_path-IsTemp x [] h = absurd (omega (arith, looks_like_blob_id-length [] h))
blob_path-IsTemp x (b ∷ s) h = ground (arith, first_letter b s h)

pub blob_path-ne-index_name :
    (x : External) (id : Bytes) → looks_like_blob_id id ≡ true → blob_path x id ≢ index_name
unfolding blob_path index_name extension
blob_path-ne-index_name x id h e = omega (
  arith,
  looks_like_blob_id-length id h,
  length-append {0} id extension,
  ap (λ (l : Bytes). length l) e,
)

pub blob_path-ne-meta_name :
    (x : External) (id : Bytes) → looks_like_blob_id id ≡ true → blob_path x id ≢ meta_name
unfolding blob_path meta_name extension
blob_path-ne-meta_name x id h e = omega (
  arith,
  looks_like_blob_id-length id h,
  length-append {0} id extension,
  ap (λ (l : Bytes). length l) e,
)
