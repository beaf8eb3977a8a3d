-- ===== src/Operations/Stored.antt =====
-- internal/core/ops.go: what EncryptFile leaves in the store.
use angou.Prelude.{ℕ, ◌≡◌, sym, ap, ◌∙◌, some, []}
use angou.Prelude.{Result, ok, err, io_error, or_err, or_err-eq-ok}
use angou.Prelude.Bytes.{Bytes}
use angou.Prelude.Bytes.Utf8.{to_valid_utf8}
use angou.Container.{Encoding}
use angou.Envelope
use angou.External.{External}
use angou.Operations.Encrypt.{
  Outside, EncryptResult, mime_for, or_else, expand_path, encrypt_source, encrypt_file,
  recorded_mode,
}
use angou.Store.Act
use angou.Store.Act.{Cell}
use angou.Store.Core.{get}
use angou.Store.GetPut.{calm, get-put_with_origin}
use angou.Store.Lawful.{IsLawful, as_json}
use angou.Store.LogicalPath.{normalize_path}
use angou.Store.LogicalPath.Grammar.{normalize_path_idem}
use angou.Store.Ops.{put_with_origin}

module _ (o : Outside) (x : External) where
  -- The file as it was read.
  record Source (src : Bytes) (c c' : Cell x) (target : Bytes) (enc : Encoding)
      (res : EncryptResult) : Type 0 where
    pub content : Bytes
    pub info : ℕ × ℕ
    pub id : Bytes
    pub read : o.read src ≡ some content
    pub stat : o.stat src ≡ some info
    pub normalizes : normalize_path x.nfc target ≡ ok res.logical_path
    pub stored :
        put_with_origin x res.logical_path content
          (recorded_mode o.windows info.0)
          info.1
          (mime_for o src)
          (or_else (o.abs src) [])
          enc
          c
        ≡ (ok id, c')

  encrypt_source-Source :
      (src as_path : Bytes) (enc : Encoding) (c : Cell x) {res : EncryptResult} {c' : Cell x}
      → encrypt_source o x src as_path enc c ≡ (ok res, c')
      → (target : Bytes) × Source src c c' target enc res
  unfolding encrypt_source
  encrypt_source-Source src as_path enc c {res} h =
      let (content, read, h1) = Act.lift-eq-ok (or_err (o.read src) io_error) c _ h in
      let (info, stat, h2) = Act.lift-eq-ok (or_err (o.stat src) io_error) c _ h1 in
      let (normalized, normal, h3) = Act.lift-eq-ok (normalize_path x.nfc _) c _ h2 in
      let (id, c1, put, h4) =
        Act.act-eq-ok
          (put_with_origin x normalized content (recorded_mode o.windows info.0) info.1
            (mime_for o src) (or_else (o.abs src) []) enc c)
          _ h3 in
      let named : normalized ≡ res.logical_path =
        ap (λ (p : Result EncryptResult × Cell x). path_of p.0) h4 in
      (
        _,
        record {
          content = content;
          info = info;
          id = id;
          read = or_err-eq-ok (o.read src) io_error read;
          stat = or_err-eq-ok (o.stat src) io_error stat;
          normalizes = normal ∙ ap (λ (q : Bytes). Result.ok q) named;
          stored =
              ap
                (λ (q : Bytes).
                  put_with_origin x q content (recorded_mode o.windows info.0) info.1
                    (mime_for o src) (or_else (o.abs src) []) enc c)
                (sym named)
              ∙ (put ∙ ap (λ (p : Result EncryptResult × Cell x). (ok id, p.1)) h4);
        },
      )
    where
      path_of : Result EncryptResult → Bytes
      path_of (ok r) = r.logical_path
      path_of (err e) = []

  -- EncryptFile has returned no error, and the name that it reports is valid UTF-8. Then Get of that
  -- name, if none of its calls fails, returns the content that the source file had, with its
  -- modification time, and the MIME type and the origin as encoding/json keeps them. Its mode is what
  -- recordedMode makes of the file's: its permissions, but on Windows 0400 if its owner may not write it, and 0600
  -- otherwise.
  pub get-encrypt_file :
      (l : IsLawful x) (src as_path : Bytes) (enc : Encoding) (c : Cell x) {res : EncryptResult}
      {c' : Cell x}
      → encrypt_file o x src as_path enc c ≡ (ok res, c')
      → to_valid_utf8 res.logical_path ≡ res.logical_path
      → (content : Bytes) × (info : ℕ × ℕ) × (o.read (expand_path o src) ≡ some content)
        × (o.stat (expand_path o src) ≡ some info)
        × ((get x c'.store res.logical_path (calm c'.world)).0
            ≡ ok (
                as_json (
                  Envelope.new x.sha256 res.logical_path
                    (mime_for o (expand_path o src))
                    (recorded_mode o.windows info.0)
                    info.1
                    content
                    (or_else (o.abs (expand_path o src)) []))))
  unfolding encrypt_file
  get-encrypt_file l src as_path enc c {res} h valid =
      let (target, s) = encrypt_source-Source (expand_path o src) as_path enc c h in
      (
        s.content,
        s.info,
        s.read,
        s.stat,
        get-put_with_origin x l c res.logical_path s.content (recorded_mode o.windows s.info.0)
            s.info.1 (mime_for o (expand_path o src)) (or_else (o.abs (expand_path o src)) []) enc
            s.stored res.logical_path
            (normalize_path_idem x.nfc l.nfc_idem target res.logical_path s.normalizes).2 valid,
      )
