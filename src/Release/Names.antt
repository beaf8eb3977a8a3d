-- ===== src/Release/Names.antt =====
-- internal/release/release.go: BinaryName and ParseBinaryName.
use angou.Prelude.{◌≡◌, ◌≢◌, refl, false, Option, none, some, [], ◌∷◌, ◌++◌, arith}
use angou.Prelude.Bytes.{Bytes, bytes, cut, cut_prefix, contains, has_prefix}

pub data Kind : Type 0 where
  cli gui : Kind

abbrev pub dash : Bytes
dash = bytes "-"

unfoldable pub kind_name : Kind → Bytes
kind_name cli = bytes "angou"
kind_name gui = bytes "angou-gui"

pub record Parts : Type 0 where
  pub kind : Kind
  pub goos : Bytes
  pub goarch : Bytes
  pub version : Bytes

unfoldable pub binary_name : Parts → Bytes
unfolding kind_name
binary_name p =
    kind_name p.kind ++ (dash ++ (p.goos ++ (dash ++ (p.goarch ++ (dash ++ p.version)))))

-- Behind the first dash of strings.SplitN(rest, "-", 3), and behind the second.
abbrev third_part : Kind → Bytes → Option (Bytes × Bytes) → Option Parts
third_part kind goos none = none
third_part kind goos (some (goarch, version)) =
    some (record { kind = kind; goos = goos; goarch = goarch; version = version })

abbrev second_part : Kind → Option (Bytes × Bytes) → Option Parts
second_part kind none = none
second_part kind (some (goos, rest)) = third_part kind goos (cut rest dash)

abbrev with_rest : Kind → Option Bytes → Option Parts
with_rest kind none = none
with_rest kind (some rest) = second_part kind (cut rest dash)

-- The longer prefix first.
abbrev by_prefix : Bytes → Option Bytes → Option Parts
by_prefix name none = with_rest cli (cut_prefix name (bytes "angou-"))
by_prefix name (some rest) = with_rest gui (some rest)

unfoldable pub parse_binary_name : Bytes → Option Parts
parse_binary_name name = by_prefix name (cut_prefix name (bytes "angou-gui-"))

-- No dash in it
abbrev pub IsDashless : Bytes → Type 0
IsDashless s = contains s dash ≡ false

cut_dashless : (s t : Bytes) → IsDashless s → cut (s ++ (dash ++ t)) dash ≡ some (s, t)
unfolding cut contains cut_prefix has_prefix
cut_dashless [] t h = refl
cut_dashless (x ∷ s) t h = ground (arith, cut_dashless s t)

rest_parses :
    (kind : Kind) (goos goarch version : Bytes)
    → IsDashless goos
    → IsDashless goarch
    → with_rest kind (some (goos ++ (dash ++ (goarch ++ (dash ++ version)))))
      ≡ some (record { kind = kind; goos = goos; goarch = goarch; version = version })
rest_parses kind goos goarch version ho ha =
    rw (cut_dashless goos (goarch ++ (dash ++ version)) ho)
      (rw (cut_dashless goarch version ha) refl)

gui_prefix :
    (s t : Bytes)
    → IsDashless s
    → s ≢ bytes "gui"
    → cut_prefix (s ++ (dash ++ t)) (bytes "gui-") ≡ none
unfolding cut_prefix contains has_prefix
gui_prefix [] t h ne = refl
gui_prefix (a ∷ []) t h ne = ground arith
gui_prefix (a ∷ b ∷ []) t h ne = ground arith
gui_prefix (a ∷ b ∷ c ∷ []) t h ne = ground arith
gui_prefix (a ∷ b ∷ c ∷ d ∷ s) t h ne = ground arith

parts_parse :
    (kind : Kind) (goos goarch version : Bytes)
    → IsDashless goos
    → IsDashless goarch
    → goos ≢ bytes "gui"
    → parse_binary_name
        (binary_name (record { kind = kind; goos = goos; goarch = goarch; version = version }))
      ≡ some (record { kind = kind; goos = goos; goarch = goarch; version = version })
unfolding parse_binary_name binary_name kind_name cut_prefix
parts_parse cli goos goarch version ho ha ne =
    rw (gui_prefix goos (goarch ++ (dash ++ version)) ho ne)
      (rest_parses cli goos goarch version ho ha)
parts_parse gui goos goarch version ho ha ne = rest_parses gui goos goarch version ho ha

-- What BinaryName builds ParseBinaryName takes apart again, where neither the system nor the
-- architecture has a dash in its name and the system is not called gui.
pub parse-binary_name :
    (p : Parts)
    → IsDashless p.goos
    → IsDashless p.goarch
    → p.goos ≢ bytes "gui"
    → parse_binary_name (binary_name p) ≡ some p
parse-binary_name p ho ha ne = parts_parse p.kind p.goos p.goarch p.version ho ha ne
