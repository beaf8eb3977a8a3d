-- ===== src/Scan.antt =====
-- internal/core/scan.go: which files are offered as secrets, by their names and first bytes.
pub mod Walk
pub mod Reach
pub mod Reasons
use angou.Prelude.{
  ℕ, ◌+◌, ◌*◌, ◌++◌, Bool, true, false, not, ◌&&◌, ◌||◌, ◌==◌, ltb, leb, Option, none, some, List,
  [], ◌∷◌, length, take, if◌then◌else◌,
}
use angou.Prelude.Bytes.{
  Bytes, bytes, bytes_eq, is_empty, has_prefix, has_suffix, contains, cut, cut_last, split,
  mem_bytes,
}
use angou.Prelude.Bytes.Space.{trim_space}

-- filepath.Ext of a name without a separator: from the last dot on.
abbrev from_dot : Option (Bytes × Bytes) → Bytes
from_dot none = []
from_dot (some (before, after)) = b'.' ∷ after

unfoldable pub extension : Bytes → Bytes
unfolding cut_last
extension name = from_dot (cut_last name (bytes "."))

abbrev pub prose_or_program_extensions : List Bytes
prose_or_program_extensions =
    bytes ".py"
    ∷ bytes ".go"
    ∷ bytes ".js"
    ∷ bytes ".ts"
    ∷ bytes ".tsx"
    ∷ bytes ".jsx"
    ∷ bytes ".rs"
    ∷ bytes ".c"
    ∷ bytes ".h"
    ∷ bytes ".cpp"
    ∷ bytes ".hpp"
    ∷ bytes ".java"
    ∷ bytes ".rb"
    ∷ bytes ".php"
    ∷ bytes ".pl"
    ∷ bytes ".sh"
    ∷ bytes ".bash"
    ∷ bytes ".zsh"
    ∷ bytes ".md"
    ∷ bytes ".rst"
    ∷ bytes ".adoc"
    ∷ bytes ".html"
    ∷ bytes ".css"
    ∷ bytes ".pc"
    ∷ bytes ".cmake"
    ∷ bytes ".mk"
    ∷ bytes ".gradle"
    ∷ bytes ".lock"
    ∷ bytes ".po"
    ∷ bytes ".mo"
    ∷ bytes ".pyc"
    ∷ bytes ".pyi"
    ∷ bytes ".map"
    ∷ bytes ".ps1"
    ∷ bytes ".psm1"
    ∷ bytes ".bat"
    ∷ bytes ".cmd"
    ∷ bytes ".vbs"
    ∷ bytes ".xsl"
    ∷ bytes ".xslt"
    ∷ bytes ".xml"
    ∷ bytes ".yml"
    ∷ bytes ".yaml"
    ∷ bytes ".pdf"
    ∷ bytes ".doc"
    ∷ bytes ".docx"
    ∷ bytes ".odt"
    ∷ bytes ".rtf"
    ∷ []

-- A manual page's section: one or two bytes behind the dot, the first of them from 1 to 9.
abbrev is_section : Bytes → Bool
is_section (dot ∷ first ∷ []) = leb b'1' first && leb first b'9'
is_section (dot ∷ first ∷ second ∷ []) = leb b'1' first && leb first b'9'
is_section _ = false

abbrev pub template_markers : List Bytes
template_markers =
    bytes "example"
    ∷ bytes "template"
    ∷ bytes "sample"
    ∷ bytes "dist"
    ∷ bytes "tmpl"
    ∷ bytes "default"
    ∷ []

unfoldable pub has_marker : Bytes → List Bytes → Bool
has_marker lower [] = false
has_marker lower (marker ∷ markers) =
    (has_suffix lower (b'.' ∷ marker) || contains lower (b'.' ∷ (marker ++ (b'.' ∷ []))))
    || has_marker lower markers

abbrev is_printable : ℕ → Bool
is_printable b = (leb 32 b && ltb b 127) || (b == 10 || (b == 13 || b == 9))

unfoldable pub printable : Bytes → ℕ
printable [] = 0
printable (b ∷ s) = (if is_printable b then 1 else 0) + printable s

unfoldable pub has_nul : Bytes → Bool
has_nul [] = false
has_nul (b ∷ s) = b == 0 || has_nul s

unfoldable pub looks_like_text : Bytes → Bool
unfolding has_nul printable
looks_like_text head =
    not (is_empty head) && (not (has_nul head) && leb (length head * 9) (printable head * 10))

unfoldable pub looks_like_private_key : Bytes → Bool
unfolding contains
looks_like_private_key head =
    contains head (bytes "-----BEGIN") && contains head (bytes "PRIVATE KEY")

-- A line's key and value: at the first `=`, or else at the first `:`.
abbrev or_cut : Option (Bytes × Bytes) → Bytes → Option (Bytes × Bytes)
or_cut (some pair) line = some pair
or_cut none line = cut line (bytes ":")

abbrev is_pair : Option (Bytes × Bytes) → Bool
is_pair none = false
is_pair (some (key, value)) = not (is_empty (trim_space key)) && ltb 3 (length (trim_space value))

unfoldable pub assigns : Bytes → Bool
unfolding has_prefix cut trim_space
assigns line =
    not (is_empty line || (has_prefix line (bytes "#") || has_prefix line (bytes "//")))
    && is_pair (or_cut (cut line (bytes "=")) line)

unfoldable pub any_assigns : List Bytes → Bool
unfolding assigns trim_space
any_assigns [] = false
any_assigns (line ∷ lines) = assigns (trim_space line) || any_assigns lines

unfoldable pub looks_like_assignment : Bytes → Bool
unfolding looks_like_text any_assigns split
looks_like_assignment head = looks_like_text head && any_assigns (split 10 head)

unfoldable pub ends_in_any : Bytes → List Bytes → Bool
unfolding has_suffix
ends_in_any name [] = false
ends_in_any name (ext ∷ exts) = has_suffix name ext || ends_in_any name exts

-- One rule: the directory that it is confined to, if any; the names that match; why; and the look
-- at the first bytes that it asks for.
pub record Pattern : Type 0 where
  pub dir : Option Bytes
  pub matches : Bytes → Bool
  pub reason : Bytes
  pub verify : Bytes → Bool

abbrev always : Bytes → Bool
always head = true

abbrev named : Bytes → Bytes → Bool
named want name = bytes_eq name want

-- `lower` is strings.ToLower.
module _ (lower : Bytes → Bytes) where
  unfoldable pub is_prose_or_program : Bytes → Bool
  unfolding extension mem_bytes
  is_prose_or_program name =
      mem_bytes (lower (extension name)) prose_or_program_extensions || is_section (extension name)

  unfoldable pub is_template : Bytes → Bool
  unfolding has_marker
  is_template name = has_marker (lower name) template_markers

  unfoldable pub mentions_secret : Bytes → Bool
  unfolding contains is_prose_or_program
  mentions_secret name =
      not (is_prose_or_program name)
      && (contains (lower name) (bytes "secret")
          || (contains (lower name) (bytes "password") || contains (lower name) (bytes "token")))

  abbrev pub secret_patterns : List Pattern
  secret_patterns =
      record {
        dir = some (bytes ".ssh");
        matches = λ n. has_prefix n (bytes "id_") && not (has_suffix n (bytes ".pub"));
        reason = bytes "SSH private key";
        verify = always;
      }
      ∷ record {
        dir = some (bytes ".aws");
        matches = λ n. named (bytes "credentials") n || named (bytes "config") n;
        reason = bytes "AWS credentials";
        verify = always;
      }
      ∷ record {
        dir = some (bytes ".kube");
        matches = named (bytes "config");
        reason = bytes "Kubernetes credentials";
        verify = always;
      }
      ∷ record {
        dir = some (bytes ".docker");
        matches = named (bytes "config.json");
        reason = bytes "Docker registry credentials";
        verify = always;
      }
      ∷ record {
        dir = some (bytes ".gnupg");
        matches = λ n. has_suffix n (bytes ".key");
        reason = bytes "GnuPG private key";
        verify = always;
      }
      ∷ record {
        dir = none;
        matches = λ n. named (bytes ".env") n || has_prefix n (bytes ".env.");
        reason = bytes "environment file";
        verify = always;
      }
      ∷ record {
        dir = none;
        matches = λ n. has_suffix n (bytes ".env");
        reason = bytes "environment file";
        verify = always;
      }
      ∷ record {
        dir = none;
        matches = λ n. named (bytes ".netrc") n || named (bytes "_netrc") n;
        reason = bytes "netrc credentials";
        verify = always;
      }
      ∷ record {
        dir = none;
        matches = named (bytes ".pgpass");
        reason = bytes "PostgreSQL password file";
        verify = always;
      }
      ∷ record {
        dir = none;
        matches = λ n. named (bytes ".npmrc") n || named (bytes ".pypirc") n;
        reason = bytes "package registry token";
        verify = always;
      }
      ∷ record {
        dir = none;
        matches = λ n. named (bytes "credentials") n || named (bytes "credentials.json") n;
        reason = bytes "credentials file";
        verify = always;
      }
      ∷ record {
        dir = none;
        matches =
            λ n. ends_in_any n (bytes ".pem" ∷ bytes ".key" ∷ bytes ".crt" ∷ bytes ".cer" ∷ []);
        reason = bytes "private key";
        verify = looks_like_private_key;
      }
      ∷ record {
        dir = none;
        matches = λ n.
            ends_in_any n (bytes ".p12" ∷ bytes ".pfx" ∷ bytes ".jks" ∷ bytes ".keystore" ∷ []);
        reason = bytes "key store";
        verify = always;
      }
      ∷ record {
        dir = none;
        matches = mentions_secret;
        reason = bytes "name mentions a secret and the contents look like one";
        verify = looks_like_assignment;
      }
      ∷ []

  abbrev in_dir : Option Bytes → Bytes → Bool
  in_dir none parent = true
  in_dir (some dir) parent = bytes_eq parent dir

  -- The first bytes are read again for each rule that asks for them: `again` is what the read gives
  -- for the rule with this reason.
  unfoldable pub applies : Pattern → Bytes → Bytes → (Bytes → Bytes) → Bool
  applies p parent name again = in_dir p.dir parent && (p.matches name && p.verify (again p.reason))

  unfoldable pub first_reason : List Pattern → Bytes → Bytes → (Bytes → Bytes) → Option Bytes
  unfolding applies
  first_reason [] parent name again = none
  first_reason (p ∷ ps) parent name again =
      let rest = first_reason ps parent name again in
      if applies p parent name again then some p.reason else rest

  -- looksSecret, of a file in a directory of the name `parent`: with these first bytes, and what
  -- later reads of them give.
  unfoldable pub looks_secret : Bytes → Bytes → Bytes → (Bytes → Bytes) → Option Bytes
  unfolding has_suffix looks_like_private_key first_reason
  looks_secret parent name head again =
      if has_suffix name (bytes ".pub") || is_template name
      then none
      else if looks_like_private_key head
      then some (bytes "private key header")
      else first_reason secret_patterns parent name again
