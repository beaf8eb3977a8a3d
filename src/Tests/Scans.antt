-- ===== src/Tests/Scans.antt =====
-- The theorems on the scan for secrets, at a small home directory.
use mathlib.Core.List.{Memᴰ}
use angou.Prelude.{◌≡◌, ◌≢◌, ◌↔◌, refl, false, some, [], ◌∷◌, ◌++◌}
use angou.Prelude.Bytes.{
  bytes, bytes_eq, to_lower, has_suffix, has_prefix, cut_prefix, contains, mem_bytes,
}
use angou.Scan.{
  looks_secret, looks_like_private_key, is_template, has_marker, first_reason, applies,
}
use angou.Scan.Reach.{Origin, scan_iff}
use angou.Scan.Reasons.{looks_secret-apart, looks_secret-ne}
use angou.Scan.Walk.{
  File, regular, leaf, branch, Trees, nil, cons, Candidate, scan, walk, walk_all, visit, is_entered,
  read_head,
}

abbrev key_file : File
key_file = record {
  name = bytes "id_work";
  kind = regular;
  size = some 3;
  content = some (bytes "abc");
}

abbrev public_file : File
public_file = record {
  name = bytes "id_work.pub";
  kind = regular;
  size = some 3;
  content = some (bytes "abc");
}

abbrev home : Trees
home =
    cons (branch (bytes ".cache") (cons (leaf key_file) nil))
      (cons (branch (bytes ".ssh") (cons (leaf key_file) (cons (leaf public_file) nil))) nil)

abbrev key_candidate : Candidate
key_candidate = record {
  path = bytes ".ssh" ∷ bytes "id_work" ∷ [];
  reason = bytes "SSH private key";
  size = 3;
}

scanned : scan to_lower (bytes "me") home ≡ key_candidate ∷ []
unfolding scan walk walk_all visit is_entered read_head looks_secret is_template has_marker
    looks_like_private_key first_reason applies to_lower has_suffix has_prefix cut_prefix contains
    mem_bytes bytes_eq
scanned = refl

scan_iff_example :
    Memᴰ key_candidate (scan to_lower (bytes "me") home)
    ↔ Origin to_lower (bytes "me") home key_candidate
scan_iff_example = scan_iff to_lower (bytes "me") home key_candidate

not_public : has_suffix (bytes "ca.txt") (bytes ".pub") ≡ false
unfolding has_suffix bytes_eq
not_public = refl

not_template : is_template to_lower (bytes "ca.txt") ≡ false
unfolding is_template has_marker to_lower has_suffix bytes_eq contains has_prefix cut_prefix
not_template = refl

-- A certificate, and a remark that the key is elsewhere.
looks_secret-apart_example :
    looks_secret to_lower
      (bytes "etc")
      (bytes "ca.txt")
      ([]
        ++ (bytes "-----BEGIN"
            ++ (bytes " CERTIFICATE-----\n" ++ (bytes "PRIVATE KEY" ++ bytes ": in the safe"))))
      (λ r. [])
    ≡ some (bytes "private key header")
looks_secret-apart_example =
    looks_secret-apart to_lower (bytes "etc") (bytes "ca.txt") [] (bytes " CERTIFICATE-----\n")
      (bytes ": in the safe") (λ r. []) not_public not_template

looked :
    looks_secret to_lower (bytes ".ssh") (bytes "id_work") (bytes "abc") (λ r. bytes "abc")
    ≡ some (bytes "SSH private key")
unfolding looks_secret is_template has_marker looks_like_private_key first_reason applies to_lower
    has_suffix has_prefix cut_prefix contains bytes_eq
looked = refl

looks_secret-ne_example : bytes "SSH private key" ≢ bytes "private key"
looks_secret-ne_example =
    looks_secret-ne to_lower (bytes ".ssh") (bytes "id_work") (bytes "abc") looked
