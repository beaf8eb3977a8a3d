-- ===== src/Tests/Services.antt =====
-- The theorems on releases, lifetimes and the agent, at concrete inputs.
use mathlib.Core.List.{append_assoc}
use angou.Prelude.{
  ℕ, zero, suc, ap, ◌-◌, ◌/◌, length, take, drop, take-append, drop-append, ◌≡◌, refl, ◌≤◌, ◌<◌,
  ◌%◌, ◌*◌, true, false, Option, none, some, List, [], ◌∷◌, ◌++◌, All, arith,
}
use angou.Prelude.{ok}
use angou.Prelude.Bytes.{
  Bytes, bytes, bytes_eq, bytes_lt, cut, cut_prefix, has_prefix, contains, split,
}
use angou.Prelude.Bytes.Numerals.{parse_int, magnitude, digits_from}
use angou.Prelude.Bytes.Space.{trim_space}
use angou.Prelude.Bytes.Utf8.{runes, runes_from, decode_rune}
use angou.Release.Versions.{
  split_version, leading_numbers, compare_numbers, compare_suffixes, compare_versions,
}
use angou.Release.Order.{at_most}
use angou.Release.Names.{Parts, gui, binary_name, parse_binary_name, parse-binary_name}
use angou.Duration.{Units, second, parse_duration, parse_duration-seconds, parse_duration-wraps}
use angou.Session.{check_version_floor, check_version_floor_mono}
use angou.Agent.Protocol.{Request, Response, Wire, op_identity, op_status, op_stop}
use angou.Agent.Server.{
  Server, Connection, accepted, answer, on_request, handle, serve, stop, cleanup,
}
use angou.Agent.Client.{got, identity}
use angou.Agent.Expiry.{IsSilent, serve-IsSilent, handle-serves}
use angou.Agent.Exchange.{IsFaithful, link_to, identity-handle}
use angou.Tests.Toy.{pack, cons_to}

dev_first : at_most (compare_versions (bytes "1.0.0-dev") (bytes "1.0.0")) ≡ true
unfolding compare_versions compare_numbers compare_suffixes split_version leading_numbers parse_int
    magnitude digits_from cut cut_prefix has_prefix split bytes_eq bytes_lt
dev_first = refl

ten_later : at_most (compare_versions (bytes "1.0.0") (bytes "1.0.10")) ≡ true
unfolding compare_versions compare_numbers compare_suffixes split_version leading_numbers parse_int
    magnitude digits_from cut cut_prefix has_prefix split bytes_eq bytes_lt
ten_later = refl

floor_admits : check_version_floor (bytes "1.0.0-dev") (bytes "1.0.0") ≡ ok tt
unfolding check_version_floor compare_versions compare_numbers compare_suffixes split_version
    leading_numbers parse_int magnitude digits_from cut cut_prefix has_prefix split bytes_eq
    bytes_lt
floor_admits = refl

check_version_floor_mono_example : check_version_floor (bytes "1.0.0-dev") (bytes "1.0.10") ≡ ok tt
check_version_floor_mono_example =
    check_version_floor_mono (bytes "1.0.0-dev") (bytes "1.0.0") (bytes "1.0.10") floor_admits
      ten_later

abbrev desktop : Parts
desktop = record {
  kind = gui;
  goos = bytes "linux";
  goarch = bytes "amd64";
  version = bytes "1.0.0-dev";
}

linux_dashless : contains (bytes "linux") (bytes "-") ≡ false
unfolding contains has_prefix cut_prefix
linux_dashless = refl

amd64_dashless : contains (bytes "amd64") (bytes "-") ≡ false
unfolding contains has_prefix cut_prefix
amd64_dashless = refl

parse-binary_name_example : parse_binary_name (binary_name desktop) ≡ some desktop
parse-binary_name_example =
    parse-binary_name desktop linux_dashless amd64_dashless (λ h. absurd (ground arith))

-- No unit is known but for those that the program adds.
abbrev no_units : Units
no_units = record { format_int = λ n. []; parse = λ s. none }

hour : parse_int (trim_space (bytes "3600")) ≡ some 3600
unfolding parse_int magnitude digits_from trim_space runes runes_from decode_rune
hour = refl

parse_duration-seconds_example : parse_duration no_units (bytes "3600") ≡ ok (3600 * second)
parse_duration-seconds_example =
    parse_duration-seconds no_units (bytes "3600") hour (omega arith) (omega arith)

hour_parsed : parse_duration no_units (bytes "3600") ≡ ok (3600 * second)
unfolding parse_duration parse_int magnitude digits_from trim_space runes runes_from decode_rune
hour_parsed = refl

ages : parse_int (trim_space (bytes "18446744074")) ≡ some 18446744074
unfolding parse_int magnitude digits_from trim_space runes runes_from decode_rune
ages = refl

-- More than five hundred years come to less than a third of a second.
ages_wrapped : parse_duration no_units (bytes "18446744074") ≡ ok 290448384
unfolding parse_duration parse_int magnitude digits_from trim_space runes runes_from decode_rune
ages_wrapped = refl

parse_duration-wraps_example :
    (290448384 ≡ 18446744074 * second % 18446744073709551616) × (290448384 < 18446744074 * second)
parse_duration-wraps_example =
    parse_duration-wraps no_units (bytes "18446744074") ages (omega arith) (omega arith)
      ages_wrapped

-- The documents are packed strings; what stands behind them is not looked at.
abbrev some_of : ℕ → Bytes → Option (List Bytes)
some_of zero s = some []
some_of (suc n) [] = none
some_of (suc n) (k ∷ s) = cons_to (take k s) (some_of n (drop k s))

some_of-pack : (l : List Bytes) (t : Bytes) → some_of (length l) (pack l ++ t) ≡ some l
some_of-pack [] t = refl
some_of-pack (s ∷ rest) t =
    rw (append_assoc s (pack rest) t) (
      rw (take-append s (pack rest ++ t), drop-append s (pack rest ++ t), some_of-pack rest t) refl)

abbrev request_of : Option (List Bytes) → Option Request
request_of (some (op ∷ [])) = some (record { op = op })
request_of _ = none

abbrev response_of : Option (List Bytes) → Option Response
response_of (some (e ∷ i ∷ f ∷ (n ∷ []) ∷ [])) =
    some (record { error = e; identity = i; fingerprint = f; expires_in = n })
response_of _ = none

abbrev toy_wire : Wire
toy_wire = record {
  encode_request = λ r. pack (r.op ∷ []);
  decode_request = λ s. request_of (some_of 1 s);
  encode_response = λ r. pack (r.error ∷ r.identity ∷ r.fingerprint ∷ (r.expires_in ∷ []) ∷ []);
  decode_response = λ s. response_of (some_of 4 s);
  seconds_until = λ now then_at. (then_at - now) / second;
}

toy_wire-IsFaithful : IsFaithful toy_wire
toy_wire-IsFaithful = record {
  request = λ r. ap request_of (some_of-pack (r.op ∷ []) (10 ∷ []));
  response = λ r.
      ap response_of
        (some_of-pack (r.error ∷ r.identity ∷ r.fingerprint ∷ (r.expires_in ∷ []) ∷ []) (10 ∷ []));
}

-- An agent that holds a key until the time 100.
abbrev agent : Server
agent = record {
  fingerprint = bytes "F";
  identity = some (bytes "key");
  expires = 100;
  stopped = false;
}

identity-handle_example : identity toy_wire (link_to toy_wire agent 40 41) ≡ got (bytes "key")
identity-handle_example =
    identity-handle toy_wire toy_wire-IsFaithful agent 40 41 (bytes "key") refl
      (λ h. absurd (ground arith))

abbrev asking : ℕ → Connection
asking now = record { refusal = none; line = some (8 ∷ bytes "identity"); now = now; later = now }

abbrev stopping : Connection
stopping = record { refusal = none; line = some (4 ∷ bytes "stop"); now = 1; later = 1 }

abbrev served : Response
served = record { error = []; identity = bytes "key"; expires_in = 0; fingerprint = bytes "F" }

key_served : (handle toy_wire agent (asking 40)).0 ≡ some served
unfolding handle on_request answer op_identity bytes_eq
key_served = refl

handle-serves_example :
    ((asking 40).refusal ≡ none) × (40 ≤ 100) × (agent.identity ≡ some (bytes "key"))
handle-serves_example =
    handle-serves toy_wire agent (asking 40) served key_served (λ h. absurd (ground arith))

serve-IsSilent_example :
    All IsSilent (serve toy_wire agent (accepted (asking 101) ∷ accepted (asking 102) ∷ [])).0
serve-IsSilent_example =
    serve-IsSilent toy_wire agent (accepted (asking 101) ∷ accepted (asking 102) ∷ [])
      (omega arith, (omega arith, tt))

told_to_stop : (serve toy_wire agent (accepted stopping ∷ [])).1.stopped ≡ true
unfolding serve handle on_request answer stop cleanup op_identity op_status op_stop bytes_eq
told_to_stop = refl
