-- ===== src/Prelude/Outcome.antt =====
-- A Go function that returns a value and an error is a function into `Result`. The constructors of
-- `Error` are the sentinel errors that the code tests for or wraps; message texts are left out.
use mathlib.Core.Path.{◌≡◌, refl}
use mathlib.Core.Bool.{Bool, true, false}
use mathlib.Core.Option.{Option, none, some}

pub data Error : Type 0 where
  bad_path not_container malformed invalid_envelope : Error
  not_a_store no_such_path name_binding unsafe_extract no_usable_bundle already_exists : Error
  unsigned weak_kdf bad_passphrase bad_version insufficient_memory : Error
  no_binary not_verified declined cancelled not_exist io_error crypto_error parse_error
        bad_argument :
      Error

-- The pair `(v, err)` that a Go function returns, of which the caller reads one part.
pub data Result {ℓ} (T : Type ℓ) : Type ℓ where
  ok : T → Result T
  err : Error → Result T

-- `v, found := ...` whose caller returns `e` where nothing was found
abbrev pub or_err {ℓ} : {T : Type ℓ} → Option T → Error → Result T
or_err none e = err e
or_err (some v) e = ok v

infixl 5 ◌>>=◌ ◌>>◌
-- `if err != nil { return err }` between two calls
abbrev pub ◌>>=◌ {ℓ κ} : {T : Type ℓ} {U : Type κ} → Result T → (T → Result U) → Result U
err e >>= next = err e
ok v >>= next = next v

-- if !passed { return e }
abbrev pub guard : Bool → Error → Result (Unit {0})
guard false e = err e
guard true e = ok tt

abbrev pub ◌>>◌ {κ} : {U : Type κ} → Result (Unit {0}) → Result U → Result U
first >> second = first >>= λ done. second

pub ok-injective {ℓ} : {T : Type ℓ} {v w : T} → Result.ok v ≡ ok w → v ≡ w
ok-injective h = cc

pub guard-eq-ok : (passed : Bool) (e : Error) {u : Unit {0}} → guard passed e ≡ ok u → passed ≡ true
guard-eq-ok false e h = cc
guard-eq-ok true e h = refl

pub or_err-eq-ok {ℓ} :
    {T : Type ℓ} (o : Option T) (e : Error) {v : T} → or_err o e ≡ ok v → o ≡ some v
or_err-eq-ok none e h = cc
or_err-eq-ok (some w) e h = cc

-- What the two calls returned, where neither failed.
pub >>=-eq-ok {ℓ κ} :
    {T : Type ℓ} {U : Type κ} (m : Result T) (next : T → Result U) {u : U}
    → (m >>= next) ≡ ok u
    → (v : T) × (m ≡ ok v) × (next v ≡ ok u)
>>=-eq-ok (err e) next h = cc
>>=-eq-ok (ok v) next h = (v, refl, h)
