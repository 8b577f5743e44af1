-- ===== src/Errors.antt =====
-- Go's errors and control flow: sentinel errors (internal/auth/errors.go,
-- internal/schema/errors.go), `fmt.Errorf` with and without `%w`, panics, and the two shapes of
-- functions: those that only read (`Result`) and those that change a state (`Effect`).

use ovh_cli.Prelude.{Bool, true, false, String, List, ◌≡◌, refl}

pub data Sentinel : Type 0 where
  not_configured credentials_expired keyring_unavailable file_mode_unsafe : Sentinel
  no_cache cache_corrupt cache_perms : Sentinel

-- An error is a sentinel, a new error from a format and its operands, or a wrapper.
pub data Error : Type 0 where
  sentinel : Sentinel → Error
  errorf : String → List String → Error
  wrapf : String → List String → Error → Error

pub data Result {ℓ} (A : Type ℓ) : Type ℓ where
  ok : A → Result A
  err : Error → Result A
  panic : String → Result A

infixl 5 ◌>>=◌ ◌>>◌
abbrev pub ◌>>=◌ {ℓ κ} : {A : Type ℓ} {B : Type κ} → Result A → (A → Result B) → Result B
ok a >>= f = f a
err e >>= f = err e
panic s >>= f = panic s

abbrev pub ◌>>◌ {ℓ κ} : {A : Type ℓ} {B : Type κ} → Result A → Result B → Result B
m >> k = m >>= λ _. k

-- `if err != nil { return fmt.Errorf(format, …, err) }`
abbrev pub wrap_err {ℓ} : {A : Type ℓ} → String → List String → Result A → Result A
wrap_err format operands (ok a) = ok a
wrap_err format operands (err e) = err (wrapf format operands e)
wrap_err format operands (panic s) = panic s

-- `if !cond { return err }`
abbrev pub ensure : Bool → Error → Result (Unit {0})
ensure true e = ok tt
ensure false e = err e

-- `if !cond { panic(message) }`
abbrev pub assert : Bool → String → Result (Unit {0})
assert true message = ok tt
assert false message = panic message

pub wrap_err-eq-ok {ℓ} :
    {A : Type ℓ} (format : String) (operands : List String) (r : Result A) (a : A)
    → wrap_err format operands r ≡ ok a
    → r ≡ ok a
wrap_err-eq-ok format operands (ok b) a h = h
wrap_err-eq-ok format operands (err e) a h = cc
wrap_err-eq-ok format operands (panic m) a h = cc

-- Where a chain returned, its first step did.
pub bind_inversion {ℓ κ} :
    {A : Type ℓ} {B : Type κ} (first : Result A) (rest : A → Result B) {result : B}
    → (first >>= rest) ≡ ok result
    → (between : A) × (first ≡ ok between) × (rest between ≡ ok result)
bind_inversion (panic message) rest h = cc
bind_inversion (err problem) rest h = cc
bind_inversion (ok between) rest h = (between, refl, h)

-- A value or an error of a library call that does not panic.
pub data Answer (A : Type 0) : Type 0 where
  answered : A → Answer A
  unanswered : Error → Answer A

abbrev pub to_result : {A : Type 0} → Answer A → Result A
to_result (answered a) = ok a
to_result (unanswered e) = err e
