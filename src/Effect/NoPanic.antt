-- ===== src/Effect/NoPanic.antt =====
-- Results that are no panics, through the steps that results and effects are made of.
use ovh_cli.Prelude.{Bool, true, false, String, List, ◌≡◌, ◌≢◌, refl}
use ovh_cli.Errors.{Error, Result, ok, err, panic, ◌>>=◌, wrap_err, ensure}
use ovh_cli.Effect.{Effect, chain}

abbrev pub NoPanic {ℓ} : {A : Type ℓ} → Result A → Type ℓ
NoPanic r = (message : String) → r ≢ panic message

pub ok-NoPanic {ℓ} : {A : Type ℓ} (a : A) → NoPanic (ok a)
ok-NoPanic a message h = cc

pub err-NoPanic {ℓ} : {A : Type ℓ} (e : Error) → NoPanic {A = A} (err e)
err-NoPanic e message h = cc

pub bind-NoPanic {ℓ κ} :
    {A : Type ℓ} {B : Type κ} (r : Result A) (f : A → Result B)
    → NoPanic r
    → ((a : A) → r ≡ ok a → NoPanic (f a))
    → NoPanic (r >>= f)
bind-NoPanic (ok a) f h k = k a refl
bind-NoPanic (err e) f h k = err-NoPanic e
bind-NoPanic (panic m) f h k = λ message e. h m refl

pub wrap_err-NoPanic {ℓ} :
    {A : Type ℓ} (format : String) (operands : List String) (r : Result A)
    → NoPanic r
    → NoPanic (wrap_err format operands r)
wrap_err-NoPanic format operands (ok a) h = ok-NoPanic a
wrap_err-NoPanic format operands (err e) h = err-NoPanic _
wrap_err-NoPanic format operands (panic m) h = λ message e. h m refl

pub ensure-NoPanic : (b : Bool) (e : Error) → NoPanic (ensure b e)
ensure-NoPanic true e = ok-NoPanic tt
ensure-NoPanic false e = err-NoPanic e

pub chain-NoPanic {ℓ} :
    {S A B : Type ℓ} (m : Result A × S) (f : A → Effect S B)
    → NoPanic m.0
    → ((a : A) → m.0 ≡ ok a → NoPanic (f a m.1).0)
    → NoPanic (chain m f).0
chain-NoPanic (ok a, s) f h k = k a refl
chain-NoPanic (err e, s) f h k = err-NoPanic e
chain-NoPanic (panic m, s) f h k = λ message e. h m refl
