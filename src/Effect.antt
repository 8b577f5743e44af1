-- ===== src/Effect.antt =====
-- Functions that change a state and may fail. What was written before an error stays written: the
-- state comes back beside the result.
pub mod NoPanic
use ovh_cli.Prelude.{◌≡◌, ◌≢◌, refl, Bool, true, false, if◌then◌else◌}
use ovh_cli.Errors.{Result, ok, err, panic}

abbrev pub Effect {ℓ} : Type ℓ → Type ℓ → Type ℓ
Effect S A = S → Result A × S

-- What follows a step: the rest runs only if the step returned.
abbrev pub chain {ℓ} : {S A B : Type ℓ} → Result A × S → (A → Effect S B) → Result B × S
chain (ok a, s) f = f a s
chain (err e, s) f = (err e, s)
chain (panic m, s) f = (panic m, s)

infixl 5 ◌>>=◌ ◌>>◌
abbrev pub ◌>>=◌ {ℓ} : {S A B : Type ℓ} → Effect S A → (A → Effect S B) → Effect S B
◌>>=◌ m f s = chain (m s) f

abbrev pub ◌>>◌ {ℓ} : {S A B : Type ℓ} → Effect S A → Effect S B → Effect S B
m >> k = m >>= λ _. k

abbrev pub pure {ℓ} : {S A : Type ℓ} → A → Effect S A
pure a s = (ok a, s)

abbrev pub lift {ℓ} : {S A : Type ℓ} → Result A → Effect S A
lift r s = (r, s)

-- `_ = f()`: the step's error is dropped, its writes are not.
abbrev pub ignore {ℓ} : {S A B : Type ℓ} → Effect S A → Effect S B → Effect S B
ignore m k s = k (m s).1

-- Inversion of a step followed by the rest, where the whole returned.
pub chain-eq-ok {ℓ} :
    {S A B : Type ℓ} (m : Result A × S) (f : A → Effect S B) {b : B} {s' : S}
    → chain m f ≡ (ok b, s')
    → (a : A) × (s₁ : S) × (m ≡ (ok a, s₁)) × (f a s₁ ≡ (ok b, s'))
chain-eq-ok (ok a, s) f h = (a, s, refl, h)
chain-eq-ok (err e, s) f h = cc
chain-eq-ok (panic m, s) f h = cc

pub chain_lift-eq-ok {ℓ} :
    {S A B : Type ℓ} (r : Result A) (s : S) (f : A → Effect S B) {b : B} {s' : S}
    → chain (r, s) f ≡ (ok b, s')
    → (a : A) × (r ≡ ok a) × (f a s ≡ (ok b, s'))
chain_lift-eq-ok (ok a) s f h = (a, refl, h)
chain_lift-eq-ok (err e) s f h = cc
chain_lift-eq-ok (panic m) s f h = cc

-- A step of a chain keeps what the step and the rest keep.
pub chain_kept {ℓ κ} :
    {S A B : Type ℓ} (P : S → Type κ) (m : Result A × S) (f : A → Effect S B)
    → P m.1
    → ((a : A) → m.0 ≡ ok a → P (f a m.1).1)
    → P (chain m f).1
chain_kept P (ok a, s) f h k = k a refl
chain_kept P (err e, s) f h k = h
chain_kept P (panic e, s) f h k = h

-- What the step keeps, and the rest where it fails, a chain that fails keeps.
pub chain_failed {ℓ κ} :
    {S A B : Type ℓ} (P : S → Type κ) {b : B} (m : Result A × S) (f : A → Effect S B)
    → (((a : A) → m.0 ≢ ok a) → P m.1)
    → ((a : A) → m.0 ≡ ok a → (f a m.1).0 ≢ ok b → P (f a m.1).1)
    → (chain m f).0 ≢ ok b
    → P (chain m f).1
chain_failed P (ok a, s) f h k ne = k a refl ne
chain_failed P (err e, s) f h k ne = h λ a e'. cc
chain_failed P (panic m, s) f h k ne = h λ a e'. cc

-- A property of both branches.
pub if_property {ℓ κ} :
    {A : Type ℓ} (P : A → Type κ) (b : Bool) (x y : A) → P x → P y → P (if b then x else y)
if_property P true x y h k = h
if_property P false x y h k = k

-- A chain may be read from the right, and its rest replaced by an equal one.
pub chain_assoc {ℓ} :
    {S A B C : Type ℓ} (m : Result A × S) (f : A → Effect S B) (g : B → Effect S C)
    (h : A → Effect S C)
    → ((a : A) (s : S) → chain (f a s) g ≡ h a s)
    → chain (chain m f) g ≡ chain m h
chain_assoc (ok a, s) f g h e = e a s
chain_assoc (err x, s) f g h e = refl
chain_assoc (panic x, s) f g h e = refl
