-- ===== src/Prelude/Outcome.antt =====
-- What a Rust call does: it returns `Ok`, returns `Err`, or panics.
use mathlib.Core.Path.{◌≡◌, refl, ap}
use mathlib.Core.Logic.{◌⊎◌, inl, inr, ◌≢◌}
use mathlib.Core.Option.{Option, none, some}

pub data Outcome {ℓ κ} (E : Type ℓ) (A : Type κ) : Type (ℓ ⊔ κ) where
  ok : A → Outcome E A
  err : E → Outcome E A
  panic : Outcome E A

infixl 5 ◌>>=◌ ◌>>◌
-- Rust's `?`: an error or a panic of the first call is that of the whole.
abbrev pub ◌>>=◌ {ℓ κ μ} :
    {X : Type ℓ} {S : Type κ} {T : Type μ} → Outcome X S → (S → Outcome X T) → Outcome X T
panic >>= rest = panic
err x >>= rest = err x
ok s >>= rest = rest s

abbrev pub ◌>>◌ {ℓ κ} : {X : Type ℓ} {T : Type κ} → Outcome X (Unit {0}) → Outcome X T → Outcome X T
call >> rest = call >>= λ done. rest

-- Rust's `Option::ok_or`.
abbrev pub ok_or {ℓ κ} : {E : Type ℓ} {A : Type κ} → Option A → E → Outcome E A
ok_or none e = err e
ok_or (some a) e = ok a

-- A sequence that returns a value has a first call that does, and a rest that returns it.
pub >>=-eq-ok {ℓ κ μ} :
    {X : Type ℓ} {S : Type κ} {T : Type μ} (call : Outcome X S) (rest : S → Outcome X T) {t : T}
    → (call >>= rest) ≡ ok t
    → (s : S) × (call ≡ ok s) × (rest s ≡ ok t)
>>=-eq-ok panic rest e = cc
>>=-eq-ok (err x) rest e = cc
>>=-eq-ok (ok s) rest e = (s, refl, e)

pub Panic-cases {ℓ κ} : {E : Type ℓ} {A : Type κ} (m : Outcome E A) → (m ≡ panic) ⊎ (m ≢ panic)
Panic-cases (ok a) = inr (λ e. cc)
Panic-cases (err x) = inr (λ e. cc)
Panic-cases panic = inl refl

-- The error type of a call that returns no error, but may panic.
pub data Infallible : Type 0 where

-- An infallible call inside one that may fail.
unfoldable pub lift {ℓ κ} : {E : Type ℓ} {A : Type κ} → Outcome Infallible A → Outcome E A
lift (ok a) = ok a
lift (err e) = elim e [ ]
lift panic = panic

pub ok-eq {ℓ κ} : {E : Type ℓ} {A : Type κ} {a b : A} → ◌≡◌ {A = Outcome E A} (ok a) (ok b) → a ≡ b
ok-eq e = cc

pub lift-eq-ok {ℓ κ} :
    {E : Type ℓ} {A : Type κ} (m : Outcome Infallible A) (a : A) → lift {E = E} m ≡ ok a → m ≡ ok a
unfolding lift
lift-eq-ok (ok b) a e = ap ok (ok-eq e)
lift-eq-ok (err x) a e = elim x [ ]
lift-eq-ok panic a e = cc

-- A call returns a value, or it does not: then it returns an error or panics.
pub Outcome-cases {ℓ κ} :
    {E : Type ℓ} {A : Type κ} (m : Outcome E A)
    → ((a : A) × (m ≡ ok a)) ⊎ (((e : E) × (m ≡ err e)) ⊎ (m ≡ panic))
Outcome-cases (ok a) = inl (a, refl)
Outcome-cases (err x) = inr (inl (x, refl))
Outcome-cases panic = inr (inr refl)
