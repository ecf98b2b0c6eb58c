-- ===== src/Prelude/Errors.antt =====
-- apps/api/src/lib/errors.ts: what a service throws, without the message, and `await` as bind.
use mathlib.Core.Path.{◌≡◌, refl, sym}
use securtxn.Prelude.Tests.{if◌then◌else◌}
use mathlib.Core.Bool.{Bool, true, false}
use mathlib.Core.Option.{Option, none, some}

-- The domain errors, two that libraries throw, which are a broken unique constraint (Prisma P2002)
-- and a value that its schema refuses (ZodError) or that cannot be serialised, and the errors that
-- modules/worldid and modules/vendorMatch declare; `internal` is a plain `Error`.
pub data Error : Type 0 where
  bad_request forbidden not_found conflict unprocessable unique_violation invalid_value internal
        verification_failed signal_mismatch nullifier_replay not_enrolled different_human
        match_timeout match_failed :
      Error

-- What a service's promise settles to.
pub data Result {ℓ} (A : Type ℓ) : Type ℓ where
  err : Error → Result A
  ok : A → Result A

-- `if (o === null) throw e`
abbrev pub present {ℓ} : {A : Type ℓ} → Option A → Error → Result A
present none e = err e
present (some a) e = ok a

-- `await m`, and on with what it gives.
infixl 5 ◌>>=◌ ◌>>◌
abbrev pub ◌>>=◌ {κ μ} : {V : Type κ} {W : Type μ} → Result V → (V → Result W) → Result W
err thrown >>= next = err thrown
ok value >>= next = next value

-- `if (!c) throw e`
abbrev pub require : Bool → Error → Result (Unit {0})
require false e = err e
require true e = ok tt

abbrev pub ◌>>◌ {μ} : {W : Type μ} → Result (Unit {0}) → Result W → Result W
first >> rest = first >>= λ _. rest

-- A run that returned has returned at its first step.
pub >>=-split {κ μ} :
    {V : Type κ} {W : Type μ} {w : W} (next : V → Result W) (first : Result V)
    → (first >>= next) ≡ ok w
    → (v : V) × (next v ≡ ok w) × (first ≡ ok v)
>>=-split next (err thrown) h = cc
>>=-split next (ok v) h = (v, h, refl)

pub present-eq-ok {ℓ} :
    {A : Type ℓ} (o : Option A) (e : Error) {a : A} → present o e ≡ ok a → o ≡ some a
present-eq-ok none e h = cc
present-eq-ok (some a) e h = cc

pub ok-injective {ℓ} : {A : Type ℓ} {a b : A} → ok a ≡ ok b → a ≡ b
ok-injective h = cc

pub err-not-ok {ℓ} : {A : Type ℓ} {e : Error} {a : A} → err e ≡ ok a → ⊥
err-not-ok h = cc

pub require-eq-ok : (c : Bool) (e : Error) {u : Unit {0}} → require c e ≡ ok u → c ≡ true
require-eq-ok true e h = refl
require-eq-ok false e h = cc

-- Whatever is returned satisfies `P`; an error may be thrown.
abbrev pub Returns {ℓ κ} : {A : Type ℓ} → (A → Type κ) → Result A → Type κ
Returns P (ok a) = P a
Returns P (err e) = Unit

pub Returns-bind {ℓ κ μ} :
    {A : Type ℓ} {B : Type κ} (P : B → Type μ) (m : Result A) (f : A → Result B)
    → ((a : A) → m ≡ ok a → Returns P (f a))
    → Returns P (m >>= f)
Returns-bind P (ok a) f k = k a refl
Returns-bind P (err e) f k = tt

pub Returns-require {κ μ} :
    {B : Type κ} (P : B → Type μ) (c : Bool) (e : Error) (m : Result B)
    → (c ≡ true → Returns P m)
    → Returns P (require c e >> m)
Returns-require P true e m k = k refl
Returns-require P false e m k = tt

pub Returns-ok {ℓ κ} :
    {A : Type ℓ} (P : A → Type κ) (m : Result A) (a : A) → Returns P m → m ≡ ok a → P a
Returns-ok P (ok x) a h e = rw (sym (ok-injective e)) h
Returns-ok P (err x) a h e = absurd (err-not-ok e)

pub Returns-eq {ℓ κ} :
    {A : Type ℓ} (P : A → Type κ) (m : Result A) → ((a : A) → m ≡ ok a → P a) → Returns P m
Returns-eq P (ok a) k = k a refl
Returns-eq P (err e) k = tt

pub ite-Returns {ℓ κ} :
    {A : Type ℓ} (P : A → Type κ) (c : Bool) (m n : Result A)
    → Returns P m
    → Returns P n
    → Returns P (if c then m else n)
ite-Returns P true m n h k = h
ite-Returns P false m n h k = k

pub if-Returns {ℓ κ} :
    {A : Type ℓ} (P : A → Type κ) (c : Bool) (m n : Result A)
    → (c ≡ true → Returns P m)
    → (c ≡ false → Returns P n)
    → Returns P (if c then m else n)
if-Returns P true m n h k = h refl
if-Returns P false m n h k = k refl
