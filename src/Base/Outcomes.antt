-- ===== src/Base/Outcomes.antt =====
-- What a C++ call comes to: a value, an exception, or behaviour that the language leaves undefined
-- (a read or write outside a block, a copy between overlapping areas, an indeterminate value).
use mathlib.Core.Path.{◌≡◌, refl, ap, ◌∙◌, subst}
use mathlib.Core.Logic.{◌≢◌}
use mathlib.Core.Bool.{Bool, true, false}
use mathlib.Core.Option.{Option, none, some}
use lite_cpplib.Base.Tests.{if◌then◌else◌}
use native.Mathlib.Omega.{arith}

-- The exceptions that the modelled code throws; `int_minus_one` is `throw -1`.
pub data Exception : Type 0 where
  null_ptr access_violation runtime_error invalid_param int_minus_one : Exception

pub data Outcome {ℓ} (A : Type ℓ) : Type ℓ where
  ok : A → Outcome A
  throw : Exception → Outcome A
  undefined : Outcome A

infixl 5 ◌>>=◌ ◌>>◌
abbrev pub ◌>>=◌ {ℓ κ} : {A : Type ℓ} {B : Type κ} → Outcome A → (A → Outcome B) → Outcome B
ok a >>= f = f a
throw e >>= f = throw e
undefined >>= f = undefined

abbrev pub ◌>>◌ {ℓ} : {B : Type ℓ} → Outcome (Unit {0}) → Outcome B → Outcome B
m >> k = m >>= λ _. k

-- A value that the abstract machine does not have is undefined behaviour.
abbrev pub defined {ℓ} : {A : Type ℓ} → Option A → Outcome A
defined none = undefined
defined (some a) = ok a

abbrev pub throw_if : Bool → Exception → Outcome (Unit {0})
throw_if true e = throw e
throw_if false e = ok tt

abbrev value_or {ℓ} : {A : Type ℓ} → A → Outcome A → A
value_or d (ok a) = a
value_or d (throw e) = d
value_or d undefined = d

pub ok_inj {ℓ} : {A : Type ℓ} {a b : A} → ok a ≡ ok b → a ≡ b
ok_inj {a = a} h = ap (value_or a) h

pub undefined_not_ok {ℓ} : {A : Type ℓ} {a : A} → undefined ≢ ok a
undefined_not_ok h = grind arith

pub throw_not_ok {ℓ} : {A : Type ℓ} {e : Exception} {a : A} → throw e ≢ ok a
throw_not_ok h = grind arith

-- A sequence that returns has parts that return.
pub bind_ok {ℓ κ} :
    {A : Type ℓ} {B : Type κ} (m : Outcome A) (f : A → Outcome B) {b : B}
    → (m >>= f) ≡ ok b
    → (a : A) × (m ≡ ok a) × (f a ≡ ok b)
bind_ok (ok a) f h = (a, refl, h)
bind_ok (throw e) f h = absurd (throw_not_ok h)
bind_ok undefined f h = absurd (undefined_not_ok h)

pub defined_ok {ℓ} : {A : Type ℓ} {o : Option A} {a : A} → defined o ≡ ok a → o ≡ some a
defined_ok {o = none} h = absurd (undefined_not_ok h)
defined_ok {o = some a} h = ap some (ok_inj h)

-- What holds of the value, if there is one.
pub record Ensures {ℓ κ} {A : Type ℓ} (P : A → Type κ) (m : Outcome A) : Type (ℓ ⊔ κ) where
  pub holds : (a : A) → m ≡ ok a → P a

pub Ensures-value {ℓ κ} : {A : Type ℓ} {P : A → Type κ} (a : A) → P a → Ensures P (ok a)
Ensures-value {P = P} a h = record { holds = λ b e. subst P (ok_inj e) h }

pub Ensures-undefined {ℓ κ} : {A : Type ℓ} {P : A → Type κ} → Ensures P undefined
Ensures-undefined = record { holds = λ b e. absurd (undefined_not_ok e) }

pub Ensures-bind {ℓ κ μ ν} :
    {A : Type ℓ} {B : Type κ} {P : A → Type μ} {Q : B → Type ν} (m : Outcome A) (f : A → Outcome B)
    → Ensures P m
    → ((a : A) → P a → Ensures Q (f a))
    → Ensures Q (m >>= f)
Ensures-bind (ok a) f h k = k a (h.holds a refl)
Ensures-bind (throw e) f h k = record { holds = λ b x. absurd (throw_not_ok x) }
Ensures-bind undefined f h k = Ensures-undefined

-- A value of which nothing but its origin is known
pub Ensures-any {ℓ κ ν} :
    {A : Type ℓ} {B : Type κ} {Q : B → Type ν} (m : Outcome A) (f : A → Outcome B)
    → ((a : A) → m ≡ ok a → Ensures Q (f a))
    → Ensures Q (m >>= f)
Ensures-any m f k = Ensures-bind m f (record { holds = λ a e. e }) k

pub Ensures-if {ℓ κ} :
    {A : Type ℓ} {P : A → Type κ} (b : Bool) {m n : Outcome A}
    → (b ≡ true → Ensures P m)
    → (b ≡ false → Ensures P n)
    → Ensures P (if b then m else n)
Ensures-if true h k = h refl
Ensures-if false h k = k refl

-- Equations of a call that is read step by step.
pub bind_then {ℓ κ} :
    {A : Type ℓ} {B : Type κ} (m : Outcome A) (f : A → Outcome B) {a : A} {r : Outcome B}
    → m ≡ ok a
    → f a ≡ r
    → (m >>= f) ≡ r
bind_then m f e h = ap (λ n. n >>= f) e ∙ h

pub if_then {ℓ} :
    {A : Type ℓ} {b : Bool} (m n : A) {r : A} → b ≡ true → m ≡ r → (if b then m else n) ≡ r
if_then m n e h = ap (λ c. if c then m else n) e ∙ h

pub if_else {ℓ} :
    {A : Type ℓ} {b : Bool} (m n : A) {r : A} → b ≡ false → n ≡ r → (if b then m else n) ≡ r
if_else m n e h = ap (λ c. if c then m else n) e ∙ h

pub bind_undefined {ℓ κ} :
    {A : Type ℓ} {B : Type κ} (m : Outcome A) (f : A → Outcome B)
    → m ≡ undefined
    → (m >>= f) ≡ undefined
bind_undefined m f e = ap (λ n. n >>= f) e

pub bind_throw {ℓ κ} :
    {A : Type ℓ} {B : Type κ} (m : Outcome A) (f : A → Outcome B) {e : Exception}
    → m ≡ throw e
    → (m >>= f) ≡ throw e
bind_throw m f h = ap (λ n. n >>= f) h

pub Ensures-option {ℓ κ μ} :
    {A : Type ℓ} {B : Type μ} {P : A → Type κ} (o : Option B) {n : Outcome A} {f : B → Outcome A}
    → Ensures P n
    → ((b : B) → Ensures P (f b))
    → Ensures P (elim o [ none ↦ n | some b ↦ f b ])
Ensures-option none h k = h
Ensures-option (some b) h k = k b

pub Ensures-weaken {ℓ κ μ} :
    {A : Type ℓ} {P : A → Type κ} {Q : A → Type μ} {m : Outcome A}
    → ((a : A) → P a → Q a)
    → Ensures P m
    → Ensures Q m
Ensures-weaken f h = record { holds = λ a e. f a (h.holds a e) }
