-- ===== src/Sdk/Web.antt =====
-- What a handler of the REST client writes, and how its early returns compose.
use thorchain_v.Base.{ℕ, ◌≡◌, refl, String, Bool, true, false, Option, none, some, if◌then◌else◌}

-- The status that was written, if any, and the body. With none, the server answers 200.
pub record Response : Type 0 where
  pub status : Option ℕ
  pub body : String

abbrev pub plain : String → Response
plain body = record { status = none; body = body }

abbrev pub refusal : ℕ → String → Response
refusal status body = record { status = some status; body = body }

-- A step of a handler: it has a value, or it has written an answer and returns, or it panics.
pub data Web (A : Type 0) : Type 0 where
  value : A → Web A
  answer : Response → Web A
  crash : Web A

infixl 5 ◌>>=◌ ◌>>◌
abbrev pub ◌>>=◌ : {A B : Type 0} → Web A → (A → Web B) → Web B
value a >>= f = f a
answer r >>= f = answer r
crash >>= f = crash

abbrev pub ◌>>◌ : {A : Type 0} → Web (Unit {0}) → Web A → Web A
m >> k = m >>= λ _. k

abbrev pub refuse_if : Bool → ℕ → String → Web (Unit {0})
refuse_if c status text = if c then answer (refusal status text) else value tt

-- A call of another library: a value, or an error with its text.
pub data Call (A : Type 0) : Type 0 where
  done : A → Call A
  error : String → Call A

-- `writeErr(&w, status, err.Error())` and a return.
abbrev pub or_refuse : {A : Type 0} → ℕ → Call A → Web A
or_refuse status (done a) = value a
or_refuse status (error text) = answer (refusal status text)

-- What a step that has a value has gone through.
pub bind-eq-value :
    {A B : Type 0} (m : Web A) (f : A → Web B) {b : B}
    → (m >>= f) ≡ value b
    → (a : A) × (m ≡ value a) × (f a ≡ value b)
bind-eq-value (value a) f e = (a, refl, e)
bind-eq-value (answer r) f e = cc
bind-eq-value crash f e = cc

pub or_refuse-eq-value :
    {A : Type 0} (status : ℕ) (c : Call A) (a : A) → or_refuse status c ≡ value a → c ≡ done a
or_refuse-eq-value status (done b) a e = cc e
or_refuse-eq-value status (error text) a e = cc e

pub refuse_if-eq-value :
    (c : Bool) (status : ℕ) (text : String) → refuse_if c status text ≡ value tt → c ≡ false
refuse_if-eq-value true status text e = cc e
refuse_if-eq-value false status text e = refl
