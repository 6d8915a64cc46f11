-- ===== src/Sdk/Keeper.antt =====
-- Keeper methods: a state that is changed step by step, errors as values and panics. What was
-- written before an error stays written in the context.
use thorchain_v.Base.{◌≡◌, refl, ap, Bool, Option, none, some, if◌then◌else◌}
use thorchain_v.Sdk.Types.{SdkError}

pub data Outcome (A : Type 0) : Type 0 where
  ok : A → Outcome A
  err : SdkError → Outcome A
  panic : Outcome A

abbrev pub Keeper : Type 0 → Type 0 → Type 0
Keeper W A = W → Outcome A × W

-- What follows a step, by how it ended.
abbrev pub resume : {W A B : Type 0} → (A → Keeper W B) → Outcome A × W → Outcome B × W
resume f (ok a, w) = f a w
resume f (err e, w) = (err e, w)
resume f (panic, w) = (panic, w)

infixl 5 ◌>>=◌ ◌>>◌
abbrev pub ◌>>=◌ : {W A B : Type 0} → Keeper W A → (A → Keeper W B) → Keeper W B
◌>>=◌ m f w = resume f (m w)

-- A step that is known can be taken.
pub >>=-eq :
    {W A B : Type 0} (m : Keeper W A) (f : A → Keeper W B) (w : W) {r : Outcome A × W}
    → m w ≡ r
    → (m >>= f) w ≡ resume f r
>>=-eq m f w e = ap (resume f) e

abbrev pub ◌>>◌ : {W A : Type 0} → Keeper W (Unit {0}) → Keeper W A → Keeper W A
m >> k = m >>= λ _. k

module _ {W : Type 0} where
  abbrev pub pure : {A : Type 0} → A → Keeper W A
  pure a w = (ok a, w)

  abbrev pub raise : {A : Type 0} → SdkError → Keeper W A
  raise e w = (err e, w)

  -- A computation that reads no state.
  abbrev pub lift : {A : Type 0} → Outcome A → Keeper W A
  lift r w = (r, w)

  abbrev pub gets : {A : Type 0} → (W → A) → Keeper W A
  gets f w = (ok (f w), w)

  abbrev pub raise_if : Bool → SdkError → Keeper W (Unit {0})
  raise_if c e w = (if c then err e else ok tt, w)

  -- `if err != nil { return err }`
  abbrev pub check : Option SdkError → Keeper W (Unit {0})
  check none w = (ok tt, w)
  check (some e) w = (err e, w)

-- What a sequence of steps that ends without an error has gone through.
resume-eq-ok :
    {W A B : Type 0} (f : A → Keeper W B) (r : Outcome A × W) {b : B} {v : W}
    → resume f r ≡ (ok b, v)
    → (a : A) × (u : W) × (r ≡ (ok a, u)) × (f a u ≡ (ok b, v))
resume-eq-ok f (ok a, u) e = (a, u, refl, e)
resume-eq-ok f (err x, u) e = cc e
resume-eq-ok f (panic, u) e = cc e

pub bind-eq-ok :
    {W A B : Type 0} (m : Keeper W A) (f : A → Keeper W B) (w : W) {b : B} {v : W}
    → (m >>= f) w ≡ (ok b, v)
    → (a : A) × (u : W) × (m w ≡ (ok a, u)) × (f a u ≡ (ok b, v))
bind-eq-ok m f w e = resume-eq-ok f (m w) e
