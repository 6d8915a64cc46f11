-- ===== src/Sdk/Command.antt =====
-- What a command of the command line comes to, and how its early returns compose.
use thorchain_v.Base.{◌≡◌, refl, String, Option, none, some}
use thorchain_v.Sdk.Types.{SdkError}
use thorchain_v.Sdk.Web.{Call, done, error}

-- It has a value, it ends with an error, or it panics.
pub data Command (A : Type 0) : Type 0 where
  ran : A → Command A
  stopped : String → Command A
  crashed : Command A

infixl 5 ◌>>=◌ ◌>>◌
abbrev pub ◌>>=◌ : {A B : Type 0} → Command A → (A → Command B) → Command B
ran a >>= f = f a
stopped text >>= f = stopped text
crashed >>= f = crashed

abbrev pub ◌>>◌ : {A : Type 0} → Command (Unit {0}) → Command A → Command A
m >> k = m >>= λ _. k

-- `if err != nil { return err }`
abbrev pub or_stop : {A : Type 0} → Call A → Command A
or_stop (done a) = ran a
or_stop (error text) = stopped text

-- The same for an `sdk.Error`, with its text.
abbrev pub check : (SdkError → String) → Option SdkError → Command (Unit {0})
check error_text none = ran tt
check error_text (some e) = stopped (error_text e)

pub bind-eq-ran :
    {A B : Type 0} (m : Command A) (f : A → Command B) {b : B}
    → (m >>= f) ≡ ran b
    → (a : A) × (m ≡ ran a) × (f a ≡ ran b)
bind-eq-ran (ran a) f e = (a, refl, e)
bind-eq-ran (stopped text) f e = cc e
bind-eq-ran crashed f e = cc e

pub or_stop-eq-ran : {A : Type 0} (c : Call A) (a : A) → or_stop c ≡ ran a → c ≡ done a
or_stop-eq-ran (done b) a e = cc e
or_stop-eq-ran (error text) a e = cc e

pub check-eq-ran :
    (error_text : SdkError → String) (o : Option SdkError) → check error_text o ≡ ran tt → o ≡ none
check-eq-ran error_text none e = refl
check-eq-ran error_text (some x) e = cc e
