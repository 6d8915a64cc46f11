-- ===== src/Sdk/Types.antt =====
-- Plain data of the SDK that x/clp and x/exchange read and build by field.
use thorchain_v.Base.{ℕ, String, Bool, ltb}
use thorchain_v.Base.Int.{ℤ}

-- `sdk.AccAddress` is a byte slice, here the text of the same bytes.
abbrev pub Address : Type 0
Address = String

-- A `time.Time`, as the number of nanoseconds from the zero time on.
abbrev pub Time : Type 0
Time = ℕ

abbrev pub before : Time → Time → Bool
before t u = ltb t u

-- `sdk.Coin`; an `sdk.Int` is an integer of up to 255 bits.
pub record Coin : Type 0 where
  pub denom : String
  pub amount : ℤ

-- `sdk.Error`: `new_error codespace code text` is `sdk.NewError`; the others are the SDK's own
-- constructors, without the texts that the source formats for them.
pub data SdkError : Type 0 where
  new_error : ℕ → ℕ → String → SdkError
  insufficient_coins internal unknown_address unknown_request : SdkError
  bank_error : ℕ → SdkError
