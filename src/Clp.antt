-- ===== src/Clp.antt =====
-- x/clp: continuous liquidity pools, their data, messages and errors.
pub mod Env
pub mod Keeper
pub mod Handler
pub mod Create
pub mod Paid
pub mod Trade
pub mod Refused
pub mod Rest
pub mod Cli
mod Tests
use Prim.Native.String.{len}
use thorchain_v.Base.{ℕ, String, ◌<>◌, Bool, Option, none, some, List, [], ◌∷◌, ◌==◌, if◌then◌else◌}
use thorchain_v.Base.Int.{ℤ}
use thorchain_v.Sdk.Types.{Address, SdkError, new_error, unknown_address}

-- `decimals` is a `uint8`, `reserve_ratio` an `int`, and the supplies are `int64`.
pub record Clp : Type 0 where
  pub creator : Address
  pub ticker : String
  pub name : String
  pub decimals : ℕ
  pub reserve_ratio : ℤ
  pub initial_supply : ℤ
  pub current_supply : ℤ
  pub account_address : Address

abbrev pub new_clp : Address → String → String → ℕ → ℤ → ℤ → Address → Clp
new_clp sender ticker name decimals reserve_ratio initial_supply account_address = record {
  creator = sender;
  ticker = ticker;
  name = name;
  decimals = decimals;
  reserve_ratio = reserve_ratio;
  initial_supply = initial_supply;
  current_supply = initial_supply;
  account_address = account_address;
}

abbrev pub new_clp_address : String → Address
new_clp_address ticker = "t0clpaddr" <> ticker

pub record MsgCreate : Type 0 where
  pub sender : Address
  pub ticker : String
  pub name : String
  pub decimals : ℕ
  pub reserve_ratio : ℤ
  pub initial_supply : ℤ
  pub initial_base_coin_amount : ℤ

pub record MsgTrade : Type 0 where
  pub sender : Address
  pub from_ticker : String
  pub to_ticker : String
  pub from_amount : ℤ

-- `ValidateBasic` of both messages looks at the sender only.
abbrev validate_sender : Address → Option SdkError
validate_sender sender = if len sender == 0 then some unknown_address else none

unfoldable pub validate_create : MsgCreate → Option SdkError
validate_create msg = validate_sender msg.sender

unfoldable pub validate_trade : MsgTrade → Option SdkError
validate_trade msg = validate_sender msg.sender

abbrev pub clp_codespace : ℕ
clp_codespace = 14

abbrev pub err_invalid_reserve_ratio : ℕ → SdkError
err_invalid_reserve_ratio codespace =
    new_error codespace 141 "reserve ratio must be higher than zero and less than or equal to 100"

abbrev pub err_clp_exists : ℕ → SdkError
err_clp_exists codespace = new_error codespace 142 "clp already exists for this ticker symbol"

abbrev pub err_clp_not_exists : ℕ → SdkError
err_clp_not_exists codespace = new_error codespace 143 "clp does not exist for this ticker symbol"

abbrev pub err_invalid_ticker_name : ℕ → SdkError
err_invalid_ticker_name codespace =
    new_error codespace 144 "cannot create clp for base ticker symbol"

abbrev pub err_not_enough_coins : ℕ → SdkError
err_not_enough_coins codespace = new_error codespace 146 "not enough coins to make trade"

abbrev pub err_invalid_initial_supply : ℕ → SdkError
err_invalid_initial_supply codespace = new_error codespace 147 "initial supply must be positive"

abbrev pub err_invalid_initial_base_coins : ℕ → SdkError
err_invalid_initial_base_coins codespace =
    new_error codespace 148 "initial base coins sent must be positive"

abbrev pub err_clp_empty : ℕ → SdkError
err_clp_empty codespace = new_error codespace 149 "clp is too empty"

abbrev pub err_same_coin : ℕ → SdkError
err_same_coin codespace = new_error codespace 150 "cannot trade same coin"
