-- ===== src/Sdk/Bank.antt =====
-- `bank.Keeper`, as far as the source calls it: always with one coin in the `sdk.Coins`. A call
-- gives the error, if there is one, and the state after it. The laws speak of coins whose amount
-- is not negative, and of balances far from the bound of an `sdk.Int`.
use thorchain_v.Base.{◌≡◌, ◌↔◌, String, Bool, true, Option, none, some, ◌&&◌, str_eq}
use thorchain_v.Base.{if◌then◌else◌}
use thorchain_v.Base.Int.{ℤ, pos, ◌+ℤ◌, ◌-ℤ◌, ◌≤ℤ◌, ◌<ℤ◌}
use thorchain_v.Sdk.Types.{Address, Coin, SdkError}

pub record Bank : Type 1 where
  pub State : Type 0
  -- `GetCoins(ctx, a).AmountOf(d)`
  pub amount_of : State → Address → String → ℤ
  pub has_coins : State → Address → Coin → Bool
  pub add_coins : State → Address → Coin → Option SdkError × State
  pub subtract_coins : State → Address → Coin → Option SdkError × State
  -- `SendCoins(ctx, from, to, coins)`
  pub send_coins : State → Address → Address → Coin → Option SdkError × State

pub record IsLawful (B : Bank) : Type 0 where
  -- The sum of the balances of all accounts.
  pub supply : B.State → String → ℤ
  pub has_coins_iff :
      (s : B.State) (a : Address) (c : Coin)
      → (B.has_coins s a c ≡ true) ↔ (c.amount ≤ℤ B.amount_of s a c.denom)
  pub add_coins_ok :
      (s : B.State) (a : Address) (c : Coin) → pos 0 ≤ℤ c.amount → (B.add_coins s a c).0 ≡ none
  pub amount_of-add_coins :
      (s : B.State) (a : Address) (c : Coin) (b : Address) (d : String)
      → pos 0 ≤ℤ c.amount
      → B.amount_of (B.add_coins s a c).1 b d ≡ (
          if str_eq b a && str_eq d c.denom
          then B.amount_of s b d +ℤ c.amount
          else B.amount_of s b d)
  pub supply-add_coins :
      (s : B.State) (a : Address) (c : Coin) (d : String)
      → pos 0 ≤ℤ c.amount
      → supply (B.add_coins s a c).1 d
        ≡ (if str_eq d c.denom then supply s d +ℤ c.amount else supply s d)
  pub subtract_coins_ok :
      (s : B.State) (a : Address) (c : Coin)
      → pos 0 ≤ℤ c.amount
      → c.amount ≤ℤ B.amount_of s a c.denom
      → (B.subtract_coins s a c).0 ≡ none
  pub subtract_coins_short :
      (s : B.State) (a : Address) (c : Coin)
      → B.amount_of s a c.denom <ℤ c.amount
      → (e : SdkError) × (B.subtract_coins s a c ≡ (some e, s))
  pub amount_of-subtract_coins :
      (s : B.State) (a : Address) (c : Coin) (b : Address) (d : String)
      → pos 0 ≤ℤ c.amount
      → c.amount ≤ℤ B.amount_of s a c.denom
      → B.amount_of (B.subtract_coins s a c).1 b d ≡ (
          if str_eq b a && str_eq d c.denom
          then B.amount_of s b d -ℤ c.amount
          else B.amount_of s b d)
  pub supply-subtract_coins :
      (s : B.State) (a : Address) (c : Coin) (d : String)
      → pos 0 ≤ℤ c.amount
      → c.amount ≤ℤ B.amount_of s a c.denom
      → supply (B.subtract_coins s a c).1 d
        ≡ (if str_eq d c.denom then supply s d -ℤ c.amount else supply s d)
  pub send_coins_ok :
      (s : B.State) (a b : Address) (c : Coin)
      → pos 0 ≤ℤ c.amount
      → c.amount ≤ℤ B.amount_of s a c.denom
      → (B.send_coins s a b c).0 ≡ none
  pub send_coins_short :
      (s : B.State) (a b : Address) (c : Coin)
      → B.amount_of s a c.denom <ℤ c.amount
      → (e : SdkError) × (B.send_coins s a b c ≡ (some e, s))
  pub amount_of-send_coins :
      (s : B.State) (a b : Address) (c : Coin) (x : Address) (d : String)
      → pos 0 ≤ℤ c.amount
      → c.amount ≤ℤ B.amount_of s a c.denom
      → B.amount_of (B.send_coins s a b c).1 x d
        ≡ B.amount_of (B.add_coins (B.subtract_coins s a c).1 b c).1 x d
  pub supply-send_coins :
      (s : B.State) (a b : Address) (c : Coin) (d : String)
      → pos 0 ≤ℤ c.amount
      → c.amount ≤ℤ B.amount_of s a c.denom
      → supply (B.send_coins s a b c).1 d ≡ supply s d
