-- ===== src/Sdk/Coins.antt =====
-- The methods of `sdk.Coin` and `sdk.Int` that the source calls, and their documented laws.
use thorchain_v.Base.{◌+◌, ◌^◌, ◌<◌, ◌≡◌, ◌↔◌, String, Bool, true, Option, some}
use thorchain_v.Base.Int.{ℤ, pos, pos_part, neg_part, InInt64, ◌-ℤ◌, ◌*ℤ◌, ◌≤ℤ◌, ◌<ℤ◌}
use thorchain_v.Sdk.Types.{Coin}

pub record CoinOps : Type 0 where
  -- `Coin.IsZero`, `Coin.IsPositive`, `Coin.IsGTE`, `Coin.Minus`, `sdk.NewInt64Coin`
  pub is_zero : Coin → Bool
  pub is_positive : Coin → Bool
  pub is_gte : Coin → Coin → Bool
  pub minus : Coin → Coin → Coin
  pub new_int64_coin : String → ℤ → Coin
  -- `Int.Mul` and `Int.Int64`; `none` is a panic, out of range.
  pub mul : ℤ → ℤ → Option ℤ
  pub int64 : ℤ → Option ℤ

-- The numbers that an `sdk.Int` can hold.
abbrev pub InRange : ℤ → Type 0
InRange a = pos_part a + neg_part a < 2 ^ 255

pub record IsLawful (C : CoinOps) : Type 0 where
  pub is_zero_iff : (c : Coin) → (C.is_zero c ≡ true) ↔ (c.amount ≡ pos 0)
  pub is_positive_iff : (c : Coin) → (C.is_positive c ≡ true) ↔ (pos 0 <ℤ c.amount)
  pub is_gte_iff :
      (c d : Coin) → (C.is_gte c d ≡ true) ↔ ((c.denom ≡ d.denom) × (d.amount ≤ℤ c.amount))
  pub minus_lem :
      (c d : Coin)
      → c.denom ≡ d.denom
      → pos 0 ≤ℤ d.amount
      → d.amount ≤ℤ c.amount
      → C.minus c d ≡ record { denom = c.denom; amount = c.amount -ℤ d.amount }
  pub new_int64_coin_lem :
      (d : String) (n : ℤ) → InInt64 n → C.new_int64_coin d n ≡ record { denom = d; amount = n }
  pub mul_lem : (a b : ℤ) {c : ℤ} → C.mul a b ≡ some c → c ≡ a *ℤ b
  pub mul_fits : (a b : ℤ) {c : ℤ} → C.mul a b ≡ some c → InRange c
  pub mul_total : (a b : ℤ) → InRange (a *ℤ b) → C.mul a b ≡ some (a *ℤ b)
  pub int64_lem : (a : ℤ) {b : ℤ} → C.int64 a ≡ some b → (b ≡ a) × InInt64 b
  pub int64_total : (a : ℤ) → InInt64 a → C.int64 a ≡ some a
