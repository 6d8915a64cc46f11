-- ===== src/Sdk/Samples/Coins.antt =====
-- Coins by plain integers.
use thorchain_v.Base.{
  ◌+◌, ◌^◌, refl, ◌&&◌, Option, none, some, str_eq, eq_iff, ltb, if◌then◌else◌, arith,
}
use thorchain_v.Base.Int.{ℤ, pos, pos_part, neg_part, ◌-ℤ◌, ◌*ℤ◌, leb_ℤ, ltb_ℤ, eqb_ℤ}
use thorchain_v.Sdk.Coins.{CoinOps, IsLawful}

abbrev product : ℤ → ℤ → Option ℤ
product a b = let c = a *ℤ b in if ltb (pos_part c + neg_part c) (2 ^ 255) then some c else none

abbrev narrow : ℤ → Option ℤ
narrow a = if ltb (pos_part a) (2 ^ 63) && ltb (neg_part a) (2 ^ 63 + 1) then some a else none

abbrev pub plain_coins : CoinOps
plain_coins = record {
  is_zero = λ c. eqb_ℤ c.amount (pos 0);
  is_positive = λ c. ltb_ℤ (pos 0) c.amount;
  is_gte = λ c d. str_eq c.denom d.denom && leb_ℤ d.amount c.amount;
  minus = λ c d. record { denom = c.denom; amount = c.amount -ℤ d.amount };
  new_int64_coin = λ d n. record { denom = d; amount = n };
  mul = product;
  int64 = narrow;
}

pub plain_coins-IsLawful : IsLawful plain_coins
plain_coins-IsLawful = record {
  is_zero_iff = λ c. ground arith;
  is_positive_iff = λ c. ground arith;
  is_gte_iff = λ c d. ground (arith, eq_iff c.denom d.denom);
  minus_lem = λ c d e h k. refl;
  new_int64_coin_lem = λ d n h. refl;
  mul_lem = λ a b h. ground arith;
  mul_fits = λ a b h. ground arith;
  mul_total = λ a b h. ground arith;
  int64_lem = λ a h. ground arith;
  int64_total = λ a h. ground arith;
}
