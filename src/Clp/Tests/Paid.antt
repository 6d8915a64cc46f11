-- ===== src/Clp/Tests/Paid.antt =====
-- What trades pay, at small inputs.
use thorchain_v.Base.{◌≡◌, refl, sym, subst, String, true, false, eq_iff, arith}
use thorchain_v.Base.Int.{ℤ, pos, ◌+ℤ◌, ◌-ℤ◌, ◌*ℤ◌}
use thorchain_v.Sdk.Types.{Address}
use thorchain_v.Sdk.Keeper.{ok}
use thorchain_v.Clp.{new_clp_address}
use thorchain_v.Clp.Env.{Pools}
use thorchain_v.Clp.Keeper.{create, trade, calculate_coins_emitted}
use thorchain_v.Clp.Trade.{IsPayable}
use thorchain_v.Clp.Paid.{IsTradeable, trade-pays, moved, pays, emitted, pool}
use thorchain_v.Clp.Paid.Through.{base_emitted, sold, bought, paid_through, trade-pays_through}
use thorchain_v.Clp.Tests.{
  whole_pools, whole_pools-IsLawful, pooled, traded, payable_40, payable_1000,
}

eth-IsTradeable : IsTradeable whole_pools whole_pools-IsLawful "ann" "ETH" (pos 40) pooled true
unfolding create ◌+ℤ◌ ◌-ℤ◌
eth-IsTradeable = record {
  stored = refl;
  named = λ e. let clash : false ≡ true = (eq_iff "ETH" "").1 e in cc clash;
  not_base = λ e. let clash : false ≡ true = (eq_iff "ETH" "RUNE").1 e in cc clash;
  apart = λ e. let clash : false ≡ true = (eq_iff "ann" (new_clp_address "ETH")).1 e in cc clash;
  positive = omega arith;
  fits = payable_40.fits;
  enough = omega arith;
  held_fits = record { above = omega arith; below = omega arith };
  base_fits = record { above = omega arith; below = omega arith };
  clp_fits = record { above = omega arith; below = omega arith };
  filled = omega arith;
}

eth_emitted : emitted whole_pools whole_pools-IsLawful "ann" "ETH" (pos 40) pooled true ≡ pos 1000
unfolding create ◌+ℤ◌ ◌-ℤ◌ calculate_coins_emitted ◌*ℤ◌
eth_emitted = refl

abbrev eth_address : Address
eth_address = (pool whole_pools whole_pools-IsLawful "ann" "ETH" (pos 40) pooled).account_address

abbrev eth_coins : ℤ
eth_coins = emitted whole_pools whole_pools-IsLawful "ann" "ETH" (pos 40) pooled true

trade-pays_example :
    (v : Pools whole_pools) × (trade whole_pools "ann" "RUNE" "ETH" (pos 40) pooled
      ≡ (ok (eth_coins, pos 40), v))
    × (v.store ≡ pooled.store)
    × ((x : Address) (d : String)
        → whole_pools.bank.amount_of v.bank x d
          ≡ pays eth_address "ann" "ETH" eth_coins
              (moved "ann" eth_address "RUNE" (pos 40) (whole_pools.bank.amount_of pooled.bank))
              x
              d)
trade-pays_example =
    trade-pays whole_pools whole_pools-IsLawful "ann" "ETH" (pos 40) pooled true eth-IsTradeable
      (subst IsPayable (sym eth_emitted) payable_1000)

-- Ann has sold her base coins, and makes a second pool with the rest of them.
abbrev two_pools : Pools whole_pools
two_pools = (create whole_pools "ann" "BTC" "Bitcoin" 8 (pos 100) (pos 500) (pos 20) traded).1

abbrev runes : ℤ
runes = base_emitted whole_pools whole_pools-IsLawful "ann" "ETH" "BTC" (pos 1000) two_pools

abbrev half_way : Pools whole_pools
half_way = sold whole_pools whole_pools-IsLawful "ann" "ETH" "BTC" (pos 1000) two_pools

sale-IsTradeable :
    IsTradeable whole_pools whole_pools-IsLawful "ann" "ETH" (pos 1000) two_pools false
unfolding create trade ◌+ℤ◌ ◌-ℤ◌ ◌*ℤ◌
sale-IsTradeable = record {
  stored = refl;
  named = λ e. let clash : false ≡ true = (eq_iff "ETH" "").1 e in cc clash;
  not_base = λ e. let clash : false ≡ true = (eq_iff "ETH" "RUNE").1 e in cc clash;
  apart = λ e. let clash : false ≡ true = (eq_iff "ann" (new_clp_address "ETH")).1 e in cc clash;
  positive = omega arith;
  fits = payable_1000.fits;
  enough = omega arith;
  held_fits = record { above = omega arith; below = omega arith };
  base_fits = record { above = omega arith; below = omega arith };
  clp_fits = record { above = omega arith; below = omega arith };
  filled = omega arith;
}

runes_lem : runes ≡ pos 80
unfolding create trade ◌+ℤ◌ ◌-ℤ◌ calculate_coins_emitted ◌*ℤ◌
runes_lem = refl

purchase-IsTradeable : IsTradeable whole_pools whole_pools-IsLawful "ann" "BTC" runes half_way true
unfolding create trade ◌+ℤ◌ ◌-ℤ◌ calculate_coins_emitted ◌*ℤ◌
purchase-IsTradeable = record {
  stored = refl;
  named = λ e. let clash : false ≡ true = (eq_iff "BTC" "").1 e in cc clash;
  not_base = λ e. let clash : false ≡ true = (eq_iff "BTC" "RUNE").1 e in cc clash;
  apart = λ e. let clash : false ≡ true = (eq_iff "ann" (new_clp_address "BTC")).1 e in cc clash;
  positive = omega arith;
  fits = record { above = omega arith; below = omega arith };
  enough = omega arith;
  held_fits = record { above = omega arith; below = omega arith };
  base_fits = record { above = omega arith; below = omega arith };
  clp_fits = record { above = omega arith; below = omega arith };
  filled = omega arith;
}

-- The second pool has only 500 coins to give.
bought_lem :
    bought whole_pools whole_pools-IsLawful "ann" "ETH" "BTC" (pos 1000) two_pools ≡ pos 2000
unfolding create trade ◌+ℤ◌ ◌-ℤ◌ calculate_coins_emitted ◌*ℤ◌
bought_lem = refl

abbrev payable_80 : IsPayable (pos 80)
payable_80 = record {
  not_negative = omega arith;
  fits = record { above = omega arith; below = omega arith };
}

abbrev payable_2000 : IsPayable (pos 2000)
payable_2000 = record {
  not_negative = omega arith;
  fits = record { above = omega arith; below = omega arith };
}

trade-pays_through_example :
    (v : Pools whole_pools) × (trade whole_pools "ann" "ETH" "BTC" (pos 1000) two_pools ≡ (
      ok (bought whole_pools whole_pools-IsLawful "ann" "ETH" "BTC" (pos 1000) two_pools, runes),
      v,
    ))
    × (v.store ≡ two_pools.store)
    × ((x : Address) (d : String)
        → whole_pools.bank.amount_of v.bank x d
          ≡ paid_through whole_pools whole_pools-IsLawful "ann" "ETH" "BTC"
              (pos 1000)
              two_pools
              x
              d)
trade-pays_through_example =
    trade-pays_through whole_pools whole_pools-IsLawful "ann" "ETH" "BTC" (pos 1000) two_pools
      (λ e. let clash : false ≡ true = (eq_iff "ETH" "BTC").1 e in cc clash) sale-IsTradeable
      purchase-IsTradeable (subst IsPayable (sym runes_lem) payable_80)
      (subst IsPayable (sym bought_lem) payable_2000)
