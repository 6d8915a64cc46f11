-- ===== src/Clp/Tests.antt =====
-- The pools at small inputs.
mod Paid
use thorchain_v.Base.{
  ◌≡◌, ◌≢◌, inr, refl, sym, subst, String, some, true, false, eq_iff, [], ◌∷◌, arith, str_eq,
  if◌then◌else◌, ◌/◌,
}
use thorchain_v.Base.Int.{ℤ, pos, pos_part, ◌+ℤ◌, ◌-ℤ◌, ◌*ℤ◌, ◌≤ℤ◌, ◌<ℤ◌}
use thorchain_v.Sdk.Types.{Address}
use thorchain_v.Sdk.Keeper.{ok}
use thorchain_v.Sdk.Samples.Bank.{credit, journal_bank, journal_bank-IsLawful}
use thorchain_v.Sdk.Samples.Coins.{plain_coins, plain_coins-IsLawful}
use thorchain_v.Sdk.Samples.Store.{list_store, list_store-IsLawful}
use thorchain_v.Clp.{Clp, new_clp, new_clp_address}
use thorchain_v.Clp.Env.{ClpEnv, Pools, IsLawful, Floats}
use thorchain_v.Clp.Keeper.{calculate_coins_emitted, create, make_clp_store_key, trade}
use thorchain_v.Clp.Refused.{trade-refuses}
use thorchain_v.Clp.Trade.{IsPayable, trade-conserves}
use thorchain_v.Clp.Paid.{IsTradeable, trade-pays, moved, pays, emitted, pool}
use thorchain_v.Clp.Create.{IsCreatable, create-mints}

-- No test here computes a price, so the numbers may be all the same.
abbrev no_floats : Floats
no_floats = record {
  Float = Unit {0};
  of_int64 = λ n. tt;
  plus = λ a b. tt;
  minus = λ a b. tt;
  times = λ a b. tt;
  over = λ a b. tt;
  pow = λ a b. tt;
  round_to_int64 = λ a. pos 0;
}

abbrev sample_pools : ClpEnv
sample_pools = record {
  coins = plain_coins;
  bank = journal_bank;
  store = list_store Clp;
  pools = record { marshal = λ c. some c; unmarshal = λ c d. (true, c) };
  floats = no_floats;
  base_coin_ticker = "RUNE";
}

abbrev sample_pools-IsLawful : IsLawful sample_pools
sample_pools-IsLawful = record {
  coins = plain_coins-IsLawful;
  bank = journal_bank-IsLawful;
  store = list_store-IsLawful Clp;
  pools = record { encode = λ c. c; marshal_lem = λ a. refl; unmarshal_lem = λ a d. refl };
}

abbrev start : Pools sample_pools
start = record {
  bank = credit "ann" (record { denom = "RUNE"; amount = pos 100 }) ∷ [];
  store = [];
}

eth-IsCreatable : IsCreatable sample_pools "ETH" (pos 50) (pos 1000) (pos 40) start.store
eth-IsCreatable = record {
  supply_positive = omega arith;
  base_positive = omega arith;
  not_base = λ e. let clash : false ≡ true = (eq_iff "ETH" "RUNE").1 e in cc clash;
  is_new = refl;
  ratio_positive = omega arith;
  ratio_within = omega arith;
}

abbrev eth_pool : Clp
eth_pool = new_clp "ann" "ETH" "Ether" 18 (pos 50) (pos 1000) (new_clp_address "ETH")

held : pos 40 ≤ℤ sample_pools.bank.amount_of start.bank "ann" "RUNE"
unfolding ◌+ℤ◌
held = omega arith

create-mints_example :
    let (r, v) = create sample_pools "ann" "ETH" "Ether" 18 (pos 50) (pos 1000) (pos 40) start in
    (r ≡ ok tt)
    × (sample_pools.store.get v.store (make_clp_store_key "ETH") ≡ some eth_pool)
    × ((d : String)
        → sample_pools-IsLawful.bank.supply v.bank d ≡ (
            if str_eq d "ETH"
            then sample_pools-IsLawful.bank.supply start.bank d +ℤ pos 1000
            else sample_pools-IsLawful.bank.supply start.bank d))
create-mints_example =
    create-mints sample_pools sample_pools-IsLawful "ann" "ETH" "Ether" 18 (pos 50) (pos 1000)
      (pos 40) start eth-IsCreatable (record { above = omega arith; below = omega arith })
      (record { above = omega arith; below = omega arith }) held

-- Whole numbers, with powers of exponent one only.
abbrev pub whole_floats : Floats
whole_floats = record {
  Float = ℤ;
  of_int64 = λ n. n;
  plus = λ a b. a +ℤ b;
  minus = λ a b. a -ℤ b;
  times = λ a b. a *ℤ b;
  over = λ a b. pos (pos_part a / pos_part b);
  pow = λ a b. a;
  round_to_int64 = λ a. a;
}

abbrev pub whole_pools : ClpEnv
whole_pools = record {
  coins = plain_coins;
  bank = journal_bank;
  store = list_store Clp;
  pools = record { marshal = λ c. some c; unmarshal = λ c d. (true, c) };
  floats = whole_floats;
  base_coin_ticker = "RUNE";
}

abbrev pub whole_pools-IsLawful : IsLawful whole_pools
whole_pools-IsLawful = record {
  coins = plain_coins-IsLawful;
  bank = journal_bank-IsLawful;
  store = list_store-IsLawful Clp;
  pools = record { encode = λ c. c; marshal_lem = λ a. refl; unmarshal_lem = λ a d. refl };
}

-- Ann has 60 of her 100 base coins left, and a pool at full reserve.
abbrev pub pooled : Pools whole_pools
pooled =
    (create whole_pools "ann" "ETH" "Ether" 18 (pos 100) (pos 1000) (pos 40) (record {
      bank = credit "ann" (record { denom = "RUNE"; amount = pos 100 }) ∷ [];
      store = [];
    })).1

abbrev pub traded : Pools whole_pools
traded = (trade whole_pools "ann" "RUNE" "ETH" (pos 40) pooled).1

trade_emits : trade whole_pools "ann" "RUNE" "ETH" (pos 40) pooled ≡ (ok (pos 1000, pos 40), traded)
unfolding trade create ◌+ℤ◌ ◌-ℤ◌ ◌*ℤ◌
trade_emits = refl

abbrev pub payable_40 : IsPayable (pos 40)
payable_40 = record {
  not_negative = omega arith;
  fits = record { above = omega arith; below = omega arith };
}

abbrev pub payable_1000 : IsPayable (pos 1000)
payable_1000 = record {
  not_negative = omega arith;
  fits = record { above = omega arith; below = omega arith };
}

trade-conserves_example :
    whole_pools-IsLawful.bank.supply traded.bank "RUNE"
    ≡ whole_pools-IsLawful.bank.supply pooled.bank "RUNE"
trade-conserves_example =
    trade-conserves whole_pools whole_pools-IsLawful "RUNE" "ann" "RUNE" "ETH" (pos 40) pooled
      traded (pos 1000) (pos 40) payable_40.fits payable_1000 payable_40 trade_emits

held_less : sample_pools.bank.amount_of start.bank "ann" "RUNE" <ℤ pos 101
unfolding ◌+ℤ◌
held_less = omega arith

trade-refuses_example :
    ((a : ℤ × ℤ) → (trade sample_pools "ann" "RUNE" "ETH" (pos 101) start).0 ≢ ok a)
    × ((trade sample_pools "ann" "RUNE" "ETH" (pos 101) start).1 ≡ start)
trade-refuses_example =
    trade-refuses sample_pools sample_pools-IsLawful "ann" "RUNE" "ETH" (pos 101) start
      (inr (inr held_less))
