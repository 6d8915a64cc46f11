-- ===== src/Clp/Keeper.antt =====
-- The methods of x/clp/keeper.go.
use thorchain_v.Base.{
  ℕ, String, ◌<>◌, Bool, true, false, not, ◌&&◌, ◌||◌, Option, none, some, str_eq, if◌then◌else◌,
}
use thorchain_v.Base.Int.{ℤ, pos, ltb_ℤ, leb_ℤ}
use thorchain_v.Sdk.Types.{Address, SdkError}
use thorchain_v.Sdk.Keeper.{Keeper, ok, panic, ◌>>=◌, ◌>>◌, pure, raise_if, check, gets}
use thorchain_v.Clp.{
  Clp, new_clp, new_clp_address, clp_codespace, err_invalid_reserve_ratio, err_clp_exists,
  err_clp_not_exists, err_invalid_ticker_name, err_not_enough_coins, err_invalid_initial_supply,
  err_invalid_initial_base_coins, err_clp_empty, err_same_coin,
}
use thorchain_v.Clp.Env.{ClpEnv, Pools}

abbrev pub make_clp_store_key : String → String
make_clp_store_key ticker = "clp:" <> ticker

-- The zero value of a `CLP`.
abbrev pub zero_clp : Clp
zero_clp = new_clp "" "" "" 0 (pos 0) (pos 0) ""

abbrev pub or_panic : {W A : Type 0} → Option A → Keeper W A
or_panic none w = (panic, w)
or_panic (some a) w = (ok a, w)

module _ (E : ClpEnv) where
  abbrev pub bank_call :
      (E.bank.State → Option SdkError × E.bank.State) → Keeper (Pools E) (Option SdkError)
  bank_call f w = let (e, s) = f w.bank in (ok e, record w { bank = s })

  -- `Int.Int64`, a panic out of range.
  abbrev pub int64_or_panic : ℤ → Keeper (Pools E) ℤ
  int64_or_panic a = or_panic (E.coins.int64 a)

  abbrev pub decode_clp : Option E.store.Bytes → Clp
  decode_clp none = zero_clp
  decode_clp (some bz) = (E.pools.unmarshal bz zero_clp).1

  -- With nothing stored, `UnmarshalBinary` fails and leaves the zero value.
  unfoldable pub get_clp : String → Keeper (Pools E) Clp
  get_clp ticker = gets (λ w. decode_clp (E.store.get w.store (make_clp_store_key ticker)))

  unfoldable pub ensure_nonexistent_clp : String → Keeper (Pools E) (Unit {0})
  unfolding get_clp
  ensure_nonexistent_clp ticker = do
    clp ← get_clp ticker
    raise_if (not (str_eq clp.ticker "")) (err_clp_exists clp_codespace)

  unfoldable pub set_clp : Clp → Keeper (Pools E) (Unit {0})
  set_clp clp w = elim (E.pools.marshal clp) [
    | none ↦ (panic, w)
    | some bz ↦ (ok tt, record w { store = E.store.set w.store (make_clp_store_key clp.ticker) bz })
  ]

  -- The checks of `create`, in their order.
  unfoldable pub check_create : String → ℤ → ℤ → ℤ → Keeper (Pools E) (Unit {0})
  unfolding ensure_nonexistent_clp
  check_create ticker reserve_ratio initial_supply initial_base_coin_amount = do
    raise_if (leb_ℤ initial_supply (pos 0)) (err_invalid_initial_supply clp_codespace)
    raise_if (leb_ℤ initial_base_coin_amount (pos 0)) (err_invalid_initial_base_coins clp_codespace)
    raise_if (str_eq ticker E.base_coin_ticker) (err_invalid_ticker_name clp_codespace)
    ensure_nonexistent_clp ticker
    raise_if (leb_ℤ reserve_ratio (pos 0) || ltb_ℤ (pos 100) reserve_ratio)
        (err_invalid_reserve_ratio clp_codespace)

  -- What `create` does after its checks. The error of the second `AddCoins` is not looked at.
  unfoldable pub fund_clp : Address → String → String → ℕ → ℤ → ℤ → ℤ → Keeper (Pools E) (Unit {0})
  unfolding set_clp
  fund_clp sender ticker name decimals reserve_ratio initial_supply initial_base_coin_amount = do
    let initial_base_coins = E.coins.new_int64_coin E.base_coin_ticker initial_base_coin_amount
    e2 ← bank_call (λ s. E.bank.subtract_coins s sender initial_base_coins)
    check e2
    let clp_address = new_clp_address ticker
    let clp = new_clp sender ticker name decimals reserve_ratio initial_supply clp_address
    e3 ← bank_call (λ s. E.bank.add_coins s clp_address initial_base_coins)
    check e3
    let initial_clp_coins = E.coins.new_int64_coin ticker initial_supply
    e4 ← bank_call (λ s. E.bank.add_coins s clp_address initial_clp_coins)
    set_clp clp

  unfoldable pub create : Address → String → String → ℕ → ℤ → ℤ → ℤ → Keeper (Pools E) (Unit {0})
  unfolding check_create fund_clp
  create sender ticker name decimals reserve_ratio initial_supply initial_base_coin_amount = do
    check_create ticker reserve_ratio initial_supply initial_base_coin_amount
    fund_clp sender ticker name decimals reserve_ratio initial_supply initial_base_coin_amount

  -- y = a * ((1 + (b / c)) ^ d - 1), rounded
  unfoldable pub run_clp_formula :
      E.floats.Float → E.floats.Float → E.floats.Float → E.floats.Float → ℤ
  run_clp_formula a b c d =
      let F = E.floats in
      let one = F.of_int64 (pos 1) in
      F.round_to_int64 (F.times a (F.minus (F.pow (F.plus one (F.over b c)) d) one))

  -- `base_coin_balance` is the `int64` that the source reads from the pool's coins.
  unfoldable pub calculate_clp_price : Clp → ℤ → ℤ → E.floats.Float
  calculate_clp_price clp base_coin_balance coins_paid =
      let F = E.floats in
      let one = F.of_int64 (pos 1) in
      let c = F.of_int64 base_coin_balance in
      let a = F.of_int64 clp.current_supply in
      let d = F.over (F.of_int64 clp.reserve_ratio) (F.of_int64 (pos 100)) in
      let b = F.of_int64 coins_paid in
      F.over one (F.times a (F.minus (F.pow (F.plus one (F.over b c)) d) one))

  unfoldable pub calculate_coins_emitted : Clp → ℤ → ℤ → Bool → ℤ
  unfolding run_clp_formula
  calculate_coins_emitted clp base_coin_balance coins_paid buy =
      let F = E.floats in
      let balance = F.of_int64 base_coin_balance in
      let supply = F.of_int64 clp.current_supply in
      let ratio = F.over (F.of_int64 clp.reserve_ratio) (F.of_int64 (pos 100)) in
      let paid = F.of_int64 coins_paid in
      if buy
      then run_clp_formula supply paid balance ratio
      else run_clp_formula balance paid supply (F.over (F.of_int64 (pos 1)) ratio)

  -- The two payments of a trade. The errors of the two `SendCoins` are not looked at.
  unfoldable pub make_payments : Address → Clp → String → ℤ → String → ℤ → Keeper (Pools E) ℤ
  make_payments sender clp from_ticker from_amount to_ticker emitted = do
    let spent_from_coins = E.coins.new_int64_coin from_ticker from_amount
    let emitted_coins = E.coins.new_int64_coin to_ticker emitted
    e ← bank_call (λ s. E.bank.send_coins s sender clp.account_address spent_from_coins)
    e' ← bank_call (λ s. E.bank.send_coins s clp.account_address sender emitted_coins)
    pure emitted

  -- A trade with a pool that has these balances.
  unfoldable pub trade_with_balances : Address → Clp → ℤ → Bool → ℤ → ℤ → Keeper (Pools E) ℤ
  unfolding calculate_coins_emitted make_payments
  trade_with_balances sender clp from_amount buy clp_base_coin_balance clp_clp_coin_balance = do
    raise_if
        ((buy && leb_ℤ clp_clp_coin_balance (pos 0))
          || (not buy && leb_ℤ clp_base_coin_balance (pos 0)))
        (err_clp_empty clp_codespace)
    let from_ticker = if buy then E.base_coin_ticker else clp.ticker
    let to_ticker = if buy then clp.ticker else E.base_coin_ticker
    let emitted = calculate_coins_emitted clp clp_base_coin_balance from_amount buy
    make_payments sender clp from_ticker from_amount to_ticker emitted

  unfoldable pub process_clp_trade : Address → String → ℤ → Bool → Keeper (Pools E) ℤ
  unfolding get_clp trade_with_balances
  process_clp_trade sender clp_ticker from_amount buy = do
    clp ← get_clp clp_ticker
    clp_coins ← gets (λ w. E.bank.amount_of w.bank clp.account_address)
    raise_if (str_eq clp.ticker "") (err_clp_not_exists clp_codespace)
    clp_base_coin_balance ← int64_or_panic (clp_coins E.base_coin_ticker)
    clp_clp_coin_balance ← int64_or_panic (clp_coins clp.ticker)
    trade_with_balances sender clp from_amount buy clp_base_coin_balance clp_clp_coin_balance

  -- A trade for base coins, a trade of base coins, or one after the other: the coins emitted, and
  -- the base coins that changed hands.
  unfoldable pub route : Address → String → String → ℤ → Keeper (Pools E) (ℤ × ℤ)
  unfolding process_clp_trade
  route sender from_ticker to_ticker from_amount =
      if str_eq from_ticker E.base_coin_ticker
      then (do
        emitted ← process_clp_trade sender to_ticker from_amount true
        pure (emitted, from_amount))
      else if str_eq to_ticker E.base_coin_ticker
      then (do
        emitted ← process_clp_trade sender from_ticker from_amount false
        pure (emitted, emitted))
      else (do
        base_emitted ← process_clp_trade sender from_ticker from_amount false
        clp_emitted ← process_clp_trade sender to_ticker base_emitted true
        pure (clp_emitted, base_emitted))

  unfoldable pub trade : Address → String → String → ℤ → Keeper (Pools E) (ℤ × ℤ)
  unfolding route
  trade sender from_ticker to_ticker from_amount = do
    raise_if (str_eq from_ticker to_ticker) (err_same_coin clp_codespace)
    current_amount ← (gets (λ w. E.bank.amount_of w.bank sender from_ticker) >>= int64_or_panic)
    raise_if (leb_ℤ from_amount (pos 0) || ltb_ℤ current_amount from_amount)
        (err_not_enough_coins clp_codespace)
    route sender from_ticker to_ticker from_amount
