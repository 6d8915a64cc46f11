-- ===== src/Clp/Paid.antt =====
-- What a trade with one pool pays: `ProcessCLPTrade` of x/clp/keeper.go along the two routes of
-- `trade` that have the base coin at one end.
pub mod Through
use thorchain_v.Base.{
  ◌≡◌, ◌≢◌, refl, sym, ap, ◌∙◌, String, Bool, true, false, arith, eq_iff, str_eq, ◌||◌,
  if◌then◌else◌, inl, inr,
}
use thorchain_v.Base.Int.{ℤ, pos, ◌≤ℤ◌, ◌<ℤ◌, ◌+ℤ◌, ◌-ℤ◌, leb_ℤ, ltb_ℤ, InInt64, ≤ℤ_total}
use thorchain_v.Sdk.Types.{Address, Coin}
use thorchain_v.Sdk.Keeper.{ok}
use thorchain_v.Clp.{Clp}
use thorchain_v.Clp.Env.{ClpEnv, Pools, IsLawful}
use thorchain_v.Clp.Keeper.{
  trade, process_clp_trade, get_clp, decode_clp, make_clp_store_key, make_payments,
  trade_with_balances, calculate_coins_emitted, route,
}
use thorchain_v.Clp.Trade.{IsPayable}

-- Balances after `n` coins of a denom have gone from one account to another.
abbrev pub moved : Address → Address → String → ℤ → (Address → String → ℤ) → Address → String → ℤ
moved a b d n f x e =
    if str_eq e d
    then (if str_eq x a then f x e -ℤ n else if str_eq x b then f x e +ℤ n else f x e)
    else f x e

-- Balances after a payment, which is made only if the payer has the coins.
abbrev pub pays : Address → Address → String → ℤ → (Address → String → ℤ) → Address → String → ℤ
pays a b d n f = if leb_ℤ n (f a d) then moved a b d n f else f

pub differs : (a b : String) → a ≢ b → str_eq a b ≡ false
differs a b h = ground (arith, eq_iff a b, h)

module _ (E : ClpEnv) (L : IsLawful E) where
  send_coins-moves :
      (s : E.bank.State) (a b : Address) (c : Coin)
      → a ≢ b
      → pos 0 ≤ℤ c.amount
      → c.amount ≤ℤ E.bank.amount_of s a c.denom
      → (x : Address) (d : String)
      → E.bank.amount_of (E.bank.send_coins s a b c).1 x d
        ≡ moved a b c.denom c.amount (E.bank.amount_of s) x d
  send_coins-moves s a b c n p q x d =
      L.bank.amount_of-send_coins s a b c x d p q
      ∙ L.bank.amount_of-add_coins (E.bank.subtract_coins s a c).1 b c x d p
      ∙ ground (arith, L.bank.amount_of-subtract_coins s a c x d p q, eq_iff x a, eq_iff x b, n)

  send_coins-pays :
      (s : E.bank.State) (a b : Address) (d : String) (n : ℤ)
      → a ≢ b
      → IsPayable n
      → (x : Address) (e : String)
      → E.bank.amount_of (E.bank.send_coins s a b (E.coins.new_int64_coin d n)).1 x e
        ≡ pays a b d n (E.bank.amount_of s) x e
  send_coins-pays s a b d n ne p x e =
      let coin : Coin = record { denom = d; amount = n } in
      rw (L.coins.new_int64_coin_lem d n p.fits) (elim (≤ℤ_total n (E.bank.amount_of s a d)) [
        | inl h ↦
            let yes : leb_ℤ n (E.bank.amount_of s a d) ≡ true = ground arith in
            rw yes (send_coins-moves s a b coin ne p.not_negative h x e)
        | inr h ↦
            let no_coins : leb_ℤ n (E.bank.amount_of s a d) ≡ false = ground arith in
            let (_, short) = L.bank.send_coins_short s a b coin h in
            rw no_coins (ap (λ r. E.bank.amount_of r.1 x e) short)
      ])

  module _ (sender : Address) (ticker : String) (n : ℤ) (w : Pools E) where
    abbrev pub pool : Clp
    pool = decode_clp E (E.store.get w.store (make_clp_store_key ticker))

    abbrev pub balance : String → ℤ
    balance d = E.bank.amount_of w.bank pool.account_address d

    abbrev pub source : Bool → String
    source buy = if buy then E.base_coin_ticker else ticker

    abbrev pub target : Bool → String
    target buy = if buy then ticker else E.base_coin_ticker

    abbrev pub emitted : Bool → ℤ
    emitted buy = calculate_coins_emitted E pool (balance E.base_coin_ticker) n buy

    -- A pool of another denom than the base coin's, with coins to give, a sender who is not its
    -- account and holds what is to be paid, and balances that `Int64` does not panic at.
    pub record IsTradeable (buy : Bool) : Type 0 where
      pub stored : pool.ticker ≡ ticker
      pub named : ticker ≢ ""
      pub not_base : ticker ≢ E.base_coin_ticker
      pub apart : sender ≢ pool.account_address
      pub positive : pos 0 <ℤ n
      pub fits : InInt64 n
      pub enough : n ≤ℤ E.bank.amount_of w.bank sender (source buy)
      pub held_fits : InInt64 (E.bank.amount_of w.bank sender (source buy))
      pub base_fits : InInt64 (balance E.base_coin_ticker)
      pub clp_fits : InInt64 (balance ticker)
      pub filled : pos 0 <ℤ balance (target buy)

    abbrev pub after : Bool → Pools E
    after buy = record w {
      bank =
          (E.bank.send_coins
            (E.bank.send_coins w.bank sender pool.account_address
              (E.coins.new_int64_coin (source buy) n)).1
            pool.account_address sender (E.coins.new_int64_coin (target buy) (emitted buy))).1;
    }

    abbrev answer : Bool → ℤ × ℤ
    answer buy = (emitted buy, if buy then n else emitted buy)

    pub process_clp_trade_lem :
        (buy : Bool)
        → IsTradeable buy
        → process_clp_trade E sender ticker n buy w ≡ (ok (emitted buy), after buy)
    unfolding process_clp_trade get_clp trade_with_balances make_payments
    process_clp_trade_lem true h =
        let some_coins : leb_ℤ (balance ticker) (pos 0) ≡ false =
          (let f = h.filled in ground arith) in
        rw
          (
            h.stored,
            differs ticker "" h.named,
            L.coins.int64_total (balance E.base_coin_ticker) h.base_fits,
            L.coins.int64_total (balance ticker) h.clp_fits,
            some_coins,
          )
          refl
    process_clp_trade_lem false h =
        let some_coins : leb_ℤ (balance E.base_coin_ticker) (pos 0) ≡ false =
          (let f = h.filled in ground arith) in
        rw
          (
            h.stored,
            differs ticker "" h.named,
            L.coins.int64_total (balance E.base_coin_ticker) h.base_fits,
            L.coins.int64_total (balance ticker) h.clp_fits,
            some_coins,
          )
          refl

    first_payment :
        (buy : Bool)
        → IsTradeable buy
        → (x : Address) (d : String)
        → E.bank.amount_of
            (E.bank.send_coins w.bank sender pool.account_address
              (E.coins.new_int64_coin (source buy) n)).1
            x
            d
          ≡ moved sender pool.account_address (source buy) n (E.bank.amount_of w.bank) x d
    first_payment buy h x d =
        let p = h.positive in
        let coin : Coin = record { denom = source buy; amount = n } in
        rw (L.coins.new_int64_coin_lem (source buy) n h.fits) (
          send_coins-moves w.bank sender pool.account_address coin h.apart (omega arith) h.enough x
            d)

    trade_lem :
        (buy : Bool)
        → IsTradeable buy
        → trade E sender (source buy) (target buy) n w ≡ (ok (answer buy), after buy)
    unfolding trade route
    trade_lem true h =
        let base : str_eq E.base_coin_ticker ticker ≡ false =
          differs E.base_coin_ticker ticker (λ e. h.not_base (sym e)) in
        let held = E.bank.amount_of w.bank sender E.base_coin_ticker in
        let may : (leb_ℤ n (pos 0) || ltb_ℤ held n) ≡ false =
          (let p = h.positive in let q = h.enough in ground arith) in
        let same : str_eq E.base_coin_ticker E.base_coin_ticker ≡ true =
          (eq_iff E.base_coin_ticker E.base_coin_ticker).1 refl in
        rw (base, L.coins.int64_total held h.held_fits, may, same, process_clp_trade_lem true h)
          refl
    trade_lem false h =
        let base : str_eq ticker E.base_coin_ticker ≡ false =
          differs ticker E.base_coin_ticker h.not_base in
        let held = E.bank.amount_of w.bank sender ticker in
        let may : (leb_ℤ n (pos 0) || ltb_ℤ held n) ≡ false =
          (let p = h.positive in let q = h.enough in ground arith) in
        let same : str_eq E.base_coin_ticker E.base_coin_ticker ≡ true =
          (eq_iff E.base_coin_ticker E.base_coin_ticker).1 refl in
        rw (base, L.coins.int64_total held h.held_fits, may, same, process_clp_trade_lem false h)
          refl

    pub after-pays :
        (buy : Bool)
        → IsTradeable buy
        → IsPayable (emitted buy)
        → (x : Address) (d : String)
        → E.bank.amount_of (after buy).bank x d
          ≡ pays pool.account_address sender
              (target buy)
              (emitted buy)
              (moved sender pool.account_address (source buy) n (E.bank.amount_of w.bank))
              x
              d
    after-pays buy h p x d =
        let address = pool.account_address in
        let paid =
          E.bank.send_coins w.bank sender address (E.coins.new_int64_coin (source buy) n) in
        send_coins-pays paid.1 address sender (target buy) (emitted buy) (λ e. h.apart (sym e)) p x
          d
        ∙ ap (λ f. pays address sender (target buy) (emitted buy) f x d)
            (λ i y e. first_payment buy h y e i)

    -- A trade of base coins, or for base coins, of an amount that is positive and an `int64`, with a
    -- stored pool of another denom that has coins to give, by a sender who is not the pool's account
    -- and holds what is to be paid, where the sender's balance and the pool's two are `int64`s, ends
    -- without an error and changes no pool's record. The sender pays the pool what was to be traded,
    -- and then the pool pays the sender the coins emitted, if it has as many; if not, nothing is
    -- given for the payment, and the trade answers with the coins emitted all the same. No other
    -- balance changes. The coins emitted have to be an `int64` that is not negative.
    pub trade-pays :
        (buy : Bool)
        → IsTradeable buy
        → IsPayable (emitted buy)
        → (v : Pools E) × (trade E sender (source buy) (target buy) n w
            ≡ (ok (emitted buy, if buy then n else emitted buy), v))
          × (v.store ≡ w.store)
          × ((x : Address) (d : String)
              → E.bank.amount_of v.bank x d
                ≡ pays pool.account_address sender
                    (target buy)
                    (emitted buy)
                    (moved sender pool.account_address (source buy) n (E.bank.amount_of w.bank))
                    x
                    d)
    trade-pays buy h p = (after buy, trade_lem buy h, refl, after-pays buy h p)
