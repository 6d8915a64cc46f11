-- ===== src/Spam/Messages/Order.antt =====
-- The random limit orders: what they offer and what they cost.
use thorchain_v.Base.{
  ℕ, String, Bool, true, false, List, [], ◌∷◌, Option, none, some, length, ◌≡◌, ◌⊎◌, inl, inr, refl,
  sym, subst, All, All-imp, arith,
}
use thorchain_v.Base.Chars.{IsNonempty}
use thorchain_v.Base.Int.{pos, ◌*ℤ◌, ◌≤ℤ◌, ◌<ℤ◌, ltb_ℤ, InInt64}
use thorchain_v.Sdk.Coins
use thorchain_v.Sdk.Types.{Coin, Address, Time}
use thorchain_v.Sdk.Keeper.{ok}
use thorchain_v.Exchange.Orders.{buy_order, sell_order}
use thorchain_v.Exchange.Message.{MsgCreateLimitOrder}
use thorchain_v.Spam.Parse.{Flags, SpamCtx, IsPair, read_flags}
use thorchain_v.Spam.Parse.Pairs.{read_flags-pairs, parse_limit_order_pairs_iff}
use thorchain_v.Spam.Random.{SpamEnv, IsLawful, IsLawfulList, Covers}
use thorchain_v.Spam.Random.Bounds.{Drawn, get_random_coins_up_to-Drawn, Drawn-Finds}
use thorchain_v.Spam.Messages.Draws.{
  int64_below, Covers-InInt64, get_random_limit_order_denoms_total, random_price_within,
  quotient_lem,
}
use thorchain_v.Spam.Messages.{
  new_order, Msg, create_limit_order, Made, buy_msg, sell_msg, side_msg, choose_side,
  make_random_limit_order_msg,
}

pub record IsAffordable (coins : List Coin) (msg : MsgCreateLimitOrder) (used : Coin) : Type 0 where
  pub offer : pos 0 <ℤ msg.amount.amount
  pub price : pos 0 <ℤ msg.price.amount
  pub held : Covers coins used.denom used.amount
  pub cost :
      ((msg.kind ≡ sell_order) × (used ≡ msg.amount))
      ⊎ ((msg.kind ≡ buy_order)
          × (used.denom ≡ msg.price.denom)
          × (msg.amount.amount *ℤ msg.price.amount ≤ℤ used.amount))

-- No message, or a limit order that the coins it uses pay for.
pub data IsSound {S : Type 0} (coins : List Coin) : Option (Msg S × List Coin) → Type 0 where
  nothing : IsSound coins none
  order :
      (msg : MsgCreateLimitOrder) (used : Coin)
      → IsAffordable coins msg used
      → IsSound coins (some (create_limit_order msg, used ∷ []))

choose_side_lem :
    (heads can_buy can_sell : Bool)
    → (choose_side heads can_buy can_sell ≡ some false → can_sell ≡ true)
      × (choose_side heads can_buy can_sell ≡ some true → can_buy ≡ true)
choose_side_lem heads true true = (λ e. refl, λ e. refl)
choose_side_lem heads true false = (λ e. ground (arith, e), λ e. refl)
choose_side_lem heads false true = (λ e. refl, λ e. ground (arith, e))
choose_side_lem heads false false = (λ e. ground (arith, e), λ e. ground (arith, e))

module _ (E : SpamEnv) (G : IsLawful E.generator) (C : Coins.IsLawful E.coins)
    (K : IsLawfulList E.lists) where
  buy_msg-IsSound :
      (now : Time) (from : Address) (amt_denom : String) (coins : List Coin) (total : Coin)
      (s : E.generator.Seed)
      → pos 0 <ℤ total.amount
      → InInt64 total.amount
      → Covers coins total.denom total.amount
      → (r : Made E) × (t : E.generator.Seed) × (buy_msg E now from amt_denom total s ≡ (ok r, t))
        × IsSound coins r
  buy_msg-IsSound now from amt_denom coins total s h k l =
      let (p, t, e, low, high) = random_price_within E G C K total.amount s h k in
      let priced = C.new_int64_coin_lem total.denom p (int64_below p total.amount low high k) in
      let (q, quotient, offered, cost) = quotient_lem E G C K total.amount p low high in
      let amount = K.new_coin_lem amt_denom q (omega (arith, offered)) in
      let offer : Coin = record { denom = amt_denom; amount = q } in
      let price : Coin = record { denom = total.denom; amount = p } in
      (
        some (create_limit_order (new_order now from buy_order offer price), total ∷ []),
        t,
        rw (e, priced, quotient, amount) refl,
        order (new_order now from buy_order offer price) total
            (record { offer = offered; price = low; held = l; cost = inr (refl, refl, cost) }),
      )

  sell_msg-IsSound :
      (now : Time) (from : Address) (price_denom : String) (coins : List Coin) (amt : Coin)
      (s : E.generator.Seed)
      → pos 0 <ℤ amt.amount
      → InInt64 amt.amount
      → Covers coins amt.denom amt.amount
      → (r : Made E) × (t : E.generator.Seed) × (sell_msg E now from price_denom amt s ≡ (ok r, t))
        × IsSound coins r
  sell_msg-IsSound now from price_denom coins amt s h k l =
      let (p, t, e, low, high) = random_price_within E G C K amt.amount s h k in
      let priced = C.new_int64_coin_lem price_denom p (int64_below p amt.amount low high k) in
      let price : Coin = record { denom = price_denom; amount = p } in
      (
        some (create_limit_order (new_order now from sell_order amt price), amt ∷ []),
        t,
        rw (e, priced) refl,
        order (new_order now from sell_order amt price) amt
            (record { offer = h; price = low; held = l; cost = inl (refl, refl) }),
      )

  abbrev IsFunded : List Coin → Coin → Type 0
  IsFunded coins c = (pos 0 <ℤ c.amount) × InInt64 c.amount × Covers coins c.denom c.amount

  -- One of the two sides, or neither.
  side_msg-IsSound :
      (now : Time) (from : Address) (coins : List Coin) (amt total : Coin) (side : Option Bool)
      (s : E.generator.Seed)
      → (side ≡ some false → IsFunded coins amt)
      → (side ≡ some true → IsFunded coins total)
      → (r : Made E) × (t : E.generator.Seed) × (side_msg E now from amt total side s ≡ (ok r, t))
        × IsSound coins r
  side_msg-IsSound now from coins amt total none s h k = (none, s, refl, nothing)
  side_msg-IsSound now from coins amt total (some true) s h k =
      let (many, fits, held) = k refl in
      buy_msg-IsSound now from amt.denom coins total s many fits held
  side_msg-IsSound now from coins amt total (some false) s h k =
      let (many, fits, held) = h refl in
      sell_msg-IsSound now from total.denom coins amt s many fits held

  new_coin-IsFunded :
      (coins random_coins : List Coin) (d : String) (n : ℕ)
      → All (λ c. InInt64 c.amount) coins
      → Drawn n coins random_coins
      → let c = E.lists.new_coin d (E.lists.amount_of random_coins d) in
        pos 0 <ℤ c.amount → IsFunded coins c
  new_coin-IsFunded coins random_coins d n h drawn =
      let a = E.lists.amount_of random_coins d in
      elim (K.amount_of-Finds random_coins d) [
        | inl zero_amount ↦
            subst (λ c. pos 0 <ℤ c.amount → IsFunded coins c)
              (sym (K.new_coin_lem d a (ground (arith, zero_amount))))
              (λ many. absurd (ground (arith, many, zero_amount)))
        | inr found ↦
            let (many, held) = Drawn-Finds drawn d a found in
            subst (λ c. pos 0 <ℤ c.amount → IsFunded coins c)
              (sym (K.new_coin_lem d a (omega arith)))
              (λ h'. (many, Covers-InInt64 coins d a h many held, held))
      ]

  make_order-IsSound :
      (now : Time) (from : Address) (coins : List Coin) (pairs : List (List String))
      (s : E.generator.Seed)
      → All (λ c. InInt64 c.amount) coins
      → IsNonempty pairs
      → All (λ ds. length ds ≡ 2) pairs
      → (r : Made E) × (t : E.generator.Seed) × (make_random_limit_order_msg E now from coins pairs
            s
          ≡ (ok r, t))
        × IsSound coins r
  unfolding make_random_limit_order_msg
  make_order-IsSound now from coins pairs s h k l =
      let (ds, t, named) = get_random_limit_order_denoms_total E G C K pairs s k l in
      let (random_coins, u, e, drawn) = get_random_coins_up_to-Drawn E G C coins 1000 t h in
      let amt = E.lists.new_coin ds.0 (E.lists.amount_of random_coins ds.0) in
      let total = E.lists.new_coin ds.1 (E.lists.amount_of random_coins ds.1) in
      let heads = E.generator.below_half (E.generator.float32 u).0 in
      let can_buy = ltb_ℤ (pos 0) total.amount in
      let can_sell = ltb_ℤ (pos 0) amt.amount in
      let side = choose_side heads can_buy can_sell in
      let (sell, buy) = choose_side_lem heads can_buy can_sell in
      let (r, v, made, sound) =
        side_msg-IsSound now from coins amt total side (E.generator.float32 u).1
          (λ o. new_coin-IsFunded coins random_coins ds.0 1000 h drawn (ground (arith, sell o)))
          (λ o. new_coin-IsFunded coins random_coins ds.1 1000 h drawn (ground (arith, buy o))) in
      (r, v, rw (named, e) made, sound)

  -- With the context that the flags gave, and coins whose amounts fit an `int64`, making a random
  -- limit order never panics, whatever is drawn. What is made, if anything, is an order of positive
  -- amount and price, and the coins that it is counted to use are held, and pay for all of it.
  pub make_random_limit_order_msg-IsSound :
      (flags : Flags) (ctx : SpamCtx) (now : Time) (from : Address) (coins : List Coin)
      (s : E.generator.Seed)
      → read_flags flags ≡ inr ctx
      → All (λ c. InInt64 c.amount) coins
      → (r : Made E) × (t : E.generator.Seed) × (make_random_limit_order_msg E now from coins
            ctx.limit_order_pairs s
          ≡ (ok r, t))
        × IsSound coins r
  make_random_limit_order_msg-IsSound flags ctx now from coins s h k =
      let given = read_flags-pairs flags ctx h in
      let (some_pair, pairs, _) =
        (parse_limit_order_pairs_iff flags.limit_order_pairs ctx.limit_order_pairs).0 given in
      make_order-IsSound now from coins ctx.limit_order_pairs s k some_pair
        (All-imp IsPair (λ ds. length ds ≡ 2) (λ ds p. p.two) ctx.limit_order_pairs pairs)
