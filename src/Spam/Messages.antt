-- ===== src/Spam/Messages.antt =====
-- The random messages of cmd/thorchainspam/txs/send.go.
mod Draws
pub mod Order
use thorchain_v.Base.{
  ℕ, ◌+◌, ◌*◌, String, Bool, true, false, not, ◌||◌, List, [], ◌∷◌, ◌==◌, if◌then◌else◌, Option,
  none, some, length,
}
use thorchain_v.Base.Int.{ℤ, pos, ◌+ℤ◌, ltb_ℤ}
use thorchain_v.Sdk.Types.{Coin, Address, Time}
use thorchain_v.Sdk.Keeper.{ok, ◌>>=◌, pure, lift}
use thorchain_v.Clp.{MsgTrade}
use thorchain_v.Exchange.Orders.{OrderKind, buy_order, sell_order}
use thorchain_v.Exchange.Message.{MsgCreateLimitOrder}
use thorchain_v.Spam.Random.{
  SpamEnv, Random, int64_or_panic, or_panic, get_random_coins_up_to, get_random_coin,
  get_random_clp_denom_except, get_random_limit_order_denoms,
}

pub data Msg (S : Type 0) : Type 0 where
  send : S → Msg S
  trade : MsgTrade → Msg S
  create_limit_order : MsgCreateLimitOrder → Msg S

-- 24 hours, in nanoseconds.
abbrev one_day : Time
one_day = 24 * 60 * 60 * 1000000000

-- `exchange.NewMsgCreateLimitOrder`, with the expiry that the tool gives.
abbrev pub new_order : Time → Address → OrderKind → Coin → Coin → MsgCreateLimitOrder
new_order now sender kind amount price = record {
  sender = sender;
  kind = kind;
  amount = amount;
  price = price;
  expires_at = now + one_day;
}

-- Which side is taken: one with nothing to spend is not.
abbrev pub choose_side : Bool → Bool → Bool → Option Bool
choose_side heads can_buy can_sell =
    if not can_buy
    then (if not can_sell then none else some false)
    else (if not can_sell then some true else some (not heads))

module _ (E : SpamEnv) where
  -- A message and the coins that it uses, or none: the third result, `ok`, is false then.
  abbrev pub Made : Type 0
  Made = Option (Msg E.SendMsg × List Coin)

  unfoldable pub make_random_tx_msg : Address → List Coin → Address → Random E Made
  make_random_tx_msg from current_coins to = do
    random_coins ← get_random_coins_up_to E current_coins 100000
    pure (some (send (E.build_msg from to random_coins), random_coins))

  -- The message for the chosen coin, when a denomination to trade for was found.
  abbrev trade_msg : Address → Coin → Option String → Random E Made
  trade_msg from clp_from none = pure none
  trade_msg from clp_from (some clp_to) = do
    amount ← int64_or_panic E clp_from.amount
    pure (
        some (
          trade (record {
            sender = from;
            from_ticker = clp_from.denom;
            to_ticker = clp_to;
            from_amount = amount;
          }),
          clp_from ∷ [],
        ))

  abbrev trade_from : Address → List String → List Coin → Random E Made
  trade_from from clps random_coins = do
    clp_from ← get_random_coin E random_coins
    clp_to ← get_random_clp_denom_except E clps clp_from.denom
    trade_msg from clp_from clp_to

  unfoldable pub make_random_clp_msg : Address → List Coin → List String → Random E Made
  make_random_clp_msg from current_coins clps = do
    random_coins ← get_random_coins_up_to E current_coins 100000
    let none_left = length random_coins == 0
    let useless = not (E.lists.is_not_negative random_coins) || E.lists.is_zero random_coins
    if none_left || useless then pure none else trade_from from clps random_coins

  -- `rand.Int63n(total.Amount.Int64())+1`
  abbrev pub random_price : ℤ → Random E ℤ
  random_price total = do
    most ← int64_or_panic E total
    drawn ← E.generator.int63n most
    pure (drawn +ℤ pos 1)

  abbrev pub buy_msg : Time → Address → String → Coin → Random E Made
  buy_msg now from amt_denom total = do
    drawn ← random_price total.amount
    let price = E.coins.new_int64_coin total.denom drawn
    amt ← lift (or_panic (E.lists.div total.amount price.amount))
    pure (
        some (
          create_limit_order (new_order now from buy_order (E.lists.new_coin amt_denom amt) price),
          total ∷ [],
        ))

  abbrev pub sell_msg : Time → Address → String → Coin → Random E Made
  sell_msg now from price_denom amt = do
    drawn ← random_price amt.amount
    pure (
        some (
          create_limit_order
              (new_order now from sell_order amt (E.coins.new_int64_coin price_denom drawn)),
          amt ∷ [],
        ))

  -- `none` when both sides are excluded.
  abbrev pub side_msg : Time → Address → Coin → Coin → Option Bool → Random E Made
  side_msg now from amt total none = pure none
  side_msg now from amt total (some true) = buy_msg now from amt.denom total
  side_msg now from amt total (some false) = sell_msg now from total.denom amt

  -- `rand.Float32() < 0.5`
  abbrev pub toss : Random E Bool
  toss s = let (x, t) = E.generator.float32 s in (ok (E.generator.below_half x), t)

  unfoldable pub make_random_limit_order_msg :
      Time → Address → List Coin → List (List String) → Random E Made
  make_random_limit_order_msg now from current_coins pairs = do
    denoms ← get_random_limit_order_denoms E pairs
    random_coins ← get_random_coins_up_to E current_coins 1000
    let amt = E.lists.new_coin denoms.0 (E.lists.amount_of random_coins denoms.0)
    let total = E.lists.new_coin denoms.1 (E.lists.amount_of random_coins denoms.1)
    heads ← toss
    side_msg now from amt total
        (choose_side heads (ltb_ℤ (pos 0) total.amount) (ltb_ℤ (pos 0) amt.amount))
