-- ===== src/Exchange/Matching/Spec.antt =====
-- What matching an incoming order against stored orders comes to, as relations.
use thorchain_v.Base.{
  String, ◌≡◌, ◌⊎◌, true, false, Option, none, some, List, [], ◌∷◌, ◌++◌, ◌==◌, if◌then◌else◌,
  str_eq,
}
use thorchain_v.Base.Int.{ℤ, pos, ◌≤ℤ◌, ◌<ℤ◌, ◌-ℤ◌, ◌*ℤ◌}
use thorchain_v.Sdk.Types.{Address, Coin, SdkError}
use thorchain_v.Sdk.Keeper.{Outcome, ok}
use thorchain_v.Exchange.Orders.{OrderKind, LimitOrder, FilledLimitOrder, buy_order}
use thorchain_v.Exchange.Fill.Laws.{crosses, smaller}
use thorchain_v.Exchange.Env.{Env}
use thorchain_v.Exchange.Matching.{FillStep, stop, failed, filled, Fills}

-- What the exchange holds for an order, in one denom: a buyer's price, a seller's amount.
abbrev pub locked : LimitOrder → String → ℤ
locked o d =
    if o.kind == buy_order
    then if str_eq d o.price.denom then o.amount.amount *ℤ o.price.amount else pos 0
    else if str_eq d o.amount.denom
    then o.amount.amount
    else pos 0

-- What the incoming side pays, and what it gets out of the exchange.
abbrev pub payment : OrderKind → Coin → Coin → Coin
payment kind quantity total = if kind == buy_order then total else quantity

abbrev pub release : OrderKind → Coin → Coin → Coin
release kind quantity total = if kind == buy_order then quantity else total

abbrev pub rest : LimitOrder → ℤ → LimitOrder
rest o n = record o { amount = record { denom = o.amount.denom; amount = o.amount.amount -ℤ n } }

module _ (E : Env) (sender : Address) (kind : OrderKind) (price : Coin) where
  -- A fill of `n` units of the stored order `o`, at that order's price, which crosses the limit. The
  -- incoming side pays the stored side directly, and gets from the exchange what was locked.
  pub record IsFilled (o : LimitOrder) (unfilled : Coin) (s : E.bank.State) (log : FilledLimitOrder)
      (o' : LimitOrder) (unfilled' : Coin) (s' : E.bank.State) : Type 0 where
    pub n : ℤ
    pub positive : pos 1 ≤ℤ n
    pub within_stored : n ≤ℤ o.amount.amount
    pub within_wanted : n ≤ℤ unfilled.amount
    pub one_is_used_up : (n ≡ o.amount.amount) ⊎ (n ≡ unfilled.amount)
    pub price_crosses : crosses kind price.amount o.price.amount ≡ true
    pub logged : log ≡ record {
      order_id = o.order_id;
      filled_amount = record { denom = o.amount.denom; amount = n };
      filled_price = o.price;
    }
    pub remains : o' ≡ rest o n
    pub left_over : unfilled' ≡ record { denom = unfilled.denom; amount = unfilled.amount -ℤ n }
    pub covered :
        let quantity : Coin = record { denom = o.amount.denom; amount = n } in
        let total : Coin = record { denom = o.price.denom; amount = n *ℤ o.price.amount } in
        (payment kind quantity total).amount
        ≤ℤ E.bank.amount_of s sender (payment kind quantity total).denom
    pub moved :
        let quantity : Coin = record { denom = o.amount.denom; amount = n } in
        let total : Coin = record { denom = o.price.denom; amount = n *ℤ o.price.amount } in
        s'
        ≡ (E.bank.add_coins
            (E.bank.send_coins s sender o.sender (payment kind quantity total)).1
            sender
            (release kind quantity total)).1

  -- The sender cannot pay for the quantity that the stored order would fill.
  abbrev pub IsShort : LimitOrder → Coin → E.bank.State → Type 0
  IsShort o u s =
      let quantity = smaller o.amount u in
      let total : Coin = record {
        denom = o.price.denom;
        amount = quantity.amount *ℤ o.price.amount;
      } in
      E.bank.amount_of s sender (payment kind quantity total).denom
      <ℤ (payment kind quantity total).amount

  -- All that a round can come to.
  pub data StepResult (o : LimitOrder) (unfilled : Coin) (s : E.bank.State)
      : Outcome FillStep × E.bank.State → Type 0 where
    stops :
        (unfilled.amount ≡ pos 0) ⊎ (crosses kind price.amount o.price.amount ≡ false)
        → StepResult o unfilled s (ok stop, s)
    fails :
        (e : SdkError)
        → IsShort o unfilled s
        → crosses kind price.amount o.price.amount ≡ true
        → StepResult o unfilled s (ok (failed e), s)
    fills :
        (log : FilledLimitOrder) (o' : LimitOrder) (unfilled' : Coin) (s' : E.bank.State)
        → IsFilled o unfilled s log o' unfilled' s'
        → StepResult o unfilled s (ok (filled log o' unfilled'), s')

  -- The whole loop: a run from the stored orders, the wanted amount and the bank to the orders, the
  -- log, the amount left over, the error and the bank at the end.
  pub data Run
      : List LimitOrder
        → Coin
        → E.bank.State
        → List LimitOrder
        → List FilledLimitOrder
        → Coin
        → Option SdkError
        → E.bank.State
        → Type 0 where
    exhausted : (u : Coin) (s : E.bank.State) → Run [] u s [] [] u none s
    stopped :
        (o : LimitOrder) (os : List LimitOrder) (u : Coin) (s : E.bank.State)
        → (u.amount ≡ pos 0) ⊎ (crosses kind price.amount o.price.amount ≡ false)
        → Run (o ∷ os) u s (o ∷ os) [] u none s
    refused :
        (o : LimitOrder) (os : List LimitOrder) (u : Coin) (s : E.bank.State) (e : SdkError)
        → IsShort o u s
        → crosses kind price.amount o.price.amount ≡ true
        → Run (o ∷ os) u s (o ∷ os) [] u (some e) s
    next :
        (o : LimitOrder) (os : List LimitOrder) (u : Coin) (s : E.bank.State)
        (log : FilledLimitOrder) (o' : LimitOrder) (u' : Coin) (t : E.bank.State)
        (os' : List LimitOrder) (logs : List FilledLimitOrder) (u'' : Coin) (e : Option SdkError)
        (t' : E.bank.State)
        → IsFilled o u s log o' u' t
        → Run os u' t os' logs u'' e t'
        → Run (o ∷ os) u s (o' ∷ os') (log ∷ logs) u'' e t'

  -- The loop ends with such a run.
  pub data LoopResult (os : List LimitOrder) (u : Coin) (done : List FilledLimitOrder)
      (s : E.bank.State) : Outcome Fills × E.bank.State → Type 0 where
    ran :
        (os' : List LimitOrder) (logs : List FilledLimitOrder) (u' : Coin) (e : Option SdkError)
        (t : E.bank.State)
        → Run os u s os' logs u' e t
        → LoopResult os u done s
            (ok (record { orders = os'; unfilled = u'; filled = done ++ logs; error = e }), t)
