-- ===== src/Exchange/Client/Sent.antt =====
-- Which limit orders the command line sends.
use thorchain_v.Base.{◌≡◌, ◌↔◌, ◌≢◌, refl, subst, none, [], ◌∷◌}
use thorchain_v.Sdk.Types.{Time}
use thorchain_v.Sdk.Web.{done}
use thorchain_v.Sdk.Command.{
  Command, ran, stopped, crashed, bind-eq-ran, or_stop-eq-ran, or_stop, check, check-eq-ran,
}
use thorchain_v.Exchange.Message.{MsgCreateLimitOrder, parse_kind, validate_basic}
use thorchain_v.Exchange.Client.{ClientEnv, OrderFlags, kind_of}
use thorchain_v.Exchange.Client.Cli.{limit_order_msg, create_limit_order, send, sent}
use thorchain_v.Exchange.Client.Shown.{Names, kind_of-parse_kind_iff, kind_of-Names}

module _ (E : ClientEnv) where
  -- The flags and the sender's key say this order, and it is valid.
  pub record Says (now : Time) (flags : OrderFlags) (msg : MsgCreateLimitOrder) : Type 0 where
    pub sender : E.get_from_address ≡ done msg.sender
    pub kind : Names flags.kind msg.kind
    pub amount : E.parse_coin flags.amount ≡ done msg.amount
    pub price : E.parse_coin flags.price ≡ done msg.price
    pub expires_at : E.parse_time flags.expires_at ≡ done msg.expires_at
    pub valid : validate_basic now msg ≡ none

  limit_order_msg_iff :
      (now : Time) (flags : OrderFlags) (msg : MsgCreateLimitOrder)
      → (limit_order_msg E now flags ≡ ran msg) ↔ Says now flags msg
  unfolding limit_order_msg
  limit_order_msg_iff now flags msg = (
    λ e.
        let (sender, e1, f1) = bind-eq-ran (or_stop E.get_from_address) _ e in
        let (kind, e2, f2) = bind-eq-ran (or_stop (kind_of E (parse_kind flags.kind))) _ f1 in
        let (amount, e3, f3) = bind-eq-ran (or_stop (E.parse_coin flags.amount)) _ f2 in
        let (price, e4, f4) = bind-eq-ran (or_stop (E.parse_coin flags.price)) _ f3 in
        let (expires_at, e5, f5) = bind-eq-ran (or_stop (E.parse_time flags.expires_at)) _ f4 in
        let made : MsgCreateLimitOrder = record {
          sender = sender;
          kind = kind;
          amount = amount;
          price = price;
          expires_at = expires_at;
        } in
        let (x, e6, f6) = bind-eq-ran (check E.error_text (validate_basic now made)) _ f5 in
        let same : made ≡ msg = cc f6 in
        subst (Says now flags) same (record {
          sender = or_stop-eq-ran _ sender e1;
          kind = (kind_of-parse_kind_iff E flags.kind kind).0 (or_stop-eq-ran _ kind e2);
          amount = or_stop-eq-ran _ amount e3;
          price = or_stop-eq-ran _ price e4;
          expires_at = or_stop-eq-ran _ expires_at e5;
          valid = check-eq-ran E.error_text _ e6;
        }),
    λ h.
        rw
          (
            h.sender,
            kind_of-Names E flags.kind msg.kind h.kind,
            h.amount,
            h.price,
            h.expires_at,
            h.valid,
          )
          refl,
  )

  -- What the command may come to: the one order that its flags say is sent, or they say none and
  -- nothing is sent.
  pub data Sending (now : Time) (flags : OrderFlags) (s : E.State)
      : Command (Unit {0}) × E.State → Type 0 where
    said :
        (msg : MsgCreateLimitOrder)
        → Says now flags msg
        → Sending now flags s (sent E (E.send_tx (msg ∷ []) s))
    unsaid :
        (c : Command (Unit {0}))
        → c ≢ ran tt
        → ((msg : MsgCreateLimitOrder) → ¬ Says now flags msg)
        → Sending now flags s (c, s)

  not_said :
      (now : Time) (flags : OrderFlags)
      → ((msg : MsgCreateLimitOrder) → limit_order_msg E now flags ≢ ran msg)
      → (msg : MsgCreateLimitOrder) → ¬ Says now flags msg
  not_said now flags h msg k = h msg ((limit_order_msg_iff now flags msg).1 k)

  sending :
      (now : Time) (flags : OrderFlags) (s : E.State) (c : Command MsgCreateLimitOrder)
      → limit_order_msg E now flags ≡ c
      → Sending now flags s (send E c s)
  sending now flags s (ran msg) e = said msg ((limit_order_msg_iff now flags msg).0 e)
  sending now flags s (stopped text) e =
      unsaid (stopped text) (λ k. cc k) (not_said now flags (λ msg k. cc (e, k)))
  sending now flags s crashed e =
      unsaid crashed (λ k. cc k) (not_said now flags (λ msg k. cc (e, k)))

  -- The command for a limit order sends the one order that its flags and the sender's key say,
  -- where that order is valid, and otherwise sends nothing and ends with an error or a panic.
  pub create_limit_order-Sending :
      (now : Time) (flags : OrderFlags) (s : E.State)
      → Sending now flags s (create_limit_order E now flags s)
  unfolding create_limit_order
  create_limit_order-Sending now flags s = sending now flags s (limit_order_msg E now flags) refl
