-- ===== src/Exchange/Matching/Step.antt =====
-- One round of the matching loop: what it can come to, and what it does to money and orders.
use thorchain_v.Base.{
  ◌≡◌, ap, subst, ◌⊎◌, refl, sym, ◌∙◌, true, false, none, some, inl, inr, Bool-cases, arith,
}
use thorchain_v.Base.Int.{ℤ, pos, ◌<ℤ◌, ◌≤ℤ◌, ◌-ℤ◌, ◌*ℤ◌, ≤ℤ_total, *ℤ_pos, *ℤ_mono}
use thorchain_v.Sdk.Types.{Address, Coin, SdkError}
use thorchain_v.Sdk.Keeper.{ok, err, panic}
use thorchain_v.Exchange.Orders.{OrderKind, LimitOrder, FilledLimitOrder}
use thorchain_v.Sdk.Coins.{InRange}
use thorchain_v.Exchange.Fill.Laws.{IsMatch, crosses, smaller, does_fill_lem}
use thorchain_v.Exchange.Env.{Env, IsLawful}
use thorchain_v.Exchange.Matching.Spec.{payment, release, IsFilled, StepResult, stops, fails, fills}
use thorchain_v.Exchange.Matching.{
  stop, failed, filled, fill_step, settle, send_and_unlock_coins, get_total_price,
}

sides_nonneg :
    (kind : OrderKind) (q c : Coin)
    → pos 0 ≤ℤ q.amount
    → pos 0 ≤ℤ c.amount
    → (pos 0 ≤ℤ (payment kind q c).amount) × (pos 0 ≤ℤ (release kind q c).amount)
sides_nonneg kind q c h k = ground arith

module _ (E : Env) (L : IsLawful E) (a b : Address) (c u : Coin) (s : E.bank.State) where
  -- A payment that the first account cannot cover moves nothing.
  pub send_and_unlock_coins-short :
      E.bank.amount_of s a c.denom <ℤ c.amount
      → (e : SdkError) × (send_and_unlock_coins E a b c u s ≡ (some e, s))
  unfolding send_and_unlock_coins
  send_and_unlock_coins-short h =
      let (e, sent) = L.bank.send_coins_short s a b c h in (e, ground (arith, sent))

  pub send_and_unlock_coins-covered :
      pos 0 ≤ℤ c.amount
      → pos 0 ≤ℤ u.amount
      → c.amount ≤ℤ E.bank.amount_of s a c.denom
      → send_and_unlock_coins E a b c u s
        ≡ (none, (E.bank.add_coins (E.bank.send_coins s a b c).1 a u).1)
  unfolding send_and_unlock_coins
  send_and_unlock_coins-covered nc nu h = ground (
    arith,
    L.bank.send_coins_ok s a b c nc h,
    L.bank.add_coins_ok (E.bank.send_coins s a b c).1 a u nu,
  )

module _ (E : Env) (L : IsLawful E) (sender : Address) (kind : OrderKind) (price : Coin) where
  module _ (o : LimitOrder) (unfilled : Coin) (s : E.bank.State) (m : IsMatch o kind unfilled price)
      (p : pos 1 ≤ℤ o.amount.amount) (q : pos 1 ≤ℤ o.price.amount) (u : pos 0 ≤ℤ unfilled.amount)
      (fit : InRange (o.amount.amount *ℤ o.price.amount)) where
    abbrev quantity : Coin
    quantity = smaller o.amount unfilled

    fill_step-stop :
        (E.coins.is_zero unfilled ≡ true) ⊎ (crosses kind price.amount o.price.amount ≡ false)
        → fill_step E sender kind price o unfilled s ≡ (ok stop, s)
    unfolding fill_step
    fill_step-stop h = ground (arith, does_fill_lem E.coins L.coins o kind unfilled price m)

    fill_step-total :
        E.coins.is_zero unfilled ≡ false
        → crosses kind price.amount o.price.amount ≡ true
        → fill_step E sender kind price o unfilled s
          ≡ elim (get_total_price E.coins quantity o.price) [
            | panic ↦ (panic, s)
            | err e ↦ (err e, s)
            | ok total ↦ settle E sender kind price o unfilled quantity o.price total s
          ]
    unfolding fill_step
    fill_step-total h k = rw (h, does_fill_lem E.coins L.coins o kind unfilled price m, k)

    -- From here on `t` is the total price.
    module _ (t : ℤ) where
      abbrev paid : Coin
      paid = payment kind quantity (record { denom = o.price.denom; amount = t })

      abbrev released : Coin
      released = release kind quantity (record { denom = o.price.denom; amount = t })

      settle-short :
          E.bank.amount_of s sender paid.denom <ℤ paid.amount
          → (e : SdkError) × (settle E sender kind price o unfilled quantity o.price
                (record { denom = o.price.denom; amount = t })
                s
              ≡ (ok (failed e), s))
      unfolding settle
      settle-short h =
          let (x, sent) = send_and_unlock_coins-short E L sender o.sender paid released s h in
          (x, ground (arith, sent))

      settle-covered :
          pos 0 ≤ℤ paid.amount
          → pos 0 ≤ℤ released.amount
          → paid.amount ≤ℤ E.bank.amount_of s sender paid.denom
          → settle E sender kind price o unfilled quantity o.price
              (record { denom = o.price.denom; amount = t })
              s
            ≡ (
              ok (
                  filled
                    (record {
                      order_id = o.order_id;
                      filled_amount = quantity;
                      filled_price = o.price;
                    })
                    (record o { amount = E.coins.minus o.amount quantity })
                    (E.coins.minus unfilled quantity)),
              (E.bank.add_coins (E.bank.send_coins s sender o.sender paid).1 sender released).1,
            )
      unfolding settle
      settle-covered nc nr h =
          ground (arith, send_and_unlock_coins-covered E L sender o.sender paid released s nc nr h)

    quantity_denom : quantity.denom ≡ o.amount.denom
    quantity_denom = ground (arith, m.same_amount_denom)

    quantity_positive : pos 1 ≤ℤ unfilled.amount → pos 1 ≤ℤ quantity.amount
    quantity_positive h = ground arith

    quantity_within :
        (quantity.amount ≤ℤ o.amount.amount)
        × (quantity.amount ≤ℤ unfilled.amount)
        × ((quantity.amount ≡ o.amount.amount) ⊎ (quantity.amount ≡ unfilled.amount))
    quantity_within = ground arith

    quantity-InRange : InRange (quantity.amount *ℤ o.price.amount)
    quantity-InRange =
        let nonneg : pos 0 ≤ℤ quantity.amount = ground arith in
        let m =
          *ℤ_mono quantity.amount o.amount.amount o.price.amount nonneg quantity_within.0
            (omega arith) in
        omega (arith, m)

    quantity_eq : quantity ≡ record { denom = o.amount.denom; amount = quantity.amount }
    quantity_eq = λ i. record { denom = quantity_denom i; amount = quantity.amount }

    minus_quantity :
        (c : Coin)
        → c.denom ≡ o.amount.denom
        → pos 1 ≤ℤ unfilled.amount
        → quantity.amount ≤ℤ c.amount
        → E.coins.minus c quantity
          ≡ record { denom = c.denom; amount = c.amount -ℤ quantity.amount }
    minus_quantity c e h k =
        L.coins.minus_lem c quantity (e ∙ sym quantity_denom) (omega (arith, quantity_positive h)) k

    quantity-IsFilled :
        pos 1 ≤ℤ unfilled.amount
        → crosses kind price.amount o.price.amount ≡ true
        → (let t = quantity.amount *ℤ o.price.amount in
            (paid t).amount ≤ℤ E.bank.amount_of s sender (paid t).denom)
        → IsFilled E sender kind price o unfilled s
            (record { order_id = o.order_id; filled_amount = quantity; filled_price = o.price })
            (record o { amount = E.coins.minus o.amount quantity })
            (E.coins.minus unfilled quantity)
            (E.bank.add_coins
              (E.bank.send_coins s sender o.sender (paid (quantity.amount *ℤ o.price.amount))).1
              sender
              (released (quantity.amount *ℤ o.price.amount))).1
    quantity-IsFilled h k cov = record {
      n = quantity.amount;
      positive = quantity_positive h;
      within_stored = quantity_within.0;
      within_wanted = quantity_within.1;
      one_is_used_up = quantity_within.2;
      price_crosses = k;
      logged =
          ap {B = FilledLimitOrder}
            (λ c. record { order_id = o.order_id; filled_amount = c; filled_price = o.price })
            quantity_eq;
      remains =
          ap (λ c. record o { amount = c }) (minus_quantity o.amount refl h quantity_within.0);
      left_over = minus_quantity unfilled (sym m.same_amount_denom) h quantity_within.1;
      covered =
          let total : Coin = record {
            denom = o.price.denom;
            amount = quantity.amount *ℤ o.price.amount;
          } in
          subst
            (λ c.
              (payment kind c total).amount
              ≤ℤ E.bank.amount_of s sender (payment kind c total).denom)
            quantity_eq cov;
      moved =
          let total : Coin = record {
            denom = o.price.denom;
            amount = quantity.amount *ℤ o.price.amount;
          } in
          ap {B = E.bank.State}
            (λ c.
              (E.bank.add_coins (E.bank.send_coins s sender o.sender (payment kind c total)).1
                sender (release kind c total)).1)
            quantity_eq;
    }

    not_zero : E.coins.is_zero unfilled ≡ false → pos 1 ≤ℤ unfilled.amount
    not_zero h = ground (arith, L.coins.is_zero_iff unfilled)

    settle-StepResult :
        pos 1 ≤ℤ unfilled.amount
        → crosses kind price.amount o.price.amount ≡ true
        → StepResult E sender kind price o unfilled s (
            settle E sender kind price o unfilled quantity o.price
              (record { denom = o.price.denom; amount = quantity.amount *ℤ o.price.amount })
              s)
    settle-StepResult h k =
        let t = quantity.amount *ℤ o.price.amount in
        let n = quantity_positive h in
        let sides =
          sides_nonneg kind quantity (record { denom = o.price.denom; amount = t })
            (omega (arith, n))
            (omega
              (arith, *ℤ_pos quantity.amount o.price.amount (omega (arith, n)) (omega arith))) in
        elim (≤ℤ_total (paid t).amount (E.bank.amount_of s sender (paid t).denom)) [
          | inl covered ↦
              rw (settle-covered t sides.0 sides.1 covered)
                (fills _ _ _ _ (quantity-IsFilled h k covered))
          | inr short ↦ let (e, eq) = settle-short t short in rw eq (fails e short k)
        ]

    -- Every round ends in one of the three ways.
    pub fill_step-StepResult :
        StepResult E sender kind price o unfilled s (fill_step E sender kind price o unfilled s)
    unfolding get_total_price
    fill_step-StepResult = elim (Bool-cases (E.coins.is_zero unfilled)) [
      | inl z ↦ rw (fill_step-stop (inl z)) (stops (inl ((L.coins.is_zero_iff unfilled).0 z)))
      | inr nz ↦ elim (Bool-cases (crosses kind price.amount o.price.amount)) [
        | inr apart ↦ rw (fill_step-stop (inr apart)) (stops (inr apart))
        | inl near ↦
            rw (fill_step-total nz near, get_total_price, L.coins.mul_total _ _ quantity-InRange)
              (settle-StepResult (not_zero nz) near)
      ]
    ]
