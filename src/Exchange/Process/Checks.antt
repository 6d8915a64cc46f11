-- ===== src/Exchange/Process/Checks.antt =====
-- The checks at the start of `processLimitOrder`.
use thorchain_v.Base.{
  ◌≡◌, ◌≢◌, ◌↔◌, refl, ap, false, inl, inr, arith, eq_iff, some, none, Option-cases,
}
use thorchain_v.Base.Int.{pos, ◌≤ℤ◌, ◌*ℤ◌}
use thorchain_v.Sdk.Types.{Address, Coin, Time, before}
use thorchain_v.Sdk.Keeper.{Outcome, ok, err, panic, Keeper, resume}
use thorchain_v.Exchange.Orders.{OrderKind, IsKind}
use thorchain_v.Exchange.Env.{Env, World, IsLawful}
use thorchain_v.Exchange.Matching.{get_total_price}
use thorchain_v.Exchange.Matching.Spec.{payment}
use thorchain_v.Exchange.Process.{check_order, process_limit_order}

-- What an order has to fulfil: it is not expired, of a supported kind, over two denoms, of a
-- positive amount and price whose product is in range, and its sender holds what it offers.
pub record IsAdmissible (E : Env) (now : Time) (sender : Address) (kind : OrderKind)
    (amount price : Coin) (expires_at : Time) (s : E.bank.State) : Type 0 where
  pub not_expired : before expires_at now ≡ false
  pub kind_supported : IsKind kind
  pub denoms_differ : amount.denom ≢ price.denom
  pub amount_positive : pos 1 ≤ℤ amount.amount
  pub price_positive : pos 1 ≤ℤ price.amount
  pub total_in_range : E.coins.mul amount.amount price.amount ≡ some (amount.amount *ℤ price.amount)
  pub offer_held :
      let total : Coin = record { denom = price.denom; amount = amount.amount *ℤ price.amount } in
      (payment kind amount total).amount
      ≤ℤ E.bank.amount_of s sender (payment kind amount total).denom

module _ (E : Env) (L : IsLawful E) (now : Time) (sender : Address) (kind : OrderKind)
    (amount price : Coin) (expires_at : Time) (w : World E) where
  abbrev Admissible : Type 0
  Admissible = IsAdmissible E now sender kind amount price expires_at w.bank

  -- The checks of `processLimitOrder` let through the admissible orders, and change nothing.
  pub check_order-accepts :
      Admissible → check_order E now sender kind amount price expires_at w ≡ (ok tt, w)
  unfolding check_order get_total_price
  check_order-accepts a = ground (
    arith,
    eq_iff amount.denom price.denom,
    L.coins.is_positive_iff amount,
    L.coins.is_positive_iff price,
    L.bank.has_coins_iff w.bank sender amount,
    L.bank.has_coins_iff w.bank sender
        (record { denom = price.denom; amount = amount.amount *ℤ price.amount }),
  )

  -- The checks change nothing.
  pub check_order-unchanged : (check_order E now sender kind amount price expires_at w).1 ≡ w
  unfolding check_order get_total_price
  check_order-unchanged = ground arith

  -- The checks of `processLimitOrder` let through no order but the admissible ones.
  pub check_order-only :
      (check_order E now sender kind amount price expires_at w).0 ≡ ok tt → Admissible
  unfolding check_order get_total_price
  check_order-only e = elim (Option-cases (E.coins.mul amount.amount price.amount)) [
    | inl overflow ↦ elim (let no : ⊥ = ground (arith, e, overflow) in no) [ ]
    | inr (t, found) ↦
        let total = L.coins.mul_lem amount.amount price.amount found in
        record {
          not_expired = ground (arith, e);
          kind_supported = ground (arith, e);
          denoms_differ = ground (arith, e, eq_iff amount.denom price.denom);
          amount_positive = ground (arith, e, L.coins.is_positive_iff amount);
          price_positive = ground (arith, e, L.coins.is_positive_iff price);
          total_in_range = ground (arith, found, total);
          offer_held = ground (
            arith,
            e,
            L.bank.has_coins_iff w.bank sender amount,
            found,
            total,
            L.bank.has_coins_iff w.bank sender
                (record { denom = price.denom; amount = amount.amount *ℤ price.amount }),
          );
        }
  ]

  -- The checks panic only when the total price is out of range.
  pub check_order-panics :
      (check_order E now sender kind amount price expires_at w).0 ≡ panic
      → E.coins.mul amount.amount price.amount ≡ none
  unfolding check_order get_total_price
  check_order-panics e = ground (arith, e)

  -- The checks of `processLimitOrder` let an order through exactly if it is admissible: not expired,
  -- of a supported kind, over two denoms, with a positive amount and price whose product is in range,
  -- and the sender holds what it offers. They change nothing, whatever they answer.
  check_order_iff :
      (((check_order E now sender kind amount price expires_at w).0 ≡ ok tt) ↔ Admissible)
      × ((check_order E now sender kind amount price expires_at w).1 ≡ w)
  check_order_iff =
      ((check_order-only, λ a. ap (λ r. r.0) (check_order-accepts a)), check_order-unchanged)

  stops_at_check :
      {A : Type 0} (r : Outcome (Unit {0}) × World E) (f : Unit {0} → Keeper (World E) A)
      → r.0 ≢ ok tt
      → r.1 ≡ w
      → (resume f r).1 ≡ w
  stops_at_check (ok x, v) f n e = absurd (n refl)
  stops_at_check (err x, v) f n e = e
  stops_at_check (panic, v) f n e = e

  -- For an order that is not admissible, `processLimitOrder` changes nothing.
  pub process_limit_order-refuses :
      ¬ Admissible → (process_limit_order E now sender kind amount price expires_at w).1 ≡ w
  unfolding process_limit_order
  process_limit_order-refuses n =
      stops_at_check (check_order E now sender kind amount price expires_at w) _
        (λ e. n (check_order-only e)) check_order-unchanged
