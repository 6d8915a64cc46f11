-- ===== src/Exchange/Matching/Covered.antt =====
-- The matching loop of `fillOrderIfPossible` for a sender who holds what the limit order offers.
use thorchain_v.Base.{
  ◌≡◌, refl, true, false, Option, none, List, All, arith, eq_iff, ap, sym, Bool, inl, inr,
  if◌then◌else◌, str_eq, ◌&&◌,
}
use thorchain_v.Base.Int.{
  ℤ, pos, ◌≤ℤ◌, ◌<ℤ◌, ◌+ℤ◌, ◌-ℤ◌, ◌*ℤ◌, int_laws, parts, *ℤ-sub, *ℤ_mono_right, *ℤ_nonneg,
}
use thorchain_v.Sdk.Types.{Address, Coin, SdkError}
use thorchain_v.Exchange.Orders.{OrderKind, LimitOrder, FilledLimitOrder, IsKind}
use thorchain_v.Exchange.Fill.Laws.{crosses, smaller}
use thorchain_v.Exchange.Env.{Env, IsLawful}
use thorchain_v.Exchange.Matching.Spec.{
  payment, IsFilled, IsShort, Run, exhausted, stopped, refused, next,
}
use thorchain_v.Exchange.Matching.Loop.{IsCounterpart, IsCounterpart-left_over}

-- What an order of this kind offers for an amount, at its price.
abbrev pub offer : OrderKind → Coin → Coin → Coin
offer kind amount price =
    payment kind amount (record { denom = price.denom; amount = amount.amount *ℤ price.amount })

-- What a part of the amount costs at a price that crosses, and what the rest costs at the limit, are
-- no more than what all of it costs at the limit.
cost-split : (a n p q : ℤ) → pos 0 ≤ℤ n → pos 0 ≤ℤ q → q ≤ℤ p → n *ℤ q +ℤ (a -ℤ n) *ℤ p ≤ℤ a *ℤ p
cost-split a n p q h m cheaper =
    let cost = *ℤ_mono_right n q p h m cheaper in
    let rest = *ℤ-sub a n p in omega (int_laws, parts rest, cost)

-- The payer's balance, where he may be the one who is paid, and may get coins of the same denom.
left_with :
    (released back : Bool) (h c r : ℤ)
    → pos 0 ≤ℤ c
    → pos 0 ≤ℤ r
    → h
      ≤ℤ (if released
          then (if back then (h -ℤ c) +ℤ c else h -ℤ c) +ℤ r
          else (if back then (h -ℤ c) +ℤ c else h -ℤ c))
        +ℤ c
left_with true true h c r k l = omega int_laws
left_with true false h c r k l = omega int_laws
left_with false true h c r k l = omega int_laws
left_with false false h c r k l = omega int_laws

module _ (E : Env) (L : IsLawful E) (sender : Address) where
  -- A payment, and what is released for it, leave the payer at least what he held less the payment.
  held_after :
      (s : E.bank.State) (b : Address) (c r : Coin)
      → pos 0 ≤ℤ c.amount
      → c.amount ≤ℤ E.bank.amount_of s sender c.denom
      → pos 0 ≤ℤ r.amount
      → E.bank.amount_of s sender c.denom
        ≤ℤ E.bank.amount_of
            (E.bank.add_coins (E.bank.send_coins s sender b c).1 sender r).1
            sender
            c.denom
          +ℤ c.amount
  held_after s b c r h k l =
      let same : str_eq sender sender ≡ true = (eq_iff sender sender).1 refl in
      let same' : str_eq c.denom c.denom ≡ true = (eq_iff c.denom c.denom).1 refl in
      rw
        (
          L.bank.amount_of-add_coins (E.bank.send_coins s sender b c).1 sender r sender c.denom l,
          L.bank.amount_of-send_coins s sender b c sender c.denom h k,
          L.bank.amount_of-add_coins (E.bank.subtract_coins s sender c).1 b c sender c.denom h,
          L.bank.amount_of-subtract_coins s sender c sender c.denom h k,
          same,
          same',
        )
        (left_with (str_eq c.denom r.denom) (str_eq sender b && true)
          (E.bank.amount_of s sender c.denom) c.amount r.amount h l)

  module _ (kind : OrderKind) (price : Coin) where
    -- The sender holds what the order offers for an amount.
    abbrev pub Covers : Coin → E.bank.State → Type 0
    Covers u s = (offer kind u price).amount ≤ℤ E.bank.amount_of s sender (offer kind u price).denom

    not_short :
        (o : LimitOrder) (u : Coin) (s : E.bank.State)
        → IsKind kind
        → pos 0 ≤ℤ u.amount
        → pos 0 ≤ℤ price.amount
        → IsCounterpart kind u price o
        → Covers u s
        → crosses kind price.amount o.price.amount ≡ true
        → IsShort E sender kind price o u s
        → ⊥
    not_short o u s (inl buys) n p c h x short =
        let q = smaller o.amount u in
        let least = c.amount_positive in
        let q_nonneg : pos 0 ≤ℤ q.amount = ground arith in
        let q_within : q.amount ≤ℤ u.amount = ground arith in
        let o_price : pos 0 ≤ℤ o.price.amount = (let m = c.price_positive in omega arith) in
        let cheaper : o.price.amount ≤ℤ price.amount = ground (arith, buys, x) in
        let held = ap (λ d. E.bank.amount_of s sender d) c.match.same_price_denom in
        let offered : u.amount *ℤ price.amount ≤ℤ E.bank.amount_of s sender price.denom =
          ground (arith, buys, h) in
        let lacking : E.bank.amount_of s sender o.price.denom <ℤ q.amount *ℤ o.price.amount =
          ground (arith, buys, short) in
        let split =
          cost-split u.amount q.amount price.amount o.price.amount q_nonneg o_price cheaper in
        let rest_nonneg : pos 0 ≤ℤ u.amount -ℤ q.amount = omega (int_laws, q_within) in
        let rest = *ℤ_nonneg (u.amount -ℤ q.amount) price.amount rest_nonneg p in
        omega (int_laws, parts held, offered, lacking, split, rest)
    not_short o u s (inr sells) n p c h x short =
        let q = smaller o.amount u in
        let offered : u.amount ≤ℤ E.bank.amount_of s sender u.denom = ground (arith, sells, h) in
        let held = ap (λ d. E.bank.amount_of s sender d) c.match.same_amount_denom in
        let lacking : E.bank.amount_of s sender q.denom <ℤ q.amount =
          ground (arith, sells, short) in
        ground (arith, held)

    rest-Covers :
        (o : LimitOrder) (u : Coin) (s : E.bank.State) (log : FilledLimitOrder) (o' : LimitOrder)
        (u' : Coin) (t : E.bank.State)
        → IsKind kind
        → IsCounterpart kind u price o
        → Covers u s
        → IsFilled E sender kind price o u s log o' u' t
        → Covers u' t
    rest-Covers o u s log o' u' t (inl buys) c h f =
        let paid : Coin = record { denom = o.price.denom; amount = f.n *ℤ o.price.amount } in
        let got : Coin = record { denom = o.amount.denom; amount = f.n } in
        let n : pos 0 ≤ℤ f.n = (let m = f.positive in omega arith) in
        let o_price : pos 0 ≤ℤ o.price.amount = (let m = c.price_positive in omega arith) in
        let cheaper : o.price.amount ≤ℤ price.amount = ground (arith, buys, f.price_crosses) in
        let held = ap (λ d. E.bank.amount_of s sender d) c.match.same_price_denom in
        let offered : u.amount *ℤ price.amount ≤ℤ E.bank.amount_of s sender price.denom =
          ground (arith, buys, h) in
        let enough : paid.amount ≤ℤ E.bank.amount_of s sender o.price.denom =
          ground (arith, buys, f.covered) in
        let split = cost-split u.amount f.n price.amount o.price.amount n o_price cheaper in
        let left =
          held_after s o.sender paid got (*ℤ_nonneg f.n o.price.amount n o_price) enough n in
        rw (f.left_over, f.moved, buys, sym c.match.same_price_denom)
          (omega (int_laws, parts held, offered, split, left))
    rest-Covers o u s log o' u' t (inr sells) c h f =
        let paid : Coin = record { denom = o.amount.denom; amount = f.n } in
        let got : Coin = record { denom = o.price.denom; amount = f.n *ℤ o.price.amount } in
        let n : pos 0 ≤ℤ f.n = (let m = f.positive in omega arith) in
        let o_price : pos 0 ≤ℤ o.price.amount = (let m = c.price_positive in omega arith) in
        let held = ap (λ d. E.bank.amount_of s sender d) c.match.same_amount_denom in
        let offered : u.amount ≤ℤ E.bank.amount_of s sender u.denom = ground (arith, sells, h) in
        let enough : f.n ≤ℤ E.bank.amount_of s sender o.amount.denom =
          ground (arith, sells, f.covered) in
        let left =
          held_after s o.sender paid got n enough (*ℤ_nonneg f.n o.price.amount n o_price) in
        rw (f.left_over, f.moved, sells, sym c.match.same_amount_denom)
          (omega (int_laws, parts held, offered, left))

    -- A run of fills for an amount whose offer the sender holds ends without an error, and the sender
    -- still holds what the order offers for the amount that is left over.
    pub Run-Covers :
        {os os' : List LimitOrder} {u u' : Coin} {s t : E.bank.State} {logs : List FilledLimitOrder}
        {e : Option SdkError}
        → Run E sender kind price os u s os' logs u' e t
        → IsKind kind
        → pos 0 ≤ℤ price.amount
        → pos 0 ≤ℤ u.amount
        → All (IsCounterpart kind u price) os
        → Covers u s
        → (e ≡ none) × Covers u' t
    Run-Covers (exhausted u s) k p n c h = (refl, h)
    Run-Covers (stopped o os u s x) k p n c h = (refl, h)
    Run-Covers (refused o os u s x short near) k p n c h =
        absurd (not_short o u s k n p c.0 h near short)
    Run-Covers (next o os u s log o' u' t os' logs u'' e' t' f r) k p n c h =
        Run-Covers r k p (rw f.left_over (omega (int_laws, f.within_wanted)))
          (rw f.left_over
            (IsCounterpart-left_over E L sender kind price (u.amount -ℤ f.n) u os c.1))
          (rest-Covers o u s log o' u' t k c.0 h f)
