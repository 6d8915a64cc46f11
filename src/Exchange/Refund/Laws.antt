-- ===== src/Exchange/Refund/Laws.antt =====
-- Refunds: which orders they take out of the books, and that they give back what is locked.
use thorchain_v.Base.{
  ◌≡◌, refl, ap, ◌∙◌, true, false, Bool, Option, Bool-cases, List, [], ◌∷◌, inl, inr, All, String,
  str_eq, if◌then◌else◌,
}
use thorchain_v.Base.Int.{ℤ, pos, ◌+ℤ◌, ◌≤ℤ◌, ◌*ℤ◌, int_laws, parts}
use thorchain_v.Sdk.Types.{Coin, Time, before, SdkError}
use thorchain_v.Sdk.Coins.{InRange}
use thorchain_v.Sdk.Keeper.{ok, resume, ◌>>=◌}
use thorchain_v.Exchange.Orders.{LimitOrder, IsKind}
use thorchain_v.Exchange.Env.{Env, World, IsLawful}
use thorchain_v.Exchange.Matching.Money.{locked_orders}
use thorchain_v.Exchange.Refund.{split_expired, refund_order, refund_orders, panic_at}
use thorchain_v.Exchange.Process.{bank_call}
use thorchain_v.Exchange.Process.Storing.{IsToLock, to_lock_lem}

-- The orders of a list are split into those that have expired and those that have not, and what is
-- locked for the list is what is locked for the two parts.
pub split_expired_lem :
    (now : Time) (os : List LimitOrder)
    → let (kept, expired) = split_expired now os in
      All (λ o. before o.expires_at now ≡ false) kept
      × All (λ o. before o.expires_at now ≡ true) expired
      × ((d : String) → locked_orders kept d +ℤ locked_orders expired d ≡ locked_orders os d)
unfolding split_expired
split_expired_lem now [] = (tt, tt, λ d. omega int_laws)
split_expired_lem now (o ∷ os) = elim (Bool-cases (before o.expires_at now)) [
  | inl late ↦
      let r = split_expired_lem now os in
      rw late (r.0, (late, r.1), λ d. omega (int_laws, parts (r.2 d)))
  | inr in_time ↦
      let r = split_expired_lem now os in
      rw in_time ((in_time, r.0), r.1, λ d. omega (int_laws, parts (r.2 d)))
]

-- An order that a book can hold.
pub record IsRefundable (o : LimitOrder) : Type 0 where
  pub kind_supported : IsKind o.kind
  pub amount_positive : pos 1 ≤ℤ o.amount.amount
  pub price_positive : pos 1 ≤ℤ o.price.amount
  pub total_in_range : InRange (o.amount.amount *ℤ o.price.amount)

added_in_denom :
    (here : Bool) (a s s' more : ℤ)
    → s' ≡ (if here then s +ℤ a else s)
    → more ≡ (if here then a else pos 0)
    → s' ≡ s +ℤ more
added_in_denom true a s s' more e f = omega (int_laws, parts e, parts f)
added_in_denom false a s s' more e f = omega (int_laws, parts e, parts f)

module _ (E : Env) (L : IsLawful E) where
  refund_order_lem :
      (o : LimitOrder) (w : World E)
      → IsRefundable o
      → (c : Coin) × (refund_order E o w
          ≡ (ok tt, record w { bank = (E.bank.add_coins w.bank o.sender c).1 }))
        × IsToLock E L o c
  unfolding refund_order
  refund_order_lem o w f =
      let added : (c : Coin)
          → pos 0 ≤ℤ c.amount
          → panic_at E (E.bank.add_coins w.bank o.sender c).0
              (record w { bank = (E.bank.add_coins w.bank o.sender c).1 })
            ≡ (ok tt, record w { bank = (E.bank.add_coins w.bank o.sender c).1 }) =
        λ c n. rw (L.bank.add_coins_ok w.bank o.sender c n) refl in
      let (c, found, l) =
        to_lock_lem E L o w f.kind_supported f.amount_positive f.price_positive f.total_in_range in
      (
        c,
        ap
              (resume (λ coin.
                ◌>>=◌ {A = Option SdkError} (bank_call E (λ s. E.bank.add_coins s o.sender coin))
                  (panic_at E)))
              found
            ∙ added c l.nonneg,
        l,
      )

  -- Refunding orders that a book can hold ends without a panic, leaves the books alone, and gives the
  -- accounts, in every denom, what was locked for these orders.
  pub refund_orders-releases :
      (os : List LimitOrder) (w : World E)
      → All IsRefundable os
      → let (r, v) = refund_orders E os w in
        (r ≡ ok tt)
        × (v.store ≡ w.store)
        × ((d : String) → L.bank.supply v.bank d ≡ L.bank.supply w.bank d +ℤ locked_orders os d)
  unfolding refund_orders
  refund_orders-releases [] w h = (refl, refl, λ d. omega int_laws)
  refund_orders-releases (o ∷ os) w h =
      let (c, first, l) = refund_order_lem o w h.0 in
      let v = record w { bank = (E.bank.add_coins w.bank o.sender c).1 } in
      let r = refund_orders-releases os v h.1 in
      rw first (
        r.0,
        r.1,
        λ d.
            let more =
              added_in_denom (str_eq d c.denom) c.amount (L.bank.supply w.bank d) _ _
                (L.bank.supply-add_coins w.bank o.sender c d l.nonneg) (l.is_locked d) in
            omega (int_laws, parts (r.2 d), parts more),
      )
