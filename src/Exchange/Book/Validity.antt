-- ===== src/Exchange/Book/Validity.antt =====
-- Well-formed order books: every order belongs to the book, amounts and prices are positive, and
-- the orders stand by price, then time. `AddLimitOrder` and `RemoveFilledLimitOrders` keep that.
use thorchain_v.Base.{
  String, ◌≡◌, ◌≢◌, ◌⊎◌, refl, sym, ◌∙◌, false, none, some, List, [], ◌∷◌, inl, inr, Bool-cases,
  arith, All, All-insert, All-imp, eq_iff,
}
use thorchain_v.Base.Int.{ℤ, pos, ◌≤ℤ◌, ◌*ℤ◌}
use thorchain_v.Sdk.Types.{internal}
use thorchain_v.Sdk.Coins.{CoinOps, IsLawful, InRange}
use thorchain_v.Exchange.Orders.{OrderKind, LimitOrder}
use thorchain_v.Exchange.Book.{
  OrderBook, add_limit_order, insert_order, unfilled_orders, remove_filled_limit_orders,
}
use thorchain_v.Exchange.Book.Insert.{insert_order-place}
use thorchain_v.Exchange.Book.Order.{IsSorted, IsPlaced, place-IsPlaced, IsPlaced-IsSorted}

-- An order belongs to a book of this kind and these denoms, its price is positive, its total price in
-- range, and its amount is at least `least`: one in a stored book, zero while orders are being filled.
pub record Fits (least : ℤ) (kind : OrderKind) (amount_denom price_denom : String) (o : LimitOrder)
    : Type 0 where
  pub kind_fits : o.kind ≡ kind
  pub amount_fits : o.amount.denom ≡ amount_denom
  pub price_fits : o.price.denom ≡ price_denom
  pub amount_least : least ≤ℤ o.amount.amount
  pub price_positive : pos 1 ≤ℤ o.price.amount
  pub total_in_range : InRange (o.amount.amount *ℤ o.price.amount)

abbrev pub FitsBook : ℤ → OrderBook → LimitOrder → Type 0
FitsBook least ob = Fits least ob.kind ob.amount_denom ob.price_denom

pub record IsValidFrom (least : ℤ) (ob : OrderBook) : Type 0 where
  pub fits : All (FitsBook least ob) ob.orders
  pub sorted : IsSorted ob.kind ob.orders

abbrev pub IsValid : OrderBook → Type 0
IsValid ob = IsValidFrom (pos 1) ob

module _ (C : CoinOps) (L : IsLawful C) (ob : OrderBook) (lo : LimitOrder) where
  add_limit_order-fits :
      FitsBook (pos 1) ob lo
      → add_limit_order C lo ob ≡ (none, record ob { orders = insert_order C ob.kind lo ob.orders })
  unfolding add_limit_order
  add_limit_order-fits f =
      ground (arith, eq_iff ob.amount_denom lo.amount.denom, eq_iff ob.price_denom lo.price.denom)

  -- In a valid book, `AddLimitOrder` accepts an order that belongs there. The book changes only in
  -- its orders: the new one stands behind all that are at least as good, and before all that are
  -- worse. The book stays valid.
  pub add_limit_order_accepts :
      IsValid ob
      → FitsBook (pos 1) ob lo
      → let (e, ob') = add_limit_order C lo ob in
        (e ≡ none)
        × (ob' ≡ record ob { orders = ob'.orders })
        × IsPlaced ob.kind lo ob.orders ob'.orders
        × IsValid ob'
  add_limit_order_accepts v f =
      let p : IsPlaced ob.kind lo ob.orders (insert_order C ob.kind lo ob.orders) =
        rw (insert_order-place C ob.kind lo ob.orders) (
          place-IsPlaced C L ob.kind lo ob.orders
            (All-imp _ _ (λ o g. f.price_fits ∙ sym g.price_fits) ob.orders v.fits) v.sorted) in
      rw (add_limit_order-fits f) (
        refl,
        refl,
        p,
        record {
          fits = rw p.new_split (All-insert _ p.front p.back lo f (rw p.old_split at v.fits));
          sorted = IsPlaced-IsSorted ob.kind lo ob.orders _ p v.sorted;
        },
      )

  -- An order of another kind or over other denoms is refused, and the book stays as it is.
  pub add_limit_order_refuses :
      (lo.amount.denom ≢ ob.amount_denom) ⊎ (lo.price.denom ≢ ob.price_denom) ⊎ (lo.kind ≢ ob.kind)
      → add_limit_order C lo ob ≡ (some internal, ob)
  unfolding add_limit_order
  add_limit_order_refuses h =
      ground (arith, eq_iff ob.amount_denom lo.amount.denom, eq_iff ob.price_denom lo.price.denom)

module _ (C : CoinOps) (L : IsLawful C) where
  pub All-unfilled_orders {κ} :
      (P : LimitOrder → Type κ) (os : List LimitOrder) → All P os → All P (unfilled_orders C os)
  unfolding unfilled_orders
  All-unfilled_orders P [] h = tt
  All-unfilled_orders P (o ∷ os) h = elim (Bool-cases (C.is_zero o.amount)) [
    | inl zero_amount ↦ rw zero_amount (All-unfilled_orders P os h.1)
    | inr some_amount ↦ rw some_amount (h.0, All-unfilled_orders P os h.1)
  ]

  Fits-nonzero :
      (kind : OrderKind) (ad pd : String) (o : LimitOrder)
      → C.is_zero o.amount ≡ false
      → Fits (pos 0) kind ad pd o
      → Fits (pos 1) kind ad pd o
  Fits-nonzero kind ad pd o z f = ground (arith, L.is_zero_iff o.amount)

  unfilled_orders-Fits :
      (kind : OrderKind) (ad pd : String) (os : List LimitOrder)
      → All (Fits (pos 0) kind ad pd) os
      → All (Fits (pos 1) kind ad pd) (unfilled_orders C os)
  unfolding unfilled_orders
  unfilled_orders-Fits kind ad pd [] h = tt
  unfilled_orders-Fits kind ad pd (o ∷ os) h = elim (Bool-cases (C.is_zero o.amount)) [
    | inl zero_amount ↦ rw zero_amount (unfilled_orders-Fits kind ad pd os h.1)
    | inr some_amount ↦
        rw some_amount
          (Fits-nonzero kind ad pd o some_amount h.0, unfilled_orders-Fits kind ad pd os h.1)
  ]

  unfilled_orders-IsSorted :
      (kind : OrderKind) (os : List LimitOrder)
      → IsSorted kind os
      → IsSorted kind (unfilled_orders C os)
  unfolding unfilled_orders
  unfilled_orders-IsSorted kind [] h = tt
  unfilled_orders-IsSorted kind (o ∷ os) h = elim (Bool-cases (C.is_zero o.amount)) [
    | inl zero_amount ↦ rw zero_amount (unfilled_orders-IsSorted kind os h.1)
    | inr some_amount ↦
        rw some_amount (All-unfilled_orders _ os h.0, unfilled_orders-IsSorted kind os h.1)
  ]

  -- After matching has lowered amounts, down to zero at the least, `RemoveFilledLimitOrders` makes a
  -- valid book again.
  pub remove_filled_limit_orders-IsValid :
      (ob : OrderBook) → IsValidFrom (pos 0) ob → IsValid (remove_filled_limit_orders C ob)
  unfolding remove_filled_limit_orders
  remove_filled_limit_orders-IsValid ob v = record {
    fits = unfilled_orders-Fits ob.kind ob.amount_denom ob.price_denom ob.orders v.fits;
    sorted = unfilled_orders-IsSorted ob.kind ob.orders v.sorted;
  }
