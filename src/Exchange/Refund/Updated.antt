-- ===== src/Exchange/Refund/Updated.antt =====
-- The books that `refundExpiredLimitOrders` updates, and the orders that it refunds.
use thorchain_v.Base.{
  ◌≡◌, sym, subst, Bool-cases, List, [], ◌∷◌, ◌++◌, inl, inr, All, All-imp, All-append, String,
}
use thorchain_v.Base.Int.{pos, ◌+ℤ◌, int_laws, parts}
use thorchain_v.Sdk.Types.{Time, before}
use thorchain_v.Exchange.Orders.{LimitOrder, OrderKind, IsKind}
use thorchain_v.Exchange.Book.{OrderBook}
use thorchain_v.Exchange.Book.Order.{IsSorted}
use thorchain_v.Exchange.Book.Validity.{IsValid, FitsBook}
use thorchain_v.Exchange.Env.{Env, IsLawful}
use thorchain_v.Exchange.Store.Laws.{IsBookOf, IsEntry, decoded}
use thorchain_v.Exchange.Matching.Money.{locked_orders}
use thorchain_v.Exchange.Refund.{split_expired, collect_expired, books_of}
use thorchain_v.Exchange.Refund.Laws.{IsRefundable}

-- The two parts keep what every order has, and the kept ones their order.
pub split_expired-All :
    (P : LimitOrder → Type 0) (now : Time) (os : List LimitOrder)
    → All P os
    → All P (split_expired now os).0 × All P (split_expired now os).1
unfolding split_expired
split_expired-All P now [] h = (tt, tt)
split_expired-All P now (o ∷ os) h =
    let rest = split_expired-All P now os h.1 in
    elim (Bool-cases (before o.expires_at now)) [
      | inl late ↦ rw late (rest.0, (h.0, rest.1))
      | inr in_time ↦ rw in_time ((h.0, rest.0), rest.1)
    ]

pub locked_orders-append :
    (xs ys : List LimitOrder) (d : String)
    → locked_orders (xs ++ ys) d ≡ locked_orders xs d +ℤ locked_orders ys d
locked_orders-append [] ys d = omega int_laws
locked_orders-append (x ∷ xs) ys d = omega (int_laws, parts (locked_orders-append xs ys d))

pub kept-IsSorted :
    (now : Time) (kind : OrderKind) (os : List LimitOrder)
    → IsSorted kind os
    → IsSorted kind (split_expired now os).0
unfolding split_expired
kept-IsSorted now kind [] h = tt
kept-IsSorted now kind (o ∷ os) h = elim (Bool-cases (before o.expires_at now)) [
  | inl late ↦ rw late (kept-IsSorted now kind os h.1)
  | inr in_time ↦ rw in_time ((split_expired-All _ now os h.0).0, kept-IsSorted now kind os h.1)
]

module _ (E : Env) (L : IsLawful E) (now : Time) where
  abbrev pub kept : OrderBook → List LimitOrder
  kept ob = (split_expired now ob.orders).0

  abbrev pub expired : OrderBook → List LimitOrder
  expired ob = (split_expired now ob.orders).1

  abbrev pub updated : OrderBook → OrderBook
  updated ob = record ob { orders = kept ob }

  pub updated-IsBookOf :
      (kind : OrderKind) (ad pd : String) (ob : OrderBook)
      → IsBookOf kind ad pd ob
      → IsBookOf kind ad pd (updated ob)
  updated-IsBookOf kind ad pd ob b = record {
    key_is = b.key_is;
    kind_is = b.kind_is;
    amount_is = b.amount_is;
    price_is = b.price_is;
    valid = record {
      fits = (split_expired-All (FitsBook (pos 1) ob) now ob.orders b.valid.fits).0;
      sorted = kept-IsSorted now ob.kind ob.orders b.valid.sorted;
    };
  }

  pub expired-IsRefundable :
      (ob : OrderBook) → IsKind ob.kind → IsValid ob → All IsRefundable (expired ob)
  expired-IsRefundable ob k v =
      All-imp (FitsBook (pos 1) ob) IsRefundable
        (λ o f. record {
          kind_supported = subst IsKind (sym f.kind_fits) k;
          amount_positive = f.amount_least;
          price_positive = f.price_positive;
          total_in_range = f.total_in_range;
        })
        (expired ob) (split_expired-All (FitsBook (pos 1) ob) now ob.orders v.fits).1

  pub refunds-IsRefundable :
      (es : List (String × E.store.Bytes))
      → All (IsEntry E) es
      → All IsRefundable (collect_expired now (books_of E es)).1
  unfolding collect_expired
  refunds-IsRefundable [] h = tt
  refunds-IsRefundable ((k, bz) ∷ es) h =
      let ob = decoded E bz in
      All-append IsRefundable (expired ob) (collect_expired now (books_of E es)).1
        (expired-IsRefundable ob h.0.kind_supported h.0.is_book.valid) (refunds-IsRefundable es h.1)
