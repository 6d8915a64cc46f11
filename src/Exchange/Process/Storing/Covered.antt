-- ===== src/Exchange/Process/Storing/Covered.antt =====
-- `storeUnfilledLimitOrder` for a sender who holds what the order offers.
use thorchain_v.Base.{◌≡◌, refl, sym, Bool-cases, inl, inr, arith, subst}
use thorchain_v.Base.Int.{ℤ, pos, ◌+ℤ◌, ◌≤ℤ◌, ◌*ℤ◌, to_int64}
use thorchain_v.Sdk.Types.{Address, Coin, Time}
use thorchain_v.Sdk.Coins.{InRange}
use thorchain_v.Sdk.Keeper.{Outcome, ok, resume}
use thorchain_v.Exchange.Orders.{OrderKind, LimitOrder, IsKind, new_limit_order}
use thorchain_v.Exchange.Book.{add_limit_order}
use thorchain_v.Exchange.Book.Keys.{NoColon}
use thorchain_v.Exchange.Book.Validity.{add_limit_order_accepts}
use thorchain_v.Exchange.Env.{Env, World, IsLawful}
use thorchain_v.Exchange.Store.Ids.{IsNext, with_next, get_new_order_id-IsNext}
use thorchain_v.Exchange.Store.Laws.{IsValidStore, book_at, get_order_book_lem}
use thorchain_v.Exchange.Matching.Covered.{Covers}
use thorchain_v.Exchange.Process.{store_order, store_unfilled_limit_order}
use thorchain_v.Exchange.Process.Storing.{lock, lock-covered, to_lock_lem, with_next-IsKept}

-- A call that ends without an error.
abbrev pub Succeeds : {A W : Type 0} → Outcome A × W → Type 0
Succeeds {A} {W} r = (a : A) × (v : W) × (r ≡ (ok a, v))

module _ (E : Env) (L : IsLawful E) where
  store_order-Succeeds :
      (lo : LimitOrder) (w : World E)
      → IsKind lo.kind
      → NoColon lo.amount.denom
      → IsValidStore E w.store
      → pos 1 ≤ℤ lo.amount.amount
      → pos 1 ≤ℤ lo.price.amount
      → InRange (lo.amount.amount *ℤ lo.price.amount)
      → Covers E L lo.sender lo.kind lo.price lo.amount w.bank
      → Succeeds (store_order E (book_at E w.store lo.kind lo.amount.denom lo.price.denom) lo w)
  unfolding store_order
  store_order-Succeeds lo w k n v a p fit held =
      let ob = book_at E w.store lo.kind lo.amount.denom lo.price.denom in
      let b = v.books lo.kind lo.amount.denom lo.price.denom k n in
      let (accepted, others, placed, valid) =
        add_limit_order_accepts E.coins L.coins ob lo b.valid (record {
          kind_fits = sym b.kind_is;
          amount_fits = sym b.amount_is;
          price_fits = sym b.price_is;
          amount_least = a;
          price_positive = p;
          total_in_range = fit;
        }) in
      let ob' = (add_limit_order E.coins lo ob).1 in
      let (c, found, l) = to_lock_lem E L lo w k a p fit in
      let enough : c.amount ≤ℤ E.bank.amount_of w.bank lo.sender c.denom =
        subst (λ x. x.amount ≤ℤ E.bank.amount_of w.bank lo.sender x.denom) (sym l.is_offer) held in
      rw accepted (
        subst (λ r. Succeeds (resume (lock E L ob' lo) r)) (sym found)
          (_, _, lock-covered E L ob' lo c w l.nonneg enough))

  pub store_unfilled_limit_order-Succeeds :
      (sender : Address) (kind : OrderKind) (amount price : Coin) (expires_at : Time) (w : World E)
      (id : ℤ)
      → IsKind kind
      → NoColon amount.denom
      → IsValidStore E w.store
      → IsNext E L w id
      → pos 0 ≤ℤ amount.amount
      → pos 1 ≤ℤ price.amount
      → InRange (amount.amount *ℤ price.amount)
      → Covers E L sender kind price amount w.bank
      → Succeeds (store_unfilled_limit_order E sender kind amount price expires_at w)
  unfolding store_unfilled_limit_order
  store_unfilled_limit_order-Succeeds sender kind amount price expires_at w id k n v next a p fit
        held =
      let u = with_next E L w (to_int64 (id +ℤ pos 1)) in
      let kept = with_next-IsKept E L w (to_int64 (id +ℤ pos 1)) v in
      rw (get_new_order_id-IsNext E L w id next) (elim (Bool-cases (E.coins.is_zero amount)) [
        | inl nothing_left ↦ rw nothing_left (_, _, refl)
        | inr some_left ↦
            let positive : pos 1 ≤ℤ amount.amount =
              ground (arith, L.coins.is_zero_iff amount, some_left) in
            rw some_left (
              subst
                (λ r. Succeeds (
                  resume
                    (λ order_book.
                      store_order E order_book
                        (new_limit_order id sender kind amount price expires_at))
                    r))
                (sym (get_order_book_lem E kind amount.denom price.denom u))
                (store_order-Succeeds (new_limit_order id sender kind amount price expires_at) u k n
                  kept.valid positive p fit held))
      ])
