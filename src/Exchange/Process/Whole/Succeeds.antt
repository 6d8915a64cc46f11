-- ===== src/Exchange/Process/Whole/Succeeds.antt =====
-- When `processLimitOrder` ends without an error.
use thorchain_v.Base.{◌≡◌, ◌↔◌, refl, ap, ◌∙◌, none, some, List, arith, subst, sym, starts_with}
use thorchain_v.Base.Int.{ℤ, pos, ◌≤ℤ◌, ◌*ℤ◌}
use thorchain_v.Sdk.Types.{Address, Coin, Time}
use thorchain_v.Sdk.Keeper.{Outcome, ok, err, panic, resume, Keeper, pure, ◌>>=◌}
use thorchain_v.Exchange.Orders.{OrderKind, ProcessedLimitOrder, FilledLimitOrder, IsKind}
use thorchain_v.Exchange.Book.{order_book_subspace}
use thorchain_v.Exchange.Book.Keys.{NoColon, starts_with-make_key}
use thorchain_v.Exchange.Env.{Env, World, IsLawful}
use thorchain_v.Exchange.Store.Ids.{IsNext, IsNext-IsReadable, set_book-IsNext}
use thorchain_v.Exchange.Store.Laws.{IsValidStore, with_book}
use thorchain_v.Exchange.Matching.{fill_order_if_possible, matching_kind}
use thorchain_v.Exchange.Matching.Covered.{Covers, Run-Covers}
use thorchain_v.Exchange.Process.{process_limit_order, store_unfilled_limit_order}
use thorchain_v.Exchange.Process.Checks.{IsAdmissible, check_order-accepts, check_order-only}
use thorchain_v.Exchange.Process.Filling.{
  Filling, matched, open_book, matching-IsKind, counterparts, fill_order_if_possible-Filling,
}
use thorchain_v.Exchange.Process.Keeps.{Keeps, fill_order_if_possible-Keeps}
use thorchain_v.Exchange.Process.Storing.Covered.{Succeeds, store_unfilled_limit_order-Succeeds}
use thorchain_v.Exchange.Process.Whole.{IsRest, Filling-IsRest, total-InRange-rest}

module _ (E : Env) (L : IsLawful E) (sender : Address) (kind : OrderKind) (amount price : Coin)
    (id : ℤ) where
  -- No error, the offer for the rest is held, and the next id is as it was.
  IsCovered : Outcome (Coin × List FilledLimitOrder) × World E → Type 0
  IsCovered (ok (u, logs), v) = Covers E L sender kind price u v.bank × IsNext E L v id
  IsCovered (err e, v) = ⊥
  IsCovered (panic, v) = ⊥

  Filling-IsCovered :
      (w : World E) (r : Outcome (Coin × List FilledLimitOrder) × World E)
      → IsKind kind
      → IsValidStore E w.store
      → NoColon amount.denom
      → pos 0 ≤ℤ amount.amount
      → pos 0 ≤ℤ price.amount
      → IsNext E L w id
      → Covers E L sender kind price amount w.bank
      → Filling E L sender kind amount price w r
      → IsCovered r
  unfolding IsCovered
  Filling-IsCovered w r k v n a p next held (matched orders logs u none t run) =
      let b = v.books (matching_kind kind) amount.denom price.denom (matching-IsKind k) n in
      (
        (Run-Covers E L sender kind price run k p a
            (counterparts E L sender kind amount price w k v n) held).1,
        set_book-IsNext E L w
            (with_book E L (record w { bank = t })
              (open_book E L sender kind amount price w orders))
            id _ _
            (ap (λ s. starts_with s order_book_subspace) b.key_is ∙ starts_with-make_key _ _ _) refl
            next,
      )
  Filling-IsCovered w r k v n a p next held (matched orders logs u (some e) t run) =
      let (clean, rest) =
        Run-Covers E L sender kind price run k p a
          (counterparts E L sender kind amount price w k v n) held in
      cc clean

  module _ (expires_at : Time) (k : IsKind kind) (n : NoColon amount.denom)
      (p : pos 1 ≤ℤ price.amount)
      (fit : E.coins.mul amount.amount price.amount ≡ some (amount.amount *ℤ price.amount)) where
    abbrev then_store :
        Coin × List FilledLimitOrder
        → Keeper (World E) (ProcessedLimitOrder × List FilledLimitOrder)
    then_store result = do
      processed_order ← store_unfilled_limit_order E sender kind result.0 price expires_at
      pure (processed_order, result.1)

    store-Succeeds :
        (w : World E) (r : Outcome (Coin × List FilledLimitOrder) × World E)
        → IsRest E L amount r
        → Keeps E L ⊥ w r
        → IsCovered r
        → Succeeds (resume then_store r)
    unfolding IsCovered
    store-Succeeds w (ok (u, logs), v) rest kept covered =
        let (stored, x, e) =
          store_unfilled_limit_order-Succeeds E L sender kind u price expires_at v id k
            (subst NoColon (sym rest.0) n) kept.valid covered.1 rest.1 p
            (total-InRange-rest E L amount.amount u.amount price.amount rest.1 rest.2 p fit)
            covered.0 in
        (
          (stored, logs),
          x,
          ap (resume (λ (o : ProcessedLimitOrder). pure {W = World E} (o, logs))) e,
        )
    store-Succeeds w (err e, v) rest kept covered = absurd covered
    store-Succeeds w (panic, v) rest kept covered = absurd covered

module _ (E : Env) (L : IsLawful E) (now : Time) (sender : Address) (kind : OrderKind)
    (amount price : Coin) (expires_at : Time) (w : World E) (id : ℤ) where
  accepted-Succeeds :
      NoColon amount.denom
      → IsValidStore E w.store
      → IsNext E L w id
      → IsAdmissible E now sender kind amount price expires_at w.bank
      → Succeeds (process_limit_order E now sender kind amount price expires_at w)
  unfolding process_limit_order
  accepted-Succeeds n v next a =
      let k = a.kind_supported in
      let p = a.price_positive in
      let p0 : pos 0 ≤ℤ price.amount = omega arith in
      let h : pos 0 ≤ℤ amount.amount = (let m = a.amount_positive in omega arith) in
      let filling = fill_order_if_possible-Filling E L sender kind amount price w k v n h in
      rw (check_order-accepts E L now sender kind amount price expires_at w a) (
        store-Succeeds E L sender kind amount price id expires_at k n p a.total_in_range w
          (fill_order_if_possible E sender kind amount price w)
          (Filling-IsRest E L sender kind amount price w _ h filling)
          (fill_order_if_possible-Keeps E L sender kind amount price w k v n
            (IsNext-IsReadable E L w id next) h)
          (Filling-IsCovered E L sender kind amount price id w _ k v n h p0 next a.offer_held
            filling))

  passed :
      {A : Type 0} (f : Unit {0} → Keeper (World E) A) (r : Outcome (Unit {0}) × World E)
      → Succeeds (resume f r)
      → r.0 ≡ ok tt
  passed f (ok x, v) h = refl
  passed f (err e, v) (a, x, h) = cc h
  passed f (panic, v) (a, x, h) = cc h

  -- With valid order books, a next order id and an amount denom without a colon, `processLimitOrder`
  -- ends without an error or a panic exactly if the order is admissible: not expired, of a supported
  -- kind, over two denoms, with a positive amount and price whose product is in range, and of a
  -- sender who holds what it offers. What the sender holds then pays for every fill, and for what is
  -- locked for the rest.
  pub process_limit_order-Succeeds_iff :
      NoColon amount.denom
      → IsValidStore E w.store
      → IsNext E L w id
      → Succeeds (process_limit_order E now sender kind amount price expires_at w)
        ↔ IsAdmissible E now sender kind amount price expires_at w.bank
  unfolding process_limit_order
  process_limit_order-Succeeds_iff n v next = (
    λ h. check_order-only E L now sender kind amount price expires_at w (passed _ _ h),
    accepted-Succeeds n v next,
  )
