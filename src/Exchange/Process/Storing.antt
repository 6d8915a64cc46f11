-- ===== src/Exchange/Process/Storing.antt =====
-- `storeUnfilledLimitOrder`: the invariant of the store, and the coins in it.
pub mod Covered
use thorchain_v.Base.{
  ◌≡◌, refl, sym, ap, ◌∙◌, true, false, Bool, String, List, [], ◌∷◌, ◌++◌, inl, inr, arith, ◌==◌,
  if◌then◌else◌, str_eq, starts_with, subst,
}
use thorchain_v.Base.Int.{ℤ, pos, ◌+ℤ◌, ◌-ℤ◌, ◌*ℤ◌, ◌≤ℤ◌, ◌<ℤ◌, int_laws, parts, *ℤ_pos, ≤ℤ_total}
use thorchain_v.Sdk.Types.{Coin, SdkError}
use thorchain_v.Sdk.Coins.{InRange}
use thorchain_v.Sdk.Keeper.{Outcome, ok, err, panic, Keeper, ◌>>=◌, ◌>>◌, pure, check, lift, resume}
use thorchain_v.Exchange.Orders.{OrderKind, LimitOrder, ProcessedLimitOrder, IsKind, buy_order}
use thorchain_v.Exchange.Book.{OrderBook, add_limit_order, order_book_subspace}
use thorchain_v.Exchange.Book.Keys.{NoColon, starts_with-make_key}
use thorchain_v.Exchange.Book.Order.{IsPlaced}
use thorchain_v.Exchange.Book.Validity.{add_limit_order_accepts}
use thorchain_v.Exchange.Env.{Env, World, IsLawful}
use thorchain_v.Exchange.Store.{key_next_order_id, set_order_book}
use thorchain_v.Exchange.Store.Ids.{
  with_next, IsReadable, with_next-IsReadable, set_book-IsReadable,
}
use thorchain_v.Exchange.Store.Laws.{
  IsBookOf, IsValidStore, book_at, with_book, set-IsValidStore, set_other-IsValidStore,
  set_order_book_lem,
}
use thorchain_v.Exchange.Store.Locked.{locked_entries, locked_store-set}
use thorchain_v.Exchange.Matching.{get_total_price}
use thorchain_v.Exchange.Matching.Spec.{locked}
use thorchain_v.Exchange.Matching.Covered.{offer}
use thorchain_v.Exchange.Matching.Money.{locked_orders, in_denom}
use thorchain_v.Exchange.Process.{store_order, bank_call}
use thorchain_v.Exchange.Process.Keeps.{IsKept, Keeps}

locked_orders-append :
    (xs ys : List LimitOrder) (d : String)
    → locked_orders (xs ++ ys) d ≡ locked_orders xs d +ℤ locked_orders ys d
locked_orders-append [] ys d = omega int_laws
locked_orders-append (x ∷ xs) ys d = omega (int_laws, parts (locked_orders-append xs ys d))

locked_orders-IsPlaced :
    (kind : OrderKind) (lo : LimitOrder) (old new : List LimitOrder) (d : String)
    → IsPlaced kind lo old new
    → locked_orders new d ≡ locked_orders old d +ℤ locked lo d
locked_orders-IsPlaced kind lo old new d p =
    rw (p.old_split, p.new_split)
      (omega (
        int_laws,
        parts (locked_orders-append p.front p.back d),
        parts (locked_orders-append p.front (lo ∷ p.back) d),
      ))

-- Coins that leave an account and are locked for an order.
locked_away :
    (here : Bool) (a s s' t t' old more new : ℤ)
    → s' ≡ (if here then s -ℤ a else s)
    → more ≡ (if here then a else pos 0)
    → t' +ℤ old ≡ t +ℤ new
    → new ≡ old +ℤ more
    → s' +ℤ t' ≡ s +ℤ t
locked_away true a s s' t t' old more new e f g h =
    omega (int_laws, parts e, parts f, parts g, parts h)
locked_away false a s s' t t' old more new e f g h =
    omega (int_laws, parts e, parts f, parts g, parts h)

module _ (E : Env) (L : IsLawful E) where
  pub IsKept-trans : (u v w : World E) → IsKept E L u v → IsKept E L v w → IsKept E L u w
  IsKept-trans u v w a b = record {
    conserved = λ d. b.conserved d ∙ a.conserved d;
    valid = b.valid;
    readable = b.readable;
  }

  pub Keeps-trans :
      {A : Type 0} (P : Type 0) (u v : World E) (r : Outcome A × World E)
      → IsKept E L u v
      → Keeps E L P v r
      → Keeps E L P u r
  Keeps-trans P u v (ok a, w) k h = IsKept-trans u v w k h
  Keeps-trans P u v (err e, w) k h = IsKept-trans u v w k h
  Keeps-trans P u v (panic, w) k h = h

  pub IsKept-refl : (w : World E) → IsValidStore E w.store → IsReadable E L w.store → IsKept E L w w
  IsKept-refl w v rd = record { conserved = λ d. refl; valid = v; readable = rd }

  pub with_next-IsKept :
      (w : World E) (n : ℤ) → IsValidStore E w.store → IsKept E L w (with_next E L w n)
  with_next-IsKept w n v = record {
    conserved = λ d.
        ap (λ es. L.bank.supply w.bank d +ℤ locked_entries E d es)
          (L.store.iterate-set_other w.store key_next_order_id (L.ids.encode n) order_book_subspace
            refl);
    valid = set_other-IsValidStore E L w.store key_next_order_id (L.ids.encode n) refl v;
    readable = with_next-IsReadable E L w n;
  }

  -- What is left of the method when the coin to lock is known.
  abbrev lock : OrderBook → LimitOrder → Coin → Keeper (World E) ProcessedLimitOrder
  lock ob lo c = do
    e ← bank_call E (λ s. E.bank.subtract_coins s lo.sender c)
    check e
    set_order_book E ob
    pure (record { order_id = lo.order_id; open_amount = lo.amount })

  lock-covered :
      (ob : OrderBook) (lo : LimitOrder) (c : Coin) (w : World E)
      → pos 0 ≤ℤ c.amount
      → c.amount ≤ℤ E.bank.amount_of w.bank lo.sender c.denom
      → lock ob lo c w ≡ (
        ok (record { order_id = lo.order_id; open_amount = lo.amount }),
        with_book E L (record w { bank = (E.bank.subtract_coins w.bank lo.sender c).1 }) ob,
      )
  lock-covered ob lo c w n h = rw (L.bank.subtract_coins_ok w.bank lo.sender c n h) (
      ap
        (resume (λ (x : Unit {0}).
          pure {W = World E} (record { order_id = lo.order_id; open_amount = lo.amount })))
        (set_order_book_lem E L ob
          (record w { bank = (E.bank.subtract_coins w.bank lo.sender c).1 })))

  lock-short :
      (ob : OrderBook) (lo : LimitOrder) (c : Coin) (w : World E)
      → E.bank.amount_of w.bank lo.sender c.denom <ℤ c.amount
      → (e : SdkError) × (lock ob lo c w ≡ (err e, w))
  lock-short ob lo c w h =
      let (e, refused) = L.bank.subtract_coins_short w.bank lo.sender c h in (e, rw refused refl)

  lock-Keeps :
      (ob ob' : OrderBook) (lo : LimitOrder) (c : Coin) (w : World E)
      → IsKind lo.kind
      → NoColon lo.amount.denom
      → IsValidStore E w.store
      → IsReadable E L w.store
      → ob ≡ book_at E w.store lo.kind lo.amount.denom lo.price.denom
      → IsBookOf lo.kind lo.amount.denom lo.price.denom ob'
      → ((d : String) → locked_orders ob'.orders d ≡ locked_orders ob.orders d +ℤ locked lo d)
      → ((d : String) → locked lo d ≡ in_denom d c)
      → pos 0 ≤ℤ c.amount
      → Keeps E L ⊥ w (lock ob' lo c w)
  lock-Keeps ob ob' lo c w k n v rd found b more same h =
      elim (≤ℤ_total c.amount (E.bank.amount_of w.bank lo.sender c.denom)) [
        | inl enough ↦ rw (lock-covered ob' lo c w h enough) (record {
          conserved = λ d.
              locked_away (str_eq d c.denom) _ _ _ _ _ _ _ _
                (L.bank.supply-subtract_coins w.bank lo.sender c d h enough) (same d)
                (locked_store-set E d L w.store ob' lo.kind lo.amount.denom lo.price.denom b.key_is)
                (more d ∙ ap (λ o. locked_orders o.orders d +ℤ locked lo d) found);
          valid = set-IsValidStore E L w.store ob' lo.kind lo.amount.denom lo.price.denom k n b v;
          readable =
              set_book-IsReadable E L w.store ob'.key _
                (ap (λ s. starts_with s order_book_subspace) b.key_is
                  ∙ starts_with-make_key lo.kind lo.amount.denom lo.price.denom)
                rd;
        })
        | inr short ↦
            let (e, refused) = lock-short ob' lo c w short in rw refused (IsKept-refl w v rd)
      ]

  -- The coin that is locked for an order.
  abbrev pub to_lock : LimitOrder → Keeper (World E) Coin
  to_lock lo =
      if lo.kind == buy_order
      then lift (get_total_price E.coins lo.amount lo.price)
      else pure lo.amount

  pub record IsToLock (lo : LimitOrder) (c : Coin) : Type 0 where
    pub is_locked : (d : String) → locked lo d ≡ in_denom d c
    pub nonneg : pos 0 ≤ℤ c.amount
    pub is_offer : c ≡ offer lo.kind lo.amount lo.price

  pub to_lock_lem :
      (lo : LimitOrder) (w : World E)
      → IsKind lo.kind
      → pos 1 ≤ℤ lo.amount.amount
      → pos 1 ≤ℤ lo.price.amount
      → InRange (lo.amount.amount *ℤ lo.price.amount)
      → (c : Coin) × (to_lock lo w ≡ (ok c, w)) × IsToLock lo c
  unfolding get_total_price
  to_lock_lem lo w (inl buys) a p fit =
      let product = L.coins.mul_total lo.amount.amount lo.price.amount fit in
      let h = *ℤ_pos lo.amount.amount lo.price.amount (omega arith) (omega arith) in
      (
        record { denom = lo.price.denom; amount = lo.amount.amount *ℤ lo.price.amount },
        ground (arith, buys, product),
        record {
          is_locked = λ d. ground (arith, buys);
          nonneg = omega arith;
          is_offer = rw buys refl;
        },
      )
  to_lock_lem lo w (inr sells) a p fit = (
    lo.amount,
    ground (arith, sells),
    record {
      is_locked = λ d. ground (arith, sells);
      nonneg = omega arith;
      is_offer = rw sells refl;
    },
  )

  pub store_order-Keeps :
      (lo : LimitOrder) (w : World E)
      → IsKind lo.kind
      → NoColon lo.amount.denom
      → IsValidStore E w.store
      → IsReadable E L w.store
      → pos 1 ≤ℤ lo.amount.amount
      → pos 1 ≤ℤ lo.price.amount
      → InRange (lo.amount.amount *ℤ lo.price.amount)
      → Keeps E L ⊥ w
          (store_order E (book_at E w.store lo.kind lo.amount.denom lo.price.denom) lo w)
  unfolding store_order
  store_order-Keeps lo w k n v rd a p fit =
      let ob = book_at E w.store lo.kind lo.amount.denom lo.price.denom in
      let b = v.books lo.kind lo.amount.denom lo.price.denom k n in
      let (accepted, rest, placed, valid) =
        add_limit_order_accepts E.coins L.coins ob lo b.valid (record {
          kind_fits = sym b.kind_is;
          amount_fits = sym b.amount_is;
          price_fits = sym b.price_is;
          amount_least = a;
          price_positive = p;
          total_in_range = fit;
        }) in
      let ob' = (add_limit_order E.coins lo ob).1 in
      let b' : IsBookOf lo.kind lo.amount.denom lo.price.denom ob' = record {
        key_is = ap (λ o. o.key) rest ∙ b.key_is;
        kind_is = ap (λ o. o.kind) rest ∙ b.kind_is;
        amount_is = ap (λ o. o.amount_denom) rest ∙ b.amount_is;
        price_is = ap (λ o. o.price_denom) rest ∙ b.price_is;
        valid = valid;
      } in
      let (c, found, l) = to_lock_lem lo w k a p fit in
      rw accepted (
        subst (λ r. Keeps E L ⊥ w (resume (lock ob' lo) r)) (sym found)
          (lock-Keeps ob ob' lo c w k n v rd refl b'
            (λ d. locked_orders-IsPlaced ob.kind lo ob.orders ob'.orders d placed) l.is_locked
            l.nonneg))
