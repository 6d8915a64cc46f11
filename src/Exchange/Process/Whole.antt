-- ===== src/Exchange/Process/Whole.antt =====
-- `storeUnfilledLimitOrder` and `processLimitOrder` as a whole.
pub mod Succeeds
use thorchain_v.Base.{
  ◌≡◌, refl, sym, ap, none, some, false, Option, Bool-cases, List, inl, inr, arith, subst,
}
use thorchain_v.Base.Int.{ℤ, pos, ◌≤ℤ◌, ◌+ℤ◌, ◌*ℤ◌, *ℤ_mono, int_laws, parts, to_int64}
use thorchain_v.Sdk.Types.{Address, Coin, Time}
use thorchain_v.Sdk.Coins.{InRange}
use thorchain_v.Sdk.Keeper.{Outcome, ok, err, panic, Keeper, resume, ◌>>=◌, pure}
use thorchain_v.Exchange.Orders.{
  OrderKind, ProcessedLimitOrder, FilledLimitOrder, IsKind, new_limit_order,
}
use thorchain_v.Exchange.Book.Keys.{NoColon}
use thorchain_v.Exchange.Env.{Env, World, IsLawful}
use thorchain_v.Exchange.Store.{get_new_order_id, key_next_order_id}
use thorchain_v.Exchange.Store.Ids.{get_new_order_id_lem, take_id, IsReadable}
use thorchain_v.Exchange.Store.Laws.{IsValidStore, get_order_book_lem}
use thorchain_v.Exchange.Matching.{fill_order_if_possible}
use thorchain_v.Exchange.Process.{
  store_order, store_unfilled_limit_order, process_limit_order, check_order,
}
use thorchain_v.Exchange.Process.Checks.{
  check_order-only, check_order-unchanged, check_order-panics,
}
use thorchain_v.Exchange.Process.Filling.{Filling, matched, fill_order_if_possible-Filling}
use thorchain_v.Exchange.Process.Keeps.{IsKept, Keeps, fill_order_if_possible-Keeps}
use thorchain_v.Exchange.Matching.Runs.{Run-amounts, Run-fills_positive}
use thorchain_v.Exchange.Process.Storing.{
  Keeps-trans, IsKept-refl, with_next-IsKept, store_order-Keeps,
}

module _ (E : Env) (L : IsLawful E) where
  resume-Keeps :
      {A B : Type 0} (P : Type 0) (w : World E) (r : Outcome A × World E)
      (f : A → Keeper (World E) B)
      → Keeps E L P w r
      → ((a : A) (v : World E) → r ≡ (ok a, v) → IsKept E L w v → Keeps E L P v (f a v))
      → Keeps E L P w (resume f r)
  resume-Keeps P w (ok a, v) f h k = Keeps-trans E L P w v (f a v) h (k a v refl h)
  resume-Keeps P w (err e, v) f h k = h
  resume-Keeps P w (panic, v) f h k = h

  -- A call that does not panic.
  Keeps-total :
      {A : Type 0} (P : Type 0) (w : World E) (r : Outcome A × World E)
      → Keeps E L ⊥ w r
      → Keeps E L P w r
  Keeps-total P w (ok a, v) h = h
  Keeps-total P w (err e, v) h = h
  Keeps-total P w (panic, v) h = elim h [ ]

  take_id-Keeps :
      (w : World E) (o : Option E.store.Bytes)
      → E.store.get w.store key_next_order_id ≡ o
      → IsValidStore E w.store
      → IsReadable E L w.store
      → Keeps E L ⊥ w (take_id E L w o)
  take_id-Keeps w none found v rd = IsKept-refl E L w v rd
  take_id-Keeps w (some bz) found v rd =
      rw (rd bz found)
        (with_next-IsKept E L w (to_int64 ((E.ids.unmarshal bz (pos 0)).1 +ℤ pos 1)) v)

  get_new_order_id-Keeps :
      (w : World E)
      → IsValidStore E w.store
      → IsReadable E L w.store
      → Keeps E L ⊥ w (get_new_order_id E w)
  get_new_order_id-Keeps w v rd =
      rw (get_new_order_id_lem E L w)
        (take_id-Keeps w (E.store.get w.store key_next_order_id) refl v rd)

  positive_of_nonzero :
      (c : Coin) → pos 0 ≤ℤ c.amount → E.coins.is_zero c ≡ false → pos 1 ≤ℤ c.amount
  positive_of_nonzero c h z = ground (arith, L.coins.is_zero_iff c)

  -- With a valid store, `storeUnfilledLimitOrder` does not panic, and, with an error too, keeps what
  -- is stored valid, and in every denom the sum of what the accounts hold and of what is locked for
  -- stored orders; the amount is not negative, the price is positive and the total price in range.
  store_unfilled_limit_order-Keeps :
      (sender : Address) (kind : OrderKind) (amount price : Coin) (expires_at : Time) (w : World E)
      → IsKind kind
      → NoColon amount.denom
      → IsValidStore E w.store
      → IsReadable E L w.store
      → pos 0 ≤ℤ amount.amount
      → pos 1 ≤ℤ price.amount
      → InRange (amount.amount *ℤ price.amount)
      → Keeps E L ⊥ w (store_unfilled_limit_order E sender kind amount price expires_at w)
  unfolding store_unfilled_limit_order
  store_unfilled_limit_order-Keeps sender kind amount price expires_at w k n v rd a p fit =
      resume-Keeps ⊥ w (get_new_order_id E w) _ (get_new_order_id-Keeps w v rd) (λ id u _ kept.
        elim (Bool-cases (E.coins.is_zero amount)) [
          | inl nothing_left ↦ rw nothing_left (IsKept-refl E L u kept.valid kept.readable)
          | inr some_left ↦ rw some_left (
              subst
                (λ r. Keeps E L ⊥ u (
                  resume
                    (λ order_book.
                      store_order E order_book
                        (new_limit_order id sender kind amount price expires_at))
                    r))
                (sym (get_order_book_lem E kind amount.denom price.denom u))
                (store_order-Keeps E L (new_limit_order id sender kind amount price expires_at) u k
                  n kept.valid kept.readable (positive_of_nonzero amount a some_left) p fit))
        ])

  -- What was left over is in the denom that was wanted, and within it.
  abbrev pub IsRest : Coin → Outcome (Coin × List FilledLimitOrder) × World E → Type 0
  IsRest amount (ok (u, logs), v) =
      (u.denom ≡ amount.denom) × (pos 0 ≤ℤ u.amount) × (u.amount ≤ℤ amount.amount)
  IsRest amount (err e, v) = Unit {0}
  IsRest amount (panic, v) = Unit {0}

  pub Filling-IsRest :
      (sender : Address) (kind : OrderKind) (amount price : Coin) (w : World E)
      (r : Outcome (Coin × List FilledLimitOrder) × World E)
      → pos 0 ≤ℤ amount.amount
      → Filling E L sender kind amount price w r
      → IsRest amount r
  Filling-IsRest sender kind amount price w r h (matched orders logs u none t run) =
      let a = Run-amounts E sender kind price run h in
      let f = Run-fills_positive E sender kind price run in
      (a.1, a.2, omega (int_laws, parts a.0, f))
  Filling-IsRest sender kind amount price w r h (matched orders logs u (some e) t run) = tt

  unchanged-Keeps :
      {A : Type 0} (P : Type 0) (w : World E) (r : Outcome A × World E)
      → r.1 ≡ w
      → IsKept E L w w
      → (r.0 ≡ panic → P)
      → Keeps E L P w r
  unchanged-Keeps P w (ok a, v) e h p = subst (IsKept E L w) (sym e) h
  unchanged-Keeps P w (err x, v) e h p = subst (IsKept E L w) (sym e) h
  unchanged-Keeps P w (panic, v) e h p = p refl

  pub total-InRange-rest :
      (a b p : ℤ)
      → pos 0 ≤ℤ b
      → b ≤ℤ a
      → pos 1 ≤ℤ p
      → E.coins.mul a p ≡ some (a *ℤ p)
      → InRange (b *ℤ p)
  total-InRange-rest a b p h k l e =
      let m = *ℤ_mono b a p h k (omega arith) in
      let fit = L.coins.mul_fits a p e in omega (arith, m, fit)

  -- What `processLimitOrder` does after its checks.
  abbrev fill_and_store :
      Address
      → OrderKind
      → Coin
      → Coin
      → Time
      → Keeper (World E) (ProcessedLimitOrder × List FilledLimitOrder)
  fill_and_store sender kind amount price expires_at = do
    result ← fill_order_if_possible E sender kind amount price
    processed_order ← store_unfilled_limit_order E sender kind result.0 price expires_at
    pure (processed_order, result.1)

  fill_and_store-Keeps :
      (sender : Address) (kind : OrderKind) (amount price : Coin) (expires_at : Time) (u : World E)
      → NoColon amount.denom
      → IsValidStore E u.store
      → IsReadable E L u.store
      → IsKind kind
      → pos 0 ≤ℤ amount.amount
      → pos 1 ≤ℤ price.amount
      → E.coins.mul amount.amount price.amount ≡ some (amount.amount *ℤ price.amount)
      → Keeps E L ⊥ u (fill_and_store sender kind amount price expires_at u)
  fill_and_store-Keeps sender kind amount price expires_at u n v rd k h p fit =
      resume-Keeps ⊥ u (fill_order_if_possible E sender kind amount price u) _
        (fill_order_if_possible-Keeps E L sender kind amount price u k v n rd h)
        (λ r x filled kept.
          let rest = subst (IsRest amount) filled (
            Filling-IsRest sender kind amount price u _ h
              (fill_order_if_possible-Filling E L sender kind amount price u k v n h)) in
          resume-Keeps ⊥ x (store_unfilled_limit_order E sender kind r.0 price expires_at x) _
            (store_unfilled_limit_order-Keeps sender kind r.0 price expires_at x k
              (subst NoColon (sym rest.0) n) kept.valid kept.readable rest.1 p
              (total-InRange-rest amount.amount r.0.amount price.amount rest.1 rest.2 p fit))
            (λ p y _ kept'. IsKept-refl E L y kept'.valid kept'.readable))

  -- With a valid store and an amount denom without a colon, `processLimitOrder`, with an error too,
  -- keeps what is stored valid, and in every denom the sum of what the accounts hold and of what is
  -- locked for stored orders. It panics only if the total price is out of range.
  pub process_limit_order-Keeps :
      (now : Time) (sender : Address) (kind : OrderKind) (amount price : Coin) (expires_at : Time)
      (w : World E)
      → NoColon amount.denom
      → IsValidStore E w.store
      → IsReadable E L w.store
      → Keeps E L
          (E.coins.mul amount.amount price.amount ≡ none)
          w
          (process_limit_order E now sender kind amount price expires_at w)
  unfolding process_limit_order
  process_limit_order-Keeps now sender kind amount price expires_at w n v rd =
      let P : Type 0 = E.coins.mul amount.amount price.amount ≡ none in
      resume-Keeps P w (check_order E now sender kind amount price expires_at w) _
        (unchanged-Keeps P w _ (check_order-unchanged E L now sender kind amount price expires_at w)
          (IsKept-refl E L w v rd)
          (check_order-panics E L now sender kind amount price expires_at w))
        (λ _ u passed kept.
          let a =
            check_order-only E L now sender kind amount price expires_at w (ap (λ r. r.0) passed) in
          Keeps-total P u _ (
            fill_and_store-Keeps sender kind amount price expires_at u n kept.valid kept.readable
              a.kind_supported (omega (arith, a.amount_positive)) a.price_positive
              a.total_in_range))
