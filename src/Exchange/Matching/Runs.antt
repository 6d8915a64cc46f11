-- ===== src/Exchange/Matching/Runs.antt =====
-- What a run of fills does to amounts, prices and the order book.
use thorchain_v.Base.{
  ◌≡◌, refl, ap, ◌∙◌, ◌⊎◌, true, false, Option, none, List, [], ◌∷◌, inl, inr, All, All-imp, arith,
  String,
}
use thorchain_v.Base.Int.{ℤ, pos, ◌≤ℤ◌, ◌+ℤ◌, ◌-ℤ◌, *ℤ_mono, int_laws, parts}
use thorchain_v.Sdk.Types.{Address, Coin, SdkError}
use thorchain_v.Exchange.Orders.{OrderKind, LimitOrder, FilledLimitOrder, IsKind}
use thorchain_v.Exchange.Fill.Laws.{crosses}
use thorchain_v.Exchange.Book.Order.{NotBeaten, IsSorted}
use thorchain_v.Exchange.Book.Validity.{Fits}
use thorchain_v.Exchange.Env.{Env}
use thorchain_v.Exchange.Matching.{matching_kind}
use thorchain_v.Exchange.Matching.Spec.{Run, exhausted, stopped, refused, next}

-- The amounts of a log, together.
abbrev pub filled_total : List FilledLimitOrder → ℤ
filled_total [] = pos 0
filled_total (log ∷ logs) = log.filled_amount.amount +ℤ filled_total logs

filled_total_nonneg :
    (logs : List FilledLimitOrder)
    → All (λ log. pos 1 ≤ℤ log.filled_amount.amount) logs
    → pos 0 ≤ℤ filled_total logs
filled_total_nonneg [] h = omega arith
filled_total_nonneg (log ∷ logs) h = omega (int_laws, h.0, filled_total_nonneg logs h.1)

-- A price that is not ahead of one that the limit does not reach is not reached either.
crosses-NotBeaten :
    (kind : OrderKind) (limit p q : ℤ)
    → IsKind kind
    → NotBeaten (matching_kind kind) p q
    → crosses kind limit p ≡ false
    → crosses kind limit q ≡ false
crosses-NotBeaten kind limit p q (inl e) h c = ground arith
crosses-NotBeaten kind limit p q (inr e) h c = ground arith

Fits-weaken :
    (k : OrderKind) (ad pd : String) (o : LimitOrder)
    → Fits (pos 1) k ad pd o
    → Fits (pos 0) k ad pd o
Fits-weaken k ad pd o f = ground arith

module _ (E : Env) (sender : Address) (kind : OrderKind) (price : Coin) where
  -- Nothing is lost and nothing made up: what was wanted is what the log fills and what is left over,
  -- in the same denom, and what is left over is not negative.
  pub Run-amounts :
      {os os' : List LimitOrder} {u u' : Coin} {s t : E.bank.State} {logs : List FilledLimitOrder}
      {e : Option SdkError}
      → Run E sender kind price os u s os' logs u' e t
      → pos 0 ≤ℤ u.amount
      → (u.amount ≡ filled_total logs +ℤ u'.amount) × (u'.denom ≡ u.denom) × (pos 0 ≤ℤ u'.amount)
  Run-amounts (exhausted u s) h = (omega int_laws, refl, h)
  Run-amounts (stopped o os u s x) h = (omega int_laws, refl, h)
  Run-amounts (refused o os u s e x c) h = (omega int_laws, refl, h)
  Run-amounts (next o os u s log o' u' t os' logs u'' e t' f r) h =
      let ih = Run-amounts r (rw f.left_over (omega (int_laws, f.within_wanted))) in
      (
        omega (
          int_laws,
          parts ih.0,
          parts (ap (λ c. c.amount) f.left_over),
          parts (ap (λ l. l.filled_amount.amount) f.logged),
        ),
        ih.1 ∙ ap (λ c. c.denom) f.left_over,
        ih.2,
      )

  -- Every fill is at the stored order's price, and that price crosses the limit.
  pub Run-prices :
      {os os' : List LimitOrder} {u u' : Coin} {s t : E.bank.State} {logs : List FilledLimitOrder}
      {e : Option SdkError}
      → Run E sender kind price os u s os' logs u' e t
      → All
          (λ log.
            (crosses kind price.amount log.filled_price.amount ≡ true)
            × (pos 1 ≤ℤ log.filled_amount.amount))
          logs
  Run-prices (exhausted u s) = tt
  Run-prices (stopped o os u s x) = tt
  Run-prices (refused o os u s e x c) = tt
  Run-prices (next o os u s log o' u' t os' logs u'' e t' f r) =
      ((rw f.logged f.price_crosses, rw f.logged f.positive), Run-prices r)

  pub Run-fills_positive :
      {os os' : List LimitOrder} {u u' : Coin} {s t : E.bank.State} {logs : List FilledLimitOrder}
      {e : Option SdkError}
      → Run E sender kind price os u s os' logs u' e t
      → pos 0 ≤ℤ filled_total logs
  Run-fills_positive {logs} r =
      filled_total_nonneg logs (All-imp _ _ (λ l h. h.1) logs (Run-prices r))

  -- The run keeps each order's place in the book, and takes no more from it than there is.
  pub Run-Fits :
      {os os' : List LimitOrder} {u u' : Coin} {s t : E.bank.State} {logs : List FilledLimitOrder}
      {e : Option SdkError} (k : OrderKind) (ad pd : String)
      → Run E sender kind price os u s os' logs u' e t
      → All (Fits (pos 1) k ad pd) os
      → All (Fits (pos 0) k ad pd) os'
  Run-Fits k ad pd (exhausted u s) h = tt
  Run-Fits k ad pd (stopped o os u s x) h = All-imp _ _ (Fits-weaken k ad pd) (o ∷ os) h
  Run-Fits k ad pd (refused o os u s e x c) h = All-imp _ _ (Fits-weaken k ad pd) (o ∷ os) h
  Run-Fits k ad pd (next o os u s log o' u' t os' logs u'' e t' f r) h = (
    rw f.remains (record {
      kind_fits = h.0.kind_fits;
      amount_fits = h.0.amount_fits;
      price_fits = h.0.price_fits;
      amount_least = omega (int_laws, f.within_stored);
      price_positive = h.0.price_positive;
      total_in_range =
          let m =
            *ℤ_mono (o.amount.amount -ℤ f.n) o.amount.amount o.price.amount
              (omega (int_laws, f.within_stored)) (omega (int_laws, f.positive))
              (let q = h.0.price_positive in omega arith) in
          (let fit = h.0.total_in_range in omega (arith, m, fit));
    }),
    Run-Fits k ad pd r h.1,
  )

  Run-All_prices {κ} :
      {os os' : List LimitOrder} {u u' : Coin} {s t : E.bank.State} {logs : List FilledLimitOrder}
      {e : Option SdkError} (P : Coin → Type κ)
      → Run E sender kind price os u s os' logs u' e t
      → All (λ o. P o.price) os
      → All (λ o. P o.price) os'
  Run-All_prices P (exhausted u s) h = tt
  Run-All_prices P (stopped o os u s x) h = h
  Run-All_prices P (refused o os u s e x c) h = h
  Run-All_prices P (next o os u s log o' u' t os' logs u'' e t' f r) h =
      (rw f.remains h.0, Run-All_prices P r h.1)

  pub Run-IsSorted :
      {os os' : List LimitOrder} {u u' : Coin} {s t : E.bank.State} {logs : List FilledLimitOrder}
      {e : Option SdkError} (k : OrderKind)
      → Run E sender kind price os u s os' logs u' e t
      → IsSorted k os
      → IsSorted k os'
  Run-IsSorted k (exhausted u s) h = tt
  Run-IsSorted k (stopped o os u s x) h = h
  Run-IsSorted k (refused o os u s e x c) h = h
  Run-IsSorted k (next o os u s log o' u' t os' logs u'' e t' f r) h = (
    rw f.remains (Run-All_prices (λ c. NotBeaten k o.price.amount c.amount) r h.0),
    Run-IsSorted k r h.1,
  )

  -- Matching goes as far as it can: unless the sender runs out of coins, either all that was wanted
  -- is filled, or every order left in the book is used up or does not cross the limit.
  pub Run-complete :
      {os os' : List LimitOrder} {u u' : Coin} {s t : E.bank.State} {logs : List FilledLimitOrder}
      {e : Option SdkError}
      → Run E sender kind price os u s os' logs u' e t
      → IsKind kind
      → IsSorted (matching_kind kind) os
      → pos 0 ≤ℤ u.amount
      → e ≡ none
      → (u'.amount ≡ pos 0)
        ⊎ All
            (λ o. (o.amount.amount ≡ pos 0) ⊎ (crosses kind price.amount o.price.amount ≡ false))
            os'
  Run-complete (exhausted u s) k h n e = inr tt
  Run-complete (stopped o os u s (inl z)) k h n e = inl z
  Run-complete (stopped o os u s (inr c)) k h n e = inr (
    inr c,
    All-imp _ _
        (λ o' b. inr (crosses-NotBeaten kind price.amount o.price.amount o'.price.amount k b c)) os
        h.0,
  )
  Run-complete (refused o os u s x short c) k h n e = cc
  Run-complete (next o os u s log o' u' t os' logs u'' e' t' f r) k h n e =
      let n' : pos 0 ≤ℤ u'.amount = rw f.left_over (omega (int_laws, f.within_wanted)) in
      elim (Run-complete r k h.1 n' e) [
        | inl z ↦ inl z
        | inr rests ↦ elim f.one_is_used_up [
          | inl whole ↦ inr (inl (rw f.remains (omega (int_laws, parts whole))), rests)
          | inr all ↦
              let a = Run-amounts r n' in
              inl (
                omega (
                  int_laws,
                  parts a.0,
                  a.2,
                  Run-fills_positive r,
                  parts all,
                  parts (ap (λ c. c.amount) f.left_over),
                ))
        ]
      ]
