-- ===== src/Exchange/Matching/Loop.antt =====
-- The matching loop of `fillOrderIfPossible` makes a run.
use mathlib.Core.List.{append-nil, append_assoc}
use thorchain_v.Base.{subst, Option, none, some, List, [], ◌∷◌, ◌++◌, All, All-imp}
use thorchain_v.Base.Int.{ℤ, pos, ◌≤ℤ◌, ◌-ℤ◌, ◌*ℤ◌, int_laws}
use thorchain_v.Sdk.Types.{Address, Coin, SdkError}
use thorchain_v.Sdk.Keeper.{Outcome, ok}
use thorchain_v.Sdk.Coins.{InRange}
use thorchain_v.Exchange.Orders.{OrderKind, LimitOrder, FilledLimitOrder}
use thorchain_v.Exchange.Fill.Laws.{IsMatch}
use thorchain_v.Exchange.Env.{Env, IsLawful}
use thorchain_v.Exchange.Matching.{FillStep, Fills, fill_step, fill_orders, put_back, after_round}
use thorchain_v.Exchange.Matching.Spec.{
  IsFilled, StepResult, stops, fails, fills, Run, exhausted, stopped, refused, next, LoopResult,
  ran,
}
use thorchain_v.Exchange.Matching.Step.{fill_step-StepResult}

-- A stored order that an incoming one over these denoms can be matched with.
pub record IsCounterpart (kind : OrderKind) (unfilled price : Coin) (o : LimitOrder) : Type 0 where
  pub match : IsMatch o kind unfilled price
  pub amount_positive : pos 1 ≤ℤ o.amount.amount
  pub price_positive : pos 1 ≤ℤ o.price.amount
  pub total_in_range : InRange (o.amount.amount *ℤ o.price.amount)

module _ (E : Env) (L : IsLawful E) (sender : Address) (kind : OrderKind) (price : Coin) where
  ended :
      (os : List LimitOrder) (u : Coin) (done : List FilledLimitOrder) (s : E.bank.State)
      (e : Option SdkError)
      → Run E sender kind price os u s os [] u e s
      → LoopResult E sender kind price os u done s
          (ok (record { orders = os; unfilled = u; filled = done; error = e }), s)
  ended os u done s e run =
      subst
        (λ l.
          LoopResult E sender kind price os u done s
            (ok (record { orders = os; unfilled = u; filled = l; error = e }), s))
        (append-nil done) (ran os [] u e s run)

  -- A fill and then the rest of the loop.
  put_back-LoopResult :
      (o : LimitOrder) (os : List LimitOrder) (u : Coin) (done : List FilledLimitOrder)
      (s : E.bank.State) (log : FilledLimitOrder) (o' : LimitOrder) (u' : Coin) (t : E.bank.State)
      → IsFilled E sender kind price o u s log o' u' t
      → (r : Outcome Fills × E.bank.State)
      → LoopResult E sender kind price os u' (done ++ log ∷ []) t r
      → LoopResult E sender kind price (o ∷ os) u done s (put_back o' r)
  put_back-LoopResult o os u done s log o' u' t h r (ran os' logs u'' e t' run) =
      rw (append_assoc done (log ∷ []) logs)
        (ran (o' ∷ os') (log ∷ logs) u'' e t' (next o os u s log o' u' t os' logs u'' e t' h run))

  after_round-LoopResult :
      (o : LimitOrder) (os : List LimitOrder) (u : Coin) (done : List FilledLimitOrder)
      (s : E.bank.State) (r : Outcome FillStep × E.bank.State)
      → StepResult E sender kind price o u s r
      → ((log : FilledLimitOrder) (o' : LimitOrder) (u' : Coin) (t : E.bank.State)
          → IsFilled E sender kind price o u s log o' u' t
          → LoopResult E sender kind price os u'
              (done ++ log ∷ [])
              t
              (fill_orders E sender kind price os u' (done ++ log ∷ []) t))
      → LoopResult E sender kind price
          (o ∷ os)
          u
          done
          s
          (after_round (o ∷ os) u done (fill_orders E sender kind price os) r.0 r.1)
  after_round-LoopResult o os u done s r (stops h) k =
      ended (o ∷ os) u done s none (stopped o os u s h)
  after_round-LoopResult o os u done s r (fails x h c) k =
      ended (o ∷ os) u done s (some x) (refused o os u s x h c)
  after_round-LoopResult o os u done s r (fills log o' u' t h) k =
      put_back-LoopResult o os u done s log o' u' t h _ (k log o' u' t h)

  pub IsCounterpart-left_over :
      (n : ℤ) (u : Coin) (os : List LimitOrder)
      → All (IsCounterpart kind u price) os
      → All (IsCounterpart kind (record { denom = u.denom; amount = n }) price) os
  IsCounterpart-left_over n u os h =
      All-imp _ _
        (λ o c. record {
          match = record {
            same_amount_denom = c.match.same_amount_denom;
            same_price_denom = c.match.same_price_denom;
            other_kind = c.match.other_kind;
          };
          amount_positive = c.amount_positive;
          price_positive = c.price_positive;
          total_in_range = c.total_in_range;
        })
        os h

  -- Over orders that an incoming one can be matched with, and for an amount that is not negative, the
  -- loop of `fillOrderIfPossible` makes a run of fills, and ends as `Run` says. It does not panic.
  pub fill_orders-LoopResult :
      (os : List LimitOrder) (u : Coin) (done : List FilledLimitOrder) (s : E.bank.State)
      → All (IsCounterpart kind u price) os
      → pos 0 ≤ℤ u.amount
      → LoopResult E sender kind price os u done s (fill_orders E sender kind price os u done s)
  unfolding fill_orders
  fill_orders-LoopResult [] u done s h n = ended [] u done s none (exhausted u s)
  fill_orders-LoopResult (o ∷ os) u done s h n =
      after_round-LoopResult o os u done s (fill_step E sender kind price o u s)
        (fill_step-StepResult E L sender kind price o u s h.0.match h.0.amount_positive
          h.0.price_positive n h.0.total_in_range)
        (λ log o' u' t f.
          fill_orders-LoopResult os u' (done ++ log ∷ []) t
            (rw f.left_over (IsCounterpart-left_over (u.amount -ℤ f.n) u os h.1))
            (rw f.left_over (omega (int_laws, f.within_wanted))))
