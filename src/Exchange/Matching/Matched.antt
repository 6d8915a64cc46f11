-- ===== src/Exchange/Matching/Matched.antt =====
-- What the matching loop does for the one who places an order.
use thorchain_v.Base.{◌≡◌, ◌≢◌, ◌⊎◌, true, false, none, List, [], inl, inr, All, Option-cases}
use thorchain_v.Base.Int.{ℤ, pos, ◌+ℤ◌, ◌≤ℤ◌}
use thorchain_v.Sdk.Types.{Address, Coin}
use thorchain_v.Sdk.Keeper.{Outcome, ok, err, panic}
use thorchain_v.Exchange.Orders.{OrderKind, LimitOrder, FilledLimitOrder, IsKind}
use thorchain_v.Exchange.Fill.Laws.{crosses}
use thorchain_v.Exchange.Book.Order.{IsSorted}
use thorchain_v.Exchange.Env.{Env, IsLawful}
use thorchain_v.Exchange.Matching.{Fills, fill_orders, matching_kind}
use thorchain_v.Exchange.Matching.Spec.{LoopResult, ran}
use thorchain_v.Exchange.Matching.Loop.{IsCounterpart, fill_orders-LoopResult}
use thorchain_v.Exchange.Matching.Runs.{filled_total, Run-amounts, Run-prices, Run-complete}

-- Of `wanted`, some is filled, at prices within the limit, and the rest is left over; either there is
-- an error, or nothing is left over, or no order that is left in the book could fill it.
pub record IsMatched (kind : OrderKind) (limit : ℤ) (wanted : Coin) (f : Fills) : Type 0 where
  pub accounted : wanted.amount ≡ filled_total f.filled +ℤ f.unfilled.amount
  pub left_over : pos 0 ≤ℤ f.unfilled.amount
  pub within_limit :
      All
        (λ (log : FilledLimitOrder).
          (crosses kind limit log.filled_price.amount ≡ true) × (pos 1 ≤ℤ log.filled_amount.amount))
        f.filled
  pub complete :
      (f.error ≢ none)
      ⊎ (f.unfilled.amount ≡ pos 0)
      ⊎ All (λ o. (o.amount.amount ≡ pos 0) ⊎ (crosses kind limit o.price.amount ≡ false)) f.orders

abbrev pub Matches : {S : Type 0} → OrderKind → ℤ → Coin → Outcome Fills × S → Type 0
Matches kind limit wanted (ok f, s) = IsMatched kind limit wanted f
Matches kind limit wanted (err e, s) = ⊥
Matches kind limit wanted (panic, s) = ⊥

module _ (E : Env) (L : IsLawful E) (sender : Address) (kind : OrderKind) (price : Coin) where
  LoopResult-Matches :
      (os : List LimitOrder) (u : Coin) (s : E.bank.State) (r : Outcome Fills × E.bank.State)
      → IsKind kind
      → IsSorted (matching_kind kind) os
      → pos 0 ≤ℤ u.amount
      → LoopResult E sender kind price os u [] s r
      → Matches kind price.amount u r
  LoopResult-Matches os u s r k h n (ran os' logs u' e t run) =
      let a = Run-amounts E sender kind price run n in
      record {
        accounted = a.0;
        left_over = a.2;
        within_limit = Run-prices E sender kind price run;
        complete = elim (Option-cases e) [
          | inl fine ↦ inr (Run-complete E sender kind price run k h n fine)
          | inr (x, failed) ↦ inl (λ fine. cc (failed, fine))
        ];
      }

  -- Over the sorted orders of the other side, the loop of `fillOrderIfPossible` does not panic. What
  -- it fills and what it leaves over make up what was wanted; every fill is of a positive amount, within the limit price;
  -- and unless it ends with an error, either nothing is left over, or every order left in the book
  -- is used up or beyond the limit.
  pub fill_orders-Matches :
      (os : List LimitOrder) (u : Coin) (s : E.bank.State)
      → IsKind kind
      → IsSorted (matching_kind kind) os
      → pos 0 ≤ℤ u.amount
      → All (IsCounterpart kind u price) os
      → Matches kind price.amount u (fill_orders E sender kind price os u [] s)
  fill_orders-Matches os u s k h n c =
      LoopResult-Matches os u s _ k h n (fill_orders-LoopResult E L sender kind price os u [] s c n)
