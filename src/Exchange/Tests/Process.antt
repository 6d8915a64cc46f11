-- ===== src/Exchange/Tests/Process.antt =====
-- Matching, storing and refunding orders in small worlds.
use thorchain_v.Base.{◌≡◌, ◌↔◌, refl, none, [], ◌∷◌, arith, inl, inr}
use thorchain_v.Base.Int.{pos}
use thorchain_v.Exchange.Orders.{buy_order}
use thorchain_v.Exchange.Samples.{sample_env, sample_env-IsLawful}
use thorchain_v.Exchange.Tests.{
  eth, rune, ann_sells, offered, eth-NoColon, ann_sells-FitsBook, offered-IsValidStore,
  offered-IsReadable,
}
use thorchain_v.Exchange.Matching.{fill_orders, fill_order_if_possible}
use thorchain_v.Exchange.Matching.Spec.{LoopResult}
use thorchain_v.Exchange.Matching.Loop.{IsCounterpart, fill_orders-LoopResult}
use thorchain_v.Exchange.Matching.Matched.{Matches, fill_orders-Matches}
use thorchain_v.Exchange.Process.{process_limit_order}
use thorchain_v.Exchange.Process.Checks.{IsAdmissible, process_limit_order-refuses}
use thorchain_v.Exchange.Process.Filling.{Filling, fill_order_if_possible-Filling}
use thorchain_v.Exchange.Process.Keeps.{Keeps}
use thorchain_v.Exchange.Process.Whole.{process_limit_order-Keeps}
use thorchain_v.Exchange.Process.Whole.Succeeds.{process_limit_order-Succeeds_iff}
use thorchain_v.Exchange.Process.Storing.Covered.{Succeeds}
use thorchain_v.Exchange.Refund.Laws.{IsRefundable}

process_limit_order-Keeps_example :
    Keeps sample_env sample_env-IsLawful
      (sample_env.coins.mul (pos 6) (pos 8) ≡ none)
      offered
      (process_limit_order sample_env 0 "bob" buy_order (eth 6) (rune 8) 9 offered)
process_limit_order-Keeps_example =
    process_limit_order-Keeps sample_env sample_env-IsLawful 0 "bob" buy_order (eth 6) (rune 8) 9
      offered eth-NoColon offered-IsValidStore offered-IsReadable

fill_order_if_possible-Filling_example :
    Filling sample_env sample_env-IsLawful "bob" buy_order
      (eth 6)
      (rune 8)
      offered
      (fill_order_if_possible sample_env "bob" buy_order (eth 6) (rune 8) offered)
fill_order_if_possible-Filling_example =
    fill_order_if_possible-Filling sample_env sample_env-IsLawful "bob" buy_order (eth 6) (rune 8)
      offered (inl refl) offered-IsValidStore eth-NoColon (omega arith)

ann_sells-IsCounterpart : IsCounterpart buy_order (eth 6) (rune 8) ann_sells
ann_sells-IsCounterpart = record {
  match = record {
    same_amount_denom = refl;
    same_price_denom = refl;
    other_kind = λ e. absurd (omega (arith, e));
  };
  amount_positive = omega arith;
  price_positive = omega arith;
  total_in_range = ann_sells-FitsBook.total_in_range;
}

fill_orders-LoopResult_example :
    LoopResult sample_env "bob" buy_order
      (rune 8)
      (ann_sells ∷ [])
      (eth 6)
      []
      offered.bank
      (fill_orders sample_env "bob" buy_order (rune 8) (ann_sells ∷ []) (eth 6) [] offered.bank)
fill_orders-LoopResult_example =
    fill_orders-LoopResult sample_env sample_env-IsLawful "bob" buy_order (rune 8) (ann_sells ∷ [])
      (eth 6) [] offered.bank (ann_sells-IsCounterpart, tt) (omega arith)

fill_orders-Matches_example :
    Matches buy_order
      (pos 8)
      (eth 6)
      (fill_orders sample_env "bob" buy_order (rune 8) (ann_sells ∷ []) (eth 6) [] offered.bank)
fill_orders-Matches_example =
    fill_orders-Matches sample_env sample_env-IsLawful "bob" buy_order (rune 8) (ann_sells ∷ [])
      (eth 6) offered.bank (inl refl) (tt, tt) (omega arith) (ann_sells-IsCounterpart, tt)

process_limit_order-Succeeds_iff_example :
    Succeeds (process_limit_order sample_env 0 "bob" buy_order (eth 6) (rune 8) 9 offered)
    ↔ IsAdmissible sample_env 0 "bob" buy_order (eth 6) (rune 8) 9 offered.bank
process_limit_order-Succeeds_iff_example =
    process_limit_order-Succeeds_iff sample_env sample_env-IsLawful 0 "bob" buy_order (eth 6)
      (rune 8) 9 offered (pos 2) eth-NoColon offered-IsValidStore refl

process_limit_order-refuses_example :
    (process_limit_order sample_env 10 "bob" buy_order (eth 6) (rune 8) 9 offered).1 ≡ offered
process_limit_order-refuses_example =
    process_limit_order-refuses sample_env sample_env-IsLawful 10 "bob" buy_order (eth 6) (rune 8) 9
      offered (λ a. absurd (let e = a.not_expired in ground (arith, e)))

ann_sells-IsRefundable : IsRefundable ann_sells
ann_sells-IsRefundable = record {
  kind_supported = inr refl;
  amount_positive = omega arith;
  price_positive = omega arith;
  total_in_range = ann_sells-FitsBook.total_in_range;
}
