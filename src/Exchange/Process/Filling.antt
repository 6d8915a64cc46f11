-- ===== src/Exchange/Process/Filling.antt =====
-- `fillOrderIfPossible` as a whole: a run over the matching book, which is saved, and its effect on
-- the two stores.
use thorchain_v.Base.{
  ◌≡◌, ◌≢◌, ◌↔◌, Bool, refl, sym, ap, ◌∙◌, Option, none, some, List, [], ◌∷◌, subst, if◌then◌else◌,
  true, false, arith, inl, inr, All, All-imp,
}
use thorchain_v.Base.Int.{pos, ◌≤ℤ◌, eqb_ℤ, eqb_ℤ_iff}
use thorchain_v.Sdk.Coins
use thorchain_v.Sdk.Coins.{CoinOps}
use thorchain_v.Sdk.Types.{Address, Coin, SdkError}
use thorchain_v.Sdk.Keeper.{Outcome, ok, err, panic, ◌>>=◌, resume}
use thorchain_v.Exchange.Orders.{OrderKind, LimitOrder, FilledLimitOrder, IsKind}
use thorchain_v.Exchange.Book.{OrderBook, remove_filled_limit_orders, unfilled_orders}
use thorchain_v.Exchange.Book.Keys.{NoColon}
use thorchain_v.Exchange.Env.{Env, World, IsLawful}
use thorchain_v.Exchange.Store.Laws.{
  book_at, IsValidStore, with_book, get_order_book_lem, set_order_book_lem,
}
use thorchain_v.Exchange.Matching.{
  Fills, fill_orders, fill_order_if_possible, save_and_answer, matching_kind, on_bank,
}
use thorchain_v.Exchange.Matching.Spec.{Run, LoopResult, ran}
use thorchain_v.Exchange.Matching.Loop.{IsCounterpart, fill_orders-LoopResult}

pub matching-IsKind : {kind : OrderKind} → IsKind kind → IsKind (matching_kind kind)
matching-IsKind (inl buys) = inr (ap matching_kind buys)
matching-IsKind (inr sells) = inl (ap matching_kind sells)

matching-differs : {kind : OrderKind} → IsKind kind → matching_kind kind ≢ kind
matching-differs (inl buys) e = ground (arith, buys, e)
matching-differs (inr sells) e = ground (arith, sells, e)

-- The orders of which something is left, in their order.
abbrev pub open_orders : List LimitOrder → List LimitOrder
open_orders [] = []
open_orders (o ∷ os) =
    let rest = open_orders os in if eqb_ℤ o.amount.amount (pos 0) then rest else o ∷ rest

same_answer : (a b : Bool) {P : Type 0} → (a ≡ true) ↔ P → (b ≡ true) ↔ P → a ≡ b
same_answer true b h k = sym (k.1 (h.0 refl))
same_answer false true h k = h.1 (k.0 refl)
same_answer false false h k = refl

unfilled_orders-open :
    (C : CoinOps)
    → Coins.IsLawful C
    → (os : List LimitOrder) → unfilled_orders C os ≡ open_orders os
unfolding unfilled_orders
unfilled_orders-open C L [] = refl
unfilled_orders-open C L (o ∷ os) =
    rw
      (
        unfilled_orders-open C L os,
        same_answer (C.is_zero o.amount) (eqb_ℤ o.amount.amount (pos 0)) (L.is_zero_iff o.amount)
            (eqb_ℤ_iff o.amount.amount (pos 0)),
      )
      refl

module _ (E : Env) (L : IsLawful E) (sender : Address) (kind : OrderKind) (amount price : Coin)
    (w : World E) where
  -- The book that is matched against.
  abbrev pub matched_book : OrderBook
  matched_book = book_at E w.store (matching_kind kind) amount.denom price.denom

  abbrev pub filled_book : List LimitOrder → OrderBook
  filled_book orders = remove_filled_limit_orders E.coins (record matched_book { orders = orders })

  -- That book with these orders, less those of which nothing is left.
  abbrev pub open_book : List LimitOrder → OrderBook
  open_book orders = record matched_book { orders = open_orders orders }

  pub filled_book_lem : (orders : List LimitOrder) → filled_book orders ≡ open_book orders
  unfolding remove_filled_limit_orders
  filled_book_lem orders =
      ap (λ os. record matched_book { orders = os }) (unfilled_orders-open E.coins L.coins orders)

  abbrev pub answer :
      Option SdkError → Coin → List FilledLimitOrder → Outcome (Coin × List FilledLimitOrder)
  answer none u logs = ok (u, logs)
  answer (some e) u logs = err e

  -- What the method comes to: a run over the matching book, after which the book is saved without
  -- the orders of which nothing is left.
  pub data Filling : Outcome (Coin × List FilledLimitOrder) × World E → Type 0 where
    matched :
        (orders : List LimitOrder) (logs : List FilledLimitOrder) (u : Coin) (e : Option SdkError)
        (t : E.bank.State)
        → Run E sender kind price matched_book.orders amount w.bank orders logs u e t
        → Filling (answer e u logs, with_book E L (record w { bank = t }) (open_book orders))

  -- The rest of the method, once the loop is done.
  abbrev finish : Outcome Fills × E.bank.State → Outcome (Coin × List FilledLimitOrder) × World E
  finish (panic, t) = (panic, record w { bank = t })
  finish (err e, t) = (err e, record w { bank = t })
  finish (ok fills, t) = save_and_answer E matched_book fills (record w { bank = t })

  save_and_answer_lem :
      (fills : Fills) (t : E.bank.State)
      → save_and_answer E matched_book fills (record w { bank = t }) ≡ (
        answer fills.error fills.unfilled fills.filled,
        with_book E L (record w { bank = t }) (open_book fills.orders),
      )
  unfolding save_and_answer
  save_and_answer_lem fills t =
      subst
        (λ b. save_and_answer E matched_book fills (record w { bank = t }) ≡ (
          answer fills.error fills.unfilled fills.filled,
          with_book E L (record w { bank = t }) b,
        ))
        (filled_book_lem fills.orders)
        (ground (arith, set_order_book_lem E L (filled_book fills.orders) (record w { bank = t })))

  on_bank_lem :
      (r : Outcome Fills × E.bank.State)
      → (◌>>=◌ {W = World E} {A = Fills}
            (λ v. (r.0, record w { bank = r.1 }))
            (save_and_answer E matched_book))
          w
        ≡ finish r
  on_bank_lem (ok fills, t) = refl
  on_bank_lem (err e, t) = refl
  on_bank_lem (panic, t) = refl

  fill_order_if_possible_lem :
      fill_order_if_possible E sender kind amount price w
      ≡ finish (fill_orders E sender kind price matched_book.orders amount [] w.bank)
  unfolding fill_order_if_possible
  fill_order_if_possible_lem =
      ap
        (resume (λ order_book.
          on_bank E (fill_orders E sender kind price order_book.orders amount [])
          >>= save_and_answer E order_book))
        (get_order_book_lem E (matching_kind kind) amount.denom price.denom w)
      ∙ on_bank_lem (fill_orders E sender kind price matched_book.orders amount [] w.bank)

  pub counterparts :
      IsKind kind
      → IsValidStore E w.store
      → NoColon amount.denom
      → All (IsCounterpart kind amount price) matched_book.orders
  counterparts k v n =
      let b = v.books (matching_kind kind) amount.denom price.denom (matching-IsKind k) n in
      All-imp _ _
        (λ o f. record {
          match = record {
            same_amount_denom = f.amount_fits ∙ b.amount_is;
            same_price_denom = f.price_fits ∙ b.price_is;
            other_kind = λ same. matching-differs k (sym b.kind_is ∙ sym f.kind_fits ∙ same);
          };
          amount_positive = f.amount_least;
          price_positive = f.price_positive;
          total_in_range = f.total_in_range;
        })
        matched_book.orders b.valid.fits

  finish-Filling :
      (r : Outcome Fills × E.bank.State)
      → LoopResult E sender kind price matched_book.orders amount [] w.bank r
      → Filling (finish r)
  finish-Filling r (ran orders logs u e t run) =
      rw
        (save_and_answer_lem (record { orders = orders; unfilled = u; filled = logs; error = e }) t)
        (matched orders logs u e t run)

  -- For a supported kind, a valid store, an amount that is not negative and an amount denom without a
  -- colon, `fillOrderIfPossible` comes to that: it does not panic, a run of fills is made over the
  -- matching book, the book is saved with exactly the orders of which something is left, in their
  -- order, and the answer is what is left over and the log, or the error that ended the run.
  pub fill_order_if_possible-Filling :
      IsKind kind
      → IsValidStore E w.store
      → NoColon amount.denom
      → pos 0 ≤ℤ amount.amount
      → Filling (fill_order_if_possible E sender kind amount price w)
  fill_order_if_possible-Filling k v n h = rw fill_order_if_possible_lem (
      finish-Filling _ (
        fill_orders-LoopResult E L sender kind price matched_book.orders amount [] w.bank
          (counterparts k v n) h))
