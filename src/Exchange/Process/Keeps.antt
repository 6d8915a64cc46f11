-- ===== src/Exchange/Process/Keeps.antt =====
-- `fillOrderIfPossible` and the invariant of the store, and the coins in it.
use thorchain_v.Base.{
  ◌≡◌, refl, ap, ◌∙◌, none, some, Option, [], ◌∷◌, inl, inr, Bool-cases, arith, String, starts_with,
  List, All, subst, All-imp,
}
use thorchain_v.Base.Int.{ℤ, pos, ◌+ℤ◌, ◌≤ℤ◌, int_laws, parts, *ℤ-zero}
use thorchain_v.Sdk.Types.{Address, Coin, SdkError}
use thorchain_v.Sdk.Keeper.{Outcome, ok, err, panic}
use thorchain_v.Exchange.Orders.{OrderKind, LimitOrder, FilledLimitOrder, IsKind}
use thorchain_v.Exchange.Book.{
  OrderBook, order_book_subspace, unfilled_orders, remove_filled_limit_orders,
}
use thorchain_v.Exchange.Book.Keys.{NoColon, starts_with-make_key}
use thorchain_v.Exchange.Book.Validity.{Fits, remove_filled_limit_orders-IsValid}
use thorchain_v.Exchange.Env.{Env, World, IsLawful}
use thorchain_v.Exchange.Store.Laws.{IsValidStore, with_book, set-IsValidStore}
use thorchain_v.Exchange.Store.Ids.{IsReadable, set_book-IsReadable}
use thorchain_v.Exchange.Store.Locked.{locked_store, locked_store-set}
use thorchain_v.Exchange.Matching.{fill_order_if_possible, matching_kind}
use thorchain_v.Exchange.Matching.Spec.{Run, locked}
use thorchain_v.Exchange.Matching.Money.{locked_orders, Run-conserves}
use thorchain_v.Exchange.Matching.Runs.{Run-Fits, Run-IsSorted}
use thorchain_v.Exchange.Process.Filling.{
  Filling, matched, matched_book, filled_book, open_book, filled_book_lem, matching-IsKind,
  fill_order_if_possible-Filling,
}

locked-zero : (o : LimitOrder) (d : String) → o.amount.amount ≡ pos 0 → locked o d ≡ pos 0
locked-zero o d z = rw z (ground (arith, *ℤ-zero o.price.amount))

module _ (E : Env) (L : IsLawful E) where
  -- All coins there are, in one denom: in the accounts, and locked for the orders in the store.
  abbrev pub total_supply : World E → String → ℤ
  total_supply w d = L.bank.supply w.bank d +ℤ locked_store E d w.store

  -- The two worlds hold the same coins, and what is stored in the second is valid.
  pub record IsKept (w v : World E) : Type 0 where
    pub conserved : (d : String) → total_supply v d ≡ total_supply w d
    pub valid : IsValidStore E v.store
    pub readable : IsReadable E L v.store

  -- A call keeps the invariant, also with an error, and panics only if `P` holds.
  abbrev pub Keeps : {A : Type 0} → Type 0 → World E → Outcome A × World E → Type 0
  Keeps P w (ok a, v) = IsKept w v
  Keeps P w (err e, v) = IsKept w v
  Keeps P w (panic, v) = P

  locked_orders-unfilled :
      (os : List LimitOrder) (d : String)
      → locked_orders (unfilled_orders E.coins os) d ≡ locked_orders os d
  unfolding unfilled_orders
  locked_orders-unfilled [] d = refl
  locked_orders-unfilled (o ∷ os) d = elim (Bool-cases (E.coins.is_zero o.amount)) [
    | inl zero_amount ↦
        rw (zero_amount, locked_orders-unfilled os d)
          (omega (int_laws, parts (locked-zero o d ((L.coins.is_zero_iff o.amount).0 zero_amount))))
    | inr some_amount ↦ rw (some_amount, locked_orders-unfilled os d) refl
  ]

  module _ (sender : Address) (kind : OrderKind) (amount price : Coin) (w : World E)
      (k : IsKind kind) (v : IsValidStore E w.store) (n : NoColon amount.denom)
      (rd : IsReadable E L w.store) where
    abbrev book : OrderBook
    book = matched_book E L sender kind amount price w

    abbrev after : E.bank.State → List LimitOrder → World E
    after t orders =
        with_book E L (record w { bank = t }) (filled_book E L sender kind amount price w orders)

    Run-IsKept :
        (orders : List LimitOrder) (logs : List FilledLimitOrder) (u : Coin) (e : Option SdkError)
        (t : E.bank.State)
        → Run E sender kind price book.orders amount w.bank orders logs u e t
        → IsKept w (after t orders)
    unfolding remove_filled_limit_orders
    Run-IsKept orders logs u e t run =
        let b = v.books (matching_kind kind) amount.denom price.denom (matching-IsKind k) n in
        let fits : All (Fits (pos 1) (matching_kind kind) amount.denom price.denom) book.orders =
          All-imp _ _
            (λ o f. record {
              kind_fits = f.kind_fits ∙ b.kind_is;
              amount_fits = f.amount_fits ∙ b.amount_is;
              price_fits = f.price_fits ∙ b.price_is;
              amount_least = f.amount_least;
              price_positive = f.price_positive;
              total_in_range = f.total_in_range;
            })
            book.orders b.valid.fits in
        record {
          conserved = λ d. omega (
            int_laws,
            parts (
                locked_store-set E d L w.store (filled_book E L sender kind amount price w orders)
                  (matching_kind kind) amount.denom price.denom b.key_is),
            parts (locked_orders-unfilled orders d),
            parts (Run-conserves E L sender kind price k amount.denom price.denom run fits d),
          );
          valid =
              set-IsValidStore E L w.store (filled_book E L sender kind amount price w orders)
                (matching_kind kind) amount.denom price.denom (matching-IsKind k) n
                (record {
                  key_is = b.key_is;
                  kind_is = b.kind_is;
                  amount_is = b.amount_is;
                  price_is = b.price_is;
                  valid =
                      remove_filled_limit_orders-IsValid E.coins L.coins
                        (record book { orders = orders })
                        (record {
                          fits =
                              Run-Fits E sender kind price book.kind book.amount_denom
                                book.price_denom run b.valid.fits;
                          sorted = Run-IsSorted E sender kind price book.kind run b.valid.sorted;
                        });
                })
                v;
          readable =
              set_book-IsReadable E L w.store book.key _
                (ap (λ s. starts_with s order_book_subspace) b.key_is ∙ starts_with-make_key _ _ _)
                rd;
        }

    opened :
        (t : E.bank.State) (orders : List LimitOrder)
        → IsKept w (after t orders)
        → IsKept w (
            with_book E L (record w { bank = t }) (open_book E L sender kind amount price w orders))
    opened t orders h =
        subst (λ b. IsKept w (with_book E L (record w { bank = t }) b))
          (filled_book_lem E L sender kind amount price w orders) h

    Filling-Keeps :
        (r : Outcome (Coin × List FilledLimitOrder) × World E)
        → Filling E L sender kind amount price w r
        → Keeps ⊥ w r
    Filling-Keeps r (matched orders logs u none t run) =
        opened t orders (Run-IsKept orders logs u none t run)
    Filling-Keeps r (matched orders logs u (some e) t run) =
        opened t orders (Run-IsKept orders logs u (some e) t run)

    -- `fillOrderIfPossible` does not panic, and, with an error too, keeps the books valid and neither makes nor loses
    -- coins: in every denom, what the accounts hold and what is locked for stored orders have the
    -- same sum after it.
    pub fill_order_if_possible-Keeps :
        pos 0 ≤ℤ amount.amount → Keeps ⊥ w (fill_order_if_possible E sender kind amount price w)
    fill_order_if_possible-Keeps h =
        Filling-Keeps _ (fill_order_if_possible-Filling E L sender kind amount price w k v n h)
