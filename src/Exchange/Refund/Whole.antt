-- ===== src/Exchange/Refund/Whole.antt =====
-- `refundExpiredLimitOrders` as a whole: the books that are updated, and the coins.
use thorchain_v.Base.{
  ◌≡◌, refl, sym, ap, subst, ◌∙◌, false, some, Bool-cases, List, [], ◌∷◌, ◌++◌, inl, inr, All,
  String, str_eq, eq_iff, starts_with,
}
use thorchain_v.Base.Int.{◌+ℤ◌, int_laws, parts}
use thorchain_v.Sdk.Types.{Time}
use thorchain_v.Sdk.Store.{HasOther, Distinct}
use thorchain_v.Sdk.Keeper.{ok}
use thorchain_v.Exchange.Orders.{LimitOrder}
use thorchain_v.Exchange.Book.{OrderBook, order_book_subspace, make_key_order_book}
use thorchain_v.Exchange.Book.Keys.{starts_with-make_key}
use thorchain_v.Exchange.Env.{Env, World, IsLawful}
use thorchain_v.Exchange.Store.Laws.{
  IsValidStore, IsEntry, decoded, book_at, decode, with_book, set_order_book_lem, set-IsValidStore,
}
use thorchain_v.Exchange.Store.Ids.{IsReadable, set_book-IsReadable}
use thorchain_v.Exchange.Store.Locked.{locked_store, locked_store-set}
use thorchain_v.Exchange.Matching.Money.{locked_orders}
use thorchain_v.Exchange.Process.Keeps.{IsKept}
use thorchain_v.Exchange.Refund.{
  update_book, collect_expired, books_of, save_books, refund_orders, refund_expired_limit_orders,
}
use thorchain_v.Exchange.Refund.Laws.{refund_orders-releases, split_expired_lem}
use thorchain_v.Exchange.Refund.Updated.{
  locked_orders-append, kept, expired, updated, updated-IsBookOf, refunds-IsRefundable,
}

module _ (E : Env) (L : IsLawful E) (now : Time) where
  -- The books are saved, and what is no longer locked is what is to be refunded.
  record Saved (w : World E) (books : List OrderBook) (refunds : List LimitOrder) : Type 0 where
    pub end : World E
    pub saved : save_books E books w ≡ (ok tt, end)
    pub same_bank : end.bank ≡ w.bank
    pub valid : IsValidStore E end.store
    pub readable : IsReadable E L end.store
    pub released :
        (d : String)
        → locked_store E d end.store +ℤ locked_orders refunds d ≡ locked_store E d w.store

  abbrev Reads : World E → List (String × E.store.Bytes) → Type 0
  Reads w es = All (λ e. E.store.get w.store e.0 ≡ some e.1) es

  Reads-with_book :
      (w : World E) (ob : OrderBook) (es : List (String × E.store.Bytes))
      → All (HasOther ob.key) es
      → Reads w es
      → Reads (with_book E L w ob) es
  Reads-with_book w ob [] h r = tt
  Reads-with_book w ob (e ∷ es) h r =
      let other : str_eq ob.key e.0 ≡ false = elim (Bool-cases (str_eq ob.key e.0)) [
        | inl same ↦ absurd (h.0 (sym ((eq_iff ob.key e.0).0 same)))
        | inr other ↦ other
      ] in
      (
        rw other at (L.store.get-set w.store ob.key (L.books.encode ob) e.0) ∙ r.0,
        Reads-with_book w ob es h.1 r.1,
      )

  book_at-entry :
      (w : World E) (k : String) (bz : E.store.Bytes)
      → IsEntry E (k, bz)
      → E.store.get w.store k ≡ some bz
      → let ob = decoded E bz in book_at E w.store ob.kind ob.amount_denom ob.price_denom ≡ ob
  book_at-entry w k bz h r =
      let ob = decoded E bz in
      let at : make_key_order_book ob.kind ob.amount_denom ob.price_denom ≡ k =
        sym h.is_book.key_is ∙ h.at_key in
      ap (λ j. decode E ob.kind ob.amount_denom ob.price_denom (E.store.get w.store j)) at
      ∙ ap (decode E ob.kind ob.amount_denom ob.price_denom) r

  one_update-Saved :
      (w : World E) (k : String) (bz : E.store.Bytes) (books : List OrderBook)
      (refunds : List LimitOrder)
      → IsEntry E (k, bz)
      → E.store.get w.store k ≡ some bz
      → let ob = decoded E bz in
        Saved (with_book E L w (updated E L now ob)) books refunds
        → Saved w (updated E L now ob ∷ books) (expired E L now ob ++ refunds)
  unfolding save_books
  one_update-Saved w k bz books refunds h r rest =
      let ob = decoded E bz in
      record {
        end = rest.end;
        saved = rw (set_order_book_lem E L (updated E L now ob) w) rest.saved;
        same_bank = rest.same_bank;
        valid = rest.valid;
        readable = rest.readable;
        released = λ d. omega (
          int_laws,
          parts (rest.released d),
          parts (locked_orders-append (expired E L now ob) refunds d),
          parts ((split_expired_lem now ob.orders).2 d),
          parts (ap (λ (o : OrderBook). locked_orders o.orders d) (book_at-entry w k bz h r)),
          parts (
              locked_store-set E d L w.store (updated E L now ob) ob.kind ob.amount_denom
                ob.price_denom h.is_book.key_is),
        );
      }

  -- The invariant, at which the rest of the entries is still stored.
  record IsReady (w : World E) (es : List (String × E.store.Bytes)) : Type 0 where
    pub reads : Reads w es
    pub distinct : Distinct es
    pub entries : All (IsEntry E) es
    pub valid : IsValidStore E w.store
    pub readable : IsReadable E L w.store

  updated-IsReady :
      (w : World E) (k : String) (bz : E.store.Bytes) (es : List (String × E.store.Bytes))
      → IsReady w ((k, bz) ∷ es)
      → IsReady (with_book E L w (updated E L now (decoded E bz))) es
  updated-IsReady w k bz es h =
      let ob = decoded E bz in
      let entry = h.entries.0 in
      record {
        reads =
            Reads-with_book w (updated E L now ob) es
              (subst (λ j. All (HasOther j) es) (sym entry.at_key) h.distinct.0) h.reads.1;
        distinct = h.distinct.1;
        entries = h.entries.1;
        valid =
            set-IsValidStore E L w.store (updated E L now ob) ob.kind ob.amount_denom ob.price_denom
              entry.kind_supported entry.no_colon
              (updated-IsBookOf E L now ob.kind ob.amount_denom ob.price_denom ob entry.is_book)
              h.valid;
        readable =
            set_book-IsReadable E L w.store ob.key _
              (ap (λ s. starts_with s order_book_subspace) entry.is_book.key_is
                ∙ starts_with-make_key _ _ _)
              h.readable;
      }

  rest-IsReady :
      (w : World E) (k : String) (bz : E.store.Bytes) (es : List (String × E.store.Bytes))
      → IsReady w ((k, bz) ∷ es)
      → IsReady w es
  rest-IsReady w k bz es h = record {
    reads = h.reads.1;
    distinct = h.distinct.1;
    entries = h.entries.1;
    valid = h.valid;
    readable = h.readable;
  }

  update_book-Saved :
      (w : World E) (k : String) (bz : E.store.Bytes) (es : List (String × E.store.Bytes))
      (books : List OrderBook) (refunds late : List LimitOrder)
      → expired E L now (decoded E bz) ≡ late
      → IsReady w ((k, bz) ∷ es)
      → ((u : World E) → IsReady u es → Saved u books refunds)
      → Saved w
          (update_book (decoded E bz) (kept E L now (decoded E bz)) late books)
          (late ++ refunds)
  update_book-Saved w k bz es books refunds [] e h rest = rest w (rest-IsReady w k bz es h)
  update_book-Saved w k bz es books refunds (o ∷ os) e h rest =
      subst (λ l. Saved w (updated E L now (decoded E bz) ∷ books) (l ++ refunds)) e
        (one_update-Saved w k bz books refunds h.entries.0 h.reads.0
          (rest (with_book E L w (updated E L now (decoded E bz))) (updated-IsReady w k bz es h)))

  collect_expired-Saved :
      (es : List (String × E.store.Bytes)) (w : World E)
      → IsReady w es
      → let (books, refunds) = collect_expired now (books_of E es) in Saved w books refunds
  unfolding collect_expired save_books
  collect_expired-Saved [] w h = record {
    end = w;
    saved = refl;
    same_bank = refl;
    valid = h.valid;
    readable = h.readable;
    released = λ d. omega int_laws;
  }
  collect_expired-Saved ((k, bz) ∷ es) w h =
      update_book-Saved w k bz es _ _ (expired E L now (decoded E bz)) refl h
        (λ u ready. collect_expired-Saved es u ready)

  -- With valid books, `refundExpiredLimitOrders` ends without a panic, keeps what is stored valid, and in
  -- every denom the sum of what the accounts hold and of what is locked for stored orders.
  pub refund_expired_limit_orders-IsKept :
      (w : World E)
      → IsValidStore E w.store
      → IsReadable E L w.store
      → (v : World E) × (refund_expired_limit_orders E now w ≡ (ok tt, v)) × IsKept E L w v
  unfolding refund_expired_limit_orders
  refund_expired_limit_orders-IsKept w v rd =
      let es = E.store.iterate w.store order_book_subspace in
      let s = collect_expired-Saved es w (record {
        reads = L.store.iterate-get w.store order_book_subspace;
        distinct = L.store.iterate-Distinct w.store order_book_subspace;
        entries = v.entries;
        valid = v;
        readable = rd;
      }) in
      let refunds = (collect_expired now (books_of E es)).1 in
      let (fine, left, gave) =
        refund_orders-releases E L refunds s.end (refunds-IsRefundable E L now es v.entries) in
      (
        (refund_orders E refunds s.end).1,
        rw s.saved (λ i. (fine i, (refund_orders E refunds s.end).1)),
        record {
          conserved = λ d. omega (
            int_laws,
            parts (gave d),
            parts (ap (λ st. locked_store E d st) left),
            parts (ap (λ b. L.bank.supply b d) s.same_bank),
            parts (s.released d),
          );
          valid = subst (IsValidStore E) (sym left) s.valid;
          readable = subst (IsReadable E L) (sym left) s.readable;
        },
      )
