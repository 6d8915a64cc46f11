-- ===== src/Exchange/Client/Shown.antt =====
-- Which order book the clients of the exchange show.
use thorchain_v.Base.{
  ◌≡◌, ◌≢◌, ◌↔◌, ◌⊎◌, ◌∙◌, refl, sym, ap, subst, inl, inr, String, true, false, Option, none, some,
  arith, eq_iff, str_eq, Option-cases, Bool-cases, Bool,
}
use thorchain_v.Sdk.Web.{
  value, done, bind-eq-value, or_refuse-eq-value, refuse_if-eq-value, or_refuse, refuse_if,
}
use thorchain_v.Sdk.Command.{ran, bind-eq-ran, or_stop-eq-ran, or_stop}
use thorchain_v.Exchange.Orders.{OrderKind, buy_order, sell_order}
use thorchain_v.Exchange.Book.{OrderBook, make_key_order_book}
use thorchain_v.Exchange.Store.{zero_book}
use thorchain_v.Exchange.Store.Laws.{book_at}
use thorchain_v.Exchange.Message.{parse_kind}
use thorchain_v.Exchange.Client.{
  ClientEnv, QueryOrderbookBody, orderbook_of, kind_of, must_unmarshal,
}
use thorchain_v.Exchange.Client.Rest.{handle_query_orderbook, or_crash}
use thorchain_v.Exchange.Client.Cli.{query_orderbook, or_crashed}

-- The text names the kind.
abbrev pub Names : String → OrderKind → Type 0
Names text kind = ((text ≡ "buy") × (kind ≡ buy_order)) ⊎ ((text ≡ "sell") × (kind ≡ sell_order))

not_empty : (s : String) → str_eq s "" ≡ false → s ≢ ""
not_empty s e = ground (arith, e, eq_iff s "")

module _ (E : ClientEnv) where
  pub kind_of-Names :
      (text : String) (kind : OrderKind) → Names text kind → kind_of E (parse_kind text) ≡ done kind
  kind_of-Names text kind (inl (t, k)) = rw (t, k) refl
  kind_of-Names text kind (inr (t, k)) = rw (t, k) refl

  pub kind_of-parse_kind_iff :
      (text : String) (kind : OrderKind)
      → (kind_of E (parse_kind text) ≡ done kind) ↔ Names text kind
  kind_of-parse_kind_iff text kind = (
    λ e. elim (Bool-cases (str_eq text "buy")) [
      | inl buys ↦ inl ((eq_iff text "buy").0 buys, cc (rw buys at e))
      | inr no_buy ↦ elim (Bool-cases (str_eq text "sell")) [
        | inl sells ↦ inr ((eq_iff text "sell").0 sells, cc (rw (no_buy, sells) at e))
        | inr no_sell ↦ cc (rw (no_buy, no_sell) at e)
      ]
    ],
    kind_of-Names text kind,
  )

  decoded : (r : Bool × OrderBook) → r.0 ≡ true → must_unmarshal E r ≡ some r.1
  decoded (true, b) e = refl
  decoded (false, b) e = cc e

  -- The node answers from this store, whose order books can be decoded.
  pub record IsServed (st : E.exchange.store.State) : Type 0 where
    pub reads : (k : String) → E.query_store k ≡ done (E.exchange.store.get st k)
    pub decodable :
        (kind : OrderKind) (ad pd : String) (bz : E.exchange.store.Bytes)
        → E.exchange.store.get st (make_key_order_book kind ad pd) ≡ some bz
        → (E.is_empty bz ≡ false) × ((E.exchange.books.unmarshal bz zero_book).0 ≡ true)

  orderbook_of_lem :
      (st : E.exchange.store.State) (kind : OrderKind) (ad pd : String)
      → IsServed st
      → orderbook_of E kind ad pd (E.exchange.store.get st (make_key_order_book kind ad pd))
        ≡ some (book_at E.exchange st kind ad pd)
  orderbook_of_lem st kind ad pd h =
      elim (Option-cases (E.exchange.store.get st (make_key_order_book kind ad pd))) [
        | inl unset ↦ rw unset refl
        | inr (bz, found) ↦
            let (full, fine) = h.decodable kind ad pd bz found in rw (found, full) (decoded _ fine)
      ]

  or_crash-eq-value : (o : Option OrderBook) (b : OrderBook) → or_crash o ≡ value b → o ≡ some b
  or_crash-eq-value none b e = cc e
  or_crash-eq-value (some c) b e = cc e

  or_crashed-eq-ran : (o : Option OrderBook) (b : OrderBook) → or_crashed o ≡ ran b → o ≡ some b
  or_crashed-eq-ran none b e = cc e
  or_crashed-eq-ran (some c) b e = cc e

  -- The text shows the order book that the store holds for the kind and the denoms.
  abbrev pub Shows : E.exchange.store.State → String → String → String → String → Type 0
  Shows st kind_text ad pd text =
      (kind : OrderKind) × Names kind_text kind
      × (E.marshal_json_indent (book_at E.exchange st kind ad pd) ≡ done text)

  -- What the node and the store have in common with the book of the keeper.
  shown :
      (st : E.exchange.store.State) (kind : OrderKind) (ad pd text : String)
      (res : Option E.exchange.store.Bytes) (book : OrderBook)
      → IsServed st
      → E.query_store (make_key_order_book kind ad pd) ≡ done res
      → orderbook_of E kind ad pd res ≡ some book
      → E.marshal_json_indent book ≡ done text
      → E.marshal_json_indent (book_at E.exchange st kind ad pd) ≡ done text
  shown st kind ad pd text res book h e f g =
      let got : res ≡ E.exchange.store.get st (make_key_order_book kind ad pd) =
        cc (e, h.reads (make_key_order_book kind ad pd)) in
      let held = orderbook_of_lem st kind ad pd h in
      let same : book ≡ book_at E.exchange st kind ad pd =
        cc (sym f ∙ ap (orderbook_of E kind ad pd) got ∙ held) in
      ap E.marshal_json_indent (sym same) ∙ g

  query_orderbook_iff :
      (st : E.exchange.store.State) (kind_text ad pd text : String)
      → IsServed st
      → (query_orderbook E kind_text ad pd ≡ ran text) ↔ Shows st kind_text ad pd text
  unfolding query_orderbook
  query_orderbook_iff st kind_text ad pd text h = (
    λ e.
        let (kind, e1, f1) = bind-eq-ran (or_stop (kind_of E (parse_kind kind_text))) _ e in
        let (res, e2, f2) =
          bind-eq-ran (or_stop (E.query_store (make_key_order_book kind ad pd))) _ f1 in
        let (book, e3, f3) = bind-eq-ran (or_crashed (orderbook_of E kind ad pd res)) _ f2 in
        (
          kind,
          (kind_of-parse_kind_iff kind_text kind).0 (or_stop-eq-ran _ kind e1),
          shown st kind ad pd text res book h (or_stop-eq-ran _ res e2)
              (or_crashed-eq-ran _ book e3) (or_stop-eq-ran _ text f3),
        ),
    λ (kind, named, g).
        rw
          (
            kind_of-Names kind_text kind named,
            h.reads (make_key_order_book kind ad pd),
            orderbook_of_lem st kind ad pd h,
            g,
          )
          refl,
  )

  handle_query_orderbook_iff :
      (st : E.exchange.store.State) (r : E.Body) (m : QueryOrderbookBody) (text : String)
      → IsServed st
      → E.unmarshal_body r ≡ done m
      → (handle_query_orderbook E r ≡ value text) ↔ (
          Shows st m.kind m.amount_denom m.price_denom text
          × (m.amount_denom ≢ "")
          × (m.price_denom ≢ ""))
  unfolding handle_query_orderbook
  handle_query_orderbook_iff st r m text h d = (
    λ e.
        let (m', e1, f1) = bind-eq-value (or_refuse 400 (E.unmarshal_body r)) _ e in
        let same : m' ≡ m = cc (or_refuse-eq-value 400 _ m' e1, d) in
        let (kind, e2, f2) = bind-eq-value (or_refuse 400 (kind_of E (parse_kind m'.kind))) _ f1 in
        let (x, e3, f3) = bind-eq-value (refuse_if (str_eq m'.amount_denom "") 400 _) _ f2 in
        let (y, e4, f4) = bind-eq-value (refuse_if (str_eq m'.price_denom "") 400 _) _ f3 in
        let (res, e5, f5) =
          bind-eq-value
            (or_refuse 500
              (E.query_store (make_key_order_book kind m'.amount_denom m'.price_denom)))
            _ f4 in
        let (book, e6, f6) =
          bind-eq-value (or_crash (orderbook_of E kind m'.amount_denom m'.price_denom res)) _ f5 in
        subst
          (λ n.
            Shows st n.kind n.amount_denom n.price_denom text
            × (n.amount_denom ≢ "")
            × (n.price_denom ≢ ""))
          same
          (
            (
              kind,
              (kind_of-parse_kind_iff m'.kind kind).0 (or_refuse-eq-value 400 _ kind e2),
              shown st kind m'.amount_denom m'.price_denom text res book h
                  (or_refuse-eq-value 500 _ res e5) (or_crash-eq-value _ book e6)
                  (or_refuse-eq-value 500 _ text f6),
            ),
            not_empty m'.amount_denom (refuse_if-eq-value _ 400 _ e3),
            not_empty m'.price_denom (refuse_if-eq-value _ 400 _ e4),
          ),
    λ ((kind, named, g), ad, pd).
        let full_amount : str_eq m.amount_denom "" ≡ false =
          ground (arith, ad, eq_iff m.amount_denom "") in
        let full_price : str_eq m.price_denom "" ≡ false =
          ground (arith, pd, eq_iff m.price_denom "") in
        rw
          (
            d,
            kind_of-Names m.kind kind named,
            full_amount,
            full_price,
            h.reads (make_key_order_book kind m.amount_denom m.price_denom),
            orderbook_of_lem st kind m.amount_denom m.price_denom h,
            g,
          )
          refl,
  )

  -- For a node that answers from a store whose order books can be decoded: the command and the
  -- request for an order book show exactly the book that the keeper reads for the kind and the
  -- denoms, if the text names a kind, and the request only if no denom is empty.
  pub clients-Shows :
      (st : E.exchange.store.State) (r : E.Body) (m : QueryOrderbookBody) (text : String)
      → IsServed st
      → E.unmarshal_body r ≡ done m
      → ((query_orderbook E m.kind m.amount_denom m.price_denom ≡ ran text)
          ↔ Shows st m.kind m.amount_denom m.price_denom text)
        × ((handle_query_orderbook E r ≡ value text) ↔ (
            Shows st m.kind m.amount_denom m.price_denom text
            × (m.amount_denom ≢ "")
            × (m.price_denom ≢ "")))
  clients-Shows st r m text h d = (
    query_orderbook_iff st m.kind m.amount_denom m.price_denom text h,
    handle_query_orderbook_iff st r m text h d,
  )
