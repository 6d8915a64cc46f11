-- ===== src/Exchange/Store/Locked.antt =====
-- What the exchange keeps locked for all orders in its store.
use thorchain_v.Base.{
  ◌≡◌, refl, ap, ◌∙◌, String, Bool, true, Option, none, some, List, [], ◌∷◌, ◌++◌, starts_with,
}
use thorchain_v.Base.Int.{ℤ, pos, ◌+ℤ◌, int_laws, parts}
use thorchain_v.Sdk.Store.{Written, replaced, added}
use thorchain_v.Exchange.Orders.{OrderKind}
use thorchain_v.Exchange.Book.{OrderBook, new_order_book, make_key_order_book, order_book_subspace}
use thorchain_v.Exchange.Book.Keys.{starts_with-make_key}
use thorchain_v.Exchange.Env.{Env, IsLawful}
use thorchain_v.Exchange.Store.{zero_book}
use thorchain_v.Exchange.Store.Laws.{book_at, decode}
use thorchain_v.Exchange.Matching.Money.{locked_orders}

module _ (E : Env) (d : String) where
  abbrev locked_value : E.store.Bytes → ℤ
  locked_value bz = locked_orders (E.books.unmarshal bz zero_book).1.orders d

  abbrev pub locked_entries : List (String × E.store.Bytes) → ℤ
  locked_entries [] = pos 0
  locked_entries ((k, bz) ∷ es) = locked_value bz +ℤ locked_entries es

  -- Together, over all that the iterator over the order books visits.
  abbrev pub locked_store : E.store.State → ℤ
  locked_store st = locked_entries (E.store.iterate st order_book_subspace)

  locked_entries-append :
      (xs ys : List (String × E.store.Bytes))
      → locked_entries (xs ++ ys) ≡ locked_entries xs +ℤ locked_entries ys
  locked_entries-append [] ys = omega int_laws
  locked_entries-append ((k, v) ∷ xs) ys = omega (int_laws, parts (locked_entries-append xs ys))

  abbrev locked_old : Option E.store.Bytes → ℤ
  locked_old none = pos 0
  locked_old (some bz) = locked_value bz

  locked-Written :
      (k : String) (v : E.store.Bytes) (old : Option E.store.Bytes)
      (before after : List (String × E.store.Bytes))
      → Written k v old before after
      → locked_entries after +ℤ locked_old old ≡ locked_entries before +ℤ locked_value v
  locked-Written k v old before after (replaced l r u o x y) =
      rw (o, x, y, locked_entries-append l ((k, u) ∷ r), locked_entries-append l ((k, v) ∷ r))
        (omega int_laws)
  locked-Written k v old before after (added l r o x y) =
      rw (o, x, y, locked_entries-append l r, locked_entries-append l ((k, v) ∷ r)) (omega int_laws)

  locked_old-decode :
      (kind : OrderKind) (ad pd : String) (o : Option E.store.Bytes)
      → locked_old o ≡ locked_orders (decode E kind ad pd o).orders d
  unfolding new_order_book
  locked_old-decode kind ad pd none = refl
  locked_old-decode kind ad pd (some bz) = refl

  -- Saving a book changes what is locked by the difference between its orders and the old book's.
  pub locked_store-set :
      (L : IsLawful E) (st : E.store.State) (ob : OrderBook) (kind : OrderKind) (ad pd : String)
      → ob.key ≡ make_key_order_book kind ad pd
      → locked_store (E.store.set st ob.key (L.books.encode ob))
          +ℤ locked_orders (book_at E st kind ad pd).orders d
        ≡ locked_store st +ℤ locked_orders ob.orders d
  locked_store-set L st ob kind ad pd e =
      let inside : starts_with ob.key order_book_subspace ≡ true =
        ap (λ k. starts_with k order_book_subspace) e ∙ starts_with-make_key kind ad pd in
      let written =
        locked-Written ob.key (L.books.encode ob) (E.store.get st ob.key) _ _
          (L.store.iterate-set st ob.key (L.books.encode ob) order_book_subspace inside) in
      let new =
        ap (λ (r : Bool × OrderBook). locked_orders r.1.orders d)
          (L.books.unmarshal_lem ob zero_book) in
      let old =
        ap (λ k. locked_old (E.store.get st k)) e
        ∙ locked_old-decode kind ad pd (E.store.get st (make_key_order_book kind ad pd)) in
      omega (int_laws, parts written, parts new, parts old)
