-- ===== src/Exchange/Store/Laws.antt =====
-- What is read back from the store of x/exchange/keeper.go, and the invariant of its order books.
use thorchain_v.Base.{
  ◌≡◌, refl, sym, ap, subst, ◌∙◌, String, Bool, true, false, Option, none, some, inl, inr,
  Bool-cases, str_eq, eq_iff, if◌then◌else◌, arith, starts_with, List, All, All-insert, All-remove,
}
use thorchain_v.Sdk.Keeper.{Outcome, ok}
use thorchain_v.Sdk.Store.{Written, replaced, added}
use thorchain_v.Exchange.Orders.{OrderKind, IsKind}
use thorchain_v.Exchange.Book.{OrderBook, make_key_order_book, new_order_book, order_book_subspace}
use thorchain_v.Exchange.Book.Keys.{NoColon, make_key_order_book-injective, starts_with-make_key}
use thorchain_v.Exchange.Book.Validity.{IsValid}
use thorchain_v.Exchange.Env.{Env, World, IsLawful}
use thorchain_v.Exchange.Store.{get_order_book, set_order_book, zero_book}

-- The book of a kind and two denoms, as it stands in its place.
pub record IsBookOf (kind : OrderKind) (ad pd : String) (ob : OrderBook) : Type 0 where
  pub key_is : ob.key ≡ make_key_order_book kind ad pd
  pub kind_is : ob.kind ≡ kind
  pub amount_is : ob.amount_denom ≡ ad
  pub price_is : ob.price_denom ≡ pd
  pub valid : IsValid ob

pub new_order_book-IsBookOf :
    (kind : OrderKind) (ad pd : String) → IsBookOf kind ad pd (new_order_book kind ad pd)
unfolding new_order_book
new_order_book-IsBookOf kind ad pd = record {
  key_is = refl;
  kind_is = refl;
  amount_is = refl;
  price_is = refl;
  valid = record { fits = tt; sorted = tt };
}

own_key :
    (ob : OrderBook) (kind : OrderKind) (ad pd : String)
    → IsBookOf kind ad pd ob
    → ob.key ≡ make_key_order_book ob.kind ob.amount_denom ob.price_denom
own_key ob kind ad pd b = rw (b.kind_is, b.amount_is, b.price_is) b.key_is

module _ (E : Env) where
  abbrev pub decode : OrderKind → String → String → Option E.store.Bytes → OrderBook
  decode kind ad pd none = new_order_book kind ad pd
  decode kind ad pd (some bz) = (E.books.unmarshal bz zero_book).1

  -- The book that `getOrderBook` finds.
  abbrev pub book_at : E.store.State → OrderKind → String → String → OrderBook
  book_at st kind ad pd = decode kind ad pd (E.store.get st (make_key_order_book kind ad pd))

  decode_if :
      (kind : OrderKind) (ad pd : String) (here : Bool) (v : E.store.Bytes)
      (o : Option E.store.Bytes)
      → decode kind ad pd (if here then some v else o)
        ≡ (if here then (E.books.unmarshal v zero_book).1 else decode kind ad pd o)
  decode_if kind ad pd true v o = refl
  decode_if kind ad pd false v o = refl

  pub get_order_book_lem :
      (kind : OrderKind) (ad pd : String) (w : World E)
      → get_order_book E kind ad pd w ≡ (ok (book_at w.store kind ad pd), w)
  unfolding get_order_book
  get_order_book_lem kind ad pd w = ground arith

  abbrev pub decoded : E.store.Bytes → OrderBook
  decoded bz = (E.books.unmarshal bz zero_book).1

  -- What the iterator over the books visits: a valid book, under its own key.
  pub record IsEntry (e : String × E.store.Bytes) : Type 0 where
    pub at_key : (decoded e.1).key ≡ e.0
    pub kind_supported : IsKind (decoded e.1).kind
    pub no_colon : NoColon (decoded e.1).amount_denom
    pub is_book :
        IsBookOf
          (decoded e.1).kind
          (decoded e.1).amount_denom
          (decoded e.1).price_denom
          (decoded e.1)

  -- Every book of a supported kind, whose amount denom has no colon, stands under its own key, is of
  -- that kind and over these denoms, and is valid; and the iterator visits such books only.
  pub record IsValidStore (st : E.store.State) : Type 0 where
    pub books :
        (kind : OrderKind) (ad pd : String)
        → IsKind kind
        → NoColon ad
        → IsBookOf kind ad pd (book_at st kind ad pd)
    pub entries : All IsEntry (E.store.iterate st order_book_subspace)

  entries-Written :
      (k : String) (v : E.store.Bytes) (old : Option E.store.Bytes)
      (before after : List (String × E.store.Bytes))
      → IsEntry (k, v)
      → All IsEntry before
      → Written k v old before after
      → All IsEntry after
  entries-Written k v old before after h es (replaced l r u o x y) =
      subst (All IsEntry) (sym y)
        (All-insert IsEntry l r (k, v) h (All-remove IsEntry l r (k, u) (subst (All IsEntry) x es)))
  entries-Written k v old before after h es (added l r o x y) =
      subst (All IsEntry) (sym y) (All-insert IsEntry l r (k, v) h (subst (All IsEntry) x es))

  module _ (L : IsLawful E) where
    abbrev pub with_book : World E → OrderBook → World E
    with_book w ob = record w { store = E.store.set w.store ob.key (L.books.encode ob) }

    pub set_order_book_lem :
        (ob : OrderBook) (w : World E) → set_order_book E ob w ≡ (ok tt, with_book w ob)
    unfolding set_order_book
    set_order_book_lem ob w = rw (L.books.marshal_lem ob)

    book_at-set :
        (st : E.store.State) (ob : OrderBook) (kind : OrderKind) (ad pd : String)
        → book_at (E.store.set st ob.key (L.books.encode ob)) kind ad pd
          ≡ (if str_eq ob.key (make_key_order_book kind ad pd) then ob else book_at st kind ad pd)
    book_at-set st ob kind ad pd =
        ap (decode kind ad pd)
          (L.store.get-set st ob.key (L.books.encode ob) (make_key_order_book kind ad pd))
        ∙ decode_if kind ad pd (str_eq ob.key (make_key_order_book kind ad pd)) (L.books.encode ob)
            (E.store.get st (make_key_order_book kind ad pd))
        ∙ ap
            (λ (r : Bool × OrderBook).
              if str_eq ob.key (make_key_order_book kind ad pd) then r.1 else book_at st kind ad pd)
            (L.books.unmarshal_lem ob zero_book)

    -- `getOrderBook` gives back the book that `setOrderBook` has saved under the same key, and finds
    -- every other book as it was.
    get-set_order_book :
        (ob : OrderBook) (w : World E) (kind : OrderKind) (ad pd : String)
        → get_order_book E kind ad pd (set_order_book E ob w).1 ≡ (
          ok (
              if str_eq ob.key (make_key_order_book kind ad pd)
              then ob
              else book_at w.store kind ad pd),
          (set_order_book E ob w).1,
        )
    get-set_order_book ob w kind ad pd =
        rw (set_order_book_lem ob w, get_order_book_lem kind ad pd (with_book w ob))
          (ap {B = Outcome OrderBook × World E} (λ b. (ok b, with_book w ob))
            (book_at-set w.store ob kind ad pd))

    abbrev HasBooks : E.store.State → Type 0
    HasBooks st =
        (kind : OrderKind) (ad pd : String)
        → IsKind kind
        → NoColon ad
        → IsBookOf kind ad pd (book_at st kind ad pd)

    set-books :
        (st : E.store.State) (ob : OrderBook) (kind : OrderKind) (ad pd : String)
        → IsKind kind
        → NoColon ad
        → IsBookOf kind ad pd ob
        → HasBooks st
        → HasBooks (E.store.set st ob.key (L.books.encode ob))
    set-books st ob kind ad pd k n b v kind' ad' pd' k' n' =
        rw (book_at-set st ob kind' ad' pd')
          (elim (Bool-cases (str_eq ob.key (make_key_order_book kind' ad' pd'))) [
            | inl same ↦
                let (ek, ea, ep) =
                  make_key_order_book-injective kind kind' ad ad' pd pd' k k' n n'
                    (sym b.key_is ∙ (eq_iff _ _).0 same) in
                rw same (record {
                  key_is = (eq_iff _ _).0 same;
                  kind_is = b.kind_is ∙ ek;
                  amount_is = b.amount_is ∙ ea;
                  price_is = b.price_is ∙ ep;
                  valid = b.valid;
                })
            | inr other ↦ rw other (v kind' ad' pd' k' n')
          ])

    saved-IsEntry :
        (ob : OrderBook) (kind : OrderKind) (ad pd : String)
        → IsKind kind
        → NoColon ad
        → IsBookOf kind ad pd ob
        → IsEntry (ob.key, L.books.encode ob)
    saved-IsEntry ob kind ad pd k n b =
        let back : ob ≡ decoded (L.books.encode ob) =
          sym (ap (λ (r : Bool × OrderBook). r.1) (L.books.unmarshal_lem ob zero_book)) in
        record {
          at_key = sym (ap (λ (o : OrderBook). o.key) back);
          kind_supported =
              subst (λ (o : OrderBook). IsKind o.kind) back (subst IsKind (sym b.kind_is) k);
          no_colon =
              subst (λ (o : OrderBook). NoColon o.amount_denom) back
                (subst NoColon (sym b.amount_is) n);
          is_book =
              subst (λ (o : OrderBook). IsBookOf o.kind o.amount_denom o.price_denom o) back
                (record {
                  key_is = own_key ob kind ad pd b;
                  kind_is = refl;
                  amount_is = refl;
                  price_is = refl;
                  valid = b.valid;
                });
        }

    -- Saving a valid book in its place keeps the invariant of the store.
    pub set-IsValidStore :
        (st : E.store.State) (ob : OrderBook) (kind : OrderKind) (ad pd : String)
        → IsKind kind
        → NoColon ad
        → IsBookOf kind ad pd ob
        → IsValidStore st
        → IsValidStore (E.store.set st ob.key (L.books.encode ob))
    set-IsValidStore st ob kind ad pd k n b v = record {
      books = set-books st ob kind ad pd k n b v.books;
      entries =
          entries-Written ob.key (L.books.encode ob) (E.store.get st ob.key) _ _
            (saved-IsEntry ob kind ad pd k n b) v.entries
            (L.store.iterate-set st ob.key (L.books.encode ob) order_book_subspace (
              ap (λ s. starts_with s order_book_subspace) b.key_is
              ∙ starts_with-make_key kind ad pd));
    }

    not_a_book :
        (k : String)
        → starts_with k order_book_subspace ≡ false
        → (kind : OrderKind) (ad pd : String) → str_eq k (make_key_order_book kind ad pd) ≡ false
    not_a_book k h kind ad pd = elim (Bool-cases (str_eq k (make_key_order_book kind ad pd))) [
      | inl same ↦ cc (
        h,
        ap (λ s. starts_with s order_book_subspace) ((eq_iff _ _).0 same),
        starts_with-make_key kind ad pd,
      )
      | inr other ↦ other
    ]

    pub set_other-IsValidStore :
        (st : E.store.State) (k : String) (v : E.store.Bytes)
        → starts_with k order_book_subspace ≡ false
        → IsValidStore st
        → IsValidStore (E.store.set st k v)
    set_other-IsValidStore st k v h valid = record {
      books = λ kind ad pd kk n.
          subst (IsBookOf kind ad pd)
            (ap (decode kind ad pd) (
              sym (
                rw (not_a_book k h kind ad pd) at
                  (L.store.get-set st k v (make_key_order_book kind ad pd)))))
            (valid.books kind ad pd kk n);
      entries =
          subst (All IsEntry) (sym (L.store.iterate-set_other st k v order_book_subspace h))
            valid.entries;
    }
