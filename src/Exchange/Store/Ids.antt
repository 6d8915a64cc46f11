-- ===== src/Exchange/Store/Ids.antt =====
-- Order ids in x/exchange/keeper.go: what the methods come to, with a codec that keeps numbers.
use thorchain_v.Base.{
  ◌≡◌, refl, ap, Bool, true, false, Option, none, some, inl, inr, Option-cases, String, ◌∙◌, arith,
  sym, starts_with, eq_iff, Bool-cases, str_eq,
}
use thorchain_v.Base.Int.{ℤ, pos, ◌+ℤ◌, ◌-ℤ◌, to_int64, InInt64, to_int64_self, +ℤ-ℤ}
use thorchain_v.Sdk.Keeper.{Outcome, ok, err, panic}
use thorchain_v.Exchange.Orders.{err_invalid_genesis}
use thorchain_v.Exchange.Book.{order_book_subspace}
use thorchain_v.Exchange.Env.{Env, World, IsLawful}
use thorchain_v.Exchange.Store.{
  key_next_order_id, get_new_order_id, get_last_order_id, set_initial_order_id,
}

module _ (E : Env) (L : IsLawful E) (w : World E) where
  -- The next id, as it is stored.
  abbrev pub with_next : ℤ → World E
  with_next n = record w { store = E.store.set w.store key_next_order_id (L.ids.encode n) }

  abbrev pub take_read : Bool × ℤ → Outcome ℤ × World E
  take_read (true, id) = (ok id, with_next (to_int64 (id +ℤ pos 1)))
  take_read (false, id) = (panic, w)

  abbrev pub take_id : Option E.store.Bytes → Outcome ℤ × World E
  take_id none = (err (err_invalid_genesis E.codespace "InitialOrderID never set"), w)
  take_id (some bz) = take_read (E.ids.unmarshal bz (pos 0))

  pub get_new_order_id_lem : get_new_order_id E w ≡ take_id (E.store.get w.store key_next_order_id)
  unfolding get_new_order_id
  get_new_order_id_lem = elim (Option-cases (E.store.get w.store key_next_order_id)) [
    | inl unset ↦ ground (arith, unset)
    | inr (bz, found) ↦
        let next = to_int64 ((E.ids.unmarshal bz (pos 0)).1 +ℤ pos 1) in
        ground (arith, found, L.ids.marshal_lem next)
  ]

module _ (E : Env) (L : IsLawful E) where
  -- The stored next id is `n`.
  abbrev pub IsNext : World E → ℤ → Type 0
  IsNext w n = E.store.get w.store key_next_order_id ≡ some (L.ids.encode n)

  pub with_next-IsNext : (w : World E) (n : ℤ) → IsNext (with_next E L w n) n
  with_next-IsNext w n =
      ground (arith, L.store.get-set w.store key_next_order_id (L.ids.encode n) key_next_order_id)

  -- If there is a next id, it can be decoded.
  abbrev pub IsReadable : E.store.State → Type 0
  IsReadable st =
      (bz : E.store.Bytes)
      → E.store.get st key_next_order_id ≡ some bz
      → (E.ids.unmarshal bz (pos 0)).0 ≡ true

  pub with_next-IsReadable : (w : World E) (n : ℤ) → IsReadable (with_next E L w n).store
  with_next-IsReadable w n bz e =
      ground (arith, e, with_next-IsNext w n, L.ids.unmarshal_lem n (pos 0))

  -- The key of a book is not that of the next id.
  book_key-differs :
      (k : String) → starts_with k order_book_subspace ≡ true → str_eq k key_next_order_id ≡ false
  book_key-differs k h = elim (Bool-cases (str_eq k key_next_order_id)) [
    | inl same ↦ cc (h, ap (λ s. starts_with s order_book_subspace) ((eq_iff _ _).0 same))
    | inr other ↦ other
  ]

  get_next-set_book :
      (st : E.store.State) (k : String) (v : E.store.Bytes)
      → starts_with k order_book_subspace ≡ true
      → E.store.get (E.store.set st k v) key_next_order_id ≡ E.store.get st key_next_order_id
  get_next-set_book st k v h =
      rw (book_key-differs k h) at (L.store.get-set st k v key_next_order_id)

  pub set_book-IsReadable :
      (st : E.store.State) (k : String) (v : E.store.Bytes)
      → starts_with k order_book_subspace ≡ true
      → IsReadable st
      → IsReadable (E.store.set st k v)
  set_book-IsReadable st k v h r bz e = r bz (sym (get_next-set_book st k v h) ∙ e)

  pub set_book-IsNext :
      (w v : World E) (n : ℤ) (k : String) (bz : E.store.Bytes)
      → starts_with k order_book_subspace ≡ true
      → v.store ≡ E.store.set w.store k bz
      → IsNext w n
      → IsNext v n
  set_book-IsNext w v n k bz h e next = rw e (get_next-set_book w.store k bz h ∙ next)

  pub IsNext-IsReadable : (w : World E) (n : ℤ) → IsNext w n → IsReadable w.store
  IsNext-IsReadable w n next bz e = ground (arith, e, next, L.ids.unmarshal_lem n (pos 0))

  get_last_order_id_lem :
      (w : World E) (n : ℤ) → IsNext w n → get_last_order_id E w ≡ (ok (to_int64 (n -ℤ pos 1)), w)
  unfolding get_last_order_id
  get_last_order_id_lem w n e = ground (arith, e, L.ids.unmarshal_lem n (pos 0))

  pub get_new_order_id-IsNext :
      (w : World E) (n : ℤ)
      → IsNext w n
      → get_new_order_id E w ≡ (ok n, with_next E L w (to_int64 (n +ℤ pos 1)))
  get_new_order_id-IsNext w n e =
      get_new_order_id_lem E L w
      ∙ ap (take_id E L w) e
      ∙ ap (take_read E L w) (L.ids.unmarshal_lem n (pos 0))

  -- When the next id is `n`, `getNewOrderID` gives `n`, the next id is then `n + 1`, and
  -- `getLastOrderID` gives `n`. So calls one after another give consecutive ids, up to the bound of
  -- an `int64`.
  get_new_order_id-consecutive :
      (w : World E) (n : ℤ)
      → IsNext w n
      → InInt64 n
      → InInt64 (n +ℤ pos 1)
      → let (r, v) = get_new_order_id E w in
        (r ≡ ok n) × IsNext v (n +ℤ pos 1) × (get_last_order_id E v ≡ (ok n, v))
  get_new_order_id-consecutive w n e b c =
      let back : (n +ℤ pos 1) -ℤ pos 1 ≡ n = +ℤ-ℤ n (pos 1) in
      rw (get_new_order_id-IsNext w n e, to_int64_self (n +ℤ pos 1) c)
        (
          refl,
          with_next-IsNext w (n +ℤ pos 1),
          get_last_order_id_lem (with_next E L w (n +ℤ pos 1)) (n +ℤ pos 1)
                (with_next-IsNext w (n +ℤ pos 1))
              ∙ ap (λ m. (ok m, with_next E L w (n +ℤ pos 1)))
                  (ap to_int64 back ∙ to_int64_self n b),
        )

  pub set_initial_order_id_unset :
      (w : World E) (n : ℤ)
      → E.store.get w.store key_next_order_id ≡ none
      → set_initial_order_id E n w ≡ (ok tt, with_next E L w n)
  unfolding set_initial_order_id
  set_initial_order_id_unset w n unset = ground (arith, unset, L.ids.marshal_lem n)

  -- When a next id is stored, `setInitialOrderID` is refused, without any change.
  pub set_initial_order_id_refused :
      (w : World E) (n : ℤ) (bz : E.store.Bytes)
      → E.store.get w.store key_next_order_id ≡ some bz
      → set_initial_order_id E n w
        ≡ (err (err_invalid_genesis E.codespace "Initial OrderId already set"), w)
  unfolding set_initial_order_id
  set_initial_order_id_refused w n bz set = ground (arith, set)
