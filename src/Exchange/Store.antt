-- ===== src/Exchange/Store.antt =====
-- The store methods of x/exchange/keeper.go: order books and order ids.
pub mod Laws
pub mod Locked
pub mod Ids
use thorchain_v.Base.{String, ◌<>◌, true, false, Option, none, some, not, [], if◌then◌else◌}
use thorchain_v.Base.Int.{ℤ, pos, negsuc, ◌+ℤ◌, ◌-ℤ◌, to_int64}
use thorchain_v.Sdk.Types.{SdkError}
use thorchain_v.Sdk.Keeper.{Keeper, Outcome, ok, err, panic, ◌>>=◌, ◌>>◌, pure, gets, raise, lift}
use thorchain_v.Exchange.Orders.{OrderKind, err_invalid_genesis}
use thorchain_v.Exchange.Book.{OrderBook, make_key_order_book, new_order_book}
use thorchain_v.Exchange.Env.{Env, World}

-- The zero value of an `OrderBook`.
abbrev pub zero_book : OrderBook
zero_book = record { key = ""; kind = 0; amount_denom = ""; price_denom = ""; orders = [] }

abbrev pub key_next_order_id : String
key_next_order_id = "nextOrderID"

module _ (E : Env) where
  abbrev pub stored : String → Keeper (World E) (Option E.store.Bytes)
  stored key = gets (λ w. E.store.get w.store key)

  abbrev pub put : String → E.store.Bytes → Keeper (World E) (Unit {0})
  put key bz w = (ok tt, record w { store = E.store.set w.store key bz })

  -- A codec error, where the source panics at one.
  abbrev pub or_panic : {A : Type 0} → Option A → Keeper (World E) A
  or_panic none = lift panic
  or_panic (some a) = pure a

  -- The error of `UnmarshalBinary` is not looked at.
  unfoldable pub get_order_book : OrderKind → String → String → Keeper (World E) OrderBook
  get_order_book kind amount_denom price_denom = do
    value_bytes ← stored (make_key_order_book kind amount_denom price_denom)
    elim value_bytes [
      | none ↦ pure (new_order_book kind amount_denom price_denom)
      | some bz ↦ pure (E.books.unmarshal bz zero_book).1
    ]

  unfoldable pub set_order_book : OrderBook → Keeper (World E) (Unit {0})
  set_order_book order_book = do bz ← or_panic (E.books.marshal order_book); put order_book.key bz

  unfoldable pub set_initial_order_id : ℤ → Keeper (World E) (Unit {0})
  set_initial_order_id order_id = do
    bz ← stored key_next_order_id
    elim bz [
      | some _ ↦ raise (err_invalid_genesis E.codespace "Initial OrderId already set")
      | none ↦ (or_panic (E.ids.marshal order_id) >>= λ bz'. put key_next_order_id bz')
    ]

  -- `MustUnmarshalBinary` into an `int64`.
  abbrev pub read_id : E.store.Bytes → Outcome ℤ
  read_id bz = let (fine, id) = E.ids.unmarshal bz (pos 0) in if fine then ok id else panic

  unfoldable pub get_last_order_id : Keeper (World E) ℤ
  get_last_order_id = do
    bz ← stored key_next_order_id
    elim bz [
      | none ↦ pure (pos 0)
      | some bz' ↦ (lift (read_id bz') >>= λ order_id. pure (to_int64 (order_id -ℤ pos 1)))
    ]

  unfoldable pub get_new_order_id : Keeper (World E) ℤ
  get_new_order_id = do
    bz ← stored key_next_order_id
    elim bz [
      | none ↦ raise (err_invalid_genesis E.codespace "InitialOrderID never set")
      | some bz' ↦ do
        order_id ← lift (read_id bz')
        next ← or_panic (E.ids.marshal (to_int64 (order_id +ℤ pos 1)))
        put key_next_order_id next
        pure order_id
    ]
