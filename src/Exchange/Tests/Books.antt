-- ===== src/Exchange/Tests/Books.antt =====
-- Order books, their keys, order ids and messages at small inputs.
use thorchain_v.Base.{◌⊎◌, ◌≡◌, ◌↔◌, refl, none, [], ◌∷◌, arith, inl}
use thorchain_v.Base.Int.{pos, ◌+ℤ◌, InInt64}
use thorchain_v.Sdk.Keeper.{ok}
use thorchain_v.Sdk.Samples.Coins.{plain_coins, plain_coins-IsLawful}
use thorchain_v.Exchange.Orders.{buy_order, sell_order}
use thorchain_v.Exchange.Samples.{sample_env, sample_env-IsLawful}
use thorchain_v.Exchange.Tests.{
  eth, rune, ann_sells, eth_book, eth-NoColon, ann_sells-FitsBook, eth_book-IsValid,
}
use thorchain_v.Exchange.Fill.{does_fill}
use thorchain_v.Exchange.Fill.Laws.{crosses, smaller, does_fill_lem}
use thorchain_v.Exchange.Book.{add_limit_order, insert_order}
use thorchain_v.Exchange.Book.Insert.{place, insert_order-place}
use thorchain_v.Exchange.Book.Order.{IsPlaced}
use thorchain_v.Exchange.Book.Keys.{make_key_order_book-injective}
use thorchain_v.Exchange.Book.Validity.{IsValid, add_limit_order_accepts}
use thorchain_v.Exchange.Store.Ids.{IsNext}
use thorchain_v.Exchange.Message.{
  MsgCreateLimitOrder, validate_basic, init_genesis, write_genesis, default_genesis_state,
}
use thorchain_v.Exchange.Message.Direction.{IsOrder, IsSupported, swapped, validate_basic_iff}
use thorchain_v.Exchange.Message.Genesis.{write_genesis-init_genesis}
use thorchain_v.Exchange.Env.{World}

add_limit_order_accepts_example :
    let (e, ob') = add_limit_order plain_coins ann_sells eth_book in
    (e ≡ none)
    × (ob' ≡ record eth_book { orders = ob'.orders })
    × IsPlaced sell_order ann_sells (ann_sells ∷ []) ob'.orders
    × IsValid ob'
add_limit_order_accepts_example =
    add_limit_order_accepts plain_coins plain_coins-IsLawful eth_book ann_sells eth_book-IsValid
      ann_sells-FitsBook

insert_order-place_example :
    insert_order plain_coins sell_order ann_sells (ann_sells ∷ [])
    ≡ place plain_coins sell_order ann_sells (ann_sells ∷ [])
insert_order-place_example = insert_order-place plain_coins sell_order ann_sells (ann_sells ∷ [])

does_fill_lem_example :
    does_fill plain_coins ann_sells buy_order (eth 6) (rune 8)
    ≡ ok (crosses buy_order (pos 8) (pos 7), smaller (eth 5) (eth 6), rune 7)
does_fill_lem_example =
    does_fill_lem plain_coins plain_coins-IsLawful ann_sells buy_order (eth 6) (rune 8) (record {
      same_amount_denom = refl;
      same_price_denom = refl;
      other_kind = λ e. absurd (omega (arith, e));
    })

make_key_order_book-injective_example :
    (buy_order ≡ buy_order) × (eth_book.amount_denom ≡ "ETH") × (eth_book.price_denom ≡ "RUNE")
make_key_order_book-injective_example =
    make_key_order_book-injective buy_order buy_order "ETH" "ETH" "RUNE" "RUNE" (inl refl)
      (inl refl) eth-NoColon eth-NoColon refl

three_fits : InInt64 (pos 2 +ℤ pos 1)
unfolding ◌+ℤ◌
three_fits = record { above = omega arith; below = omega arith }

two_fits : InInt64 (pos 1 +ℤ pos 1)
unfolding ◌+ℤ◌
two_fits = record { above = omega arith; below = omega arith }

abbrev blank : World sample_env
blank = record { bank = []; store = [] }

write_genesis-init_genesis_example :
    let (r, v) = init_genesis sample_env default_genesis_state blank in
    (r ≡ ok tt)
    × ((write_genesis sample_env v).0 ≡ ok default_genesis_state)
    × IsNext sample_env sample_env-IsLawful (write_genesis sample_env v).1 (pos 1 +ℤ pos 1)
write_genesis-init_genesis_example =
    write_genesis-init_genesis sample_env sample_env-IsLawful default_genesis_state blank refl
      two_fits

abbrev bob_message : MsgCreateLimitOrder
bob_message = record {
  sender = "bob";
  kind = buy_order;
  amount = eth 6;
  price = rune 8;
  expires_at = 9;
}

validate_basic_iff_example :
    ((validate_basic 0 bob_message ≡ none) ↔ (IsOrder 0 bob_message × IsSupported "ETH" "RUNE"))
    × (((validate_basic 0 bob_message ≡ none) ⊎ (validate_basic 0 (swapped bob_message) ≡ none))
        ↔ IsOrder 0 bob_message)
    × ¬ ((validate_basic 0 bob_message ≡ none) × (validate_basic 0 (swapped bob_message) ≡ none))
validate_basic_iff_example = validate_basic_iff 0 bob_message
