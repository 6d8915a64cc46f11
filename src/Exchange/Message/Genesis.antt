-- ===== src/Exchange/Message/Genesis.antt =====
-- Genesis of x/exchange/genesis.go: what is read back.
use thorchain_v.Base.{◌≡◌, refl, none, some}
use thorchain_v.Base.Int.{pos, ◌+ℤ◌, InInt64, to_int64_self}
use thorchain_v.Sdk.Keeper.{ok, panic}
use thorchain_v.Exchange.Env.{Env, World, IsLawful}
use thorchain_v.Exchange.Store.{key_next_order_id}
use thorchain_v.Exchange.Store.Ids.{
  IsNext, set_initial_order_id_unset, set_initial_order_id_refused, get_new_order_id-IsNext,
  with_next, with_next-IsNext,
}
use thorchain_v.Exchange.Message.{GenesisState, init_genesis, write_genesis}

module _ (E : Env) (L : IsLawful E) where
  -- `InitGenesis` with no id stored ends, and `WriteGenesis` then gives the same genesis state; but
  -- it takes an order id for that: the next id is one higher after it.
  pub write_genesis-init_genesis :
      (g : GenesisState) (w : World E)
      → E.store.get w.store key_next_order_id ≡ none
      → InInt64 (g.starting_order_id +ℤ pos 1)
      → let (r, v) = init_genesis E g w in
        (r ≡ ok tt)
        × ((write_genesis E v).0 ≡ ok g)
        × IsNext E L (write_genesis E v).1 (g.starting_order_id +ℤ pos 1)
  unfolding init_genesis write_genesis
  write_genesis-init_genesis g w unset fit =
      let v = with_next E L w g.starting_order_id in
      rw
        (
          set_initial_order_id_unset E L w g.starting_order_id unset,
          get_new_order_id-IsNext E L v g.starting_order_id
              (with_next-IsNext E L w g.starting_order_id),
          to_int64_self (g.starting_order_id +ℤ pos 1) fit,
        )
        (refl, refl, with_next-IsNext E L v (g.starting_order_id +ℤ pos 1))

  -- `InitGenesis` panics when an id is stored, and changes nothing.
  init_genesis_panics :
      (g : GenesisState) (w : World E) (bz : E.store.Bytes)
      → E.store.get w.store key_next_order_id ≡ some bz
      → init_genesis E g w ≡ (panic, w)
  unfolding init_genesis
  init_genesis_panics g w bz set =
      rw (set_initial_order_id_refused E L w g.starting_order_id bz set) refl
