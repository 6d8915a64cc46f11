-- ===== src/Exchange/Chain.antt =====
-- The exchange over the life of the chain: the genesis state, then blocks and messages in any
-- order. A message that ends with an error or a panic leaves nothing behind, since the state of a
-- failed transaction is dropped; messages of other modules move coins between accounts.
use thorchain_v.Base.{◌≡◌, refl, sym, ap, subst, ◌∙◌, none, List, [], String, All}
use thorchain_v.Base.Int.{int_laws, parts}
use thorchain_v.Sdk.Types.{Time}
use thorchain_v.Sdk.Keeper.{ok}
use thorchain_v.Exchange.Orders.{ProcessedLimitOrder, FilledLimitOrder}
use thorchain_v.Exchange.Book.{order_book_subspace}
use thorchain_v.Exchange.Book.Keys.{NoColon}
use thorchain_v.Exchange.Env.{Env, World, IsLawful}
use thorchain_v.Exchange.Store.{key_next_order_id}
use thorchain_v.Exchange.Store.Laws.{
  IsBookOf, IsEntry, IsValidStore, new_order_book-IsBookOf, decode,
}
use thorchain_v.Exchange.Store.Ids.{with_next, set_initial_order_id_unset}
use thorchain_v.Exchange.Message.{
  GenesisState, MsgCreateLimitOrder, init_genesis, handle_msg_create_limit_order, begin_blocker,
}
use thorchain_v.Exchange.Process.Keeps.{IsKept, Keeps}
use thorchain_v.Exchange.Process.Storing.{with_next-IsKept, IsKept-trans}
use thorchain_v.Exchange.Process.Whole.{process_limit_order-Keeps}
use thorchain_v.Exchange.Refund.Whole.{refund_expired_limit_orders-IsKept}

module _ (E : Env) (L : IsLawful E) where
  -- Nothing is stored.
  pub record IsFresh (st : E.store.State) : Type 0 where
    pub nothing : (k : String) → E.store.get st k ≡ none
    pub nothing_visited : E.store.iterate st order_book_subspace ≡ []

  -- The worlds that the chain can come to from the first one.
  pub data Reach (first : World E) : World E → Type 0 where
    genesis : (g : GenesisState) (w : World E) → init_genesis E g first ≡ (ok tt, w) → Reach first w
    block :
        (now : Time) (w v : World E)
        → Reach first w
        → begin_blocker E now w ≡ (ok tt, v)
        → Reach first v
    message :
        (now : Time) (msg : MsgCreateLimitOrder) (w v : World E)
        (r : ProcessedLimitOrder × List FilledLimitOrder)
        → NoColon msg.amount.denom
        → Reach first w
        → handle_msg_create_limit_order E now msg w ≡ (ok r, v)
        → Reach first v
    other_module :
        (w : World E) (b : E.bank.State)
        → Reach first w
        → ((d : String) → L.bank.supply b d ≡ L.bank.supply w.bank d)
        → Reach first (record w { bank = b })

  fresh-IsValidStore : (st : E.store.State) → IsFresh st → IsValidStore E st
  fresh-IsValidStore st h = record {
    books = λ kind ad pd k n.
        subst (λ o. IsBookOf kind ad pd (decode E kind ad pd o)) (sym (h.nothing _))
          (new_order_book-IsBookOf kind ad pd);
    entries = subst (All (IsEntry E)) (sym h.nothing_visited) tt;
  }

  pub genesis-IsKept :
      (g : GenesisState) (first w : World E)
      → IsFresh first.store
      → init_genesis E g first ≡ (ok tt, w)
      → IsKept E L first w
  unfolding init_genesis
  genesis-IsKept g first w h e =
      let stored =
        set_initial_order_id_unset E L first g.starting_order_id (h.nothing key_next_order_id) in
      let done : init_genesis E g first ≡ (ok tt, with_next E L first g.starting_order_id) =
        rw stored refl in
      subst (IsKept E L first) (ap (λ r. r.1) (sym done ∙ e))
        (with_next-IsKept E L first g.starting_order_id (fresh-IsValidStore first.store h))

  -- In every world that the chain can come to, all stored books are valid, and in every denom the
  -- coins in the accounts and those locked for stored orders have the sum that there was at first.
  pub Reach-IsKept : (first w : World E) → IsFresh first.store → Reach first w → IsKept E L first w
  unfolding handle_msg_create_limit_order begin_blocker
  Reach-IsKept first _ h (genesis g w e) = genesis-IsKept g first w h e
  Reach-IsKept first _ h (block now w v reached e) =
      let before = Reach-IsKept first w h reached in
      let (u, e', kept) =
        refund_expired_limit_orders-IsKept E L now w before.valid before.readable in
      IsKept-trans E L first w v before (subst (IsKept E L w) (ap (λ r. r.1) (sym e' ∙ e)) kept)
  Reach-IsKept first _ h (message now msg w v r n reached e) =
      let before = Reach-IsKept first w h reached in
      IsKept-trans E L first w v before (
        subst (Keeps E L (E.coins.mul msg.amount.amount msg.price.amount ≡ none) w) e (
          process_limit_order-Keeps E L now msg.sender msg.kind msg.amount msg.price msg.expires_at
            w n before.valid before.readable))
  Reach-IsKept first _ h (other_module w b reached same) =
      let before = Reach-IsKept first w h reached in
      record {
        conserved = λ d. omega (int_laws, parts (before.conserved d), parts (same d));
        valid = before.valid;
        readable = before.readable;
      }

  -- In every such world the next block can begin: the refund of expired orders does not panic and
  -- ends without an error.
  Reach-begins :
      (first w : World E) (now : Time)
      → IsFresh first.store
      → Reach first w
      → (v : World E) × (begin_blocker E now w ≡ (ok tt, v)) × IsKept E L first v
  unfolding begin_blocker
  Reach-begins first w now h reached =
      let before = Reach-IsKept first w h reached in
      let (v, e, kept) =
        refund_expired_limit_orders-IsKept E L now w before.valid before.readable in
      (v, e, IsKept-trans E L first w v before kept)
