-- ===== src/App/Tests.antt =====
-- A network of two nodes, and a chain with a stored order that is exported.
mod Life
use thorchain_v.Base.{◌≡◌, refl, some, [], ◌∷◌}
use thorchain_v.Base.Int.{pos, ◌+ℤ◌}
use thorchain_v.Sdk.Keeper.{ok}
use thorchain_v.Sdk.Samples.Bank.{credit}
use thorchain_v.Exchange.Orders.{sell_order}
use thorchain_v.Exchange.Book.{OrderBook}
use thorchain_v.Exchange.Samples.{Value}
use thorchain_v.Exchange.Store.Locked.{locked_store}
use thorchain_v.App.Genesis.{GenesisState, made, thorchain_app_gen_state, thorchain_app_gen_tx_nf}
use thorchain_v.App.Genesis.Supply.{IsFunded}
use thorchain_v.App.Genesis.Network.{Node, gen_tx_of, network-IsFunded}
use thorchain_v.App.Chain.{Stores, init_chainer, export_app_state_and_validators}
use thorchain_v.App.Chain.Export.{IsRestarted, export-init_chainer}
use thorchain_v.App.Samples.{
  whole_staking, whole_pool_ops, whole_staking-IsLawful, sample_app, sample_app-IsLawful,
}

abbrev ada : Node whole_staking whole_pool_ops whole_staking-IsLawful
ada = record {
  name = "ada";
  address = "addr1";
  pk = "key1";
  json = record { name = "ada"; address = "addr1"; pub_key = "key1" };
}

-- A node without a name is no validator.
abbrev unnamed : Node whole_staking whole_pool_ops whole_staking-IsLawful
unnamed = record {
  name = "";
  address = "addr2";
  pk = "key2";
  json = record { name = ""; address = "addr2"; pub_key = "key2" };
}

network-IsFunded_example :
    (st : GenesisState whole_staking whole_pool_ops) × (thorchain_app_gen_state whole_staking
        whole_pool_ops
        (ada.json ∷ unnamed.json ∷ [])
      ≡ made st)
    × IsFunded whole_staking whole_pool_ops whole_staking-IsLawful
        (gen_tx_of whole_staking whole_pool_ops whole_staking-IsLawful ada
          ∷ gen_tx_of whole_staking whole_pool_ops whole_staking-IsLawful unnamed
          ∷ [])
        st.accounts
        whole_pool_ops.default_genesis_state
        st.stake_data
unfolding thorchain_app_gen_tx_nf
network-IsFunded_example =
    network-IsFunded whole_staking whole_pool_ops whole_staking-IsLawful ada (unnamed ∷ [])
      (refl, (refl, tt))

abbrev asks : OrderBook
asks = record {
  key = "orderBook:2:ETH:RUNE";
  kind = sell_order;
  amount_denom = "ETH";
  price_denom = "RUNE";
  orders =
      record {
        order_id = pos 1;
        sender = "ann";
        kind = sell_order;
        amount = record { denom = "ETH"; amount = pos 5 };
        price = record { denom = "RUNE"; amount = pos 7 };
        expires_at = 9;
      }
      ∷ [];
}

abbrev running : Stores sample_app
running = record {
  bank =
      credit "ann" (record { denom = "RUNE"; amount = pos 20 })
      ∷ credit "bob" (record { denom = "ETH"; amount = pos 3 })
      ∷ [];
  others = tt;
  exchange = ("nextOrderID", Value.id (pos 2)) ∷ ("orderBook:2:ETH:RUNE", Value.book asks) ∷ [];
  pools = [];
}

abbrev unborn : Stores sample_app
unborn = record { bank = []; others = tt; exchange = []; pools = [] }

-- The coins of the stored order are locked.
running_locks : locked_store sample_app.exchange "ETH" running.exchange ≡ pos 5
unfolding ◌+ℤ◌
running_locks = refl

export-init_chainer_example :
    (json : sample_app.StateJson) × (vs : sample_app.Validators) × (v : Stores sample_app)
    × ((export_app_state_and_validators sample_app running).0 ≡ ok (some (json, vs)))
    × (init_chainer sample_app json unborn ≡ (ok [], v))
    × IsRestarted sample_app sample_app-IsLawful running v (pos 2)
export-init_chainer_example =
    export-init_chainer sample_app sample_app-IsLawful running unborn (pos 2) [] refl
      (record { nothing = λ k. refl; nothing_visited = refl }) (λ a d. refl)
      (record { staked = _; slashed = _; last = _; stake = refl; slashing = refl; gov = refl })
