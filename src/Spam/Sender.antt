-- ===== src/Spam/Sender.antt =====
-- The spammers of cmd/thorchainspam/txs/send.go: how one is made, one send, and the main loop's
-- choice of the next. The channel `queryFree` lets one send of a spammer run at a time, so that a
-- send is one step here. Passwords, command line contexts and the log are left out.
pub mod Counting
pub mod Turns
use thorchain_v.Base.{
  ℕ, zero, suc, ◌+◌, ◌-◌, ◌%◌, String, Bool, true, false, List, [], ◌∷◌, ◌==◌, leb, if◌then◌else◌,
  Option, none, some,
}
use thorchain_v.Base.Int.{ℤ, pos, ◌+ℤ◌}
use thorchain_v.Sdk.Types.{Coin, Address, Time}
use thorchain_v.Sdk.Keeper.{Keeper, Outcome, ok, panic, ◌>>=◌, pure, lift}
use thorchain_v.Spam.Parse.{SpamCtx}
use thorchain_v.Spam.Random.{SpamEnv, Random}
use thorchain_v.Spam.Messages.{
  Msg, Made, make_random_tx_msg, make_random_clp_msg, make_random_limit_order_msg,
}
use thorchain_v.Spam.Stats.{Stats, add_success, add_error}
use thorchain_v.Spam.Broadcast.{
  Network, TxContext, Account, StdTx, priv_build_sign_and_broadcast_msg,
}

pub record Sending : Type 1 where
  pub env : SpamEnv
  pub network : Network (Msg env.SendMsg)
  pub marshal_binary : StdTx network → Option network.Bytes

-- The index in the list of spammers that comes after `i`, and the one whose account is paid.
abbrev pub next_index : ℕ → ℕ → ℕ
next_index n i = if i == n - 1 then 0 else suc i

abbrev pub receiver : ℕ → ℕ → ℕ
receiver n i = suc i % n

-- The index at each turn of the loop.
unfoldable pub turn : ℕ → ℕ → ℕ
turn n zero = 0
turn n (suc k) = next_index n (turn n k)

module _ (S : Sending) where
  pub record Spammer : Type 0 where
    pub account_name : String
    pub account_address : Address
    pub index : ℕ
    pub next_sequence : ℤ
    pub tx_ctx : TxContext
    pub priv : S.network.PrivKey
    pub current_coins : List Coin
    pub sequence_check : ℕ

  -- The generator, the node, and the shared counters.
  pub record World : Type 0 where
    pub seed : S.env.generator.Seed
    pub node : S.network.State
    pub stats : Stats

  -- With no account a spammer is not made; with no key, the answer of the key base, it is a panic.
  abbrev spawn_with :
      SpamCtx
      → ℕ
      → String
      → Address
      → Option S.network.PrivKey
      → Option Account
      → Outcome (Option Spammer)
  spawn_with ctx index name address key none = ok none
  spawn_with ctx index name address none (some account) = panic
  spawn_with ctx index name address (some priv) (some account) = ok (
      some (record {
        account_name = name;
        account_address = address;
        index = index;
        next_sequence = account.sequence;
        tx_ctx = record {
          account_number = account.account_number;
          sequence = account.sequence;
          gas = pos 20000;
          chain_id = ctx.chain_id;
        };
        priv = priv;
        current_coins = account.coins;
        sequence_check = 0;
      }))

  unfoldable pub spawn_spammer :
      SpamCtx
      → ℕ
      → String
      → Address
      → Option S.network.PrivKey
      → Keeper S.network.State (Option Spammer)
  spawn_spammer ctx index name address key s =
      let (account, s') = S.network.get_account address s in
      (spawn_with ctx index name address key account, s')

  abbrev refreshed : Spammer → ℤ → List Coin → Spammer
  refreshed sp sequence coins = record sp {
    next_sequence = sequence;
    sequence_check = 0;
    current_coins = coins;
  }

  -- An error at the account leaves the spammer as it is; one at the sequence is only logged, and the
  -- number that comes with it is taken.
  abbrev refresh_with : Spammer → Option Account × S.network.State → Spammer × S.network.State
  refresh_with sp (none, s) = (sp, s)
  refresh_with sp (some account, s) =
      let ((sequence, err), s') = S.network.get_account_sequence sp.account_address s in
      (refreshed sp sequence account.coins, s')

  unfoldable pub update_sequence_and_coins : Spammer → Keeper World Spammer
  update_sequence_and_coins sp w =
      let (sp', s) = refresh_with sp (S.network.get_account sp.account_address w.node) in
      (ok sp', record w { node = s })

  abbrev random : {A : Type 0} → Random S.env A → Keeper World A
  random m w = let (r, t) = m w.seed in (r, record w { seed = t })

  -- One draw decides between the three kinds of message.
  abbrev make_random_msg : SpamCtx → Address → Time → Spammer → Random S.env (Made S.env)
  make_random_msg ctx to now sp seed =
      let G = S.env.generator in
      let (rand_type, t) = G.float32 seed in
      if G.below_half rand_type
      then make_random_tx_msg S.env sp.account_address sp.current_coins to t
      else if G.below_most rand_type
      then make_random_clp_msg S.env sp.account_address sp.current_coins ctx.clps t
      else make_random_limit_order_msg S.env now sp.account_address sp.current_coins
          ctx.limit_order_pairs t

  -- The spammer that signs with its next sequence, and with that sequence used.
  abbrev signing : Spammer → Spammer
  signing sp = record sp { tx_ctx = record sp.tx_ctx { sequence = sp.next_sequence } }

  abbrev used : Spammer → Spammer
  used sp = record sp {
    next_sequence = sp.next_sequence +ℤ pos 1;
    sequence_check = suc sp.sequence_check;
  }

  abbrev broadcast : Spammer → Msg S.env.SendMsg → Keeper World (Option S.network.Bytes)
  broadcast sp msg w =
      let (r, s) =
        priv_build_sign_and_broadcast_msg S.network S.marshal_binary sp.tx_ctx sp.priv msg w.node in
      (ok r, record w { node = s })

  abbrev after_broadcast : Spammer → List Coin → Option S.network.Bytes → Keeper World Spammer
  after_broadcast sp coins_used none w =
      update_sequence_and_coins sp (record w { stats = add_error w.stats })
  after_broadcast sp coins_used (some bz) w =
      let sp' = record sp { current_coins = S.env.lists.minus sp.current_coins coins_used } in
      let w' = record w { stats = add_success w.stats } in
      if leb 200 sp.sequence_check then update_sequence_and_coins sp' w' else (ok sp', w')

  abbrev send_made : Spammer → Made S.env → Keeper World Spammer
  send_made sp none = update_sequence_and_coins sp
  send_made sp (some (msg, coins_used)) = do
    res ← broadcast (signing sp) msg
    after_broadcast (used (signing sp)) coins_used res

  unfoldable pub send : SpamCtx → Address → Time → Spammer → Keeper World Spammer
  send ctx to now sp = do made ← random (make_random_msg ctx to now sp); send_made sp made
