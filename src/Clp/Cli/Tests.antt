-- ===== src/Clp/Cli/Tests.antt =====
-- A pool created from the command line.
use thorchain_v.Base.{◌≡◌, refl, some, none, true, List, [], ◌∷◌, ◌++◌, arith}
use thorchain_v.Base.Int.{pos}
use thorchain_v.Base.Decimals.{show_ℕ}
use thorchain_v.Base.Atoi.{atoi_value}
use thorchain_v.Sdk.Web.{done}
use thorchain_v.Sdk.Command.{ran}
use thorchain_v.Sdk.Samples.Coins.{plain_coins}
use thorchain_v.Sdk.Samples.Bank.{journal_bank}
use thorchain_v.Sdk.Samples.Store.{list_store}
use thorchain_v.Clp.{Clp}
use thorchain_v.Clp.Env.{ClpEnv}
use thorchain_v.Clp.Rest.{ClpMsg, create}
use thorchain_v.Clp.Cli.{CliEnv, create_tx_cmd, number}
use thorchain_v.Clp.Cli.Sent.{create_tx_cmd-sends}

abbrev no_pools : ClpEnv
no_pools = record {
  coins = plain_coins;
  bank = journal_bank;
  store = list_store Clp;
  pools = record { marshal = λ c. some c; unmarshal = λ c d. (true, c) };
  floats = record {
    Float = Unit {0};
    of_int64 = λ n. tt;
    plus = λ a b. tt;
    minus = λ a b. tt;
    times = λ a b. tt;
    over = λ a b. tt;
    pow = λ a b. tt;
    round_to_int64 = λ a. pos 0;
  };
  base_coin_ticker = "RUNE";
}

-- The state is the list of the messages sent.
abbrev sample_cli : CliEnv
sample_cli = record {
  clp = no_pools;
  get_from_address = done "ann";
  error_text = λ e. "error";
  State = List ClpMsg;
  send_tx = λ msgs s. (none, s ++ msgs);
  query_store = λ k. done none;
  query_subspace = λ p. done none;
  not_parsed = λ bz. "";
  describe = λ c. c.ticker;
}

create_tx_cmd-sends_example :
    create_tx_cmd sample_cli
      (record {
        ticker = "ETH";
        name = "Ether";
        decimals = show_ℕ 18;
        reserve_ratio = show_ℕ 50;
        initial_supply = show_ℕ 1000;
        initial_rune_amount = show_ℕ 40;
      })
      []
    ≡ (
      ran tt,
      create (record {
        sender = "ann";
        ticker = "ETH";
        name = "Ether";
        decimals = 18;
        reserve_ratio = pos 50;
        initial_supply = pos 1000;
        initial_base_coin_amount = pos 40;
      })
          ∷ [],
    )
create_tx_cmd-sends_example =
    create_tx_cmd-sends sample_cli "ann" "ETH" "Ether" 18 50 1000 40 [] refl (omega arith)
      (omega arith) (omega arith) (omega arith)

-- What is no number counts as zero.
no_number : number "12x" ≡ pos 0
unfolding atoi_value
no_number = refl
