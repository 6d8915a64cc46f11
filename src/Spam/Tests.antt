-- ===== src/Spam/Tests.antt =====
-- The spam tool at small inputs.
use thorchain_v.Base.{
  ℕ, ◌+◌, ◌<◌, ◌≤◌, ◌≢◌, String, List, [], ◌∷◌, some, ◌≡◌, ◌↔◌, refl, inr, ◌⊎◌, All, arith,
}
use thorchain_v.Base.Texts.{split_text}
use thorchain_v.Base.Chars.{IsNonempty, split}
use thorchain_v.Base.Decimals.{show_ℕ, show_digits}
use thorchain_v.Base.Int.{pos, ◌+ℤ◌, ◌-ℤ◌, ◌≤ℤ◌, InInt64}
use thorchain_v.Sdk.Types.{Coin}
use thorchain_v.Sdk.Keeper.{ok}
use thorchain_v.Sdk.Samples.Coins.{plain_coins-IsLawful}
use thorchain_v.Spam.Parse.{Flags, SpamCtx, IsPair, parse_limit_order_pairs, read_flags, show_pairs}
use thorchain_v.Spam.Parse.Pairs.{parse_limit_order_pairs_iff}
use thorchain_v.Spam.Random.{get_random_coins_up_to}
use thorchain_v.Spam.Messages.{Made, make_random_tx_msg, make_random_limit_order_msg}
use thorchain_v.Spam.Messages.Order.{IsSound, make_random_limit_order_msg-IsSound}
use thorchain_v.Spam.Sender.{Spammer, World, turn, receiver, spawn_spammer, send}
use thorchain_v.Spam.Sender.Turns.{turn-visits}
use thorchain_v.Spam.Sender.Counting.{Life, spawned, sent, IsRecent, Life-refreshes}
use thorchain_v.Spam.Broadcast.{
  priv_build_sign_and_broadcast_msg, priv_sign, build_sign_and_broadcast_msg,
}
use thorchain_v.Spam.Stats.{new_stats}
use thorchain_v.Spam.Ensure
use thorchain_v.Spam.Ensure.{account_ensure, account_name, count_spam_accounts, done}
use thorchain_v.Spam.Ensure.Made.{account_name_inj}
use thorchain_v.Spam.Ensure.Accounts.{account_ensure-makes}
use thorchain_v.Spam.Samples.{
  least_generator-IsLawful, plain_lists-IsLawful, sample_env, sample_sending, sample_tool,
  name_keys-IsLawful,
}

abbrev pairs : List (List String)
pairs = ("ETH" ∷ "RUNE" ∷ []) ∷ ("BTC" ∷ "RUNE" ∷ []) ∷ []

pairs_parsed : parse_limit_order_pairs "ETH:RUNE,BTC:RUNE" ≡ inr pairs
unfolding parse_limit_order_pairs split_text split
pairs_parsed = refl

parse_limit_order_pairs_iff_example :
    (parse_limit_order_pairs "ETH:RUNE,BTC:RUNE" ≡ inr pairs)
    ↔ (IsNonempty pairs × All IsPair pairs × (show_pairs pairs ≡ "ETH:RUNE,BTC:RUNE"))
parse_limit_order_pairs_iff_example = parse_limit_order_pairs_iff "ETH:RUNE,BTC:RUNE" pairs

abbrev coins : List Coin
coins =
    record { denom = "ETH"; amount = pos 5000 } ∷ record { denom = "RUNE"; amount = pos 9000 } ∷ []

coins_fit : All (λ c. InInt64 c.amount) coins
coins_fit = (
  record { above = omega arith; below = omega arith },
  (record { above = omega arith; below = omega arith }, tt),
)

abbrev flags : Flags
flags = record {
  chain_id = "thorchain";
  spam_password = "password";
  clps = "RUNE,ETH";
  limit_order_pairs = "ETH:RUNE,BTC:RUNE";
}

abbrev ctx : SpamCtx
ctx = record { chain_id = "thorchain"; clps = "RUNE" ∷ "ETH" ∷ []; limit_order_pairs = pairs }

flags_read : read_flags flags ≡ inr ctx
unfolding read_flags split_text split
flags_read = refl

make_random_limit_order_msg-IsSound_example :
    (r : Made sample_env) × (t : ℕ) × (make_random_limit_order_msg sample_env 5 "ann" coins
        ctx.limit_order_pairs 0
      ≡ (ok r, t))
    × IsSound coins r
make_random_limit_order_msg-IsSound_example =
    make_random_limit_order_msg-IsSound sample_env least_generator-IsLawful plain_coins-IsLawful
      plain_lists-IsLawful flags ctx 5 "ann" coins 0 flags_read coins_fit

turn-visits_example : (j : ℕ) × (j < 3) × (turn 3 (j + 4) ≡ 0) × (receiver 3 (turn 3 4) ≡ turn 3 5)
turn-visits_example = turn-visits 3 4 0 (omega arith)

abbrev fresh : Spammer sample_sending
fresh = record {
  account_name = "spam-0";
  account_address = "addr";
  index = 0;
  next_sequence = pos 4;
  tx_ctx = record {
    account_number = pos 1;
    sequence = pos 4;
    gas = pos 20000;
    chain_id = "thorchain";
  };
  priv = tt;
  current_coins = record { denom = "RUNE"; amount = pos 500000 } ∷ [];
  sequence_check = 0;
}

fresh-Life : Life sample_sending fresh
unfolding spawn_spammer
fresh-Life = spawned ctx 0 "spam-0" "addr" (some tt) 4 4 refl

abbrev world : World sample_sending
world = record { seed = 0; node = 4; stats = new_stats 0 }

abbrev after_one : Spammer sample_sending
after_one = record fresh { next_sequence = pos 5; sequence_check = 1 }

after_one-Life : Life sample_sending after_one
unfolding send make_random_tx_msg get_random_coins_up_to priv_build_sign_and_broadcast_msg priv_sign
    ◌+ℤ◌
after_one-Life = sent ctx "bob" 9 world _ fresh-Life refl

Life-refreshes_example : IsRecent sample_sending after_one
Life-refreshes_example =
    Life-refreshes sample_sending
      (record { account = λ a s. (_, refl); sequence = λ a s. (_, refl) }) after_one-Life

abbrev three : Ensure.Flags
three = record {
  spam_prefix = "spam";
  spam_password = "password";
  sign_password = "password";
  k = pos 3;
  amount = "1RUNE";
}

abbrev one_key : Ensure.World sample_tool
one_key = record { keys = "spam-0" ∷ []; node = 0 }

abbrev three_keys : Ensure.World sample_tool
three_keys = record { keys = "spam-2" ∷ "spam-1" ∷ "spam-0" ∷ []; node = 2 }

ensured : account_ensure sample_tool three one_key ≡ (done tt, three_keys)
unfolding account_ensure ◌-ℤ◌ build_sign_and_broadcast_msg show_ℕ show_digits
ensured = refl

other_name : (i : ℕ) → 1 ≤ i → i < 3 → "spam-0" ≢ account_name "spam" i
unfolding show_ℕ show_digits
other_name i low high e =
    let same = account_name_inj "spam" 0 i (omega arith) (omega (arith, high)) e in
    omega (arith, same, low)

three_keys_free :
    (i : ℕ)
    → count_spam_accounts one_key.keys "spam" ≤ i
    → i < 3
    → All (λ n. n ≢ account_name "spam" i) one_key.keys
unfolding count_spam_accounts
three_keys_free i low high = (other_name i low high, tt)

account_ensure-makes_example :
    (pos 3 ≤ℤ pos (count_spam_accounts three_keys.keys "spam"))
    × ((pos (count_spam_accounts three_keys.keys "spam") ≡ pos 3) ⊎ (three_keys ≡ one_key))
account_ensure-makes_example =
    account_ensure-makes sample_tool name_keys-IsLawful three {w = one_key} {v = three_keys}
      (record { above = omega arith; below = omega arith }) three_keys_free ensured
