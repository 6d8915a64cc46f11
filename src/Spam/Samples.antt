-- ===== src/Spam/Samples.antt =====
-- A generator, lists of coins, a node and a key base that fulfil the laws.
use thorchain_v.Base.{
  ℕ, zero, suc, ◌/◌, String, true, false, List, [], ◌∷◌, Option, none, some, ◌≡◌, refl, sym, ap,
  inl, inr, ltb, str_eq, eq_iff, Bool-cases, if◌then◌else◌, ◌⊎◌, arith,
}
use thorchain_v.Base.Int.{ℤ, pos, negsuc, ltb_ℤ, ◌*ℤ◌}
use thorchain_v.Sdk.Types.{Coin}
use thorchain_v.Sdk.Keeper.{Outcome, ok, panic}
use thorchain_v.Sdk.Samples.Coins.{plain_coins}
use thorchain_v.Spam.Random.{Generator, IsLawful, ListOps, IsLawfulList, SpamEnv, Finds}
use thorchain_v.Spam.Messages.{Msg}
use thorchain_v.Spam.Broadcast.{Network, TxContext}
use thorchain_v.Spam.Ensure
use thorchain_v.Spam.Ensure.{KeyBase, Tool}
use thorchain_v.Spam.Sender.{Sending}

-- The least draw each time, and a count of the draws.
abbrev least : ℤ → ℕ → Outcome ℤ × ℕ
least n s = if ltb_ℤ (pos 0) n then (ok (pos 0), suc s) else (panic, s)

abbrev pub least_generator : Generator
least_generator = record {
  Seed = ℕ;
  int63n = least;
  Float = ℕ;
  float32 = λ s. (s, suc s);
  below_half = λ x. ltb x 1;
  below_most = λ x. ltb x 2;
}

pub least_generator-IsLawful : IsLawful least_generator
least_generator-IsLawful = record {
  int63n_within = λ n s h.
      let some_left : ltb_ℤ (pos 0) n ≡ true = ground (arith, h) in
      (pos 0, suc s, rw some_left refl, omega arith, h);
}

abbrev find_amount : List Coin → String → ℤ
find_amount [] d = pos 0
find_amount (c ∷ cs) d = let rest = find_amount cs d in if str_eq c.denom d then c.amount else rest

find_amount-Finds :
    (cs : List Coin) (d : String) → (find_amount cs d ≡ pos 0) ⊎ Finds cs d (find_amount cs d)
find_amount-Finds [] d = inl refl
find_amount-Finds (c ∷ cs) d = elim (Bool-cases (str_eq c.denom d)) [
  | inl here ↦ rw here (inr (inl ((eq_iff c.denom d).0 here, refl)))
  | inr other ↦ rw other (elim (find_amount-Finds cs d) [ inl e ↦ inl e | inr f ↦ inr (inr f) ])
]

abbrev quotient : ℤ → ℤ → Option ℤ
quotient (pos a) (pos (suc b)) = some (pos (a / suc b))
quotient (pos a) (pos zero) = none
quotient (pos a) (negsuc b) = none
quotient (negsuc a) b = none

abbrev pub plain_lists : ListOps
plain_lists = record {
  amount_of = find_amount;
  minus = λ cs ds. cs;
  is_not_negative = λ cs. true;
  is_zero = λ cs. false;
  is_gte = λ cs ds. true;
  div = quotient;
  mul_raw = λ a b. some (a *ℤ b);
  new_coin = λ d a. record { denom = d; amount = a };
}

pub plain_lists-IsLawful : IsLawfulList plain_lists
plain_lists-IsLawful = record {
  amount_of-Finds = find_amount-Finds;
  div_lem = λ a b. refl;
  new_coin_lem = λ d a h. refl;
}

abbrev pub sample_env : SpamEnv
sample_env = record {
  generator = least_generator;
  coins = plain_coins;
  lists = plain_lists;
  SendMsg = String;
  build_msg = λ from to cs. from;
}

-- A node whose accounts all have the number of the transactions so far as their sequence.
abbrev pub counting_node : (M : Type 0) → Network M
counting_node M = record {
  State = ℕ;
  StdSignMsg = TxContext;
  PrivKey = Unit {0};
  PubKey = Unit {0};
  Signature = Unit {0};
  Bytes = Unit {0};
  Result = Unit {0};
  Fee = Unit {0};
  build = λ ctx msgs. some ctx;
  build_and_sign = λ ctx name pass msgs s. (some tt, s);
  sign_bytes = λ msg. tt;
  sign = λ key bz. some tt;
  pub_key = λ key. tt;
  account_number = λ msg. msg.account_number;
  sequence = λ msg. msg.sequence;
  msgs = λ msg. [];
  fee = λ msg. tt;
  memo = λ msg. "";
  broadcast_tx_async = λ bz s. (some tt, suc s);
  marshal_json = λ r. some tt;
  get_account = λ a s. (
    some (record {
      account_number = pos 1;
      sequence = pos s;
      coins = record { denom = "RUNE"; amount = pos 500000 } ∷ [];
    }),
    s,
  );
  get_account_sequence = λ a s. ((pos s, none), s);
}

abbrev pub sample_sending : Sending
sample_sending = record {
  env = sample_env;
  network = counting_node (Msg String);
  marshal_binary = λ tx. some tt;
}

-- Keys are names, the newest first.
abbrev pub name_keys : KeyBase
name_keys = record {
  State = List String;
  Info = String;
  list = λ s. some s;
  create_mnemonic = λ name pass s. (some name, name ∷ s);
  bech32_key_output = λ name. some name;
}

pub same_names : (s ns : List String) → some s ≡ some ns → ns ≡ s
same_names s ns e = ground (arith, e)

abbrev pub name_keys-IsLawful : Ensure.IsLawful name_keys
name_keys-IsLawful = record {
  names = λ s. s;
  list_lem = same_names;
  names-create_mnemonic = λ name pass s t info e free. ([], s, refl, sym (ap (λ r. r.1) e));
}

abbrev pub sample_tool : Tool
sample_tool = record {
  SendMsg = String;
  network = counting_node String;
  marshal_binary = λ tx. some tt;
  key_base = name_keys;
  lists = plain_lists;
  build_msg = λ from to cs. to;
  parse_coins = λ s. some [];
  from_address = some "ann";
  from_address_name = "ann";
  account_exists = λ a s. (true, s);
  tx_context = record { account_number = pos 0; sequence = pos 0; gas = pos 0; chain_id = "c" };
}
