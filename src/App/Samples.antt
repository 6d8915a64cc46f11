-- ===== src/App/Samples.antt =====
-- A small application for the tests, over the sample exchange: accounts are read from and written to
-- the journal of the sample bank, and the staking module counts whole tokens.
use thorchain_v.Base.{
  ◌≡◌, ◌∙◌, refl, sym, ap, String, Bool, true, false, none, some, List, [], ◌∷◌, map, str_eq,
  eq_iff, if◌then◌else◌, inl, inr, Bool-cases, arith,
}
use thorchain_v.Base.Int.{ℤ, pos, ◌+ℤ◌, ◌-ℤ◌, int_laws, parts}
use thorchain_v.Sdk.Types.{Address, Coin}
use thorchain_v.Sdk.Samples.Bank.{Posting, credit, debit, Journal, balance}
use thorchain_v.Sdk.Samples.Store.{list_store}
use thorchain_v.Clp.{Clp}
use thorchain_v.Exchange.Samples.{sample_env, sample_env-IsLawful}
use thorchain_v.App.Staking
use thorchain_v.App.Staking.{Staking, BaseAccount, ThorchainGenTx, PoolOps}
use thorchain_v.App.Genesis.{GenesisState, new_genesis_account_i}
use thorchain_v.App.Genesis.Supply.{amount_in}
use thorchain_v.App.Chain.{AppEnv}
use thorchain_v.App.Chain.Export
use thorchain_v.App.Chain.Export.{held}

-- A validator is its address.
abbrev pub whole_staking : Staking
whole_staking = record {
  Rat = ℤ;
  new_rat = λ n. n;
  add = λ a b. a +ℤ b;
  PoolRest = ℤ;
  GenesisRest = Unit {0};
  Validator = Address;
  PubKey = String;
  new_validator = λ a k name. a;
  owner = λ v. v;
  get_acc_pub_key = λ s. some s;
  bech32ify_acc_pub = λ k. some k;
  sort = λ cs. cs;
  Json = ThorchainGenTx;
  unmarshal_gen_tx = λ j. some j;
  marshal_gen_tx = λ g. some g;
}

-- A delegation moves loose tokens to the bonded ones.
abbrev pub whole_pool_ops : PoolOps whole_staking
whole_pool_ops = record {
  default_genesis_state = record {
    pool = record { loose_tokens = pos 0; others = pos 0 };
    validators = [];
    bonds = [];
    others = tt;
  };
  add_tokens_from_del =
      λ v p n. (v, record { loose_tokens = p.loose_tokens -ℤ n; others = p.others +ℤ n }, n);
}

abbrev pub whole_staking-IsLawful : Staking.IsLawful whole_staking whole_pool_ops
whole_staking-IsLawful = record {
  add_assoc = λ a b c. omega int_laws;
  add-new_rat = λ m n. refl;
  add-zero = λ a. omega int_laws;
  token_supply = λ p. p.loose_tokens +ℤ p.others;
  token_supply-add = λ p r. omega int_laws;
  token_supply-delegate = λ v p n. omega int_laws;
  owner-new_validator = λ a k name. refl;
  owner-delegate = λ v p n. refl;
  acc_pub_key = λ k. k;
  bech32ify_lem = λ k. refl;
  get_acc_pub_key_lem = λ k. refl;
  gen_tx_json = λ g. g;
  marshal_gen_tx_lem = λ g. refl;
  unmarshal_gen_tx_lem = λ g. refl;
}

abbrev owner_of : Posting → Address
owner_of (credit a c) = a
owner_of (debit a c) = a

-- The postings of all other accounts.
abbrev without : Address → Journal → Journal
without a [] = []
without a (p ∷ ps) = let rest = without a ps in if str_eq a (owner_of p) then rest else p ∷ rest

abbrev deposit : Address → List Coin → Journal → Journal
deposit a [] s = s
deposit a (c ∷ cs) s = credit a c ∷ deposit a cs s

abbrev set_account : BaseAccount → Journal → Journal
set_account acc s = deposit acc.address acc.coins (without acc.address s)

-- What the postings of one account come to, as coins.
abbrev coin_of : Posting → Coin
coin_of (credit a c) = c
coin_of (debit a c) = record { denom = c.denom; amount = pos 0 -ℤ c.amount }

abbrev coins_of : Address → Journal → List Coin
coins_of a [] = []
coins_of a (p ∷ ps) =
    let rest = coins_of a ps in if str_eq a (owner_of p) then coin_of p ∷ rest else rest

abbrev accounts_of : Journal → Journal → List BaseAccount
accounts_of s [] = []
accounts_of s (p ∷ ps) =
    record {
      address = owner_of p;
      coins = coins_of (owner_of p) s;
      account_number = pos 0;
      sequence = pos 0;
    }
    ∷ accounts_of s ps

either : (c : Bool) (n : ℤ) → (if c then n else n) ≡ n
either true n = refl
either false n = refl

balance-without :
    (s : Journal) (a b : Address) (d : String)
    → balance (without a s) b d ≡ (if str_eq b a then pos 0 else balance s b d)
balance-without [] a b d = ground arith
balance-without (credit x c ∷ s) a b d =
    ground (arith, eq_iff a x, eq_iff b x, eq_iff b a, balance-without s a b d)
balance-without (debit x c ∷ s) a b d =
    ground (arith, eq_iff a x, eq_iff b x, eq_iff b a, balance-without s a b d)

balance-deposit :
    (cs : List Coin) (s : Journal) (a b : Address) (d : String)
    → balance (deposit a cs s) b d
      ≡ (if str_eq b a then balance s b d +ℤ amount_in d cs else balance s b d)
balance-deposit [] s a b d = elim (Bool-cases (str_eq b a)) [
  | inl same ↦ rw same (omega int_laws)
  | inr other ↦ rw other refl
]
balance-deposit (c ∷ cs) s a b d = elim (Bool-cases (str_eq b a)) [
  | inl same ↦ elim (Bool-cases (str_eq d c.denom)) [
    | inl this ↦
        let rest = rw same at (balance-deposit cs s a b d) in
        rw (same, this) (omega (int_laws, parts rest))
    | inr another ↦
        let rest = rw same at (balance-deposit cs s a b d) in
        rw (same, another) (omega (int_laws, parts rest))
  ]
  | inr other ↦ let rest = rw other at (balance-deposit cs s a b d) in rw other rest
]

pub balance-set_account :
    (acc : BaseAccount) (s : Journal) (a : Address) (d : String)
    → balance (set_account acc s) a d
      ≡ (if str_eq a acc.address then amount_in d acc.coins else balance s a d)
balance-set_account acc s a d =
    let put = balance-deposit acc.coins (without acc.address s) acc.address a d in
    let left = balance-without s acc.address a d in
    elim (Bool-cases (str_eq a acc.address)) [
      | inl same ↦
          let put' = rw same at put in
          let left' = rw same at left in rw same (omega (int_laws, parts put', parts left'))
      | inr other ↦ rw other ((rw other at put) ∙ (rw other at left))
    ]

amount_in-coins_of :
    (s : Journal) (a : Address) (d : String) → amount_in d (coins_of a s) ≡ balance s a d
amount_in-coins_of [] a d = refl
amount_in-coins_of (credit x c ∷ s) a d =
    let rest = parts (amount_in-coins_of s a d) in
    elim (Bool-cases (str_eq a x)) [
      | inl same ↦ elim (Bool-cases (str_eq d c.denom)) [
        | inl this ↦ rw (same, this) (omega (int_laws, rest))
        | inr another ↦ rw (same, another) (amount_in-coins_of s a d)
      ]
      | inr other ↦ rw other (amount_in-coins_of s a d)
    ]
amount_in-coins_of (debit x c ∷ s) a d =
    let rest = parts (amount_in-coins_of s a d) in
    elim (Bool-cases (str_eq a x)) [
      | inl same ↦ elim (Bool-cases (str_eq d c.denom)) [
        | inl this ↦ rw (same, this) (omega (int_laws, rest))
        | inr another ↦ rw (same, another) (amount_in-coins_of s a d)
      ]
      | inr other ↦ rw other (amount_in-coins_of s a d)
    ]

abbrev appears : Address → Journal → Bool
appears a [] = false
appears a (p ∷ ps) = let later = appears a ps in if str_eq a (owner_of p) then true else later

pub balance-absent :
    (s : Journal) (a : Address) (d : String)
    → (if appears a s then balance s a d else pos 0) ≡ balance s a d
balance-absent [] a d = refl
balance-absent (credit x c ∷ s) a d = ground (arith, balance-absent s a d)
balance-absent (debit x c ∷ s) a d = ground (arith, balance-absent s a d)

pub held-accounts_of :
    (s ps : Journal) (a : Address) (d : String) (n : ℤ)
    → held (map new_genesis_account_i (accounts_of s ps)) a d n
      ≡ (if appears a ps then balance s a d else n)
held-accounts_of s [] a d n = refl
held-accounts_of s (p ∷ ps) a d n = elim (Bool-cases (str_eq a (owner_of p))) [
  | inl same ↦
      let here : amount_in d (coins_of (owner_of p) s) ≡ balance s a d =
        ap (λ x. amount_in d (coins_of x s)) (sym ((eq_iff a (owner_of p)).0 same))
        ∙ amount_in-coins_of s a d in
      rw same (
        held-accounts_of s ps a d _
        ∙ ap (λ m. if appears a ps then balance s a d else m) here
        ∙ either (appears a ps) (balance s a d))
  | inr other ↦ rw other (held-accounts_of s ps a d n)
]

abbrev pub sample_app : AppEnv
sample_app = record {
  staking = whole_staking;
  pool_ops = whole_pool_ops;
  exchange = sample_env;
  pools = list_store Clp;
  pool_codec = record { marshal = λ c. some c; unmarshal = λ c d. (true, c) };
  floats = record {
    Float = Unit {0};
    of_int64 = λ n. tt;
    plus = λ a b. tt;
    minus = λ a b. tt;
    times = λ a b. tt;
    over = λ a b. tt;
    pow = λ a b. tt;
    round_to_int64 = λ a. pos 0;
  };
  SdkMsg = Unit {0};
  sdk_handler = λ m s. (some none, s);
  Others = Unit {0};
  get_next_account_number = λ b. (pos 0, b);
  set_account = set_account;
  accounts = λ b. accounts_of b b;
  Validators = List Address;
  Tags = Unit {0};
  stake_init_genesis = λ g s. (some g.validators, s);
  slashing_init_genesis = λ g s. (some tt, s);
  gov_init_genesis = λ s. (some tt, s);
  stake_write_genesis = λ s. whole_pool_ops.default_genesis_state;
  stake_write_validators = λ s. [];
  RequestBeginBlock = Unit {0};
  slashing_begin_blocker = λ r s. (some tt, s);
  gov_end_blocker = λ s. (some tt, s);
  stake_end_blocker = λ s. (some [], s);
  slashing_add_validators = λ v s. (some tt, s);
  StateJson = GenesisState whole_staking whole_pool_ops;
  marshal_state = λ g. some g;
  unmarshal_state = λ g. some g;
}

abbrev pub sample_app-IsLawful : Export.IsLawful sample_app
sample_app-IsLawful = record {
  exchange = sample_env-IsLawful;
  amount_of-set_account = balance-set_account;
  amount_of-get_next = λ b a d. refl;
  amount_in-sort = λ cs d. refl;
  accounts_lem = λ b a d. held-accounts_of b b a d (pos 0) ∙ balance-absent b a d;
  state_json = λ g. g;
  marshal_state_lem = λ g. refl;
  unmarshal_state_lem = λ g. refl;
  amount_of-stake_init = λ g s a d. refl;
  amount_of-slashing_init = λ g s a d. refl;
  amount_of-gov_init = λ s a d. refl;
}
