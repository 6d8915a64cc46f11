-- ===== src/App/Chain/Export.antt =====
-- What a chain holds that starts from the state which another one has exported.
use thorchain_v.Base.{
  ◌≡◌, ◌∙◌, refl, sym, ap, String, some, none, true, false, eq_iff, starts_with, List, [], ◌∷◌, map,
  str_eq, if◌then◌else◌, inl, inr, Bool-cases,
}
use thorchain_v.Base.Int.{ℤ, pos}
use thorchain_v.Sdk.Types.{Address, Coin}
use thorchain_v.Sdk.Keeper.{ok}
use thorchain_v.Exchange.Book.{order_book_subspace}
use thorchain_v.Exchange.Env
use thorchain_v.Exchange.Env.{World}
use thorchain_v.Exchange.Chain.{IsFresh}
use thorchain_v.Exchange.Store.{key_next_order_id}
use thorchain_v.Exchange.Store.Ids.{
  IsNext, with_next, with_next-IsNext, set_initial_order_id_unset, get_new_order_id-IsNext,
}
use thorchain_v.Exchange.Store.Locked.{locked_store, locked_entries}
use thorchain_v.Exchange.Message.{init_genesis, write_genesis}
use thorchain_v.App.Staking.{BaseAccount}
use thorchain_v.App.Genesis.{GenesisState, GenesisAccount, to_account, new_genesis_account_i}
use thorchain_v.App.Genesis.Supply.{amount_in}
use thorchain_v.App.Chain.{
  AppEnv, Stores, load_accounts, init_chainer, init_state, start_modules,
  export_app_state_and_validators,
}

-- What the last of the accounts at an address holds, or else `n`.
abbrev pub held : List GenesisAccount → Address → String → ℤ → ℤ
held [] a d n = n
held (acc ∷ accs) a d n =
    let here = held accs a d (amount_in d acc.coins) in
    let other = held accs a d n in if str_eq a acc.address then here else other

-- The documented laws of the account mapper, which visits each account once, of the codec, and of
-- the SDK's modules: that their initialisation moves no coins of accounts.
pub record IsLawful (A : AppEnv) : Type 0 where
  pub exchange : Env.IsLawful A.exchange
  pub amount_of-set_account :
      (acc : BaseAccount) (b : A.exchange.bank.State) (a : Address) (d : String)
      → A.exchange.bank.amount_of (A.set_account acc b) a d
        ≡ (if str_eq a acc.address then amount_in d acc.coins else A.exchange.bank.amount_of b a d)
  pub amount_of-get_next :
      (b : A.exchange.bank.State) (a : Address) (d : String)
      → A.exchange.bank.amount_of (A.get_next_account_number b).1 a d
        ≡ A.exchange.bank.amount_of b a d
  pub amount_in-sort :
      (cs : List Coin) (d : String) → amount_in d (A.staking.sort cs) ≡ amount_in d cs
  pub accounts_lem :
      (b : A.exchange.bank.State) (a : Address) (d : String)
      → held (map new_genesis_account_i (A.accounts b)) a d (pos 0)
        ≡ A.exchange.bank.amount_of b a d
  pub state_json : GenesisState A.staking A.pool_ops → A.StateJson
  pub marshal_state_lem :
      (g : GenesisState A.staking A.pool_ops) → A.marshal_state g ≡ some (state_json g)
  pub unmarshal_state_lem :
      (g : GenesisState A.staking A.pool_ops) → A.unmarshal_state (state_json g) ≡ some g
  pub amount_of-stake_init :
      (g : _) (s : A.exchange.bank.State × A.Others) (a : Address) (d : String)
      → A.exchange.bank.amount_of (A.stake_init_genesis g s).1.0 a d
        ≡ A.exchange.bank.amount_of s.0 a d
  pub amount_of-slashing_init :
      (g : _) (s : A.exchange.bank.State × A.Others) (a : Address) (d : String)
      → A.exchange.bank.amount_of (A.slashing_init_genesis g s).1.0 a d
        ≡ A.exchange.bank.amount_of s.0 a d
  pub amount_of-gov_init :
      (s : A.exchange.bank.State × A.Others) (a : Address) (d : String)
      → A.exchange.bank.amount_of (A.gov_init_genesis s).1.0 a d ≡ A.exchange.bank.amount_of s.0 a d

module _ (A : AppEnv) (L : IsLawful A) where
  abbrev pub of_exchange : Stores A → World A.exchange
  of_exchange s = record { bank = s.bank; store = s.exchange }

  amount_of-load_accounts :
      (accs : List GenesisAccount) (b : A.exchange.bank.State) (a : Address) (d : String)
      → A.exchange.bank.amount_of (load_accounts A accs b) a d
        ≡ held accs a d (A.exchange.bank.amount_of b a d)
  unfolding load_accounts
  amount_of-load_accounts [] b a d = refl
  amount_of-load_accounts (acc ∷ accs) b a d =
      let (number, b') = A.get_next_account_number b in
      let loaded = record (to_account A.staking A.pool_ops acc) { account_number = number } in
      let rest = amount_of-load_accounts accs (A.set_account loaded b') a d in
      let put = L.amount_of-set_account loaded b' a d in
      elim (Bool-cases (str_eq a acc.address)) [
        | inl same ↦
            rw same (rest ∙ ap (held accs a d) (rw same at put ∙ L.amount_in-sort acc.coins d))
        | inr other ↦
            rw other (rest ∙ ap (held accs a d) (rw other at put ∙ L.amount_of-get_next b a d))
      ]

  store_next :
      (st : A.exchange.store.State) (bz : A.exchange.store.Bytes) (d : String)
      → IsFresh A.exchange L.exchange st
      → locked_store A.exchange d (A.exchange.store.set st key_next_order_id bz) ≡ pos 0
  store_next st bz d h = ap (locked_entries A.exchange d) (
      L.exchange.store.iterate-set_other st key_next_order_id bz order_book_subspace refl
      ∙ h.nothing_visited)

  -- The state that is exported.
  abbrev pub exported : Stores A → ℤ → GenesisState A.staking A.pool_ops
  exported w n = record {
    accounts = map new_genesis_account_i (A.accounts w.bank);
    stake_data = A.stake_write_genesis (w.bank, w.others);
    exchange_data = record { starting_order_id = n };
  }

  export_lem :
      (w : Stores A) (n : ℤ)
      → IsNext A.exchange L.exchange (of_exchange w) n
      → (export_app_state_and_validators A w).0
        ≡ ok (some (L.state_json (exported w n), A.stake_write_validators (w.bank, w.others)))
  unfolding export_app_state_and_validators write_genesis
  export_lem w n e =
      rw
        (
          get_new_order_id-IsNext A.exchange L.exchange (of_exchange w) n e,
          L.marshal_state_lem (exported w n),
        )
        refl

  -- The initialisations of staking, slashing and gov, one after the other, accept a genesis state.
  pub record ModulesStart (g : GenesisState A.staking A.pool_ops) (first : Stores A)
      (us : A.Validators) : Type 0 where
    pub staked : A.exchange.bank.State × A.Others
    pub slashed : A.exchange.bank.State × A.Others
    pub last : A.exchange.bank.State × A.Others
    pub stake :
        A.stake_init_genesis g.stake_data (load_accounts A g.accounts first.bank, first.others)
        ≡ (some us, staked)
    pub slashing : A.slashing_init_genesis g.stake_data staked ≡ (some tt, slashed)
    pub gov : A.gov_init_genesis slashed ≡ (some tt, last)

  -- The chain `v` holds the coins in the accounts of `w` and goes on from its next order id `n`,
  -- but it has no order books, and nothing is locked in it.
  pub record IsRestarted (w v : Stores A) (n : ℤ) : Type 0 where
    pub amounts :
        (a : Address) (d : String)
        → A.exchange.bank.amount_of v.bank a d ≡ A.exchange.bank.amount_of w.bank a d
    pub next : IsNext A.exchange L.exchange (of_exchange v) n
    pub no_books :
        (k : String)
        → starts_with k order_book_subspace ≡ true
        → A.exchange.store.get v.exchange k ≡ none
    pub nothing_locked : (d : String) → locked_store A.exchange d v.exchange ≡ pos 0

  -- No book is stored with the next order id.
  no_book_next :
      (st : A.exchange.store.State) (bz : A.exchange.store.Bytes) (k : String)
      → IsFresh A.exchange L.exchange st
      → starts_with k order_book_subspace ≡ true
      → A.exchange.store.get (A.exchange.store.set st key_next_order_id bz) k ≡ none
  no_book_next st bz k h book =
      let put = L.exchange.store.get-set st key_next_order_id bz k in
      elim (Bool-cases (str_eq key_next_order_id k)) [
        | inl same ↦
            let clash =
              ap (λ s. starts_with s order_book_subspace) ((eq_iff key_next_order_id k).0 same) in
            let wrong : false ≡ true = clash ∙ book in cc wrong
        | inr other ↦ rw other at put ∙ h.nothing k
      ]

  restart :
      (w first : Stores A) (n : ℤ) (us : A.Validators)
      → IsFresh A.exchange L.exchange first.exchange
      → ((a : Address) (d : String) → A.exchange.bank.amount_of first.bank a d ≡ pos 0)
      → ModulesStart (exported w n) first us
      → (v : Stores A) × (init_chainer A (L.state_json (exported w n)) first ≡ (ok us, v))
        × IsRestarted w v n
  unfolding init_chainer init_state start_modules init_genesis
  restart w first n us fresh empty m =
      let g = exported w n in
      let loaded = load_accounts A g.accounts first.bank in
      let core : A.exchange.bank.State × A.Others = (loaded, first.others) in
      let ready : World A.exchange = record { bank = m.last.0; store = first.exchange } in
      (
        record first {
          bank = m.last.0;
          others = m.last.1;
          exchange = (with_next A.exchange L.exchange ready n).store;
        },
        rw
            (
              L.unmarshal_state_lem g,
              m.stake,
              m.slashing,
              m.gov,
              set_initial_order_id_unset A.exchange L.exchange ready n
                  (fresh.nothing key_next_order_id),
            )
            refl,
        record {
          amounts = λ a d.
              sym (ap (λ r. A.exchange.bank.amount_of r.1.0 a d) m.gov)
              ∙ L.amount_of-gov_init m.slashed a d
              ∙ sym (ap (λ r. A.exchange.bank.amount_of r.1.0 a d) m.slashing)
              ∙ L.amount_of-slashing_init g.stake_data m.staked a d
              ∙ sym (ap (λ r. A.exchange.bank.amount_of r.1.0 a d) m.stake)
              ∙ L.amount_of-stake_init g.stake_data core a d
              ∙ amount_of-load_accounts g.accounts first.bank a d
              ∙ ap (held g.accounts a d) (empty a d)
              ∙ L.accounts_lem w.bank a d;
          next = with_next-IsNext A.exchange L.exchange ready n;
          no_books = λ k book. no_book_next first.exchange (L.exchange.ids.encode n) k fresh book;
          nothing_locked = λ d. store_next first.exchange (L.exchange.ids.encode n) d fresh;
        },
      )

  -- For a chain with a next order id, and a fresh one without coins whose staking, slashing and gov
  -- modules accept the state that the first one exports: the export of the first one ends with that
  -- state, the second one starts from it without a panic, holds in every account what the first one
  -- holds, and goes on from the same order id; but no order book is stored in it, and nothing is
  -- locked.
  pub export-init_chainer :
      (w first : Stores A) (n : ℤ) (us : A.Validators)
      → IsNext A.exchange L.exchange (of_exchange w) n
      → IsFresh A.exchange L.exchange first.exchange
      → ((a : Address) (d : String) → A.exchange.bank.amount_of first.bank a d ≡ pos 0)
      → ModulesStart (exported w n) first us
      → (json : A.StateJson) × (vs : A.Validators) × (v : Stores A)
        × ((export_app_state_and_validators A w).0 ≡ ok (some (json, vs)))
        × (init_chainer A json first ≡ (ok us, v))
        × IsRestarted w v n
  export-init_chainer w first n us e fresh empty m =
      let (v, ended, restarted) = restart w first n us fresh empty m in
      (_, _, v, export_lem w n e, ended, restarted)
