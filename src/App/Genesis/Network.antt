-- ===== src/App/Genesis/Network.antt =====
-- The genesis state of a network whose nodes have each made a genesis transaction.
use thorchain_v.Base.{◌≡◌, ◌≢◌, refl, sym, String, some, List, [], ◌∷◌, map, All, ap, ◌∙◌}
use thorchain_v.Sdk.Types.{Address}
use thorchain_v.Exchange.Message.{default_genesis_state}
use thorchain_v.App.Staking.{Staking, ThorchainGenTx, PoolOps, IsLawful}
use thorchain_v.App.Genesis.{
  GenesisState, made, thorchain_app_gen_state, thorchain_app_gen_tx_nf, free_fermion_val,
}
use thorchain_v.App.Genesis.Supply.{IsFunded, IsReadable, add_gen_txs-IsFunded}

module _ (S : Staking) (P : PoolOps S) (L : IsLawful S P) where
  app_gen_state-IsFunded :
      (js : List S.Json) (gs : List ThorchainGenTx)
      → js ≢ []
      → map S.unmarshal_gen_tx js ≡ map some gs
      → All (IsReadable S P L) gs
      → (st : GenesisState S P) × (thorchain_app_gen_state S P js ≡ made st)
        × IsFunded S P L gs st.accounts P.default_genesis_state st.stake_data
  unfolding thorchain_app_gen_state
  app_gen_state-IsFunded [] gs n e h = absurd (n refl)
  app_gen_state-IsFunded (j ∷ js) gs n e h =
      let (accounts, t, looped, funded) =
        add_gen_txs-IsFunded S P L (j ∷ js) gs P.default_genesis_state e h in
      (
        record { accounts = accounts; stake_data = t; exchange_data = default_genesis_state },
        rw looped refl,
        funded,
      )

  -- A node, and the transaction that it has made.
  pub record Node : Type 0 where
    pub name : String
    pub address : Address
    pub pk : S.PubKey
    pub json : S.Json

  abbrev pub IsGenerated : Node → Type 0
  IsGenerated n =
      thorchain_app_gen_tx_nf S P n.pk n.address n.name ≡ made (n.json, n.pk, free_fermion_val)

  abbrev pub gen_tx_of : Node → ThorchainGenTx
  gen_tx_of n = record { name = n.name; address = n.address; pub_key = L.acc_pub_key n.pk }

  made-injective : {A : Type 0} {a b : A} → made a ≡ made b → a ≡ b
  made-injective e = cc e

  json_lem : (n : Node) → IsGenerated n → n.json ≡ L.gen_tx_json (gen_tx_of n)
  unfolding thorchain_app_gen_tx_nf
  json_lem n h =
      let known : thorchain_app_gen_tx_nf S P n.pk n.address n.name
          ≡ made (L.gen_tx_json (gen_tx_of n), n.pk, free_fermion_val) =
        rw (L.bech32ify_lem n.pk, L.marshal_gen_tx_lem (gen_tx_of n)) refl in
      ap (λ p. p.0) (made-injective (sym h ∙ known))

  unmarshal-json : (n : Node) → IsGenerated n → S.unmarshal_gen_tx n.json ≡ some (gen_tx_of n)
  unmarshal-json n h = ap S.unmarshal_gen_tx (json_lem n h) ∙ L.unmarshal_gen_tx_lem (gen_tx_of n)

  nodes-read :
      (ns : List Node)
      → All IsGenerated ns
      → map S.unmarshal_gen_tx (map (λ n. n.json) ns) ≡ map some (map gen_tx_of ns)
  nodes-read [] h = refl
  nodes-read (n ∷ ns) h = λ i. unmarshal-json n h.0 i ∷ nodes-read ns h.1 i

  nodes-IsReadable : (ns : List Node) → All (IsReadable S P L) (map gen_tx_of ns)
  nodes-IsReadable [] = tt
  nodes-IsReadable (n ∷ ns) = (λ named. (n.pk, L.get_acc_pub_key_lem n.pk), nodes-IsReadable ns)

  -- From the genesis transactions that some nodes have made, at least one, a genesis state is made.
  -- Its accounts are those of the nodes; each node with a name is a validator with one delegation,
  -- to itself, after those of the staking module's default state; and the token supply of the
  -- staking module exceeds the default one by the base coins of the accounts and 100 for each of
  -- these validators.
  pub network-IsFunded :
      (n : Node) (ns : List Node)
      → All IsGenerated (n ∷ ns)
      → (st : GenesisState S P) × (thorchain_app_gen_state S P (map (λ m. m.json) (n ∷ ns))
          ≡ made st)
        × IsFunded S P L (map gen_tx_of (n ∷ ns)) st.accounts P.default_genesis_state st.stake_data
  network-IsFunded n ns h =
      app_gen_state-IsFunded (map (λ m. m.json) (n ∷ ns)) (map gen_tx_of (n ∷ ns)) (λ e. cc e)
        (nodes-read (n ∷ ns) h) (nodes-IsReadable (n ∷ ns))
