-- ===== src/App/Genesis/Supply.antt =====
-- What the genesis state of app/genesis.go holds: coins, tokens, validators and delegations.
use Prim.Native.String.{len, count}
use text.Mathlib.TextLemmas.{length-append}
use mathlib.Core.List.{head-eq_of_cons-eq, tail-eq_of_cons-eq, append_assoc, append-nil, map-append}
use thorchain_v.Base.{
  ◌≡◌, ◌≢◌, ◌∙◌, refl, sym, ap, subst, inl, inr, String, ◌<>◌, true, false, some, List, [], ◌∷◌,
  ◌++◌, map, ltb, if◌then◌else◌, arith, All, str_eq, eq_iff, Bool-cases,
}
use thorchain_v.Base.Int.{ℤ, pos, ◌+ℤ◌, int_laws}
use thorchain_v.Sdk.Types.{Address, Coin}
use thorchain_v.App.Staking.{Staking, ThorchainGenTx, Delegation, StakeGenesis, PoolOps, IsLawful}
use thorchain_v.App.Genesis.{
  GenesisAccount, made, add_gen_tx, add_gen_txs, add_validator, free_fermion_val, free_fermions_acc,
  increase_supply, with_validator, new_genesis_account, account_of,
}

abbrev pub amount_in : String → List Coin → ℤ
amount_in d [] = pos 0
amount_in d (c ∷ cs) =
    let rest = amount_in d cs in if str_eq d c.denom then c.amount +ℤ rest else rest

-- The base coins of all genesis accounts.
abbrev pub runes : List GenesisAccount → ℤ
runes [] = pos 0
runes (a ∷ more) = amount_in "RUNE" a.coins +ℤ runes more

-- The addresses that become validators: those with a name.
abbrev pub validator_addresses : List ThorchainGenTx → List Address
validator_addresses [] = []
validator_addresses (g ∷ gs) =
    let rest = validator_addresses gs in if ltb 0 (len g.name) then g.address ∷ rest else rest

abbrev pub bonded : List ThorchainGenTx → ℤ
bonded [] = pos 0
bonded (g ∷ gs) = let rest = bonded gs in if ltb 0 (len g.name) then pos 100 +ℤ rest else rest

named_token : (name : String) → name <> "Token" ≢ "RUNE"
named_token name e =
    let long = length-append name "Token" in
    let short : count (name <> "Token") ≡ count "RUNE" = ap count e in
    absurd (omega (arith, long, short))

validator_addresses-cons :
    (g : ThorchainGenTx) (gs : List ThorchainGenTx)
    → validator_addresses (g ∷ []) ++ validator_addresses gs ≡ validator_addresses (g ∷ gs)
validator_addresses-cons g gs = elim (Bool-cases (ltb 0 (len g.name))) [
  | inl named ↦ rw named refl
  | inr unnamed ↦ rw unnamed refl
]

bonded-cons :
    (g : ThorchainGenTx) (gs : List ThorchainGenTx) → bonded (g ∷ []) +ℤ bonded gs ≡ bonded (g ∷ gs)
bonded-cons g gs = elim (Bool-cases (ltb 0 (len g.name))) [
  | inl named ↦ rw named (omega int_laws)
  | inr unnamed ↦ rw unnamed (omega int_laws)
]

module _ (S : Staking) (P : PoolOps S) (L : IsLawful S P) where
  -- A key that can be decoded, where one is needed.
  abbrev pub IsReadable : ThorchainGenTx → Type 0
  IsReadable g = ltb 0 (len g.name) ≡ true → (k : S.PubKey) × (S.get_acc_pub_key g.pub_key ≡ some k)

  abbrev ends : Delegation S → Address × Address
  ends b = (b.delegator_addr, b.validator_addr)

  abbrev self : Address → Address × Address
  self a = (a, a)

  -- The token supply has grown by `n`, and these validators have come with delegations to
  -- themselves.
  pub record Grows (s t : StakeGenesis S) (n : ℤ) (owners : List Address) : Type 0 where
    pub supply : L.token_supply t.pool ≡ S.add (L.token_supply s.pool) (S.new_rat n)
    pub validators : map S.owner t.validators ≡ map S.owner s.validators ++ owners
    pub delegators : map ends t.bonds ≡ map ends s.bonds ++ map self owners

  Grows-increase : (s : StakeGenesis S) (n : ℤ) → Grows s (increase_supply S P n s) n []
  Grows-increase s n = record {
    supply = L.token_supply-add s.pool (S.new_rat n);
    validators = sym (append-nil _);
    delegators = sym (append-nil _);
  }

  Grows-trans :
      (s t u : StakeGenesis S) (m n : ℤ) (xs ys : List Address)
      → Grows s t m xs
      → Grows t u n ys
      → Grows s u (m +ℤ n) (xs ++ ys)
  Grows-trans s t u m n xs ys h k = record {
    supply =
        k.supply
        ∙ ap (λ r. S.add r (S.new_rat n)) h.supply
        ∙ L.add_assoc _ _ _
        ∙ ap (λ r. S.add (L.token_supply s.pool) r) (L.add-new_rat m n);
    validators = k.validators ∙ ap (λ l. l ++ ys) h.validators ∙ append_assoc _ xs ys;
    delegators =
        k.delegators
        ∙ ap (λ l. l ++ map self ys) h.delegators
        ∙ append_assoc _ (map self xs) (map self ys)
        ∙ ap (λ l. map ends s.bonds ++ l) (sym (map-append self xs ys));
  }

  add_validator-Grows :
      (g : ThorchainGenTx) (s : StakeGenesis S) (k : S.PubKey)
      → S.get_acc_pub_key g.pub_key ≡ some k
      → (t : StakeGenesis S) × (add_validator S P g s ≡ made t)
        × Grows s t free_fermion_val (g.address ∷ [])
  unfolding add_validator
  add_validator-Grows g s k e =
      let v = S.new_validator g.address k g.name in
      let increased = increase_supply S P free_fermion_val s in
      let mine =
        L.owner-delegate v increased.pool free_fermion_val
        ∙ L.owner-new_validator g.address k g.name in
      (
        with_validator S P g k s,
        rw e refl,
        record {
          supply =
              L.token_supply-delegate v increased.pool free_fermion_val
              ∙ L.token_supply-add s.pool (S.new_rat free_fermion_val);
          validators =
              map-append S.owner s.validators _ ∙ ap (λ a. map S.owner s.validators ++ a ∷ []) mine;
          delegators = map-append ends s.bonds _ ∙ ap (λ a. map ends s.bonds ++ (a, a) ∷ []) mine;
        },
      )

  add_gen_tx-Grows :
      (g : ThorchainGenTx) (s : StakeGenesis S)
      → IsReadable g
      → (t : StakeGenesis S) × (add_gen_tx S P g s ≡ made t)
        × Grows s t (free_fermions_acc +ℤ bonded (g ∷ [])) (validator_addresses (g ∷ []))
  unfolding add_gen_tx ◌+ℤ◌
  add_gen_tx-Grows g s h = elim (Bool-cases (ltb 0 (len g.name))) [
    | inl named ↦
        let first = Grows-increase s free_fermions_acc in
        let increased = increase_supply S P free_fermions_acc s in
        let (k, e) = h named in
        let (t, e', second) = add_validator-Grows g increased k e in
        rw named
          (t, e', Grows-trans s increased t free_fermions_acc free_fermion_val [] _ first second)
    | inr unnamed ↦
        rw unnamed
          (increase_supply S P free_fermions_acc s, refl, Grows-increase s free_fermions_acc)
  ]

  funds :
      (g : ThorchainGenTx) (gs : List ThorchainGenTx) (accounts : List GenesisAccount)
      → free_fermions_acc +ℤ bonded (g ∷ []) +ℤ (runes accounts +ℤ bonded gs)
        ≡ runes (new_genesis_account (account_of S P g) ∷ accounts) +ℤ bonded (g ∷ gs)
  funds g gs accounts =
      let token : str_eq "RUNE" (g.name <> "Token") ≡ false =
        ground (arith, eq_iff "RUNE" (g.name <> "Token"), named_token g.name) in
      rw (token, ← bonded-cons g gs) (omega int_laws)

  -- What the accounts and the staking state hold after the loop.
  pub record IsFunded (gs : List ThorchainGenTx) (accounts : List GenesisAccount)
      (s t : StakeGenesis S) : Type 0 where
    pub addresses : map (λ a. a.address) accounts ≡ map (λ g. g.address) gs
    pub grown : Grows s t (runes accounts +ℤ bonded gs) (validator_addresses gs)

  pub add_gen_txs-IsFunded :
      (js : List S.Json) (gs : List ThorchainGenTx) (s : StakeGenesis S)
      → map S.unmarshal_gen_tx js ≡ map some gs
      → All IsReadable gs
      → (accounts : List GenesisAccount) × (t : StakeGenesis S) × (add_gen_txs S P js s
          ≡ made (accounts, t))
        × IsFunded gs accounts s t
  unfolding add_gen_txs ◌+ℤ◌
  add_gen_txs-IsFunded [] [] s e h = (
    [],
    s,
    refl,
    record {
      addresses = refl;
      grown = record {
        supply = sym (L.add-zero _);
        validators = sym (append-nil _);
        delegators = sym (append-nil _);
      };
    },
  )
  add_gen_txs-IsFunded [] (g ∷ gs) s e h = cc
  add_gen_txs-IsFunded (j ∷ js) [] s e h = cc
  add_gen_txs-IsFunded (j ∷ js) (g ∷ gs) s e h =
      let read : S.unmarshal_gen_tx j ≡ some g = head-eq_of_cons-eq e in
      let (t, added, first) = add_gen_tx-Grows g s h.0 in
      let (accounts, u, looped, rest) = add_gen_txs-IsFunded js gs t (tail-eq_of_cons-eq e) h.1 in
      (
        new_genesis_account (account_of S P g) ∷ accounts,
        u,
        rw (read, added, looped) refl,
        record {
          addresses = ap (λ l. g.address ∷ l) rest.addresses;
          grown =
              subst (λ n. Grows s u n (validator_addresses (g ∷ gs))) (funds g gs accounts)
                (subst (Grows s u _) (validator_addresses-cons g gs)
                  (Grows-trans s t u _ _ _ _ first rest.grown));
        },
      )
