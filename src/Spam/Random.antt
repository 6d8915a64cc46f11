-- ===== src/Spam/Random.antt =====
-- The random choices of cmd/thorchainspam/txs/send.go. The generator of math/rand is a parameter:
-- its state is passed on, and a call that Go refuses is a panic.
pub mod Bounds
use thorchain_v.Base.{
  ℕ, zero, suc, ◌/◌, String, Bool, true, false, not, ◌&&◌, List, [], ◌∷◌, ◌==◌, ◌≡◌, ◌⊎◌,
  if◌then◌else◌, str_eq, Option, none, some, length,
}
use thorchain_v.Base.Int.{ℤ, pos, negsuc, ltb_ℤ, leb_ℤ, eqb_ℤ, sub_ℕ, ◌≤ℤ◌, ◌<ℤ◌}
use thorchain_v.Sdk.Types.{Coin, Address}
use thorchain_v.Sdk.Coins.{CoinOps}
use thorchain_v.Sdk.Keeper.{Keeper, Outcome, ok, panic, ◌>>=◌, pure, lift}

-- `rand.Int63n(n)`, also for `rand.Intn(n)`, and `rand.Float32() < 0.5` and `< 0.99`, of one draw.
pub record Generator : Type 1 where
  pub Seed : Type 0
  pub int63n : ℤ → Keeper Seed ℤ
  pub Float : Type 0
  pub float32 : Seed → Float × Seed
  pub below_half : Float → Bool
  pub below_most : Float → Bool

pub record IsLawful (G : Generator) : Type 0 where
  pub int63n_within :
      (n : ℤ) (s : G.Seed)
      → pos 0 <ℤ n
      → (k : ℤ) × (t : G.Seed) × (G.int63n n s ≡ (ok k, t)) × (pos 0 ≤ℤ k) × (k <ℤ n)

-- The methods of `sdk.Coins`, and the parts of `sdk.Int` and `sdk.Coin`, that the tool calls.
pub record ListOps : Type 0 where
  -- `Coins.AmountOf`, `Coins.Minus`, `Coins.IsNotNegative`, `Coins.IsZero`, `Coins.IsGTE`
  pub amount_of : List Coin → String → ℤ
  pub minus : List Coin → List Coin → List Coin
  pub is_not_negative : List Coin → Bool
  pub is_zero : List Coin → Bool
  pub is_gte : List Coin → List Coin → Bool
  -- `Int.Div`, a panic at zero, and `Int.MulRaw`, a panic out of range
  pub div : ℤ → ℤ → Option ℤ
  pub mul_raw : ℤ → ℤ → Option ℤ
  -- `sdk.NewCoin`
  pub new_coin : String → ℤ → Coin

-- Some coin of the list has this denomination and at least this amount.
abbrev pub Covers : List Coin → String → ℤ → Type 0
Covers [] d a = ⊥
Covers (c ∷ cs) d a = ((c.denom ≡ d) × (a ≤ℤ c.amount)) ⊎ Covers cs d a

-- Some coin of the list has this denomination and this amount.
abbrev pub Finds : List Coin → String → ℤ → Type 0
Finds [] d a = ⊥
Finds (c ∷ cs) d a = ((c.denom ≡ d) × (c.amount ≡ a)) ⊎ Finds cs d a

pub record IsLawfulList (K : ListOps) : Type 0 where
  pub amount_of-Finds :
      (cs : List Coin) (d : String) → (K.amount_of cs d ≡ pos 0) ⊎ Finds cs d (K.amount_of cs d)
  pub div_lem : (a b : ℕ) → K.div (pos a) (pos (suc b)) ≡ some (pos (a / suc b))
  pub new_coin_lem :
      (d : String) (a : ℤ) → pos 0 ≤ℤ a → K.new_coin d a ≡ record { denom = d; amount = a }

pub record SpamEnv : Type 1 where
  pub generator : Generator
  pub coins : CoinOps
  pub lists : ListOps
  -- `client.BuildMsg` of the bank module
  pub SendMsg : Type 0
  pub build_msg : Address → Address → List Coin → SendMsg

-- `a / d` on `int64`, for a positive divisor: it rounds to zero.
abbrev pub div_int64 : ℤ → ℕ → ℤ
div_int64 (pos a) d = pos (a / d)
div_int64 (negsuc a) d = sub_ℕ 0 (suc a / d)

abbrev pub or_panic : {A : Type 0} → Option A → Outcome A
or_panic none = panic
or_panic (some a) = ok a

abbrev pub nth : {A : Type 0} → List A → ℕ → Outcome A
nth [] i = panic
nth (x ∷ xs) zero = ok x
nth (x ∷ xs) (suc i) = nth xs i

-- A slice at an index, a panic out of range.
abbrev pub index : {A : Type 0} → List A → ℤ → Outcome A
index xs (pos i) = nth xs i
index xs (negsuc i) = panic

abbrev at_least_one : ℤ → ℤ → ℤ
at_least_one amount drawn = if eqb_ℤ drawn (pos 0) && leb_ℤ (pos 1) amount then pos 1 else drawn

abbrev add_coin : String → ℤ → List Coin → List Coin
add_coin denom amount rest =
    if ltb_ℤ (pos 0) amount then record { denom = denom; amount = amount } ∷ rest else rest

module _ (E : SpamEnv) where
  abbrev pub Random : Type 0 → Type 0
  Random A = Keeper E.generator.Seed A

  abbrev pub int64_or_panic : ℤ → Random ℤ
  int64_or_panic a = lift (or_panic (E.coins.int64 a))

  -- The draw for one coin, before and after it is raised to 1.
  abbrev draw_amount : ℤ → ℕ → Random ℤ
  draw_amount amount divide_by =
      let most = div_int64 amount divide_by in
      if ltb_ℤ (pos 0) most then E.generator.int63n most else pure (pos 0)

  unfoldable pub get_random_coins_up_to : List Coin → ℕ → Random (List Coin)
  get_random_coins_up_to [] divide_by = pure []
  get_random_coins_up_to (coin ∷ coins) divide_by = do
    amount ← int64_or_panic coin.amount
    drawn ← draw_amount amount divide_by
    rest ← get_random_coins_up_to coins divide_by
    pure (add_coin coin.denom (at_least_one amount drawn) rest)

  -- `xs[rand.Intn(len(xs))]`
  abbrev choose : {A : Type 0} → List A → Random A
  choose xs = do i ← E.generator.int63n (pos (length xs)); lift (index xs i)

  unfoldable pub get_random_coin : List Coin → Random Coin
  get_random_coin coins = choose coins

  abbrev pub except : String → List String → List String
  except denom [] = []
  except denom (d ∷ ds) =
      let rest = except denom ds in if not (str_eq d denom) then d ∷ rest else rest

  -- `none` when no denomination is left.
  unfoldable pub get_random_clp_denom_except : List String → String → Random (Option String)
  get_random_clp_denom_except denoms except_denom =
      let valid_denoms = except except_denom denoms in
      if length valid_denoms == 0
      then pure none
      else (do denom ← choose valid_denoms; pure (some denom))

  unfoldable pub get_random_limit_order_denoms : List (List String) → Random (String × String)
  get_random_limit_order_denoms pairs = do
    random_pair ← choose pairs
    first ← lift (index random_pair (pos 0))
    second ← lift (index random_pair (pos 1))
    pure (first, second)
