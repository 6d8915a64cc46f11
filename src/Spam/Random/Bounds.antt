-- ===== src/Spam/Random/Bounds.antt =====
-- What the random choices can give, whatever the generator draws within its bounds.
use native.Mathlib.Nat.{div-le_self}
use thorchain_v.Base.{
  ℕ, String, true, List, [], ◌∷◌, ◌≡◌, ◌⊎◌, inl, inr, refl, All, Bool-cases, arith,
}
use thorchain_v.Base.Int.{ℤ, ≤ℤ_total, pos, negsuc, ltb_ℤ, ◌≤ℤ◌, ◌<ℤ◌, InInt64}
use thorchain_v.Sdk.Types.{Coin}
use thorchain_v.Sdk.Coins
use thorchain_v.Sdk.Keeper.{ok}
use thorchain_v.Spam.Random.{
  SpamEnv, IsLawful, Covers, Finds, div_int64, draw_amount, at_least_one, get_random_coins_up_to,
}

-- A random amount of a coin with a positive amount.
pub record IsShare (amount : ℤ) (divide_by : ℕ) (r : ℤ) : Type 0 where
  pub positive : pos 0 <ℤ r
  pub within : r ≤ℤ amount
  pub small : (r ≡ pos 1) ⊎ (r <ℤ div_int64 amount divide_by)

-- The random coins: one for each coin with a positive amount, in their order.
pub data Drawn (divide_by : ℕ) : List Coin → List Coin → Type 0 where
  empty : Drawn divide_by [] []
  dropped :
      {c : Coin} {cs ds : List Coin}
      → c.amount ≤ℤ pos 0
      → Drawn divide_by cs ds
      → Drawn divide_by (c ∷ cs) ds
  kept :
      {c : Coin} {cs ds : List Coin} (r : ℤ)
      → IsShare c.amount divide_by r
      → Drawn divide_by cs ds
      → Drawn divide_by (c ∷ cs) (record { denom = c.denom; amount = r } ∷ ds)

pub Drawn-Finds :
    {n : ℕ} {cs ds : List Coin}
    → Drawn n cs ds
    → (d : String) (a : ℤ) → Finds ds d a
    → (pos 0 <ℤ a) × Covers cs d a
Drawn-Finds empty d a h = absurd h
Drawn-Finds (dropped k rest) d a h = let (p, c) = Drawn-Finds rest d a h in (p, inr c)
Drawn-Finds (kept r share rest) d a (inl h) =
    (ground (arith, h, share.positive), inl (h.0, ground (arith, h, share.within)))
Drawn-Finds (kept r share rest) d a (inr h) = let (p, c) = Drawn-Finds rest d a h in (p, inr c)

div_int64-within : (a : ℤ) (d : ℕ) → (div_int64 a d ≤ℤ a) ⊎ (a <ℤ pos 0)
div_int64-within (pos a) d = let w = div-le_self a d in inl (omega arith)
div_int64-within (negsuc a) d = inr (omega arith)

div_int64-nonpositive : (a : ℤ) (d : ℕ) → a ≤ℤ pos 0 → div_int64 a d ≤ℤ pos 0
div_int64-nonpositive (pos a) d h = let w = div-le_self a d in omega arith
div_int64-nonpositive (negsuc a) d h = ground arith

-- The amount that is drawn, raised to 1: none for an amount that is not positive.
abbrev Raised : ℤ → ℕ → ℤ → Type 0
Raised amount divide_by r =
    ((amount ≤ℤ pos 0) × (r ≡ pos 0)) ⊎ ((pos 0 <ℤ amount) × IsShare amount divide_by r)

raised_lem :
    (amount k : ℤ) (d : ℕ)
    → (k ≡ pos 0) ⊎ ((pos 0 <ℤ div_int64 amount d) × (pos 0 ≤ℤ k) × (k <ℤ div_int64 amount d))
    → Raised amount d (at_least_one amount k)
raised_lem amount k d h =
    let w = div_int64-within amount d in
    let z = div_int64-nonpositive amount d in
    elim (≤ℤ_total amount (pos 0)) [
      | inl none_left ↦ inl (none_left, ground (arith, h, z none_left))
      | inr left ↦ inr (
        left,
        record {
          positive = ground (arith, h);
          within = ground (arith, h, w);
          small = ground (arith, h);
        },
      )
    ]

module _ (E : SpamEnv) (L : IsLawful E.generator) (C : Coins.IsLawful E.coins) where
  draw_lem :
      (amount : ℤ) (d : ℕ) (s : E.generator.Seed)
      → (k : ℤ) × (t : E.generator.Seed) × (draw_amount E amount d s ≡ (ok k, t))
        × Raised amount d (at_least_one amount k)
  draw_lem amount d s =
      let most = div_int64 amount d in
      elim (Bool-cases (ltb_ℤ (pos 0) most)) [
        | inl some_left ↦
            let (k, t, e, low, high) = L.int63n_within most s (ground (arith, some_left)) in
            (
              k,
              t,
              rw some_left e,
              raised_lem amount k d (inr (ground (arith, some_left), low, high)),
            )
        | inr other ↦ (pos 0, s, rw other refl, raised_lem amount (pos 0) d (inl refl))
      ]

  pub get_random_coins_up_to-Drawn :
      (coins : List Coin) (divide_by : ℕ) (s : E.generator.Seed)
      → All (λ c. InInt64 c.amount) coins
      → (ds : List Coin) × (t : E.generator.Seed) × (get_random_coins_up_to E coins divide_by s
          ≡ (ok ds, t))
        × Drawn divide_by coins ds
  unfolding get_random_coins_up_to
  get_random_coins_up_to-Drawn [] n s h = ([], s, refl, empty)
  get_random_coins_up_to-Drawn (c ∷ cs) n s h =
      let fits = C.int64_total c.amount h.0 in
      let (k, t, e, raised) = draw_lem c.amount n s in
      let (ds, u, e', rest) = get_random_coins_up_to-Drawn cs n t h.1 in
      elim raised [
        | inl nothing ↦ (ds, u, rw (fits, e, e', nothing.1) refl, dropped nothing.0 rest)
        | inr share ↦
            let many : ltb_ℤ (pos 0) (at_least_one c.amount k) ≡ true =
              ground (arith, share.1.positive) in
            (
              record { denom = c.denom; amount = at_least_one c.amount k } ∷ ds,
              u,
              rw (fits, e, e', many) refl,
              kept (at_least_one c.amount k) share.1 rest,
            )
      ]
