-- ===== src/Spam/Messages/Draws.antt =====
-- The draws that a random limit order is made of.
use native.Mathlib.Nat.{div-mul-le_self, le-div_iff_mul-le}
use thorchain_v.Base.{
  ℕ, zero, suc, ◌/◌, ◌≤◌, ◌<◌, String, List, [], ◌∷◌, some, length, ◌≡◌, inl, inr, refl, All, arith,
}
use thorchain_v.Base.Chars.{IsNonempty}
use thorchain_v.Base.Int.{ℤ, pos, negsuc, ◌+ℤ◌, ◌*ℤ◌, ◌≤ℤ◌, ◌<ℤ◌, InInt64, *ℤ_parts, int_laws}
use thorchain_v.Sdk.Coins
use thorchain_v.Sdk.Types.{Coin}
use thorchain_v.Sdk.Keeper.{ok}
use thorchain_v.Spam.Random.{
  SpamEnv, IsLawful, IsLawfulList, Covers, nth, index, get_random_limit_order_denoms,
}
use thorchain_v.Spam.Messages.{random_price}

nth_lem :
    {A : Type 0} (P : A → Type 0) (xs : List A) (i : ℕ)
    → All P xs
    → i < length xs
    → (x : A) × (nth xs i ≡ ok x) × P x
nth_lem P [] i h k = absurd (omega arith)
nth_lem P (x ∷ xs) zero h k = (x, refl, h.0)
nth_lem P (x ∷ xs) (suc i) h k = nth_lem P xs i h.1 (omega arith)

length-nonempty : {A : Type 0} (xs : List A) → IsNonempty xs → 0 < length xs
length-nonempty [] h = absurd h
length-nonempty (x ∷ xs) h = omega arith

two_elements :
    {A : Type 0} (xs : List A)
    → length xs ≡ 2
    → (a : A) × (b : A) × (index xs (pos 0) ≡ ok a) × (index xs (pos 1) ≡ ok b)
two_elements [] h = absurd (omega arith)
two_elements (a ∷ []) h = absurd (omega arith)
two_elements (a ∷ b ∷ []) h = (a, b, refl, refl)
two_elements (a ∷ b ∷ c ∷ xs) h = absurd (omega arith)

index_lem :
    {A : Type 0} (P : A → Type 0) (xs : List A) (i : ℤ)
    → All P xs
    → pos 0 ≤ℤ i
    → i <ℤ pos (length xs)
    → (x : A) × (index xs i ≡ ok x) × P x
index_lem P xs (pos i) h k l = nth_lem P xs i h (omega arith)
index_lem P xs (negsuc i) h k l = absurd (omega arith)

pub int64_below : (p n : ℤ) → pos 0 <ℤ p → p ≤ℤ n → InInt64 n → InInt64 p
int64_below (pos p) (pos n) h k l = record { above = omega arith; below = omega (arith, l.below) }
int64_below (pos p) (negsuc n) h k l = absurd (omega arith)
int64_below (negsuc p) n h k l = absurd (omega arith)

pub Covers-InInt64 :
    (cs : List Coin) (d : String) (a : ℤ)
    → All (λ c. InInt64 c.amount) cs
    → pos 0 <ℤ a
    → Covers cs d a
    → InInt64 a
Covers-InInt64 [] d a h k l = absurd l
Covers-InInt64 (c ∷ cs) d a h k (inl at) = int64_below a c.amount k at.1 h.0
Covers-InInt64 (c ∷ cs) d a h k (inr later) = Covers-InInt64 cs d a h.1 k later

module _ (E : SpamEnv) (G : IsLawful E.generator) (C : Coins.IsLawful E.coins)
    (K : IsLawfulList E.lists) where
  pub get_random_limit_order_denoms_total :
      (pairs : List (List String)) (s : E.generator.Seed)
      → IsNonempty pairs
      → All (λ ds. length ds ≡ 2) pairs
      → (ds : String × String) × (t : E.generator.Seed) × (get_random_limit_order_denoms E pairs s
          ≡ (ok ds, t))
  unfolding get_random_limit_order_denoms
  get_random_limit_order_denoms_total pairs s h k =
      let some_pair = length-nonempty pairs h in
      let (i, t, e, low, high) = G.int63n_within (pos (length pairs)) s (omega arith) in
      let (ds, at, two) = index_lem (λ ds. length ds ≡ 2) pairs i k low high in
      let (a, b, first, second) = two_elements ds two in ((a, b), t, rw (e, at, first, second) refl)

  pub random_price_within :
      (total : ℤ) (s : E.generator.Seed)
      → pos 0 <ℤ total
      → InInt64 total
      → (p : ℤ) × (t : E.generator.Seed) × (random_price E total s ≡ (ok p, t))
        × (pos 0 <ℤ p)
        × (p ≤ℤ total)
  random_price_within total s h k =
      let fits = C.int64_total total k in
      let (r, t, e, low, high) = G.int63n_within total s h in
      (r +ℤ pos 1, t, rw (fits, e) refl, omega int_laws, omega int_laws)

  pub quotient_lem :
      (n p : ℤ)
      → pos 0 <ℤ p
      → p ≤ℤ n
      → (q : ℤ) × (E.lists.div n p ≡ some q) × (pos 0 <ℤ q) × (q *ℤ p ≤ℤ n)
  quotient_lem (pos n) (pos (suc p)) h k =
      let whole = div-mul-le_self n (suc p) in
      let once : 1 ≤ n / suc p =
        (le-div_iff_mul-le {k = suc p} {x = 1} {y = n} (omega arith)).1 (omega arith) in
      (
        pos (n / suc p),
        K.div_lem n p,
        omega (arith, once),
        omega (arith, whole, *ℤ_parts (pos (n / suc p)) (pos (suc p))),
      )
  quotient_lem (pos n) (pos zero) h k = absurd (omega arith)
  quotient_lem (pos n) (negsuc p) h k = absurd (omega arith)
  quotient_lem (negsuc n) p h k = absurd (omega arith)
