-- ===== src/Base/Int.antt =====
-- Signed integers over the native numbers, under the library's names, and the range of an `int64`.
use Prim.Native.Nat.{ℕ, suc, ◌+◌, ◌-◌, ◌*◌, ◌%◌, ◌^◌, ◌≤◌, ◌<◌}
use mathlib.Core.Path.{◌≡◌, refl, ap}
use mathlib.Core.Logic.{◌⊎◌, ◌↔◌}
use mathlib.Core.Bool.{Bool, true}
use native.Mathlib.Omega.{arith}
use native.Mathlib.Nat.{mul-le-mul_left}
use native.Mathlib.Decide.{ℕ_discrete}
use thorchain_v.Base.Tests.{ltb, leb, ◌==◌, if◌then◌else◌}

-- `negsuc n` is -(n + 1).
pub data ℤ : Type 0 where
  pos : ℕ → ℤ
  negsuc : ℕ → ℤ

abbrev pub pos_part : ℤ → ℕ
pos_part (pos n) = n
pos_part (negsuc n) = 0

abbrev pub neg_part : ℤ → ℕ
neg_part (pos n) = 0
neg_part (negsuc n) = suc n

-- a - b, as an integer.
abbrev pub sub_ℕ : ℕ → ℕ → ℤ
sub_ℕ a b = if leb b a then pos (a - b) else negsuc (b - a - 1)

infixl 65 ◌+ℤ◌ ◌-ℤ◌
infixl 70 ◌*ℤ◌
infix 50 ◌≤ℤ◌ ◌<ℤ◌
unfoldable pub ◌+ℤ◌ : ℤ → ℤ → ℤ
a +ℤ b = sub_ℕ (pos_part a + pos_part b) (neg_part a + neg_part b)

unfoldable pub ◌-ℤ◌ : ℤ → ℤ → ℤ
a -ℤ b = sub_ℕ (pos_part a + neg_part b) (neg_part a + pos_part b)

unfoldable pub ◌*ℤ◌ : ℤ → ℤ → ℤ
a *ℤ b =
    sub_ℕ (pos_part a * pos_part b + neg_part a * neg_part b)
      (pos_part a * neg_part b + neg_part a * pos_part b)

abbrev pub ◌≤ℤ◌ : ℤ → ℤ → Type 0
a ≤ℤ b = pos_part a + neg_part b ≤ pos_part b + neg_part a

abbrev pub ◌<ℤ◌ : ℤ → ℤ → Type 0
a <ℤ b = pos_part a + neg_part b < pos_part b + neg_part a

abbrev pub ltb_ℤ : ℤ → ℤ → Bool
ltb_ℤ a b = ltb (pos_part a + neg_part b) (pos_part b + neg_part a)

abbrev pub leb_ℤ : ℤ → ℤ → Bool
leb_ℤ a b = leb (pos_part a + neg_part b) (pos_part b + neg_part a)

abbrev pub eqb_ℤ : ℤ → ℤ → Bool
eqb_ℤ a b = pos_part a + neg_part b == pos_part b + neg_part a

pub ℤ-discrete : Discrete ℤ
ℤ-discrete = hlevel ℕ_discrete

-- One lemma for each operation lets `omega` work with the operations shut, at any depth.
pub +ℤ_parts :
    (a b : ℤ)
    → pos_part (a +ℤ b) + neg_part a + neg_part b ≡ neg_part (a +ℤ b) + pos_part a + pos_part b
unfolding ◌+ℤ◌
+ℤ_parts a b = ground arith

pub -ℤ_parts :
    (a b : ℤ)
    → pos_part (a -ℤ b) + neg_part a + pos_part b ≡ neg_part (a -ℤ b) + pos_part a + neg_part b
unfolding ◌-ℤ◌
-ℤ_parts a b = ground arith

pub eq_of_parts : (a b : ℤ) → pos_part a + neg_part b ≡ pos_part b + neg_part a → a ≡ b
eq_of_parts a b h = ground arith

pub parts : {a b : ℤ} → a ≡ b → pos_part a + neg_part b ≡ pos_part b + neg_part a
parts {b} e = rw e refl

pub ruleset int_laws = (arith, +ℤ_parts, -ℤ_parts, eq_of_parts)

pub ≤ℤ_total : (a b : ℤ) → (a ≤ℤ b) ⊎ (b <ℤ a)
≤ℤ_total a b = omega arith

pub leb_ℤ_iff : (a b : ℤ) → (leb_ℤ a b ≡ true) ↔ (a ≤ℤ b)
leb_ℤ_iff a b = ground arith

pub ltb_ℤ_iff : (a b : ℤ) → (ltb_ℤ a b ≡ true) ↔ (a <ℤ b)
ltb_ℤ_iff a b = ground arith

pub eqb_ℤ_iff : (a b : ℤ) → (eqb_ℤ a b ≡ true) ↔ (a ≡ b)
eqb_ℤ_iff a b = ground arith

pub *ℤ_parts :
    (a b : ℤ)
    → pos_part (a *ℤ b) + (pos_part a * neg_part b + neg_part a * pos_part b)
      ≡ neg_part (a *ℤ b) + (pos_part a * pos_part b + neg_part a * neg_part b)
unfolding ◌*ℤ◌
*ℤ_parts a b = ground arith

-- A product distributes over a difference.
pub *ℤ-sub : (a b p : ℤ) → (a -ℤ b) *ℤ p ≡ a *ℤ p -ℤ b *ℤ p
*ℤ-sub a b p = eq_of_parts _ _ (
    omega (
      arith,
      -ℤ_parts (a *ℤ p) (b *ℤ p),
      *ℤ_parts (a -ℤ b) p,
      *ℤ_parts a p,
      *ℤ_parts b p,
      ap (λ t. t * pos_part p) (-ℤ_parts a b),
      ap (λ t. t * neg_part p) (-ℤ_parts a b),
    ))

pub *ℤ_pos : (a b : ℤ) → pos 0 <ℤ a → pos 0 <ℤ b → pos 0 <ℤ a *ℤ b
unfolding ◌*ℤ◌
*ℤ_pos a b h k = grind arith

pub *ℤ-zero : (p : ℤ) → pos 0 *ℤ p ≡ pos 0
unfolding ◌*ℤ◌
*ℤ-zero p = grind arith

pub +ℤ-ℤ : (a b : ℤ) → (a +ℤ b) -ℤ b ≡ a
+ℤ-ℤ a b = eq_of_parts _ _ (omega int_laws)

pub *ℤ_mono :
    (n m p : ℤ)
    → pos 0 ≤ℤ n
    → n ≤ℤ m
    → pos 0 ≤ℤ p
    → pos_part (n *ℤ p) + neg_part (n *ℤ p) ≤ pos_part (m *ℤ p) + neg_part (m *ℤ p)
unfolding ◌*ℤ◌
*ℤ_mono n m p h k l =
    let least : pos_part n ≤ pos_part m = ground arith in
    let products = mul-le-mul_left (pos_part p) least in grind (arith, products)

pub *ℤ_mono_right : (n a b : ℤ) → pos 0 ≤ℤ n → pos 0 ≤ℤ a → a ≤ℤ b → n *ℤ a ≤ℤ n *ℤ b
unfolding ◌*ℤ◌
*ℤ_mono_right n a b h k l =
    let least : pos_part a ≤ pos_part b = ground arith in
    let products = mul-le-mul_left (pos_part n) least in grind (arith, products)

pub *ℤ_nonneg : (a b : ℤ) → pos 0 ≤ℤ a → pos 0 ≤ℤ b → pos 0 ≤ℤ a *ℤ b
unfolding ◌*ℤ◌
*ℤ_nonneg a b h k = grind arith

-- Conversion to `int64`, which wraps.
unfoldable pub to_int64 : ℤ → ℤ
to_int64 (pos n) = let m = n % 2 ^ 64 in if ltb m (2 ^ 63) then pos m else negsuc (2 ^ 64 - m - 1)
to_int64 (negsuc n) =
    let m = n % 2 ^ 64 in if ltb m (2 ^ 63) then negsuc m else pos (2 ^ 64 - m - 1)

pub record InInt64 (a : ℤ) : Type 0 where
  pub above : neg_part a ≤ 2 ^ 63
  pub below : pos_part a < 2 ^ 63

pub to_int64_self : (a : ℤ) → InInt64 a → to_int64 a ≡ a
unfolding to_int64
to_int64_self a h = ground arith

pub to_int64-InInt64 : (a : ℤ) → InInt64 (to_int64 a)
unfolding to_int64
to_int64-InInt64 a = ground arith
