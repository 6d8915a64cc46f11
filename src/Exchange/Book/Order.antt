-- ===== src/Exchange/Book/Order.antt =====
-- The order of an order book: by price, then by time of arrival.
use thorchain_v.Base.{
  ◌≡◌, refl, ap, true, List, [], ◌∷◌, ◌++◌, ◌↔◌, inl, inr, Bool-cases, ◌==◌, if◌then◌else◌, arith,
  All, All-insert, All-imp,
}
use thorchain_v.Base.Int.{ℤ, ◌<ℤ◌, ◌≤ℤ◌}
use thorchain_v.Sdk.Types.{Coin}
use thorchain_v.Sdk.Coins.{CoinOps, IsLawful}
use thorchain_v.Exchange.Orders.{OrderKind, LimitOrder, buy_order}
use thorchain_v.Exchange.Book.{should_insert_before}
use thorchain_v.Exchange.Book.Insert.{place}

-- In a buy book the higher price ranks before, in a sell book the lower one.
abbrev pub Beats : OrderKind → ℤ → ℤ → Type 0
Beats kind p q = if kind == buy_order then q <ℤ p else p <ℤ q

abbrev pub NotBeaten : OrderKind → ℤ → ℤ → Type 0
NotBeaten kind p q = if kind == buy_order then q ≤ℤ p else p ≤ℤ q

module _ (C : CoinOps) (L : IsLawful C) where
  pub should_insert_before_iff :
      (kind : OrderKind) (p q : Coin)
      → p.denom ≡ q.denom
      → (should_insert_before C kind p q ≡ true) ↔ Beats kind p.amount q.amount
  unfolding should_insert_before
  should_insert_before_iff kind p q e = (
    λ h. ground (arith, L.is_gte_iff p q, L.is_gte_iff q p),
    λ h. ground (arith, L.is_gte_iff p q, L.is_gte_iff q p),
  )

-- Every stored order is beaten by none that stands behind it.
abbrev pub IsSorted : OrderKind → List LimitOrder → Type 0
IsSorted kind [] = Unit
IsSorted kind (o ∷ os) =
    All (λ o'. NotBeaten kind o.price.amount o'.price.amount) os × IsSorted kind os

-- The new order `lo` stands behind all that it does not beat, and before all that it beats.
pub record IsPlaced (kind : OrderKind) (lo : LimitOrder) (old new : List LimitOrder) : Type 0 where
  pub front : List LimitOrder
  pub back : List LimitOrder
  pub old_split : old ≡ front ++ back
  pub new_split : new ≡ front ++ lo ∷ back
  pub front_first : All (λ o. NotBeaten kind o.price.amount lo.price.amount) front
  pub back_beaten : All (λ o. Beats kind lo.price.amount o.price.amount) back

Beats-NotBeaten :
    (kind : OrderKind) (p q r : ℤ) → Beats kind p q → NotBeaten kind q r → Beats kind p r
Beats-NotBeaten kind p q r h k = ground arith

NotBeaten-not_Beats : (kind : OrderKind) (p q : ℤ) → ¬ (Beats kind p q) → NotBeaten kind q p
NotBeaten-not_Beats kind p q h = ground arith

NotBeaten-Beats : (kind : OrderKind) (p q : ℤ) → Beats kind p q → NotBeaten kind p q
NotBeaten-Beats kind p q h = ground arith

All-Beats :
    (kind : OrderKind) (p q : ℤ) (os : List LimitOrder)
    → Beats kind p q
    → All (λ o. NotBeaten kind q o.price.amount) os
    → All (λ o. Beats kind p o.price.amount) os
All-Beats kind p q [] h k = tt
All-Beats kind p q (o ∷ os) h k =
    (Beats-NotBeaten kind p q o.price.amount h k.0, All-Beats kind p q os h k.1)

module _ (C : CoinOps) (L : IsLawful C) (kind : OrderKind) (lo : LimitOrder) where
  pub place-IsPlaced :
      (os : List LimitOrder)
      → All (λ o. lo.price.denom ≡ o.price.denom) os
      → IsSorted kind os
      → IsPlaced kind lo os (place C kind lo os)
  place-IsPlaced [] d s = record {
    front = [];
    back = [];
    old_split = refl;
    new_split = refl;
    front_first = tt;
    back_beaten = tt;
  }
  place-IsPlaced (o ∷ os) d s = elim (Bool-cases (should_insert_before C kind lo.price o.price)) [
    | inl here ↦
        let b = (should_insert_before_iff C L kind lo.price o.price d.0).0 here in
        record {
          front = [];
          back = o ∷ os;
          old_split = refl;
          new_split = rw here;
          front_first = tt;
          back_beaten = (b, All-Beats kind lo.price.amount o.price.amount os b s.0);
        }
    | inr later ↦
        let p = place-IsPlaced os d.1 s.1 in
        let nb : ¬ (Beats kind lo.price.amount o.price.amount) =
          λ b. cc (later, (should_insert_before_iff C L kind lo.price o.price d.0).1 b) in
        record {
          front = o ∷ p.front;
          back = p.back;
          old_split = ap (λ l. o ∷ l) p.old_split;
          new_split = rw later (ap (λ l. o ∷ l) p.new_split);
          front_first = (NotBeaten-not_Beats kind lo.price.amount o.price.amount nb, p.front_first);
          back_beaten = p.back_beaten;
        }
  ]

IsSorted-insert :
    (kind : OrderKind) (lo : LimitOrder) (l r : List LimitOrder)
    → All (λ o. NotBeaten kind o.price.amount lo.price.amount) l
    → All (λ o. Beats kind lo.price.amount o.price.amount) r
    → IsSorted kind (l ++ r)
    → IsSorted kind (l ++ lo ∷ r)
IsSorted-insert kind lo [] r hl hr s =
    (All-imp _ _ (λ o. NotBeaten-Beats kind lo.price.amount o.price.amount) r hr, s)
IsSorted-insert kind lo (o ∷ l) r hl hr s =
    (All-insert _ l r lo hl.0 s.0, IsSorted-insert kind lo l r hl.1 hr s.1)

pub IsPlaced-IsSorted :
    (kind : OrderKind) (lo : LimitOrder) (old new : List LimitOrder)
    → IsPlaced kind lo old new
    → IsSorted kind old
    → IsSorted kind new
IsPlaced-IsSorted kind lo old new p s =
    rw p.new_split
      (IsSorted-insert kind lo p.front p.back p.front_first p.back_beaten (rw p.old_split at s))
