-- ===== src/Exchange/Fill/Laws.antt =====
-- What `DoesFill` answers, against prices and amounts as integers.
use thorchain_v.Base.{◌≡◌, ◌≢◌, ◌↔◌, ◌⊎◌, Bool, ◌==◌, if◌then◌else◌, arith, eq_iff}
use thorchain_v.Base.Int.{ℤ, leb_ℤ, leb_ℤ_iff}
use thorchain_v.Sdk.Types.{Coin}
use thorchain_v.Sdk.Coins.{CoinOps, IsLawful}
use thorchain_v.Sdk.Keeper.{ok, panic}
use thorchain_v.Exchange.Orders.{OrderKind, LimitOrder, buy_order}
use thorchain_v.Exchange.Fill.{does_fill}

-- The stored order is of the other kind, over the same two denoms.
pub record IsMatch (lo : LimitOrder) (kind : OrderKind) (amount price : Coin) : Type 0 where
  pub same_amount_denom : lo.amount.denom ≡ amount.denom
  pub same_price_denom : lo.price.denom ≡ price.denom
  pub other_kind : lo.kind ≢ kind

-- A buyer pays no more than the limit, a seller gets no less.
abbrev pub crosses : OrderKind → ℤ → ℤ → Bool
crosses kind limit stored = if kind == buy_order then leb_ℤ stored limit else leb_ℤ limit stored

-- The smaller of what is stored and what is wanted.
abbrev pub smaller : Coin → Coin → Coin
smaller stored wanted = if leb_ℤ stored.amount wanted.amount then stored else wanted

module _ (C : CoinOps) (L : IsLawful C) (lo : LimitOrder) (kind : OrderKind)
    (amount price : Coin) where
  -- A stored order of the other kind over the same denoms never makes `DoesFill` panic: it answers
  -- whether the two prices cross, the smaller of the two amounts, and the stored order's price.
  pub does_fill_lem :
      IsMatch lo kind amount price
      → does_fill C lo kind amount price
        ≡ ok (crosses kind price.amount lo.price.amount, smaller lo.amount amount, lo.price)
  unfolding does_fill
  does_fill_lem m = ground (
    arith,
    eq_iff lo.amount.denom amount.denom,
    eq_iff lo.price.denom price.denom,
    L.is_gte_iff amount lo.amount,
    L.is_gte_iff price lo.price,
    L.is_gte_iff lo.price price,
    leb_ℤ_iff lo.amount.amount amount.amount,
    leb_ℤ_iff lo.price.amount price.amount,
    leb_ℤ_iff price.amount lo.price.amount,
  )

  -- `DoesFill` panics exactly when one of the denoms differs or the kinds agree.
  does_fill_panics :
      (does_fill C lo kind amount price ≡ panic)
      ↔ ((lo.amount.denom ≢ amount.denom) ⊎ (lo.price.denom ≢ price.denom) ⊎ (lo.kind ≡ kind))
  unfolding does_fill
  does_fill_panics = (
    λ h. ground (arith, eq_iff lo.amount.denom amount.denom, eq_iff lo.price.denom price.denom),
    λ h. ground (arith, eq_iff lo.amount.denom amount.denom, eq_iff lo.price.denom price.denom),
  )
