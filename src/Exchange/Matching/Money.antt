-- ===== src/Exchange/Matching/Money.antt =====
-- Coins are conserved by matching: what the accounts hold and what the exchange keeps locked for the
-- orders of the book, together.
use thorchain_v.Base.{
  ◌≡◌, refl, ap, ◌∙◌, Bool, true, false, Option, List, [], ◌∷◌, inl, inr, All, arith, String,
  Bool-cases, if◌then◌else◌, str_eq,
}
use thorchain_v.Base.Int.{ℤ, pos, ◌≤ℤ◌, ◌+ℤ◌, ◌*ℤ◌, int_laws, parts, *ℤ-sub, *ℤ_pos}
use thorchain_v.Sdk.Types.{Address, Coin, SdkError}
use thorchain_v.Exchange.Orders.{
  OrderKind, LimitOrder, FilledLimitOrder, buy_order, sell_order, IsKind,
}
use thorchain_v.Exchange.Book.Validity.{Fits}
use thorchain_v.Exchange.Env.{Env, IsLawful}
use thorchain_v.Exchange.Matching.{matching_kind}
use thorchain_v.Exchange.Matching.Spec.{
  locked, payment, release, rest, IsFilled, Run, exhausted, stopped, refused, next,
}

-- What is locked for the orders of a list, in one denom.
abbrev pub locked_orders : List LimitOrder → String → ℤ
locked_orders [] d = pos 0
locked_orders (o ∷ os) d = locked o d +ℤ locked_orders os d

abbrev pub in_denom : String → Coin → ℤ
in_denom d c = if str_eq d c.denom then c.amount else pos 0

abbrev quantity_of : LimitOrder → ℤ → Coin
quantity_of o n = record { denom = o.amount.denom; amount = n }

abbrev total_of : LimitOrder → ℤ → Coin
total_of o n = record { denom = o.price.denom; amount = n *ℤ o.price.amount }

-- What the incoming side gets is what the stored order no longer needs.
release-locked :
    (kind : OrderKind) (o : LimitOrder) (n : ℤ) (d : String)
    → IsKind kind
    → o.kind ≡ matching_kind kind
    → in_denom d (release kind (quantity_of o n) (total_of o n)) +ℤ locked (rest o n) d ≡ locked o d
release-locked kind o n d (inl buys) e =
    rw (buys, (let e' : o.kind ≡ sell_order = e ∙ ap matching_kind buys in e'))
      (elim (Bool-cases (str_eq d o.amount.denom)) [
        | inl same ↦ rw same (omega int_laws)
        | inr other ↦ rw other (omega int_laws)
      ])
release-locked kind o n d (inr sells) e =
    rw (sells, (let e' : o.kind ≡ buy_order = e ∙ ap matching_kind sells in e'))
      (elim (Bool-cases (str_eq d o.price.denom)) [
        | inl same ↦ rw (same, *ℤ-sub o.amount.amount n o.price.amount) (omega int_laws)
        | inr other ↦ rw other (omega int_laws)
      ])

add_in_denom :
    (here : Bool) (x a y z : ℤ)
    → (if here then a else pos 0) +ℤ y ≡ z
    → (if here then x +ℤ a else x) +ℤ y ≡ x +ℤ z
add_in_denom true x a y z e = omega (int_laws, parts e)
add_in_denom false x a y z e = omega (int_laws, parts e)

sides_nonneg :
    (kind : OrderKind) (o : LimitOrder) (n : ℤ)
    → pos 1 ≤ℤ n
    → pos 1 ≤ℤ o.price.amount
    → (pos 0 ≤ℤ (payment kind (quantity_of o n) (total_of o n)).amount)
      × (pos 0 ≤ℤ (release kind (quantity_of o n) (total_of o n)).amount)
sides_nonneg kind o n h k = ground (arith, *ℤ_pos n o.price.amount (omega arith) (omega arith))

module _ (E : Env) (L : IsLawful E) (sender : Address) (kind : OrderKind) (price : Coin)
    (k : IsKind kind) where
  IsFilled-conserves :
      (o : LimitOrder) (u : Coin) (s : E.bank.State) (log : FilledLimitOrder) (o' : LimitOrder)
      (u' : Coin) (t : E.bank.State) (d : String)
      → IsFilled E sender kind price o u s log o' u' t
      → o.kind ≡ matching_kind kind
      → pos 1 ≤ℤ o.price.amount
      → L.bank.supply t d +ℤ locked o' d ≡ L.bank.supply s d +ℤ locked o d
  IsFilled-conserves o u s log o' u' t d f e p =
      let q = quantity_of o f.n in
      let c = total_of o f.n in
      let sides = sides_nonneg kind o f.n f.positive p in
      let sent =
        L.bank.supply-send_coins s sender o.sender (payment kind q c) d sides.0 f.covered in
      let added =
        L.bank.supply-add_coins (E.bank.send_coins s sender o.sender (payment kind q c)).1 sender
          (release kind q c) d sides.1 in
      rw (f.remains, f.moved, added, sent)
        (add_in_denom (str_eq d (release kind q c).denom) (L.bank.supply s d)
          (release kind q c).amount (locked (rest o f.n) d) (locked o d)
          (release-locked kind o f.n d k e))

  -- In every denom, a run of fills keeps the sum of all account balances and of what is locked for
  -- the orders of the book, also when it ends with an error.
  pub Run-conserves :
      {os os' : List LimitOrder} {u u' : Coin} {s t : E.bank.State} {logs : List FilledLimitOrder}
      {e : Option SdkError} (ad pd : String)
      → Run E sender kind price os u s os' logs u' e t
      → All (Fits (pos 1) (matching_kind kind) ad pd) os
      → (d : String)
      → L.bank.supply t d +ℤ locked_orders os' d ≡ L.bank.supply s d +ℤ locked_orders os d
  Run-conserves ad pd (exhausted u s) h d = refl
  Run-conserves ad pd (stopped o os u s x) h d = refl
  Run-conserves ad pd (refused o os u s e x c) h d = refl
  Run-conserves ad pd (next o os u s log o' u' t os' logs u'' e t' f r) h d = omega (
    int_laws,
    parts (IsFilled-conserves o u s log o' u' t d f h.0.kind_fits h.0.price_positive),
    parts (Run-conserves ad pd r h.1 d),
  )
