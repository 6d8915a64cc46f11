-- ===== src/Exchange/Message/Direction.antt =====
-- Which of the two order books over a pair of denoms `ValidateBasic` lets orders into.
use Prim.Native.Nat.{Ordering, compare as compare_ℕ}
use Prim.Native.Char.{code}
use Prim.Native.String.compare
use Prim.Native.String.{String, [], ◌∷◌, compare, then, len}
use thorchain_v.Sdk.Types.{Time}
use text.Mathlib.TextEquality.{Char-path}
use thorchain_v.Base.{
  ℕ, ◌<◌, ◌≤◌, ◌≡◌, ◌≢◌, ◌↔◌, ◌⊎◌, true, false, none, arith, eq_iff, Bool, refl, sym, ◌∙◌, inl, inr,
}
use thorchain_v.Exchange.Orders.{IsKind}
use thorchain_v.Exchange.Message.{MsgCreateLimitOrder, validate_basic, wrong_direction}

order_cases : (a b : ℕ) → (a < b) ⊎ ((b < a) ⊎ (a ≡ b))
order_cases a b = ground arith

-- The order of texts, by the first characters that differ.
abbrev pub IsBefore : String → String → Type 0
IsBefore [] [] = ⊥
IsBefore [] (d ∷ t) = Unit
IsBefore (c ∷ s) [] = ⊥
IsBefore (c ∷ s) (d ∷ t) = (code c < code d) ⊎ ((code c ≡ code d) × IsBefore s t)

abbrev is_lt : Ordering → Bool
is_lt Ordering.lt = true
is_lt Ordering.eq = false
is_lt Ordering.gt = false

first_differs :
    (a b : ℕ) (o : Ordering) (P : Type 0)
    → (is_lt o ≡ true) ↔ P
    → (is_lt (then (compare_ℕ a b) o) ≡ true) ↔ ((a < b) ⊎ ((a ≡ b) × P))
first_differs a b o P h = (λ e. ground (arith, h, e), λ e. ground (arith, h, e))

str_ltb_iff : (s t : String) → (is_lt (compare s t) ≡ true) ↔ IsBefore s t
str_ltb_iff [] [] = (λ e. cc e, λ e. absurd e)
str_ltb_iff [] (d ∷ t) =
    let less : compare [] (d ∷ t) ≡ Ordering.lt = λ i. compare.nil-cons d t i in
    rw less (λ e. tt, λ e. refl)
str_ltb_iff (c ∷ s) [] =
    let more : compare (c ∷ s) [] ≡ Ordering.gt = λ i. compare.cons-nil c s i in
    rw more (λ e. cc e, λ e. absurd e)
str_ltb_iff (c ∷ s) (d ∷ t) =
    let cons : compare (c ∷ s) (d ∷ t) ≡ then (compare_ℕ (code c) (code d)) (compare s t) =
      λ i. compare.cons-cons c d s t i in
    rw cons (first_differs (code c) (code d) (compare s t) (IsBefore s t) (str_ltb_iff s t))

total_order : (s t : String) → s ≢ t → IsBefore s t ⊎ IsBefore t s
total_order [] [] n = absurd (n refl)
total_order [] (d ∷ t) n = inl tt
total_order (c ∷ s) [] n = inr tt
total_order (c ∷ s) (d ∷ t) n = elim (order_cases (code c) (code d)) [
  | inl less ↦ inl (inl less)
  | inr (inl more) ↦ inr (inl more)
  | inr (inr same) ↦ elim (total_order s t (λ e. n (λ i. Char-path c d same i ∷ e i))) [
    | inl less ↦ inl (inr (same, less))
    | inr more ↦ inr (inr (sym same, more))
  ]
]

order_asym : (s t : String) → IsBefore s t → IsBefore t s → ⊥
order_asym [] [] h k = h
order_asym [] (d ∷ t) h k = k
order_asym (c ∷ s) [] h k = h
order_asym (c ∷ s) (d ∷ t) (inl h) (inl k) = omega (arith, h, k)
order_asym (c ∷ s) (d ∷ t) (inl h) (inr k) = let e = k.0 in omega (arith, h, e)
order_asym (c ∷ s) (d ∷ t) (inr h) (inl k) = let e = h.0 in omega (arith, e, k)
order_asym (c ∷ s) (d ∷ t) (inr h) (inr k) = order_asym s t h.1 k.1

-- RUNE, where it is one of the two, is the denom of the price; of two others, the first one is.
abbrev pub IsSupported : String → String → Type 0
IsSupported amount price = (price ≡ "RUNE") ⊎ ((amount ≢ "RUNE") × IsBefore price amount)

wrong_direction_iff : (a p : String) → a ≢ p → (wrong_direction a p ≡ false) ↔ IsSupported a p
unfolding wrong_direction
wrong_direction_iff a p n =
    let before = str_ltb_iff a p in
    let total = total_order a p n in
    let asym = order_asym a p in
    (
      λ e. ground (arith, e, eq_iff a "RUNE", eq_iff p "RUNE", before, total),
      λ e. ground (arith, e, eq_iff a "RUNE", eq_iff p "RUNE", before, asym, n),
    )

-- The same message for the book in the other direction.
abbrev pub swapped : MsgCreateLimitOrder → MsgCreateLimitOrder
swapped msg = record msg {
  amount = record msg.amount { denom = msg.price.denom };
  price = record msg.price { denom = msg.amount.denom };
}

-- What a message has to fulfil whatever its direction.
abbrev pub IsOrder : Time → MsgCreateLimitOrder → Type 0
IsOrder now msg =
    IsKind msg.kind
    × (msg.amount.denom ≢ msg.price.denom)
    × (now ≤ msg.expires_at)
    × (len msg.sender ≢ 0)

guards_iff :
    (now : Time) (msg : MsgCreateLimitOrder)
    → (validate_basic now msg ≡ none)
      ↔ (IsOrder now msg × (wrong_direction msg.amount.denom msg.price.denom ≡ false))
unfolding validate_basic
guards_iff now msg = (
  λ h. ground (arith, eq_iff msg.amount.denom msg.price.denom),
  λ h. ground (arith, eq_iff msg.amount.denom msg.price.denom),
)

accepts_iff :
    (now : Time) (msg : MsgCreateLimitOrder)
    → (validate_basic now msg ≡ none)
      ↔ (IsOrder now msg × IsSupported msg.amount.denom msg.price.denom)
accepts_iff now msg = (
  λ h.
      let (order, right) = (guards_iff now msg).0 h in
      (order, (wrong_direction_iff msg.amount.denom msg.price.denom order.1).0 right),
  λ h.
      (guards_iff now msg).1
        (h.0, (wrong_direction_iff msg.amount.denom msg.price.denom h.0.1).1 h.1),
)

one_direction :
    (a p : String)
    → a ≢ p
    → (IsSupported a p ⊎ IsSupported p a) × ((IsSupported a p × IsSupported p a) → ⊥)
one_direction a p n =
    let total = total_order a p n in
    (ground (arith, total, eq_iff a "RUNE", eq_iff p "RUNE"), λ (h, k). clash h k)
  where
    clash : IsSupported a p → IsSupported p a → ⊥
    clash (inl h) (inl k) = n (k ∙ sym h)
    clash (inl h) (inr k) = k.0 h
    clash (inr h) (inl k) = h.0 k
    clash (inr h) (inr k) = order_asym a p k.1 h.1

IsOrder-swapped :
    (now : Time) (msg : MsgCreateLimitOrder) → IsOrder now msg → IsOrder now (swapped msg)
IsOrder-swapped now msg h = (h.0, λ e. h.1 (sym e), h.2, h.3)

-- `ValidateBasic` accepts exactly the messages of a supported kind, over two denoms, that are not
-- expired and name a sender, with RUNE as the denom of the price, or without RUNE and with the denom
-- of the price before that of the amount in the order of texts. So of a message and the one with its
-- denoms swapped exactly one is accepted, if the rest is in order: there is one order book for each
-- kind and pair of denoms.
pub validate_basic_iff :
    (now : Time) (msg : MsgCreateLimitOrder)
    → ((validate_basic now msg ≡ none)
        ↔ (IsOrder now msg × IsSupported msg.amount.denom msg.price.denom))
      × (((validate_basic now msg ≡ none) ⊎ (validate_basic now (swapped msg) ≡ none))
          ↔ IsOrder now msg)
      × ¬ ((validate_basic now msg ≡ none) × (validate_basic now (swapped msg) ≡ none))
validate_basic_iff now msg =
    let here = accepts_iff now msg in
    let there = accepts_iff now (swapped msg) in
    let one = one_direction msg.amount.denom msg.price.denom in
    (
      here,
      (
        λ either. elim either [
          | inl h ↦ (here.0 h).0
          | inr k ↦ IsOrder-swapped now (swapped msg) (there.0 k).0
        ],
        λ order. elim (one order.1).0 [
          | inl s ↦ inl (here.1 (order, s))
          | inr s ↦ inr (there.1 (IsOrder-swapped now msg order, s))
        ],
      ),
      λ both. (one (here.0 both.0).0.1).1 ((here.0 both.0).1, (there.0 both.1).1),
    )
