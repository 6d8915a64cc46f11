-- ===== src/Spam/Sender/Turns.antt =====
-- The turns of the spammers in the main loop.
use native.Mathlib.Nat.{mod-eq_of_lt, mod_self}
use thorchain_v.Base.{ℕ, zero, suc, ◌+◌, ◌-◌, ◌%◌, ◌≤◌, ◌<◌, ◌≡◌, ap, ◌∙◌, ◌⊎◌, inl, inr, arith}
use thorchain_v.Spam.Sender.{next_index, receiver, turn}

pub turn_within : (n k : ℕ) → 0 < n → turn n k < n
unfolding turn
turn_within n zero h = h
turn_within n (suc k) h = let before = turn_within n k h in ground (arith, before)

turn-suc : (n k j : ℕ) → turn n (suc j + k) ≡ next_index n (turn n (j + k))
unfolding turn
turn-suc n k j = let e : suc j + k ≡ suc (j + k) = omega arith in ap (turn n) e

turn_ahead : (n k j : ℕ) → turn n k + j < n → turn n (j + k) ≡ turn n k + j
turn_ahead n k zero h =
    let start : 0 + k ≡ k = omega arith in
    let none_ahead : turn n (0 + k) ≡ turn n k = ap (turn n) start in omega (arith, none_ahead)
turn_ahead n k (suc j) h =
    let before = turn_ahead n k j (omega arith) in
    let step = turn-suc n k j in ground (arith, before, step, h)

-- The turns left of the round lead to its end, and one more to the next round's start.
turn_wrap : (n k l : ℕ) → turn n k + suc l ≡ n → turn n (suc l + k) ≡ 0
turn_wrap n k l h =
    let last = turn_ahead n k l (omega arith) in
    let step = turn-suc n k l in ground (arith, last, step, h)

split_lt : (a b : ℕ) → (a < b) ⊎ (b ≤ a)
split_lt a b = omega arith

receiver_lem : (n i : ℕ) → i < n → receiver n i ≡ next_index n i
receiver_lem n i h = elim (split_lt (suc i) n) [
  | inl inside ↦ let small = mod-eq_of_lt inside in ground (arith, small, inside)
  | inr last ↦
      let e : suc i ≡ n = omega (arith, last, h) in
      let whole : suc i % n ≡ 0 = ap (λ m. m % n) e ∙ mod_self n in ground (arith, whole, e)
]

visit : (n k i : ℕ) → i < n → (j : ℕ) × (j < n) × (turn n (j + k) ≡ i)
visit n k i h =
    let within = turn_within n k (omega (arith, h)) in
    elim (split_lt i (turn n k)) [
      | inr later ↦
          let at = turn_ahead n k (i - turn n k) (omega (arith, later, h)) in
          (i - turn n k, omega (arith, later, h), omega (arith, at, later))
      | inl earlier ↦
          let rest = n - turn n k - 1 in
          let start = turn_wrap n k rest (omega (arith, within)) in
          let at = turn_ahead n (suc rest + k) i (omega (arith, start, h)) in
          let there : i + suc rest + k ≡ i + (suc rest + k) = omega arith in
          let moved : turn n (i + suc rest + k) ≡ turn n (i + (suc rest + k)) = ap (turn n) there in
          (i + suc rest, omega (arith, earlier, within), omega (arith, moved, at, start))
    ]

-- Within as many turns as there are spammers, from any turn on, every one of them sends; and the
-- account that is paid is the one of the spammer that sends next.
pub turn-visits :
    (n k i : ℕ)
    → i < n
    → (j : ℕ) × (j < n) × (turn n (j + k) ≡ i) × (receiver n (turn n k) ≡ turn n (suc k))
unfolding turn
turn-visits n k i h =
    let (j, within, at) = visit n k i h in
    (j, within, at, receiver_lem n (turn n k) (turn_within n k (omega (arith, h))))
