-- ===== src/Sdk/Samples/Bank.antt =====
-- A bank that keeps a journal: a balance is what was credited to an account less what was debited.
use thorchain_v.Base.{
  ◌≡◌, refl, true, false, ◌&&◌, Bool, Option, none, some, List, [], ◌∷◌, String, str_eq,
  if◌then◌else◌, arith,
}
use thorchain_v.Base.Int.{ℤ, pos, ◌+ℤ◌, ◌-ℤ◌, ◌≤ℤ◌, ◌<ℤ◌, leb_ℤ, leb_ℤ_iff, int_laws}
use thorchain_v.Sdk.Types.{Address, Coin, SdkError, insufficient_coins}
use thorchain_v.Sdk.Bank.{Bank, IsLawful}

pub data Posting : Type 0 where
  credit debit : Address → Coin → Posting

abbrev pub Journal : Type 0
Journal = List Posting

abbrev pub balance : Journal → Address → String → ℤ
balance [] b d = pos 0
balance (credit a c ∷ s) b d =
    let old = balance s b d in if str_eq b a && str_eq d c.denom then old +ℤ c.amount else old
balance (debit a c ∷ s) b d =
    let old = balance s b d in if str_eq b a && str_eq d c.denom then old -ℤ c.amount else old

abbrev total : Journal → String → ℤ
total [] d = pos 0
total (credit a c ∷ s) d = let old = total s d in if str_eq d c.denom then old +ℤ c.amount else old
total (debit a c ∷ s) d = let old = total s d in if str_eq d c.denom then old -ℤ c.amount else old

abbrev pub add : Journal → Address → Coin → Option SdkError × Journal
add s a c = (none, credit a c ∷ s)

abbrev pub subtract : Journal → Address → Coin → Option SdkError × Journal
subtract s a c =
    if leb_ℤ c.amount (balance s a c.denom)
    then (none, debit a c ∷ s)
    else (some insufficient_coins, s)

abbrev send : Journal → Address → Address → Coin → Option SdkError × Journal
send s a b c =
    if leb_ℤ c.amount (balance s a c.denom)
    then (none, credit b c ∷ debit a c ∷ s)
    else (some insufficient_coins, s)

abbrev pub journal_bank : Bank
journal_bank = record {
  State = Journal;
  amount_of = balance;
  has_coins = λ s a c. leb_ℤ c.amount (balance s a c.denom);
  add_coins = add;
  subtract_coins = subtract;
  send_coins = send;
}

subtract_covered :
    (s : Journal) (a : Address) (c : Coin)
    → c.amount ≤ℤ balance s a c.denom
    → subtract s a c ≡ (none, debit a c ∷ s)
subtract_covered s a c h = rw ((leb_ℤ_iff c.amount (balance s a c.denom)).1 h)

send_covered :
    (s : Journal) (a b : Address) (c : Coin)
    → c.amount ≤ℤ balance s a c.denom
    → send s a b c ≡ (none, credit b c ∷ debit a c ∷ s)
send_covered s a b c h = rw ((leb_ℤ_iff c.amount (balance s a c.denom)).1 h)

not_covered : (a b : ℤ) → b <ℤ a → leb_ℤ a b ≡ false
not_covered a b h = ground arith

send_keeps :
    (here : Bool) (x n : ℤ) → (let y = if here then x -ℤ n else x in if here then y +ℤ n else y) ≡ x
send_keeps true x n = omega int_laws
send_keeps false x n = refl

pub journal_bank-IsLawful : IsLawful journal_bank
journal_bank-IsLawful = record {
  supply = total;
  has_coins_iff = λ s a c. leb_ℤ_iff c.amount (balance s a c.denom);
  add_coins_ok = λ s a c h. refl;
  amount_of-add_coins = λ s a c b d h. refl;
  supply-add_coins = λ s a c d h. refl;
  subtract_coins_ok = λ s a c h k. rw (subtract_covered s a c k);
  subtract_coins_short =
      λ s a c h. (insufficient_coins, rw (not_covered c.amount (balance s a c.denom) h));
  amount_of-subtract_coins = λ s a c b d h k. rw (subtract_covered s a c k);
  supply-subtract_coins = λ s a c d h k. rw (subtract_covered s a c k);
  send_coins_ok = λ s a b c h k. rw (send_covered s a b c k);
  send_coins_short =
      λ s a b c h. (insufficient_coins, rw (not_covered c.amount (balance s a c.denom) h));
  amount_of-send_coins = λ s a b c x d h k. rw (send_covered s a b c k, subtract_covered s a c k);
  supply-send_coins = λ s a b c d h k.
      rw (send_covered s a b c k) (send_keeps (str_eq d c.denom) (total s d) c.amount);
}
