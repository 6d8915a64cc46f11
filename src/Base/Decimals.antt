-- ===== src/Base/Decimals.antt =====
-- Numbers in base ten: `fmt` with `%v`, and `strconv.Atoi`.
use Prim.Native.Char.{Char, code}
use Prim.Native.Nat.pow
use Prim.Native.Nat.{ℕ, zero, suc, ◌+◌, ◌-◌, ◌*◌, ◌/◌, ◌%◌, ◌^◌, ◌<◌}
use Prim.Native.String.{String}
use mathlib.Core.Path.{◌≡◌, ◌∙◌, refl, sym, ap}
use mathlib.Core.Logic.{◌⊎◌, inl, inr}
use mathlib.Core.Bool.{Bool, true, false, ◌&&◌}
use mathlib.Core.Option.{Option, none, some}
use mathlib.Core.List.{List, [], ◌∷◌}
use native.Mathlib.Omega.{arith}
use thorchain_v.Base.Tests.{◌==◌, ltb, leb, if◌then◌else◌, Bool-cases}
use thorchain_v.Base.Lists.{All, length}
use thorchain_v.Base.Int.{ℤ, pos, sub_ℕ}
use thorchain_v.Base.Chars.{chars, text_of, chars-text_of, IsNonempty}

abbrev pub digit : ℕ → Char
digit zero = "0"
digit (suc zero) = "1"
digit (suc (suc zero)) = "2"
digit (suc (suc (suc zero))) = "3"
digit (suc (suc (suc (suc zero)))) = "4"
digit (suc (suc (suc (suc (suc zero))))) = "5"
digit (suc (suc (suc (suc (suc (suc zero)))))) = "6"
digit (suc (suc (suc (suc (suc (suc (suc zero))))))) = "7"
digit (suc (suc (suc (suc (suc (suc (suc (suc zero)))))))) = "8"
digit (suc (suc (suc (suc (suc (suc (suc (suc (suc d))))))))) = "9"

code-digit : (d : ℕ) → d < 10 → code (digit d) ≡ 48 + d
code-digit zero h = refl
code-digit (suc zero) h = refl
code-digit (suc (suc zero)) h = refl
code-digit (suc (suc (suc zero))) h = refl
code-digit (suc (suc (suc (suc zero)))) h = refl
code-digit (suc (suc (suc (suc (suc zero))))) h = refl
code-digit (suc (suc (suc (suc (suc (suc zero)))))) h = refl
code-digit (suc (suc (suc (suc (suc (suc (suc zero))))))) h = refl
code-digit (suc (suc (suc (suc (suc (suc (suc (suc zero)))))))) h = refl
code-digit (suc (suc (suc (suc (suc (suc (suc (suc (suc zero))))))))) h = refl
code-digit (suc (suc (suc (suc (suc (suc (suc (suc (suc (suc d)))))))))) h = absurd (omega arith)

-- The digits of a number in front of a text; `left` bounds their number.
unfoldable pub show_digits : ℕ → ℕ → List Char → List Char
show_digits zero n rest = rest
show_digits (suc left) n rest =
    let more = show_digits left (n / 10) (digit (n % 10) ∷ rest) in
    if ltb n 10 then digit n ∷ rest else more

-- Twenty digits hold every number of 64 bits.
unfoldable pub show_ℕ : ℕ → String
show_ℕ n = text_of (show_digits 20 n [])

abbrev pub is_digit : Char → Bool
is_digit c = leb 48 (code c) && leb (code c) 57

unfoldable pub parse_digits : ℕ → List Char → Option ℕ
parse_digits n [] = some n
parse_digits n (c ∷ cs) =
    let rest = parse_digits (n * 10 + (code c - 48)) cs in if is_digit c then rest else none

parse_digits-digit :
    (n d : ℕ) (cs : List Char)
    → d < 10
    → parse_digits n (digit d ∷ cs) ≡ parse_digits (n * 10 + d) cs
unfolding parse_digits
parse_digits-digit n d cs h =
    let known = code-digit d h in
    let inside : is_digit (digit d) ≡ true = ground (arith, known, h) in
    let value : n * 10 + (code (digit d) - 48) ≡ n * 10 + d = omega (arith, known) in
    rw inside (ap (λ m. parse_digits m cs) value)

below_tenth : (n left : ℕ) → n < 10 ^ suc left → n / 10 < 10 ^ left
below_tenth n left h = let power = pow.suc 10 left in omega (arith, power, h)

pub parse-show_digits :
    (left n : ℕ) (rest : List Char)
    → n < 10 ^ left
    → parse_digits 0 (show_digits left n rest) ≡ parse_digits n rest
unfolding show_digits
parse-show_digits zero n rest h =
    let e : 0 ≡ n = omega (arith, h) in ap (λ m. parse_digits m rest) e
parse-show_digits (suc left) n rest h = elim (Bool-cases (ltb n 10)) [
  | inl small ↦ rw small (
      let start : 0 * 10 + n ≡ n = omega arith in
      parse_digits-digit 0 n rest (ground (arith, small)) ∙ ap (λ m. parse_digits m rest) start)
  | inr large ↦
      let digits = parse-show_digits left (n / 10) (digit (n % 10) ∷ rest) (below_tenth n left h) in
      let last = parse_digits-digit (n / 10) (n % 10) rest (omega arith) in
      let whole : n / 10 * 10 + n % 10 ≡ n = omega arith in
      rw large (digits ∙ last ∙ ap (λ m. parse_digits m rest) whole)
]

pub show_ℕ_inj : (m n : ℕ) → m < 10 ^ 20 → n < 10 ^ 20 → show_ℕ m ≡ show_ℕ n → m ≡ n
unfolding show_ℕ parse_digits
show_ℕ_inj m n h k e =
    let digits : show_digits 20 m [] ≡ show_digits 20 n [] =
      sym (chars-text_of (show_digits 20 m []))
      ∙ ap chars e
      ∙ chars-text_of (show_digits 20 n []) in
    let parsed : some m ≡ some n =
      sym (parse-show_digits 20 m [] h)
      ∙ ap (parse_digits 0) digits
      ∙ parse-show_digits 20 n [] k in
    ground (arith, parsed)

-- `strconv.Atoi`: an error of syntax, or out of the range of an `int64`.
pub data NumError : Type 0 where
  syntax : NumError
  out_of_range : NumError

abbrev ranged : Bool → Option ℕ → ℤ ⊎ NumError
ranged minus none = inr syntax
ranged false (some n) = if ltb n (2 ^ 63) then inl (pos n) else inr out_of_range
ranged true (some n) = if leb n (2 ^ 63) then inl (sub_ℕ 0 n) else inr out_of_range

-- At least one digit.
abbrev magnitude : List Char → Option ℕ
magnitude [] = none
magnitude (c ∷ cs) = parse_digits 0 (c ∷ cs)

unfoldable pub atoi : List Char → ℤ ⊎ NumError
unfolding parse_digits
atoi [] = inr syntax
atoi (c ∷ cs) =
    if code c == 45
    then ranged true (magnitude cs)
    else if code c == 43
    then ranged false (magnitude cs)
    else ranged false (magnitude (c ∷ cs))

abbrev pub IsDigits : List Char → Type 0
IsDigits cs = All (λ c. is_digit c ≡ true) cs

digit-IsDigit : (d : ℕ) → d < 10 → is_digit (digit d) ≡ true
digit-IsDigit d h = let known = code-digit d h in ground (arith, known, h)

pub show_digits-IsDigits :
    (left n : ℕ) (rest : List Char) → IsDigits rest → IsDigits (show_digits left n rest)
unfolding show_digits
show_digits-IsDigits zero n rest h = h
show_digits-IsDigits (suc left) n rest h = elim (Bool-cases (ltb n 10)) [
  | inl small ↦ rw small (digit-IsDigit n (ground (arith, small)), h)
  | inr large ↦ rw large (
      show_digits-IsDigits left (n / 10) (digit (n % 10) ∷ rest)
        (digit-IsDigit (n % 10) (omega arith), h))
]

pub show_digits-IsNonempty :
    (left n : ℕ) (rest : List Char) → 0 < left + length rest → IsNonempty (show_digits left n rest)
unfolding show_digits
show_digits-IsNonempty zero n [] h = absurd (omega arith)
show_digits-IsNonempty zero n (c ∷ cs) h = tt
show_digits-IsNonempty (suc left) n rest h = elim (Bool-cases (ltb n 10)) [
  | inl small ↦ rw small tt
  | inr large ↦
      rw large (show_digits-IsNonempty left (n / 10) (digit (n % 10) ∷ rest) (omega arith))
]

atoi-digits :
    (cs : List Char) (n : ℕ)
    → IsNonempty cs
    → IsDigits cs
    → parse_digits 0 cs ≡ some n
    → n < 2 ^ 63
    → atoi cs ≡ inl (pos n)
unfolding atoi
atoi-digits [] n h k e l = absurd h
atoi-digits (c ∷ cs) n h k e l =
    let not_minus : code c == 45 ≡ false = ground (arith, k.0) in
    let not_plus : code c == 43 ≡ false = ground (arith, k.0) in
    let fits : ltb n (2 ^ 63) ≡ true = ground (arith, l) in rw (not_minus, not_plus, e, fits) refl

-- A number that fits is read back from its digits.
pub atoi-show_digits : (n : ℕ) → n < 2 ^ 63 → atoi (show_digits 20 n []) ≡ inl (pos n)
unfolding parse_digits
atoi-show_digits n h =
    atoi-digits (show_digits 20 n []) n (show_digits-IsNonempty 20 n [] (omega arith))
      (show_digits-IsDigits 20 n [] tt) (parse-show_digits 20 n [] (omega arith)) h
