-- ===== src/Base/Atoi.antt =====
-- The value that `strconv.Atoi` gives where its error is not looked at: 0 for an error of syntax, the
-- nearest `int64` for one of range.
use Prim.Native.Char.{Char, code}
use Prim.Native.Nat.{ℕ, ◌+◌, ◌-◌, ◌*◌, ◌^◌, ◌<◌, ◌≤◌}
use mathlib.Core.Path.{◌≡◌, refl}
use mathlib.Core.Logic.{◌⊎◌, inl, inr}
use mathlib.Core.Bool.{Bool, true, false}
use mathlib.Core.Option.{some}
use mathlib.Core.List.{List, [], ◌∷◌}
use native.Mathlib.Omega.{arith}
use thorchain_v.Base.Tests.{◌==◌, ltb, leb, if◌then◌else◌, Bool-cases}
use thorchain_v.Base.Int.{ℤ, pos, sub_ℕ}
use thorchain_v.Base.Chars.{chars, chars-text_of, IsNonempty}
use thorchain_v.Base.Decimals.{
  NumError, syntax, out_of_range, is_digit, parse_digits, show_digits, show_ℕ, IsDigits,
  show_digits-IsDigits, show_digits-IsNonempty, parse-show_digits,
}

-- The loop of `ParseUint`, which ends at the first character that is no digit or leaves the range.
unfoldable pub read_digits : ℕ → List Char → ℕ ⊎ NumError
read_digits n [] = inl n
read_digits n (c ∷ cs) =
    let m = n * 10 + (code c - 48) in
    let rest = read_digits m cs in
    if is_digit c then (if ltb m (2 ^ 64) then rest else inr out_of_range) else inr syntax

abbrev parse_uint : List Char → ℕ ⊎ NumError
parse_uint [] = inr syntax
parse_uint (c ∷ cs) = read_digits 0 (c ∷ cs)

-- Between -2^63 and 2^63 - 1.
abbrev clamped : Bool → ℕ ⊎ NumError → ℤ
clamped minus (inr syntax) = pos 0
clamped false (inr out_of_range) = pos (2 ^ 63 - 1)
clamped true (inr out_of_range) = sub_ℕ 0 (2 ^ 63)
clamped false (inl n) = if ltb n (2 ^ 63) then pos n else pos (2 ^ 63 - 1)
clamped true (inl n) = if leb n (2 ^ 63) then sub_ℕ 0 n else sub_ℕ 0 (2 ^ 63)

unfoldable pub atoi_value : List Char → ℤ
unfolding read_digits
atoi_value [] = pos 0
atoi_value (c ∷ cs) =
    if code c == 45
    then clamped true (parse_uint cs)
    else if code c == 43
    then clamped false (parse_uint cs)
    else clamped false (parse_uint (c ∷ cs))

parse_digits-le : (m n : ℕ) (cs : List Char) → parse_digits m cs ≡ some n → m ≤ n
unfolding parse_digits
parse_digits-le m n [] e = ground (arith, e)
parse_digits-le m n (c ∷ cs) e = elim (Bool-cases (is_digit c)) [
  | inl d ↦
      let later = parse_digits-le (m * 10 + (code c - 48)) n cs (rw d at e) in omega (arith, later)
  | inr o ↦ cc (rw o at e)
]

read_digits_lem :
    (m n : ℕ) (cs : List Char) → parse_digits m cs ≡ some n → n < 2 ^ 64 → read_digits m cs ≡ inl n
unfolding parse_digits read_digits
read_digits_lem m n [] e h = cc e
read_digits_lem m n (c ∷ cs) e h = elim (Bool-cases (is_digit c)) [
  | inl d ↦
      let e' : parse_digits (m * 10 + (code c - 48)) cs ≡ some n = rw d at e in
      let bound = parse_digits-le (m * 10 + (code c - 48)) n cs e' in
      let small : ltb (m * 10 + (code c - 48)) (2 ^ 64) ≡ true = ground (arith, bound, h) in
      rw (d, small) (read_digits_lem (m * 10 + (code c - 48)) n cs e' h)
  | inr o ↦ cc (rw o at e)
]

atoi_value-digits :
    (cs : List Char) (n : ℕ)
    → IsNonempty cs
    → IsDigits cs
    → parse_digits 0 cs ≡ some n
    → n < 2 ^ 63
    → atoi_value cs ≡ pos n
unfolding atoi_value
atoi_value-digits [] n h k e l = absurd h
atoi_value-digits (c ∷ cs) n h k e l =
    let not_minus : code c == 45 ≡ false = ground (arith, k.0) in
    let not_plus : code c == 43 ≡ false = ground (arith, k.0) in
    let fits : ltb n (2 ^ 63) ≡ true = ground (arith, l) in
    let read = read_digits_lem 0 n (c ∷ cs) e (omega (arith, l)) in
    rw (not_minus, not_plus, read, fits) refl

-- A number that fits is read back from its text.
pub atoi_value-show_ℕ : (n : ℕ) → n < 2 ^ 63 → atoi_value (chars (show_ℕ n)) ≡ pos n
unfolding show_ℕ parse_digits
atoi_value-show_ℕ n h = rw (chars-text_of (show_digits 20 n [])) (
    atoi_value-digits (show_digits 20 n []) n (show_digits-IsNonempty 20 n [] (omega arith))
      (show_digits-IsDigits 20 n [] tt) (parse-show_digits 20 n [] (omega arith)) h)
