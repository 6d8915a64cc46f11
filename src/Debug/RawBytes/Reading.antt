-- ===== src/Debug/RawBytes/Reading.antt =====
-- That printed bytes are read back.
use Prim.Native.Char.{Char, code}
use thorchain_v.Base.{
  ℕ, ◌<◌, ◌%◌, String, true, false, List, [], ◌∷◌, ◌++◌, map, ◌==◌, ◌⊎◌, inl, inr, ◌≡◌, ◌≢◌, refl,
  ap, ◌∙◌, All, arith,
}
use thorchain_v.Base.Chars.{
  text_of, chars-text_of, split, join, split-join, join-Without, Without-append, Without,
  IsNonempty,
}
use thorchain_v.Base.Texts.{IsNonempty-map}
use thorchain_v.Base.Decimals.{show_digits, IsDigits, show_digits-IsDigits, atoi-show_digits}
use thorchain_v.Debug.RawBytes.{
  drop_leading, reverse_onto, reverse, trim, to_bytes, run_raw_bytes_cmd,
}

drop_leading-Without : (c : ℕ) (xs : List Char) → Without c xs → drop_leading c xs ≡ xs
drop_leading-Without c [] h = refl
drop_leading-Without c (x ∷ xs) h =
    let other : code x == c ≡ false = ground (arith, h.0) in rw other refl

reverse_onto-Without :
    (c : ℕ) (acc xs : List Char) → Without c acc → Without c xs → Without c (reverse_onto acc xs)
reverse_onto-Without c acc [] h k = h
reverse_onto-Without c acc (x ∷ xs) h k = reverse_onto-Without c (x ∷ acc) xs (k.0, h) k.1

reverse_onto-append :
    (acc xs ys : List Char) → reverse_onto acc (xs ++ ys) ≡ reverse_onto (reverse_onto acc xs) ys
reverse_onto-append acc [] ys = refl
reverse_onto-append acc (x ∷ xs) ys = reverse_onto-append (x ∷ acc) xs ys

append_nil : (xs : List Char) → xs ++ [] ≡ xs
append_nil [] = refl
append_nil (x ∷ xs) = ap (λ l. x ∷ l) (append_nil xs)

reverse_onto-reverse_onto :
    (acc acc' xs : List Char)
    → reverse_onto acc' (reverse_onto acc xs) ≡ reverse_onto (xs ++ acc') acc
reverse_onto-reverse_onto acc acc' [] = refl
reverse_onto-reverse_onto acc acc' (x ∷ xs) = reverse_onto-reverse_onto (x ∷ acc) acc' xs

reverse-reverse : (xs : List Char) → reverse (reverse xs) ≡ xs
reverse-reverse xs = reverse_onto-reverse_onto [] [] xs ∙ append_nil xs

trim-front : (c : Char) (xs : List Char) → Without (code c) xs → trim (code c) (c ∷ xs) ≡ xs
unfolding trim
trim-front c xs h =
    let here : code c == code c ≡ true = ground arith in
    rw
      (
        here,
        drop_leading-Without (code c) xs h,
        drop_leading-Without (code c) (reverse xs) (reverse_onto-Without (code c) [] xs tt h),
      )
      (reverse-reverse xs)

trim-end : (c : Char) (xs : List Char) → Without (code c) xs → trim (code c) (xs ++ c ∷ []) ≡ xs
unfolding trim
trim-end c [] h = let here : code c == code c ≡ true = ground arith in rw here refl
trim-end c (x ∷ xs) h =
    let other : code x == code c ≡ false = ground (arith, h.0) in
    let here : code c == code c ≡ true = ground arith in
    rw
      (
        other,
        reverse_onto-append (x ∷ []) xs (c ∷ []),
        here,
        drop_leading-Without (code c) (reverse_onto (x ∷ []) xs)
            (reverse_onto-Without (code c) (x ∷ []) xs (h.0, tt) h.1),
      )
      (reverse-reverse (x ∷ xs))

abbrev open_bracket : Char
open_bracket = "["

abbrev close_bracket : Char
close_bracket = "]"

abbrev space : Char
space = " "

abbrev digits_of : List ℕ → List (List Char)
digits_of bytes = map (λ b. show_digits 20 b []) bytes

-- How Go prints a byte slice: `[10 21 13 255]`.
abbrev pub print_bytes : List ℕ → String
print_bytes bytes = text_of (open_bracket ∷ (join space (digits_of bytes) ++ close_bracket ∷ []))

Without-digits : (c : ℕ) (cs : List Char) → c < 48 ⊎ 57 < c → IsDigits cs → Without c cs
Without-digits c [] h k = tt
Without-digits c (x ∷ xs) h k =
    ((λ e. let digit = k.0 in ground (arith, e, digit, h)), Without-digits c xs h k.1)

digits_of-Without : (c : ℕ) (bytes : List ℕ) → c < 48 ⊎ 57 < c → All (Without c) (digits_of bytes)
digits_of-Without c [] h = tt
digits_of-Without c (b ∷ bytes) h = (
  Without-digits c (show_digits 20 b []) h (show_digits-IsDigits 20 b [] tt),
  digits_of-Without c bytes h,
)

to_bytes-digits_of :
    (bytes : List ℕ) → All (λ b. b < 256) bytes → to_bytes (digits_of bytes) ≡ inr bytes
unfolding to_bytes
to_bytes-digits_of [] h = refl
to_bytes-digits_of (b ∷ bytes) h =
    let small = h.0 in
    let kept : b % 256 ≡ b = omega (arith, small) in
    rw (atoi-show_digits b (omega (arith, small)), to_bytes-digits_of bytes h.1, kept) refl

joined-Without :
    (c : ℕ) (bytes : List ℕ) → c < 48 ⊎ 57 < c → 32 ≢ c → Without c (join space (digits_of bytes))
joined-Without c bytes h k =
    (join-Without space c (digits_of bytes) k).1 (digits_of-Without c bytes h)

-- The command reads back every print of at least one byte.
pub run_raw_bytes_cmd-print_bytes :
    (bytes : List ℕ)
    → IsNonempty bytes
    → All (λ b. b < 256) bytes
    → run_raw_bytes_cmd (print_bytes bytes ∷ []) ≡ inr bytes
unfolding run_raw_bytes_cmd
run_raw_bytes_cmd-print_bytes bytes h k =
    let body = join space (digits_of bytes) in
    let inner = joined-Without 91 bytes (inr (omega arith)) (λ e. omega arith) in
    let front =
      trim-front open_bracket (body ++ close_bracket ∷ [])
        ((Without-append 91 body (close_bracket ∷ [])).1 (inner, ((λ e. omega arith), tt))) in
    let end =
      trim-end close_bracket body
        (joined-Without 93 bytes (inr (omega arith)) (λ e. omega arith)) in
    let parts =
      split-join space (digits_of bytes) (IsNonempty-map (λ b. show_digits 20 b []) bytes h)
        (digits_of-Without 32 bytes (inl (omega arith))) in
    ap (λ cs. to_bytes (split 32 (trim 93 (trim 91 cs))))
      (chars-text_of (open_bracket ∷ (body ++ close_bracket ∷ [])))
    ∙ ap (λ cs. to_bytes (split 32 (trim 93 cs))) front
    ∙ ap (λ cs. to_bytes (split 32 cs)) end
    ∙ ap to_bytes parts
    ∙ to_bytes-digits_of bytes k
