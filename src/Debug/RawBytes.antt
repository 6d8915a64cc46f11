-- ===== src/Debug/RawBytes.antt =====
-- `runRawBytesCmd` of cmd/thorchaindebug/main.go: Go's print of a byte slice is read back.
pub mod Reading
use Prim.Native.Char.{Char, code}
use thorchain_v.Base.{
  ℕ, suc, ◌+◌, ◌-◌, ◌%◌, String, Bool, true, false, List, [], ◌∷◌, ◌++◌, ◌==◌, if◌then◌else◌, ◌⊎◌,
  inl, inr,
}
use thorchain_v.Base.Int.{ℤ, pos, negsuc}
use thorchain_v.Base.Chars.{chars, split}
use thorchain_v.Base.Decimals.{NumError, atoi}

pub data RawError : Type 0 where
  single_arg : RawError
  number : NumError → RawError

abbrev drop_leading : ℕ → List Char → List Char
drop_leading c [] = []
drop_leading c (x ∷ xs) = let rest = drop_leading c xs in if code x == c then rest else x ∷ xs

abbrev reverse_onto : List Char → List Char → List Char
reverse_onto acc [] = acc
reverse_onto acc (x ∷ xs) = reverse_onto (x ∷ acc) xs

abbrev reverse : List Char → List Char
reverse xs = reverse_onto [] xs

-- `strings.Trim` with one character.
unfoldable pub trim : ℕ → List Char → List Char
trim c xs = reverse (drop_leading c (reverse (drop_leading c xs)))

-- `byte(b)` of an `int`, which wraps.
abbrev pub to_byte : ℤ → ℕ
to_byte (pos n) = n % 256
to_byte (negsuc n) = 255 - n % 256

abbrev cons_byte : ℤ ⊎ NumError → RawError ⊎ List ℕ → RawError ⊎ List ℕ
cons_byte (inr e) r = inl (number e)
cons_byte (inl b) (inl e) = inl e
cons_byte (inl b) (inr bytes) = inr (to_byte b ∷ bytes)

-- The loop over the parts; the first that is no number is the error.
unfoldable pub to_bytes : List (List Char) → RawError ⊎ List ℕ
to_bytes [] = inr []
to_bytes (s ∷ spl) = cons_byte (atoi s) (to_bytes spl)

-- The bytes that are printed in hexadecimal: 91 and 93 are the brackets, and 32 the space.
unfoldable pub run_raw_bytes_cmd : List String → RawError ⊎ List ℕ
unfolding trim to_bytes
run_raw_bytes_cmd (arg ∷ []) = to_bytes (split 32 (trim 93 (trim 91 (chars arg))))
run_raw_bytes_cmd [] = inl single_arg
run_raw_bytes_cmd (arg ∷ arg' ∷ args) = inl single_arg
