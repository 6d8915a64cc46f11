-- ===== src/Base/Chars.antt =====
-- Texts as lists of characters, and `strings.Split` and `strings.Join` at a separator of one
-- character.
use Prim.Native.Char.{Char, code}
use Prim.Native.String.{String}
use Prim.Native.Nat.{ℕ}
use mathlib.Core.Path.{◌≡◌, ◌∙◌, refl, sym, ap}
use mathlib.Core.Logic.{◌≢◌, ◌↔◌, inl, inr}
use mathlib.Core.Bool.{true, false}
use mathlib.Core.List.{List, [], ◌∷◌, ◌++◌}
use native.Mathlib.Omega.{arith}
use text.Mathlib.TextEquality.{codes_equal}
use thorchain_v.Base.Tests.{◌==◌, if◌then◌else◌, Bool-cases}
use thorchain_v.Base.Lists.{All}

abbrev pub chars : String → List Char
chars String.[] = []
chars (String.◌∷◌ c s) = c ∷ chars s

abbrev pub text_of : List Char → String
text_of [] = ""
text_of (c ∷ cs) = String.◌∷◌ c (text_of cs)

-- The first part of a split grows by a character in front.
abbrev pub grow : Char → List (List Char) → List (List Char)
grow c [] = (c ∷ []) ∷ []
grow c (p ∷ ps) = (c ∷ p) ∷ ps

unfoldable pub split : ℕ → List Char → List (List Char)
split sep [] = [] ∷ []
split sep (c ∷ cs) = let rest = split sep cs in if code c == sep then [] ∷ rest else grow c rest

abbrev pub join : Char → List (List Char) → List Char
join sep [] = []
join sep (p ∷ []) = p
join sep (p ∷ q ∷ ps) = p ++ (sep ∷ join sep (q ∷ ps))

-- No character of the list is the separator.
abbrev pub Without : ℕ → List Char → Type 0
Without sep cs = All (λ c. code c ≢ sep) cs

grow-Without :
    (sep : ℕ) (c : Char) (ps : List (List Char))
    → code c ≢ sep
    → All (Without sep) ps
    → All (Without sep) (grow c ps)
grow-Without sep c [] h k = ((h, tt), tt)
grow-Without sep c (p ∷ ps) h k = ((h, k.0), k.1)

-- No part of a split holds the separator.
pub split-Without : (sep : ℕ) (cs : List Char) → All (Without sep) (split sep cs)
unfolding split
split-Without sep [] = (tt, tt)
split-Without sep (c ∷ cs) = elim (Bool-cases (code c == sep)) [
  | inl here ↦ rw here (tt, split-Without sep cs)
  | inr other ↦
      rw other (grow-Without sep c (split sep cs) (ground (arith, other)) (split-Without sep cs))
]

abbrev pub IsNonempty {ℓ} : {A : Type ℓ} → List A → Type 0
IsNonempty [] = ⊥
IsNonempty (x ∷ xs) = Unit

grow-IsNonempty : (c : Char) (ps : List (List Char)) → IsNonempty (grow c ps)
grow-IsNonempty c [] = tt
grow-IsNonempty c (p ∷ ps) = tt

pub split-IsNonempty : (sep : ℕ) (cs : List Char) → IsNonempty (split sep cs)
unfolding split
split-IsNonempty sep [] = tt
split-IsNonempty sep (c ∷ cs) = elim (Bool-cases (code c == sep)) [
  | inl here ↦ rw here tt
  | inr other ↦ rw other (grow-IsNonempty c (split sep cs))
]

join-grow :
    (sep c : Char) (ps : List (List Char)) → IsNonempty ps → join sep (grow c ps) ≡ c ∷ join sep ps
join-grow sep c [] h = absurd h
join-grow sep c (p ∷ []) h = refl
join-grow sep c (p ∷ q ∷ ps) h = refl

join-empty :
    (sep : Char) (ps : List (List Char)) → IsNonempty ps → join sep ([] ∷ ps) ≡ sep ∷ join sep ps
join-empty sep [] h = absurd h
join-empty sep (p ∷ ps) h = refl

-- The parts of a split give the text back.
pub join-split : (sep : Char) (cs : List Char) → join sep (split (code sep) cs) ≡ cs
unfolding split
join-split sep [] = refl
join-split sep (c ∷ cs) =
    let rest = split-IsNonempty (code sep) cs in
    elim (Bool-cases (code c == code sep)) [
      | inl here ↦ rw here (
          join-empty sep (split (code sep) cs) rest
          ∙ ap (λ l. sep ∷ l) (join-split sep cs)
          ∙ ap (λ d. d ∷ cs) (sym (codes_equal c sep (ground (arith, here)))))
      | inr other ↦
          rw other
            (join-grow sep c (split (code sep) cs) rest ∙ ap (λ l. c ∷ l) (join-split sep cs))
    ]

pub text_of-chars : (s : String) → text_of (chars s) ≡ s
text_of-chars String.[] = refl
text_of-chars (String.◌∷◌ c s) = ap (String.◌∷◌ c) (text_of-chars s)

pub chars-text_of : (cs : List Char) → chars (text_of cs) ≡ cs
chars-text_of [] = refl
chars-text_of (c ∷ cs) = ap (λ l. c ∷ l) (chars-text_of cs)

split-one : (sep : ℕ) (p : List Char) → Without sep p → split sep p ≡ p ∷ []
unfolding split
split-one sep [] h = refl
split-one sep (c ∷ p) h =
    let other : code c == sep ≡ false = ground (arith, h.0) in rw (other, split-one sep p h.1) refl

split-next :
    (sep : Char) (p cs : List Char)
    → Without (code sep) p
    → split (code sep) (p ++ sep ∷ cs) ≡ p ∷ split (code sep) cs
unfolding split
split-next sep [] cs h = let here : code sep == code sep ≡ true = ground arith in rw here refl
split-next sep (c ∷ p) cs h =
    let other : code c == code sep ≡ false = ground (arith, h.0) in
    rw (other, split-next sep p cs h.1) refl

-- Parts without the separator are found again in the joined text.
pub split-join :
    (sep : Char) (ps : List (List Char))
    → IsNonempty ps
    → All (Without (code sep)) ps
    → split (code sep) (join sep ps) ≡ ps
split-join sep [] h k = absurd h
split-join sep (p ∷ []) h k = split-one (code sep) p k.0
split-join sep (p ∷ q ∷ ps) h k =
    split-next sep p (join sep (q ∷ ps)) k.0 ∙ ap (λ l. p ∷ l) (split-join sep (q ∷ ps) tt k.1)

pub Without-append :
    (sep : ℕ) (xs ys : List Char) → Without sep (xs ++ ys) ↔ (Without sep xs × Without sep ys)
Without-append sep [] ys = (λ h. (tt, h), λ h. h.1)
Without-append sep (x ∷ xs) ys =
    let rest = Without-append sep xs ys in
    (λ h. ((h.0, (rest.0 h.1).0), (rest.0 h.1).1), λ h. (h.0.0, rest.1 (h.0.1, h.1)))

pub join-Without :
    (sep : Char) (other : ℕ) (ps : List (List Char))
    → code sep ≢ other
    → Without other (join sep ps) ↔ All (Without other) ps
join-Without sep other [] k = (λ h. tt, λ h. tt)
join-Without sep other (p ∷ []) k = (λ h. (h, tt), λ h. h.0)
join-Without sep other (p ∷ q ∷ ps) k =
    let rest = join-Without sep other (q ∷ ps) k in
    let parts = Without-append other p (sep ∷ join sep (q ∷ ps)) in
    (λ h. ((parts.0 h).0, rest.0 (parts.0 h).1.1), λ h. parts.1 (h.0, (k, rest.1 h.1)))
