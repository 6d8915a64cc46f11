-- ===== src/Base/Texts.antt =====
-- `strings.Split` and `strings.Join` on texts.
use Prim.Native.Char.{Char, code}
use Prim.Native.String.{String}
use mathlib.Core.Path.{◌≡◌, refl, sym, subst}
use mathlib.Core.Logic.{◌≢◌, ◌↔◌}
use mathlib.Core.List.{List, [], ◌∷◌, map}
use thorchain_v.Base.Lists.{All}
use thorchain_v.Base.Chars.{
  chars, text_of, chars-text_of, text_of-chars, split, join, Without, IsNonempty, split-IsNonempty,
  split-Without, join-split, split-join, join-Without,
}

-- `strings.Split` and `strings.Join`, at a separator of one character.
unfoldable pub split_text : Char → String → List String
split_text sep s = map text_of (split (code sep) (chars s))

unfoldable pub join_text : Char → List String → String
join_text sep ps = text_of (join sep (map chars ps))

abbrev pub Lacks : Char → String → Type 0
Lacks sep s = Without (code sep) (chars s)

map-chars-text_of : (ps : List (List Char)) → map chars (map text_of ps) ≡ ps
map-chars-text_of [] = refl
map-chars-text_of (p ∷ ps) = λ i. chars-text_of p i ∷ map-chars-text_of ps i

map-text_of-chars : (ps : List String) → map text_of (map chars ps) ≡ ps
map-text_of-chars [] = refl
map-text_of-chars (p ∷ ps) = λ i. text_of-chars p i ∷ map-text_of-chars ps i

pub join_text-split_text : (sep : Char) (s : String) → join_text sep (split_text sep s) ≡ s
unfolding join_text split_text
join_text-split_text sep s =
    rw (map-chars-text_of (split (code sep) (chars s)), join-split sep (chars s)) (text_of-chars s)

Lacks-map :
    (sep : Char) (ps : List String) → All (Lacks sep) ps → All (Without (code sep)) (map chars ps)
Lacks-map sep [] h = tt
Lacks-map sep (p ∷ ps) h = (h.0, Lacks-map sep ps h.1)

map-Lacks :
    (sep : Char) (ps : List (List Char))
    → All (Without (code sep)) ps
    → All (Lacks sep) (map text_of ps)
map-Lacks sep [] h = tt
map-Lacks sep (p ∷ ps) h =
    (subst (Without (code sep)) (sym (chars-text_of p)) h.0, map-Lacks sep ps h.1)

pub IsNonempty-map {ℓ κ} :
    {A : Type ℓ} {B : Type κ} (f : A → B) (xs : List A) → IsNonempty xs → IsNonempty (map f xs)
IsNonempty-map f [] h = h
IsNonempty-map f (x ∷ xs) h = h

pub IsNonempty-unmap {ℓ κ} :
    {A : Type ℓ} {B : Type κ} (f : A → B) (xs : List A) → IsNonempty (map f xs) → IsNonempty xs
IsNonempty-unmap f [] h = h
IsNonempty-unmap f (x ∷ xs) h = tt

pub split_text-join_text :
    (sep : Char) (ps : List String)
    → IsNonempty ps
    → All (Lacks sep) ps
    → split_text sep (join_text sep ps) ≡ ps
unfolding join_text split_text
split_text-join_text sep ps h k =
    rw
      (
        chars-text_of (join sep (map chars ps)),
        split-join sep (map chars ps) (IsNonempty-map chars ps h) (Lacks-map sep ps k),
      )
      (map-text_of-chars ps)

pub split_text-Lacks : (sep : Char) (s : String) → All (Lacks sep) (split_text sep s)
unfolding split_text
split_text-Lacks sep s =
    map-Lacks sep (split (code sep) (chars s)) (split-Without (code sep) (chars s))

pub split_text-IsNonempty : (sep : Char) (s : String) → IsNonempty (split_text sep s)
unfolding split_text
split_text-IsNonempty sep s =
    IsNonempty-map text_of (split (code sep) (chars s)) (split-IsNonempty (code sep) (chars s))

All-chars_iff :
    (sep : Char) (ps : List String) → All (Without (code sep)) (map chars ps) ↔ All (Lacks sep) ps
All-chars_iff sep [] = (λ h. h, λ h. h)
All-chars_iff sep (p ∷ ps) =
    let rest = All-chars_iff sep ps in (λ h. (h.0, rest.0 h.1), λ h. (h.0, rest.1 h.1))

-- A joined text lacks another separator when its parts do.
pub join_text-Lacks :
    (sep other : Char) (ps : List String)
    → code sep ≢ code other
    → Lacks other (join_text sep ps) ↔ All (Lacks other) ps
unfolding join_text
join_text-Lacks sep other ps k =
    let joined = join-Without sep (code other) (map chars ps) k in
    let whole = chars-text_of (join sep (map chars ps)) in
    let each = All-chars_iff other ps in
    (
      λ h. each.0 (joined.0 (subst (Without (code other)) whole h)),
      λ h. subst (Without (code other)) (sym whole) (joined.1 (each.1 h)),
    )
