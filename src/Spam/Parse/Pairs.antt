-- ===== src/Spam/Parse/Pairs.antt =====
-- What the pairs are that the flag for limit orders can hold.
use Prim.Native.Char.{code}
use thorchain_v.Base.{
  String, ◌≡◌, refl, sym, ap, subst, ◌∙◌, ◌≢◌, ◌↔◌, ◌⊎◌, inl, inr, List, [], ◌∷◌, map, eq_iff, ◌==◌,
  true, Bool-cases, length, All, All-imp, arith,
}
use thorchain_v.Base.Chars.{split, IsNonempty}
use thorchain_v.Base.Texts.{
  split_text, join_text, Lacks, join_text-split_text, split_text-join_text, split_text-Lacks,
  split_text-IsNonempty, IsNonempty-map, IsNonempty-unmap, join_text-Lacks,
}
use thorchain_v.Spam.Parse.{
  FlagError, comma, colon, cons_ok, SpamCtx, Flags, with_clps, read_flags, parse_clps, parse_pairs,
  parse_limit_order_pairs, IsPair, show_pairs,
}

abbrev IsDouble : List String → Type 0
IsDouble denoms = (length denoms ≡ 2) × All (Lacks colon) denoms

cons_ok_right :
    (x : List String) (r : FlagError ⊎ List (List String)) (l : List (List String))
    → cons_ok x r ≡ inr l
    → (xs : List (List String)) × (r ≡ inr xs) × (l ≡ x ∷ xs)
cons_ok_right x (inl e) l h = absurd (ground (arith, h))
cons_ok_right x (inr xs) l h = (xs, refl, ground (arith, h))

abbrev Parts : List String → List (List String) → Type 0
Parts pairs result = (map (join_text colon) result ≡ pairs) × All IsDouble result

parse_pairs_sound :
    (pairs : List String) (result : List (List String))
    → parse_pairs pairs ≡ inr result
    → Parts pairs result
unfolding parse_pairs
parse_pairs_sound [] result h =
    let e : [] ≡ result = ground (arith, h) in subst (Parts []) e (refl, tt)
parse_pairs_sound (pair ∷ pairs) result h =
    elim (Bool-cases (length (split_text colon pair) == 2)) [
      | inl two ↦
          let step =
            cons_ok_right (split_text colon pair) (parse_pairs pairs) result
              (ground (arith, h, two)) in
          let rest = parse_pairs_sound pairs step.0 step.1 in
          subst (Parts (pair ∷ pairs)) (sym step.2) (
            (λ i. join_text-split_text colon pair i ∷ rest.0 i),
            (((ground (arith, two)), split_text-Lacks colon pair), rest.1),
          )
      | inr other ↦ absurd (ground (arith, h, other))
    ]

IsDouble-IsNonempty : (ds : List String) → length ds ≡ 2 → IsNonempty ds
IsDouble-IsNonempty [] h = absurd (omega arith)
IsDouble-IsNonempty (d ∷ ds) h = tt

parse_pairs_complete :
    (result : List (List String))
    → All IsDouble result
    → parse_pairs (map (join_text colon) result) ≡ inr result
unfolding parse_pairs
parse_pairs_complete [] h = refl
parse_pairs_complete (ds ∷ result) h =
    let two : length ds == 2 ≡ true = ground (arith, h.0.0) in
    rw
      (
        split_text-join_text colon ds (IsDouble-IsNonempty ds h.0.0) h.0.1,
        two,
        parse_pairs_complete result h.1,
      )
      refl

colon-comma : code colon ≢ code comma
colon-comma = λ e. omega arith

comma-colon : code comma ≢ code colon
comma-colon = λ e. omega arith

-- The pairs of a text that lacks commas around them.
IsPair-All :
    (result : List (List String))
    → All (Lacks comma) (map (join_text colon) result)
    → All IsDouble result
    → All IsPair result
IsPair-All [] h k = tt
IsPair-All (ds ∷ result) h k = (
  record {
    two = k.0.0;
    no_colon = k.0.1;
    no_comma = (join_text-Lacks colon comma ds colon-comma).0 h.0;
  },
  IsPair-All result h.1 k.1,
)

IsPair-IsDouble : (result : List (List String)) → All IsPair result → All IsDouble result
IsPair-IsDouble = All-imp IsPair IsDouble (λ ds p. (p.two, p.no_colon))

IsPair-comma :
    (result : List (List String))
    → All IsPair result
    → All (Lacks comma) (map (join_text colon) result)
IsPair-comma [] h = tt
IsPair-comma (ds ∷ result) h =
    ((join_text-Lacks colon comma ds colon-comma).1 h.0.no_comma, IsPair-comma result h.1)

show_pairs-nonempty :
    (pairs : List (List String)) → IsNonempty pairs → All IsPair pairs → show_pairs pairs ≢ ""
unfolding split_text split
show_pairs-nonempty [] h k e = absurd h
show_pairs-nonempty (ds ∷ pairs) h k e =
    let parts =
      split_text-join_text comma (map (join_text colon) (ds ∷ pairs)) tt
        (IsPair-comma (ds ∷ pairs) k) in
    let blank : "" ∷ [] ≡ join_text colon ds ∷ map (join_text colon) pairs =
      sym (ap (split_text comma) e) ∙ parts in
    let first : "" ≡ join_text colon ds = ground (arith, blank) in
    let again : "" ∷ [] ≡ ds =
      ap (split_text colon) first
      ∙ split_text-join_text colon ds (IsDouble-IsNonempty ds k.0.two) k.0.no_colon in
    ground (arith, again, k.0.two)

-- The flag is parsed exactly to the lists of pairs, at least one, that it spells: two
-- denominations in each, which hold neither separator.
pub parse_limit_order_pairs_iff :
    (input : String) (pairs : List (List String))
    → (parse_limit_order_pairs input ≡ inr pairs)
      ↔ (IsNonempty pairs × All IsPair pairs × (show_pairs pairs ≡ input))
unfolding parse_limit_order_pairs
parse_limit_order_pairs_iff input pairs = (
  λ h.
      let given : parse_pairs (split_text comma input) ≡ inr pairs =
        ground (arith, h, eq_iff input "") in
      let parts = parse_pairs_sound (split_text comma input) pairs given in
      let at = split_text-Lacks comma input in
      (
        IsNonempty-unmap (join_text colon) pairs
            (subst IsNonempty (sym parts.0) (split_text-IsNonempty comma input)),
        IsPair-All pairs (subst (All (Lacks comma)) (sym parts.0) at) parts.1,
        ap (join_text comma) parts.0 ∙ join_text-split_text comma input,
      ),
  λ h.
      let some_text = show_pairs-nonempty pairs h.0 h.1 in
      let parts =
        split_text-join_text comma (map (join_text colon) pairs)
          (IsNonempty-map (join_text colon) pairs h.0) (IsPair-comma pairs h.1) in
      let back : parse_pairs (split_text comma input) ≡ inr pairs =
        ap (λ s. parse_pairs (split_text comma s)) (sym h.2)
        ∙ ap parse_pairs parts
        ∙ parse_pairs_complete pairs (IsPair-IsDouble pairs h.1) in
      ground (arith, back, some_text, h.2, eq_iff input ""),
)

with_clps-pairs :
    (chain_id : String) (clps : FlagError ⊎ List String) (pairs : FlagError ⊎ List (List String))
    (ctx : SpamCtx)
    → with_clps chain_id clps pairs ≡ inr ctx
    → pairs ≡ inr ctx.limit_order_pairs
with_clps-pairs chain_id (inl e) pairs ctx h = absurd (ground (arith, h))
with_clps-pairs chain_id (inr clps) (inl e) ctx h = absurd (ground (arith, h))
with_clps-pairs chain_id (inr clps) (inr pairs) ctx h = ground (arith, h)

pub read_flags-pairs :
    (flags : Flags) (ctx : SpamCtx)
    → read_flags flags ≡ inr ctx
    → parse_limit_order_pairs flags.limit_order_pairs ≡ inr ctx.limit_order_pairs
unfolding read_flags
read_flags-pairs flags ctx h =
    with_clps-pairs flags.chain_id (parse_clps flags.clps)
      (parse_limit_order_pairs flags.limit_order_pairs) ctx
      (ground (arith, h, eq_iff flags.chain_id "", eq_iff flags.spam_password ""))
