-- ===== src/Spam/Parse.antt =====
-- The flags of cmd/thorchainspam/txs/send.go: `parseClps` and `parseLimitOrderPairs`.
pub mod Pairs
use Prim.Native.Char.{Char}
use thorchain_v.Base.{
  String, ◌≡◌, refl, sym, ap, subst, ◌∙◌, ◌≢◌, ◌↔◌, ◌⊎◌, inl, inr, List, [], ◌∷◌, map, str_eq,
  eq_iff, ◌==◌, if◌then◌else◌, true, false, Bool-cases, length, All, arith,
}
use thorchain_v.Base.Chars.{IsNonempty}
use thorchain_v.Base.Texts.{
  split_text, join_text, Lacks, join_text-split_text, split_text-join_text, split_text-Lacks,
  split_text-IsNonempty,
}

pub data FlagError : Type 0 where
  chain_id_required : FlagError
  spam_password_required : FlagError
  clps_required : FlagError
  limit_order_pairs_required : FlagError
  invalid_pair : String → FlagError

abbrev pub comma : Char
comma = ","

abbrev pub colon : Char
colon = ":"

unfoldable pub parse_clps : String → FlagError ⊎ List String
parse_clps input = if str_eq input "" then inl clps_required else inr (split_text comma input)

abbrev pub cons_ok : List String → FlagError ⊎ List (List String) → FlagError ⊎ List (List String)
cons_ok denoms (inl e) = inl e
cons_ok denoms (inr result) = inr (denoms ∷ result)

-- The loop over the pairs; the first one that has not two parts is the error.
unfoldable pub parse_pairs : List String → FlagError ⊎ List (List String)
parse_pairs [] = inr []
parse_pairs (pair ∷ pairs) =
    let denoms = split_text colon pair in
    let rest = parse_pairs pairs in
    if length denoms == 2 then cons_ok denoms rest else inl (invalid_pair pair)

unfoldable pub parse_limit_order_pairs : String → FlagError ⊎ List (List String)
unfolding parse_pairs
parse_limit_order_pairs input =
    if str_eq input "" then inl limit_order_pairs_required else parse_pairs (split_text comma input)

-- `TKNA:TKNB`, with neither separator in a denomination.
pub record IsPair (denoms : List String) : Type 0 where
  pub two : length denoms ≡ 2
  pub no_colon : All (Lacks colon) denoms
  pub no_comma : All (Lacks comma) denoms

abbrev pub show_pairs : List (List String) → String
show_pairs pairs = join_text comma (map (join_text colon) pairs)

pub record Flags : Type 0 where
  pub chain_id : String
  pub spam_password : String
  pub clps : String
  pub limit_order_pairs : String

-- What every spammer is given.
pub record SpamCtx : Type 0 where
  pub chain_id : String
  pub clps : List String
  pub limit_order_pairs : List (List String)

abbrev with_pairs : String → List String → FlagError ⊎ List (List String) → FlagError ⊎ SpamCtx
with_pairs chain_id clps (inl e) = inl e
with_pairs chain_id clps (inr pairs) =
    inr (record { chain_id = chain_id; clps = clps; limit_order_pairs = pairs })

abbrev with_clps :
    String → FlagError ⊎ List String → FlagError ⊎ List (List String) → FlagError ⊎ SpamCtx
with_clps chain_id (inl e) pairs = inl e
with_clps chain_id (inr clps) pairs = with_pairs chain_id clps pairs

-- `GetTxsSend`, up to the context that it makes.
unfoldable pub read_flags : Flags → FlagError ⊎ SpamCtx
unfolding parse_clps parse_limit_order_pairs
read_flags flags =
    if str_eq flags.chain_id ""
    then inl chain_id_required
    else if str_eq flags.spam_password ""
    then inl spam_password_required
    else with_clps flags.chain_id (parse_clps flags.clps)
        (parse_limit_order_pairs flags.limit_order_pairs)
