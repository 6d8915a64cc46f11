-- ===== src/Clp/Rest/Query/Listed.antt =====
-- The list of all pools of x/clp/client/rest/query.go against the answers for single pools.
use thorchain_v.Base.{
  ◌≡◌, ◌↔◌, refl, sym, subst, ◌∙◌, String, ◌<>◌, false, some, List, [], ◌∷◌, map, All,
}
use thorchain_v.Sdk.Web.{value, ◌>>=◌, done, bind-eq-value}
use thorchain_v.Clp.{Clp}
use thorchain_v.Clp.Keeper.{make_clp_store_key}
use thorchain_v.Clp.Rest.Query.{
  QueryEnv, parsed, clp_to_json_output, query_clp, parse_all, output_all, write_outputs, query_clps,
}

module _ (E : QueryEnv) where
  -- The request for the ticker finds this value.
  abbrev pub IsStored : String × E.clp.store.Bytes → Type 0
  IsStored e = (E.query_store (make_clp_store_key e.0) ≡ done (some e.1)) × (E.is_empty e.1 ≡ false)

  -- The requests for single pools give these outputs, in this order.
  abbrev pub Single : List (String × E.clp.store.Bytes) → List String → Type 0
  Single [] [] = Unit
  Single (e ∷ es) (o ∷ os) = (query_clp E e.0 ≡ value o) × Single es os
  Single [] (o ∷ os) = ⊥
  Single (e ∷ es) [] = ⊥

  abbrev keyed : String × E.clp.store.Bytes → String × E.clp.store.Bytes
  keyed e = (make_clp_store_key e.0, e.1)

  query_clp-IsStored :
      (e : String × E.clp.store.Bytes)
      → IsStored e
      → query_clp E e.0 ≡ (parsed E e.1 >>= clp_to_json_output E)
  unfolding query_clp
  query_clp-IsStored e h = rw (h.0, h.1) refl

  Single-of_outputs :
      (es : List (String × E.clp.store.Bytes)) (clps : List Clp) (os : List String)
      → All IsStored es
      → parse_all E (map keyed es) ≡ value clps
      → output_all E clps ≡ value os
      → Single es os
  unfolding parse_all output_all
  Single-of_outputs [] clps os h e f =
      let none_parsed : [] ≡ clps = cc e in
      let none_put : output_all E [] ≡ value os =
        subst (λ cs. output_all E cs ≡ value os) (sym none_parsed) f in
      let same : [] ≡ os = cc none_put in subst (Single []) same tt
  Single-of_outputs (x ∷ es) clps os h e f =
      let (clp, e1, f1) = bind-eq-value (parsed E x.1) _ e in
      let (more, e2, f2) = bind-eq-value (parse_all E (map keyed es)) _ f1 in
      let all : clp ∷ more ≡ clps = cc f2 in
      let put : output_all E (clp ∷ more) ≡ value os =
        subst (λ cs. output_all E cs ≡ value os) (sym all) f in
      let (o, g1, g2) = bind-eq-value (clp_to_json_output E clp) _ put in
      let (outs, g3, g4) = bind-eq-value (output_all E more) _ g2 in
      let same : o ∷ outs ≡ os = cc g4 in
      let first : query_clp E x.0 ≡ value o = query_clp-IsStored x h.0 ∙ rw e1 g1 in
      subst (Single (x ∷ es)) same (first, Single-of_outputs es more outs h.1 e2 g3)

  outputs-of_Single :
      (es : List (String × E.clp.store.Bytes)) (os : List String)
      → All IsStored es
      → Single es os
      → (clps : List Clp) × (parse_all E (map keyed es) ≡ value clps)
        × (output_all E clps ≡ value os)
  unfolding parse_all output_all
  outputs-of_Single [] [] h k = ([], refl, refl)
  outputs-of_Single [] (o ∷ os) h k = absurd k
  outputs-of_Single (x ∷ es) [] h k = absurd k
  outputs-of_Single (x ∷ es) (o ∷ os) h k =
      let (clp, e1, f1) =
        bind-eq-value (parsed E x.1) (clp_to_json_output E)
          (sym (query_clp-IsStored x h.0) ∙ k.0) in
      let (clps, e2, f2) = outputs-of_Single es os h.1 k.1 in
      (clp ∷ clps, rw (e1, e2) refl, rw (f1, f2) refl)

  -- For a node that has the same pools under the prefix and under their tickers, none of them
  -- empty: the request for all pools succeeds exactly if the requests for the single pools all
  -- do, with their outputs in the order of the store.
  pub query_clps-query_clp :
      (es : List (String × E.clp.store.Bytes)) (body : String)
      → E.query_subspace "clp:" ≡ done (some (map keyed es))
      → All IsStored es
      → (query_clps E ≡ value body)
        ↔ ((os : List String) × Single es os × (body ≡ "[" <> (write_outputs E os <> "]")))
  unfolding query_clps
  query_clps-query_clp es body s h = (
    λ e.
        let all : query_clps E ≡ (
            parse_all E (map keyed es) >>= λ clps.
            output_all E clps >>= λ os. value ("[" <> (write_outputs E os <> "]"))) =
          rw s refl in
        let (clps, e1, f1) = bind-eq-value (parse_all E (map keyed es)) _ (sym all ∙ e) in
        let (os, e2, f2) = bind-eq-value (output_all E clps) _ f1 in
        (os, Single-of_outputs es clps os h e1 e2, cc f2),
    λ (os, k, same). let (clps, e, f) = outputs-of_Single es os h k in rw (s, e, f, same) refl,
  )
