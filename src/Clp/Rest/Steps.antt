-- ===== src/Clp/Rest/Steps.antt =====
-- The checks of x/clp/client/rest/util.go: how they refuse, and what they let through.
use thorchain_v.Base.{
  ℕ, ◌≡◌, ◌≢◌, ◌⊎◌, ◌↔◌, refl, inr, String, Bool, true, false, arith, eq_iff, str_eq,
}
use thorchain_v.Base.Int.{pos, ltb_ℤ, ◌≤ℤ◌}
use thorchain_v.Sdk.Web.{
  refusal, Web, value, answer, ◌>>=◌, ◌>>◌, refuse_if, Call, done, error, or_refuse,
}
use thorchain_v.Clp.Rest.{BaseReq, base_req_validate}

abbrev pub IsClientError : ℕ → Type 0
IsClientError status = (status ≡ 400) ⊎ (status ≡ 401)

-- A step that refuses does so with one of the two statuses.
pub data Refusing {A : Type 0} : Web A → Type 0 where
  passed : (a : A) → Refusing (value a)
  refused :
      (status : ℕ) (text : String) → IsClientError status → Refusing (answer (refusal status text))

pub bind_cases :
    {A B : Type 0} (P : Web B → Type 0) (m : Web A) (f : A → Web B)
    → Refusing m
    → ((status : ℕ) (text : String) → IsClientError status → P (answer (refusal status text)))
    → ((a : A) → m ≡ value a → P (f a))
    → P (m >>= f)
bind_cases P _ f (passed a) stop next = next a refl
bind_cases P _ f (refused status text h) stop next = stop status text h

pub or_refuse-Refusing :
    {A : Type 0} (status : ℕ) (c : Call A) → IsClientError status → Refusing (or_refuse status c)
or_refuse-Refusing status (done a) h = passed a
or_refuse-Refusing status (error text) h = refused status text h

refuse_if-Refusing :
    (c : Bool) (text : String) (m : Web (Unit {0}))
    → Refusing m
    → Refusing (refuse_if c 401 text >> m)
refuse_if-Refusing true text m h = refused 401 text (inr refl)
refuse_if-Refusing false text m h = h

-- The fields that a request cannot do without.
pub record IsComplete (req : BaseReq) : Type 0 where
  pub name : req.name ≢ ""
  pub password : req.password ≢ ""
  pub chain_id : req.chain_id ≢ ""
  pub account_number : pos 0 ≤ℤ req.account_number
  pub sequence : pos 0 ≤ℤ req.sequence

pub base_req_validate_iff : (req : BaseReq) → (base_req_validate req ≡ value tt) ↔ IsComplete req
unfolding base_req_validate
base_req_validate_iff req = (
  λ e. record {
    name = ground (arith, e, eq_iff req.name "");
    password = ground (arith, e, eq_iff req.password "");
    chain_id = ground (arith, e, eq_iff req.chain_id "");
    account_number = ground (arith, e);
    sequence = ground (arith, e);
  },
  λ h. ground (
    arith,
    h.name,
    h.password,
    h.chain_id,
    h.account_number,
    h.sequence,
    eq_iff req.name "",
    eq_iff req.password "",
    eq_iff req.chain_id "",
  ),
)

last-Refusing : (c : Bool) (text : String) → Refusing (refuse_if c 401 text)
last-Refusing true text = refused 401 text (inr refl)
last-Refusing false text = passed tt

checks-Refusing :
    (a b c d e : Bool) (ta tb tc td te : String)
    → Refusing (
        refuse_if a 401 ta
        >> (refuse_if b 401 tb
            >> (refuse_if c 401 tc >> (refuse_if d 401 td >> refuse_if e 401 te))))
checks-Refusing a b c d e ta tb tc td te = refuse_if-Refusing a ta _ (
    refuse_if-Refusing b tb _
      (refuse_if-Refusing c tc _ (refuse_if-Refusing d td _ (last-Refusing e te))))

pub base_req_validate-Refusing : (req : BaseReq) → Refusing (base_req_validate req)
unfolding base_req_validate
base_req_validate-Refusing req =
    checks-Refusing (str_eq req.name "") (str_eq req.password "") (str_eq req.chain_id "")
      (ltb_ℤ req.account_number (pos 0)) (ltb_ℤ req.sequence (pos 0)) _ _ _ _ _
