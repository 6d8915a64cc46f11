-- ===== src/Clp/Rest/Posted.antt =====
-- Which requests to x/clp/client/rest/tx.go reach the node.
use thorchain_v.Base.{ℕ, ◌≡◌, refl, sym, subst, inl, inr, String, Option, none, some, [], ◌∷◌}
use thorchain_v.Sdk.Types.{Address, SdkError}
use thorchain_v.Sdk.Web.{
  Response, refusal, Web, value, ◌>>=◌, plain, Call, done, error, or_refuse, bind-eq-value,
  or_refuse-eq-value,
}
use thorchain_v.Clp.{MsgCreate, MsgTrade, validate_create, validate_trade}
use thorchain_v.Clp.Rest.{
  BaseReq, ClpCreateBody, ClpTradeBody, ClpMsg, create, trade, RestEnv, base_req_validate,
  build_req, sign_and_build, validated, prepare_create, prepare_trade, finish, post_clp, broadcast,
  node_answer, json_answer, post_clp_trade,
}
use thorchain_v.Clp.Rest.Steps.{
  IsClientError, Refusing, passed, refused, bind_cases, or_refuse-Refusing, IsComplete,
  base_req_validate_iff, base_req_validate-Refusing,
}

-- How the node's result is answered: as it is printed, or with 500 for an error of the node or of the
-- printing.
pub data Answers (E : RestEnv) : Call E.Result → Response → Type 0 where
  printed :
      (res : E.Result) (text : String)
      → E.marshal_json_indent res ≡ done text
      → Answers E (done res) (plain text)
  not_printed :
      (res : E.Result) (text : String)
      → E.marshal_json_indent res ≡ error text
      → Answers E (done res) (refusal 500 text)
  failed : (text : String) → Answers E (error text) (refusal 500 text)

printed-Answers :
    (E : RestEnv) (res : E.Result) (c : Call String)
    → E.marshal_json_indent res ≡ c
    → Answers E (done res) (json_answer E c)
printed-Answers E res (done text) e = printed res text e
printed-Answers E res (error text) e = not_printed res text e

node_answer-Answers : (E : RestEnv) (c : Call E.Result) → Answers E c (node_answer E c)
node_answer-Answers E (done res) = printed-Answers E res (E.marshal_json_indent res) refl
node_answer-Answers E (error text) = failed text

module _ (E : RestEnv) where
  validated-Refusing : (o : _) → Refusing (validated E o)
  validated-Refusing none = passed tt
  validated-Refusing (some e) = refused 400 (E.error_text e) (inl refl)

  validated-eq-value : (o : _) → validated E o ≡ value tt → o ≡ none
  validated-eq-value none e = refl
  validated-eq-value (some x) e = cc e

  module _ {Req M : Type 0} (unmarshal : E.Bytes → Call Req) (base : Req → BaseReq)
      (to_msg : Address → Req → M) (validate : M → Option SdkError) (make : M → ClpMsg) where
    build_req-Refusing : (r : E.Body) → Refusing (build_req E unmarshal r)
    unfolding build_req
    build_req-Refusing r =
        bind_cases Refusing (or_refuse 400 (E.read_all r)) (λ bz. or_refuse 400 (unmarshal bz))
          (or_refuse-Refusing 400 (E.read_all r) (inl refl)) refused
          (λ bz e. or_refuse-Refusing 400 (unmarshal bz) (inl refl))

    build_req-eq-value :
        (r : E.Body) (req : Req)
        → build_req E unmarshal r ≡ value req
        → (bz : E.Bytes) × (E.read_all r ≡ done bz) × (unmarshal bz ≡ done req)
    unfolding build_req
    build_req-eq-value r req e =
        let (bz, e1, e2) = bind-eq-value (or_refuse 400 (E.read_all r)) _ e in
        (
          bz,
          or_refuse-eq-value 400 (E.read_all r) bz e1,
          or_refuse-eq-value 400 (unmarshal bz) req e2,
        )

    -- What both handlers do up to `signAndBuild`.
    abbrev prepared : E.Body → Web (BaseReq × M)
    prepared r = build_req E unmarshal r >>= λ req. base_req_validate (base req) >>= λ _.
        or_refuse 401 (E.key_address (base req).name) >>= λ sender.
        validated E (validate (to_msg sender req)) >>= λ _. value (base req, to_msg sender req)

    -- The transaction with one message, signed with the key and the password of the request.
    abbrev pub signed : BaseReq → ClpMsg → Call E.Tx
    signed req msg =
        E.build_and_sign
          (record {
            account_number = req.account_number;
            sequence = req.sequence;
            gas = req.gas;
            chain_id = req.chain_id;
          })
          req.name req.password (msg ∷ [])

    -- The request can be read, is complete and names a key, and the message made of it is valid.
    pub record IsAccepted (r : E.Body) (body : Req) (sender : Address) : Type 0 where
      pub bytes : E.Bytes
      pub read : E.read_all r ≡ done bytes
      pub decoded : unmarshal bytes ≡ done body
      pub complete : IsComplete (base body)
      pub known : E.key_address (base body).name ≡ done sender
      pub valid : validate (to_msg sender body) ≡ none

    prepared-accepts :
        (r : E.Body) (body : Req) (sender : Address)
        → IsAccepted r body sender
        → prepared r ≡ value (base body, to_msg sender body)
    unfolding build_req
    prepared-accepts r body sender h =
        rw (h.read, h.decoded, (base_req_validate_iff (base body)).1 h.complete, h.known, h.valid)
          refl

    prepared-Refusing : (r : E.Body) → Refusing (prepared r)
    prepared-Refusing r =
        bind_cases Refusing (build_req E unmarshal r) _ (build_req-Refusing r) refused (λ req e1.
          bind_cases Refusing (base_req_validate (base req)) _
            (base_req_validate-Refusing (base req)) refused
            (λ x e2.
              bind_cases Refusing (or_refuse 401 (E.key_address (base req).name)) _
                (or_refuse-Refusing 401 (E.key_address (base req).name) (inr refl)) refused
                (λ sender e3.
                  bind_cases Refusing (validated E (validate (to_msg sender req))) _
                    (validated-Refusing (validate (to_msg sender req))) refused
                    (λ y e4. passed (base req, to_msg sender req)))))

    prepared-eq-value :
        (r : E.Body) (p : BaseReq × M)
        → prepared r ≡ value p
        → (body : Req) × (sender : Address) × (p ≡ (base body, to_msg sender body))
          × IsAccepted r body sender
    prepared-eq-value r p e =
        let (req, e1, f1) = bind-eq-value (build_req E unmarshal r) _ e in
        let (x, e2, f2) = bind-eq-value (base_req_validate (base req)) _ f1 in
        let (sender, e3, f3) = bind-eq-value (or_refuse 401 (E.key_address (base req).name)) _ f2 in
        let (y, e4, f4) = bind-eq-value (validated E (validate (to_msg sender req))) _ f3 in
        let (bz, read, decoded) = build_req-eq-value r req e1 in
        (
          req,
          sender,
          cc f4,
          record {
            bytes = bz;
            read = read;
            decoded = decoded;
            complete = (base_req_validate_iff (base req)).0 e2;
            known = or_refuse-eq-value 401 (E.key_address (base req).name) sender e3;
            valid = validated-eq-value (validate (to_msg sender req)) e4;
          },
        )

    -- How a request ends. It is accepted and signed, and its message alone is broadcast; or it is
    -- accepted, and the signing fails, with a wrong password for one; or it is not accepted. The last
    -- two are answered with a client error, and the node hears nothing of them.
    pub data Posted (r : E.Body) (s : E.State) : Response × E.State → Type 0 where
      sent :
          (body : Req) (sender : Address) (tx : E.Tx) (response : Response)
          → IsAccepted r body sender
          → signed (base body) (make (to_msg sender body)) ≡ done tx
          → Answers E (E.broadcast_tx tx s).0 response
          → Posted r s (response, (E.broadcast_tx tx s).1)
      not_signed :
          (body : Req) (sender : Address) (text : String)
          → IsAccepted r body sender
          → signed (base body) (make (to_msg sender body)) ≡ error text
          → Posted r s (refusal 401 text, s)
      rejected :
          (status : ℕ) (text : String)
          → IsClientError status
          → ((body : Req) (sender : Address) → ¬ IsAccepted r body sender)
          → Posted r s (refusal status text, s)

    answered :
        (r : E.Body) (s : E.State) (body : Req) (sender : Address) (c : Call E.Tx)
        → IsAccepted r body sender
        → signed (base body) (make (to_msg sender body)) ≡ c
        → Posted r s (broadcast E c s)
    answered r s body sender (done tx) h e =
        sent body sender tx (node_answer E (E.broadcast_tx tx s).0) h e
          (node_answer-Answers E (E.broadcast_tx tx s).0)
    answered r s body sender (error text) h e = not_signed body sender text h e

    posted :
        (r : E.Body) (s : E.State) (m : Web (BaseReq × M))
        → prepared r ≡ m
        → Refusing m
        → Posted r s (finish E make m s)
    unfolding sign_and_build
    posted r s _ e (passed p) =
        let (body, sender, same, h) = prepared-eq-value r p e in
        subst (λ q. Posted r s (finish E make (value q) s)) (sym same)
          (answered r s body sender _ h refl)
    posted r s _ e (refused status text h) =
        rejected status text h
          (λ body sender k. let known = prepared-accepts r body sender k in cc (known, e))

    prepared-Posted : (r : E.Body) (s : E.State) → Posted r s (finish E make (prepared r) s)
    prepared-Posted r s = posted r s (prepared r) refl (prepared-Refusing r)

  abbrev pub create_of : Address → ClpCreateBody → MsgCreate
  create_of sender req = record {
    sender = sender;
    ticker = req.ticker;
    name = req.token_name;
    decimals = req.decimals;
    reserve_ratio = req.reserve_ratio;
    initial_supply = req.initial_supply;
    initial_base_coin_amount = req.initial_rune_amount;
  }

  abbrev pub trade_of : Address → ClpTradeBody → MsgTrade
  trade_of sender req = record {
    sender = sender;
    from_ticker = req.from_ticker;
    to_ticker = req.to_ticker;
    from_amount = req.from_amount;
  }

  -- A request that makes a pool or a trade goes to the node exactly if it can be read, names a
  -- key, a password and a chain, has no negative account number or sequence, gives a valid message,
  -- and is signed with that key and password: then the transaction with that message is broadcast,
  -- once, and the answer is the node's result, or 500 for an error. Else the request is answered
  -- with status 400 or 401 and the node hears nothing of it.
  pub post_clp-Posted :
      (r : E.Body) (s : E.State)
      → Posted E.unmarshal_create
          (λ b. b.base_req)
          create_of
          validate_create
          create
          r
          s
          (post_clp E r s)
        × Posted E.unmarshal_trade
            (λ b. b.base_req)
            trade_of
            validate_trade
            trade
            r
            s
            (post_clp_trade E r s)
  unfolding post_clp prepare_create post_clp_trade prepare_trade
  post_clp-Posted r s = (
    prepared-Posted E.unmarshal_create (λ b. b.base_req) create_of validate_create create r s,
    prepared-Posted E.unmarshal_trade (λ b. b.base_req) trade_of validate_trade trade r s,
  )
