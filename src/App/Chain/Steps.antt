-- ===== src/App/Chain/Steps.antt =====
-- What the initial state, messages and blocks of the application do to the exchange.
use thorchain_v.Base.{◌≡◌, refl, sym, ap, subst, ◌∙◌, Option, none, some}
use thorchain_v.Sdk.Types.{Time, SdkError}
use thorchain_v.Sdk.Keeper.{Keeper, Outcome, ok, panic, bind-eq-ok, ◌>>=◌, check, resume, pure}
use thorchain_v.Exchange.Env
use thorchain_v.Exchange.Env.{World}
use thorchain_v.Exchange.Book.Keys.{NoColon}
use thorchain_v.Exchange.Chain.{IsFresh, genesis-IsKept}
use thorchain_v.Exchange.Message
use thorchain_v.Exchange.Message.{
  new_handler, MsgCreateLimitOrder, init_genesis, handle_msg_create_limit_order, begin_blocker,
}
use thorchain_v.Exchange.Store.Laws.{IsValidStore}
use thorchain_v.Exchange.Store.Ids.{IsReadable}
use thorchain_v.Exchange.Process.Keeps.{IsKept, Keeps}
use thorchain_v.Exchange.Process.Whole.{process_limit_order-Keeps}
use thorchain_v.Exchange.Refund.Whole.{refund_expired_limit_orders-IsKept}
use thorchain_v.Clp.Handler
use thorchain_v.App.Genesis.{GenesisState}
use thorchain_v.App.Chain.{
  AppEnv, Stores, AppMsg, exchange_msg, clp_msg, sdk_msg, init_chainer, app_begin_blocker,
  app_end_blocker, deliver, clp_call, clp_env, exchange_call, sdk_call, or_panic, load_accounts,
  init_state, start_modules,
}

module _ (A : AppEnv) (L : Env.IsLawful A.exchange) where
  -- The amounts of limit orders are in denoms without a colon.
  abbrev pub IsPlain : AppMsg A → Type 0
  IsPlain (exchange_msg (Message.limit_order msg)) = NoColon msg.amount.denom
  IsPlain (exchange_msg Message.unrecognized) = Unit
  IsPlain (clp_msg msg) = Unit
  IsPlain (sdk_msg msg) = Unit

  abbrev world : Stores A → World A.exchange
  world s = record { bank = s.bank; store = s.exchange }

  -- The order books are valid, and the next order id can be read.
  pub record IsSound (st : A.exchange.store.State) : Type 0 where
    pub valid : IsValidStore A.exchange st
    pub readable : IsReadable A.exchange L st

  -- A step that ends well and keeps the exchange as it is.
  same_exchange :
      {R : Type 0} (m : Keeper (Stores A) R) (s t : Stores A) (r : R)
      → m s ≡ (ok r, t)
      → (m s).1.exchange ≡ s.exchange
      → t.exchange ≡ s.exchange
  same_exchange m s t r e same = sym (ap (λ p. p.1.exchange) e) ∙ same

  or_panic-exchange :
      {R : Type 0} (o : Option R) (s : Stores A) → (or_panic A o s).1.exchange ≡ s.exchange
  or_panic-exchange none s = refl
  or_panic-exchange (some r) s = refl

  -- A call of the SDK keeps the exchange as it is.
  sdk_call-exchange :
      {R : Type 0}
      (f : A.exchange.bank.State × A.Others → Option R × (A.exchange.bank.State × A.Others))
      (s t : Stores A) (r : R)
      → sdk_call A f s ≡ (ok r, t)
      → t.exchange ≡ s.exchange
  sdk_call-exchange f s t r e =
      let (o, core) = f (s.bank, s.others) in
      same_exchange (sdk_call A f) s t r e
        (or_panic-exchange o (record s { bank = core.0; others = core.1 }))

  exchange_call-IsSound :
      {R : Type 0} (f : Keeper (World A.exchange) R) (s t : Stores A) (r : R)
      → ((v : World A.exchange) → f (world s) ≡ (ok r, v) → IsKept A.exchange L (world s) v)
      → exchange_call A f s ≡ (ok r, t)
      → IsSound t.exchange
  exchange_call-IsSound f s t r h e =
      let v = (f (world s)).1 in
      let ended_well : f (world s) ≡ (ok r, v) = λ i. (ap (λ p. p.0) e i, v) in
      let kept = h v ended_well in
      subst IsSound (ap (λ p. p.1.exchange) e)
        (record { valid = kept.valid; readable = kept.readable })

  -- After a step that may panic.
  after_or_panic :
      {R T : Type 0} (P : Outcome T × Stores A → Type 0) (o : Option R)
      (f : R → Keeper (Stores A) T) (s : Stores A)
      → P (panic, s)
      → ((r : R) → P (f r s))
      → P (resume f (or_panic A o s))
  after_or_panic P none f s p q = p
  after_or_panic P (some r) f s p q = q r

  start_modules-IsSound :
      (g : GenesisState A.staking A.pool_ops) (us vs : A.Validators) (s t : Stores A)
      → IsFresh A.exchange L s.exchange
      → start_modules A g us s ≡ (ok vs, t)
      → IsSound t.exchange
  unfolding start_modules
  start_modules-IsSound g us vs s t fresh e =
      let last = λ (x : Unit {0}). pure {W = Stores A} us in
      let start =
        λ (x : Unit {0}). exchange_call A (init_genesis A.exchange g.exchange_data) >>= last in
      let governed = λ (x : Unit {0}). sdk_call A A.gov_init_genesis >>= start in
      let (x1, u1, e1, f1) =
        bind-eq-ok (sdk_call A (A.slashing_init_genesis g.stake_data)) governed s e in
      let (x2, u2, e2, f2) = bind-eq-ok (sdk_call A A.gov_init_genesis) start u1 f1 in
      let (x3, u3, e3, f3) =
        bind-eq-ok (exchange_call A (init_genesis A.exchange g.exchange_data)) last u2 f2 in
      let same =
        sdk_call-exchange A.gov_init_genesis u1 u2 x2 e2
        ∙ sdk_call-exchange (A.slashing_init_genesis g.stake_data) s u1 x1 e1 in
      subst IsSound (ap (λ p. p.1.exchange) f3) (
        exchange_call-IsSound (init_genesis A.exchange g.exchange_data) u2 u3 tt
          (λ v h.
            genesis-IsKept A.exchange L g.exchange_data (world u2) v
              (subst (IsFresh A.exchange L) (sym same) fresh) h)
          e3)

  pub init-IsSound :
      (first s : Stores A) (json : A.StateJson) (vs : A.Validators)
      → IsFresh A.exchange L first.exchange
      → init_chainer A json first ≡ (ok vs, s)
      → IsSound s.exchange
  unfolding init_chainer init_state
  init-IsSound first s json vs fresh =
      let P : Outcome A.Validators × Stores A → Type 0 = λ r. r ≡ (ok vs, s) → IsSound s.exchange in
      after_or_panic P (A.unmarshal_state json) (init_state A) first (λ e. cc e)
        (λ g e.
          let loaded : Stores A = record first { bank = load_accounts A g.accounts first.bank } in
          let f = A.stake_init_genesis g.stake_data in
          let (us, u, e1, f1) = bind-eq-ok (sdk_call A f) (start_modules A g) loaded e in
          start_modules-IsSound g us vs u s
            (subst (IsFresh A.exchange L) (sym (sdk_call-exchange f loaded u us e1)) fresh) f1)

  check-eq-ok :
      (o : Option SdkError) (s t : Stores A) → check o s ≡ (ok tt, t) → t.exchange ≡ s.exchange
  check-eq-ok none s t e = sym (ap (λ p. p.1.exchange) e)
  check-eq-ok (some x) s t e = cc e

  -- A message that ends without an error keeps the exchange sound.
  pub deliver-IsSound :
      (now : Time) (msg : AppMsg A) (s t : Stores A)
      → IsPlain msg
      → IsSound s.exchange
      → deliver A now msg s ≡ (ok tt, t)
      → IsSound t.exchange
  unfolding deliver new_handler handle_msg_create_limit_order
  deliver-IsSound now (exchange_msg Message.unrecognized) s t n h e = cc e
  deliver-IsSound now (exchange_msg (Message.limit_order msg)) s t n h e =
      let handler = new_handler A.exchange now (Message.limit_order msg) in
      let (r, u, e1, e2) = bind-eq-ok (exchange_call A handler) (λ answers. pure tt) s e in
      subst IsSound (ap (λ p. p.1.exchange) e2) (
        exchange_call-IsSound handler s u r
          (λ v ran.
            subst
              (Keeps A.exchange L (A.exchange.coins.mul msg.amount.amount msg.price.amount ≡ none)
                (world s))
              ran
              (process_limit_order-Keeps A.exchange L now msg.sender msg.kind msg.amount msg.price
                msg.expires_at (world s) n h.valid h.readable))
          e1)
  deliver-IsSound now (clp_msg msg) s t n h e =
      let f = clp_call A (Handler.new_handler (clp_env A) msg) in
      let (r, u, e1, e2) = bind-eq-ok f (λ amounts. pure tt) s e in
      subst IsSound (sym (same_exchange f s u r e1 refl) ∙ ap (λ p. p.1.exchange) e2) h
  deliver-IsSound now (sdk_msg msg) s t n h e =
      let f = sdk_call A (A.sdk_handler msg) in
      let (r, u, e1, e2) = bind-eq-ok f (λ o. check o) s e in
      subst IsSound (sym (check-eq-ok r u t e2 ∙ sdk_call-exchange (A.sdk_handler msg) s u r e1)) h

  -- The begin blocker of the exchange does not panic in a sound state, and keeps it sound.
  begin_blocker-IsKept :
      (v : World A.exchange) (now : Time)
      → IsSound v.store
      → (u : World A.exchange) × (begin_blocker A.exchange now v ≡ (ok tt, u))
        × IsKept A.exchange L v u
  unfolding begin_blocker
  begin_blocker-IsKept v now h =
      refund_expired_limit_orders-IsKept A.exchange L now v h.valid h.readable

  -- A block can begin in a sound state, if the begin blocker of slashing does not panic.
  pub begins :
      (s : Stores A) (now : Time) (req : A.RequestBeginBlock) (tags : A.Tags)
      (core : A.exchange.bank.State × A.Others)
      → IsSound s.exchange
      → A.slashing_begin_blocker req (s.bank, s.others) ≡ (some tags, core)
      → (t : Stores A) × (app_begin_blocker A now req s ≡ (ok tags, t)) × IsSound t.exchange
  unfolding app_begin_blocker
  begins s now req tags core h slashed =
      let ready : Stores A = record s { bank = core.0; others = core.1 } in
      let (v, e, kept) = begin_blocker-IsKept (world ready) now h in
      (
        record ready { bank = v.bank; exchange = v.store },
        rw slashed (
            ap
              (λ r.
                resume (λ (x : Unit {0}). pure tags)
                  (r.0, record ready { bank = r.1.bank; exchange = r.1.store }))
              e),
        record { valid = kept.valid; readable = kept.readable },
      )

  -- A block that has begun keeps the exchange sound.
  pub begun-IsSound :
      (s t : Stores A) (now : Time) (req : A.RequestBeginBlock) (tags : A.Tags)
      → IsSound s.exchange
      → app_begin_blocker A now req s ≡ (ok tags, t)
      → IsSound t.exchange
  unfolding app_begin_blocker
  begun-IsSound s t now req tags h e =
      let next = λ (tags : A.Tags).
        exchange_call A (begin_blocker A.exchange now) >>= λ (x : Unit {0}).
        pure {W = Stores A} tags in
      let f = A.slashing_begin_blocker req in
      let (r, u, e1, f1) = bind-eq-ok (sdk_call A f) next s e in
      let (x, u', e2, f2) = bind-eq-ok (exchange_call A (begin_blocker A.exchange now)) _ u f1 in
      let sound = subst IsSound (sym (sdk_call-exchange f s u r e1)) h in
      subst IsSound (ap (λ p. p.1.exchange) f2) (
        exchange_call-IsSound (begin_blocker A.exchange now) u u' x
          (λ v ran.
            let (v', e', kept) = begin_blocker-IsKept (world u) now sound in
            subst (λ y. IsKept A.exchange L (world u) y) (ap (λ p. p.1) (sym e' ∙ ran)) kept)
          e2)

  pub ended-exchange :
      (s t : Stores A) (r : A.Validators × A.Tags)
      → app_end_blocker A s ≡ (ok r, t)
      → t.exchange ≡ s.exchange
  unfolding app_end_blocker
  ended-exchange s t r e =
      let last =
        λ (tags : A.Tags) (vs : A.Validators) (x : Unit {0}). pure {W = Stores A} (vs, tags) in
      let add = λ (tags : A.Tags) (vs : A.Validators).
        sdk_call A (A.slashing_add_validators vs) >>= last tags vs in
      let stake = λ (tags : A.Tags). sdk_call A A.stake_end_blocker >>= add tags in
      let (tags, u1, e1, f1) = bind-eq-ok (sdk_call A A.gov_end_blocker) stake s e in
      let (vs, u2, e2, f2) = bind-eq-ok (sdk_call A A.stake_end_blocker) (add tags) u1 f1 in
      let (x, u3, e3, f3) =
        bind-eq-ok (sdk_call A (A.slashing_add_validators vs)) (last tags vs) u2 f2 in
      sym (ap (λ p. p.1.exchange) f3)
      ∙ sdk_call-exchange (A.slashing_add_validators vs) u2 u3 x e3
      ∙ sdk_call-exchange A.stake_end_blocker u1 u2 vs e2
      ∙ sdk_call-exchange A.gov_end_blocker s u1 tags e1
