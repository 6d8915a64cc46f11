-- ===== src/App/Chain/Life.antt =====
-- The life of the application: its initial state, then blocks with messages of all modules. A message
-- that ends with an error or a panic leaves nothing behind, since the state of a failed transaction is
-- dropped.
use thorchain_v.Base.{◌≡◌, sym, subst, some}
use thorchain_v.Sdk.Types.{Time}
use thorchain_v.Sdk.Keeper.{ok}
use thorchain_v.Exchange.Env
use thorchain_v.Exchange.Env.{World}
use thorchain_v.Exchange.Chain.{IsFresh}
use thorchain_v.App.Chain.{
  AppEnv, Stores, AppMsg, init_chainer, app_begin_blocker, app_end_blocker, deliver,
}
use thorchain_v.App.Chain.Steps.{
  IsPlain, IsSound, init-IsSound, deliver-IsSound, begins, begun-IsSound, ended-exchange,
}

module _ (A : AppEnv) (L : Env.IsLawful A.exchange) where
  -- The states of the application that its blocks and messages lead to.
  pub data Life (first : Stores A) : Stores A → Type 0 where
    started :
        (json : A.StateJson) (vs : A.Validators) (s : Stores A)
        → init_chainer A json first ≡ (ok vs, s)
        → Life first s
    begun :
        (now : Time) (req : A.RequestBeginBlock) (tags : A.Tags) (s t : Stores A)
        → Life first s
        → app_begin_blocker A now req s ≡ (ok tags, t)
        → Life first t
    delivered :
        (now : Time) (msg : AppMsg A) (s t : Stores A)
        → IsPlain A L msg
        → Life first s
        → deliver A now msg s ≡ (ok tt, t)
        → Life first t
    ended :
        (r : A.Validators × A.Tags) (s t : Stores A)
        → Life first s
        → app_end_blocker A s ≡ (ok r, t)
        → Life first t

  Life-IsSound :
      (first s : Stores A)
      → IsFresh A.exchange L first.exchange
      → Life first s
      → IsSound A L s.exchange
  Life-IsSound first _ fresh (started json vs s e) = init-IsSound A L first s json vs fresh e
  Life-IsSound first _ fresh (begun now req tags s t life e) =
      begun-IsSound A L s t now req tags (Life-IsSound first s fresh life) e
  Life-IsSound first _ fresh (delivered now msg s t plain life e) =
      deliver-IsSound A L now msg s t plain (Life-IsSound first s fresh life) e
  Life-IsSound first _ fresh (ended r s t life e) =
      subst (IsSound A L) (sym (ended-exchange A L s t r e)) (Life-IsSound first s fresh life)

  -- In every state that the application comes to from a start with an empty exchange, by blocks and
  -- by messages of all modules that end without an error, whose limit orders have amounts in denoms
  -- without a colon, the next block can begin, if the begin blocker of slashing, which is the SDK's,
  -- does not panic: then the application's does not panic either, answers with the same tags, and all
  -- order books are valid after it.
  pub Life-begins :
      (first s : Stores A) (now : Time) (req : A.RequestBeginBlock) (tags : A.Tags)
      (core : A.exchange.bank.State × A.Others)
      → IsFresh A.exchange L first.exchange
      → Life first s
      → A.slashing_begin_blocker req (s.bank, s.others) ≡ (some tags, core)
      → (t : Stores A) × (app_begin_blocker A now req s ≡ (ok tags, t)) × IsSound A L t.exchange
  Life-begins first s now req tags core fresh life slashed =
      begins A L s now req tags core (Life-IsSound first s fresh life) slashed
