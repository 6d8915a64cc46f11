-- ===== src/Clp/Create.antt =====
-- What `create` of x/clp/keeper.go comes to.
use thorchain_v.Base.{
  ℕ, ◌≡◌, ◌≢◌, ◌↔◌, refl, ap, String, true, false, some, arith, eq_iff, str_eq, if◌then◌else◌, Bool,
}
use thorchain_v.Base.Int.{ℤ, pos, ◌≤ℤ◌, ◌<ℤ◌, ◌+ℤ◌, ◌-ℤ◌, InInt64, int_laws, parts}
use thorchain_v.Sdk.Types.{Address, Coin}
use thorchain_v.Sdk.Keeper.{ok, panic, resume}
use thorchain_v.Clp.{Clp, new_clp, new_clp_address}
use thorchain_v.Clp.Env.{ClpEnv, Pools, IsLawful}
use thorchain_v.Clp.Keeper.{
  get_clp, set_clp, check_create, fund_clp, create, ensure_nonexistent_clp, make_clp_store_key,
  decode_clp,
}

-- What a new pool has to fulfil, before any coin moves.
pub record IsCreatable (E : ClpEnv) (ticker : String) (reserve_ratio supply base_amount : ℤ)
    (st : E.store.State) : Type 0 where
  pub supply_positive : pos 0 <ℤ supply
  pub base_positive : pos 0 <ℤ base_amount
  pub not_base : ticker ≢ E.base_coin_ticker
  pub is_new : (decode_clp E (E.store.get st (make_clp_store_key ticker))).ticker ≡ ""
  pub ratio_positive : pos 0 <ℤ reserve_ratio
  pub ratio_within : reserve_ratio ≤ℤ pos 100

module _ (E : ClpEnv) (ticker : String) (reserve_ratio supply base_amount : ℤ) (w : Pools E) where
  pub check_create_iff :
      (((check_create E ticker reserve_ratio supply base_amount w).0 ≡ ok tt)
        ↔ IsCreatable E ticker reserve_ratio supply base_amount w.store)
      × ((check_create E ticker reserve_ratio supply base_amount w).0 ≢ panic)
      × ((check_create E ticker reserve_ratio supply base_amount w).1 ≡ w)
  unfolding check_create ensure_nonexistent_clp get_clp
  check_create_iff = (
    (
      λ e. record {
        supply_positive = ground (arith, e);
        base_positive = ground (arith, e);
        not_base = ground (arith, e, eq_iff ticker E.base_coin_ticker);
        is_new = ground (
          arith,
          e,
          eq_iff (decode_clp E (E.store.get w.store (make_clp_store_key ticker))).ticker "",
        );
        ratio_positive = ground (arith, e);
        ratio_within = ground (arith, e);
      },
      λ c. ground (
        arith,
        eq_iff ticker E.base_coin_ticker,
        eq_iff (decode_clp E (E.store.get w.store (make_clp_store_key ticker))).ticker "",
      ),
    ),
    λ e. ground (arith, e),
    ground arith,
  )

-- Base coins that go from one account to another, and coins that are made.
minted :
    (base here : Bool) (a n s0 s1 s2 s3 : ℤ)
    → s1 ≡ (if base then s0 -ℤ a else s0)
    → s2 ≡ (if base then s1 +ℤ a else s1)
    → s3 ≡ (if here then s2 +ℤ n else s2)
    → s3 ≡ (if here then s0 +ℤ n else s0)
minted true true a n s0 s1 s2 s3 e f g = omega (int_laws, parts e, parts f, parts g)
minted true false a n s0 s1 s2 s3 e f g = omega (int_laws, parts e, parts f, parts g)
minted false true a n s0 s1 s2 s3 e f g = omega (int_laws, parts e, parts f, parts g)
minted false false a n s0 s1 s2 s3 e f g = omega (int_laws, parts e, parts f, parts g)

module _ (E : ClpEnv) (L : IsLawful E) where
  -- A pool that has been stored is found again under its ticker, and no other pool changes.
  get-set_clp :
      (clp : Clp) (w : Pools E) (ticker : String)
      → get_clp E ticker (set_clp E clp w).1 ≡ (
        ok (
            if str_eq (make_clp_store_key clp.ticker) (make_clp_store_key ticker)
            then clp
            else decode_clp E (E.store.get w.store (make_clp_store_key ticker))),
        (set_clp E clp w).1,
      )
  unfolding get_clp set_clp
  get-set_clp clp w ticker = ground (
    arith,
    L.pools.marshal_lem clp,
    L.store.get-set w.store (make_clp_store_key clp.ticker) (L.pools.encode clp)
        (make_clp_store_key ticker),
    L.pools.unmarshal_lem clp (new_clp "" "" "" 0 (pos 0) (pos 0) ""),
  )

  module _ (sender : Address) (ticker name : String) (decimals : ℕ)
      (reserve_ratio supply base_amount : ℤ) (w : Pools E) where
    abbrev base_coins : Coin
    base_coins = record { denom = E.base_coin_ticker; amount = base_amount }

    abbrev clp_coins : Coin
    clp_coins = record { denom = ticker; amount = supply }

    abbrev funded : E.bank.State
    funded =
        (E.bank.add_coins
          (E.bank.add_coins (E.bank.subtract_coins w.bank sender base_coins).1
            (new_clp_address ticker) base_coins).1
          (new_clp_address ticker) clp_coins).1

    abbrev pool : Clp
    pool = new_clp sender ticker name decimals reserve_ratio supply (new_clp_address ticker)

    set_clp_lem :
        (v : Pools E)
        → set_clp E pool v ≡ (
          ok tt,
          record v {
            store = E.store.set v.store (make_clp_store_key ticker) (L.pools.encode pool);
          },
        )
    unfolding set_clp
    set_clp_lem v = ground (arith, L.pools.marshal_lem pool)

    fund_clp_lem :
        InInt64 supply
        → InInt64 base_amount
        → pos 0 <ℤ supply
        → pos 0 <ℤ base_amount
        → base_amount ≤ℤ E.bank.amount_of w.bank sender E.base_coin_ticker
        → fund_clp E sender ticker name decimals reserve_ratio supply base_amount w ≡ (
          ok tt,
          record {
            bank = funded;
            store = E.store.set w.store (make_clp_store_key ticker) (L.pools.encode pool);
          },
        )
    unfolding fund_clp set_clp
    fund_clp_lem i j p q h =
        let base : pos 0 ≤ℤ base_amount = omega arith in
        rw
          (
            L.coins.new_int64_coin_lem E.base_coin_ticker base_amount j,
            L.coins.new_int64_coin_lem ticker supply i,
            L.bank.subtract_coins_ok w.bank sender base_coins base h,
            L.bank.add_coins_ok (E.bank.subtract_coins w.bank sender base_coins).1
                (new_clp_address ticker) base_coins base,
          )
          (set_clp_lem (record { bank = funded; store = w.store }))

    create_lem :
        IsCreatable E ticker reserve_ratio supply base_amount w.store
        → create E sender ticker name decimals reserve_ratio supply base_amount w
          ≡ fund_clp E sender ticker name decimals reserve_ratio supply base_amount w
    unfolding create
    create_lem c =
        let checks = check_create_iff E ticker reserve_ratio supply base_amount w in
        let passed : check_create E ticker reserve_ratio supply base_amount w ≡ (ok tt, w) =
          λ i. (checks.0.1 c i, checks.2 i) in
        ap
          (resume (λ (x : Unit {0}).
            fund_clp E sender ticker name decimals reserve_ratio supply base_amount))
          passed

    -- When the checks pass and the sender holds the base coins, `create` ends without an error. The
    -- pool is stored under its ticker, with the supply as its current supply; the coins of the new
    -- ticker are made, as many as the supply, and those of every other denom stay as many as they
    -- were.
    pub create-mints :
        IsCreatable E ticker reserve_ratio supply base_amount w.store
        → InInt64 supply
        → InInt64 base_amount
        → base_amount ≤ℤ E.bank.amount_of w.bank sender E.base_coin_ticker
        → let (r, v) = create E sender ticker name decimals reserve_ratio supply base_amount w in
          (r ≡ ok tt)
          × (E.store.get v.store (make_clp_store_key ticker) ≡ some (L.pools.encode pool))
          × ((d : String)
              → L.bank.supply v.bank d ≡ (
                  if str_eq d ticker
                  then L.bank.supply w.bank d +ℤ supply
                  else L.bank.supply w.bank d))
    create-mints c i j h =
        let base : pos 0 ≤ℤ base_amount = (let b = c.base_positive in omega arith) in
        let own : pos 0 ≤ℤ supply = (let b = c.supply_positive in omega arith) in
        let paid = (E.bank.subtract_coins w.bank sender base_coins).1 in
        rw (create_lem c, fund_clp_lem i j c.supply_positive c.base_positive h)
          (
            refl,
            ground (
              arith,
              eq_iff (make_clp_store_key ticker) (make_clp_store_key ticker),
              L.store.get-set w.store (make_clp_store_key ticker) (L.pools.encode pool)
                  (make_clp_store_key ticker),
            ),
            λ d.
                minted (str_eq d E.base_coin_ticker) (str_eq d ticker) base_amount supply _ _ _ _
                  (L.bank.supply-subtract_coins w.bank sender base_coins d base h)
                  (L.bank.supply-add_coins paid (new_clp_address ticker) base_coins d base)
                  (L.bank.supply-add_coins
                    (E.bank.add_coins paid (new_clp_address ticker) base_coins).1
                    (new_clp_address ticker) clp_coins d own),
          )
