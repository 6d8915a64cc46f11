-- ===== src/Clp/Paid/Through.antt =====
-- What a trade between the coins of two pools pays: `trade` of x/clp/keeper.go along its third
-- route.
use thorchain_v.Base.{◌≡◌, ◌≢◌, refl, ap, ◌∙◌, String, false, true, arith, ◌||◌}
use thorchain_v.Base.Int.{ℤ, pos, leb_ℤ, ltb_ℤ}
use thorchain_v.Sdk.Types.{Address}
use thorchain_v.Sdk.Keeper.{ok}
use thorchain_v.Clp.Env.{ClpEnv, Pools, IsLawful}
use thorchain_v.Clp.Keeper.{trade, route}
use thorchain_v.Clp.Trade.{IsPayable}
use thorchain_v.Clp.Paid.{
  IsTradeable, pool, emitted, after, pays, moved, differs, process_clp_trade_lem, after-pays,
}

module _ (E : ClpEnv) (L : IsLawful E) where
  module _ (sender : Address) (from to : String) (n : ℤ) (w : Pools E) where
    -- The base coins of the first trade, the state after it, and the coins of the second.
    abbrev pub base_emitted : ℤ
    base_emitted = emitted E L sender from n w false

    abbrev pub sold : Pools E
    sold = after E L sender from n w false

    abbrev pub bought : ℤ
    bought = emitted E L sender to base_emitted sold true

    abbrev pub first_address : Address
    first_address = (pool E L sender from n w).account_address

    abbrev pub last_address : Address
    last_address = (pool E L sender to n w).account_address

    -- The balances after the four payments.
    abbrev pub paid_through : Address → String → ℤ
    paid_through = pays last_address sender to bought (
        moved sender last_address E.base_coin_ticker base_emitted (
          pays first_address sender E.base_coin_ticker base_emitted
            (moved sender first_address from n (E.bank.amount_of w.bank))))

    through_lem :
        from ≢ to
        → IsTradeable E L sender from n w false
        → IsTradeable E L sender to base_emitted sold true
        → trade E sender from to n w
          ≡ (ok (bought, base_emitted), after E L sender to base_emitted sold true)
    unfolding trade route
    through_lem ne h k =
        let held = E.bank.amount_of w.bank sender from in
        let may : (leb_ℤ n (pos 0) || ltb_ℤ held n) ≡ false =
          (let p = h.positive in let q = h.enough in ground arith) in
        rw
          (
            differs from to ne,
            L.coins.int64_total held h.held_fits,
            may,
            differs from E.base_coin_ticker h.not_base,
            differs to E.base_coin_ticker k.not_base,
            process_clp_trade_lem E L sender from n w false h,
            process_clp_trade_lem E L sender to base_emitted sold true k,
          )
          refl

    -- A trade between the coins of two pools, where each of the two trades that it is made of can be
    -- made at its time, ends without an error and changes no pool's record. The four payments are
    -- made one after the other: the sender's to the first pool, the first pool's base coins to the
    -- sender, the same number of base coins to the second pool, and that pool's coins to the sender;
    -- what a pool pays, it pays only if it has as many. No other balance changes. The coins emitted
    -- have to be `int64`s that are not negative.
    pub trade-pays_through :
        from ≢ to
        → IsTradeable E L sender from n w false
        → IsTradeable E L sender to base_emitted sold true
        → IsPayable base_emitted
        → IsPayable bought
        → (v : Pools E) × (trade E sender from to n w ≡ (ok (bought, base_emitted), v))
          × (v.store ≡ w.store)
          × ((x : Address) (d : String) → E.bank.amount_of v.bank x d ≡ paid_through x d)
    trade-pays_through ne h k p q = (
      after E L sender to base_emitted sold true,
      through_lem ne h k,
      refl,
      λ x d.
          after-pays E L sender to base_emitted sold true k q x d
          ∙ ap
              (λ f.
                pays last_address sender to bought
                  (moved sender last_address E.base_coin_ticker base_emitted f) x d)
              (λ i y e. after-pays E L sender from n w false h p y e i),
    )
