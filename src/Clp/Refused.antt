-- ===== src/Clp/Refused.antt =====
-- The trades that `trade` of x/clp/keeper.go refuses.
use thorchain_v.Base.{
  ◌≡◌, ◌≢◌, ◌⊎◌, refl, sym, subst, String, true, false, arith, eq_iff, str_eq, ◌||◌, inl, inr,
}
use thorchain_v.Base.Int.{ℤ, pos, ◌≤ℤ◌, ◌<ℤ◌, leb_ℤ, ltb_ℤ}
use thorchain_v.Sdk.Types.{Address}
use thorchain_v.Sdk.Keeper.{Outcome, ok, gets, raise_if, ◌>>=◌, ◌>>◌}
use thorchain_v.Clp.{err_not_enough_coins, clp_codespace}
use thorchain_v.Clp.Env.{ClpEnv, Pools, IsLawful}
use thorchain_v.Clp.Keeper.{trade, route, int64_or_panic}
use thorchain_v.Clp.Trade.{after_check, after_or_panic}

-- A trade that is to be refused does not pass both tests.
no_pass :
    {C : Type 0} (from to : String) (n held : ℤ)
    → (from ≡ to) ⊎ ((n ≤ℤ pos 0) ⊎ (held <ℤ n))
    → str_eq from to ≡ false
    → (leb_ℤ n (pos 0) || ltb_ℤ held n) ≡ false
    → C
no_pass from to n held (inl p) s e =
    let t : str_eq from to ≡ true = (eq_iff from to).1 p in cc (s, t)
no_pass from to n held (inr (inl p)) s e = ground (arith, e)
no_pass from to n held (inr (inr p)) s e = ground (arith, e)

module _ (E : ClpEnv) (L : IsLawful E) where
  -- A trade between equal tickers, of no coins, or of more than the sender holds does not succeed
  -- and changes neither the accounts nor the pools.
  pub trade-refuses :
      (sender : Address) (from to : String) (n : ℤ) (w : Pools E)
      → (from ≡ to) ⊎ ((n ≤ℤ pos 0) ⊎ (E.bank.amount_of w.bank sender from <ℤ n))
      → ((a : ℤ × ℤ) → (trade E sender from to n w).0 ≢ ok a) × ((trade E sender from to n w).1 ≡ w)
  unfolding trade
  trade-refuses sender from to n w h =
      let P : Outcome (ℤ × ℤ) × Pools E → Type 0 = λ r. ((a : ℤ × ℤ) → r.0 ≢ ok a) × (r.1 ≡ w) in
      let refused = λ (held : ℤ). leb_ℤ n (pos 0) || ltb_ℤ held n in
      let next = λ (held : ℤ).
        raise_if (refused held) (err_not_enough_coins clp_codespace) >> route E sender from to n in
      after_check P (str_eq from to) _
        (λ _. gets (λ w. E.bank.amount_of w.bank sender from) >>= int64_or_panic E >>= next) w
        (λ a e. cc e, refl)
        (λ s.
          after_or_panic P (E.coins.int64 (E.bank.amount_of w.bank sender from)) next w
            (λ a e. cc e, refl)
            (λ held g.
              after_check P (refused held) _ (λ _. route E sender from to n) w (λ a e. cc e, refl)
                (λ e.
                  no_pass from to n held
                    (subst (λ x. (from ≡ to) ⊎ ((n ≤ℤ pos 0) ⊎ (x <ℤ n)))
                      (sym (L.coins.int64_lem _ g).0) h)
                    s e)))
