-- ===== src/Clp/Trade.antt =====
-- Where the coins of a trade go: `trade` and `ProcessCLPTrade` of x/clp/keeper.go.
use thorchain_v.Base.{
  ◌≡◌, refl, subst, ap, ◌∙◌, String, Bool, true, false, Option, some, none, if◌then◌else◌, inl, inr,
}
use thorchain_v.Base.{str_eq, arith, ◌||◌}
use thorchain_v.Base.Int.{ℤ, pos, ◌≤ℤ◌, ≤ℤ_total, InInt64, leb_ℤ, ltb_ℤ}
use thorchain_v.Sdk.Types.{Address, Coin, SdkError}
use thorchain_v.Sdk.Keeper.{
  Outcome, ok, err, panic, resume, pure, gets, raise_if, ◌>>=◌, ◌>>◌, Keeper,
}
use thorchain_v.Clp.Env.{ClpEnv, Pools, IsLawful}
use thorchain_v.Clp.{Clp, err_not_enough_coins, clp_codespace}
use thorchain_v.Clp.Keeper.{
  process_clp_trade, trade, route, make_payments, trade_with_balances, or_panic, get_clp,
  decode_clp, make_clp_store_key, int64_or_panic, calculate_coins_emitted,
}

-- A predicate on how a step ends holds after a check if it holds for the error and for what
-- follows.
pub after_check :
    {W A : Type 0} (P : Outcome A × W → Type 0) (c : Bool) (e : SdkError)
    (f : Unit {0} → Keeper W A) (w : W)
    → P (err e, w)
    → (c ≡ false → P (f tt w))
    → P (resume f (if c then err e else ok tt, w))
after_check P true e f w p q = p
after_check P false e f w p q = q refl

pub after_or_panic :
    {W A B : Type 0} (P : Outcome B × W → Type 0) (o : Option A) (f : A → Keeper W B) (w : W)
    → P (panic, w)
    → ((a : A) → o ≡ some a → P (f a w))
    → P (resume f (or_panic o w))
after_or_panic P none f w p q = p
after_or_panic P (some a) f w p q = q a refl

either : {A : Type 0} (P : A → Type 0) (c : Bool) (a b : A) → P a → P b → P (if c then a else b)
either P true a b p q = p
either P false a b p q = q

-- An amount of coins that can be paid.
pub record IsPayable (n : ℤ) : Type 0 where
  pub not_negative : pos 0 ≤ℤ n
  pub fits : InInt64 n

module _ (E : ClpEnv) (L : IsLawful E) (d : String) where
  -- If the step ends without an error and its amounts are as `Q` says, there are as many coins of
  -- the denom as in `w`.
  Conserves : {A : Type 0} → (A → Type 0) → Pools E → Outcome A × Pools E → Type 0
  Conserves Q w (ok a, v) = Q a → L.bank.supply v.bank d ≡ L.bank.supply w.bank d
  Conserves Q w (err e, v) = Unit
  Conserves Q w (panic, v) = Unit

  -- A payment conserves the coins also when the payer is short of them.
  supply-send :
      (s : E.bank.State) (a b : Address) (ticker : String) (n : ℤ)
      → IsPayable n
      → L.bank.supply (E.bank.send_coins s a b (E.coins.new_int64_coin ticker n)).1 d
        ≡ L.bank.supply s d
  supply-send s a b ticker n p =
      let coin : Coin = record { denom = ticker; amount = n } in
      rw (L.coins.new_int64_coin_lem ticker n p.fits)
        (elim (≤ℤ_total n (E.bank.amount_of s a ticker)) [
          | inl h ↦ L.bank.supply-send_coins s a b coin d p.not_negative h
          | inr h ↦
              let (_, e) = L.bank.send_coins_short s a b coin h in ap (λ r. L.bank.supply r.1 d) e
        ])

  trade_with_balances-Conserves :
      (sender : Address) (clp : Clp) (n : ℤ) (buy : Bool) (b c : ℤ) (w : Pools E)
      → Conserves (λ m. IsPayable n × IsPayable m) w (trade_with_balances E sender clp n buy b c w)
  unfolding trade_with_balances make_payments Conserves
  trade_with_balances-Conserves sender clp n buy b c w =
      let m = calculate_coins_emitted E clp b n buy in
      let from_ticker = if buy then E.base_coin_ticker else clp.ticker in
      let to_ticker = if buy then clp.ticker else E.base_coin_ticker in
      after_check (Conserves (λ m. IsPayable n × IsPayable m) w) _ _
        (λ _. make_payments E sender clp from_ticker n to_ticker m) w tt
        (λ _ q.
          supply-send
            (E.bank.send_coins w.bank sender clp.account_address
              (E.coins.new_int64_coin from_ticker n)).1
            clp.account_address sender to_ticker m q.1
          ∙ supply-send w.bank sender clp.account_address from_ticker n q.0)

  process_clp_trade-Conserves :
      (sender : Address) (ticker : String) (n : ℤ) (buy : Bool) (w : Pools E)
      → Conserves (λ m. IsPayable n × IsPayable m) w (process_clp_trade E sender ticker n buy w)
  unfolding process_clp_trade get_clp Conserves
  process_clp_trade-Conserves sender ticker n buy w =
      let P : Outcome ℤ × Pools E → Type 0 = Conserves (λ m. IsPayable n × IsPayable m) w in
      let clp = decode_clp E (E.store.get w.store (make_clp_store_key ticker)) in
      let balance = E.bank.amount_of w.bank clp.account_address in
      let last = λ (b c : ℤ). trade_with_balances E sender clp n buy b c in
      let after_base = λ (b : ℤ). int64_or_panic E (balance clp.ticker) >>= last b in
      after_check P _ _ (λ _. int64_or_panic E (balance E.base_coin_ticker) >>= after_base) w tt
        (λ _. after_or_panic P (E.coins.int64 (balance E.base_coin_ticker)) after_base w tt (λ b _.
          after_or_panic P (E.coins.int64 (balance clp.ticker)) (last b) w tt
            (λ c _. trade_with_balances-Conserves sender clp n buy b c w)))

  Both : ℤ × ℤ → Type 0
  Both a = IsPayable a.0 × IsPayable a.1

  one_trade :
      (w : Pools E) (n : ℤ) (g : ℤ → ℤ × ℤ) (r : Outcome ℤ × Pools E)
      → IsPayable n
      → ((m : ℤ) → Both (g m) → IsPayable m)
      → Conserves (λ m. IsPayable n × IsPayable m) w r
      → Conserves Both w (resume (λ m. pure (g m)) r)
  unfolding Conserves
  one_trade w n g (ok m, v) h k c = λ q. c (h, k m q)
  one_trade w n g (err e, v) h k c = tt
  one_trade w n g (panic, v) h k c = tt

  -- The second of two trades, after a first one that gave `m`.
  last_trade :
      (w v : Pools E) (m : ℤ) (r : Outcome ℤ × Pools E)
      → (IsPayable m → L.bank.supply v.bank d ≡ L.bank.supply w.bank d)
      → Conserves (λ p. IsPayable m × IsPayable p) v r
      → Conserves Both w (resume (λ p. pure (p, m)) r)
  unfolding Conserves Both
  last_trade w v m (ok p, u) h c = λ q. c (q.1, q.0) ∙ h q.1
  last_trade w v m (err e, u) h c = tt
  last_trade w v m (panic, u) h c = tt

  two_trades :
      (w : Pools E) (n : ℤ) (f : ℤ → Keeper (Pools E) ℤ) (r : Outcome ℤ × Pools E)
      → IsPayable n
      → Conserves (λ m. IsPayable n × IsPayable m) w r
      → ((m : ℤ) (v : Pools E) → Conserves (λ p. IsPayable m × IsPayable p) v (f m v))
      → Conserves Both w (resume (λ m. f m >>= λ p. pure (p, m)) r)
  unfolding Conserves
  two_trades w n f (ok m, v) h c k = last_trade w v m (f m v) (λ p. c (h, p)) (k m v)
  two_trades w n f (err e, v) h c k = tt
  two_trades w n f (panic, v) h c k = tt

  route-Conserves :
      (sender : Address) (from to : String) (n : ℤ) (w : Pools E)
      → IsPayable n
      → Conserves Both w (route E sender from to n w)
  unfolding route Both
  route-Conserves sender from to n w h =
      let Q : Keeper (Pools E) (ℤ × ℤ) → Type 0 = λ m. Conserves Both w (m w) in
      let sell = process_clp_trade E sender from n false in
      let buy = λ (m : ℤ). process_clp_trade E sender to m true in
      let buying : Keeper (Pools E) (ℤ × ℤ) = buy n >>= λ m. pure (m, n) in
      let selling : Keeper (Pools E) (ℤ × ℤ) = sell >>= λ m. pure (m, m) in
      let trading : Keeper (Pools E) (ℤ × ℤ) = sell >>= λ m. buy m >>= λ p. pure (p, m) in
      let sold = process_clp_trade-Conserves sender from n false w in
      let others = if str_eq to E.base_coin_ticker then selling else trading in
      either Q (str_eq from E.base_coin_ticker) buying others
        (one_trade w n (λ m. (m, n)) (buy n w) h (λ m q. q.0)
          (process_clp_trade-Conserves sender to n true w))
        (either Q (str_eq to E.base_coin_ticker) selling trading
          (one_trade w n (λ m. (m, m)) (sell w) h (λ m q. q.0) sold)
          (two_trades w n buy (sell w) h sold (λ m. process_clp_trade-Conserves sender to m true)))

  trade-Conserves :
      (sender : Address) (from to : String) (n : ℤ) (w : Pools E)
      → InInt64 n
      → Conserves Both w (trade E sender from to n w)
  unfolding trade Conserves
  trade-Conserves sender from to n w i =
      let P : Outcome (ℤ × ℤ) × Pools E → Type 0 = Conserves Both w in
      let refused = λ (held : ℤ). leb_ℤ n (pos 0) || ltb_ℤ held n in
      let next = λ (held : ℤ).
        raise_if (refused held) (err_not_enough_coins clp_codespace) >> route E sender from to n in
      after_check P _ _
        (λ _. gets (λ w. E.bank.amount_of w.bank sender from) >>= int64_or_panic E >>= next) w tt
        (λ _.
          after_or_panic P (E.coins.int64 (E.bank.amount_of w.bank sender from)) next w tt
            (λ held _.
              after_check P (refused held) _ (λ _. route E sender from to n) w tt
                (λ e.
                  route-Conserves sender from to n w
                    (record { not_negative = ground (arith, e); fits = i }))))

  -- A trade that ends without an error, with amounts that are not negative, leaves as many coins of
  -- every denom as there were, along all three routes and also if the sender or a pool cannot pay.
  -- All amounts are `int64`.
  pub trade-conserves :
      (sender : Address) (from to : String) (n : ℤ) (w v : Pools E) (a b : ℤ)
      → InInt64 n
      → IsPayable a
      → IsPayable b
      → trade E sender from to n w ≡ (ok (a, b), v)
      → L.bank.supply v.bank d ≡ L.bank.supply w.bank d
  unfolding Conserves Both
  trade-conserves sender from to n w v a b i p q e =
      subst (Conserves Both w) e (trade-Conserves sender from to n w i) (p, q)
