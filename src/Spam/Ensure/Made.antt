-- ===== src/Spam/Ensure/Made.antt =====
-- The accounts that the loop makes.
use text.Mathlib.TextLemmas.{append_cancel_left}
use text.Mathlib.TextPositions.{starts_with-append}
use thorchain_v.Base.{
  ℕ, zero, suc, ◌+◌, ◌≤◌, ◌<◌, ◌^◌, String, ◌<>◌, true, not, List, [], ◌∷◌, ◌++◌, starts_with,
  Option, none, some, ◌≡◌, ◌≢◌, refl, sym, ap, subst, ◌∙◌, All, All-insert, arith,
}
use thorchain_v.Base.Int.{ℤ, pos, ◌+ℤ◌}
use thorchain_v.Base.Decimals.{show_ℕ, show_ℕ_inj}
use thorchain_v.Sdk.Types.{Coin, Address}
use thorchain_v.Spam.Broadcast.{Account, build_sign_and_broadcast_msg, TxContext}
use thorchain_v.Spam.Ensure.{
  Tool, IsLawful, World, Flags, no_key, not_sent, no_account, account_error, not_enough_coins,
  continue, expect, count_spam_accounts, account_name, create_spam_account_key, multiply_coins,
  ensure_from_acc_has_enough_coins, send_loop, send_coins,
}
use thorchain_v.Spam.Ensure.Steps.{
  Leads, continue-Leads, expect-Leads, or_panic-Leads, fail_if-Leads, ask-Leads, Leads-imp,
}

count-insert :
    (l r : List String) (name p : String)
    → starts_with name p ≡ true
    → count_spam_accounts (l ++ name ∷ r) p ≡ suc (count_spam_accounts (l ++ r) p)
unfolding count_spam_accounts
count-insert [] r name p h = rw h refl
count-insert (n ∷ l) r name p h = let rest = count-insert l r name p h in ground (arith, rest)

pub account_name_inj :
    (p : String) (i j : ℕ) → i < 10 ^ 20 → j < 10 ^ 20 → account_name p i ≡ account_name p j → i ≡ j
account_name_inj p i j h k e =
    show_ℕ_inj i j h k (append_cancel_left "-" _ _ (append_cancel_left p _ _ e))

starts_with-account_name : (p : String) (i : ℕ) → starts_with (account_name p i) p ≡ true
starts_with-account_name p i = starts_with-append p ("-" <> show_ℕ i)

module _ (T : Tool) (L : IsLawful T.key_base) (flags : Flags) where
  abbrev pub count : World T → ℕ
  count w = count_spam_accounts (L.names w.keys) flags.spam_prefix

  -- No key has the name of account `i`.
  abbrev pub IsFree : World T → ℕ → Type 0
  IsFree w i = All (λ n. n ≢ account_name flags.spam_prefix i) (L.names w.keys)

  abbrev pub AreFree : World T → ℕ → ℕ → Type 0
  AreFree w first end = (i : ℕ) → first ≤ i → i < end → IsFree w i

  -- One more account, and the later numbers still free.
  abbrev pub IsStep : World T → ℕ → ℕ → World T → Type 0
  IsStep w i end v = (count v ≡ suc (count w)) × AreFree v (suc i) end

  pub created-IsStep :
      (w : World T) (i end : ℕ) (s : T.key_base.State) (info : T.key_base.Info)
      → end < 10 ^ 20
      → i < end
      → AreFree w i end
      → T.key_base.create_mnemonic (account_name flags.spam_prefix i) flags.spam_password w.keys
        ≡ (some info, s)
      → IsStep w i end (record w { keys = s })
  created-IsStep w i end s info h k free e =
      let name = account_name flags.spam_prefix i in
      let (l, r, before, after) =
        L.names-create_mnemonic name flags.spam_password w.keys s info e (free i (omega arith) k) in
      (
        ap (λ ns. count_spam_accounts ns flags.spam_prefix) after
            ∙ count-insert l r name flags.spam_prefix (starts_with-account_name flags.spam_prefix i)
            ∙ ap (λ ns. suc (count_spam_accounts ns flags.spam_prefix)) (sym before),
        λ j low high.
            let other : account_name flags.spam_prefix i ≢ account_name flags.spam_prefix j =
              λ clash.
                let same =
                  account_name_inj flags.spam_prefix i j (omega (arith, h, k))
                    (omega (arith, h, high)) clash in
                omega (arith, same, low) in
            let others =
              subst (All (λ n. n ≢ account_name flags.spam_prefix j)) before
                (free j (omega (arith, low)) high) in
            subst (All (λ n. n ≢ account_name flags.spam_prefix j)) (sym after) (
              All-insert (λ n. n ≢ account_name flags.spam_prefix j) l r
                (account_name flags.spam_prefix i) other others),
      )

  pub created-Leads :
      (w : World T) (i end : ℕ) (r : Option T.key_base.Info × T.key_base.State)
      → end < 10 ^ 20
      → i < end
      → AreFree w i end
      → T.key_base.create_mnemonic (account_name flags.spam_prefix i) flags.spam_password w.keys ≡ r
      → Leads T (IsStep w i end) (
          continue T
            (λ info v. (expect T no_key (T.key_base.bech32_key_output info), v))
            (expect T no_key r.0, record w { keys = r.1 }))
  created-Leads w i end (none, s) h k free e = tt
  created-Leads w i end (some info, s) h k free e =
      expect-Leads T (IsStep w i end) no_key (T.key_base.bech32_key_output info)
        (record w { keys = s }) (created-IsStep w i end s info h k free e)

  pub create_spam_account_key-Leads :
      (w : World T) (i end : ℕ)
      → end < 10 ^ 20
      → i < end
      → AreFree w i end
      → Leads T
          (IsStep w i end)
          (create_spam_account_key T (account_name flags.spam_prefix i) flags.spam_password w)
  unfolding create_spam_account_key
  create_spam_account_key-Leads w i end h k free = created-Leads w i end _ h k free refl

  abbrev pub SameKeys : World T → World T → Type 0
  SameKeys w v = v.keys ≡ w.keys

  abbrev pub Adds : World T → ℕ → World T → Type 0
  Adds w n v = count v ≡ count w + n

  pub send_loop-Leads :
      (tx_ctx : TxContext) (from : Address) (coins : List Coin) (existing left i : ℕ) (sequence : ℤ)
      (w : World T)
      → i + existing + left < 10 ^ 20
      → AreFree w (i + existing) (i + existing + left)
      → Leads T (Adds w left) (send_loop T flags tx_ctx from coins existing left i sequence w)
  unfolding send_loop
  send_loop-Leads tx_ctx from coins existing zero i sequence w h free = omega arith
  send_loop-Leads tx_ctx from coins existing (suc left) i sequence w h free =
      continue-Leads T {A = Address} (Adds w (suc left))
        (IsStep w (i + existing) (i + existing + suc left)) _ _
        (create_spam_account_key-Leads w (i + existing) (i + existing + suc left) h (omega arith)
          free)
        (λ to v step.
          continue-Leads T {A = T.network.Bytes} (Adds w (suc left))
            (IsStep w (i + existing) (i + existing + suc left)) _ _
            (ask-Leads T {A = T.network.Bytes} (IsStep w (i + existing) (i + existing + suc left))
              not_sent
              (build_sign_and_broadcast_msg T.network T.marshal_binary
                (record tx_ctx { sequence = sequence }) T.from_address_name flags.sign_password
                (T.build_msg from to coins))
              v (λ s. step))
            (λ bz u next.
              let rest =
                send_loop-Leads (record tx_ctx { sequence = sequence }) from coins existing left
                  (suc i) (sequence +ℤ pos 1) u (omega (arith, h))
                  (λ j low high. next.1 j (omega (arith, low)) (omega (arith, high))) in
              Leads-imp T {A = Unit {0}} (Adds u left) (Adds w (suc left))
                (λ x e. let one = next.0 in omega (arith, e, one)) _ rest))

  pub send_coins-Leads :
      (num existing : ℕ) (from : Address) (coins : List Coin) (w v : World T)
      → SameKeys w v
      → existing + num < 10 ^ 20
      → AreFree w existing (existing + num)
      → Leads T (Adds w num) (send_coins T flags num existing from coins v)
  unfolding send_coins
  send_coins-Leads num existing from coins w v same h free =
      continue-Leads T {A = Account} (Adds w num) (SameKeys w) _ _
        (ask-Leads T {A = Account} (SameKeys w) account_error (T.network.get_account from) v
          (λ s. same))
        (λ account u kept.
          let counted : count u ≡ count w =
            ap (λ k. count_spam_accounts (L.names k) flags.spam_prefix) kept in
          Leads-imp T {A = Unit {0}} (Adds u num) (Adds w num) (λ x e. omega (arith, e, counted)) _
            (send_loop-Leads
              (record T.tx_context { account_number = account.account_number; gas = pos 20000 })
              from coins existing num 0 account.sequence u (omega (arith, h))
              (λ j low high.
                subst (λ k. All (λ n. n ≢ account_name flags.spam_prefix j) (L.names k)) (sym kept)
                  (free j (omega (arith, low)) (omega (arith, high))))))

  pub multiply_coins-Leads :
      (coins : List Coin) (n : ℤ) (w v : World T)
      → SameKeys w v
      → Leads T (SameKeys w) (multiply_coins T coins n v)
  unfolding multiply_coins
  multiply_coins-Leads [] n w v h = h
  multiply_coins-Leads (c ∷ cs) n w v h =
      continue-Leads T {A = ℤ} (SameKeys w) (SameKeys w) _ _
        (or_panic-Leads T (SameKeys w) (T.lists.mul_raw c.amount n) v h)
        (λ a u k.
          continue-Leads T {A = List Coin} (SameKeys w) (SameKeys w) _ _
            (multiply_coins-Leads cs n w u k) (λ rest x l. l))

  pub enough_coins-Leads :
      (from : Address) (coins : List Coin) (w v : World T)
      → SameKeys w v
      → Leads T (SameKeys w) (ensure_from_acc_has_enough_coins T from coins v)
  unfolding ensure_from_acc_has_enough_coins
  enough_coins-Leads from coins w v h =
      let (exists, s) = T.account_exists from v.node in
      continue-Leads T {A = Unit {0}} (SameKeys w) (SameKeys w) _ _
        (fail_if-Leads T (SameKeys w) (not exists) no_account (record v { node = s }) h)
        (λ _ u k.
          continue-Leads T {A = Account} (SameKeys w) (SameKeys w) _ _
            (ask-Leads T {A = Account} (SameKeys w) account_error (T.network.get_account from) u
              (λ t. k))
            (λ account x l.
              fail_if-Leads T (SameKeys w) (not (T.lists.is_gte account.coins coins))
                not_enough_coins x l))
  -- Every account number from the count on, up to k, is free.
