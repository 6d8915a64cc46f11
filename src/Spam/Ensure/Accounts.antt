-- ===== src/Spam/Ensure/Accounts.antt =====
-- That the command ends with as many accounts as were asked for.
use thorchain_v.Base.{
  ℕ, ◌+◌, String, true, false, List, str_eq, Option, none, some, ◌≡◌, refl, sym, ap, subst, ◌⊎◌,
  inl, inr, Bool-cases, arith,
}
use thorchain_v.Base.Int.{ℤ, pos, negsuc, pos_part, ◌-ℤ◌, ◌≤ℤ◌, ◌<ℤ◌, leb_ℤ, InInt64, -ℤ_parts}
use thorchain_v.Sdk.Types.{Coin, Address}
use thorchain_v.Spam.Ensure.{
  Tool, IsLawful, World, Flags, done, spam_password_required, sign_password_required, no_key_base,
  no_from_address, no_coins, make_missing, ensure_listed, continue, expect, count_spam_accounts,
  multiply_coins, ensure_from_acc_has_enough_coins, send_coins, make_accounts, account_ensure,
}
use thorchain_v.Spam.Ensure.Steps.{Leads, continue-Leads, expect-Leads, fail_if-Leads, Leads-imp}
use thorchain_v.Spam.Ensure.Made.{
  count, AreFree, SameKeys, Adds, send_coins-Leads, multiply_coins-Leads, enough_coins-Leads,
}

missing : (k : ℤ) (n : ℕ) → pos n <ℤ k → pos_part (k -ℤ pos n) + n ≡ pos_part k
unfolding ◌-ℤ◌
missing k n h = ground arith

reaches :
    (k : ℤ) (n m : ℕ) → pos n <ℤ k → (num : ℕ) → num + n ≡ pos_part k → m ≡ n + num → pos m ≡ k
reaches (pos k) n m h num e e' = let same : m ≡ k = omega (arith, e, e') in ap pos same
reaches (negsuc k) n m h num e e' = absurd (omega arith)

no_more : (k : ℤ) (n : ℕ) → leb_ℤ (k -ℤ pos n) (pos 0) ≡ true → k ≤ℤ pos n
no_more k n h = let p = -ℤ_parts k (pos n) in ground (arith, p, h)

some_more : (k : ℤ) (n : ℕ) → leb_ℤ (k -ℤ pos n) (pos 0) ≡ false → pos n <ℤ k
some_more k n h = let p = -ℤ_parts k (pos n) in ground (arith, p, h)

module _ (T : Tool) (L : IsLawful T.key_base) (flags : Flags) where
  abbrev HasRoom : World T → Type 0
  HasRoom w = AreFree T L flags w (count T L flags w) (pos_part flags.k)

  make_accounts-Leads :
      (w : World T)
      → InInt64 flags.k
      → pos (count T L flags w) <ℤ flags.k
      → HasRoom w
      → Leads T
          (λ v. pos (count T L flags v) ≡ flags.k)
          (make_accounts T flags (count T L flags w) (flags.k -ℤ pos (count T L flags w)) w)
  unfolding multiply_coins ensure_from_acc_has_enough_coins send_coins
  make_accounts-Leads w h k room =
      let num = flags.k -ℤ pos (count T L flags w) in
      let some_missing : pos_part num + count T L flags w ≡ pos_part flags.k =
        missing flags.k (count T L flags w) k in
      let small = h.below in
      continue-Leads T {A = Address} (λ v. pos (count T L flags v) ≡ flags.k) (SameKeys T L flags w)
        _ _ (expect-Leads T (SameKeys T L flags w) no_from_address T.from_address w refl)
        (λ from w1 k1.
          continue-Leads T {A = List Coin} (λ v. pos (count T L flags v) ≡ flags.k)
            (SameKeys T L flags w) _ _
            (expect-Leads T (SameKeys T L flags w) no_coins (T.parse_coins flags.amount) w1 k1)
            (λ coins w2 k2.
              continue-Leads T {A = List Coin} (λ v. pos (count T L flags v) ≡ flags.k)
                (SameKeys T L flags w) _ _ (multiply_coins-Leads T L flags coins num w w2 k2)
                (λ total w3 k3.
                  continue-Leads T {A = Unit {0}} (λ v. pos (count T L flags v) ≡ flags.k)
                    (SameKeys T L flags w) _ _ (enough_coins-Leads T L flags from total w w3 k3)
                    (λ _ w4 k4.
                      Leads-imp T {A = Unit {0}} (Adds T L flags w (pos_part num))
                        (λ v. pos (count T L flags v) ≡ flags.k)
                        (λ v e.
                          reaches flags.k (count T L flags w) (count T L flags v) k (pos_part num)
                            some_missing e)
                        _
                        (send_coins-Leads T L flags (pos_part num) (count T L flags w) from coins w
                          w4 k4 (omega (arith, some_missing, small))
                          (λ j low high. room j low (omega (arith, some_missing, high))))))))

  abbrev Outcome : World T → World T → Type 0
  Outcome w v =
      (flags.k ≤ℤ pos (count T L flags v)) × ((pos (count T L flags v) ≡ flags.k) ⊎ (v ≡ w))

  make_missing-Leads :
      (w : World T)
      → InInt64 flags.k
      → HasRoom w
      → Leads T
          (Outcome w)
          (make_missing T flags (count T L flags w) (flags.k -ℤ pos (count T L flags w)) w)
  unfolding multiply_coins ensure_from_acc_has_enough_coins send_coins
  make_missing-Leads w h room =
      let num = flags.k -ℤ pos (count T L flags w) in
      elim (Bool-cases (leb_ℤ num (pos 0))) [
        | inl enough ↦ rw enough (no_more flags.k (count T L flags w) enough, inr refl)
        | inr few ↦ rw few (
            Leads-imp T {A = Unit {0}} (λ v. pos (count T L flags v) ≡ flags.k) (Outcome w)
              (λ v e. (ground (arith, e), inl e)) _
              (make_accounts-Leads w h (some_more flags.k (count T L flags w) few) room))
      ]

  keys-Leads :
      (w : World T) (infos : Option (List String))
      → T.key_base.list w.keys ≡ infos
      → InInt64 flags.k
      → HasRoom w
      → Leads T (Outcome w) (
          continue T
            (λ infos.
              let existing = count_spam_accounts infos flags.spam_prefix in
              make_missing T flags existing (flags.k -ℤ pos existing))
            (expect T no_key_base infos, w))
  keys-Leads w none e h room = tt
  keys-Leads w (some infos) e h room =
      let known = L.list_lem w.keys infos e in
      subst
        (λ ns.
          let existing = count_spam_accounts ns flags.spam_prefix in
          Leads T (Outcome w) (make_missing T flags existing (flags.k -ℤ pos existing) w))
        (sym known) (make_missing-Leads w h room)

  account_ensure-Leads :
      (w : World T) → InInt64 flags.k → HasRoom w → Leads T (Outcome w) (account_ensure T flags w)
  unfolding account_ensure
  account_ensure-Leads w h room =
      continue-Leads T {A = Unit {0}} (Outcome w) (λ v. w ≡ v) _ _
        (fail_if-Leads T (λ v. w ≡ v) (str_eq flags.spam_password "") spam_password_required w refl)
        (λ _ w1 e1.
          continue-Leads T {A = Unit {0}} (Outcome w) (λ v. w ≡ v) _ _
            (fail_if-Leads T (λ v. w ≡ v) (str_eq flags.sign_password "") sign_password_required w1
              e1)
            (λ _ w2 e2.
              subst (λ u. Leads T (Outcome w) (ensure_listed T flags u)) e2
                (keys-Leads w (T.key_base.list w.keys) refl h room)))

  -- With every number from the count T L flags on free, a run that ends without an error leaves at least k
  -- spam accounts: exactly k, if it made any.
  pub account_ensure-makes :
      {w v : World T}
      → InInt64 flags.k
      → HasRoom w
      → account_ensure T flags w ≡ (done tt, v)
      → (flags.k ≤ℤ pos (count T L flags v)) × ((pos (count T L flags v) ≡ flags.k) ⊎ (v ≡ w))
  account_ensure-makes {w} {v} h room e =
      subst (Leads T (Outcome w)) e (account_ensure-Leads w h room)
