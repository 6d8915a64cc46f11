-- ===== src/Spam/Sender/Counting.antt =====
-- The sequence number of a spammer, over its whole life.
use thorchain_v.Base.{
  ℕ, suc, ◌<◌, ◌≡◌, ◌⊎◌, inl, inr, refl, sym, ◌∙◌, ap, subst, String, Option, none, some, List,
  Bool-cases, leb, arith,
}
use thorchain_v.Base.Int.{ℤ, pos, ◌+ℤ◌, int_laws, parts}
use thorchain_v.Sdk.Types.{Address, Coin, Time}
use thorchain_v.Sdk.Keeper.{Outcome, ok, err, panic, resume}
use thorchain_v.Spam.Broadcast.{Account}
use thorchain_v.Spam.Messages.{Made}
use thorchain_v.Spam.Parse.{SpamCtx}
use thorchain_v.Spam.Sender.{
  Sending, Spammer, World, spawn_spammer, spawn_with, send, send_made, after_broadcast,
  refresh_with, update_sequence_and_coins, signing, used, random, make_random_msg,
}

module _ (S : Sending) where
  -- A spammer that was made, and then sent any number of times, whatever the node answered.
  pub data Life : Spammer S → Type 0 where
    spawned :
        (ctx : SpamCtx) (index : ℕ) (name : String) (address : Address)
        (key : Option S.network.PrivKey) (s t : S.network.State) {sp : Spammer S}
        → spawn_spammer S ctx index name address key s ≡ (ok (some sp), t)
        → Life sp
    sent :
        (ctx : SpamCtx) (to : Address) (now : Time) (w v : World S) {sp sp' : Spammer S}
        → Life sp
        → send S ctx to now sp w ≡ (ok sp', v)
        → Life sp'

  -- A sequence that the node gave for the account.
  abbrev pub IsAnswer : Address → ℤ → Type 0
  IsAnswer a n =
      (s : S.network.State) × (((S.network.get_account_sequence a s).0 ≡ (n, none))
        ⊎ ((acc : Account) × ((S.network.get_account a s).0 ≡ some acc) × (acc.sequence ≡ n)))

  -- A number that came with an error of `GetAccountSequence`.
  abbrev pub IsFailure : Address → ℤ → Type 0
  IsFailure a n =
      (s : S.network.State) × (text : String) × ((S.network.get_account_sequence a s).0
        ≡ (n, some text))

  -- The next sequence is what the node gave and the number of sends since.
  pub record IsCounted (sp : Spammer S) : Type 0 where
    pub base : ℤ
    pub answered : IsAnswer sp.account_address base ⊎ IsFailure sp.account_address base
    pub counts : sp.next_sequence ≡ base +ℤ pos sp.sequence_check

  -- The node knows every account it is asked for, and its sequence.
  pub record AlwaysAnswers : Type 0 where
    pub account :
        (a : Address) (s : S.network.State)
        → (acc : Account) × ((S.network.get_account a s).0 ≡ some acc)
    pub sequence :
        (a : Address) (s : S.network.State)
        → (n : ℤ) × ((S.network.get_account_sequence a s).0 ≡ (n, none))

  -- The next sequence is a sequence that the node gave and fewer than 200 more.
  abbrev pub IsRecent : Spammer S → Type 0
  IsRecent sp =
      (base : ℤ) × (k : ℕ) × IsAnswer sp.account_address base
      × (sp.next_sequence ≡ base +ℤ pos k)
      × (k < 200)

  abbrev IsGood : Spammer S → Type 0
  IsGood sp = IsCounted sp × (AlwaysAnswers → sp.sequence_check < 200)

  came_from :
      (a : Address) (s : S.network.State) (n : ℤ) (e : Option String)
      → (S.network.get_account_sequence a s).0 ≡ (n, e)
      → IsAnswer a n ⊎ IsFailure a n
  came_from a s n none h = inl (s, inl h)
  came_from a s n (some text) h = inr (s, text, h)

  abbrev Ends : Outcome (Spammer S) × World S → Type 0
  Ends (ok sp, w) = IsGood sp
  Ends (err e, w) = Unit
  Ends (panic, w) = Unit

  plus_none : (n : ℤ) → n ≡ n +ℤ pos 0
  plus_none n = omega int_laws

  refresh_with-IsGood :
      (sp : Spammer S) (s : S.network.State) (r : Option Account × S.network.State)
      → S.network.get_account sp.account_address s ≡ r
      → IsCounted sp
      → IsGood (refresh_with S sp r).0
  refresh_with-IsGood sp s (none, t) e h = (
    h,
    λ answers.
        let known = answers.account sp.account_address s in absurd (ground (arith, known.1, e)),
  )
  refresh_with-IsGood sp s (some acc, t) e h = (
    record {
      base = (S.network.get_account_sequence sp.account_address t).0.0;
      answered = came_from sp.account_address t _ _ refl;
      counts = plus_none (S.network.get_account_sequence sp.account_address t).0.0;
    },
    λ answers. omega arith,
  )

  update-Ends :
      (sp : Spammer S) (w : World S) → IsCounted sp → Ends (update_sequence_and_coins S sp w)
  unfolding update_sequence_and_coins
  update-Ends sp w h =
      refresh_with-IsGood sp w.node (S.network.get_account sp.account_address w.node) refl h

  one_more : {n : ℤ} (b : ℤ) (k : ℕ) → n ≡ b +ℤ pos k → n +ℤ pos 1 ≡ b +ℤ pos (suc k)
  one_more {n} b k e = let whole = parts e in omega (int_laws, whole)

  abbrev spent : Spammer S → List Coin → Spammer S
  spent sp coins = record sp { current_coins = S.env.lists.minus sp.current_coins coins }

  spent-IsCounted : (sp : Spammer S) (coins : List Coin) → IsCounted sp → IsCounted (spent sp coins)
  spent-IsCounted sp coins h = record { base = h.base; answered = h.answered; counts = h.counts }

  used-IsCounted : (sp : Spammer S) → IsCounted sp → IsCounted (used S (signing S sp))
  used-IsCounted sp h = record {
    base = h.base;
    answered = h.answered;
    counts = one_more h.base sp.sequence_check h.counts;
  }

  after_broadcast-Ends :
      (sp : Spammer S) (coins : List Coin) (res : Option S.network.Bytes) (w : World S)
      → IsCounted sp
      → Ends (after_broadcast S sp coins res w)
  after_broadcast-Ends sp coins none w h = update-Ends sp _ h
  after_broadcast-Ends sp coins (some bz) w h = elim (Bool-cases (leb 200 sp.sequence_check)) [
    | inl due ↦ rw due (update-Ends _ _ (spent-IsCounted sp coins h))
    | inr early ↦ rw early (spent-IsCounted sp coins h, λ answers. ground (arith, early))
  ]

  send_made-Ends :
      (sp : Spammer S) (made : Made S.env) (w : World S)
      → IsCounted sp
      → Ends (send_made S sp made w)
  send_made-Ends sp none w h = update-Ends sp w h
  send_made-Ends sp (some (msg, coins)) w h =
      after_broadcast-Ends (used S (signing S sp)) coins _ _ (used-IsCounted sp h)

  resume-Ends :
      (sp : Spammer S) (r : Outcome (Made S.env) × World S)
      → IsCounted sp
      → Ends (resume (λ made. send_made S sp made) r)
  resume-Ends sp (ok made, w) h = send_made-Ends sp made w h
  resume-Ends sp (err e, w) h = tt
  resume-Ends sp (panic, w) h = tt

  abbrev Spawns : Outcome (Option (Spammer S)) → Type 0
  Spawns (ok (some sp)) = IsGood sp
  Spawns (ok none) = Unit
  Spawns (err e) = Unit
  Spawns panic = Unit

  spawn_with-Spawns :
      (ctx : SpamCtx) (index : ℕ) (name : String) (address : Address)
      (key : Option S.network.PrivKey) (account : Option Account) (s : S.network.State)
      → (S.network.get_account address s).0 ≡ account
      → Spawns (spawn_with S ctx index name address key account)
  spawn_with-Spawns ctx index name address key none s e = tt
  spawn_with-Spawns ctx index name address none (some account) s e = tt
  spawn_with-Spawns ctx index name address (some priv) (some account) s e = (
    record {
      base = account.sequence;
      answered = inl (s, inr (account, e, refl));
      counts = plus_none account.sequence;
    },
    λ answers. omega arith,
  )

  Life-IsGood : {sp : Spammer S} → Life sp → IsGood sp
  unfolding spawn_spammer send
  Life-IsGood (spawned ctx index name address key s t {sp} e) =
      let asked = S.network.get_account address s in
      let made = spawn_with-Spawns ctx index name address key asked.0 s refl in
      subst Spawns (ap (λ r. r.0) e) made
  Life-IsGood (sent ctx to now w v {sp} {sp'} life e) =
      let made = random S (make_random_msg S ctx to now sp) w in
      subst Ends e (resume-Ends sp made (Life-IsGood life).0)

  no_failure :
      (answers : AlwaysAnswers) (a : Address) (n : ℤ) → IsAnswer a n ⊎ IsFailure a n → IsAnswer a n
  no_failure answers a n (inl given) = given
  no_failure answers a n (inr (s, text, h)) =
      let known = answers.sequence a s in let clash = ap (λ p. p.1) (sym h ∙ known.1) in cc clash

  -- With a node that always knows the accounts and their sequences, the next sequence that a spammer
  -- signs with is, all its life, one that the node gave for its account and fewer than 200 more.
  pub Life-refreshes : {sp : Spammer S} → AlwaysAnswers → Life sp → IsRecent sp
  Life-refreshes {sp} answers life =
      let (h, early) = Life-IsGood life in
      (
        h.base,
        sp.sequence_check,
        no_failure answers sp.account_address h.base h.answered,
        h.counts,
        early answers,
      )
