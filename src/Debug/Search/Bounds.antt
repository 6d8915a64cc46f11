-- ===== src/Debug/Search/Bounds.antt =====
-- Where the search leads.
use Prim.Native.Nat.pow
use thorchain_v.Base.{
  ℕ, zero, suc, ◌+◌, ◌^◌, ◌/◌, ◌≤◌, ◌<◌, Bool, true, false, Option, some, ◌≡◌, ◌≢◌, refl, ap, sym,
  ◌∙◌, inl, inr, Bool-cases, leb, arith,
}
use thorchain_v.Debug.Search.{Heights, start, between, round, rounds, after}

at {ℓ} : {A : Type ℓ} (f : ℕ → A) (m n : ℕ) → m ≡ n → f m ≡ f n
at f m n e = ap f e

module _ (load : ℕ → Option Bool) (found : ℕ → Bool) where
  -- The key is stored at the top, not at the bottom, and there are at most `width` heights between.
  record IsSearch (last width : ℕ) (s : Heights) : Type 0 where
    pub top : found s.top_height ≡ true
    pub bottom : found s.bottom_height ≡ false
    pub below : s.top_height ≤ last
    pub apart : s.bottom_height < s.top_height
    pub within : s.top_height ≤ s.bottom_height + width
    pub check : s.check_height ≡ (s.top_height + s.bottom_height) / 2

  -- What the key looks like at every height that the search can look at.
  abbrev Loads : ℕ → Type 0
  Loads last = (h : ℕ) → h ≤ last → load h ≡ some (found h)

  loaded :
      {last width : ℕ} {s : Heights}
      → Loads last
      → IsSearch last width s
      → load s.check_height ≡ some (found s.check_height)
  loaded {s} loads h =
      let c = h.check in
      let a = h.apart in let b = h.below in loads s.check_height (omega (arith, c, a, b))

  round-halves :
      (last width : ℕ) (s : Heights)
      → Loads last
      → IsSearch last (width + width) s
      → (t : Heights) × (round load s ≡ some t) × IsSearch last width t
  unfolding round
  round-halves last width s loads h =
      let e = loaded loads h in
      let c = h.check in
      let a = h.apart in
      let w = h.within in
      let b = h.below in
      elim (Bool-cases (found s.check_height)) [
        | inl here ↦ (
          between s.check_height s.bottom_height,
          rw (e, here) refl,
          record {
            top = here;
            bottom = h.bottom;
            below = omega (arith, b, c, a);
            apart =
                let other : s.check_height ≢ s.bottom_height = λ same.
                  let clash = sym here ∙ ap found same ∙ h.bottom in ground (arith, clash) in
                omega (arith, other, c, a);
            within = omega (arith, c, a, w);
            check = refl;
          },
        )
        | inr not_here ↦ (
          between s.top_height s.check_height,
          rw (e, not_here) refl,
          record {
            top = h.top;
            bottom = not_here;
            below = b;
            apart = omega (arith, c, a);
            within = omega (arith, c, a, w);
            check = refl;
          },
        )
      ]

  -- With one height left, a round changes nothing.
  round-still : (last : ℕ) (s : Heights) → Loads last → IsSearch last 1 s → round load s ≡ some s
  unfolding round
  round-still last s loads h =
      let e = loaded loads h in
      let c = h.check in
      let a = h.apart in
      let w = h.within in
      let same : s.check_height ≡ s.bottom_height = omega (arith, c, a, w) in
      let off : found s.check_height ≡ false = ap found same ∙ h.bottom in
      let back : (s.top_height + s.check_height) / 2 ≡ s.check_height = omega (arith, same, a, w) in
      rw (e, off)
        (λ i.
          some
            (record { top_height = s.top_height; bottom_height = same i; check_height = back i }))

  round-first :
      (last : ℕ)
      → Loads last
      → found 0 ≡ false
      → found last ≡ true
      → (t : Heights) × (round load (start last) ≡ some t) × IsSearch last last t
  unfolding round
  round-first last loads none_at_0 there =
      let e = loads last (omega arith) in
      (
        between last 0,
        rw (e, there) refl,
        record {
          top = there;
          bottom = none_at_0;
          below = omega arith;
          apart =
              let other : last ≢ 0 = λ same.
                let clash = sym there ∙ ap found same ∙ none_at_0 in ground (arith, clash) in
              omega (arith, other);
          within = omega arith;
          check = refl;
        },
      )

  widen : {last v w : ℕ} {s : Heights} → v ≤ w → IsSearch last v s → IsSearch last w s
  widen h k =
      let w = k.within in
      record {
        top = k.top;
        bottom = k.bottom;
        below = k.below;
        apart = k.apart;
        within = omega (arith, w, h);
        check = k.check;
      }

  narrow :
      (last i j : ℕ)
      → Loads last
      → found 0 ≡ false
      → found last ≡ true
      → last ≤ 2 ^ (i + j)
      → (t : Heights) × (rounds load (suc i) (start last) ≡ some t) × IsSearch last (2 ^ j) t
  unfolding rounds
  narrow last zero j loads none_at_0 there h =
      let (t, e, k) = round-first last loads none_at_0 there in
      let same : 2 ^ (0 + j) ≡ 2 ^ j = at (λ n. 2 ^ n) (0 + j) (j) (omega arith) in
      (t, e, widen (omega (arith, h, same)) k)
  narrow last (suc i) j loads none_at_0 there h =
      let shift : 2 ^ (suc i + j) ≡ 2 ^ (i + suc j) =
        at (λ n. 2 ^ n) (suc i + j) (i + suc j) (omega arith) in
      let double = pow.suc 2 j in
      let (s, e, k) = narrow last i (suc j) loads none_at_0 there (omega (arith, h, shift)) in
      let (t, e', k') = round-halves last (2 ^ j) s loads (widen (omega (arith, double)) k) in
      (t, rw e e', k')

  stay :
      (last n k : ℕ) (s : Heights)
      → Loads last
      → rounds load n (start last) ≡ some s
      → IsSearch last 1 s
      → rounds load (k + n) (start last) ≡ some s
  unfolding rounds
  stay last n zero s loads e h = at (λ m. rounds load m (start last)) (0 + n) (n) (omega arith) ∙ e
  stay last n (suc k) s loads e h =
      at (λ m. rounds load m (start last)) (suc k + n) (suc (k + n)) (omega arith)
      ∙ ap (λ o. after o (round load)) (stay last n k s loads e h)
      ∙ round-still last s loads h

  order :
      (last h : ℕ) (s : Heights)
      → ((i j : ℕ) → i ≤ j → j ≤ last → found i ≡ true → found j ≡ true)
      → h ≤ last
      → IsSearch last 1 s
      → found h ≡ leb s.top_height h
  order last h s kept within i =
      let a = i.apart in
      let w = i.within in
      elim (Bool-cases (leb s.top_height h)) [
        | inl later ↦ kept s.top_height h (ground (arith, later)) within i.top ∙ sym later
        | inr earlier ↦ elim (Bool-cases (found h)) [
          | inl here ↦
              let early : h ≤ s.bottom_height = ground (arith, earlier, a, w) in
              let b = i.below in
              let there = kept h s.bottom_height early (omega (arith, a, b)) here in
              let clash = sym there ∙ i.bottom in absurd (ground (arith, clash))
          | inr not_here ↦ not_here ∙ sym earlier
        ]
      ]

  -- With the key at the last height, not at height 0, and never gone again once stored, the search
  -- has found the first height with the key after one round and as many more as the last height has
  -- binary digits: its top, one above its bottom. Every height is then told by its order to the top.
  pub rounds-find :
      (last n k h : ℕ)
      → last ≤ 2 ^ n
      → ((i : ℕ) → i ≤ last → load i ≡ some (found i))
      → ((i j : ℕ) → i ≤ j → j ≤ last → found i ≡ true → found j ≡ true)
      → found 0 ≡ false
      → found last ≡ true
      → h ≤ last
      → (s : Heights) × (rounds load (k + suc n) (start last) ≡ some s)
        × (s.bottom_height + 1 ≡ s.top_height)
        × (found h ≡ leb s.top_height h)
  rounds-find last n k h small loads kept none_at_0 there within =
      let whole : 2 ^ (n + 0) ≡ 2 ^ n = at (λ m. 2 ^ m) (n + 0) (n) (omega arith) in
      let (s, e, i) = narrow last n 0 loads none_at_0 there (omega (arith, small, whole)) in
      let a = i.apart in
      let w = i.within in
      (s, stay last (suc n) k s loads e i, omega (arith, a, w), order last h s kept within i)
