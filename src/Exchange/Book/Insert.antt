-- ===== src/Exchange/Book/Insert.antt =====
-- The loop of `AddLimitOrder`, which writes into a slice by index, is an insertion into a list.
use mathlib.Core.List.{append_assoc}
use native.Mathlib.Nat.{zero-add}
use thorchain_v.Base.{
  ℕ, suc, ◌+◌, ◌≡◌, refl, Bool, true, false, not, List, [], ◌∷◌, ◌++◌, inl, inr, Bool-cases,
  if◌then◌else◌, arith, length, set, replicate, length-append, set-append, length-replicate,
}
use thorchain_v.Sdk.Coins.{CoinOps}
use thorchain_v.Exchange.Orders.{OrderKind, LimitOrder}
use thorchain_v.Exchange.Book.{should_insert_before, insert_loop, insert_order, zero_order}

add_suc_one : (i n : ℕ) → i + suc n ≡ i + 1 + n
add_suc_one i n = omega arith

module _ (C : CoinOps) (kind : OrderKind) (lo : LimitOrder) where
  -- The new order stands before the first stored one that it has to come before.
  abbrev pub place : List LimitOrder → List LimitOrder
  place [] = lo ∷ []
  place (o ∷ os) =
      let rest = place os in
      if should_insert_before C kind lo.price o.price then lo ∷ o ∷ os else o ∷ rest

  abbrev finish : ℕ → Bool × List LimitOrder → List LimitOrder
  finish n (added, new_orders) = if not added then set new_orders n lo else new_orders

  insert_loop-added :
      (xs ys os : List LimitOrder) (i : ℕ)
      → i + 1 ≡ length xs
      → length ys ≡ length os
      → insert_loop C kind lo i true os (xs ++ ys) ≡ (true, xs ++ os)
  unfolding insert_loop
  insert_loop-added xs [] [] i e h = refl
  insert_loop-added xs [] (o ∷ os) i e h = absurd (omega arith)
  insert_loop-added xs (y ∷ ys) [] i e h = absurd (omega arith)
  insert_loop-added xs (y ∷ ys) (o ∷ os) i e h = rw (set-append xs ys y o (i + 1) e) (
      simp append_assoc at (
        insert_loop-added (xs ++ o ∷ []) ys os (i + 1) (omega (arith, length-append xs (o ∷ [])))
          (omega arith)))

  insert_loop-here :
      (i : ℕ) (o : LimitOrder) (os new : List LimitOrder)
      → should_insert_before C kind lo.price o.price ≡ true
      → insert_loop C kind lo i false (o ∷ os) new
        ≡ insert_loop C kind lo (i + 1) true os (set (set new i lo) (i + 1) o)
  unfolding insert_loop
  insert_loop-here i o os new h = rw (h, insert_loop)

  insert_loop-later :
      (i : ℕ) (o : LimitOrder) (os new : List LimitOrder)
      → should_insert_before C kind lo.price o.price ≡ false
      → insert_loop C kind lo i false (o ∷ os) new
        ≡ insert_loop C kind lo (i + 1) false os (set new i o)
  unfolding insert_loop
  insert_loop-later i o os new h = rw (h, insert_loop)

  insert_loop-written :
      (xs : List LimitOrder) (z : LimitOrder) (ys : List LimitOrder) (o : LimitOrder)
      (os : List LimitOrder) (i : ℕ)
      → i ≡ length xs
      → length ys ≡ length os
      → insert_loop C kind lo (i + 1) true os (set (xs ++ lo ∷ z ∷ ys) (i + 1) o)
        ≡ (true, xs ++ lo ∷ o ∷ os)
  unfolding insert_loop
  insert_loop-written xs z ys o os i e h = simp append_assoc at (
      insert_loop-added (xs ++ lo ∷ []) (z ∷ ys) (o ∷ os) i
        (omega (arith, length-append xs (lo ∷ []))) (omega arith))

  insert_loop-place :
      (xs ys os : List LimitOrder) (i : ℕ)
      → i ≡ length xs
      → length ys ≡ length os + 1
      → finish (i + length os) (insert_loop C kind lo i false os (xs ++ ys)) ≡ xs ++ place os
  unfolding insert_loop
  insert_loop-place xs [] os i e h = absurd (omega arith)
  insert_loop-place xs (y ∷ []) [] i e h = set-append xs [] y lo (i + 0) (omega arith)
  insert_loop-place xs (y ∷ z ∷ ys) [] i e h = absurd (omega arith)
  insert_loop-place xs (y ∷ []) (o ∷ os) i e h = absurd (omega arith)
  insert_loop-place xs (y ∷ z ∷ ys) (o ∷ os) i e h =
      elim (Bool-cases (should_insert_before C kind lo.price o.price)) [
        | inl here ↦
            rw (here, insert_loop-here i o os _ here, set-append xs (z ∷ ys) y lo i e)
              (rw (insert_loop-written xs z ys o os i e (omega arith)))
        | inr later ↦
            rw (later, insert_loop-later i o os _ later, set-append xs (z ∷ ys) y o i e)
              (rw (add_suc_one i (length os)) (
                simp append_assoc at (
                  insert_loop-place (xs ++ o ∷ []) (z ∷ ys) os (i + 1)
                    (omega (arith, length-append xs (o ∷ []))) (omega arith))))
      ]

  -- `AddLimitOrder` puts the new order in front of the first stored order that it ranks before, and
  -- keeps the others in their order: the loop over indices is an insertion into a list.
  pub insert_order-place : (os : List LimitOrder) → insert_order C kind lo os ≡ place os
  unfolding insert_order
  insert_order-place [] = refl
  insert_order-place (o ∷ os) = rw zero-add at (
      insert_loop-place [] (replicate (length (o ∷ os) + 1) zero_order) (o ∷ os) 0 refl
        (length-replicate (length (o ∷ os) + 1) zero_order))
