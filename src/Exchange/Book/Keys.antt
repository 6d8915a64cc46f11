-- ===== src/Exchange/Book/Keys.antt =====
-- The store keys of order books: which denoms share one, and that the iterator of
-- `refundExpiredLimitOrders` finds all of them.
use Prim.Native.Char.{code}
use text.Mathlib.TextLemmas.{
  append_cancel_left, nil-append, cons-append, head-eq_of_cons-eq, tail-eq_of_cons-eq, append_assoc,
}
use text.Mathlib.TextEquality.{starts_with_iff}
use thorchain_v.Base.{
  ℕ, ◌≡◌, ◌≢◌, refl, sym, ap, ◌∙◌, inl, inr, true, String, ◌<>◌, starts_with, arith,
}
use thorchain_v.Exchange.Orders.{OrderKind, IsKind}
use thorchain_v.Exchange.Book.{make_key_order_book, byte_text, order_book_subspace}

-- A text without a colon.
abbrev pub NoColon : String → Type 0
NoColon String.[] = Unit
NoColon (String.◌∷◌ c s) = (code c ≢ b':') × NoColon s

-- What a text that starts with a colon, or with another character, looks like from its head on.
colon_first : (p : String) → "" <> (":" <> p) ≡ String.◌∷◌ ":" p
colon_first p = nil-append (":" <> p) ∙ cons-append ":" "" p ∙ ap (String.◌∷◌ ":") (nil-append p)

split_colon :
    (a a' p p' : String)
    → NoColon a
    → NoColon a'
    → a <> (":" <> p) ≡ a' <> (":" <> p')
    → (a ≡ a') × (p ≡ p')
split_colon String.[] String.[] p p' h h' e =
    (refl, tail-eq_of_cons-eq (sym (colon_first p) ∙ e ∙ colon_first p'))
split_colon String.[] (String.◌∷◌ c a') p p' h h' e = absurd (
    h'.0
      (sym (ap code (head-eq_of_cons-eq (sym (colon_first p) ∙ e ∙ cons-append c a' (":" <> p'))))))
split_colon (String.◌∷◌ c a) String.[] p p' h h' e =
    absurd
      (h.0 (ap code (head-eq_of_cons-eq (sym (cons-append c a (":" <> p)) ∙ e ∙ colon_first p'))))
split_colon (String.◌∷◌ c a) (String.◌∷◌ c' a') p p' h h' e =
    let e' = sym (cons-append c a (":" <> p)) ∙ e ∙ cons-append c' a' (":" <> p') in
    let (ea, ep) = split_colon a a' p p' h.1 h'.1 (tail-eq_of_cons-eq e') in
    ((λ i. String.◌∷◌ (head-eq_of_cons-eq e' i) (ea i)), ep)

-- The iterator over `orderBook:` visits every key of an order book.
pub starts_with-make_key :
    (kind : OrderKind) (ad pd : String)
    → starts_with (make_key_order_book kind ad pd) order_book_subspace ≡ true
unfolding make_key_order_book
starts_with-make_key kind ad pd = (starts_with_iff _ order_book_subspace).1 (_, refl)

one_is_not_two : (x y : String) → "1" <> x ≢ "2" <> y
one_is_not_two x y e =
    let digits : ◌≡◌ {A = ℕ} b'1' b'2' =
      ap code (head-eq_of_cons-eq (sym (cons-append "1" "" x) ∙ e ∙ cons-append "2" "" y)) in
    absurd (omega (arith, digits))

byte_text-injective :
    (k k' : OrderKind) (x y : String)
    → IsKind k
    → IsKind k'
    → byte_text k <> (":" <> x) ≡ byte_text k' <> (":" <> y)
    → (k ≡ k') × (x ≡ y)
unfolding byte_text
byte_text-injective k k' x y h h' e = elim h [
  | inl a ↦ elim h' [
    | inl b ↦ (a ∙ sym b, append_cancel_left ":" _ _ (append_cancel_left "1" _ _ (as_text a b)))
    | inr b ↦ absurd (one_is_not_two _ _ (as_text a b))
  ]
  | inr a ↦ elim h' [
    | inl b ↦ absurd (one_is_not_two _ _ (sym (as_text a b)))
    | inr b ↦ (a ∙ sym b, append_cancel_left ":" _ _ (append_cancel_left "2" _ _ (as_text a b)))
  ]
]
  where
    as_text :
        {i j : OrderKind} → k ≡ i → k' ≡ j → byte_text i <> (":" <> x) ≡ byte_text j <> (":" <> y)
    as_text a b =
        sym (ap (λ t. byte_text t <> (":" <> x)) a) ∙ e ∙ ap (λ t. byte_text t <> (":" <> y)) b

-- Two order books of supported kinds, whose amount denoms have no colon, share a key only if they are
-- of the same kind and over the same denoms.
pub make_key_order_book-injective :
    (k k' : OrderKind) (ad ad' pd pd' : String)
    → IsKind k
    → IsKind k'
    → NoColon ad
    → NoColon ad'
    → make_key_order_book k ad pd ≡ make_key_order_book k' ad' pd'
    → (k ≡ k') × (ad ≡ ad') × (pd ≡ pd')
unfolding make_key_order_book
make_key_order_book-injective k k' ad ad' pd pd' h h' n n' e =
    let (ek, er) = byte_text-injective k k' _ _ h h' (append_cancel_left "orderBook:" _ _ e) in
    let (ea, ep) = split_colon ad ad' pd pd' n n' er in (ek, ea, ep)

-- A denom with a colon makes two different pairs of denoms share one key.
pub make_key_order_book_collides :
    (k : OrderKind) (a b c : String)
    → make_key_order_book k (a <> (":" <> b)) c ≡ make_key_order_book k a (b <> (":" <> c))
unfolding make_key_order_book
make_key_order_book_collides k a b c = simp append_assoc
