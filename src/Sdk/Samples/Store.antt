-- ===== src/Sdk/Samples/Store.antt =====
-- A store as an association list that keeps its order.
use thorchain_v.Base.{
  ◌≡◌, refl, ap, sym, subst, ◌∙◌, All, ◌++◌, true, false, Bool-cases, inl, inr, Option, none, some,
  List, [], ◌∷◌, String, str_eq, eq_iff, starts_with, if◌then◌else◌, arith,
}
use thorchain_v.Sdk.Store.{KvStore, IsLawful, HasOther, Distinct, Written, replaced, added}

module _ {A : Type 0} where
  abbrev pub find : List (String × A) → String → Option A
  find [] k = none
  find ((j, v) ∷ m) k = let later = find m k in if str_eq j k then some v else later

  abbrev pub write : List (String × A) → String → A → List (String × A)
  write [] k v = (k, v) ∷ []
  write ((j, u) ∷ m) k v =
      let later = write m k v in if str_eq j k then (k, v) ∷ m else (j, u) ∷ later

  abbrev pub drop_key : String → List (String × A) → List (String × A)
  drop_key k [] = []
  drop_key k ((j, u) ∷ m) = let later = drop_key k m in if str_eq j k then later else (j, u) ∷ later

  -- Of several entries with a key, the first one counts.
  abbrev pub under : List (String × A) → String → List (String × A)
  under [] p = []
  under ((j, u) ∷ m) p =
      let later = under m p in if starts_with j p then (j, u) ∷ drop_key j later else later

  find-write :
      (m : List (String × A)) (k : String) (v : A) (j : String)
      → find (write m k v) j ≡ (if str_eq k j then some v else find m j)
  find-write [] k v j = refl
  find-write ((i, u) ∷ m) k v j =
      ground (arith, eq_iff k j, eq_iff i k, eq_iff i j, find-write m k v j)

  Written-cons :
      (e : String × A) (k : String) (v : A) (old : Option A) (b a : List (String × A))
      → Written k v old b a
      → Written k v old (e ∷ b) (e ∷ a)
  Written-cons e k v old b a (replaced l r u o x y) =
      replaced (e ∷ l) r u o (ap (λ t. e ∷ t) x) (ap (λ t. e ∷ t) y)
  Written-cons e k v old b a (added l r o x y) =
      added (e ∷ l) r o (ap (λ t. e ∷ t) x) (ap (λ t. e ∷ t) y)

  drop_key-append :
      (j : String) (l r : List (String × A)) → drop_key j (l ++ r) ≡ drop_key j l ++ drop_key j r
  drop_key-append j [] r = refl
  drop_key-append j ((i, u) ∷ l) r = elim (Bool-cases (str_eq i j)) [
    | inl same ↦ rw same (drop_key-append j l r)
    | inr other ↦ rw other (ap (λ t. (i, u) ∷ t) (drop_key-append j l r))
  ]

  drop_key-Written :
      (j k : String) (v : A) (old : Option A) (b a : List (String × A))
      → str_eq k j ≡ false
      → Written k v old b a
      → Written k v old (drop_key j b) (drop_key j a)
  drop_key-Written j k v old b a h (replaced l r u o x y) =
      replaced (drop_key j l) (drop_key j r) u o
        (ap (drop_key j) x ∙ drop_key-append j l ((k, u) ∷ r) ∙ rw h refl)
        (ap (drop_key j) y ∙ drop_key-append j l ((k, v) ∷ r) ∙ rw h refl)
  drop_key-Written j k v old b a h (added l r o x y) =
      added (drop_key j l) (drop_key j r) o (ap (drop_key j) x ∙ drop_key-append j l r)
        (ap (drop_key j) y ∙ drop_key-append j l ((k, v) ∷ r) ∙ rw h refl)

  under-write :
      (m : List (String × A)) (k : String) (v : A) (p : String)
      → starts_with k p ≡ true
      → Written k v (find m k) (under m p) (under (write m k v) p)
  under-write [] k v p h = rw h (added [] [] refl refl refl)
  under-write ((j, u) ∷ m) k v p h = elim (Bool-cases (str_eq j k)) [
    | inl same ↦
        let e : j ≡ k = (eq_iff j k).0 same in
        let h' : starts_with j p ≡ true = subst (λ i. starts_with i p ≡ true) (sym e) h in
        rw (same, h', h)
          (replaced [] (drop_key k (under m p)) u refl (ap (λ i. (i, u) ∷ drop_key i (under m p)) e)
            refl)
    | inr other ↦ elim (Bool-cases (starts_with j p)) [
      | inl inside ↦
          let apart : str_eq k j ≡ false = ground (arith, other, eq_iff k j, eq_iff j k) in
          rw (other, inside)
            (Written-cons (j, u) k v _ _ _
              (drop_key-Written j k v _ _ _ apart (under-write m k v p h)))
      | inr outside ↦ rw (other, outside) (under-write m k v p h)
    ]
  ]

  under-write_other :
      (m : List (String × A)) (k : String) (v : A) (p : String)
      → starts_with k p ≡ false
      → under (write m k v) p ≡ under m p
  under-write_other [] k v p h = rw h
  under-write_other ((j, u) ∷ m) k v p h = ground (arith, eq_iff j k, under-write_other m k v p h)

module _ {A : Type 0} where
  drop_key-HasOther : (k : String) (m : List (String × A)) → All (HasOther k) (drop_key k m)
  drop_key-HasOther k [] = tt
  drop_key-HasOther k ((j, u) ∷ m) = elim (Bool-cases (str_eq j k)) [
    | inl same ↦ rw same (drop_key-HasOther k m)
    | inr other ↦ rw other ((λ e. ground (arith, e, other, eq_iff j k)), drop_key-HasOther k m)
  ]

  All-drop_key :
      (P : String × A → Type 0) (k : String) (m : List (String × A))
      → All P m
      → All P (drop_key k m)
  All-drop_key P k [] h = tt
  All-drop_key P k ((j, u) ∷ m) h = elim (Bool-cases (str_eq j k)) [
    | inl same ↦ rw same (All-drop_key P k m h.1)
    | inr other ↦ rw other (h.0, All-drop_key P k m h.1)
  ]

  Distinct-drop_key : (k : String) (m : List (String × A)) → Distinct m → Distinct (drop_key k m)
  Distinct-drop_key k [] h = tt
  Distinct-drop_key k ((j, u) ∷ m) h = elim (Bool-cases (str_eq j k)) [
    | inl same ↦ rw same (Distinct-drop_key k m h.1)
    | inr other ↦ rw other (All-drop_key (HasOther j) k m h.0, Distinct-drop_key k m h.1)
  ]

  under-Distinct : (m : List (String × A)) (p : String) → Distinct (under m p)
  under-Distinct [] p = tt
  under-Distinct ((j, u) ∷ m) p = elim (Bool-cases (starts_with j p)) [
    | inl inside ↦
        rw inside
          (drop_key-HasOther j (under m p), Distinct-drop_key j (under m p) (under-Distinct m p))
    | inr outside ↦ rw outside (under-Distinct m p)
  ]

  found-later :
      (m es : List (String × A)) (j : String) (u : A)
      → All (HasOther j) es
      → All (λ e. find m e.0 ≡ some e.1) es
      → All (λ e. find ((j, u) ∷ m) e.0 ≡ some e.1) es
  found-later m [] j u h k = tt
  found-later m (e ∷ es) j u h k =
      let apart : str_eq j e.0 ≡ false = ground (arith, eq_iff j e.0, h.0) in
      (rw apart k.0, found-later m es j u h.1 k.1)

  -- An entry that is visited has another key than one that is not under the prefix.
  All-under : (m : List (String × A)) (p : String) → All (λ e. starts_with e.0 p ≡ true) (under m p)
  All-under [] p = tt
  All-under ((j, u) ∷ m) p = elim (Bool-cases (starts_with j p)) [
    | inl inside ↦ rw inside (inside, All-drop_key _ j (under m p) (All-under m p))
    | inr outside ↦ rw outside (All-under m p)
  ]

  outside-HasOther :
      (j p : String) (es : List (String × A))
      → starts_with j p ≡ false
      → All (λ e. starts_with e.0 p ≡ true) es
      → All (HasOther j) es
  outside-HasOther j p [] h k = tt
  outside-HasOther j p (e ∷ es) h k = (
    (λ same. let clash = sym k.0 ∙ ap (λ i. starts_with i p) same ∙ h in ground (arith, clash)),
    outside-HasOther j p es h k.1,
  )

  under-found : (m : List (String × A)) (p : String) → All (λ e. find m e.0 ≡ some e.1) (under m p)
  under-found [] p = tt
  under-found ((j, u) ∷ m) p = elim (Bool-cases (starts_with j p)) [
    | inl inside ↦
        let here : str_eq j j ≡ true = (eq_iff j j).1 refl in
        rw inside (
          rw here refl,
          found-later m (drop_key j (under m p)) j u (drop_key-HasOther j (under m p))
              (All-drop_key _ j (under m p) (under-found m p)),
        )
    | inr outside ↦ rw outside (
        found-later m (under m p) j u (outside-HasOther j p (under m p) outside (All-under m p))
          (under-found m p))
  ]

abbrev pub list_store : Type 0 → KvStore
list_store A = record {
  Bytes = A;
  State = List (String × A);
  get = find;
  set = write;
  iterate = under;
}

pub list_store-IsLawful : (A : Type 0) → IsLawful (list_store A)
list_store-IsLawful A = record {
  iterate-get = under-found;
  iterate-Distinct = under-Distinct;
  get-set = find-write;
  iterate-set = under-write;
  iterate-set_other = under-write_other;
}
