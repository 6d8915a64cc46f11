-- ===== src/Sdk/Store.antt =====
-- `sdk.KVStore` and the amino codec (`wire.Codec`), as far as the source calls them.
use thorchain_v.Base.{
  ◌≡◌, ◌≢◌, All, String, Bool, true, false, Option, none, some, List, [], ◌∷◌, ◌++◌, starts_with,
  str_eq, if◌then◌else◌,
}

pub record KvStore : Type 1 where
  pub Bytes : Type 0
  pub State : Type 0
  pub get : State → String → Option Bytes
  pub set : State → String → Bytes → State
  -- The entries that `sdk.KVStorePrefixIterator` visits, in its order.
  pub iterate : State → String → List (String × Bytes)

-- What a write does to the entries under a prefix.
pub data Written {A : Type 0} (k : String) (v : A) (old : Option A)
    (before after : List (String × A)) : Type 0 where
  replaced :
      (l r : List (String × A)) (u : A)
      → old ≡ some u
      → before ≡ l ++ ((k, u) ∷ r)
      → after ≡ l ++ ((k, v) ∷ r)
      → Written k v old before after
  added :
      (l r : List (String × A))
      → old ≡ none
      → before ≡ l ++ r
      → after ≡ l ++ ((k, v) ∷ r)
      → Written k v old before after

-- No key stands twice in a list of entries.
abbrev pub HasOther {ℓ} : {A : Type ℓ} → String → String × A → Type 0
HasOther k e = e.0 ≢ k

abbrev pub Distinct : {A : Type 0} → List (String × A) → Type 0
Distinct [] = Unit
Distinct ((k, v) ∷ es) = All (HasOther k) es × Distinct es

pub record IsLawful (S : KvStore) : Type 0 where
  -- What the iterator visits is stored, and each key is visited once.
  pub iterate-get : (s : S.State) (p : String) → All (λ e. S.get s e.0 ≡ some e.1) (S.iterate s p)
  pub iterate-Distinct : (s : S.State) (p : String) → Distinct (S.iterate s p)
  pub get-set :
      (s : S.State) (k : String) (v : S.Bytes) (j : String)
      → S.get (S.set s k v) j ≡ (if str_eq k j then some v else S.get s j)
  pub iterate-set :
      (s : S.State) (k : String) (v : S.Bytes) (p : String)
      → starts_with k p ≡ true
      → Written k v (S.get s k) (S.iterate s p) (S.iterate (S.set s k v) p)
  pub iterate-set_other :
      (s : S.State) (k : String) (v : S.Bytes) (p : String)
      → starts_with k p ≡ false
      → S.iterate (S.set s k v) p ≡ S.iterate s p

-- `MarshalBinary` (`none` is an error), and `UnmarshalBinary` into a destination: whether there was
-- no error, and what the destination holds then.
pub record Codec (Bytes A : Type 0) : Type 0 where
  pub marshal : A → Option Bytes
  pub unmarshal : Bytes → A → Bool × A

pub record IsLawfulCodec {Bytes A : Type 0} (K : Codec Bytes A) : Type 0 where
  pub encode : A → Bytes
  pub marshal_lem : (a : A) → K.marshal a ≡ some (encode a)
  pub unmarshal_lem : (a d : A) → K.unmarshal (encode a) d ≡ (true, a)
