-- ===== src/Debug/Decode.antt =====
-- `runPubKeyCmd`, `runAddrCmd`, `runTxCmd` and `txServer` of cmd/thorchaindebug/main.go. The
-- decoders are parameters, where `none` is an error. A command gives what it prints.
pub mod Server
use thorchain_v.Base.{
  ℕ, zero, suc, String, List, [], ◌∷◌, Option, none, some, ◌++◌, ◌<>◌, ◌⊎◌, inl, inr,
}

pub record Decoders : Type 1 where
  pub PubKey : Type 0
  pub Tx : Type 0
  -- `hex.DecodeString`, `base64.StdEncoding.DecodeString`
  pub hex : String → Option (List ℕ)
  pub base64 : String → Option (List ℕ)
  -- `GetAccPubKeyBech32`, `GetValPubKeyBech32`, `AccAddressFromBech32`, `ValAddressFromBech32`
  pub acc_pub_key : String → Option PubKey
  pub val_pub_key : String → Option PubKey
  pub acc_address : String → Option (List ℕ)
  pub val_address : String → Option (List ℕ)
  -- the bytes of an ed25519 key, `none` for another kind of key
  pub ed25519 : PubKey → Option (List ℕ)
  -- `MarshalJSON`, `Bech32ifyAccPub`, `Bech32ifyValPub` and `Address` of an ed25519 key
  pub key_json : List ℕ → Option String
  pub bech32_acc_pub : List ℕ → Option String
  pub bech32_val_pub : List ℕ → Option String
  pub key_address : List ℕ → List ℕ
  -- `UnmarshalBinary`, `MarshalJSON` and `json.Indent` for transactions
  pub unmarshal_binary : List ℕ → Option Tx
  pub marshal_json : Tx → Option String
  pub indent : String → Option String

pub data DebugError : Type 0 where
  single_arg : DebugError
  expected_encoding : DebugError
  marshal bech32_acc bech32_val : DebugError
  unmarshal_binary marshal_json indent : DebugError

pub data Printed (A : Type 0) : Type 0 where
  prints : A → Printed A
  error : DebugError → Printed A
  panics : Printed A

-- `copy` into an array of `n` zeros: what does not fit is dropped.
abbrev pub copy_into : ℕ → List ℕ → List ℕ
copy_into zero bytes = []
copy_into (suc n) [] = 0 ∷ copy_into n []
copy_into (suc n) (b ∷ bytes) = b ∷ copy_into n bytes

pub record KeyPrint : Type 0 where
  pub address : List ℕ
  pub hex : List ℕ
  pub json : String
  pub bech32_acc : String
  pub bech32_val : String

module _ (D : Decoders) where
  abbrev expect : {A B : Type 0} → DebugError → Option A → (A → Printed B) → Printed B
  expect e none f = error e
  expect e (some a) f = f a

  -- The key's own print, with the bytes that are shown for it.
  unfoldable pub print_key : List ℕ → List ℕ → Printed KeyPrint
  print_key key bytes = expect marshal (D.key_json key) λ json.
      expect bech32_acc (D.bech32_acc_pub key) λ acc.
        expect bech32_val (D.bech32_val_pub key) λ val. prints (record {
          address = D.key_address key;
          hex = bytes;
          json = json;
          bech32_acc = acc;
          bech32_val = val;
        })

  -- The type assertion panics for another kind of key.
  abbrev print_ed25519 : Option (List ℕ) → Printed KeyPrint
  print_ed25519 none = panics
  print_ed25519 (some bytes) = print_key bytes bytes

  abbrev print_key_of : List ℕ ⊎ D.PubKey → Printed KeyPrint
  print_key_of (inl bytes) = print_key (copy_into 32 bytes) bytes
  print_key_of (inr key) = print_ed25519 (D.ed25519 key)

  abbrev or_else : {A : Type 0} → Option A → Option A → Option A
  or_else (some a) o = some a
  or_else none o = o

  -- Hex, then base64, then bech32 for an account and for a validator: bytes, or a key.
  abbrev decode_key : String → Option (List ℕ ⊎ D.PubKey)
  decode_key s = elim (or_else (D.hex s) (D.base64 s)) [
    | some bytes ↦ some (inl bytes)
    | none ↦ elim (or_else (D.acc_pub_key s) (D.val_pub_key s)) [
      | some key ↦ some (inr key)
      | none ↦ none
    ]
  ]

  unfoldable pub run_pub_key_cmd : List String → Printed KeyPrint
  unfolding print_key
  run_pub_key_cmd (s ∷ []) = expect expected_encoding (decode_key s) print_key_of
  run_pub_key_cmd [] = error single_arg
  run_pub_key_cmd (s ∷ s' ∷ args) = error single_arg

  -- The address, which is also printed in the two forms of bech32.
  unfoldable pub run_addr_cmd : List String → Printed (List ℕ)
  run_addr_cmd (s ∷ []) =
      expect expected_encoding (or_else (D.hex s) (or_else (D.acc_address s) (D.val_address s)))
        prints
  run_addr_cmd [] = error single_arg
  run_addr_cmd (s ∷ s' ∷ args) = error single_arg

  unfoldable pub run_tx_cmd : List String → Printed String
  run_tx_cmd (s ∷ []) = expect expected_encoding (or_else (D.hex s) (D.base64 s)) λ tx_bytes.
      expect unmarshal_binary (D.unmarshal_binary tx_bytes) λ tx.
        expect marshal_json (D.marshal_json tx)
          λ bz. expect indent (D.indent bz) λ out. prints (out <> "\n")
  run_tx_cmd [] = error single_arg
  run_tx_cmd (s ∷ s' ∷ args) = error single_arg

  -- What a read of the connection gives.
  pub data Read : Type 0 where
    text : String → Read
    eof : Read
    failed : Read

  -- An error is only logged.
  abbrev pub wrote : {A : Type 0} → Option A → (A → List String) → List String
  wrote none f = []
  wrote (some a) f = f a

  -- One request of the server: what it writes, if anything.
  abbrev pub answer : String → List String
  answer s = wrote (or_else (D.hex s) (D.base64 s)) λ tx_bytes.
      wrote (D.unmarshal_binary tx_bytes)
        λ tx. wrote (D.marshal_json tx) λ bz. wrote (D.indent bz) λ out. out ∷ []

  -- The writes of `txServer` to the reads of a connection. It goes on after every error.
  unfoldable pub tx_server : List Read → List String
  tx_server [] = []
  tx_server (text s ∷ reads) = answer s ++ tx_server reads
  tx_server (eof ∷ reads) = []
  tx_server (failed ∷ reads) = tx_server reads
