-- ===== src/Debug/Decode/Server.antt =====
-- The decoding server and the commands for keys.
use mathlib.Core.List.{map-append}
use thorchain_v.Base.{
  ℕ, String, List, [], ◌∷◌, ◌++◌, ◌<>◌, map, Option, none, some, ◌≡◌, refl, sym, ap, subst, ◌∙◌,
  ◌⊎◌, length, inl, inr,
}
use thorchain_v.Debug.Decode.{
  Decoders, Read, text, eof, failed, Printed, prints, error, panics, tx_server, answer, run_tx_cmd,
  KeyPrint, copy_into, print_key, DebugError, expected_encoding, unmarshal_binary, marshal_json,
  marshal, bech32_acc, bech32_val, indent, wrote, expect, or_else, print_key_of, print_ed25519,
  decode_key, run_pub_key_cmd,
}

module _ (D : Decoders) where
  -- A write of the server as the command prints it, on a line of its own.
  abbrev pub line : String → String
  line out = out <> "\n"

  -- The outputs of the command, for the requests before the end of the connection.
  abbrev printed : Printed String → List String
  printed (prints out) = out ∷ []
  printed (error e) = []
  printed panics = []

  abbrev pub expected_prints : List (Read D) → List String
  expected_prints [] = []
  expected_prints (text s ∷ reads) = printed (run_tx_cmd D (s ∷ [])) ++ expected_prints reads
  expected_prints (eof ∷ reads) = []
  expected_prints (failed ∷ reads) = expected_prints reads

  printed-expect :
      {A : Type 0} (e : DebugError) (o : Option A) (f : A → Printed String) (g : A → List String)
      → ((a : A) → map line (g a) ≡ printed (f a))
      → map line (wrote D o g) ≡ printed (expect D e o f)
  printed-expect e none f g h = refl
  printed-expect e (some a) f g h = h a

  answer-printed : (s : String) → map line (answer D s) ≡ printed (run_tx_cmd D (s ∷ []))
  unfolding run_tx_cmd
  answer-printed s =
      printed-expect expected_encoding (or_else D (D.hex s) (D.base64 s)) _ _ λ tx_bytes.
        printed-expect unmarshal_binary (D.unmarshal_binary tx_bytes) _ _ λ tx.
          printed-expect marshal_json (D.marshal_json tx) _ _
            λ bz. printed-expect indent (D.indent bz) _ _ λ out. refl

  -- The server writes what the command prints for each request, but for the newline at its end, in
  -- their order, nothing for a request that the command refuses, and stops at the end of the
  -- connection.
  pub tx_server-run_tx_cmd :
      (reads : List (Read D)) → map line (tx_server D reads) ≡ expected_prints reads
  unfolding tx_server
  tx_server-run_tx_cmd [] = refl
  tx_server-run_tx_cmd (text s ∷ reads) =
      map-append line (answer D s) (tx_server D reads)
      ∙ (λ i. answer-printed s i ++ tx_server-run_tx_cmd reads i)
  tx_server-run_tx_cmd (eof ∷ reads) = refl
  tx_server-run_tx_cmd (failed ∷ reads) = tx_server-run_tx_cmd reads

  copy_into_self : (bytes : List ℕ) → copy_into (length bytes) bytes ≡ bytes
  copy_into_self [] = refl
  copy_into_self (b ∷ bytes) = ap (λ l. b ∷ l) (copy_into_self bytes)

  -- The address and the bytes that are shown.
  abbrev IsConsistent : Printed KeyPrint → Type 0
  IsConsistent (prints k) = k.address ≡ D.key_address (copy_into 32 k.hex)
  IsConsistent (error e) = Unit
  IsConsistent panics = Unit

  expect-IsConsistent :
      {A : Type 0} (e : DebugError) (o : Option A) (f : A → Printed KeyPrint)
      → ((a : A) → IsConsistent (f a))
      → IsConsistent (expect D e o f)
  expect-IsConsistent e none f h = tt
  expect-IsConsistent e (some a) f h = h a

  print_key-IsConsistent :
      (key bytes : List ℕ) → copy_into 32 bytes ≡ key → IsConsistent (print_key D key bytes)
  unfolding print_key
  print_key-IsConsistent key bytes h = expect-IsConsistent marshal (D.key_json key) _ λ json.
      expect-IsConsistent bech32_acc (D.bech32_acc_pub key) _ λ acc.
        expect-IsConsistent bech32_val (D.bech32_val_pub key) _ λ val. ap D.key_address (sym h)

  print_ed25519-IsConsistent :
      (o : Option (List ℕ))
      → ((bytes : List ℕ) → o ≡ some bytes → length bytes ≡ 32)
      → IsConsistent (print_ed25519 D o)
  print_ed25519-IsConsistent none h = tt
  print_ed25519-IsConsistent (some bytes) h =
      print_key-IsConsistent bytes bytes
        (ap (λ n. copy_into n bytes) (sym (h bytes refl)) ∙ copy_into_self bytes)

  print_key_of-IsConsistent :
      (k : List ℕ ⊎ D.PubKey)
      → ((key : D.PubKey) (bytes : List ℕ) → D.ed25519 key ≡ some bytes → length bytes ≡ 32)
      → IsConsistent (print_key_of D k)
  print_key_of-IsConsistent (inl bytes) h = print_key-IsConsistent (copy_into 32 bytes) bytes refl
  print_key_of-IsConsistent (inr key) h = print_ed25519-IsConsistent (D.ed25519 key) (h key)

  run_pub_key_cmd-IsConsistent :
      (args : List String)
      → ((key : D.PubKey) (bytes : List ℕ) → D.ed25519 key ≡ some bytes → length bytes ≡ 32)
      → IsConsistent (run_pub_key_cmd D args)
  unfolding run_pub_key_cmd
  run_pub_key_cmd-IsConsistent [] h = tt
  run_pub_key_cmd-IsConsistent (s ∷ []) h =
      expect-IsConsistent expected_encoding (decode_key D s) (print_key_of D)
        (λ k. print_key_of-IsConsistent k h)
  run_pub_key_cmd-IsConsistent (s ∷ s' ∷ args) h = tt

  -- However a key is given, in hexadecimal, base 64 or either form of bech32, the address that is
  -- shown is the one of the bytes that are shown, cut off or filled with zeros to 32 bytes.
  pub run_pub_key_cmd-address :
      (args : List String) (k : KeyPrint)
      → ((key : D.PubKey) (bytes : List ℕ) → D.ed25519 key ≡ some bytes → length bytes ≡ 32)
      → run_pub_key_cmd D args ≡ prints k
      → k.address ≡ D.key_address (copy_into 32 k.hex)
  run_pub_key_cmd-address args k h e = subst IsConsistent e (run_pub_key_cmd-IsConsistent args h)
