-- ===== src/Debug/Tests.antt =====
-- The debug commands at small inputs.
use thorchain_v.Base.{
  map, ℕ, ◌+◌, Bool, List, [], ◌∷◌, Option, none, some, ◌≡◌, refl, leb, inr, str_eq, if◌then◌else◌,
  arith,
}
use thorchain_v.Debug.Search.{Heights, start, rounds}
use thorchain_v.Debug.Search.Bounds.{rounds-find}
use thorchain_v.Debug.RawBytes.{run_raw_bytes_cmd}
use thorchain_v.Debug.RawBytes.Reading.{print_bytes, run_raw_bytes_cmd-print_bytes}
use thorchain_v.Debug.Decode.{
  Decoders, Read, text, eof, failed, KeyPrint, tx_server, run_pub_key_cmd, copy_into,
}
use thorchain_v.Debug.Decode.Server.{
  expected_prints, line, tx_server-run_tx_cmd, run_pub_key_cmd-address,
}

-- A key that is stored from height 37 on.
abbrev from_37 : ℕ → Bool
from_37 h = leb 37 h

abbrev load_37 : ℕ → Option Bool
load_37 h = some (from_37 h)

found_37 :
    rounds load_37 8 (start 100)
    ≡ some (record { top_height = 37; bottom_height = 36; check_height = 36 })
unfolding rounds
found_37 = refl

rounds-find_example :
    (s : Heights) × (rounds load_37 (2 + 8) (start 100) ≡ some s)
    × (s.bottom_height + 1 ≡ s.top_height)
    × (from_37 40 ≡ leb s.top_height 40)
rounds-find_example =
    rounds-find load_37 from_37 100 7 2 40 (omega arith) (λ i h. refl) (λ i j h k l. ground arith)
      refl refl (omega arith)

run_raw_bytes_cmd-print_bytes_example :
    run_raw_bytes_cmd (print_bytes (10 ∷ 21 ∷ 255 ∷ []) ∷ []) ≡ inr (10 ∷ 21 ∷ 255 ∷ [])
run_raw_bytes_cmd-print_bytes_example =
    run_raw_bytes_cmd-print_bytes (10 ∷ 21 ∷ 255 ∷ []) tt
      (omega arith, (omega arith, (omega arith, tt)))

-- Decoders that know one text, "aa".
abbrev one_text : Decoders
one_text = record {
  PubKey = List ℕ;
  Tx = ℕ;
  hex = λ s. if str_eq s "aa" then some (170 ∷ []) else none;
  base64 = λ s. none;
  acc_pub_key = λ s. none;
  val_pub_key = λ s. none;
  acc_address = λ s. none;
  val_address = λ s. none;
  ed25519 = λ key. none;
  key_json = λ key. some "json";
  bech32_acc_pub = λ key. some "acc";
  bech32_val_pub = λ key. some "val";
  key_address = λ key. key;
  unmarshal_binary = λ bytes. some 1;
  marshal_json = λ tx. some "{}";
  indent = λ s. some s;
}

abbrev reads : List (Read one_text)
reads = text "aa" ∷ failed ∷ text "zz" ∷ eof ∷ text "aa" ∷ []

tx_server-run_tx_cmd_example :
    map (line one_text) (tx_server one_text reads) ≡ expected_prints one_text reads
tx_server-run_tx_cmd_example = tx_server-run_tx_cmd one_text reads

abbrev shown : KeyPrint
shown = record {
  address = copy_into 32 (170 ∷ []);
  hex = 170 ∷ [];
  json = "json";
  bech32_acc = "acc";
  bech32_val = "val";
}

run_pub_key_cmd-address_example : shown.address ≡ copy_into 32 (170 ∷ [])
unfolding run_pub_key_cmd
run_pub_key_cmd-address_example =
    run_pub_key_cmd-address one_text ("aa" ∷ []) shown (λ key bytes e. ground (arith, e)) refl
