-- ===== src/Clp/Cli/Sent.antt =====
-- The messages that x/clp/client/cli/tx.go sends for numbers in base ten.
use thorchain_v.Base.{
  ℕ, ◌≡◌, refl, String, true, false, [], ◌∷◌, ◌<◌, ◌^◌, arith, inl, inr, leb, Bool-cases,
  if◌then◌else◌, ◌||◌,
}
use thorchain_v.Base.Int.{pos, ltb_ℤ}
use thorchain_v.Base.Decimals.{show_ℕ}
use thorchain_v.Base.Atoi.{atoi_value-show_ℕ}
use thorchain_v.Sdk.Types.{Address}
use thorchain_v.Sdk.Web.{done}
use thorchain_v.Sdk.Command.{stopped}
use thorchain_v.Clp.{clp_codespace}
use thorchain_v.Clp.Rest.{create, trade}
use thorchain_v.Clp.Cli.{
  CliEnv, err_invalid_decimals, create_msg, trade_msg, create_tx_cmd, trade_base_tx_cmd, sent,
}

module _ (E : CliEnv) (sender : Address) where
  trade_base_tx_cmd_lem :
      (from to : String) (n : ℕ) (s : E.State)
      → E.get_from_address ≡ done sender
      → n < 2 ^ 63
      → trade_base_tx_cmd E
          (record { from_ticker = from; to_ticker = to; from_amount = show_ℕ n })
          s
        ≡ sent E (
            E.send_tx
              (trade (record {
                sender = sender;
                from_ticker = from;
                to_ticker = to;
                from_amount = pos n;
              })
                ∷ [])
              s)
  unfolding trade_base_tx_cmd trade_msg
  trade_base_tx_cmd_lem from to n s h b = rw (h, atoi_value-show_ℕ n b) refl

  -- The command for a pool, given numbers below 2^63 in base ten and the address of the sender,
  -- sends the message with these numbers if the decimals are at most 255, and otherwise sends
  -- nothing and ends with the error for the decimals.
  pub create_tx_cmd-sends :
      (ticker name : String) (decimals ratio supply amount : ℕ) (s : E.State)
      → E.get_from_address ≡ done sender
      → decimals < 2 ^ 63
      → ratio < 2 ^ 63
      → supply < 2 ^ 63
      → amount < 2 ^ 63
      → create_tx_cmd E
          (record {
            ticker = ticker;
            name = name;
            decimals = show_ℕ decimals;
            reserve_ratio = show_ℕ ratio;
            initial_supply = show_ℕ supply;
            initial_rune_amount = show_ℕ amount;
          })
          s
        ≡ (if leb decimals 255
            then sent E (
                E.send_tx
                  (create (record {
                    sender = sender;
                    ticker = ticker;
                    name = name;
                    decimals = decimals;
                    reserve_ratio = pos ratio;
                    initial_supply = pos supply;
                    initial_base_coin_amount = pos amount;
                  })
                    ∷ [])
                  s)
            else (stopped (E.error_text (err_invalid_decimals clp_codespace)), s))
  unfolding create_tx_cmd create_msg
  create_tx_cmd-sends ticker name decimals ratio supply amount s h b0 b1 b2 b3 =
      elim (Bool-cases (leb decimals 255)) [
        | inl few ↦
            let test : (ltb_ℤ (pos decimals) (pos 0) || ltb_ℤ (pos 255) (pos decimals)) ≡ false =
              ground (arith, few) in
            rw
              (
                h,
                atoi_value-show_ℕ decimals b0,
                atoi_value-show_ℕ ratio b1,
                atoi_value-show_ℕ supply b2,
                atoi_value-show_ℕ amount b3,
                test,
                few,
              )
              refl
        | inr many ↦
            let test : (ltb_ℤ (pos decimals) (pos 0) || ltb_ℤ (pos 255) (pos decimals)) ≡ true =
              ground (arith, many) in
            rw (h, atoi_value-show_ℕ decimals b0, test, many) refl
      ]
