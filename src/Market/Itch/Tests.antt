-- ===== src/Market/Itch/Tests.antt =====
-- Runs of the decoder on encoded and on damaged messages.
use stok.Base.{false, ℕ, ◌≡◌, ◌↔◌, true, List, [], ◌∷◌, arith}
use stok.Market.Itch.{
  Message, decode, bad, called, enc_executed, enc_executed_price, enc_cancel, enc_del, enc_replace,
}
use stok.Market.Itch.RoundTrip.{decode-enc, decode-bad, whole, layouts}

decode-enc_example :
    (decode (enc_executed 12 99 70000 300 5) ≡ called (Message.executed 12 99 70000 300))
    × (decode (enc_executed_price 12 99 70000 300 true 1500000)
        ≡ called (Message.executed_price 12 99 70000 300 true 1500000))
    × (decode (enc_cancel 12 99 70000 300) ≡ called (Message.cancel 12 99 70000 300))
    × (decode (enc_del 12 99 70000) ≡ called (Message.delete 12 99 70000))
    × (decode (enc_replace 12 99 70000 70001 300 1500000)
        ≡ called (Message.replace 12 99 70000 70001 300 1500000))
decode-enc_example =
    decode-enc 12 99 70000 70001 300 1500000 5 true
      (record { locate_in = omega arith; ts_in = omega arith; ref_in = omega arith }) (omega arith)
      (omega arith) (omega arith)

-- A delete message of 18 bytes, one short.
abbrev short : List ℕ
short = b'D' ∷ 0 ∷ 1 ∷ 0 ∷ 0 ∷ 0 ∷ 0 ∷ 0 ∷ 0 ∷ 0 ∷ 9 ∷ 0 ∷ 0 ∷ 0 ∷ 0 ∷ 0 ∷ 0 ∷ 0 ∷ []

decode-bad_example : (decode short ≡ bad) ↔ (whole layouts short ≡ false)
decode-bad_example = decode-bad short
