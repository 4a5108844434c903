-- ===== src/Market/Itch/RoundTrip.antt =====
-- Decoding what the encoders of the order messages wrote gives the message back.
use stok.Base.{
  ℕ, ◌^◌, ◌<◌, ◌≤◌, ◌≡◌, ◌≢◌, ◌+◌, Bool, true, false, not, ◌||◌, ◌↔◌, if◌then◌else◌, Bool-cases,
  inl, inr, refl, sym, ap, ◌∙◌, List, [], ◌∷◌, arith, ltb, leb, ◌==◌, length,
}
use stok.Market.Itch.{
  byte, decode, dispatch, message_length, bad, called, executed, executed_price, cancel, delete,
  replace, enc_executed, enc_executed_price, enc_cancel, enc_del, enc_replace,
}

-- The fields that every message below has, within their widths.
pub record InRange (locate ts ref : ℕ) : Type 0 where
  pub locate_in : locate < 2 ^ 16
  pub ts_in : ts < 2 ^ 48
  pub ref_in : ref < 2 ^ 64

module _ (locate ts ref : ℕ) (w : InRange locate ts ref) where
  executed_trip :
      (shares matched : ℕ)
      → shares < 2 ^ 32
      → decode (enc_executed locate ts ref shares matched) ≡ called (executed locate ts ref shares)
  unfolding decode dispatch message_length enc_executed
  executed_trip shares matched hs = ground arith

  executed_price_trip :
      (shares : ℕ) (printable : Bool) (price : ℕ)
      → shares < 2 ^ 32
      → price < 2 ^ 32
      → decode (enc_executed_price locate ts ref shares printable price)
        ≡ called (executed_price locate ts ref shares printable price)
  unfolding decode dispatch message_length enc_executed_price
  executed_price_trip shares true price hs hp = ground arith
  executed_price_trip shares false price hs hp = ground arith

  cancel_trip :
      (shares : ℕ)
      → shares < 2 ^ 32
      → decode (enc_cancel locate ts ref shares) ≡ called (cancel locate ts ref shares)
  unfolding decode dispatch message_length enc_cancel
  cancel_trip shares hs = ground arith

  del_trip : decode (enc_del locate ts ref) ≡ called (delete locate ts ref)
  unfolding decode dispatch message_length enc_del
  del_trip = ground arith

  replace_trip :
      (new_ref shares price : ℕ)
      → new_ref < 2 ^ 64
      → shares < 2 ^ 32
      → price < 2 ^ 32
      → decode (enc_replace locate ts ref new_ref shares price)
        ≡ called (replace locate ts ref new_ref shares price)
  unfolding decode dispatch message_length enc_replace
  replace_trip new_ref shares price hn hs hp = ground arith

-- For fields within their widths, decoding an encoded execution (with or without a price), cancel,
-- delete or replace calls the handler of that message with the fields that were encoded.
pub decode-enc :
    (locate ts ref new_ref shares price matched : ℕ) (printable : Bool)
    → InRange locate ts ref
    → new_ref < 2 ^ 64
    → shares < 2 ^ 32
    → price < 2 ^ 32
    → (decode (enc_executed locate ts ref shares matched) ≡ called (executed locate ts ref shares))
      × (decode (enc_executed_price locate ts ref shares printable price)
          ≡ called (executed_price locate ts ref shares printable price))
      × (decode (enc_cancel locate ts ref shares) ≡ called (cancel locate ts ref shares))
      × (decode (enc_del locate ts ref) ≡ called (delete locate ts ref))
      × (decode (enc_replace locate ts ref new_ref shares price)
          ≡ called (replace locate ts ref new_ref shares price))
decode-enc locate ts ref new_ref shares price matched printable w hn hs hp = (
  executed_trip locate ts ref w shares matched hs,
  executed_price_trip locate ts ref w shares printable price hs hp,
  cancel_trip locate ts ref w shares hs,
  del_trip locate ts ref w,
  replace_trip locate ts ref w new_ref shares price hn hs hp,
)

dispatch-ne-bad : (p : List ℕ) (t : ℕ) → dispatch p t ≢ bad
unfolding dispatch
dispatch-ne-bad p t = ground arith

-- The messages of ITCH 5.0: the type, and the widths of the fields after the header of type, locate,
-- tracking number and time.
abbrev pub layouts : List (ℕ × List ℕ)
layouts =
    (b'S', 1 ∷ [])
    ∷ (b'R', 8 ∷ 1 ∷ 1 ∷ 4 ∷ 1 ∷ 1 ∷ 2 ∷ 1 ∷ 1 ∷ 1 ∷ 1 ∷ 1 ∷ 4 ∷ 1 ∷ [])
    ∷ (b'H', 8 ∷ 1 ∷ 1 ∷ 4 ∷ [])
    ∷ (b'Y', 8 ∷ 1 ∷ [])
    ∷ (b'L', 4 ∷ 8 ∷ 1 ∷ 1 ∷ 1 ∷ [])
    ∷ (b'V', 8 ∷ 8 ∷ 8 ∷ [])
    ∷ (b'W', 1 ∷ [])
    ∷ (b'K', 8 ∷ 4 ∷ 1 ∷ 4 ∷ [])
    ∷ (b'J', 8 ∷ 4 ∷ 4 ∷ 4 ∷ 4 ∷ [])
    ∷ (b'h', 8 ∷ 1 ∷ 1 ∷ [])
    ∷ (b'A', 8 ∷ 1 ∷ 4 ∷ 8 ∷ 4 ∷ [])
    ∷ (b'F', 8 ∷ 1 ∷ 4 ∷ 8 ∷ 4 ∷ 4 ∷ [])
    ∷ (b'E', 8 ∷ 4 ∷ 8 ∷ [])
    ∷ (b'C', 8 ∷ 4 ∷ 8 ∷ 1 ∷ 4 ∷ [])
    ∷ (b'X', 8 ∷ 4 ∷ [])
    ∷ (b'D', 8 ∷ [])
    ∷ (b'U', 8 ∷ 8 ∷ 4 ∷ 4 ∷ [])
    ∷ (b'P', 8 ∷ 1 ∷ 4 ∷ 8 ∷ 4 ∷ 8 ∷ [])
    ∷ (b'Q', 8 ∷ 8 ∷ 4 ∷ 8 ∷ 1 ∷ [])
    ∷ (b'B', 8 ∷ [])
    ∷ (b'I', 8 ∷ 8 ∷ 1 ∷ 8 ∷ 4 ∷ 4 ∷ 4 ∷ 1 ∷ 1 ∷ [])
    ∷ (b'N', 8 ∷ 1 ∷ [])
    ∷ (b'O', 8 ∷ 1 ∷ 4 ∷ 4 ∷ 4 ∷ 8 ∷ 4 ∷ 4 ∷ [])
    ∷ []

abbrev pub fields_length : List ℕ → ℕ
fields_length [] = 1 + 2 + 2 + 6
fields_length (w ∷ ws) = w + fields_length ws

-- The message has a type of the table and all of its fields.
abbrev pub whole : List (ℕ × List ℕ) → List ℕ → Bool
whole [] p = false
whole (l ∷ ls) p = if byte p 0 == l.0 then leb (fields_length l.1) (length p) else whole ls p

abbrev length_in : List (ℕ × List ℕ) → ℕ → ℕ
length_in [] t = 0
length_in (l ∷ ls) t = if t == l.0 then fields_length l.1 else length_in ls t

message_length-length_in : (t : ℕ) → message_length t ≡ length_in layouts t
unfolding message_length
message_length-length_in t = refl

fields_length_le : (ws : List ℕ) → 11 ≤ fields_length ws
fields_length_le [] = omega arith
fields_length_le (w ∷ ws) = omega (arith, fields_length_le ws)

whole-length_in :
    (ls : List (ℕ × List ℕ)) (p : List ℕ)
    → whole ls p ≡ not ((length_in ls (byte p 0) == 0) || ltb (length p) (length_in ls (byte p 0)))
whole-length_in [] p = refl
whole-length_in (l ∷ ls) p = elim (Bool-cases (byte p 0 == l.0)) [
  | inl e ↦ rw e (let long = fields_length_le l.1 in ground arith)
  | inr e ↦ rw e (whole-length_in ls p)
]

whole-long : (ls : List (ℕ × List ℕ)) (p : List ℕ) → whole ls p ≡ true → 11 ≤ length p
whole-long [] p h = absurd (cc)
whole-long (l ∷ ls) p h = elim (Bool-cases (byte p 0 == l.0)) [
  | inl e ↦
      let fits : leb (fields_length l.1) (length p) ≡ true = rw e at h in
      let long = fields_length_le l.1 in ground arith
  | inr e ↦ whole-long ls p (rw e at h)
]

whole-message_length :
    (p : List ℕ)
    → whole layouts p
      ≡ not ((message_length (byte p 0) == 0) || ltb (length p) (message_length (byte p 0)))
whole-message_length p =
    whole-length_in layouts p
    ∙ ap (λ (n : ℕ). not ((n == 0) || ltb (length p) n)) (sym (message_length-length_in (byte p 0)))

bad_when :
    (p : List ℕ) (w : Bool)
    → (w ≡ true → 11 ≤ length p)
    → w ≡ not ((message_length (byte p 0) == 0) || ltb (length p) (message_length (byte p 0)))
    → (decode p ≡ bad) ↔ (w ≡ false)
unfolding decode
bad_when p w long same = ground (arith, dispatch-ne-bad p (byte p 0))

-- Only whole messages of a known type reach a handler: `decode` answers bad exactly when the message is
-- not one of the table of ITCH 5.0 messages, or ends before the last of the fields that the table gives
-- its type.
pub decode-bad : (p : List ℕ) → (decode p ≡ bad) ↔ (whole layouts p ≡ false)
decode-bad p = bad_when p (whole layouts p) (whole-long layouts p) (whole-message_length p)
