-- ===== src/Market/Itch.antt =====
-- The ITCH 5.0 decoder and encoders of src/market/itch.hpp. A message is its bytes; a read past the
-- end, which the length test rules out, gives 0. The handler calls of `decode` are the constructors
-- of `Message`.
pub mod RoundTrip
mod Tests
use stok.Base.{
  ℕ, zero, suc, ◌+◌, ◌-◌, ◌*◌, ◌/◌, ◌%◌, ◌^◌, Bool, true, false, ◌||◌, List, [], ◌∷◌, ltb, ◌==◌,
  if◌then◌else◌, length, get_or, set, replicate,
}

abbrev pub byte : List ℕ → ℕ → ℕ
byte p i = get_or p i 0

unfoldable pub be16 : List ℕ → ℕ → ℕ
be16 p i = byte p i * 256 + byte p (i + 1)

unfoldable pub be32 : List ℕ → ℕ → ℕ
unfolding be16
be32 p i = be16 p i * 2 ^ 16 + be16 p (i + 2)

unfoldable pub be64 : List ℕ → ℕ → ℕ
unfolding be32
be64 p i = be32 p i * 2 ^ 32 + be32 p (i + 4)

-- The shifted half and the low word share no bit, so `|` is a sum.
pub be48 : List ℕ → ℕ → ℕ
unfolding be16 be32
be48 p i = be16 p i * 2 ^ 32 + be32 p (i + 2)

-- The eight characters as a little-endian word.
pub stock_key : List ℕ → ℕ → ℕ
stock_key p i =
    byte p i
    + byte p (i + 1) * 2 ^ 8
    + byte p (i + 2) * 2 ^ 16
    + byte p (i + 3) * 2 ^ 24
    + byte p (i + 4) * 2 ^ 32
    + byte p (i + 5) * 2 ^ 40
    + byte p (i + 6) * 2 ^ 48
    + byte p (i + 7) * 2 ^ 56

pub message_length : ℕ → ℕ
message_length t =
    if t == b'S'
    then 12
    else if t == b'R'
    then 39
    else if t == b'H'
    then 25
    else if t == b'Y'
    then 20
    else if t == b'L'
    then 26
    else if t == b'V'
    then 35
    else if t == b'W'
    then 12
    else if t == b'K'
    then 28
    else if t == b'J'
    then 35
    else if t == b'h'
    then 21
    else if t == b'A'
    then 36
    else if t == b'F'
    then 40
    else if t == b'E'
    then 31
    else if t == b'C'
    then 36
    else if t == b'X'
    then 23
    else if t == b'D'
    then 19
    else if t == b'U'
    then 35
    else if t == b'P'
    then 44
    else if t == b'Q'
    then 40
    else if t == b'B'
    then 19
    else if t == b'I'
    then 50
    else if t == b'N'
    then 20
    else if t == b'O'
    then 48
    else 0

-- A call of the handler interface, with its arguments.
pub data Message : Type 0 where
  system_event : (ts code : ℕ) → Message
  stock_directory : (locate ts key category status round_lot : ℕ) → Message
  trading_action : (locate ts key state : ℕ) (reason : List ℕ) → Message
  reg_sho : (locate ts action : ℕ) → Message
  add : (locate ts ref side shares price : ℕ) → Message
  executed : (locate ts ref shares : ℕ) → Message
  executed_price : (locate ts ref shares : ℕ) (printable : Bool) (price : ℕ) → Message
  cancel : (locate ts ref shares : ℕ) → Message
  delete : (locate ts ref : ℕ) → Message
  replace : (locate ts old_ref new_ref shares price : ℕ) → Message
  trade : (locate ts side shares key price : ℕ) → Message
  cross : (locate ts shares key price cross_type : ℕ) → Message
  broken : (locate ts matched : ℕ) → Message

-- `decode` returns false; returns true without a call; or returns true after one call.
pub data Decoded : Type 0 where
  bad unused : Decoded
  called : Message → Decoded

-- The switch of `decode`, past the length tests.
pub dispatch : List ℕ → ℕ → Decoded
unfolding be16 be32 be64 be48 stock_key
dispatch p t =
    let locate = be16 p 1 in
    let ts = be48 p 5 in
    if (t == b'A') || (t == b'F')
    then called (add locate ts (be64 p 11) (byte p 19) (be32 p 20) (be32 p 32))
    else if t == b'E'
    then called (executed locate ts (be64 p 11) (be32 p 19))
    else if t == b'C'
    then called (executed_price locate ts (be64 p 11) (be32 p 19) (byte p 31 == b'Y') (be32 p 32))
    else if t == b'X'
    then called (cancel locate ts (be64 p 11) (be32 p 19))
    else if t == b'D'
    then called (delete locate ts (be64 p 11))
    else if t == b'U'
    then called (replace locate ts (be64 p 11) (be64 p 19) (be32 p 27) (be32 p 31))
    else if t == b'P'
    then called (trade locate ts (byte p 19) (be32 p 20) (stock_key p 24) (be32 p 32))
    else if t == b'Q'
    then called (cross locate ts (be64 p 11) (stock_key p 19) (be32 p 27) (byte p 39))
    else if t == b'S'
    then called (system_event ts (byte p 11))
    else if t == b'R'
    then called (stock_directory locate ts (stock_key p 11) (byte p 19) (byte p 20) (be32 p 21))
    else if t == b'H'
    then called (
        trading_action locate ts (stock_key p 11) (byte p 19)
          (byte p 21 ∷ byte p 22 ∷ byte p 23 ∷ byte p 24 ∷ []))
    else if t == b'Y'
    then called (reg_sho locate ts (byte p 19))
    else if t == b'B'
    then called (broken locate ts (be64 p 11))
    else unused

pub decode : List ℕ → Decoded
decode p =
    let t = byte p 0 in
    let need = message_length t in
    if ltb (length p) 11
    then bad
    else if (need == 0) || ltb (length p) need
    then bad
    else dispatch p t

-- The encoders. A buffer is the message's bytes, which `header` sets to 0 first.
pub put16 : List ℕ → ℕ → ℕ → List ℕ
put16 p i v = set (set p i (v / 256 % 256)) (i + 1) (v % 256)

pub put32 : List ℕ → ℕ → ℕ → List ℕ
unfolding put16
put32 p i v = put16 (put16 p i (v / 2 ^ 16 % 2 ^ 16)) (i + 2) (v % 2 ^ 16)

pub put64 : List ℕ → ℕ → ℕ → List ℕ
unfolding put32
put64 p i v = put32 (put32 p i (v / 2 ^ 32 % 2 ^ 32)) (i + 4) (v % 2 ^ 32)

pub put48 : List ℕ → ℕ → ℕ → List ℕ
unfolding put16 put32
put48 p i v = put32 (put16 p i (v / 2 ^ 32 % 2 ^ 16)) (i + 2) (v % 2 ^ 32)

-- The characters of a symbol, up to the first NUL and at most `n` of them.
put_chars : List ℕ → ℕ → ℕ → List ℕ → List ℕ
put_chars p i zero sym = p
put_chars p i (suc n) [] = p
put_chars p i (suc n) (c ∷ cs) =
    let rest = put_chars (set p i c) (i + 1) n cs in if c == 0 then p else rest

blank : List ℕ → ℕ → ℕ → List ℕ
blank p i zero = p
blank p i (suc n) = blank (set p i b' ') (i + 1) n

pub put_stock : List ℕ → ℕ → List ℕ → List ℕ
unfolding put_chars blank
put_stock p i sym = put_chars (blank p i 8) i 8 sym

pub header : ℕ → ℕ → ℕ → List ℕ
unfolding put16 put48 message_length
header t locate ts =
    put48 (put16 (put16 (set (replicate (message_length t) 0) 0 t) 1 locate) 3 0) 5 ts

pub enc_add : ℕ → ℕ → ℕ → ℕ → ℕ → List ℕ → ℕ → List ℕ
unfolding header put32 put64 put_stock
enc_add locate ts ref side shares sym price =
    put32 (put_stock (put32 (set (put64 (header b'A' locate ts) 11 ref) 19 side) 20 shares) 24 sym)
      32 price

pub enc_executed : ℕ → ℕ → ℕ → ℕ → ℕ → List ℕ
unfolding header put32 put64
enc_executed locate ts ref shares matched =
    put64 (put32 (put64 (header b'E' locate ts) 11 ref) 19 shares) 23 matched

pub enc_executed_price : ℕ → ℕ → ℕ → ℕ → Bool → ℕ → List ℕ
unfolding header put32 put64
enc_executed_price locate ts ref shares printable price =
    put32
      (set (put64 (put32 (put64 (header b'C' locate ts) 11 ref) 19 shares) 23 1) 31
        (if printable then b'Y' else b'N'))
      32 price

pub enc_cancel : ℕ → ℕ → ℕ → ℕ → List ℕ
unfolding header put32 put64
enc_cancel locate ts ref shares = put32 (put64 (header b'X' locate ts) 11 ref) 19 shares

pub enc_del : ℕ → ℕ → ℕ → List ℕ
unfolding header put64
enc_del locate ts ref = put64 (header b'D' locate ts) 11 ref

pub enc_replace : ℕ → ℕ → ℕ → ℕ → ℕ → ℕ → List ℕ
unfolding header put32 put64
enc_replace locate ts old_ref new_ref shares price =
    put32 (put32 (put64 (put64 (header b'U' locate ts) 11 old_ref) 19 new_ref) 27 shares) 31 price
