-- ===== src/Core/Hash.antt =====
-- The hashes of src/core/hash.hpp. Bytes are numbers below 256.
use Prim.Native.Nat.{bit_xor, bit_or}
use stok.Base.{
  ℕ, zero, suc, ◌*◌, ◌/◌, ◌%◌, ◌^◌, List, [], ◌∷◌, leb, if◌then◌else◌, length, drop, take,
}

-- A product of 64-bit words wraps; a shift to the right divides.
unfoldable pub mix64 : ℕ → ℕ
mix64 x =
    let a = bit_xor x (x / 2 ^ 30) in
    let b = a * 0xbf58476d1ce4e5b9 % 2 ^ 64 in
    let c = bit_xor b (b / 2 ^ 27) in
    let d = c * 0x94d049bb133111eb % 2 ^ 64 in bit_xor d (d / 2 ^ 31)

-- The product has 128 bits.
unfoldable pub mum : ℕ → ℕ → ℕ
mum a b = let r = a * b in bit_xor (r % 2 ^ 64) (r / 2 ^ 64)

-- A little-endian word of the bytes that are there.
unfoldable pub load_le : List ℕ → ℕ
load_le [] = 0
load_le (b ∷ bs) = bit_or b (load_le bs * 256)

unfoldable pub load_u64_le : List ℕ → ℕ
unfolding load_le
load_u64_le bs = load_le (take 8 bs)

unfoldable pub step_16 : ℕ → List ℕ → ℕ
unfolding mum load_u64_le
step_16 h p =
    bit_xor (mum (bit_xor h (load_u64_le p)) 0xa0761d6478bd642f)
      (mum (load_u64_le (drop 8 p)) 0xe7037ed1a0b428db)

-- What follows the loop over 16 bytes: at most one word of 8 bytes, then the tail.
unfoldable pub finish : ℕ → List ℕ → ℕ
unfolding mum load_u64_le mix64
finish h p =
    let long = leb 8 (length p) in
    let h1 = if long then mum (bit_xor h (load_u64_le p)) 0xa0761d6478bd642f else h in
    let tail = load_le (if long then drop 8 p else p) in
    mix64 (mum (bit_xor h1 tail) 0x8ebc6af09c88c6e3)

-- The loop takes 16 bytes in a round, so a round for each byte is enough.
unfoldable pub blocks : ℕ → ℕ → List ℕ → ℕ
unfolding finish step_16
blocks zero h p = finish h p
blocks (suc fuel) h p =
    let rest = blocks fuel (step_16 h p) (drop 16 p) in
    if leb 16 (length p) then rest else finish h p

unfoldable pub hash_bytes : List ℕ → ℕ → ℕ
unfolding blocks mum
hash_bytes p seed = blocks (length p) (bit_xor seed (mum (length p) 0x9E3779B97F4A7C15)) p

unfoldable pub hash_sv : List ℕ → ℕ
unfolding hash_bytes
hash_sv s = hash_bytes s 0x2d358dccaa6c78a5
