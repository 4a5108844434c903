-- ===== src/Core/Flat/Tests.antt =====
-- The map at concrete calls, with the load factor 0.7 of the source.
use stok.Base.{
  ℕ, ◌*◌, ◌/◌, ◌<◌, ◌≡◌, refl, true, false, none, some, List, [], ◌∷◌, arith, ◌>>=◌, length,
}
use stok.Core.Hash.{mix64}
use stok.Core.Spsc.{next_pow2}
use stok.Core.Flat.{FlatMap64, make, erase, reserve}
use stok.Core.Flat.Erasing.{Erased, erase-Erased}
use stok.Core.Flat.Entries.{reserve-Models}
use stok.Core.Flat.Running.{
  Call, look, emplace, assign, remove, Reply, value, flag, calls, replies_of, after_all, Models,
  make-Models, calls-replies_of,
}

abbrev seven_tenths : ℕ → ℕ
seven_tenths c = c * 7 / 10

abbrev ten_sevenths : ℕ → ℕ
ten_sevenths n = n * 10 / 7

seven_tenths-lt : (c : ℕ) → 0 < c → seven_tenths c < c
seven_tenths-lt c h = omega arith

-- Seven keys grow a map of eight slots; two are then taken out.
abbrev session : List (Call ℕ)
session =
    assign 11 1
    ∷ assign 22 2
    ∷ assign 33 3
    ∷ assign 44 4
    ∷ assign 55 5
    ∷ assign 66 6
    ∷ emplace 77
    ∷ remove 33
    ∷ remove 99
    ∷ assign 11 8
    ∷ look 11
    ∷ look 33
    ∷ look 77
    ∷ remove 77
    ∷ look 66
    ∷ []

abbrev replies : List (Reply ℕ)
replies =
    value (some 1)
    ∷ value (some 2)
    ∷ value (some 3)
    ∷ value (some 4)
    ∷ value (some 5)
    ∷ value (some 6)
    ∷ flag true
    ∷ flag true
    ∷ flag false
    ∷ value (some 8)
    ∷ value (some 8)
    ∷ value none
    ∷ value (some 0)
    ∷ flag true
    ∷ value (some 6)
    ∷ []

session_replies : replies_of 0 (λ q. none) session ≡ replies
unfolding replies_of
session_replies = refl

session_ran :
    (make 0 seven_tenths 8 >>= λ m. calls 0 seven_tenths m session >>= λ r. some r.1) ≡ some replies
unfolding make calls next_pow2 mix64
session_ran = refl

calls-replies_of_example :
    (m : FlatMap64 ℕ) × (r : FlatMap64 ℕ) × (make 0 seven_tenths 8 ≡ some m)
    × (calls 0 seven_tenths m session ≡ some (r, replies_of 0 (λ q. none) session))
    × Models 0 (after_all 0 (λ q. none) session) r
calls-replies_of_example =
    calls-replies_of 0 seven_tenths seven_tenths-lt 8 (omega arith) session (omega arith)

abbrev fresh : (m : FlatMap64 ℕ) × (make 0 seven_tenths 16 ≡ some m) × Models 0 (λ q. none) m
fresh = make-Models 0 seven_tenths seven_tenths-lt 16 (omega arith)

erase-Erased_example :
    (r : FlatMap64 ℕ × _) × (erase 0 fresh.0 5 ≡ some r) × Erased 0 fresh.0 5 r.0 r.1
erase-Erased_example = erase-Erased 0 fresh.0 fresh.2.valid 5 (omega arith)

reserve-Models_example :
    (r : FlatMap64 ℕ) × (reserve 0 seven_tenths ten_sevenths fresh.0 100 ≡ some r)
    × (ten_sevenths 100 < length r.slots)
    × Models 0 (λ q. none) r
reserve-Models_example =
    reserve-Models 0 seven_tenths ten_sevenths seven_tenths-lt (λ q. none) fresh.0 fresh.2 100
      (omega arith)

mix64_one : mix64 1 ≡ 6238072747940578789
unfolding mix64
mix64_one = refl
