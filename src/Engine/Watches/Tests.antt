-- ===== src/Engine/Watches/Tests.antt =====
-- A pool of two slots, and a cooldown of half an hour.
use Prim.Native.Nat.{ℕ, ◌+◌, ◌*◌, ◌<◌}
use stok.Base.{◌≡◌, refl, none, List, [], ◌∷◌, arith, length, ltb}
use stok.Base.Int.{pos_part}
use stok.Engine.Double.{Double}
use stok.Engine.Signal.{watch, alert}
use stok.Engine.Paper.{ns_per_sec}
use stok.Engine.Watches.{Pool, make, find_watch, activate_watch}
use stok.Engine.Watches.Evict.{Activated, activate_watch-Activated, make-IsValid}
use stok.Engine.Watches.Cooldown.{Request, granted, IsSpaced, granted-IsSpaced}
use stok.Engine.Watches.Reference.{reference, granted-reference}

-- Whole numbers in the place of `double`.
abbrev whole : Double
whole = record {
  F = ℕ;
  of_int = pos_part;
  add = λ a b. a + b;
  sub = λ a b. a;
  mul = λ a b. a * b;
  div = λ a b. a;
  neg = λ a. a;
  floor = λ a. a;
  lt = ltb;
  le = λ a b. ltb a (b + 1);
}

abbrev two : Pool whole
two = make whole 2

first_found : find_watch whole two 7 ≡ none
unfolding make find_watch
first_found = refl

two_slots : 0 < length two.slots
unfolding make
two_slots = omega arith

activate_watch-Activated_example :
    Activated whole two 7 (activate_watch whole two 7).0 (activate_watch whole two 7).1
activate_watch-Activated_example =
    activate_watch-Activated whole two (make-IsValid whole 2) 7 first_found two_slots

-- Three stories in two slots: the oldest makes room.
crowded :
    find_watch whole
      (activate_watch whole (activate_watch whole (activate_watch whole two 7).0 8).0 9).0
      7
    ≡ none
unfolding make find_watch activate_watch
crowded = refl

abbrev asked : List Request
asked =
    record { sym = 7; tier = watch; now = 100 * ns_per_sec }
    ∷ record { sym = 7; tier = watch; now = 900 * ns_per_sec }
    ∷ record { sym = 7; tier = alert; now = 901 * ns_per_sec }
    ∷ record { sym = 7; tier = watch; now = 2000 * ns_per_sec }
    ∷ []

granted-IsSpaced_example : IsSpaced (1800 * ns_per_sec) (granted 1800 (λ k. none) asked)
granted-IsSpaced_example = granted-IsSpaced 1800 0 asked (omega arith)

three_granted : length (granted 1800 (λ k. none) asked) ≡ 3
unfolding granted
three_granted = refl

granted-reference_example : granted 1800 (λ k. none) asked ≡ reference 1800 [] asked
granted-reference_example = granted-reference 1800 0 asked (omega arith)
