-- ===== src/Market/Mold/Stream.antt =====
-- The stream that a session carries, the packets that carry a piece of it, and what `process` hands on
-- of such a packet.
use mathlib.Core.Option
use mathlib.Core.Path.{subst, sym}
use stok.Base.{
  ℕ, zero, suc, ◌+◌, ◌-◌, ◌≤◌, ◌≡◌, refl, ap, Bool, false, Option, none, some, List, [], ◌∷◌, ◌++◌,
  map, arith, ltb, leb, Bool-cases, inl, inr, length, take, drop,
}
use stok.Market.Itch.{be16}
use stok.Market.Mold.{Sink, deliver, process_from}

-- The numbers in `ns` rise, from `lo` on and below `hi`.
abbrev pub Rises : ℕ → List ℕ → ℕ → Type 0
Rises lo [] hi = lo ≤ hi
Rises lo (n ∷ ns) hi = (lo ≤ n) × Rises (suc n) ns hi

pub Rises-le : (lo : ℕ) (ns : List ℕ) (hi : ℕ) → Rises lo ns hi → lo ≤ hi
Rises-le lo [] hi h = h
Rises-le lo (n ∷ ns) hi h = omega (arith, h.0, Rises-le (suc n) ns hi h.1)

pub Rises-wider : (lo : ℕ) (ns : List ℕ) (hi hi' : ℕ) → hi ≤ hi' → Rises lo ns hi → Rises lo ns hi'
Rises-wider lo [] hi hi' w h = omega (arith, h)
Rises-wider lo (n ∷ ns) hi hi' w h = (h.0, Rises-wider (suc n) ns hi hi' w h.1)

pub Rises-append :
    (lo : ℕ) (ns : List ℕ) (hi : ℕ) → Rises lo ns hi → Rises lo (ns ++ (hi ∷ [])) (suc hi)
Rises-append lo [] hi h = (h, omega arith)
Rises-append lo (n ∷ ns) hi h = (h.0, Rises-append (suc n) ns hi h.1)

map-append :
    (f : ℕ → List ℕ) (ns : List ℕ) (n : ℕ) → map f ns ++ (f n ∷ []) ≡ map f (ns ++ (n ∷ []))
map-append f [] n = refl
map-append f (m ∷ ns) n = ap (λ r. f m ∷ r) (map-append f ns n)

length-snoc : (ns : List ℕ) (n : ℕ) → length (ns ++ (n ∷ [])) ≡ suc (length ns)
length-snoc [] n = refl
length-snoc (m ∷ ns) n = ap suc (length-snoc ns n)

-- The handler after a list of messages.
abbrev pub hand_on : {H : Type 0} → (H → List ℕ → Bool × H) → H → List (List ℕ) → H
hand_on decode_to h [] = h
hand_on decode_to h (m ∷ ms) = hand_on decode_to (decode_to h m).1 ms

hand_on-append :
    {H : Type 0} (decode_to : H → List ℕ → Bool × H) (h : H) (ms : List (List ℕ)) (m : List ℕ)
    → hand_on decode_to h (ms ++ (m ∷ [])) ≡ (decode_to (hand_on decode_to h ms) m).1
hand_on-append decode_to h [] m = refl
hand_on-append decode_to h (n ∷ ms) m = hand_on-append decode_to (decode_to h n).1 ms m

append_again :
    (log ms : List (List ℕ)) (m : List ℕ) → (log ++ ms) ++ (m ∷ []) ≡ log ++ (ms ++ (m ∷ []))
append_again [] ms m = refl
append_again (n ∷ log) ms m = ap (λ r. n ∷ r) (append_again log ms m)

recorded_again :
    (log : Option (List (List ℕ))) (ms : List (List ℕ)) (m : List ℕ)
    → Option.map (λ l. l ++ (m ∷ [])) (Option.map (λ l. l ++ ms) log)
      ≡ Option.map (λ l. l ++ (ms ++ (m ∷ []))) log
recorded_again none ms m = refl
recorded_again (some log) ms m = ap some (append_again log ms m)

append_nil : (log : List (List ℕ)) → log ≡ log ++ []
append_nil [] = refl
append_nil (n ∷ log) = ap (λ r. n ∷ r) (append_nil log)

pub recorded_nothing : (log : Option (List (List ℕ))) → log ≡ Option.map (λ l. l ++ []) log
recorded_nothing none = refl
recorded_nothing (some log) = ap some (append_nil log)

module _ (msg : ℕ → List ℕ) where
  -- The bytes hold the messages `seq`, `seq + 1`, .. of the stream, `left` in number, each behind its
  -- length.
  abbrev pub Blocks : ℕ → ℕ → List ℕ → Type 0
  Blocks zero seq rest = Unit {0}
  Blocks (suc left) seq rest =
      (2 ≤ length rest)
      × (be16 rest 0 ≤ length (drop 2 rest))
      × (take (be16 rest 0) (drop 2 rest) ≡ msg seq)
      × Blocks left (suc seq) (drop (be16 rest 0) (drop 2 rest))

  module _ {H : Type 0} (decode_to : H → List ℕ → Bool × H) where
    -- What was handed on since number `lo`, when the sink was `first`: the messages of rising numbers
    -- below `hi`, in that order; with `lost` they make up all that lie between.
    pub record Log (first s : Sink H) (lost lo hi : ℕ) : Type 0 where
      pub numbers : List ℕ
      pub handled : s.handler ≡ hand_on decode_to first.handler (map msg numbers)
      pub logged : s.recorder ≡ Option.map (λ log. log ++ map msg numbers) first.recorder
      pub rises : Rises lo numbers hi
      pub balance : length numbers + lost ≡ hi - lo

    deliver-Log :
        (first s : Sink H) (lost lo hi : ℕ) (m : List ℕ)
        → m ≡ msg hi
        → Log first s lost lo hi
        → Log first (deliver decode_to s m) lost lo (suc hi)
    unfolding deliver
    deliver-Log first s lost lo hi m e v = record {
      numbers = v.numbers ++ (hi ∷ []);
      handled =
          rw (v.handled, e, sym (map-append msg v.numbers hi))
            (sym (hand_on-append decode_to first.handler (map msg v.numbers) (msg hi)));
      logged =
          rw (v.logged, e, sym (map-append msg v.numbers hi))
            (recorded_again first.recorder (map msg v.numbers) (msg hi));
      rises = Rises-append lo v.numbers hi v.rises;
      balance =
          omega (arith, length-snoc v.numbers hi, v.balance, Rises-le lo v.numbers hi v.rises);
    }

    pub process_from-Log :
        (left i skip seq : ℕ) (rest : List ℕ) (first s : Sink H) (lost lo : ℕ)
        → Blocks left seq rest
        → skip ≤ i + left
        → Log first s lost lo (seq + (skip - i))
        → Log first (process_from decode_to left i skip rest s) lost lo (seq + left)
    unfolding process_from
    process_from-Log zero i skip seq rest first s lost lo ok enough v =
        subst (λ hi. Log first s lost lo hi) (omega arith) v
    process_from-Log (suc left) i skip seq rest first s lost lo ok enough v =
        let rest' = drop (be16 rest 0) (drop 2 rest) in
        let again : (s' : Sink H)
            → Log first s' lost lo (suc seq + (skip - (i + 1)))
            → Log first (process_from decode_to left (i + 1) skip rest' s') lost lo
                (seq + suc left) =
          λ s' v'.
            subst (λ hi. Log first (process_from decode_to left (i + 1) skip rest' s') lost lo hi)
              (omega arith)
              (process_from-Log left (i + 1) skip (suc seq) rest' first s' lost lo ok.3
                (omega (arith, enough)) v') in
        rw (whole, complete)
          (elim (Bool-cases (leb skip i)) [
            | inl due ↦ rw due (
                again (deliver decode_to s (take (be16 rest 0) (drop 2 rest))) (
                  subst
                    (λ hi.
                      Log first (deliver decode_to s (take (be16 rest 0) (drop 2 rest))) lost lo hi)
                    (ground arith)
                    (deliver-Log first s lost lo seq (take (be16 rest 0) (drop 2 rest)) ok.2
                      (subst (λ hi. Log first s lost lo hi) (ground arith) v))))
            | inr skipped ↦
                rw skipped (again s (subst (λ hi. Log first s lost lo hi) (ground arith) v))
          ])
      where
        whole : ltb (length rest) 2 ≡ false
        whole = ground (arith, ok.0)

        complete : ltb (length (drop 2 rest)) (be16 rest 0) ≡ false
        complete = ground (arith, ok.1)
