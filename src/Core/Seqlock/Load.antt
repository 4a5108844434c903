-- ===== src/Core/Seqlock/Load.antt =====
-- A reader that no write overlaps.
use stok.Base.{
  ℕ, zero, suc, ◌+◌, ◌%◌, ◌≤◌, ◌≡◌, refl, ◌∙◌, ap, true, false, List, [], ◌∷◌, ◌++◌, arith, ◌==◌,
  length, get_or, take, length-take,
}
use stok.Core.Seqlock.{SeqLocked, Reader, top, copying, returned, load_step}
use stok.Core.Seqlock.Safety.{take_snoc}

module _ (bytes : ℕ) (m : SeqLocked) where
  -- The reader alone, for a number of accesses.
  abbrev pub steps : ℕ → Reader → Reader
  steps zero r = r
  steps (suc n) r = steps n (load_step bytes m r)

  module _ (fits : bytes ≤ length m.cells) where
    steps-copying :
        (n k : ℕ)
        → k + n ≡ bytes
        → steps (suc n) (copying m.seq (take k m.cells)) ≡ returned (take bytes m.cells)
    unfolding load_step
    steps-copying zero k e =
        let full : (length (take k m.cells) == bytes) ≡ true =
          ground (arith, length-take k m.cells) in
        let same : (m.seq == m.seq) ≡ true = ground arith in
        let all : k ≡ bytes = omega arith in rw (full, same, all) refl
    steps-copying (suc n) k e =
        let width : length (take k m.cells) ≡ k = ground (arith, length-take k m.cells) in
        let more : (length (take k m.cells) == bytes) ≡ false = ground arith in
        let byte = get_or m.cells (length (take k m.cells)) 0 in
        let copied : take k m.cells ++ (byte ∷ []) ≡ take (suc k) m.cells =
          ap (λ (i : ℕ). take k m.cells ++ (get_or m.cells i 0 ∷ [])) width
          ∙ take_snoc k m.cells (omega arith) in
        ap (steps (suc n)) (rw more refl ∙ ap (λ (out : List ℕ). copying m.seq out) copied)
        ∙ steps-copying n (suc k) (omega arith)

    -- A reader that runs while no write is open, and none begins, returns the front of the data
    -- after one access for each byte and two more.
    pub load-finishes : m.seq % 2 ≡ 0 → steps (bytes + 2) top ≡ returned (take bytes m.cells)
    unfolding load_step
    load-finishes even =
        let calm : (m.seq % 2 == 1) ≡ false = ground arith in
        let entered : load_step bytes m top ≡ copying m.seq [] = rw calm refl in
        let count : bytes + 2 ≡ suc (suc bytes) = omega arith in
        ap (λ (n : ℕ). steps n top) count
        ∙ ap (steps (suc bytes)) entered
        ∙ steps-copying bytes 0 (omega arith)
