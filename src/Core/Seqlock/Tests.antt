-- ===== src/Core/Seqlock/Tests.antt =====
-- A reader that overlaps a write, and one that reads after it.
use stok.Base.{ℕ, ◌/◌, ◌≡◌, refl, some, List, [], ◌∷◌, arith, take, get_elem?}
use stok.Core.Seqlock.{
  SeqLocked, begin_write, end_write, store, top, returned, load_step, System, init, begun, stored,
  ended, read, begin, put, finish, access, Reach, start, later,
}
use stok.Core.Seqlock.Safety.{load-untorn}
use stok.Core.Seqlock.Load.{steps, load-finishes}

-- The reader copies one byte, the writer replaces both, and the reader starts over.
abbrev overlapped : System
overlapped = read 2 (
    read 2 (
      read 2 (
        read 2 (
          read 2 (
            read 2
              (ended (stored (stored (begun (read 2 (read 2 (init (1 ∷ 2 ∷ []))))) 0 8) 1 9)))))))

abbrev overlapped_Reach : Reach 2 (1 ∷ 2 ∷ []) overlapped
overlapped_Reach =
    later
      (later
        (later
          (later
            (later
              (later
                (later
                  (later
                    (later (later (later (later start access) access) (begin refl)) (put 0 8 refl))
                    (put 1 9 refl))
                  (finish refl))
                access)
              access)
            access)
          access)
        access)
      access

overlapped_reader : overlapped.reader ≡ returned (8 ∷ 9 ∷ [])
unfolding load_step begin_write end_write store
overlapped_reader = refl

load-untorn_example :
    (v : List ℕ) × (get_elem? overlapped.published (overlapped.since / 2) ≡ some v)
    × ((8 ∷ 9 ∷ []) ≡ take 2 v)
unfolding load_step begin_write end_write store
load-untorn_example =
    load-untorn (omega arith) (8 ∷ 9 ∷ []) overlapped_Reach overlapped_reader (omega arith)

abbrev resting : SeqLocked
resting = record { seq = 6; cells = 5 ∷ 7 ∷ 9 ∷ [] }

load-finishes_example : steps 2 resting 4 top ≡ returned (5 ∷ 7 ∷ [])
load-finishes_example = load-finishes 2 resting (omega arith) (omega arith)
