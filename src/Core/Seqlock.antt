-- ===== src/Core/Seqlock.antt =====
-- `SeqLocked` of src/core/seqlock.hpp: one writer, and a reader that copies while the writer may
-- write. A step is one access of the shared memory; the fences are what lets the accesses be taken in
-- program order, one after another. `memcpy` copies byte by byte, from the front.
pub mod Safety
pub mod Load
mod Tests
use stok.Base.{
  ℕ, suc, ◌+◌, ◌%◌, ◌/◌, ◌^◌, ◌<◌, ◌≡◌, Bool, true, false, List, [], ◌∷◌, ◌++◌, ◌==◌, if◌then◌else◌,
  length, set, get_or,
}

-- `seq_`, a 32-bit word, and the bytes of `data_`.
pub record SeqLocked : Type 0 where
  pub seq : ℕ
  pub cells : List ℕ

-- `seq_.store(seq_.load() + 1)`, of `begin_write` and of `end_write`
unfoldable pub bump : SeqLocked → SeqLocked
bump m = record m { seq = (m.seq + 1) % 2 ^ 32 }

unfoldable pub begin_write : SeqLocked → SeqLocked
unfolding bump
begin_write m = bump m

unfoldable pub end_write : SeqLocked → SeqLocked
unfolding bump
end_write m = bump m

-- A write of one byte through the reference that `begin_write` returned.
unfoldable pub store : SeqLocked → ℕ → ℕ → SeqLocked
store m i v = record m { cells = set m.cells i v }

-- Where `load_prefix` is: at the top of its loop, in the copy with `s1` and the bytes so far, or
-- returned.
pub data Reader : Type 0 where
  top : Reader
  copying : ℕ → List ℕ → Reader
  returned : List ℕ → Reader

-- One access of `load_prefix(out, bytes)`. The test of `s2` follows the last byte.
unfoldable pub load_step : ℕ → SeqLocked → Reader → Reader
load_step bytes m top = if m.seq % 2 == 1 then top else copying m.seq []
load_step bytes m (copying s1 out) =
    if length out == bytes
    then (if s1 == m.seq then returned out else top)
    else copying s1 (out ++ (get_or m.cells (length out) 0 ∷ []))
load_step bytes m (returned out) = returned out

-- `stores` counts the writes of `seq_`, and `published` keeps the data of each finished write, the
-- first data included. `since` and `until` are the counts when the reader last read `s1` and `s2`.
pub record System : Type 0 where
  pub lock : SeqLocked
  pub writing : Bool
  pub reader : Reader
  pub stores : ℕ
  pub published : List (List ℕ)
  pub since : ℕ
  pub until : ℕ

abbrev pub init : List ℕ → System
init cells = record {
  lock = record { seq = 0; cells = cells };
  writing = false;
  reader = top;
  stores = 0;
  published = cells ∷ [];
  since = 0;
  until = 0;
}

abbrev pub begun : System → System
begun s = record s { lock = begin_write s.lock; writing = true; stores = s.stores + 1 }

abbrev pub stored : System → ℕ → ℕ → System
stored s i v = record s { lock = store s.lock i v }

abbrev pub ended : System → System
ended s = record s {
  lock = end_write s.lock;
  writing = false;
  stores = s.stores + 1;
  published = s.published ++ (s.lock.cells ∷ []);
}

abbrev pub since_after : Reader → ℕ → ℕ → ℕ
since_after top now before = now
since_after (copying s1 out) now before = before
since_after (returned out) now before = before

abbrev pub until_after : Reader → ℕ → ℕ → ℕ
until_after top now before = before
until_after (copying s1 out) now before = now
until_after (returned out) now before = before

abbrev pub read : ℕ → System → System
read bytes s = record s {
  reader = load_step bytes s.lock s.reader;
  since = since_after s.reader s.stores s.since;
  until = until_after s.reader s.stores s.until;
}

pub data Step (bytes : ℕ) (s : System) : System → Type 0 where
  begin : s.writing ≡ false → Step bytes s (begun s)
  put : (i v : ℕ) → s.writing ≡ true → Step bytes s (stored s i v)
  finish : s.writing ≡ true → Step bytes s (ended s)
  access : Step bytes s (read bytes s)

pub data Reach (bytes : ℕ) (cells : List ℕ) : System → Type 0 where
  start : Reach bytes cells (init cells)
  later : {s t : System} → Reach bytes cells s → Step bytes s t → Reach bytes cells t
