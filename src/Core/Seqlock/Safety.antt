-- ===== src/Core/Seqlock/Safety.antt =====
-- What a reader returns while the writer runs.
use stok.Base.{
  ℕ, zero, suc, ◌+◌, ◌%◌, ◌/◌, ◌^◌, ◌<◌, ◌≤◌, ◌≡◌, refl, sym, ◌∙◌, ap, true, false, Bool-cases,
  branch, inl, inr, some, List, [], ◌∷◌, ◌++◌, arith, ◌==◌, if◌then◌else◌, length, get_or,
  get_elem?, take, length-append, length-set, ==_iff,
}
use stok.Core.Seqlock.{
  begin_write, end_write, store, Reader, top, copying, returned, load_step, System, init, begin,
  put, finish, access, Reach, begun, stored, ended, read, since_after, until_after, start, later,
}

pub take_snoc :
    (i : ℕ) (xs : List ℕ) → i < length xs → take i xs ++ (get_or xs i 0 ∷ []) ≡ take (suc i) xs
take_snoc i [] h = absurd (omega arith)
take_snoc zero (x ∷ xs) h = refl
take_snoc (suc i) (x ∷ xs) h = ap (λ r. x ∷ r) (take_snoc i xs (omega arith))

get_elem?-append {ℓ} :
    {A : Type ℓ} (i : ℕ) (xs ys : List A) (a : A)
    → get_elem? xs i ≡ some a
    → get_elem? (xs ++ ys) i ≡ some a
get_elem?-append i [] ys a e = absurd (cc)
get_elem?-append zero (x ∷ xs) ys a e = e
get_elem?-append (suc i) (x ∷ xs) ys a e = get_elem?-append i xs ys a e

get_elem?-last {ℓ} :
    {A : Type ℓ} (xs : List A) (a : A) → get_elem? (xs ++ (a ∷ [])) (length xs) ≡ some a
get_elem?-last [] a = refl
get_elem?-last (x ∷ xs) a = get_elem?-last xs a

-- What holds of a reader, by where it is.
abbrev IsConsistent : ℕ → System → Reader → Type 0
IsConsistent bytes s top = Unit
IsConsistent bytes s (copying s1 out) =
    (s1 ≡ s.since % 2 ^ 32)
    × (s.since % 2 ≡ 0)
    × (s.since ≤ s.stores)
    × (length out ≤ bytes)
    × (s.stores ≡ s.since → out ≡ take (length out) s.lock.cells)
IsConsistent bytes s (returned out) =
    s.until < s.since + 2 ^ 32
    → (v : List ℕ) × (get_elem? s.published (s.since / 2) ≡ some v) × (out ≡ take bytes v)

record Inv (bytes width : ℕ) (s : System) : Type 0 where
  word : s.lock.seq ≡ s.stores % 2 ^ 32
  parity : s.stores % 2 ≡ (if s.writing then 1 else 0)
  full : length s.lock.cells ≡ width
  recorded : length s.published ≡ s.stores / 2 + 1
  current : s.writing ≡ false → get_elem? s.published (s.stores / 2) ≡ some s.lock.cells
  reading : IsConsistent bytes s s.reader

init-Inv : (bytes : ℕ) (cells : List ℕ) → Inv bytes (length cells) (init cells)
init-Inv bytes cells = record {
  word = omega arith;
  parity = omega arith;
  full = refl;
  recorded = omega arith;
  current = λ _. refl;
  reading = tt;
}

module _ (bytes width : ℕ) (s : System) (inv : Inv bytes width s) where
  even_idle : s.stores % 2 ≡ 0 → s.writing ≡ false
  even_idle e = elim (Bool-cases s.writing) [
    | inr idle ↦ idle
    | inl busy ↦ let odd : s.stores % 2 ≡ 1 = inv.parity ∙ rw busy refl in absurd (omega arith)
  ]

  begun-IsConsistent : (r : Reader) → IsConsistent bytes s r → IsConsistent bytes (begun s) r
  begun-IsConsistent top c = tt
  begun-IsConsistent (copying s1 out) c =
      (c.0, c.1, omega (arith, c.2), c.3, λ e. absurd (omega (arith, c.2)))
  begun-IsConsistent (returned out) c = c

  begun-Inv : s.writing ≡ false → Inv bytes width (begun s)
  unfolding begin_write
  begun-Inv idle =
      let even : s.stores % 2 ≡ 0 = inv.parity ∙ rw idle refl in
      record {
        word = omega (arith, inv.word);
        parity = omega arith;
        full = inv.full;
        recorded = omega (arith, inv.recorded);
        current = λ e. absurd (cc);
        reading = begun-IsConsistent s.reader inv.reading;
      }

  stored-IsConsistent :
      (i v : ℕ) (r : Reader)
      → s.writing ≡ true
      → IsConsistent bytes s r
      → IsConsistent bytes (stored s i v) r
  stored-IsConsistent i v top busy c = tt
  stored-IsConsistent i v (copying s1 out) busy c =
      let odd : s.stores % 2 ≡ 1 = inv.parity ∙ rw busy refl in
      (c.0, c.1, c.2, c.3, λ e. absurd (omega (arith, c.1)))
  stored-IsConsistent i v (returned out) busy c = c

  stored-Inv : (i v : ℕ) → s.writing ≡ true → Inv bytes width (stored s i v)
  unfolding store
  stored-Inv i v busy = record {
    word = inv.word;
    parity = inv.parity;
    full = length-set s.lock.cells i v ∙ inv.full;
    recorded = inv.recorded;
    current = λ idle. absurd (cc);
    reading = stored-IsConsistent i v s.reader busy inv.reading;
  }

  ended-IsConsistent : (r : Reader) → IsConsistent bytes s r → IsConsistent bytes (ended s) r
  ended-IsConsistent top c = tt
  ended-IsConsistent (copying s1 out) c =
      (c.0, c.1, omega (arith, c.2), c.3, λ e. absurd (omega (arith, c.2)))
  ended-IsConsistent (returned out) c = λ near.
      (let (v, there, e) = c near in
        (v, get_elem?-append (s.since / 2) s.published (s.lock.cells ∷ []) v there, e))

  ended-Inv : s.writing ≡ true → Inv bytes width (ended s)
  unfolding end_write
  ended-Inv busy =
      let odd : s.stores % 2 ≡ 1 = inv.parity ∙ rw busy refl in
      record {
        word = omega (arith, inv.word);
        parity = omega arith;
        full = inv.full;
        recorded = omega (arith, length-append s.published (s.lock.cells ∷ []), inv.recorded);
        current = λ idle.
            (let at : (s.stores + 1) / 2 ≡ length s.published = omega (arith, inv.recorded) in
              rw at (get_elem?-last s.published s.lock.cells));
        reading = ended-IsConsistent s.reader inv.reading;
      }

  abbrev after : Reader → System
  after r = record s {
    reader = load_step bytes s.lock r;
    since = since_after r s.stores s.since;
    until = until_after r s.stores s.until;
  }

  read-IsConsistent :
      bytes ≤ width
      → (r : Reader) → IsConsistent bytes s r
      → IsConsistent bytes (after r) (load_step bytes s.lock r)
  unfolding load_step
  read-IsConsistent fits top c =
      branch (IsConsistent bytes (after top)) (s.lock.seq % 2 == 1) (λ odd. tt)
        (λ even. (inv.word, ground (arith, inv.word), omega arith, omega arith, λ e. refl))
  read-IsConsistent fits (copying s1 out) c =
      let next = after (copying s1 out) in
      branch (IsConsistent bytes next) (length out == bytes)
        (λ full.
          (branch (IsConsistent bytes next) (s1 == s.lock.seq)
            (λ same near.
              (let still : s.stores ≡ s.since = ground (arith, inv.word, c.0, c.2) in
                let there = inv.current (even_idle (omega (arith, c.1))) in
                (
                  s.lock.cells,
                  rw (← still) there,
                  c.4 still
                      ∙ ap (λ (n : ℕ). take n s.lock.cells) ((==_iff (length out) bytes).0 full),
                )))
            (λ other. tt)))
        (λ more. (
          c.0,
          c.1,
          c.2,
          ground (arith, c.3, length-append out (get_or s.lock.cells (length out) 0 ∷ [])),
          λ still.
              (let byte = get_or s.lock.cells (length out) 0 in
                let longer : length (out ++ (byte ∷ [])) ≡ suc (length out) =
                  omega (arith, length-append out (byte ∷ [])) in
                let inside : length out < length s.lock.cells = ground (arith, c.3, inv.full) in
                ap (λ (r : List ℕ). r ++ (byte ∷ [])) (c.4 still)
                ∙ take_snoc (length out) s.lock.cells inside
                ∙ ap (λ (n : ℕ). take n s.lock.cells) (sym longer)),
        ))
  read-IsConsistent fits (returned out) c = c

  read-Inv : bytes ≤ width → Inv bytes width (read bytes s)
  read-Inv fits = record {
    word = inv.word;
    parity = inv.parity;
    full = inv.full;
    recorded = inv.recorded;
    current = inv.current;
    reading = read-IsConsistent fits s.reader inv.reading;
  }

module _ {bytes : ℕ} {cells : List ℕ} (fits : bytes ≤ length cells) where
  reach-Inv : {s : System} → Reach bytes cells s → Inv bytes (length cells) s
  reach-Inv start = init-Inv bytes cells
  reach-Inv (later {s} r (begin idle)) = begun-Inv bytes (length cells) s (reach-Inv r) idle
  reach-Inv (later {s} r (put i v busy)) = stored-Inv bytes (length cells) s (reach-Inv r) i v busy
  reach-Inv (later {s} r (finish busy)) = ended-Inv bytes (length cells) s (reach-Inv r) busy
  reach-Inv (later {s} r access) = read-Inv bytes (length cells) s (reach-Inv r) fits

  -- In every interleaving of the writer with a reader that copies no more bytes than there are:
  -- what the reader returned is the front of the value that was the last published one when the
  -- reader read `s1`, when fewer than 2^32 stores of the word fall between its reads of `s1` and
  -- `s2`.
  pub load-untorn :
      {s : System} (out : List ℕ)
      → Reach bytes cells s
      → s.reader ≡ returned out
      → s.until < s.since + 2 ^ 32
      → (v : List ℕ) × (get_elem? s.published (s.since / 2) ≡ some v) × (out ≡ take bytes v)
  load-untorn {s} out r e near =
      let c : IsConsistent bytes s (returned out) = rw e at (reach-Inv r).reading in c near
