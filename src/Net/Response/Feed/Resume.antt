-- ===== src/Net/Response/Feed/Resume.antt =====
-- The search for the end of the header block, which goes on where the last call of `feed` stopped, and the
-- loop of `feed` by its next round.
use stok.Base.{
  ℕ, zero, suc, ◌+◌, ◌-◌, ◌≤◌, ◌<◌, ◌≡◌, refl, sym, ◌∙◌, ap, Bool, true, false, Option, none, some,
  [], ◌∷◌, ◌++◌, leb, if◌then◌else◌, length, drop, arith, length-drop, drop-append, drop-drop,
  Bool-cases, inl, inr,
}
use mathlib.Core.Option
use mathlib.Core.Path.{subst}
use stok.Util.Ascii.{Bytes, lower_prefix}
use stok.Net.Response.{ResponseParser}
use stok.Net.Response.Feed.{find_blank, Round, again, out, in_phase, resume, feed_rounds, feed, Fed}
use stok.Net.Response.Feed.Total.{
  find_blank-lt, measure, CostsBelow, in_phase-CostsBelow, measure_bound, measure_positive,
}

lower_prefix-append :
    (n s t : Bytes) → length n ≤ length s → lower_prefix n (s ++ t) ≡ lower_prefix n s
unfolding lower_prefix
lower_prefix-append [] s t h = refl
lower_prefix-append (n ∷ ns) [] t h = ground arith
lower_prefix-append (n ∷ ns) (c ∷ s) t h = rw (lower_prefix-append ns s t (omega arith)) refl

abbrev pub raised : ℕ → Option ℕ → Option ℕ
raised k none = none
raised k (some i) = some (k + i)

raised_zero : (o : Option ℕ) → o ≡ raised 0 o
raised_zero none = refl
raised_zero (some i) = ap (λ j. some j) (omega arith)

raised-suc : (k : ℕ) (o : Option ℕ) → Option.map suc (raised k o) ≡ raised (suc k) o
raised-suc k none = refl
raised-suc k (some i) = ap (λ j. some j) (omega arith)

missed : (b : Bool) (x : Option ℕ) → b ≡ false → (if b then some 0 else x) ≡ x
missed true x h = cc
missed false x h = refl

-- A search that finds nothing: neither here nor later.
not_here :
    (b : Bool) (o : Option ℕ)
    → (if b then some 0 else Option.map suc o) ≡ none
    → (b ≡ false) × (o ≡ none)
not_here true o h = cc
not_here false none h = (refl, refl)
not_here false (some k) h = cc

abbrev blank : Bytes
blank = b'\r' ∷ b'\n' ∷ b'\r' ∷ b'\n' ∷ []

-- Where the bytes `u` hold no blank line, the search may start three bytes before their end.
find_blank-append :
    (u t : Bytes)
    → find_blank u ≡ none
    → find_blank (u ++ t) ≡ raised (length u - 3) (find_blank (drop (length u - 3) (u ++ t)))
unfolding find_blank
find_blank-append [] t h = raised_zero (find_blank t)
find_blank-append (c ∷ u) t h =
    let miss : (lower_prefix blank (c ∷ u) ≡ false) × (find_blank u ≡ none) =
      not_here (lower_prefix blank (c ∷ u)) (find_blank u) h in
    elim (Bool-cases (leb 3 (length u))) [
      | inl l ↦
          subst (λ n. find_blank (c ∷ (u ++ t)) ≡ raised n (find_blank (drop n (c ∷ (u ++ t)))))
            (enough l)
            (missed (lower_prefix blank (c ∷ (u ++ t))) (Option.map suc (find_blank (u ++ t)))
                (lower_prefix-append blank (c ∷ u) t (ground arith) ∙ miss.0)
              ∙ ap (Option.map suc) (find_blank-append u t miss.1)
              ∙ raised-suc (length u - 3) (find_blank (drop (length u - 3) (u ++ t))))
      | inr g ↦
          subst (λ n. find_blank (c ∷ (u ++ t)) ≡ raised n (find_blank (drop n (c ∷ (u ++ t)))))
            (few g) (raised_zero (find_blank (c ∷ (u ++ t))))
    ]
  where
    enough : leb 3 (length u) ≡ true → suc (length u - 3) ≡ suc (length u) - 3
    enough l = ground arith

    few : leb 3 (length u) ≡ false → 0 ≡ suc (length u) - 3
    few g = ground arith

-- The search from where the last call stopped.
pub find_blank-resumed :
    (s t : Bytes) (scan : ℕ)
    → scan ≤ length s
    → find_blank (drop (scan - 3) s) ≡ none
    → (k : ℕ) × (find_blank (drop (scan - 3) (s ++ t))
        ≡ raised k (find_blank (drop (length s - 3) (s ++ t))))
      × (scan - 3 + k ≡ length s - 3)
find_blank-resumed s t scan h e = (k, found, places)
  where
    u : Bytes
    u = drop (scan - 3) s

    k : ℕ
    k = length u - 3

    places : scan - 3 + k ≡ length s - 3
    places = ground (arith, length-drop (scan - 3) s)

    found :
        find_blank (drop (scan - 3) (s ++ t)) ≡ raised k (find_blank (drop (length s - 3) (s ++ t)))
    found =
        ap find_blank (drop-append (scan - 3) s t (omega arith))
        ∙ find_blank-append u t e
        ∙ ap (λ v. raised k (find_blank v))
            (ap (drop k) (sym (drop-append (scan - 3) s t (omega arith)))
              ∙ drop-drop (scan - 3) k (s ++ t)
              ∙ ap (λ n. drop n (s ++ t)) places)

-- The loop by its next round.
rounds_alike :
    (n : ℕ) (s : Bytes) (f g : ℕ → ResponseParser → Fed)
    → ((scan : ℕ) (q : ResponseParser) → measure s scan q < n → f scan q ≡ g scan q)
    → (o : Round) → CostsBelow n s o
    → resume f o ≡ resume g o
rounds_alike n s f g h (again scan q) b = h scan q b
rounds_alike n s f g h (out r scan q) b = refl

feed_rounds_more :
    (m n : ℕ) (s : Bytes) (eof : Bool) (scan : ℕ) (p : ResponseParser)
    → measure s scan p ≤ m
    → measure s scan p ≤ n
    → feed_rounds m s eof scan p ≡ feed_rounds n s eof scan p
unfolding feed_rounds
feed_rounds_more zero n s eof scan p h k = absurd (measure_positive s scan p h)
feed_rounds_more (suc m) zero s eof scan p h k = absurd (measure_positive s scan p k)
feed_rounds_more (suc m) (suc n) s eof scan p h k =
    rounds_alike (measure s scan p) s (λ a q. feed_rounds m s eof a q)
      (λ a q. feed_rounds n s eof a q)
      (λ a q l. feed_rounds_more m n s eof a q (omega arith) (omega arith))
      (in_phase s eof scan p p.phase) (in_phase-CostsBelow s eof scan p p.phase)

pub feed-in_phase :
    (s : Bytes) (eof : Bool) (scan : ℕ) (p : ResponseParser)
    → feed s eof scan p ≡ resume (feed s eof) (in_phase s eof scan p p.phase)
unfolding feed feed_rounds
feed-in_phase s eof scan p = rw fuel (
    rounds_alike (measure s scan p) s (λ a q. feed_rounds (length s + 2) s eof a q)
      (λ a q. feed_rounds (length s + 3) s eof a q)
      (λ a q l.
        feed_rounds_more (length s + 2) (length s + 3) s eof a q
          (omega (arith, measure_bound s scan p)) (measure_bound s a q))
      (in_phase s eof scan p p.phase) (in_phase-CostsBelow s eof scan p p.phase))
  where
    fuel : length s + 3 ≡ suc (length s + 2)
    fuel = omega arith

found_already :
    (b : Bool) (x y : Option ℕ) {e : ℕ}
    → ((k : ℕ) → x ≡ some k → y ≡ some k)
    → (if b then some 0 else Option.map suc x) ≡ some e
    → (if b then some 0 else Option.map suc y) ≡ some e
found_already true x y f h = h
found_already false none y f h = cc
found_already false (some k) y f h = rw (f k refl) h

pub find_blank-found : (u t : Bytes) {e : ℕ} → find_blank u ≡ some e → find_blank (u ++ t) ≡ some e
unfolding find_blank
find_blank-found [] t h = cc
find_blank-found (c ∷ u) t h =
    ap (λ b. if b then some 0 else Option.map suc (find_blank (u ++ t)))
      (lower_prefix-append blank (c ∷ u) t (omega (arith, find_blank-lt (c ∷ u) h)))
    ∙ found_already (lower_prefix blank (c ∷ u)) (find_blank u) (find_blank (u ++ t))
        (λ k f. find_blank-found u t f) h
