-- ===== src/Market/Mold/InOrder.antt =====
-- The receiver on the packets of one session, in whatever order they arrive.
use mathlib.Core.Path.{subst}
use stok.Base.{
  ℕ, ◌∙◌, ◌+◌, ◌^◌, ◌≤◌, ◌<◌, ◌≡◌, refl, sym, Bool, true, false, ◌||◌, not, List, [], ◌∷◌, arith,
  ltb, leb, ◌==◌, if◌then◌else◌, Bool-cases, inl, inr, length, drop,
}
use stok.Market.Ladder.{add64}
use stok.Market.Itch.{be16, be64}
use stok.Market.Mold.{
  MoldUdp64Receiver, Sink, same_bytes, sub64, emplace, process, process_from, request_gap, open_gap,
  settle, hold, drain_loop, drain, on_data, first_pending,
}
use stok.Market.Mold.Stream.{Rises-le, Rises-wider, Blocks, Log, process_from-Log}

pub same_bytes_self : (xs : List ℕ) → same_bytes xs xs ≡ true
unfolding same_bytes
same_bytes_self [] = refl
same_bytes_self (x ∷ xs) = ground (arith, same_bytes_self xs)

-- The first packet that is held lies ahead of the number that comes next.
abbrev pub Ahead : List (ℕ × List ℕ) → ℕ → Type 0
Ahead [] e = Unit {0}
Ahead ((seq, p) ∷ ps) e = e < seq

either :
    (P : List (ℕ × List ℕ) → Type 0) (t : Bool) {x y : List (ℕ × List ℕ)}
    → P x
    → P y
    → P (if t then x else y)
either P true a b = a
either P false a b = b

module _ (msg : ℕ → List ℕ) where
  -- Messages lost to a gap.
  pub Log-skip :
      {H : Type 0} (decode_to : H → List ℕ → Bool × H) (first s : Sink H) (lost lo hi hi' : ℕ)
      → hi ≤ hi'
      → hi' < 2 ^ 64
      → Log msg decode_to first s lost lo hi
      → Log msg decode_to first s (add64 lost (sub64 hi' hi)) lo hi'
  Log-skip decode_to first s lost lo hi hi' le small v = record {
    numbers = v.numbers;
    handled = v.handled;
    logged = v.logged;
    rises = Rises-wider lo v.numbers hi hi' le v.rises;
    balance = omega (arith, v.balance, Rises-le lo v.numbers hi v.rises);
  }

  -- A packet with messages of the stream, from its sequence number on.
  pub record IsData (p : List ℕ) : Type 0 where
    pub blocks : Blocks msg (be16 p 18) (be64 p 10) (drop 20 p)
    pub fits : be64 p 10 + be16 p 18 < 2 ^ 64

  abbrev pub AllHeld : List (ℕ × List ℕ) → Type 0
  AllHeld [] = Unit {0}
  AllHeld ((seq, p) ∷ ps) = (seq ≡ be64 p 10) × IsData p × AllHeld ps

  emplace-AllHeld :
      (seq : ℕ) (p : List ℕ) (ps : List (ℕ × List ℕ))
      → seq ≡ be64 p 10
      → IsData p
      → AllHeld ps
      → AllHeld (emplace seq p ps)
  unfolding emplace
  emplace-AllHeld seq p [] e d h = (e, d, tt)
  emplace-AllHeld seq p ((s, q) ∷ rest) e d h = elim (Bool-cases (seq == s)) [
    | inl t ↦ rw t h
    | inr t ↦ rw t (elim (Bool-cases (ltb seq s)) [
      | inl u ↦ rw u (e, d, h)
      | inr u ↦ rw u (h.0, h.1, emplace-AllHeld seq p rest e d h.2)
    ])
  ]

  emplace-Ahead :
      (seq : ℕ) (p : List ℕ) (ps : List (ℕ × List ℕ)) (e : ℕ)
      → e < seq
      → Ahead ps e
      → Ahead (emplace seq p ps) e
  unfolding emplace
  emplace-Ahead seq p [] e lt h = lt
  emplace-Ahead seq p ((s, q) ∷ rest) e lt h = elim (Bool-cases (seq == s)) [
    | inl t ↦ rw t h
    | inr t ↦ rw t (elim (Bool-cases (ltb seq s)) [ inl u ↦ rw u lt | inr u ↦ rw u h ])
  ]

  module _ {H : Type 0} (decode_to : H → List ℕ → Bool × H) (name : List ℕ) (lo : ℕ)
      (first : Sink H) where
    -- What holds of a receiver whose held packets are set aside.
    pub record Working (r : MoldUdp64Receiver H) : Type 0 where
      pub log : Log msg decode_to first r.sink r.st.gap_messages lo r.expected_seq
      pub same_session : r.session ≡ name
      pub small : r.expected_seq < 2 ^ 64
      pub start : 1 ≤ lo

    pub record Inv (r : MoldUdp64Receiver H) : Type 0 where
      pub working : Working r
      pub held : AllHeld r.pending
      pub ahead : Ahead r.pending r.expected_seq
      pub bare : r.can_request ≡ false → r.pending ≡ []

    -- A change of other fields.
    pub Working-alike :
        (r r' : MoldUdp64Receiver H)
        → r'.sink.handler ≡ r.sink.handler
        → r'.sink.recorder ≡ r.sink.recorder
        → r'.st.gap_messages ≡ r.st.gap_messages
        → r'.expected_seq ≡ r.expected_seq
        → r'.session ≡ r.session
        → Working r
        → Working r'
    Working-alike r r' h a b c d w = record {
      log = record {
        numbers = w.log.numbers;
        handled = h ∙ w.log.handled;
        logged = a ∙ w.log.logged;
        rises = rw c w.log.rises;
        balance = rw (b, c) w.log.balance;
      };
      same_session = rw d w.same_session;
      small = rw c w.small;
      start = w.start;
    }

    pub Inv-alike :
        (r r' : MoldUdp64Receiver H)
        → r'.sink.handler ≡ r.sink.handler
        → r'.sink.recorder ≡ r.sink.recorder
        → r'.st.gap_messages ≡ r.st.gap_messages
        → r'.expected_seq ≡ r.expected_seq
        → r'.session ≡ r.session
        → r'.pending ≡ r.pending
        → r'.can_request ≡ r.can_request
        → Inv r
        → Inv r'
    Inv-alike r r' h a b c d e f v = record {
      working = Working-alike r r' h a b c d v.working;
      held = rw e v.held;
      ahead = rw (e, c) v.ahead;
      bare = rw (e, f) v.bare;
    }

    -- Both branches of a test.
    pub branch :
        (t : Bool) {x y : MoldUdp64Receiver H}
        → (t ≡ true → Inv x)
        → (t ≡ false → Inv y)
        → Inv (if t then x else y)
    branch true f g = f refl
    branch false f g = g refl

    pub request_gap-Inv : (r : MoldUdp64Receiver H) (now : ℕ) → Inv r → Inv (request_gap r now)
    unfolding request_gap
    request_gap-Inv r now v =
        branch (not r.can_request || leb (first_pending r.pending r.gap_end) r.expected_seq)
          (λ t. v) (λ t. Inv-alike r _ refl refl refl refl refl refl refl v)

    pub open_gap-Inv : (r : MoldUdp64Receiver H) (seq now : ℕ) → Inv r → Inv (open_gap r seq now)
    unfolding open_gap
    open_gap-Inv r seq now v =
        request_gap-Inv r' now (Inv-alike r r' refl refl refl refl refl refl refl v)
      where
        r' : MoldUdp64Receiver H
        r' = record r {
          recovering = true;
          gap_since = now;
          gap_end = seq;
          last_request = 0;
          st = record r.st { gaps = add64 r.st.gaps 1 };
        }

    pub settle-Inv : (r : MoldUdp64Receiver H) (now : ℕ) → Inv r → Inv (settle r now)
    unfolding settle
    settle-Inv r now v =
        branch (length r.pending == 0) (λ t. Inv-alike r _ refl refl refl refl refl refl refl v)
          (λ t. branch r.recovering (λ u. request_gap-Inv r now v) (λ u. v))

    handed-Log :
        (s : Sink H) (p : List ℕ) (lost skip : ℕ) {hi end : ℕ}
        → IsData p
        → skip ≤ be16 p 18
        → hi ≡ be64 p 10 + skip
        → end ≡ be64 p 10 + be16 p 18
        → Log msg decode_to first s lost lo hi
        → Log msg decode_to first
            (process_from decode_to (be16 p 18) 0 skip (drop 20 p) s)
            lost
            lo
            end
    handed-Log s p lost skip d le at_hi at_end v = rw at_end (
        process_from-Log msg decode_to (be16 p 18) 0 skip (be64 p 10) (drop 20 p) first s lost lo
          d.blocks (omega (arith, le))
          (subst (λ k. Log msg decode_to first s lost lo k) (omega (arith, at_hi)) v))

    -- A packet that holds the next number is handed on from there.
    process-Working :
        (r : MoldUdp64Receiver H) (p : List ℕ) (seq : ℕ)
        → seq ≡ be64 p 10
        → IsData p
        → seq ≤ r.expected_seq
        → r.expected_seq < add64 seq (be16 p 18)
        → Working r
        → Working (record (process decode_to r p (sub64 r.expected_seq seq)) {
          expected_seq = add64 seq (be16 p 18);
        })
    unfolding process process_from
    process-Working r p seq e d le lt w = record {
      log =
          handed-Log r.sink p r.st.gap_messages (sub64 r.expected_seq seq) d
            (omega (arith, e, d.fits, w.small)) (omega (arith, e, d.fits, w.small))
            (omega (arith, e, d.fits)) w.log;
      same_session = w.same_session;
      small = omega arith;
      start = w.start;
    }

    drain_loop-Inv :
        (ps : List (ℕ × List ℕ)) (r : MoldUdp64Receiver H)
        → AllHeld ps
        → (r.can_request ≡ false → ps ≡ [])
        → Working r
        → Inv (drain_loop decode_to ps r)
    unfolding drain_loop process
    drain_loop-Inv [] r h n w = record {
      working = Working-alike r _ refl refl refl refl refl w;
      held = tt;
      ahead = tt;
      bare = λ c. refl;
    }
    drain_loop-Inv ((seq, p) ∷ ps) r h n w =
        branch (ltb r.expected_seq seq)
          (λ t. record {
            working = Working-alike r _ refl refl refl refl refl w;
            held = h;
            ahead = ground arith;
            bare = n;
          })
          (λ t. elim (Bool-cases (ltb r.expected_seq (add64 seq (be16 p 18)))) [
            | inl u ↦ rw u (
                drain_loop-Inv ps _ h.2 (λ c. cc (n c))
                  (process-Working r p seq h.0 h.1 (ground arith) (ground arith) w))
            | inr u ↦ rw u (drain_loop-Inv ps r h.2 (λ c. cc (n c)) w)
          ])

    pub drain-Inv :
        (r : MoldUdp64Receiver H) (now : ℕ)
        → AllHeld r.pending
        → (r.can_request ≡ false → r.pending ≡ [])
        → Working r
        → Inv (drain decode_to r now)
    unfolding drain
    drain-Inv r now h n w =
        settle-Inv (drain_loop decode_to r.pending r) now (drain_loop-Inv r.pending r h n w)

    hold-Inv :
        (r : MoldUdp64Receiver H) (p : List ℕ) (seq now : ℕ)
        → seq ≡ be64 p 10
        → IsData p
        → r.expected_seq < seq
        → r.can_request ≡ true
        → Inv r
        → Inv (hold r p seq now)
    unfolding hold
    hold-Inv r p seq now e d lt asks v =
        branch r.recovering (λ t. v') (λ t. open_gap-Inv r' seq now v')
      where
        held : List (ℕ × List ℕ)
        held = if ltb (length r.pending) r.max_buffered then emplace seq p r.pending else r.pending

        r' : MoldUdp64Receiver H
        r' = record r {
          pending = held;
          st = record r.st {
            buffered_peak =
                if ltb r.st.buffered_peak (length held) then length held else r.st.buffered_peak;
          };
        }

        v' : Inv r'
        v' = record {
          working = Working-alike r r' refl refl refl refl refl v.working;
          held =
              either (λ ps. AllHeld ps) (ltb (length r.pending) r.max_buffered)
                (emplace-AllHeld seq p r.pending e d v.held) v.held;
          ahead =
              either (λ ps. Ahead ps r.expected_seq) (ltb (length r.pending) r.max_buffered)
                (emplace-Ahead seq p r.pending r.expected_seq lt v.ahead) v.ahead;
          bare = λ c. cc (c, asks);
        }

    pub on_data-Inv :
        (r : MoldUdp64Receiver H) (p : List ℕ) (seq now : ℕ)
        → seq ≡ be64 p 10
        → IsData p
        → Inv r
        → Inv (on_data decode_to r p seq now)
    unfolding on_data process process_from
    on_data-Inv r p seq now e d v =
        branch (leb end r.expected_seq) (λ t. Inv-alike r _ refl refl refl refl refl refl refl v)
          (λ t.
            branch (ltb r.expected_seq seq)
              (λ u.
                branch r.can_request (λ c. hold-Inv r p seq now e d (ground arith) c v)
                  (λ c. record {
                    working = record {
                      log =
                          handed-Log r.sink p _ 0 d (omega arith) (omega (arith, e))
                            (omega (arith, e, d.fits))
                            (Log-skip decode_to first r.sink r.st.gap_messages lo r.expected_seq seq
                              (ground arith) (omega (arith, e, d.fits)) v.working.log);
                      same_session = v.working.same_session;
                      small = omega arith;
                      start = v.working.start;
                    };
                    held = v.held;
                    ahead = subst (λ ps. Ahead ps end) (sym (v.bare c)) tt;
                    bare = v.bare;
                  }))
              (λ u.
                drain-Inv _ now v.held v.bare
                  (process-Working r p seq e d (ground arith) (ground arith) v.working)))
      where
        end : ℕ
        end = add64 seq (be16 p 18)
