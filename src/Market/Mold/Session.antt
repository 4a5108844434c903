-- ===== src/Market/Mold/Session.antt =====
-- A run of the receiver within one session: packets and ticks in any order.
use mathlib.Core.Option
use mathlib.Core.Path.{subst}
use stok.Base.{
  ℕ, zero, suc, ◌-◌, ◌*◌, ◌^◌, ◌≤◌, ◌<◌, ◌≡◌, ◌≢◌, refl, sym, ◌∙◌, ap, Bool, true, false, ◌&&◌, not,
  List, [], ◌∷◌, ◌++◌, map, arith, ltb, ◌==◌, length, take,
}
use stok.Market.Ladder.{add64}
use stok.Market.Itch.{be16, be64}
use stok.Market.Mold.{
  Sink, MoldUdp64Receiver, same_bytes, sub64, resync, heartbeat, on_block, on_packet, give_up, tick,
}
use stok.Market.Mold.Stream.{Rises, Rises-le, Log, hand_on, recorded_nothing}
use stok.Market.Mold.InOrder.{
  same_bytes_self, Ahead, Log-skip, IsData, AllHeld, Inv, Inv-alike, branch, request_gap-Inv,
  open_gap-Inv, drain-Inv, on_data-Inv,
}

-- A packet from the socket, or a call of `tick`, with the clock.
pub data Event : Type 0 where
  packet : (bytes : List ℕ) (now : ℕ) → Event
  timer : (now : ℕ) → Event

unfoldable pub react :
    {H : Type 0} → (H → List ℕ → Bool × H) → MoldUdp64Receiver H → Event → MoldUdp64Receiver H
unfolding on_packet tick
react decode_to r (packet p now) = on_packet decode_to r p now
react decode_to r (timer now) = tick decode_to r now

unfoldable pub run :
    {H : Type 0} → (H → List ℕ → Bool × H) → MoldUdp64Receiver H → List Event → MoldUdp64Receiver H
run decode_to r [] = r
run decode_to r (e ∷ es) = run decode_to (react decode_to r e) es

module _ (msg : ℕ → List ℕ) (name : List ℕ) where
  -- A packet of the session: too short, its end, or a piece of its stream.
  pub record IsPacket (p : List ℕ) : Type 0 where
    pub named : 20 ≤ length p → take 10 p ≡ name
    pub carries : 20 ≤ length p → be16 p 18 ≢ 65535 → IsData msg p

  abbrev pub AllPackets : List Event → Type 0
  AllPackets [] = Unit {0}
  AllPackets (packet p now ∷ es) = IsPacket p × AllPackets es
  AllPackets (timer now ∷ es) = AllPackets es

  module _ {H : Type 0} (decode_to : H → List ℕ → Bool × H) (lo : ℕ) (first : Sink H) where
    abbrev Good : MoldUdp64Receiver H → Type 0
    Good r = Inv msg decode_to name lo first r

    started : (r : MoldUdp64Receiver H) → Good r → (r.expected_seq == 0) ≡ false
    started r v = ground (
      arith,
      v.working.start,
      Rises-le lo v.working.log.numbers r.expected_seq v.working.log.rises,
    )

    heartbeat-Inv : (r : MoldUdp64Receiver H) (seq now : ℕ) → Good r → Good (heartbeat r seq now)
    unfolding heartbeat
    heartbeat-Inv r seq now v =
        branch msg decode_to name lo first (r.expected_seq == 0) (λ t. absurd (cc (t, started r v)))
          (λ t.
            branch msg decode_to name lo first
              (ltb r.expected_seq seq && r.can_request && not r.recovering)
              (λ u. open_gap-Inv msg decode_to name lo first beat seq now v') (λ u. v'))
      where
        beat : MoldUdp64Receiver H
        beat = record r { st = record r.st { heartbeats = add64 r.st.heartbeats 1 } }

        v' : Good beat
        v' = Inv-alike msg decode_to name lo first r beat refl refl refl refl refl refl refl v

    resync-Inv :
        (r : MoldUdp64Receiver H) (p : List ℕ) → take 10 p ≡ name → Good r → Good (resync r p)
    unfolding resync
    resync-Inv r p e v =
        branch msg decode_to name lo first (same_bytes r.session (take 10 p)) (λ t. v)
          (λ t. absurd (cc (t, same)))
      where
        same : same_bytes r.session (take 10 p) ≡ true
        same =
            subst (λ n. same_bytes n (take 10 p) ≡ true) (e ∙ sym v.working.same_session)
              (same_bytes_self (take 10 p))

    on_block-Inv :
        (r : MoldUdp64Receiver H) (p : List ℕ) (now : ℕ)
        → (be16 p 18 ≢ 65535 → IsData msg p)
        → Good r
        → Good (on_block decode_to r p now)
    unfolding on_block
    on_block-Inv r p now d v =
        branch msg decode_to name lo first (be16 p 18 == 65535)
          (λ t. Inv-alike msg decode_to name lo first r _ refl refl refl refl refl refl refl v)
          (λ t.
            branch msg decode_to name lo first (be16 p 18 == 0)
              (λ u. heartbeat-Inv r (be64 p 10) now v)
              (λ u. rw (started r v) (
                on_data-Inv msg decode_to name lo first r p (be64 p 10) now refl (d (ground arith))
                  v)))

    on_packet-Inv :
        (r : MoldUdp64Receiver H) (p : List ℕ) (now : ℕ)
        → IsPacket p
        → Good r
        → Good (on_packet decode_to r p now)
    unfolding on_packet
    on_packet-Inv r p now k v =
        branch msg decode_to name lo first (ltb (length p) 20)
          (λ t. Inv-alike msg decode_to name lo first r _ refl refl refl refl refl refl refl v)
          (λ t. on_block-Inv (resync counted p) p now (k.carries (ground arith)) (
            resync-Inv counted p (k.named (ground arith)) (
              Inv-alike msg decode_to name lo first r counted refl refl refl refl refl refl refl
                v)))
      where
        counted : MoldUdp64Receiver H
        counted = record r { st = record r.st { packets = add64 r.st.packets 1 } }

    give_up-Inv :
        (ps : List (ℕ × List ℕ)) (r : MoldUdp64Receiver H) (now : ℕ)
        → r.pending ≡ ps
        → Good r
        → Good (give_up decode_to ps r now)
    unfolding give_up
    give_up-Inv [] r now e v =
        Inv-alike msg decode_to name lo first r _ refl refl refl refl refl refl refl v
    give_up-Inv ((seq, p) ∷ ps) r now e v =
        let (key, d, more) = subst (λ qs. AllHeld msg qs) e v.held in
        let later : r.expected_seq < seq = subst (λ qs. Ahead qs r.expected_seq) e v.ahead in
        drain-Inv msg decode_to name lo first _ now v.held v.bare record {
          log =
              Log-skip msg decode_to first r.sink r.st.gap_messages lo r.expected_seq seq
                (omega (arith, later)) (omega (arith, key, d.fits)) v.working.log;
          same_session = v.working.same_session;
          small = omega (arith, key, d.fits);
          start = v.working.start;
        }

    tick-Inv : (r : MoldUdp64Receiver H) (now : ℕ) → Good r → Good (tick decode_to r now)
    unfolding tick
    tick-Inv r now v =
        branch msg decode_to name lo first (not r.recovering) (λ t. v)
          (λ t.
            branch msg decode_to name lo first
              (ltb (r.gap_timeout_ms * 1_000_000) (sub64 now r.gap_since))
              (λ u.
                give_up-Inv r.pending late now refl (
                  Inv-alike msg decode_to name lo first r late refl refl refl refl refl refl refl
                    v))
              (λ u.
                branch msg decode_to name lo first
                  (ltb (r.retry_ms * 1_000_000) (sub64 now r.last_request))
                  (λ w. request_gap-Inv msg decode_to name lo first r now v) (λ w. v)))
      where
        late : MoldUdp64Receiver H
        late = record r { st = record r.st { gap_timeouts = add64 r.st.gap_timeouts 1 } }

    run-Inv :
        (r : MoldUdp64Receiver H) (es : List Event)
        → AllPackets es
        → Good r
        → Good (run decode_to r es)
    unfolding run react
    run-Inv r [] k v = v
    run-Inv r (packet p now ∷ es) k v =
        run-Inv (on_packet decode_to r p now) es k.1 (on_packet-Inv r p now k.0 v)
    run-Inv r (timer now ∷ es) k v = run-Inv (tick decode_to r now) es k (tick-Inv r now v)

-- The `n` numbers from `lo` on.
abbrev pub numbers_from : ℕ → ℕ → List ℕ
numbers_from lo zero = []
numbers_from lo (suc n) = lo ∷ numbers_from (suc lo) n

Rises-length : (lo : ℕ) (ns : List ℕ) (hi : ℕ) → Rises lo ns hi → length ns ≤ hi - lo
Rises-length lo [] hi h = omega arith
Rises-length lo (n ∷ ns) hi h =
    omega (arith, h.0, Rises-length (suc n) ns hi h.1, Rises-le (suc n) ns hi h.1)

-- Rising numbers, as many as fit, leave none out.
Rises-full :
    (lo : ℕ) (ns : List ℕ) (hi n : ℕ)
    → Rises lo ns hi
    → length ns ≡ n
    → n ≡ hi - lo
    → ns ≡ numbers_from lo n
Rises-full lo [] hi zero h e f = refl
Rises-full lo [] hi (suc n) h e f = absurd (omega (arith, e))
Rises-full lo (m ∷ ns) hi zero h e f = absurd (omega (arith, e))
Rises-full lo (m ∷ ns) hi (suc n) h e f =
    let first : m ≡ lo =
      omega (arith, h.0, Rises-length (suc m) ns hi h.1, Rises-le (suc m) ns hi h.1, e, f) in
    let more : ns ≡ numbers_from (suc m) n =
      Rises-full (suc m) ns hi n h.1 (omega (arith, e)) (omega (arith, first, f)) in
    rw (more, first)

-- A receiver that follows the session, with no gap so far.
pub record IsJoined {H : Type 0} (name : List ℕ) (r : MoldUdp64Receiver H) : Type 0 where
  pub same_session : r.session ≡ name
  pub started : 1 ≤ r.expected_seq
  pub small : r.expected_seq < 2 ^ 64
  pub none_held : r.pending ≡ []
  pub no_gap : r.st.gap_messages ≡ 0

-- Whatever packets of a session arrive, in whatever order, repeated, overlapping or missing, and
-- whenever the timer runs: what a joined receiver hands to the handler and to the recorder are messages
-- of the stream with rising sequence numbers, from the expected number at the start on and below the
-- expected number at the end, and together with those counted as gap messages they are all that lie
-- between.
pub run-Log :
    (msg : ℕ → List ℕ) (name : List ℕ) {H : Type 0} (decode_to : H → List ℕ → Bool × H)
    (r : MoldUdp64Receiver H) (es : List Event)
    → IsJoined name r
    → AllPackets msg name es
    → Log msg decode_to r.sink
        (run decode_to r es).sink
        (run decode_to r es).st.gap_messages
        r.expected_seq
        (run decode_to r es).expected_seq
run-Log msg name decode_to r es j k =
    (run-Inv msg name decode_to r.expected_seq r.sink r es k record {
      working = record {
        log = record {
          numbers = [];
          handled = refl;
          logged = recorded_nothing r.sink.recorder;
          rises = omega arith;
          balance = omega (arith, j.no_gap);
        };
        same_session = j.same_session;
        small = j.small;
        start = j.started;
      };
      held = subst (λ ps. AllHeld msg ps) (sym j.none_held) tt;
      ahead = subst (λ ps. Ahead ps r.expected_seq) (sym j.none_held) tt;
      bare = λ c. j.none_held;
    }).working.log

-- If a joined receiver takes any packets of its session and timer calls in any order, and ends with no
-- gap message counted, the handler has had every message from the expected number at the start to the
-- one at the end, each once and in order, and so has the recorder, if there is one.
pub run_complete :
    (msg : ℕ → List ℕ) (name : List ℕ) {H : Type 0} (decode_to : H → List ℕ → Bool × H)
    (r : MoldUdp64Receiver H) (es : List Event) {sent : List (List ℕ)}
    → IsJoined name r
    → AllPackets msg name es
    → (run decode_to r es).st.gap_messages ≡ 0
    → map msg (numbers_from r.expected_seq ((run decode_to r es).expected_seq - r.expected_seq))
      ≡ sent
    → ((run decode_to r es).sink.handler ≡ hand_on decode_to r.sink.handler sent)
      × ((run decode_to r es).sink.recorder ≡ Option.map (λ log. log ++ sent) r.sink.recorder)
run_complete msg name decode_to r es {sent} j k z e =
    let v = run-Log msg name decode_to r es j k in
    let all : map msg v.numbers ≡ sent =
      ap (map msg) (
        Rises-full r.expected_seq v.numbers (run decode_to r es).expected_seq
          ((run decode_to r es).expected_seq - r.expected_seq) v.rises (omega (arith, v.balance, z))
          refl)
      ∙ e in
    (
      v.handled ∙ ap (hand_on decode_to r.sink.handler) all,
      v.logged ∙ ap (λ ms. Option.map (λ log. log ++ ms) r.sink.recorder) all,
    )
