-- ===== src/Market/Mold/Tests.antt =====
-- A receiver on two packets that arrive in the wrong order.
use stok.Base.{ℕ, ◌≡◌, refl, Bool, true, false, some, List, [], ◌∷◌, ◌++◌, arith, replicate}
use stok.Market.Itch.{be16, be32, be64}
use stok.Market.Mold.{
  MoldUdp64Receiver, deliver, process_from, process, same_bytes, emplace, request_gap, open_gap,
  settle, resync, heartbeat, hold, drain_loop, drain, on_data, on_block, on_packet, give_up, tick,
}
use stok.Market.Mold.Stream.{Log}
use stok.Market.Mold.Session.{
  Event, packet, timer, react, run, IsPacket, AllPackets, IsJoined, run-Log, run_complete,
}

abbrev name : List ℕ
name = replicate 10 b'S'

-- Every message of the stream is one byte, its number.
abbrev byte_of : ℕ → List ℕ
byte_of n = n ∷ []

abbrev one_message : ℕ → List ℕ
one_message seq = name ++ (0 ∷ 0 ∷ 0 ∷ 0 ∷ 0 ∷ 0 ∷ 0 ∷ seq ∷ 0 ∷ 1 ∷ 0 ∷ 1 ∷ seq ∷ [])

abbrev accept : List (List ℕ) → List ℕ → Bool × List (List ℕ)
accept h m = (true, m ∷ h)

abbrev joined : MoldUdp64Receiver (List (List ℕ))
joined = record {
  can_request = true;
  gap_timeout_ms = 250;
  retry_ms = 50;
  max_request = 1000;
  max_buffered = 20000;
  expected_seq = 7;
  session = name;
  ended = false;
  recovering = false;
  gap_since = 0;
  gap_end = 0;
  last_request = 0;
  pending = [];
  requested = [];
  sink = record { handler = []; recorder = some []; messages = 0; bad = 0 };
  st = record {
    packets = 0;
    heartbeats = 0;
    gaps = 0;
    gap_messages = 0;
    dups = 0;
    requests = 0;
    recovered = 0;
    gap_timeouts = 0;
    buffered_peak = 0;
  };
}

abbrev swapped : List Event
swapped = packet (one_message 8) 100 ∷ timer 150 ∷ packet (one_message 7) 200 ∷ []

one_message-IsPacket_7 : IsPacket byte_of name (one_message 7)
unfolding be16 be32 be64
one_message-IsPacket_7 = record {
  named = λ h. refl;
  carries = λ h n. record { blocks = (omega arith, omega arith, refl, tt); fits = omega arith };
}

one_message-IsPacket_8 : IsPacket byte_of name (one_message 8)
unfolding be16 be32 be64
one_message-IsPacket_8 = record {
  named = λ h. refl;
  carries = λ h n. record { blocks = (omega arith, omega arith, refl, tt); fits = omega arith };
}

swapped-AllPackets : AllPackets byte_of name swapped
swapped-AllPackets = (one_message-IsPacket_8, (one_message-IsPacket_7, tt))

joined-IsJoined : IsJoined name joined
joined-IsJoined = record {
  same_session = refl;
  started = omega arith;
  small = omega arith;
  none_held = refl;
  no_gap = refl;
}

-- The gap is asked for once, and both messages are handed on.
requested-swapped :
    ((run accept joined swapped).requested ≡ (7, 1) ∷ [])
    × ((run accept joined swapped).expected_seq ≡ 9)
    × ((run accept joined swapped).st.gap_messages ≡ 0)
unfolding run react on_packet on_block on_data resync same_bytes hold emplace open_gap request_gap
    drain drain_loop settle process process_from deliver tick give_up heartbeat be16 be32 be64
requested-swapped = (refl, refl, refl)

run-Log_example :
    Log byte_of accept joined.sink
      (run accept joined swapped).sink
      (run accept joined swapped).st.gap_messages
      7
      (run accept joined swapped).expected_seq
run-Log_example = run-Log byte_of name accept joined swapped joined-IsJoined swapped-AllPackets

run_complete_example :
    ((run accept joined swapped).sink.handler ≡ (8 ∷ []) ∷ (7 ∷ []) ∷ [])
    × ((run accept joined swapped).sink.recorder ≡ some ((7 ∷ []) ∷ (8 ∷ []) ∷ []))
unfolding run react on_packet on_block on_data resync same_bytes hold emplace open_gap request_gap
    drain drain_loop settle process process_from deliver tick give_up heartbeat be16 be32 be64
run_complete_example =
    run_complete byte_of name accept joined swapped {sent = (7 ∷ []) ∷ (8 ∷ []) ∷ []}
      joined-IsJoined swapped-AllPackets refl refl
