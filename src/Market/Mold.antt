-- ===== src/Market/Mold.antt =====
-- `MoldUdp64Receiver` of src/market/sources.hpp and sources.cpp, without its socket: `on_packet`,
-- `tick` and what they call. The handler and `itch::decode` on it are the parameter `decode_to`; a
-- call of the re-request function is recorded in `requested`. `now` is the clock that the caller
-- passes, never 0.
pub mod Stream
pub mod InOrder
pub mod Session
mod Tests
use mathlib.Core.Option
use stok.Base.{
  ℕ, zero, suc, ◌+◌, ◌-◌, ◌*◌, ◌%◌, ◌^◌, Bool, true, false, ◌&&◌, ◌||◌, not, Option, none, some,
  List, [], ◌∷◌, ◌++◌, ltb, leb, ◌==◌, if◌then◌else◌, length, take, drop,
}
use stok.Market.Ladder.{add64}
use stok.Market.Itch.{be16, be64}

-- What `process` writes: the handler, the recorder, and two counters of `Stats`.
pub record Sink (H : Type 0) : Type 0 where
  pub handler : H
  pub recorder : Option (List (List ℕ))
  pub messages : ℕ
  pub bad : ℕ

-- The other counters.
pub record Stats : Type 0 where
  pub packets : ℕ
  pub heartbeats : ℕ
  pub gaps : ℕ
  pub gap_messages : ℕ
  pub dups : ℕ
  pub requests : ℕ
  pub recovered : ℕ
  pub gap_timeouts : ℕ
  pub buffered_peak : ℕ

pub record MoldUdp64Receiver (H : Type 0) : Type 0 where
  -- whether `request_fn_` is set
  pub can_request : Bool
  pub gap_timeout_ms : ℕ
  pub retry_ms : ℕ
  pub max_request : ℕ
  pub max_buffered : ℕ
  pub expected_seq : ℕ
  pub session : List ℕ
  pub ended : Bool
  pub recovering : Bool
  pub gap_since : ℕ
  pub gap_end : ℕ
  pub last_request : ℕ
  pub pending : List (ℕ × List ℕ)
  -- the calls of `request_fn_`, the last one first: sequence number and count
  pub requested : List (ℕ × ℕ)
  pub sink : Sink H
  pub st : Stats

-- `memcmp` of the session names.
pub same_bytes : List ℕ → List ℕ → Bool
same_bytes [] [] = true
same_bytes [] (y ∷ ys) = false
same_bytes (x ∷ xs) [] = false
same_bytes (x ∷ xs) (y ∷ ys) = let rest = same_bytes xs ys in (x == y) && rest

-- A subtraction of uint64_t.
abbrev pub sub64 : ℕ → ℕ → ℕ
sub64 a b = (a + (2 ^ 64 - b % 2 ^ 64)) % 2 ^ 64

-- `std::map::emplace`: the packets stay in the order of their numbers, and a number that is there
-- keeps its packet.
pub emplace : ℕ → List ℕ → List (ℕ × List ℕ) → List (ℕ × List ℕ)
emplace seq p [] = (seq, p) ∷ []
emplace seq p ((s, q) ∷ rest) =
    let later = emplace seq p rest in
    if seq == s
    then (s, q) ∷ rest
    else if ltb seq s
    then (seq, p) ∷ (s, q) ∷ rest
    else (s, q) ∷ later

module _ {H : Type 0} (decode_to : H → List ℕ → Bool × H) where
  -- The body of the loop of `process`: one message to the handler and to the recorder.
  pub deliver : Sink H → List ℕ → Sink H
  deliver s m =
      let (good, h) = decode_to s.handler m in
      record {
        handler = h;
        recorder = Option.map (λ log. log ++ (m ∷ [])) s.recorder;
        messages = add64 s.messages 1;
        bad = if good then s.bad else add64 s.bad 1;
      }

  abbrev pub truncated : Sink H → Sink H
  truncated s = record s { bad = add64 s.bad 1 }

  -- The loop of `process` with `left` messages to go; `rest` is the packet from `off` on.
  pub process_from : ℕ → ℕ → ℕ → List ℕ → Sink H → Sink H
  unfolding deliver
  process_from zero i skip rest s = s
  process_from (suc left) i skip rest s =
      let mlen = be16 rest 0 in
      let body = drop 2 rest in
      let s' = if leb skip i then deliver s (take mlen body) else s in
      let more = process_from left (i + 1) skip (drop mlen body) s' in
      if ltb (length rest) 2
      then truncated s
      else if ltb (length body) mlen
      then truncated s
      else more

  abbrev pub process : MoldUdp64Receiver H → List ℕ → ℕ → MoldUdp64Receiver H
  unfolding process_from
  process r p skip = record r { sink = process_from (be16 p 18) 0 skip (drop 20 p) r.sink }

abbrev first_pending : List (ℕ × List ℕ) → ℕ → ℕ
first_pending [] end = end
first_pending ((s, q) ∷ rest) end = s

module _ {H : Type 0} where
  pub request_gap : MoldUdp64Receiver H → ℕ → MoldUdp64Receiver H
  request_gap r now =
      let end = first_pending r.pending r.gap_end in
      let want = sub64 end r.expected_seq in
      let count = (if ltb want r.max_request then want else r.max_request) % 2 ^ 16 in
      if not r.can_request || leb end r.expected_seq then r else record r {
        requested = (r.expected_seq, count) ∷ r.requested;
        last_request = now;
        st = record r.st { requests = add64 r.st.requests 1 };
      }

  -- A gap is seen: `seq` is the first number known to exist after it.
  pub open_gap : MoldUdp64Receiver H → ℕ → ℕ → MoldUdp64Receiver H
  unfolding request_gap
  open_gap r seq now =
      request_gap
        record r {
          recovering = true;
          gap_since = now;
          gap_end = seq;
          last_request = 0;
          st = record r.st { gaps = add64 r.st.gaps 1 };
        }
        now

  -- The end of `drain`, behind its loop.
  pub settle : MoldUdp64Receiver H → ℕ → MoldUdp64Receiver H
  unfolding request_gap
  settle r now =
      if length r.pending == 0
      then record r {
        recovering = false;
        st = record r.st {
          recovered = if r.recovering then add64 r.st.recovered 1 else r.st.recovered;
        };
      }
      else if r.recovering
      then request_gap r now
      else r

  -- A new session: the receiver starts again from its packet.
  pub resync : MoldUdp64Receiver H → List ℕ → MoldUdp64Receiver H
  unfolding same_bytes
  resync r p =
      if same_bytes r.session (take 10 p)
      then r
      else record r { session = take 10 p; expected_seq = 0; pending = []; recovering = false }

  pub heartbeat : MoldUdp64Receiver H → ℕ → ℕ → MoldUdp64Receiver H
  unfolding open_gap
  heartbeat r0 seq now =
      let r = record r0 { st = record r0.st { heartbeats = add64 r0.st.heartbeats 1 } } in
      if r.expected_seq == 0
      then record r { expected_seq = seq }
      else if ltb r.expected_seq seq && r.can_request && not r.recovering
      then open_gap r seq now
      else r

  -- A packet ahead of a gap is held, and the gap asked for.
  pub hold : MoldUdp64Receiver H → List ℕ → ℕ → ℕ → MoldUdp64Receiver H
  unfolding open_gap emplace
  hold r p seq now =
      let held =
        if ltb (length r.pending) r.max_buffered then emplace seq p r.pending else r.pending in
      let r' = record r {
        pending = held;
        st = record r.st {
          buffered_peak =
              if ltb r.st.buffered_peak (length held) then length held else r.st.buffered_peak;
        };
      } in
      if r.recovering then r' else open_gap r' seq now

module _ {H : Type 0} (decode_to : H → List ℕ → Bool × H) where
  -- The loop of `drain` over the packets that are held.
  pub drain_loop : List (ℕ × List ℕ) → MoldUdp64Receiver H → MoldUdp64Receiver H
  drain_loop [] r = record r { pending = [] }
  drain_loop ((seq, p) ∷ ps) r =
      let end = add64 seq (be16 p 18) in
      let r' =
        if ltb r.expected_seq end
        then record (process decode_to r p (sub64 r.expected_seq seq)) { expected_seq = end }
        else r in
      let more = drain_loop ps r' in
      if ltb r.expected_seq seq then record r { pending = (seq, p) ∷ ps } else more

  pub drain : MoldUdp64Receiver H → ℕ → MoldUdp64Receiver H
  unfolding drain_loop settle
  drain r now = settle (drain_loop r.pending r) now

  -- `on_packet` from the test for a gap on.
  pub on_data : MoldUdp64Receiver H → List ℕ → ℕ → ℕ → MoldUdp64Receiver H
  unfolding drain hold
  on_data r p seq now =
      let end = add64 seq (be16 p 18) in
      if leb end r.expected_seq
      then record r { st = record r.st { dups = add64 r.st.dups 1 } }
      else if ltb r.expected_seq seq
      then (if r.can_request then hold r p seq now else record (process decode_to r p 0) {
        expected_seq = end;
        st = record r.st {
          gaps = add64 r.st.gaps 1;
          gap_messages = add64 r.st.gap_messages (sub64 seq r.expected_seq);
        };
      })
      else drain (record (process decode_to r p (sub64 r.expected_seq seq)) { expected_seq = end })
          now

  -- `on_packet` behind the test of the session.
  pub on_block : MoldUdp64Receiver H → List ℕ → ℕ → MoldUdp64Receiver H
  unfolding on_data heartbeat
  on_block r p now =
      let seq = be64 p 10 in
      let count = be16 p 18 in
      if count == 65535
      then record r { ended = true }
      else if count == 0
      then heartbeat r seq now
      else on_data (if r.expected_seq == 0 then record r { expected_seq = seq } else r) p seq now

  pub on_packet : MoldUdp64Receiver H → List ℕ → ℕ → MoldUdp64Receiver H
  unfolding on_block resync
  on_packet r p now =
      if ltb (length p) 20
      then record r { sink = truncated decode_to r.sink }
      else on_block (resync (record r { st = record r.st { packets = add64 r.st.packets 1 } }) p) p
          now

  -- `tick` when the gap has been open for too long; the first packet that is held says where to go on.
  pub give_up : List (ℕ × List ℕ) → MoldUdp64Receiver H → ℕ → MoldUdp64Receiver H
  unfolding drain
  give_up [] r now = record r { recovering = false }
  give_up ((seq, p) ∷ ps) r now =
      drain
        record r {
          expected_seq = seq;
          gap_since = now;
          st = record r.st { gap_messages = add64 r.st.gap_messages (sub64 seq r.expected_seq) };
        }
        now

  pub tick : MoldUdp64Receiver H → ℕ → MoldUdp64Receiver H
  unfolding give_up
  tick r now =
      if not r.recovering
      then r
      else if ltb (r.gap_timeout_ms * 1_000_000) (sub64 now r.gap_since)
      then give_up r.pending
          (record r { st = record r.st { gap_timeouts = add64 r.st.gap_timeouts 1 } }) now
      else if ltb (r.retry_ms * 1_000_000) (sub64 now r.last_request)
      then request_gap r now
      else r
