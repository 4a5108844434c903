-- ===== src/Lib.antt =====
-- A model of stok, the C++ daemon that follows an exchange feed and trades on news, with theorems about
-- it: the market data from packet to price ladder, the HTTP responses that bring the news, dates and
-- times, and the paper trader that acts on signals.
--
-- The feed comes in as MoldUDP64 packets (src/market/sources.hpp), whose messages are decoded
-- (src/market/itch.hpp) and go to the handlers of the order book (src/market/itch_book.hpp). The book
-- keeps the resting orders in a hash map, sums them per price in two ladders for each symbol
-- (src/market/level_book.hpp), writes trades and the top of book to a board that other threads read
-- (src/market/board.hpp), and sends halts to the engine through a ring (src/core/spsc_queue.hpp). News
-- comes in over HTTP (src/net/http.cpp), with dates that src/util/time.cpp reads. The paper trader
-- (src/engine/paper.cpp) turns the engine's signals into positions at the board's prices.
--
-- Base           shared names: native numbers, lists, tests, integers, masks
-- Core.Spsc      `SpscQueue<T>` and `next_pow2`. Pow2: the rounding of the capacity. Window, Valid and
--                Contents: the invariant and what the ring holds. Threads: the producer and the
--                consumer as a step relation, in which each atomic access is one step. Safety: what
--                holds of every reachable state.
-- Core.Histogram `LatencyHistogram` (src/core/histogram.hpp). Precision: the bound of a bucket. Merge:
--                `merge` against `record`.
-- Core.Hash      src/core/hash.hpp.
-- Core.Flat      `FlatMap64` and `FlatSet64` (src/core/flat_hash.hpp). Cycle: distances between slots.
--                Slots: the slots as a map. Probing, Placed, Holed, Shifting, Refilling: the loops, and
--                the order of the slots that they keep. Methods, Inserting, Erasing, Entries: the
--                members. Running: sequences of calls against a function from keys to values.
-- Core.Seqlock   `SeqLocked` (src/core/seqlock.hpp), a writer and a reader as a step relation. Safety:
--                what the reader returns. Load: a reader that no write overlaps.
-- Core.Mpsc      `MpscQueue` (src/core/mpsc_queue.hpp), its producers and its consumer as a step relation.
--                Window and Inv: positions, and what holds between steps. Producer and Consumer: each
--                step keeps it. Safety: the order of what is received.
-- Market.Ladder  `SideLadder` and `LevelBook`. Spec: raising and lowering one price in a sorted list.
--                Sorted and Refine: the invariant, and the ladder as a function of the price.
-- Market.Board   `MarketBoard`, `MarketState`, `MarketHot`, `MinuteBar`. Trades and Range: the day's
--                figures against the list of prints.
-- Market.Itch    `itch::decode` and the encoders of the order messages. RoundTrip: each against the
--                other.
-- Market.Orders  what the book asks of its order map (the interface `OrderTable`). Sums and Flat:
--                `FlatMap64<Order>` with its own methods keeps the laws. Slots: a plain implementation,
--                on which the book runs in the tests.
-- Market.Book    `ItchBook`, over an order map. Sides: where a write to one ladder shows. Agreement:
--                the ladders agree with the resting orders. Handlers, Messages, Feed: every handler
--                keeps that. History: a whole feed. Flat: the book on `FlatMap64`.
-- Market.Mold    `MoldUdp64Receiver`, over a handler. Stream: the stream of a session, and what
--                `process` hands on of a packet. InOrder: gaps, held packets and recovery. Session: a
--                run of packets and timer calls.
-- Util.Ascii     bytes as text (src/core/ascii.hpp) and the searches of `std::string_view`.
-- Util.Time      src/util/time.hpp and time.cpp: civil dates, weekdays and US Eastern time. Cursor,
--                Zone and Parse: the parsers of dates. Format: dates as text. Civil and Eastern: the
--                theorems about dates. RoundTrip and Iso: `parse_iso8601` against `format_utc_iso`.
-- Net.Chunked    `ResponseParser::parse_chunked` (src/net/http.cpp). Total: its termination. Resume:
--                input in pieces.
-- Net.Response   `ResponseParser`. Head: `parse_headers`. Feed: `feed`, with Total (its termination),
--                Resume, Pieces and Whole (input in pieces).
-- Net.Url        `parse_url` (src/net/url.cpp). Parts: the parts of the URLs that it accepts.
-- Engine         Signal: the records of src/engine/signals.hpp. Paper: `PaperTrader`
--                (src/engine/paper.hpp, paper.cpp), over the parameter `Double`. Step: fills and exits.
--                Count, Ledger and Run: the books of a run of calls. Halt: a halted stock. Watches: the
--                pool of watched stories and the cooldown of the tiers (src/engine/engine.cpp). Valid
--                and Evict: the pool kept whole. Cooldown and Reference: the calls that are let through.
--
-- State is passed explicitly: a method that changes its object is a function that returns it. A uint32_t
-- or uint64_t is a natural number whose wrap-around is written out where the code adds or subtracts,
-- but for `size_` and the capacity of the hash map, which count slots in memory. An int or int64_t is an
-- integer, cut to its width where the code casts to it;
-- a read past a vector's end, which the code never does, yields 0 or changes nothing. A text is the list
-- of its bytes, and a cursor in it what is left of it. A `double` is a value of the parameter `Double`,
-- of whose arithmetic nothing is assumed. What the board shows of a symbol is a function that each call
-- of the paper trader is given.
--
-- Fuel: `next_pow2` runs on 64 rounds, one for each bit of a word. The loop over a chunked body runs on two
-- rounds for each byte and two more, since each round but the one that ends a chunk's bytes moves on by two
-- bytes or more; `feed` on a round for each byte and three more, since each round that goes on has found a
-- header block further on; the loop over header lines on a line for each byte. The loop of `drain` is a
-- recursion on the packets that are held. The loops of the hash map run on a round for each slot, from
-- a map that is never full; where the fuel ran out, its operations would answer `none`.
--
-- Not modelled: the JSON and XML parsers, requests, the resolution of links, connections,
-- the inflater, the scorer, the engine's handling of news and halts and its tests of the tiers, the
-- reference data, sockets, files, threads, logging, configuration, the results of arithmetic in double
-- precision, and the programs that put the parts together. The order book takes its order map as the
-- interface `OrderTable`, which `FlatMap64` implements, and the engine its maps as functions from keys to
-- values.
pub mod Base
pub mod Core
pub mod Engine
pub mod Market
pub mod Net
pub mod Util
