-- ===== src/Core/Flat/Running.antt =====
-- The constructor, `clear`, and any sequence of calls on a map, against a function from keys to
-- values.
use stok.Base.{
  ℕ, zero, suc, ◌^◌, ◌≤◌, ◌<◌, ◌≡◌, ◌≢◌, refl, sym, Bool, not, ◌∙◌, ap, Option, none, some, List,
  [], ◌∷◌, arith, ltb, ◌==◌, if◌then◌else◌, ◌>>=◌, length,
}
use stok.Core.Spsc.Pow2.{next_pow2-IsPow2Above}
use stok.Core.Flat.{
  empty_key, Slot, FlatMap64, is_some, key_at, make, find, try_emplace, insert_or_assign, erase,
  cleared, clear,
}
use stok.Core.Flat.Slots.{count, view, view-Absent}
use stok.Core.Flat.Refilling.{or_else, rehash-Rehashed}
use stok.Core.Flat.Methods.{IsValid, deref, find-view}
use stok.Core.Flat.Inserting.{try_emplace-Emplaced, insert_or_assign-Assigned}
use stok.Core.Flat.Erasing.{erase-Erased}

-- A call, with its arguments, and what it returns; a pointer is read at once.
pub data Call {ℓ} (V : Type ℓ) : Type ℓ where
  look : ℕ → Call V
  emplace : ℕ → Call V
  assign : ℕ → V → Call V
  remove : ℕ → Call V
  reset : Call V

pub data Reply {ℓ} (V : Type ℓ) : Type ℓ where
  value : Option V → Reply V
  flag : Bool → Reply V
  nothing : Reply V

-- A key other than the marker.
abbrev pub IsReal {ℓ} : {V : Type ℓ} → Call V → Type 0
IsReal (look k) = k ≢ empty_key
IsReal (emplace k) = k ≢ empty_key
IsReal (assign k v) = k ≢ empty_key
IsReal (remove k) = k ≢ empty_key
IsReal reset = Unit

abbrev pub AllReal {ℓ} : {V : Type ℓ} → List (Call V) → Type 0
AllReal [] = Unit
AllReal (c ∷ cs) = IsReal c × AllReal cs

module _ {ℓ} {V : Type ℓ} (blank : V) where
  unfoldable pub call : (ℕ → ℕ) → FlatMap64 V → Call V → Option (FlatMap64 V × Reply V)
  unfolding find try_emplace insert_or_assign erase clear
  call load m (look k) = do p ← find blank m k; some (m, value (deref blank m.slots p))
  call load m (emplace k) = do
    (r, i, inserted) ← try_emplace blank load m k
    some (r, flag inserted)
  call load m (assign k v) = do
    (r, i) ← insert_or_assign blank load m k v
    some (r, value (deref blank r.slots (some i)))
  call load m (remove k) = do (r, found) ← erase blank m k; some (r, flag found)
  call load m reset = some (clear blank m, nothing)

  unfoldable pub calls :
      (ℕ → ℕ) → FlatMap64 V → List (Call V) → Option (FlatMap64 V × List (Reply V))
  unfolding call
  calls load m [] = some (m, [])
  calls load m (c ∷ cs) = do
    (r, reply) ← call load m c
    (last, replies) ← calls load r cs
    some (last, reply ∷ replies)

  -- The same on a function from keys to values.
  abbrev pub update : (ℕ → Option V) → ℕ → Option V → ℕ → Option V
  update f k v q = if q == k then v else f q

  unfoldable pub after : (ℕ → Option V) → Call V → ℕ → Option V
  after f (look k) = f
  after f (emplace k) = update f k (or_else (f k) (some blank))
  after f (assign k v) = update f k (some v)
  after f (remove k) = update f k none
  after f reset = λ q. none

  unfoldable pub reply_of : (ℕ → Option V) → Call V → Reply V
  reply_of f (look k) = value (f k)
  reply_of f (emplace k) = flag (not (is_some (f k)))
  reply_of f (assign k v) = value (some v)
  reply_of f (remove k) = flag (is_some (f k))
  reply_of f reset = nothing

  unfoldable pub after_all : (ℕ → Option V) → List (Call V) → ℕ → Option V
  unfolding after
  after_all f [] = f
  after_all f (c ∷ cs) = after_all (after f c) cs

  unfoldable pub replies_of : (ℕ → Option V) → List (Call V) → List (Reply V)
  unfolding after reply_of
  replies_of f [] = []
  replies_of f (c ∷ cs) = reply_of f c ∷ replies_of (after f c) cs

  -- A valid map that holds what `f` says.
  pub record Models (f : ℕ → Option V) (m : FlatMap64 V) : Type ℓ where
    pub valid : IsValid blank m
    pub reads : (q : ℕ) → q ≢ empty_key → view m.slots q ≡ f q

  length-cleared : (s : List (Slot V)) → length (cleared blank s) ≡ length s
  unfolding cleared
  length-cleared [] = refl
  length-cleared (x ∷ s) = ap suc (length-cleared s)

  count-cleared : (s : List (Slot V)) → count (cleared blank s) ≡ 0
  unfolding cleared
  count-cleared [] = refl
  count-cleared (x ∷ s) = omega (arith, count-cleared s)

  key_at-cleared : (s : List (Slot V)) (i : ℕ) → key_at blank (cleared blank s) i ≡ empty_key
  unfolding cleared
  key_at-cleared [] i = refl
  key_at-cleared (x ∷ s) zero = refl
  key_at-cleared (x ∷ s) (suc i) = key_at-cleared s i

  clear-Models : (m : FlatMap64 V) → IsValid blank m → Models (λ q. none) (clear blank m)
  unfolding clear
  clear-Models m inv =
      let width = length-cleared m.slots in
      record {
        valid = record {
          placed = record {
            ring = rw width inv.placed.ring;
            unique = λ i j a b held e. absurd (held (key_at-cleared m.slots i));
            reach = λ i j a b held near. absurd (held (key_at-cleared m.slots i));
          };
          counted = count-cleared m.slots;
          room = omega (arith, inv.room);
          limit = omega (arith, inv.limit);
        };
        reads = λ q real.
            (view-Absent blank (cleared blank m.slots) q
              (λ i a e. (real (sym e ∙ key_at-cleared m.slots i))));
      }

  module _ (load : ℕ → ℕ) (below : (c : ℕ) → 0 < c → load c < c) where
    pub make-Models :
        (capacity : ℕ)
        → capacity ≤ 2 ^ 63
        → (m : FlatMap64 V) × (make blank load capacity ≡ some m) × Models (λ q. none) m
    unfolding make view
    make-Models capacity small =
        let wanted = if ltb capacity 8 then 8 else capacity in
        let p = next_pow2-IsPow2Above wanted (ground arith) (ground arith) in
        let cap = 2 ^ p.exponent in
        let empty : FlatMap64 V = record { slots = []; mask = 0; size = 0; grow_at = 0 } in
        let some_room : 0 < cap = omega (arith, p.least) in
        let (r, run, h) =
          rehash-Rehashed blank load empty cap
            (record { exponent = p.exponent; width = refl; ones = refl }) some_room
            (λ i j i_lt j_lt held e. absurd (omega arith)) in
        (
          r,
          rw p.returns run,
          record {
            valid = record {
              placed = h.placed;
              counted = h.counted;
              room = omega (arith, h.width, h.size);
              limit = (let small = below cap some_room in omega (arith, h.width, h.limit));
            };
            reads = h.reads;
          },
        )

    -- One call.
    pub call-Models :
        (f : ℕ → Option V) (m : FlatMap64 V)
        → Models f m
        → (c : Call V) → IsReal c
        → (r : FlatMap64 V) × (call load m c ≡ some (r, reply_of f c)) × Models (after f c) r
    unfolding call reply_of after
    call-Models f m w (look k) real =
        let (p, run, e) = find-view blank m w.valid k real in
        (m, rw run (ap (λ (v : Option V). some (m, value v)) (e ∙ w.reads k real)), w)
    call-Models f m w (emplace k) real =
        let ((r, i, inserted), run, e) = try_emplace-Emplaced blank load below m w.valid k real in
        let seen = w.reads k real in
        (
          r,
          rw run (
              ap (λ (b : Bool). some (r, flag b))
                (e.fresh ∙ ap (λ (o : Option V). not (is_some o)) seen)),
          record {
            valid = e.valid;
            reads = λ q q_real. e.reads q q_real ∙ rw (seen, w.reads q q_real) refl;
          },
        )
    call-Models f m w (assign k v) real =
        let ((r, i), run, e) = insert_or_assign-Assigned blank load below m w.valid k real v in
        (
          r,
          rw run (ap (λ (x : Slot V). some (r, value (some x.value))) e.pointed.1),
          record {
            valid = e.valid;
            reads = λ q q_real. e.reads q q_real ∙ rw (w.reads q q_real) refl;
          },
        )
    call-Models f m w (remove k) real =
        let ((r, found), run, e) = erase-Erased blank m w.valid k real in
        (
          r,
          rw run (
              ap (λ (b : Bool). some (r, flag b))
                (e.held ∙ ap (λ (o : Option V). is_some o) (w.reads k real))),
          record {
            valid = e.valid;
            reads = λ q q_real. e.reads q q_real ∙ rw (w.reads q q_real) refl;
          },
        )
    call-Models f m w reset real = (clear blank m, refl, clear-Models m w.valid)

    calls-Models :
        (f : ℕ → Option V) (m : FlatMap64 V)
        → Models f m
        → (cs : List (Call V)) → AllReal cs
        → (r : FlatMap64 V) × (calls load m cs ≡ some (r, replies_of f cs))
          × Models (after_all f cs) r
    unfolding calls replies_of after_all
    calls-Models f m w [] real = (m, refl, w)
    calls-Models f m w (c ∷ cs) real =
        let (r, run, next) = call-Models f m w c real.0 in
        let (last, rest, end) = calls-Models (after f c) r next cs real.1 in
        (last, rw (run, rest) refl, end)

    -- A map from the constructor, with an initial capacity of at most 2^63 and a load factor that
    -- keeps the growth limit below the capacity, answers any sequence of calls with keys other than
    -- the reserved one as a function from keys to values does: each call returns, and at the end
    -- the map is valid and holds what that function holds.
    pub calls-replies_of :
        (capacity : ℕ)
        → capacity ≤ 2 ^ 63
        → (cs : List (Call V)) → AllReal cs
        → (m : FlatMap64 V) × (r : FlatMap64 V) × (make blank load capacity ≡ some m)
          × (calls load m cs ≡ some (r, replies_of (λ q. none) cs))
          × Models (after_all (λ q. none) cs) r
    calls-replies_of capacity small cs real =
        let (m, made, w) = make-Models capacity small in
        let (r, run, end) = calls-Models (λ q. none) m w cs real in (m, r, made, run, end)
