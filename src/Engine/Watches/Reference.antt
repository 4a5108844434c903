-- ===== src/Engine/Watches/Reference.antt =====
-- `cooled_down` against the rule that it stands for.
use stok.Base.{
  ℕ, ◌+◌, ◌^◌, ◌<◌, ◌≤◌, ◌≡◌, refl, sym, ◌∙◌, ap, not, ◌&&◌, ◌||◌, Bool-cases, inl, inr, Bool, true,
  false, Option, none, some, branch, List, [], ◌∷◌, arith, ltb, ◌==◌, if◌then◌else◌,
}
use native.Mathlib.Decide.{ℕ_discrete}
use stok.Engine.Paper.{sub_word}
use stok.Engine.Signal.{Tier, untiered, watch, alert, high, halt, mover, info}
use stok.Engine.Watches.{Map, with_key, tier_number, tier_key, judge, cooled_down}
use stok.Engine.Watches.Valid.{none-some}
use stok.Engine.Watches.Cooldown.{
  Request, key_of, granted, IsChronological, gap, Past, cooled_down-Decided,
}

-- Two requests of one tier.
unfoldable same_tier : Tier → Tier → Bool
same_tier untiered untiered = true
same_tier watch watch = true
same_tier alert alert = true
same_tier high high = true
same_tier halt halt = true
same_tier mover mover = true
same_tier info info = true
same_tier a b = false

tier_number-same_tier : (a b : Tier) → (tier_number a == tier_number b) ≡ same_tier a b
unfolding tier_number same_tier
tier_number-same_tier untiered untiered = refl
tier_number-same_tier untiered watch = refl
tier_number-same_tier untiered alert = refl
tier_number-same_tier untiered high = refl
tier_number-same_tier untiered halt = refl
tier_number-same_tier untiered mover = refl
tier_number-same_tier untiered info = refl
tier_number-same_tier watch untiered = refl
tier_number-same_tier watch watch = refl
tier_number-same_tier watch alert = refl
tier_number-same_tier watch high = refl
tier_number-same_tier watch halt = refl
tier_number-same_tier watch mover = refl
tier_number-same_tier watch info = refl
tier_number-same_tier alert untiered = refl
tier_number-same_tier alert watch = refl
tier_number-same_tier alert alert = refl
tier_number-same_tier alert high = refl
tier_number-same_tier alert halt = refl
tier_number-same_tier alert mover = refl
tier_number-same_tier alert info = refl
tier_number-same_tier high untiered = refl
tier_number-same_tier high watch = refl
tier_number-same_tier high alert = refl
tier_number-same_tier high high = refl
tier_number-same_tier high halt = refl
tier_number-same_tier high mover = refl
tier_number-same_tier high info = refl
tier_number-same_tier halt untiered = refl
tier_number-same_tier halt watch = refl
tier_number-same_tier halt alert = refl
tier_number-same_tier halt high = refl
tier_number-same_tier halt halt = refl
tier_number-same_tier halt mover = refl
tier_number-same_tier halt info = refl
tier_number-same_tier mover untiered = refl
tier_number-same_tier mover watch = refl
tier_number-same_tier mover alert = refl
tier_number-same_tier mover high = refl
tier_number-same_tier mover halt = refl
tier_number-same_tier mover mover = refl
tier_number-same_tier mover info = refl
tier_number-same_tier info untiered = refl
tier_number-same_tier info watch = refl
tier_number-same_tier info alert = refl
tier_number-same_tier info high = refl
tier_number-same_tier info halt = refl
tier_number-same_tier info mover = refl
tier_number-same_tier info info = refl

tier_number_small : (t : Tier) → tier_number t < 8
unfolding tier_number
tier_number_small untiered = omega arith
tier_number_small watch = omega arith
tier_number_small alert = omega arith
tier_number_small high = omega arith
tier_number_small halt = omega arith
tier_number_small mover = omega arith
tier_number_small info = omega arith

-- The keys tell symbols and tiers apart.
tier_key-same_tier :
    (s u : ℕ) (a b : Tier) → (tier_key s a == tier_key u b) ≡ (s == u) && same_tier a b
unfolding tier_key
tier_key-same_tier s u a b =
    let a_lt = tier_number_small a in
    let b_lt = tier_number_small b in rw (← tier_number-same_tier a b) (ground arith)

module _ (cooldown_s : ℕ) where
  -- What the cooldown means: a request is refused when one that was let through for the same symbol and
  -- tier is less than the cooldown past.
  unfoldable pub recent : Request → List Request → Bool
  unfolding same_tier
  recent q [] = false
  recent q (h ∷ hs) =
      (((h.sym == q.sym) && same_tier h.tier q.tier) && ltb q.now (h.now + gap cooldown_s))
      || recent q hs

  unfoldable pub reference : List Request → List Request → List Request
  unfolding recent
  reference let_through [] = []
  reference let_through (q ∷ qs) =
      let refused = reference let_through qs in
      let passed = q ∷ reference (q ∷ let_through) qs in
      if recent q let_through then refused else passed

  -- The same, asked of a key of the map.
  unfoldable recent_key : ℕ → ℕ → List Request → Bool
  recent_key key now [] = false
  recent_key key now (h ∷ hs) =
      ((key_of h == key) && ltb now (h.now + gap cooldown_s)) || recent_key key now hs

  recent-recent_key :
      (q : Request) (hs : List Request) → recent_key (key_of q) q.now hs ≡ recent q hs
  unfolding recent recent_key
  recent-recent_key q [] = refl
  recent-recent_key q (h ∷ hs) =
      rw (recent-recent_key q hs, tier_key-same_tier h.sym q.sym h.tier q.tier) refl

  abbrev within : ℕ → Option ℕ → Bool
  within now none = false
  within now (some b) = ltb now (b + gap cooldown_s)

  -- The map keeps of the requests let through what the later ones ask.
  abbrev Tracks : Map ℕ → List Request → ℕ → Type 0
  Tracks last hs t = (key now : ℕ) → t ≤ now → recent_key key now hs ≡ within now (last key)

  Tracks-more :
      (last : Map ℕ) (hs : List Request) (t : ℕ) (q : Request)
      → Past cooldown_s last t
      → t ≤ q.now
      → Tracks last hs t
      → Tracks (with_key last (key_of q) q.now) (q ∷ hs) q.now
  unfolding recent_key
  Tracks-more last hs t q past later tracks key now h =
      let known = tracks key now (omega arith) in
      elim (ℕ_discrete (key_of q) key) [
        | no ne ↦
            let other : (key_of q == key) ≡ false = ground arith in
            let other' : (key == key_of q) ≡ false = ground arith in rw (other, other') known
        | yes e ↦
            let own : (key_of q == key) ≡ true = ground arith in
            let own' : (key == key_of q) ≡ true = ground arith in
            elim (Bool-cases (ltb now (q.now + gap cooldown_s))) [
              | inl x ↦ rw (own, own', x) refl
              | inr x ↦ rw (own, own', x) (known ∙ long_ago key now x (last key) refl)
            ]
      ]
    where
      long_ago :
          (key now : ℕ)
          → ltb now (q.now + gap cooldown_s) ≡ false
          → (o : Option ℕ) → last key ≡ o
          → within now o ≡ false
      long_ago key now x none e = refl
      long_ago key now x (some b) e = let old = past key b e in ground arith

  judge-recent :
      (last : Map ℕ) (q : Request) (t : ℕ) (o : Option ℕ)
      → last (key_of q) ≡ o
      → Past cooldown_s last t
      → t ≤ q.now
      → q.now < 2 ^ 64
      → (judge cooldown_s last (key_of q) q.now o).1 ≡ not (within q.now o)
  unfolding judge
  judge-recent last q t none e past later fits = refl
  judge-recent last q t (some before) e past later fits =
      let old = past (key_of q) before e in
      let same : ltb (sub_word q.now before) (gap cooldown_s)
          ≡ ltb q.now (before + gap cooldown_s) =
        ground arith in
      branch (λ (r : Map ℕ × Bool). r.1 ≡ not (ltb q.now (before + gap cooldown_s)))
        (ltb (sub_word q.now before) (gap cooldown_s)) (λ x. ap not (sym x ∙ same))
        (λ x. ap not (sym x ∙ same))

  cooled_down-recent :
      (last : Map ℕ) (hs : List Request) (q : Request) (t : ℕ)
      → Past cooldown_s last t
      → Tracks last hs t
      → t ≤ q.now
      → q.now < 2 ^ 64
      → (cooled_down cooldown_s last q.sym q.tier q.now).1 ≡ not (recent_key (key_of q) q.now hs)
  unfolding cooled_down
  cooled_down-recent last hs q t past tracks later fits =
      judge-recent last q t (last (key_of q)) refl past later fits
      ∙ ap not (sym (tracks (key_of q) q.now later))

  granted_by :
      (last : Map ℕ) (hs : List Request) (t : ℕ) (qs : List Request)
      → Past cooldown_s last t
      → Tracks last hs t
      → IsChronological t qs
      → granted cooldown_s last qs ≡ reference hs qs
  unfolding granted reference
  granted_by last hs t [] past tracks c = refl
  granted_by last hs t (q ∷ qs) past tracks c =
      let r = cooled_down cooldown_s last q.sym q.tier q.now in
      let d = cooled_down-Decided cooldown_s last q t past c.0 c.1 in
      let test = cooled_down-recent last hs q t past tracks c.0 c.1 in
      elim (Bool-cases (recent_key (key_of q) q.now hs)) [
        | inl x ↦
            let closed : r.1 ≡ false = test ∙ ap not x in
            let rest =
              granted_by r.0 hs q.now qs d.past
                (λ key now h.
                  tracks key now (omega (arith, c.0))
                  ∙ ap (λ (m : Map ℕ). within now (m key)) (sym (d.refused closed)))
                c.2 in
            rw (closed, sym (recent-recent_key q hs) ∙ x) rest
        | inr x ↦
            let open_to : r.1 ≡ true = test ∙ ap not x in
            let more = Tracks-more last hs t q past c.0 tracks in
            let rest =
              granted_by r.0 (q ∷ hs) q.now qs d.past
                (λ key now h.
                  more key now h ∙ ap (λ (m : Map ℕ). within now (m key)) (sym (d.noted open_to)))
                c.2 in
            rw (open_to, sym (recent-recent_key q hs) ∙ x) (ap (λ (l : List Request). q ∷ l) rest)
      ]

  -- From the empty map, with times that do not go back and fit 64 bits, `cooled_down` lets a call through
  -- exactly when none that it let through before for the same symbol and tier is less than the cooldown
  -- past.
  pub granted-reference :
      (t : ℕ) (qs : List Request)
      → IsChronological t qs
      → granted cooldown_s (λ k. none) qs ≡ reference [] qs
  unfolding recent_key
  granted-reference t qs c =
      granted_by (λ k. none) [] t qs (λ k b h. absurd (none-some h)) (λ key now h. refl) c
