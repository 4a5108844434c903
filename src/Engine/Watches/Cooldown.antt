-- ===== src/Engine/Watches/Cooldown.antt =====
-- `cooled_down`: how often a symbol may produce one tier.
use stok.Base.{
  ℕ, ◌+◌, ◌*◌, ◌^◌, ◌<◌, ◌≤◌, ◌≡◌, refl, sym, ◌∙◌, ap, Bool, true, false, Option, none, some,
  branch, List, [], ◌∷◌, arith, ltb, ◌==◌, if◌then◌else◌,
}
use native.Mathlib.Decide.{ℕ_discrete}
use stok.Engine.Signal.{Tier}
use stok.Engine.Paper.{sub_word, ns_per_sec}
use stok.Engine.Watches.{Map, with_key, tier_key, judge, cooled_down}
use stok.Engine.Watches.Valid.{some_inj, none-some}

-- A call for a symbol and a tier at a time.
pub record Request : Type 0 where
  pub sym : ℕ
  pub tier : Tier
  pub now : ℕ

-- The requests that are let through, in order.
unfoldable pub granted : ℕ → Map ℕ → List Request → List Request
unfolding cooled_down
granted cooldown_s last [] = []
granted cooldown_s last (q ∷ qs) =
    let r = cooled_down cooldown_s last q.sym q.tier q.now in
    let rest = granted cooldown_s r.0 qs in if r.1 then q ∷ rest else rest

abbrev pub key_of : Request → ℕ
key_of q = tier_key q.sym q.tier

-- The clock does not go back, and fits its word.
abbrev pub IsChronological : ℕ → List Request → Type 0
IsChronological t [] = Unit
IsChronological t (q ∷ qs) = (t ≤ q.now) × (q.now < 2 ^ 64) × IsChronological q.now qs

-- Nothing of the key's before `t`.
abbrev After : ℕ → ℕ → List Request → Type 0
After key t [] = Unit
After key t (q ∷ qs) = (key_of q ≡ key → t ≤ q.now) × After key t qs

-- Two grants of one symbol and tier are a cooldown apart.
abbrev pub IsSpaced : ℕ → List Request → Type 0
IsSpaced gap [] = Unit
IsSpaced gap (q ∷ qs) = After (key_of q) (q.now + gap) qs × IsSpaced gap qs

weaken-After : (key t u : ℕ) (qs : List Request) → u ≤ t → After key t qs → After key u qs
weaken-After key t u [] le a = tt
weaken-After key t u (q ∷ qs) le a =
    ((λ e. (let late = a.0 e in omega arith)), weaken-After key t u qs le a.1)

module _ (cooldown_s : ℕ) where
  abbrev pub gap : ℕ
  gap = cooldown_s * ns_per_sec

  -- The map holds no time that is still to come.
  abbrev pub Past : Map ℕ → ℕ → Type 0
  Past last t = (key b : ℕ) → last key ≡ some b → b ≤ t

  pub record Decided (last : Map ℕ) (q : Request) (r : Map ℕ × Bool) : Type 0 where
    pub past : Past r.0 q.now
    pub refused : r.1 ≡ false → r.0 ≡ last
    pub noted : r.1 ≡ true → r.0 ≡ with_key last (key_of q) q.now
    pub apart : r.1 ≡ true → (b : ℕ) → last (key_of q) ≡ some b → b + gap ≤ q.now

  noted_past :
      (last : Map ℕ) (key now t : ℕ) → Past last t → t ≤ now → Past (with_key last key now) now
  noted_past last key now t past later k b h = elim (ℕ_discrete k key) [
    | yes e ↦
        let same : (k == key) ≡ true = ground arith in
        let at : now ≡ b = some_inj (rw same at h) in omega arith
    | no ne ↦
        let other : (k == key) ≡ false = ground arith in
        let old = past k b (rw other at h) in omega arith
  ]

  judge-Decided :
      (last : Map ℕ) (q : Request) (t : ℕ) (o : Option ℕ)
      → last (key_of q) ≡ o
      → Past last t
      → t ≤ q.now
      → q.now < 2 ^ 64
      → Decided last q (judge cooldown_s last (key_of q) q.now o)
  unfolding judge
  judge-Decided last q t none e past later fits = record {
    past = noted_past last (key_of q) q.now t past later;
    refused = λ x. absurd (cc);
    noted = λ x. refl;
    apart = λ x b h. absurd (none-some (sym e ∙ h));
  }
  judge-Decided last q t (some before) e past later fits =
      let old = past (key_of q) before e in
      branch (λ (r : Map ℕ × Bool). Decided last q r) (ltb (sub_word q.now before) gap)
        (λ x. record {
          past = λ k b h. (let known = past k b h in omega arith);
          refused = λ y. refl;
          noted = λ y. absurd (cc);
          apart = λ y. absurd (cc);
        })
        (λ x. record {
          past = noted_past last (key_of q) q.now t past later;
          refused = λ y. absurd (cc);
          noted = λ y. refl;
          apart = λ y b h.
              (let at : before ≡ b = some_inj (sym e ∙ h) in
                let waited : gap ≤ sub_word q.now before = ground arith in omega arith);
        })

  pub cooled_down-Decided :
      (last : Map ℕ) (q : Request) (t : ℕ)
      → Past last t
      → t ≤ q.now
      → q.now < 2 ^ 64
      → Decided last q (cooled_down cooldown_s last q.sym q.tier q.now)
  unfolding cooled_down
  cooled_down-Decided last q t = judge-Decided last q t (last (key_of q)) refl

  -- What is let through keeps its distance from what the map holds.
  abbrev Follows : Map ℕ → List Request → Type 0
  Follows last qs = (key b : ℕ) → last key ≡ some b → After key (b + gap) qs

  granted_lem :
      (last : Map ℕ) (t : ℕ) (qs : List Request)
      → Past last t
      → IsChronological t qs
      → IsSpaced gap (granted cooldown_s last qs) × Follows last (granted cooldown_s last qs)
  unfolding granted
  granted_lem last t [] past c = (tt, λ key b h. tt)
  granted_lem last t (q ∷ qs) past c =
      let r = cooled_down cooldown_s last q.sym q.tier q.now in
      let d = cooled_down-Decided last q t past c.0 c.1 in
      let (spaced, follows) = granted_lem r.0 q.now qs d.past c.2 in
      branch (λ (l : List Request). IsSpaced gap l × Follows last l) r.1
        (λ yes_it.
          (let own : (key_of q == key_of q) ≡ true = ground arith in
            let mine =
              follows (key_of q) q.now
                (ap (λ (m : Map ℕ). m (key_of q)) (d.noted yes_it) ∙ rw own refl) in
            (
              (mine, spaced),
              λ key b h. (
                λ e. d.apart yes_it b (ap last e ∙ h),
                elim (ℕ_discrete key (key_of q)) [
                  | yes e ↦
                      let far = d.apart yes_it b (ap last (sym e) ∙ h) in
                      weaken-After key (q.now + gap) (b + gap) (granted cooldown_s r.0 qs)
                        (omega arith) (rw e mine)
                  | no ne ↦
                      let other : (key == key_of q) ≡ false = ground arith in
                      follows key b (ap (λ (m : Map ℕ). m key) (d.noted yes_it) ∙ rw other h)
                ],
              ),
            )))
        (λ no_it.
          (spaced, λ key b h. follows key b (ap (λ (m : Map ℕ). m key) (d.refused no_it) ∙ h)))

  -- Of any sequence of calls of `cooled_down` from the empty map, with times that do not go back
  -- and fit 64 bits, two calls for one symbol and tier that are let through are a cooldown apart.
  pub granted-IsSpaced :
      (t : ℕ) (qs : List Request)
      → IsChronological t qs
      → IsSpaced gap (granted cooldown_s (λ k. none) qs)
  granted-IsSpaced t qs c = (granted_lem (λ k. none) t qs (λ k b h. absurd (none-some h)) c).0
