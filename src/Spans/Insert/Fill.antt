-- ===== src/Spans/Insert/Fill.antt =====
-- `insert_span` of src/spans.rs as a whole: it ends, and it fills what was not covered.
use vmdk_rs.Base.{ℕ, zero, suc, ◌-◌, ◌≤◌, ◌<◌, ◌≡◌, refl, ap, ◌∙◌, [], ◌∷◌, Option, some, arith, Eq}
use native.Mathlib.Decide.{dec_lt}
use vmdk_rs.Spans.Map.{SpanMap, Step, done, again, floor, above, insert}
use vmdk_rs.Spans.View.{Disjoint, value_at, filled, Disjoint-mono}
use vmdk_rs.Spans.Insert.{insert_gap, insert_step, insert_loop, insert_span}
use vmdk_rs.Spans.Insert.Round.{
  map_of, reached, cons_step, round_before, round_before_at, round_after, round_after_at, step-cons,
}

module _ {T : Type 0} ⦃eq : Eq T⦄ where
  -- What a round makes of `m`: it covers `[sbeg, reached)` and changes nothing else.
  record GoodRound (lo sbeg send : ℕ) (v : T) (m : SpanMap (ℕ × T)) (r : Step (SpanMap (ℕ × T)))
      : Type 0 where
    disjoint : Disjoint lo (map_of r)
    forward : sbeg < reached send r
    bounded : reached send r ≤ send
    values : (x : ℕ) → value_at (map_of r) x ≡ filled sbeg (reached send r) v x (value_at m x)

  cons_step-GoodRound :
      (lo sbeg send : ℕ) (v : T) (b e : ℕ) (w : T) (m : SpanMap (ℕ × T))
      (r : Step (SpanMap (ℕ × T)))
      → lo ≤ b
      → b < e
      → e ≤ sbeg
      → GoodRound e sbeg send v m r
      → GoodRound lo sbeg send v ((b, (e, w)) ∷ m) (cons_step (b, (e, w)) r)
  cons_step-GoodRound lo sbeg send v b e w m (done m') h1 h2 h3 g = record {
    disjoint = (h1, h2, g.disjoint);
    forward = g.forward;
    bounded = g.bounded;
    values = λ x. ground (arith, g.values x);
  }
  cons_step-GoodRound lo sbeg send v b e w m (again s m') h1 h2 h3 g = record {
    disjoint = (h1, h2, g.disjoint);
    forward = g.forward;
    bounded = g.bounded;
    values = λ x. ground (arith, g.values x);
  }

  nil-GoodRound :
      (lo sbeg send : ℕ) (v : T)
      → lo ≤ sbeg
      → sbeg < send
      → GoodRound lo sbeg send v [] (insert_step sbeg send v [])
  unfolding insert_step insert_gap floor above insert
  nil-GoodRound lo sbeg send v l h = record {
    disjoint = (l, h, tt);
    forward = h;
    bounded = omega arith;
    values = λ x. refl;
  }

  last-GoodRound :
      (lo sbeg send : ℕ) (v : T) (b e : ℕ) (w : T)
      → Disjoint lo ((b, (e, w)) ∷ [])
      → lo ≤ sbeg
      → sbeg < send
      → b ≤ sbeg
      → GoodRound lo sbeg send v ((b, (e, w)) ∷ []) (insert_step sbeg send v ((b, (e, w)) ∷ []))
  unfolding insert_step insert_gap floor above insert
  last-GoodRound lo sbeg send v b e w d l h k = record {
    disjoint = ground arith;
    forward = ground arith;
    bounded = ground arith;
    values = λ x. ground (arith, eq.eq_of_beq v w);
  }

  before-GoodRound :
      (lo sbeg send : ℕ) (v : T) (b e : ℕ) (w : T) (m : SpanMap (ℕ × T))
      → let all = (b, (e, w)) ∷ m in
        Disjoint lo all
        → lo ≤ sbeg
        → sbeg < send
        → sbeg < b
        → GoodRound lo sbeg send v all (insert_step sbeg send v all)
  before-GoodRound lo sbeg send v b e w m d l h p =
      let (d', f, g) = round_before sbeg send v b e w m (omega arith, d.1, d.2) p h in
      record {
        disjoint = Disjoint-mono _ l d';
        forward = f;
        bounded = g;
        values = λ x. round_before_at sbeg send v b e w m x (omega arith, d.1, d.2) p h;
      }

  after-GoodRound :
      (lo sbeg send : ℕ) (v : T) (lb le : ℕ) (lv : T) (b e : ℕ) (w : T) (m : SpanMap (ℕ × T))
      → let all = (lb, (le, lv)) ∷ (b, (e, w)) ∷ m in
        Disjoint lo all
        → sbeg < send
        → lb ≤ sbeg
        → sbeg < b
        → GoodRound lo sbeg send v all (insert_step sbeg send v all)
  after-GoodRound lo sbeg send v lb le lv b e w m d h k p =
      let (d', f, g) = round_after sbeg send v lb le lv b e w m (omega arith, d.1, d.2) k p h in
      record {
        disjoint = Disjoint-mono _ d.0 d';
        forward = f;
        bounded = g;
        values = λ x. round_after_at sbeg send v lb le lv b e w m x (omega arith, d.1, d.2) k p h;
      }

  insert_step-GoodRound :
      (lo sbeg send : ℕ) (v : T) (m : SpanMap (ℕ × T))
      → Disjoint lo m
      → lo ≤ sbeg
      → sbeg < send
      → GoodRound lo sbeg send v m (insert_step sbeg send v m)
  insert_step-GoodRound lo sbeg send v [] d l h = nil-GoodRound lo sbeg send v l h
  insert_step-GoodRound lo sbeg send v ((b, (e, w)) ∷ []) d l h = elim (dec_lt sbeg b) [
    | yes p ↦ before-GoodRound lo sbeg send v b e w [] d l h p
    | no p ↦ last-GoodRound lo sbeg send v b e w d l h (omega arith)
  ]
  insert_step-GoodRound lo sbeg send v ((b, (e, w)) ∷ (b2, (e2, w2)) ∷ m) d l h =
      let rest = insert_step-GoodRound e sbeg send v ((b2, (e2, w2)) ∷ m) d.2 in
      elim (dec_lt sbeg b) [
        | yes p ↦ before-GoodRound lo sbeg send v b e w ((b2, (e2, w2)) ∷ m) d l h p
        | no p ↦ elim (dec_lt sbeg b2) [
          | yes q ↦ after-GoodRound lo sbeg send v b e w b2 e2 w2 m d h (omega arith) q
          | no q ↦
              rw
                (step-cons sbeg send v b (e, w) b2 e2 w2 m (omega arith, d.2.1, d.2.2) (omega arith)
                  (omega arith))
                (cons_step-GoodRound lo sbeg send v b e w ((b2, (e2, w2)) ∷ m) _ d.0 d.1
                  (omega arith) (rest (omega arith) h))
        ]
      ]

  again-lt :
      (sbeg send : ℕ) (v : T) (m : SpanMap (ℕ × T)) (s : ℕ) (m' : SpanMap (ℕ × T))
      → insert_step sbeg send v m ≡ again s m'
      → s < send
  unfolding insert_step insert_gap
  again-lt sbeg send v m s m' h = ground arith

  -- What the loop from `sbeg` makes of `m`.
  abbrev Filled : ℕ → ℕ → ℕ → T → SpanMap (ℕ × T) → Option (SpanMap (ℕ × T)) → Type 0
  Filled lo sbeg send v m o =
      (m' : SpanMap (ℕ × T)) × (o ≡ some m')
      × Disjoint lo m'
      × ((x : ℕ) → value_at m' x ≡ filled sbeg send v x (value_at m x))

  filled_twice :
      (a b c : ℕ) (v : T) (x : ℕ) (o : Option T)
      → a < b
      → b ≤ c
      → filled b c v x (filled a b v x o) ≡ filled a c v x o
  filled_twice a b c v x o h k = ground arith

  -- One round, and then what the rest of the loop makes of it.
  insert_loop_round :
      (fuel lo sbeg send : ℕ) (v : T) (m : SpanMap (ℕ × T)) (r : Step (SpanMap (ℕ × T)))
      → lo ≤ sbeg
      → send - sbeg < suc fuel
      → insert_step sbeg send v m ≡ r
      → GoodRound lo sbeg send v m r
      → ((s : ℕ) (m' : SpanMap (ℕ × T))
          → Disjoint lo m'
          → lo ≤ s
          → s < send
          → send - s < fuel
          → Filled lo s send v m' (insert_loop fuel s send v m'))
      → Filled lo sbeg send v m (insert_loop (suc fuel) sbeg send v m)
  unfolding insert_loop
  insert_loop_round fuel lo sbeg send v m (done m') l f q g rest =
      (m', rw (q, insert_loop), g.disjoint, g.values)
  insert_loop_round fuel lo sbeg send v m (again s m') l f q g rest =
      let (m'', ran, d, at) =
        rest s m' g.disjoint (omega (arith, g.forward)) (again-lt sbeg send v m s m' q)
          (omega (arith, g.forward, again-lt sbeg send v m s m' q)) in
      (
        m'',
        rw (q, insert_loop) ran,
        d,
        λ x.
            at x
            ∙ ap (filled s send v x) (g.values x)
            ∙ filled_twice sbeg s send v x (value_at m x) g.forward g.bounded,
      )

  insert_loop-Filled :
      (fuel lo sbeg send : ℕ) (v : T) (m : SpanMap (ℕ × T))
      → Disjoint lo m
      → lo ≤ sbeg
      → sbeg < send
      → send - sbeg < fuel
      → Filled lo sbeg send v m (insert_loop fuel sbeg send v m)
  insert_loop-Filled zero lo sbeg send v m d l h f = absurd (omega arith)
  insert_loop-Filled (suc fuel) lo sbeg send v m d l h f =
      insert_loop_round fuel lo sbeg send v m _ l f refl
        (insert_step-GoodRound lo sbeg send v m d l h)
        (λ s m' d' l' h' f'. insert_loop-Filled fuel lo s send v m' d' l' h' f')

  -- On a map of disjoint non-empty spans and a non-empty `[sbeg, send)`, `insert_span` ends. Its
  -- result is disjoint again, keeps the value of each sector that had one, gives `v` to the sectors
  -- of `[sbeg, send)` that had none, and covers no other sector.
  pub insert_span_fills :
      (sbeg send : ℕ) (v : T) (m : SpanMap (ℕ × T))
      → Disjoint 0 m
      → sbeg < send
      → (m' : SpanMap (ℕ × T)) × (insert_span sbeg send v m ≡ some m')
        × Disjoint 0 m'
        × ((x : ℕ) → value_at m' x ≡ filled sbeg send v x (value_at m x))
  unfolding insert_span
  insert_span_fills sbeg send v m d h =
      insert_loop-Filled (suc (send - sbeg)) 0 sbeg send v m d (omega arith) h (omega arith)
