-- ===== src/Spans/Remove/Clear.antt =====
-- `remove_span` of src/spans.rs as a whole: it ends, and it clears the span.
use vmdk_rs.Base.{
  ℕ, zero, suc, ◌-◌, ◌≤◌, ◌<◌, ◌≡◌, refl, ap, ◌∙◌, Bool, true, false, ◌⊎◌, [], ◌∷◌, Option, some,
  arith, Option-cases, inl, inr,
}
use native.Mathlib.Decide.{dec_lt}
use vmdk_rs.Spans.Map.{SpanMap, Step, done, again, floor, above}
use vmdk_rs.Spans.View.{Gapped, covered, cleared}
use vmdk_rs.Spans.Remove.{remove_next, remove_step, remove_loop, remove_span}
use vmdk_rs.Spans.Remove.Round.{above_key}
use vmdk_rs.Spans.Remove.RoundClears.{GoodRound, remove_step-GoodRound}

remove_next_empty : (s : ℕ) (m : SpanMap ℕ) → remove_next s s m ≡ done m
unfolding remove_next
remove_next_empty s m = elim (Option-cases (above s m)) [
  | inl n ↦ ground (arith, n)
  | inr ((ub, ue), f) ↦ ground (arith, f, above_key s m ub ue f)
]

floor_covers :
    (k : ℕ) (m : SpanMap ℕ) (b e : ℕ) → floor k m ≡ some (b, e) → k < e → covered m k ≡ true
unfolding floor
floor_covers k [] b e f h = cc
floor_covers k ((b', e') ∷ m) b e f h = ground (arith, floor_covers k m b e)

-- A round over an empty span that starts off every span.
remove_step_empty : (s : ℕ) (m : SpanMap ℕ) → covered m s ≡ false → remove_step s s m ≡ done m
unfolding remove_step
remove_step_empty s m h = elim (Option-cases (floor s m)) [
  | inl n ↦ ground (arith, n, remove_next_empty s m)
  | inr ((fb, fe), f) ↦ ground (arith, f, floor_covers s m fb fe, remove_next_empty s m)
]

-- What the loop from `sbeg` makes of `m`.
abbrev Cleared : ℕ → ℕ → ℕ → SpanMap ℕ → Option (SpanMap ℕ) → Type 0
Cleared lo sbeg send m o =
    (m' : SpanMap ℕ) × (o ≡ some m')
    × Gapped lo m'
    × ((x : ℕ) → covered m' x ≡ cleared sbeg send x (covered m x))

cleared_twice :
    (a b c x : ℕ) (o : Bool) → a < b → b ≤ c → cleared b c x (cleared a b x o) ≡ cleared a c x o
cleared_twice a b c x o h k = ground arith

-- One round, and then what the rest of the loop makes of it.
remove_loop_round :
    (fuel lo sbeg send : ℕ) (m : SpanMap ℕ) (r : Step (SpanMap ℕ))
    → lo ≤ sbeg
    → send - sbeg < suc fuel
    → remove_step sbeg send m ≡ r
    → GoodRound lo sbeg send m r
    → ((s : ℕ) (m' : SpanMap ℕ)
        → Gapped lo m'
        → lo ≤ s
        → s ≤ send
        → covered m' s ≡ false
        → send - s < fuel
        → Cleared lo s send m' (remove_loop fuel s send m'))
    → Cleared lo sbeg send m (remove_loop (suc fuel) sbeg send m)
unfolding remove_loop
remove_loop_round fuel lo sbeg send m (done m') l f q g rest =
    (m', rw (q, remove_loop), g.gapped, g.values)
remove_loop_round fuel lo sbeg send m (again s m') l f q g rest =
    let (m'', ran, d, at) =
      rest s m' g.gapped (omega (arith, g.forward)) g.bounded g.clear
        (omega (arith, g.forward, g.bounded)) in
    (
      m'',
      rw (q, remove_loop) ran,
      d,
      λ x.
          at x
          ∙ ap (cleared s send x) (g.values x)
          ∙ cleared_twice sbeg s send x (covered m x) g.forward g.bounded,
    )

start_of :
    (s send : ℕ) (m : SpanMap ℕ)
    → s ≤ send
    → covered m s ≡ false
    → s < send ⊎ (s ≡ send) × (covered m s ≡ false)
start_of s send m h c = elim (dec_lt s send) [ yes p ↦ inl p | no p ↦ inr (omega arith, c) ]

remove_loop-Cleared :
    (fuel lo sbeg send : ℕ) (m : SpanMap ℕ)
    → Gapped lo m
    → lo ≤ sbeg
    → sbeg < send ⊎ (sbeg ≡ send) × (covered m sbeg ≡ false)
    → send - sbeg < fuel
    → Cleared lo sbeg send m (remove_loop fuel sbeg send m)
unfolding remove_loop
remove_loop-Cleared zero lo sbeg send m d l h f = absurd (omega arith)
remove_loop-Cleared (suc fuel) lo sbeg send m d l (inl h) f =
    remove_loop_round fuel lo sbeg send m _ l f refl (remove_step-GoodRound lo sbeg send m d l h)
      (λ s m' d' l' b' c' f'.
        remove_loop-Cleared fuel lo s send m' d' l' (start_of s send m' b' c') f')
remove_loop-Cleared (suc fuel) lo sbeg send m d l (inr (same, clear)) f =
    let stop : remove_step sbeg send m ≡ done m = rw (← same) (remove_step_empty sbeg m clear) in
    (m, rw (stop, remove_loop), d, λ x. ground arith)

-- On a map of non-empty spans with gaps between them and a non-empty `[sbeg, send)`, `remove_span`
-- ends. Its result has gaps between its non-empty spans again, and covers exactly the sectors
-- that were covered and do not lie in `[sbeg, send)`.
pub remove_span_clears :
    (sbeg send : ℕ) (m : SpanMap ℕ)
    → Gapped 0 m
    → sbeg < send
    → (m' : SpanMap ℕ) × (remove_span sbeg send m ≡ some m')
      × Gapped 0 m'
      × ((x : ℕ) → covered m' x ≡ cleared sbeg send x (covered m x))
unfolding remove_span
remove_span_clears sbeg send m d h =
    remove_loop-Cleared (suc (send - sbeg)) 0 sbeg send m d (omega arith) (inl h) (omega arith)
