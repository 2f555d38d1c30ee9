-- ===== src/Spans/Remove/RoundClears.antt =====
-- One round of `remove_span` of src/spans.rs: what it clears.
use vmdk_rs.Base.{ℕ, suc, ◌≤◌, ◌<◌, ◌≡◌, [], ◌∷◌, arith, Option-cases, inl, inr}
use native.Mathlib.Decide.{dec_lt}
use vmdk_rs.Spans.Map.{SpanMap, Step, done, again, floor, above, insert, remove}
use vmdk_rs.Spans.View.{Gapped, covered, cleared, Gapped-mono}
use vmdk_rs.Spans.Remove.{remove_next, remove_step}
use vmdk_rs.Spans.Remove.Round.{
  map_of, reached, IsClear, cons_step, next_shape, next_values, covering_shape, covering_within,
  covering_past, covering_whole, floor_after, floor-cons, floor-ne-none, floor_key, above_key,
}

-- What a round makes of `m`: it clears `[sbeg, reached)` and changes nothing else.
pub record GoodRound (lo sbeg send : ℕ) (m : SpanMap ℕ) (r : Step (SpanMap ℕ)) : Type 0 where
  pub gapped : Gapped lo (map_of r)
  pub forward : sbeg < reached send r
  pub bounded : reached send r ≤ send
  pub clear : IsClear r
  pub values : (x : ℕ) → covered (map_of r) x ≡ cleared sbeg (reached send r) x (covered m x)

cons_step-GoodRound :
    (lo sbeg send b e : ℕ) (m : SpanMap ℕ) (r : Step (SpanMap ℕ))
    → lo ≤ b
    → b < e
    → e ≤ sbeg
    → GoodRound (suc e) sbeg send m r
    → GoodRound lo sbeg send ((b, e) ∷ m) (cons_step (b, e) r)
cons_step-GoodRound lo sbeg send b e m (done m') h1 h2 h3 g = record {
  gapped = (h1, h2, g.gapped);
  forward = g.forward;
  bounded = g.bounded;
  clear = tt;
  values = λ x. ground (arith, g.values x);
}
cons_step-GoodRound lo sbeg send b e m (again s m') h1 h2 h3 g = record {
  gapped = (h1, h2, g.gapped);
  forward = g.forward;
  bounded = g.bounded;
  clear = ground (arith, g.clear, g.forward);
  values = λ x. ground (arith, g.values x);
}

next-cons :
    (s send b e : ℕ) (m : SpanMap ℕ)
    → b < s
    → remove_next s send ((b, e) ∷ m) ≡ cons_step (b, e) (remove_next s send m)
unfolding remove_next above insert remove
next-cons s send b e m h = elim (Option-cases (above s m)) [
  | inl n ↦ ground arith
  | inr ((ub, ue), f) ↦ ground (arith, above_key s m ub ue f)
]

step-cons :
    (sbeg send b e b2 e2 : ℕ) (m : SpanMap ℕ)
    → Gapped 0 ((b2, e2) ∷ m)
    → b < b2
    → b2 ≤ sbeg
    → sbeg < send
    → let t = (b2, e2) ∷ m in
      remove_step sbeg send ((b, e) ∷ t) ≡ cons_step (b, e) (remove_step sbeg send t)
unfolding remove_step
step-cons sbeg send b e b2 e2 m d lt le h =
    let t : SpanMap ℕ = (b2, e2) ∷ m in
    elim (Option-cases (floor sbeg t)) [
      | inl n ↦ absurd (floor-ne-none sbeg b2 e2 m le n)
      | inr ((fb, fe), f) ↦
          unfold insert remove in
          ground (
            arith,
            f,
            floor-cons sbeg b e t,
            floor_key sbeg b2 t fb fe,
            next-cons sbeg send b e t,
            next-cons fe send b e (insert fb sbeg t),
            next-cons fe send b e (remove fb t),
          )
    ]

nil-GoodRound :
    (lo sbeg send : ℕ) → sbeg < send → GoodRound lo sbeg send [] (remove_step sbeg send [])
unfolding remove_step remove_next floor above
nil-GoodRound lo sbeg send h = record {
  gapped = tt;
  forward = h;
  bounded = omega arith;
  clear = tt;
  values = λ x. ground arith;
}

last-GoodRound :
    (lo sbeg send b e : ℕ)
    → Gapped lo ((b, e) ∷ [])
    → sbeg < send
    → b ≤ sbeg
    → GoodRound lo sbeg send ((b, e) ∷ []) (remove_step sbeg send ((b, e) ∷ []))
unfolding remove_step remove_next floor above insert remove
last-GoodRound lo sbeg send b e d h k = record {
  gapped = ground arith;
  forward = ground arith;
  bounded = ground arith;
  clear = ground arith;
  values = λ x. ground arith;
}

-- `floor` finds nothing, or a span that ends at or before `sbeg`: only the second half counts.
step_ahead :
    (sbeg send b e : ℕ) (m : SpanMap ℕ)
    → sbeg < b
    → remove_step sbeg send ((b, e) ∷ m) ≡ remove_next sbeg send ((b, e) ∷ m)
unfolding remove_step floor
step_ahead sbeg send b e m h = ground arith

step_past :
    (sbeg send lb le b e : ℕ) (m : SpanMap ℕ)
    → lb < le
    → le ≤ sbeg
    → sbeg < b
    → remove_step sbeg send ((lb, le) ∷ (b, e) ∷ m)
      ≡ cons_step (lb, le) (remove_next sbeg send ((b, e) ∷ m))
unfolding remove_step
step_past sbeg send lb le b e m w h k =
    ground (arith, floor_after sbeg lb le b e m, next-cons sbeg send lb le ((b, e) ∷ m))

next-GoodRound :
    (lo sbeg send b e : ℕ) (m : SpanMap ℕ)
    → Gapped (suc sbeg) ((b, e) ∷ m)
    → lo ≤ suc sbeg
    → sbeg < send
    → GoodRound lo sbeg send ((b, e) ∷ m) (remove_next sbeg send ((b, e) ∷ m))
next-GoodRound lo sbeg send b e m d l h =
    let (g, f, k, c) = next_shape sbeg send b e m d h in
    record {
      gapped = Gapped-mono _ l g;
      forward = f;
      bounded = k;
      clear = c;
      values = λ x. next_values sbeg send b e m x d h;
    }

before-GoodRound :
    (lo sbeg send b e : ℕ) (m : SpanMap ℕ)
    → Gapped lo ((b, e) ∷ m)
    → lo ≤ sbeg
    → sbeg < send
    → sbeg < b
    → GoodRound lo sbeg send ((b, e) ∷ m) (remove_step sbeg send ((b, e) ∷ m))
before-GoodRound lo sbeg send b e m d l h p =
    rw (step_ahead sbeg send b e m p)
      (next-GoodRound lo sbeg send b e m (p, d.1, d.2) (omega arith) h)

covering_values :
    (sbeg send lb le b e : ℕ) (m : SpanMap ℕ) (x : ℕ)
    → Gapped 0 ((lb, le) ∷ (b, e) ∷ m)
    → sbeg < send
    → lb ≤ sbeg
    → sbeg < le
    → let r = remove_step sbeg send ((lb, le) ∷ (b, e) ∷ m) in
      covered (map_of r) x ≡ cleared sbeg (reached send r) x (covered ((lb, le) ∷ (b, e) ∷ m) x)
covering_values sbeg send lb le b e m x d h k c = elim (dec_lt le send) [
  | no n ↦ covering_within sbeg send lb le b e m x d h k c (omega arith)
  | yes n ↦ elim (dec_lt lb sbeg) [
    | yes p ↦ covering_past sbeg send lb le b e m x d h p c n
    | no p ↦
        let same : lb ≡ sbeg = omega arith in
        rw same (covering_whole sbeg send le b e m x (omega arith, c, d.2) h c n)
  ]
]

covering-GoodRound :
    (lo sbeg send lb le b e : ℕ) (m : SpanMap ℕ)
    → Gapped lo ((lb, le) ∷ (b, e) ∷ m)
    → sbeg < send
    → lb ≤ sbeg
    → sbeg < le
    → GoodRound lo sbeg send ((lb, le) ∷ (b, e) ∷ m) (remove_step sbeg send ((lb, le) ∷ (b, e) ∷ m))
covering-GoodRound lo sbeg send lb le b e m d h k c =
    let d' : Gapped 0 ((lb, le) ∷ (b, e) ∷ m) = (omega arith, d.1, d.2) in
    let (g, f, n, s) = covering_shape sbeg send lb le b e m d' h k c in
    record {
      gapped = Gapped-mono _ d.0 g;
      forward = f;
      bounded = n;
      clear = s;
      values = λ x. covering_values sbeg send lb le b e m x d' h k c;
    }

pub remove_step-GoodRound :
    (lo sbeg send : ℕ) (m : SpanMap ℕ)
    → Gapped lo m
    → lo ≤ sbeg
    → sbeg < send
    → GoodRound lo sbeg send m (remove_step sbeg send m)
remove_step-GoodRound lo sbeg send [] d l h = nil-GoodRound lo sbeg send h
remove_step-GoodRound lo sbeg send ((b, e) ∷ []) d l h = elim (dec_lt sbeg b) [
  | yes p ↦ before-GoodRound lo sbeg send b e [] d l h p
  | no p ↦ last-GoodRound lo sbeg send b e d h (omega arith)
]
remove_step-GoodRound lo sbeg send ((b, e) ∷ (b2, e2) ∷ m) d l h =
    let rest = remove_step-GoodRound (suc e) sbeg send ((b2, e2) ∷ m) d.2 in
    elim (dec_lt sbeg b) [
      | yes p ↦ before-GoodRound lo sbeg send b e ((b2, e2) ∷ m) d l h p
      | no p ↦ elim (dec_lt sbeg b2) [
        | no q ↦
            rw
              (step-cons sbeg send b e b2 e2 m (omega arith, d.2.1, d.2.2) (omega arith)
                (omega arith) h)
              (cons_step-GoodRound lo sbeg send b e ((b2, e2) ∷ m) _ d.0 d.1 (omega arith)
                (rest (omega arith) h))
        | yes q ↦ elim (dec_lt sbeg e) [
          | yes c ↦ covering-GoodRound lo sbeg send b e b2 e2 m d h (omega arith) c
          | no c ↦ rw (step_past sbeg send b e b2 e2 m d.1 (omega arith) q) (
              cons_step-GoodRound lo sbeg send b e ((b2, e2) ∷ m) _ d.0 d.1 (omega arith)
                (next-GoodRound (suc e) sbeg send b2 e2 m (q, d.2.1, d.2.2) (omega arith) h))
        ]
      ]
    ]
