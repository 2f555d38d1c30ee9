-- ===== src/Spans/Insert/Round.antt =====
-- One round of the loop of `insert_span`.
use vmdk_rs.Base.{
  true, ◌&&◌, ◌==◌, Bool-cases, Option-cases, inl, inr, le→ltb_false, ◌≢◌, ℕ, ◌≤◌, ◌<◌, ◌≡◌, refl,
  [], ◌∷◌, none, some, arith, Eq,
}
use native.Mathlib.Decide.{dec_lt}
use vmdk_rs.Spans.Map.{SpanMap, Step, done, again, or_else, floor, above, insert, remove}
use vmdk_rs.Spans.View.{Disjoint, value_at, filled, value_at_before}
use vmdk_rs.Spans.Insert.{insert_gap, insert_step}

module _ {ℓ} {T : Type ℓ} where
  -- The map that a round leaves, and how far it has come.
  abbrev pub map_of : Step (SpanMap (ℕ × T)) → SpanMap (ℕ × T)
  map_of (done m) = m
  map_of (again s m) = m

  abbrev pub reached : ℕ → Step (SpanMap (ℕ × T)) → ℕ
  reached send (done m) = send
  reached send (again s m) = s

  abbrev pub cons_step : ℕ × (ℕ × T) → Step (SpanMap (ℕ × T)) → Step (SpanMap (ℕ × T))
  cons_step h (done m) = done (h ∷ m)
  cons_step h (again s m) = again s (h ∷ m)

module _ {T : Type 0} where
  floor_after :
      (k lb : ℕ) (h : ℕ × T) (b : ℕ) (w : ℕ × T) (m : SpanMap (ℕ × T))
      → lb ≤ k
      → k < b
      → floor k ((lb, h) ∷ (b, w) ∷ m) ≡ some (lb, h)
  unfolding floor
  floor_after k lb h b w m p q = ground arith

  floor-cons :
      (k b : ℕ) (w : ℕ × T) (m : SpanMap (ℕ × T))
      → b ≤ k
      → floor k ((b, w) ∷ m) ≡ or_else (floor k m) (some (b, w))
  unfolding floor
  floor-cons k b w m h = ground arith

  floor-ne-none : (k b : ℕ) (w : ℕ × T) (m : SpanMap (ℕ × T)) → b ≤ k → floor k ((b, w) ∷ m) ≢ none
  unfolding floor
  floor-ne-none k b w m h = ground arith

  floor_key :
      (k lo : ℕ) (m : SpanMap (ℕ × T)) (b : ℕ) (w : ℕ × T)
      → Disjoint lo m
      → floor k m ≡ some (b, w)
      → lo ≤ b
  unfolding floor
  floor_key k lo [] b w d h = cc
  floor_key k lo ((b', (e', w')) ∷ m) b w d h = ground (arith, floor_key k e' m b w)

  above_key : (k : ℕ) (m : SpanMap (ℕ × T)) (b : ℕ) (w : ℕ × T) → above k m ≡ some (b, w) → k < b
  unfolding above
  above_key k [] b w h = cc
  above_key k ((b', w') ∷ m) b w h = ground (arith, above_key k m b w)

  insert_before :
      (k lo : ℕ) (v : ℕ × T) (m : SpanMap (ℕ × T))
      → Disjoint lo m
      → k < lo
      → insert k v m ≡ (k, v) ∷ m
  unfolding insert
  insert_before k lo v [] d h = refl
  insert_before k lo v ((b, (e, w)) ∷ m) d h = ground arith

module _ {T : Type 0} ⦃eq : Eq T⦄ where
  -- No span starts at or before `sbeg`.
  pub round_before :
      (sbeg send : ℕ) (v : T) (b e : ℕ) (w : T) (m : SpanMap (ℕ × T))
      → Disjoint sbeg ((b, (e, w)) ∷ m)
      → sbeg < b
      → sbeg < send
      → let r = insert_step sbeg send v ((b, (e, w)) ∷ m) in
        Disjoint sbeg (map_of r) × (sbeg < reached send r) × (reached send r ≤ send)
  unfolding insert_step insert_gap floor above insert remove
  round_before sbeg send v b e w m d lt h = ground (arith, insert_before sbeg e (e, v) m)

  pub round_before_at :
      (sbeg send : ℕ) (v : T) (b e : ℕ) (w : T) (m : SpanMap (ℕ × T)) (x : ℕ)
      → Disjoint sbeg ((b, (e, w)) ∷ m)
      → sbeg < b
      → sbeg < send
      → let r = insert_step sbeg send v ((b, (e, w)) ∷ m) in
        value_at (map_of r) x ≡ filled sbeg (reached send r) v x (value_at ((b, (e, w)) ∷ m) x)
  unfolding insert_step insert_gap floor above insert remove
  round_before_at sbeg send v b e w m x d lt h =
      ground (arith, eq.eq_of_beq w v, insert_before sbeg e (e, v) m, value_at_before e m x)

  pub round_after :
      (sbeg send : ℕ) (v : T) (lb le : ℕ) (lv : T) (b e : ℕ) (w : T) (m : SpanMap (ℕ × T))
      → Disjoint 0 ((lb, (le, lv)) ∷ (b, (e, w)) ∷ m)
      → lb ≤ sbeg
      → sbeg < b
      → sbeg < send
      → let r = insert_step sbeg send v ((lb, (le, lv)) ∷ (b, (e, w)) ∷ m) in
        Disjoint lb (map_of r) × (sbeg < reached send r) × (reached send r ≤ send)
  unfolding insert_step insert_gap floor above insert remove
  round_after sbeg send v lb le lv b e w m d k lt h = ground (arith, insert_before sbeg e (e, v) m)

  round_covered_at :
      (sbeg send : ℕ) (v : T) (lb le : ℕ) (lv : T) (b e : ℕ) (w : T) (m : SpanMap (ℕ × T)) (x : ℕ)
      → let all = (lb, (le, lv)) ∷ (b, (e, w)) ∷ m in
        Disjoint 0 all
        → lb ≤ sbeg
        → sbeg < b
        → sbeg < send
        → sbeg < le
        → let r = insert_step sbeg send v all in
          value_at (map_of r) x ≡ filled sbeg (reached send r) v x (value_at all x)
  unfolding insert_step floor
  round_covered_at sbeg send v lb le lv b e w m x d k lt h c = ground arith

  round_merged_at :
      (sbeg send : ℕ) (v : T) (lb le : ℕ) (lv : T) (b e : ℕ) (w : T) (m : SpanMap (ℕ × T)) (x : ℕ)
      → let all = (lb, (le, lv)) ∷ (b, (e, w)) ∷ m in
        Disjoint 0 all
        → lb ≤ sbeg
        → sbeg < b
        → sbeg < send
        → sbeg ≡ le
        → eq.beq v lv ≡ true
        → let r = insert_gap lb send v all in
          value_at (map_of r) x ≡ filled sbeg (reached send r) v x (value_at all x)
  unfolding insert_gap above insert remove
  round_merged_at sbeg send v lb le lv b e w m x d k lt h c n =
      ground (arith, eq.eq_of_beq w v, eq.eq_of_beq v lv, value_at_before e m x)

  round_apart_at :
      (sbeg send : ℕ) (v : T) (lb le : ℕ) (lv : T) (b e : ℕ) (w : T) (m : SpanMap (ℕ × T)) (x : ℕ)
      → let all = (lb, (le, lv)) ∷ (b, (e, w)) ∷ m in
        Disjoint 0 all
        → lb ≤ sbeg
        → sbeg < b
        → sbeg < send
        → le ≤ sbeg
        → let r = insert_gap sbeg send v all in
          value_at (map_of r) x ≡ filled sbeg (reached send r) v x (value_at all x)
  unfolding insert_gap above insert remove
  round_apart_at sbeg send v lb le lv b e w m x d k lt h c =
      ground (arith, eq.eq_of_beq w v, insert_before sbeg e (e, v) m, value_at_before e m x)

  pub round_after_at :
      (sbeg send : ℕ) (v : T) (lb le : ℕ) (lv : T) (b e : ℕ) (w : T) (m : SpanMap (ℕ × T)) (x : ℕ)
      → let all = (lb, (le, lv)) ∷ (b, (e, w)) ∷ m in
        Disjoint 0 all
        → lb ≤ sbeg
        → sbeg < b
        → sbeg < send
        → let r = insert_step sbeg send v all in
          value_at (map_of r) x ≡ filled sbeg (reached send r) v x (value_at all x)
  unfolding insert_step
  round_after_at sbeg send v lb le lv b e w m x d k lt h = elim (dec_lt sbeg le) [
    | yes c ↦ round_covered_at sbeg send v lb le lv b e w m x d k lt h c
    | no c ↦
        rw (floor_after sbeg lb (le, lv) b (e, w) m k lt, insert_step)
          (rw (le→ltb_false sbeg le (omega arith)) (elim (Bool-cases (sbeg == le && eq.beq v lv)) [
            | inl y ↦ rw y (
                round_merged_at sbeg send v lb le lv b e w m x d k lt h (ground arith)
                  (ground arith))
            | inr n ↦ rw n (round_apart_at sbeg send v lb le lv b e w m x d k lt h (omega arith))
          ]))
  ]

  gap-cons :
      (s send : ℕ) (v : T) (b : ℕ) (w : ℕ × T) (m : SpanMap (ℕ × T))
      → b < s
      → insert_gap s send v ((b, w) ∷ m) ≡ cons_step (b, w) (insert_gap s send v m)
  unfolding insert_gap above insert remove
  gap-cons s send v b w m h = elim (Option-cases (above s m)) [
    | inl n ↦ ground arith
    | inr ((ub, (ue, uv)), f) ↦ ground (arith, above_key s m ub (ue, uv) f)
  ]

  pub step-cons :
      (sbeg send : ℕ) (v : T) (b : ℕ) (w : ℕ × T) (b2 e2 : ℕ) (w2 : T) (m : SpanMap (ℕ × T))
      → Disjoint 0 ((b2, (e2, w2)) ∷ m)
      → b < b2
      → b2 ≤ sbeg
      → let t = (b2, (e2, w2)) ∷ m in
        insert_step sbeg send v ((b, w) ∷ t) ≡ cons_step (b, w) (insert_step sbeg send v t)
  unfolding insert_step
  step-cons sbeg send v b w b2 e2 w2 m d lt le =
      elim (Option-cases (floor sbeg ((b2, (e2, w2)) ∷ m))) [
        | inl n ↦ absurd (floor-ne-none sbeg b2 (e2, w2) m le n)
        | inr ((fb, (fe, fv)), f) ↦ ground (
          arith,
          f,
          floor-cons sbeg b w ((b2, (e2, w2)) ∷ m),
          floor_key sbeg b2 ((b2, (e2, w2)) ∷ m) fb (fe, fv),
          gap-cons sbeg send v b w ((b2, (e2, w2)) ∷ m),
          gap-cons fb send v b w ((b2, (e2, w2)) ∷ m),
        )
      ]
