-- ===== src/Spans/Remove/Round.antt =====
-- One round of the loop of `remove_span`.
use vmdk_rs.Base.{ℕ, suc, ◌≤◌, ◌<◌, ◌≡◌, refl, [], ◌∷◌, none, some, arith, false, ◌≢◌}
use vmdk_rs.Spans.Map.{SpanMap, Step, done, again, or_else, floor, above, insert, remove}
use vmdk_rs.Spans.View.{Gapped, covered, cleared, covered_before, Gapped-mono}
use vmdk_rs.Spans.Remove.{remove_next, remove_step}

-- The map that a round leaves, how far it has come, and whether it stopped off every span.
abbrev pub map_of : Step (SpanMap ℕ) → SpanMap ℕ
map_of (done m) = m
map_of (again s m) = m

abbrev pub reached : ℕ → Step (SpanMap ℕ) → ℕ
reached send (done m) = send
reached send (again s m) = s

abbrev pub IsClear : Step (SpanMap ℕ) → Type 0
IsClear (done m) = Unit
IsClear (again s m) = covered m s ≡ false

abbrev pub cons_step : ℕ × ℕ → Step (SpanMap ℕ) → Step (SpanMap ℕ)
cons_step h (done m) = done (h ∷ m)
cons_step h (again s m) = again s (h ∷ m)

insert_before : (k v lo : ℕ) (m : SpanMap ℕ) → Gapped lo m → k < lo → insert k v m ≡ (k, v) ∷ m
unfolding insert
insert_before k v lo [] d h = refl
insert_before k v lo ((b, e) ∷ m) d h = ground arith

pub floor_after :
    (k lb le b e : ℕ) (m : SpanMap ℕ)
    → lb ≤ k
    → k < b
    → floor k ((lb, le) ∷ (b, e) ∷ m) ≡ some (lb, le)
unfolding floor
floor_after k lb le b e m p q = ground arith

pub floor-cons :
    (k b e : ℕ) (m : SpanMap ℕ) → b ≤ k → floor k ((b, e) ∷ m) ≡ or_else (floor k m) (some (b, e))
unfolding floor
floor-cons k b e m h = ground arith

pub floor-ne-none : (k b e : ℕ) (m : SpanMap ℕ) → b ≤ k → floor k ((b, e) ∷ m) ≢ none
unfolding floor
floor-ne-none k b e m h = ground arith

pub floor_key :
    (k lo : ℕ) (m : SpanMap ℕ) (b e : ℕ)
    → Gapped lo m
    → floor k m ≡ some (b, e)
    → (lo ≤ b) × (b < e)
unfolding floor
floor_key k lo [] b e d h = cc
floor_key k lo ((b', e') ∷ m) b e d h = ground (arith, floor_key k (suc e') m b e)

pub above_key : (k : ℕ) (m : SpanMap ℕ) (b e : ℕ) → above k m ≡ some (b, e) → k < b
unfolding above
above_key k [] b e h = cc
above_key k ((b', e') ∷ m) b e h = ground (arith, above_key k m b e)

-- Up to the next span nothing is covered: the second half on a map whose spans all lie ahead.
pub next_shape :
    (sbeg send b e : ℕ) (m : SpanMap ℕ)
    → Gapped (suc sbeg) ((b, e) ∷ m)
    → sbeg < send
    → let r = remove_next sbeg send ((b, e) ∷ m) in
      Gapped (suc sbeg) (map_of r) × (sbeg < reached send r) × (reached send r ≤ send) × IsClear r
unfolding remove_next above remove
next_shape sbeg send b e m d h = ground (
  arith,
  insert_before send e (suc e) m,
  covered_before (suc e) m e,
  Gapped-mono {lo = suc sbeg} {hi = suc e} m,
)

pub next_values :
    (sbeg send b e : ℕ) (m : SpanMap ℕ) (x : ℕ)
    → Gapped (suc sbeg) ((b, e) ∷ m)
    → sbeg < send
    → let r = remove_next sbeg send ((b, e) ∷ m) in
      covered (map_of r) x ≡ cleared sbeg (reached send r) x (covered ((b, e) ∷ m) x)
unfolding remove_next above remove
next_values sbeg send b e m x d h =
    ground (arith, insert_before send e (suc e) m, covered_before (suc e) m x)

-- The span that covers `sbeg` is cut, and the rest of the round starts from its end.
pub covering_shape :
    (sbeg send lb le b e : ℕ) (m : SpanMap ℕ)
    → Gapped 0 ((lb, le) ∷ (b, e) ∷ m)
    → sbeg < send
    → lb ≤ sbeg
    → sbeg < le
    → let r = remove_step sbeg send ((lb, le) ∷ (b, e) ∷ m) in
      Gapped lb (map_of r) × (sbeg < reached send r) × (reached send r ≤ send) × IsClear r
unfolding remove_step remove_next floor above insert remove
covering_shape sbeg send lb le b e m d h k c = ground (
  arith,
  insert_before send e (suc e) m,
  covered_before (suc e) m e,
  Gapped-mono {lo = suc sbeg} {hi = suc e} m,
  Gapped-mono {lo = lb} {hi = suc e} m,
)

pub covering_within :
    (sbeg send lb le b e : ℕ) (m : SpanMap ℕ) (x : ℕ)
    → Gapped 0 ((lb, le) ∷ (b, e) ∷ m)
    → sbeg < send
    → lb ≤ sbeg
    → sbeg < le
    → send ≤ le
    → let r = remove_step sbeg send ((lb, le) ∷ (b, e) ∷ m) in
      covered (map_of r) x ≡ cleared sbeg (reached send r) x (covered ((lb, le) ∷ (b, e) ∷ m) x)
unfolding remove_step floor insert remove
covering_within sbeg send lb le b e m x d h k c n = ground (arith, covered_before (suc e) m x)

pub covering_past :
    (sbeg send lb le b e : ℕ) (m : SpanMap ℕ) (x : ℕ)
    → Gapped 0 ((lb, le) ∷ (b, e) ∷ m)
    → sbeg < send
    → lb < sbeg
    → sbeg < le
    → le < send
    → let r = remove_step sbeg send ((lb, le) ∷ (b, e) ∷ m) in
      covered (map_of r) x ≡ cleared sbeg (reached send r) x (covered ((lb, le) ∷ (b, e) ∷ m) x)
unfolding remove_step remove_next floor above insert remove
covering_past sbeg send lb le b e m x d h k c n =
    ground (arith, insert_before send e (suc e) m, covered_before (suc e) m x)

pub covering_whole :
    (sbeg send le b e : ℕ) (m : SpanMap ℕ) (x : ℕ)
    → Gapped 0 ((sbeg, le) ∷ (b, e) ∷ m)
    → sbeg < send
    → sbeg < le
    → le < send
    → let r = remove_step sbeg send ((sbeg, le) ∷ (b, e) ∷ m) in
      covered (map_of r) x ≡ cleared sbeg (reached send r) x (covered ((sbeg, le) ∷ (b, e) ∷ m) x)
unfolding remove_step remove_next floor above insert remove
covering_whole sbeg send le b e m x d h c n =
    ground (arith, insert_before send e (suc e) m, covered_before (suc e) m x)
