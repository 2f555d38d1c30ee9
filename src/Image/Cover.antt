-- ===== src/Image/Cover.antt =====
-- What the loops of `VmdkReader::open` in src/vmdk_reader.rs make of the map of spans.
use vmdk_rs.Base.{
  nat_eq, ℕ, suc, ◌<◌, ◌≡◌, refl, ap, ◌∙◌, sym, Bool, true, false, not, ◌&&◌, ltb, List, [], ◌∷◌,
  ◌++◌, Option, none, some, if◌then◌else◌, length, arith,
}
use vmdk_rs.Spans.Map.{SpanMap}
use vmdk_rs.Spans.View.{inside, Disjoint, Gapped, value_at, filled, covered, cleared}
use vmdk_rs.Spans.Insert.Fill.{insert_span_fills}
use vmdk_rs.Spans.Remove.Clear.{remove_span_clears}
use vmdk_rs.Extent.{Extent}
use vmdk_rs.Image.{Covering, add_spans, zero_extent, zero_fill}

abbrev pub is_none : Option ℕ → Bool
is_none none = true
is_none (some v) = false

-- The uncovered sectors are those of the first `n` that no span gives.
pub record Accounts (n : ℕ) (c : Covering) : Type 0 where
  pub disjoint : Disjoint 0 c.spans
  pub gapped : Gapped 0 c.uncovered
  pub accounts : (x : ℕ) → covered c.uncovered x ≡ (ltb x n && is_none (value_at c.spans x))

abbrev pub NonEmpty : List (ℕ × ℕ) → Type 0
NonEmpty [] = Unit
NonEmpty ((b, e) ∷ l) = (b < e) × NonEmpty l

-- The value of sector `x` after the spans of extent `i`: the one that it had, or `i`.
abbrev pub filled_all : ℕ → List (ℕ × ℕ) → ℕ → Option ℕ → Option ℕ
filled_all i [] x o = o
filled_all i ((b, e) ∷ l) x o = filled_all i l x (filled b e i x o)

filled-accounts :
    (b e i n x : ℕ) (o : Option ℕ)
    → cleared b e x (ltb x n && is_none o) ≡ (ltb x n && is_none (filled b e i x o))
filled-accounts b e i n x none = ground arith
filled-accounts b e i n x (some v) = ground arith

one_span :
    (n i b e : ℕ) (l : List (ℕ × ℕ)) (c : Covering)
    → Accounts n c
    → b < e
    → (d : Covering) × (add_spans i ((b, e) ∷ l) c ≡ add_spans i l d)
      × Accounts n d
      × ((x : ℕ) → value_at d.spans x ≡ filled b e i x (value_at c.spans x))
unfolding add_spans
one_span n i b e l c a h =
    let (m, em, dm, vm) = insert_span_fills b e i c.spans a.disjoint h in
    let (u, eu, gu, cu) = remove_span_clears b e c.uncovered a.gapped h in
    (
      record { spans = m; uncovered = u },
      rw em (rw eu refl),
      record {
        disjoint = dm;
        gapped = gu;
        accounts = λ x.
            cu x
            ∙ ap (cleared b e x) (a.accounts x)
            ∙ filled-accounts b e i n x (value_at c.spans x)
            ∙ ap (λ o. ltb x n && is_none o) (sym (vm x));
      },
      vm,
    )

-- `for (beg, end) in ex.spans()`, from maps that keep the account of the first `n` sectors and with
-- spans that are not empty: it ends, keeps the account, and gives the extent to exactly those sectors of the spans that no earlier extent has.
pub add_spans_lem :
    (n i : ℕ) (l : List (ℕ × ℕ)) (c : Covering)
    → Accounts n c
    → NonEmpty l
    → (d : Covering) × (add_spans i l c ≡ some d)
      × Accounts n d
      × ((x : ℕ) → value_at d.spans x ≡ filled_all i l x (value_at c.spans x))
unfolding add_spans
add_spans_lem n i [] c a h = (c, refl, a, λ x. refl)
add_spans_lem n i ((b, e) ∷ l) c a h =
    let (d, ed, ad, vd) = one_span n i b e l c a h.0 in
    let (f, ef, af, vf) = add_spans_lem n i l d ad h.1 in
    (f, ed ∙ ef, af, λ x. vf x ∙ ap (filled_all i l x) (vd x))

zero_filled :
    (lb ub k x : ℕ) (o : Option ℕ) (r : Bool)
    → (is_none (filled lb ub k x o) && not r)
      ≡ (is_none o && not (if inside lb ub x then true else r))
zero_filled lb ub k x none r = ground arith
zero_filled lb ub k x (some v) r = refl

-- `for (lb, ub) in uncovered`: it ends, and gives an extent to the sectors of `uncovered` and to no
-- other.
pub fill_gaps :
    (lo : ℕ) (u : SpanMap ℕ) (extents : List Extent) (m : SpanMap (ℕ × ℕ))
    → Gapped lo u
    → Disjoint 0 m
    → (r : List Extent × SpanMap (ℕ × ℕ)) × (zero_fill u extents m ≡ some r)
      × Disjoint 0 r.1
      × ((x : ℕ) → is_none (value_at r.1 x) ≡ (is_none (value_at m x) && not (covered u x)))
unfolding zero_fill
fill_gaps lo [] extents m g d = ((extents, m), refl, d, λ x. ground arith)
fill_gaps lo ((lb, ub) ∷ u) extents m g d =
    let (m1, e1, d1, v1) = insert_span_fills lb ub (length extents) m d g.1 in
    let (r, er, dr, vr) = fill_gaps (suc ub) u (extents ++ zero_extent lb ub ∷ []) m1 g.2 d1 in
    (
      r,
      rw e1 er,
      dr,
      λ x.
          vr x
          ∙ ap (λ o. is_none o && not (covered u x)) (v1 x)
          ∙ zero_filled lb ub (length extents) x (value_at m x) (covered u x),
    )

given : (n x : ℕ) (o : Option ℕ) → (ltb x n && (is_none o && not (ltb x n && is_none o))) ≡ false
given n x none = ground arith
given n x (some v) = ground arith

-- When the account of the uncovered sectors is kept, filling them ends with a map of disjoint spans
-- that gives an extent to each of the first `n` sectors.
pub zero_fill_lem :
    (n : ℕ) (extents : List Extent) (c : Covering)
    → Accounts n c
    → (r : List Extent × SpanMap (ℕ × ℕ)) × (zero_fill c.uncovered extents c.spans ≡ some r)
      × Disjoint 0 r.1
      × ((x : ℕ) → (ltb x n && is_none (value_at r.1 x)) ≡ false)
zero_fill_lem n extents c a =
    let (r, e, d, v) = fill_gaps 0 c.uncovered extents c.spans a.gapped a.disjoint in
    (
      r,
      e,
      d,
      λ x.
          ap (λ b. ltb x n && b) (v x)
          ∙ ap (λ b. ltb x n && (is_none (value_at c.spans x) && not b)) (a.accounts x)
          ∙ given n x (value_at c.spans x),
    )
