-- ===== src/Image/Zeros.antt =====
-- The extents of zeros that `VmdkReader::open` of src/vmdk_reader.rs adds for the sectors that no image
-- gives.
use vmdk_rs.Base.{
  nat_eq, u64_mod, sub64, ℕ, suc, ◌-◌, ◌≤◌, ◌<◌, ◌≡◌, refl, ap, ◌∙◌, sym, false, ◌&&◌, ltb, List,
  [], ◌∷◌, ◌++◌, Option, none, some, length, arith, if◌then◌else◌, some_injective, subst,
}
use native.Mathlib.Decide.{dec_le}
use mathlib.Core.List.{append_assoc, append-nil}
use vmdk_rs.Spans.Map.{SpanMap}
use vmdk_rs.Spans.View.{inside, Disjoint, Gapped, covered, value_at, filled}
use vmdk_rs.Spans.Insert.Fill.{insert_span_fills}
use vmdk_rs.Storage.{zeroed}
use vmdk_rs.Extent.{Extent}
use vmdk_rs.Image.{Covering, zero_extent, zero_fill}
use vmdk_rs.Image.Cover.{is_none, Accounts, zero_fill_lem}
use vmdk_rs.Image.Earlier.{first_of}

-- The end of each uncovered span.
abbrev pub EndsWithin : ℕ → SpanMap ℕ → Type 0
EndsWithin w [] = Unit
EndsWithin w ((b, e) ∷ u) = (e ≤ w) × EndsWithin w u

pub covered-EndsWithin :
    (lo w : ℕ) (u : SpanMap ℕ)
    → Gapped lo u
    → ((x : ℕ) → w ≤ x → covered u x ≡ false)
    → EndsWithin w u
covered-EndsWithin lo w [] g h = tt
covered-EndsWithin lo w ((b, e) ∷ u) g h = (
  elim (dec_le e w) [
    | yes p ↦ p
    | no p ↦ let f = h (e - 1) (omega arith) in ground (arith, f, g.1)
  ],
  covered-EndsWithin (suc e) w u g.2 (λ x k. let f = h x k in ground (arith, f)),
)

-- An extent of zeros over each of the spans.
abbrev pub zeros : SpanMap ℕ → List Extent
zeros [] = []
zeros ((lb, ub) ∷ u) = record { start_sector = lb; sectors = ub - lb; storage = zeroed } ∷ zeros u

-- The index of the first of the spans that has sector `x`, counted from `k`.
abbrev pub span_at : ℕ → SpanMap ℕ → ℕ → Option ℕ
span_at k [] x = none
span_at k ((lb, ub) ∷ u) x = if inside lb ub x then some k else span_at (suc k) u x

first_of-filled :
    (lb ub k x : ℕ) (o p : Option ℕ)
    → first_of (filled lb ub k x o) p ≡ first_of o (if inside lb ub x then some k else p)
first_of-filled lb ub k x none p = ground arith
first_of-filled lb ub k x (some v) p = refl

first_of-none : (o : Option ℕ) → o ≡ first_of o none
first_of-none none = refl
first_of-none (some v) = refl

length-last : (es : List Extent) (ex : Extent) → length (es ++ ex ∷ []) ≡ suc (length es)
length-last [] ex = refl
length-last (d ∷ es) ex = ap suc (length-last es ex)

zero_extent_lem :
    (lb ub : ℕ)
    → lb < ub
    → ub < u64_mod
    → zero_extent lb ub ≡ record { start_sector = lb; sectors = ub - lb; storage = zeroed }
zero_extent_lem lb ub h k = let e : sub64 ub lb ≡ ub - lb = omega arith in rw e refl

fill-zeros :
    (lo w : ℕ) (u : SpanMap ℕ) (extents : List Extent) (m : SpanMap (ℕ × ℕ))
    → w < u64_mod
    → Gapped lo u
    → EndsWithin w u
    → Disjoint 0 m
    → (r : List Extent × SpanMap (ℕ × ℕ)) × (zero_fill u extents m ≡ some r)
      × (r.0 ≡ extents ++ zeros u)
      × ((x : ℕ) → value_at r.1 x ≡ first_of (value_at m x) (span_at (length extents) u x))
unfolding zero_fill
fill-zeros lo w [] extents m h g e d =
    ((extents, m), refl, sym (append-nil extents), λ x. first_of-none (value_at m x))
fill-zeros lo w ((lb, ub) ∷ u) extents m h g e d =
    let k = length extents in
    let (m1, e1, d1, v1) = insert_span_fills lb ub k m d g.1 in
    let ex = zero_extent lb ub in
    let es = extents ++ ex ∷ [] in
    let (r, er, zr, vr) = fill-zeros (suc ub) w u es m1 h g.2 e.1 d1 in
    let z = zero_extent_lem lb ub g.1 (omega (arith, e.0, h)) in
    (
      r,
      rw e1 er,
      zr ∙ append_assoc extents (ex ∷ []) (zeros u) ∙ ap (λ y. extents ++ y ∷ zeros u) z,
      λ x.
          vr x
          ∙ ap (λ j. first_of (value_at m1 x) (span_at j u x)) (length-last extents ex)
          ∙ ap (λ o. first_of o (span_at (suc k) u x)) (v1 x)
          ∙ first_of-filled lb ub k x (value_at m x) (span_at (suc k) u x),
    )

beyond : (n x : ℕ) (o : Option ℕ) → n ≤ x → (ltb x n && is_none o) ≡ false
beyond n x o h = ground arith

-- When the account of the uncovered sectors of an image of `n` sectors is kept, and `n` is a `u64`: filling
-- them ends; behind the extents there is then one of zeros for each uncovered span, with its first sector
-- and its length; the spans are disjoint; every sector keeps the extent that it has, or else is given to
-- the extent of zeros of the uncovered span that has it; and each of the `n` sectors has an extent.
pub zero_fill-zeros :
    (n : ℕ) (extents : List Extent) (c : Covering)
    → Accounts n c
    → n < u64_mod
    → (r : List Extent × SpanMap (ℕ × ℕ)) × (zero_fill c.uncovered extents c.spans ≡ some r)
      × (r.0 ≡ extents ++ zeros c.uncovered)
      × Disjoint 0 r.1
      × ((x : ℕ)
          → value_at r.1 x ≡ first_of (value_at c.spans x) (span_at (length extents) c.uncovered x))
      × ((x : ℕ) → (ltb x n && is_none (value_at r.1 x)) ≡ false)
zero_fill-zeros n extents c a h =
    let ends =
      covered-EndsWithin 0 n c.uncovered a.gapped
        (λ x k. a.accounts x ∙ beyond n x (value_at c.spans x) k) in
    let (r, er, zr, vr) = fill-zeros 0 n c.uncovered extents c.spans h a.gapped ends a.disjoint in
    let (s, es, ds, gs) = zero_fill_lem n extents c a in
    let q : s ≡ r = some_injective s r (sym es ∙ er) in
    (
      r,
      er,
      zr,
      subst (λ (t : List Extent × SpanMap (ℕ × ℕ)). Disjoint 0 t.1) q ds,
      vr,
      subst
          (λ (t : List Extent × SpanMap (ℕ × ℕ)).
            (x : ℕ) → (ltb x n && is_none (value_at t.1 x)) ≡ false)
          q gs,
    )
