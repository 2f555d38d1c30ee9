-- ===== src/Open/Filled.antt =====
-- The sectors that `VmdkReader::open` of src/vmdk_reader.rs fills with zeros, and the extents that it adds
-- for them.
use vmdk_rs.Base.{
  nat_eq, u64_mod, add64, sub64, ℕ, suc, ◌≤◌, ◌<◌, ◌≡◌, refl, ap, ◌∙◌, sym, subst, List, [], ◌∷◌,
  ◌++◌, Option, none, some, length, arith, some_injective, Option-cases, inl, inr,
}
use vmdk_rs.Spans.Map.{SpanMap}
use vmdk_rs.Spans.View.{Disjoint, Gapped, value_at, filled}
use vmdk_rs.Spans.Insert.{insert_span}
use vmdk_rs.Spans.Insert.Fill.{insert_span_fills}
use vmdk_rs.Extent.{Extent, spans}
use vmdk_rs.Image.{zero_extent, zero_fill}
use vmdk_rs.Image.Cover.{filled_all}
use vmdk_rs.Image.Earlier.{first_of}
use vmdk_rs.Image.Zeros.{EndsWithin}
use vmdk_rs.Open.Tiling.{NoneFrom}
use vmdk_rs.Open.Owner.{owner, owner-last, Grown, Grown-self, Grown-trans}

zero_extent-spans : (lb ub : ℕ) → lb < ub → ub < u64_mod → spans (zero_extent lb ub) ≡ (lb, ub) ∷ []
unfolding spans
zero_extent-spans lb ub h k = let e : add64 lb (sub64 ub lb) ≡ ub = omega arith in rw e refl

filled-split :
    (lb ub k x : ℕ) (o : Option ℕ) → filled lb ub k x o ≡ first_of o (filled lb ub k x none)
filled-split lb ub k x none = refl
filled-split lb ub k x (some v) = refl

filled-none : (lb ub k x w : ℕ) → ub ≤ w → w ≤ x → filled lb ub k x none ≡ none
filled-none lb ub k x w h l = ground arith

-- The zero extents are the owners of what they fill.
pub zero_fill-owned :
    (lo w : ℕ) (u : SpanMap ℕ) (es : List Extent) (m : SpanMap (ℕ × ℕ))
    → w < u64_mod
    → Gapped lo u
    → EndsWithin w u
    → Disjoint 0 m
    → NoneFrom w m
    → ((x : ℕ) → value_at m x ≡ owner 0 es x)
    → (r : List Extent × SpanMap (ℕ × ℕ)) × (zero_fill u es m ≡ some r)
      × NoneFrom w r.1
      × ((x : ℕ) → value_at r.1 x ≡ owner 0 r.0 x)
unfolding zero_fill
zero_fill-owned lo w [] es m h g b d n o = ((es, m), refl, n, o)
zero_fill-owned lo w ((lb, ub) ∷ u) es m h g b d n o =
    let k = length es in
    let (m1, e1, d1, v1) = insert_span_fills lb ub k m d g.1 in
    let es1 = es ++ zero_extent lb ub ∷ [] in
    let n1 : NoneFrom w m1 =
      λ x l. v1 x ∙ ap (filled lb ub k x) (n x l) ∙ filled-none lb ub k x w b.0 l in
    let z = zero_extent-spans lb ub g.1 (omega (arith, b.0)) in
    let o1 : (x : ℕ) → value_at m1 x ≡ owner 0 es1 x = λ x.
      v1 x
      ∙ ap (filled lb ub k x) (o x)
      ∙ filled-split lb ub k x (owner 0 es x)
      ∙ ap (λ l. first_of (owner 0 es x) (filled_all k l x none)) (sym z)
      ∙ sym (owner-last es (zero_extent lb ub) x) in
    let (r, er, nr, or) = zero_fill-owned (suc ub) w u es1 m1 h g.2 b.1 d1 n1 o1 in
    (r, rw e1 er, nr, or)

pub zero_fill-Grown :
    (u : SpanMap ℕ) (es : List Extent) (m : SpanMap (ℕ × ℕ)) (z : List Extent × SpanMap (ℕ × ℕ))
    → zero_fill u es m ≡ some z
    → Grown es z.0
unfolding zero_fill
zero_fill-Grown [] es m z e =
    subst (λ (t : List Extent × SpanMap (ℕ × ℕ)). Grown es t.0) (some_injective (es, m) z e)
      (Grown-self es)
zero_fill-Grown ((lb, ub) ∷ u) es m z e = elim (Option-cases (insert_span lb ub (length es) m)) [
  | inl f ↦ let g = rw f at e in cc
  | inr (m1, f) ↦
      let es1 = es ++ zero_extent lb ub ∷ [] in
      Grown-trans es es1 z.0 (zero_extent lb ub ∷ [], refl) (zero_fill-Grown u es1 m1 z (rw f at e))
]
