-- ===== src/Open/Owner.antt =====
-- Which extent has a sector, and what the loops over extents keep of it, in `VmdkReader::open` of src/vmdk_reader.rs.
use vmdk_rs.Base.{
  nat_eq, ℕ, suc, ◌+◌, ◌≤◌, ◌<◌, ◌≡◌, refl, ap, ◌∙◌, sym, Bool, true, false, List, [], ◌∷◌, ◌++◌,
  Option, none, some, length, arith, subst, some_injective, Option-cases, ◌⊎◌, inl, inr,
}
use mathlib.Core.List.{append_assoc, append-nil}
use vmdk_rs.Spans.Map.{is_empty}
use vmdk_rs.Spans.View.{value_at, filled}
use vmdk_rs.Extent.{Extent, spans}
use vmdk_rs.Image.{Covering, add_spans, add_extents, next_idx}
use vmdk_rs.Image.Cover.{Accounts, NonEmpty, filled_all, add_spans_lem}
use vmdk_rs.Image.Earlier.{first_of, filled_all-first_of}
use vmdk_rs.Open.Tiling.{NoneFrom}

-- The spans are not empty and end at `w` at the latest.
abbrev pub SpansWithin : ℕ → List (ℕ × ℕ) → Type 0
SpansWithin w [] = Unit
SpansWithin w ((b, e) ∷ l) = (b < e) × (e ≤ w) × SpansWithin w l

abbrev pub ExtentsWithin : ℕ → List Extent → Type 0
ExtentsWithin w [] = Unit
ExtentsWithin w (ex ∷ exs) = SpansWithin w (spans ex) × ExtentsWithin w exs

SpansWithin-NonEmpty : (w : ℕ) (l : List (ℕ × ℕ)) → SpansWithin w l → NonEmpty l
SpansWithin-NonEmpty w [] h = tt
SpansWithin-NonEmpty w ((b, e) ∷ l) h = (h.0, SpansWithin-NonEmpty w l h.2)

filled_all-none :
    (w i : ℕ) (l : List (ℕ × ℕ)) (x : ℕ) → SpansWithin w l → w ≤ x → filled_all i l x none ≡ none
filled_all-none w i [] x h k = refl
filled_all-none w i ((b, e) ∷ l) x h k =
    let f : filled b e i x none ≡ none = ground (arith, h.1) in
    ap (filled_all i l x) f ∙ filled_all-none w i l x h.2 k

-- The first of the extents that has sector `x`, counted from `k`.
abbrev pub owner : ℕ → List Extent → ℕ → Option ℕ
owner k [] x = none
owner k (ex ∷ exs) x = first_of (filled_all k (spans ex) x none) (owner (suc k) exs x)

first_of_assoc : (o p q : Option ℕ) → first_of (first_of o p) q ≡ first_of o (first_of p q)
first_of_assoc none p q = refl
first_of_assoc (some v) p q = refl

first_of-none : (o : Option ℕ) → first_of o none ≡ o
first_of-none none = refl
first_of-none (some v) = refl

owner-append :
    (k : ℕ) (es : List Extent) (ex : Extent) (x : ℕ)
    → owner k (es ++ ex ∷ []) x
      ≡ first_of (owner k es x) (filled_all (k + length es) (spans ex) x none)
owner-append k [] ex x =
    let e : k + 0 ≡ k = omega arith in rw e (first_of-none (filled_all k (spans ex) x none))
owner-append k (d ∷ es) ex x =
    let e : k + suc (length es) ≡ suc k + length es = omega arith in
    ap (first_of (filled_all k (spans d) x none)) (owner-append (suc k) es ex x)
    ∙ rw e (sym (first_of_assoc (filled_all k (spans d) x none) (owner (suc k) es x) _))

pub owner-last :
    (es : List Extent) (ex : Extent) (x : ℕ)
    → owner 0 (es ++ ex ∷ []) x ≡ first_of (owner 0 es x) (filled_all (length es) (spans ex) x none)
owner-last es ex x =
    let z : 0 + length es ≡ length es = omega arith in rw z at (owner-append 0 es ex x)

-- A value that the spans of extent `i` are added to.
pub filled_all-split :
    (i : ℕ) (l : List (ℕ × ℕ)) (x : ℕ) (o : Option ℕ)
    → filled_all i l x o ≡ first_of o (filled_all i l x none)
filled_all-split i l x none = refl
filled_all-split i l x (some v) = filled_all-first_of i l x (some v) _ refl

-- What holds of the extents and of the maps between the rounds.
pub record Sound (n w : ℕ) (extents : List Extent) (c : Covering) : Type 0 where
  pub accounts : Accounts n c
  pub beyond : NoneFrom w c.spans
  pub owned : (x : ℕ) → value_at c.spans x ≡ owner 0 extents x

add_spans-Sound :
    (n w : ℕ) (ex : Extent) (es : List Extent) (c : Covering)
    → Sound n w es c
    → SpansWithin w (spans ex)
    → (d : Covering) × (add_spans (length es) (spans ex) c ≡ some d) × Sound n w (es ++ ex ∷ []) d
add_spans-Sound n w ex es c s h =
    let i = length es in
    let l = spans ex in
    let (d, e, a, v) = add_spans_lem n i l c s.accounts (SpansWithin-NonEmpty w l h) in
    (
      d,
      e,
      record {
        accounts = a;
        beyond = λ x k. v x ∙ ap (filled_all i l x) (s.beyond x k) ∙ filled_all-none w i l x h k;
        owned = λ x.
            v x
            ∙ ap (filled_all i l x) (s.owned x)
            ∙ filled_all-split i l x (owner 0 es x)
            ∙ sym (owner-last es ex x);
      },
    )

-- `ds` are the extents `es` and more behind them.
abbrev pub Grown : List Extent → List Extent → Type 0
Grown es ds = (more : List Extent) × (ds ≡ es ++ more)

pub Grown-self : (es : List Extent) → Grown es es
Grown-self es = ([], sym (append-nil es))

pub Grown-trans : (a b c : List Extent) → Grown a b → Grown b c → Grown a c
Grown-trans a b c (m, e) (n, f) = (m ++ n, f ∙ ap (λ l. l ++ n) e ∙ append_assoc a m n)

ExtentsWithin-front :
    (w : ℕ) (es more : List Extent) → ExtentsWithin w (es ++ more) → ExtentsWithin w es
ExtentsWithin-front w [] more h = tt
ExtentsWithin-front w (ex ∷ es) more h = (h.0, ExtentsWithin-front w es more h.1)

ExtentsWithin-last :
    (w : ℕ) (es : List Extent) (ex : Extent)
    → ExtentsWithin w (es ++ ex ∷ [])
    → SpansWithin w (spans ex)
ExtentsWithin-last w [] ex h = h.0
ExtentsWithin-last w (d ∷ es) ex h = ExtentsWithin-last w es ex h.1

pub ExtentsWithin-Grown :
    (w : ℕ) (es ds : List Extent) → Grown es ds → ExtentsWithin w ds → ExtentsWithin w es
ExtentsWithin-Grown w es ds (more, e) h =
    ExtentsWithin-front w es more (subst (ExtentsWithin w) e h)

add_spans-last :
    (n w : ℕ) (ex : Extent) (es : List Extent) (c d : Covering)
    → Sound n w es c
    → ExtentsWithin w (es ++ ex ∷ [])
    → add_spans (length es) (spans ex) c ≡ some d
    → Sound n w (es ++ ex ∷ []) d
add_spans-last n w ex es c d s h e =
    let (b, f, t) = add_spans-Sound n w ex es c s (ExtentsWithin-last w es ex h) in
    subst (Sound n w (es ++ ex ∷ [])) (some_injective b d (sym f ∙ e)) t

-- What the loop over the extents of an image ends with.
abbrev pub Extension : Type 0
Extension = Bool × (ℕ × (List Extent × Covering))

ended :
    (b : Bool) (x r : Extension) (rest : Option Extension)
    → elim b [ true ↦ some x | false ↦ rest ] ≡ some r
    → (x ≡ r) ⊎ (rest ≡ some r)
ended true x r rest e = inl (some_injective x r e)
ended false x r rest e = inr e

-- The extents are added behind those before, and when all of them are within `w` the maps stay sound.
abbrev pub Extends : ℕ → ℕ → List Extent → Covering → Extension → Type 0
Extends n w extents c r =
    Grown extents r.1.1.0
    × (ExtentsWithin w r.1.1.0 → Sound n w extents c → Sound n w r.1.1.0 r.1.1.1)

pub add_extents-Extends :
    (n w : ℕ) (exs : List Extent) (idx : ℕ) (extents : List Extent) (c : Covering) (r : Extension)
    → add_extents exs idx extents c ≡ some r
    → Extends n w extents c r
unfolding add_extents
add_extents-Extends n w [] idx extents c r e =
    subst (Extends n w extents c) (some_injective (false, (idx, (extents, c))) r e)
      (Grown-self extents, λ h s. s)
add_extents-Extends n w (ex ∷ exs) idx extents c r e =
    elim (Option-cases (add_spans (length extents) (spans ex) c)) [
      | inl f ↦ let g = rw f at e in cc
      | inr (d, f) ↦
          let es = extents ++ ex ∷ [] in
          let k = next_idx ex idx in
          let one : Grown extents es = (ex ∷ [], refl) in
          elim (ended (is_empty d.uncovered) (true, (k, (es, d))) r (add_extents exs k es d)
            (rw f at e)) [
              | inl q ↦
                  subst (Extends n w extents c) q
                    (one, λ h s. add_spans-last n w ex extents c d s h f)
              | inr q ↦
                  let (g, t) = add_extents-Extends n w exs k es d r q in
                  (
                    Grown-trans extents es r.1.1.0 one g,
                    λ h s. t h (
                        add_spans-last n w ex extents c d s (ExtentsWithin-Grown w es r.1.1.0 g h)
                          f),
                  )
            ]
    ]
