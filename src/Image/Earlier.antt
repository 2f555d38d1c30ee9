-- ===== src/Image/Earlier.antt =====
-- The loop of `VmdkReader::open` in src/vmdk_reader.rs over the extents of an image: earlier extents win.
use vmdk_rs.Base.{
  nat_eq, ℕ, ◌≡◌, refl, ap, ◌∙◌, Bool, true, false, not, ◌&&◌, List, [], ◌∷◌, ◌++◌, Option, none,
  some, length,
}
use vmdk_rs.Spans.Map.{is_empty}
use vmdk_rs.Spans.View.{value_at}
use vmdk_rs.Extent.{Extent, spans}
use vmdk_rs.Image.{next_idx, Covering, add_extents}
use vmdk_rs.Image.Cover.{NonEmpty, Accounts, filled_all, add_spans_lem}

abbrev pub first_of : Option ℕ → Option ℕ → Option ℕ
first_of none p = p
first_of (some v) p = some v

filled_all-some : (i : ℕ) (l : List (ℕ × ℕ)) (x v : ℕ) → filled_all i l x (some v) ≡ some v
filled_all-some i [] x v = refl
filled_all-some i ((b, e) ∷ l) x v = filled_all-some i l x v

pub filled_all-first_of :
    (i : ℕ) (l : List (ℕ × ℕ)) (x : ℕ) (o p : Option ℕ) → p ≡ filled_all i l x o → p ≡ first_of o p
filled_all-first_of i l x none p e = refl
filled_all-first_of i l x (some v) p e = e ∙ filled_all-some i l x v

-- The spans of every extent are not empty.
abbrev pub AllNonEmpty : List Extent → Type 0
AllNonEmpty [] = Unit
AllNonEmpty (ex ∷ exs) = NonEmpty (spans ex) × AllNonEmpty exs

-- A sector that an extent has keeps it.
abbrev pub Keeps : Covering → Covering → Type 0
Keeps c d = (x : ℕ) → value_at d.spans x ≡ first_of (value_at c.spans x) (value_at d.spans x)

first_of_self : (o : Option ℕ) → o ≡ first_of o o
first_of_self none = refl
first_of_self (some v) = refl

first_of_again : (o p q : Option ℕ) → p ≡ first_of o p → q ≡ first_of p q → q ≡ first_of o q
first_of_again none p q e f = refl
first_of_again (some v) p q e f = f ∙ ap (λ r. first_of r q) e

-- What adding extents ends with: whether to stop, the next index, the extents, and the two maps.
abbrev pub Added : ℕ → Covering → Option (Bool × (ℕ × (List Extent × Covering))) → Type 0
Added n c o =
    (stop : Bool) × (idx : ℕ) × (es : List Extent) × (d : Covering) × (o
      ≡ some (stop, (idx, (es, d))))
    × Accounts n d
    × Keeps c d
    × ((stop && not (is_empty d.uncovered)) ≡ false)

add_rest :
    (n : ℕ) (b : Bool) (idx : ℕ) (es : List Extent) (c d : Covering)
    (rest : Option (Bool × (ℕ × (List Extent × Covering))))
    → Accounts n d
    → Keeps c d
    → is_empty d.uncovered ≡ b
    → Added n d rest
    → Added n c (elim b [ true ↦ some (true, (idx, (es, d))) | false ↦ rest ])
add_rest n true idx es c d rest a k e r = (true, idx, es, d, refl, a, k, ap not e)
add_rest n false idx es c d rest a k e (stop, idx', fs, f, ef, af, kf, sf) = (
  stop,
  idx',
  fs,
  f,
  ef,
  af,
  λ x. first_of_again (value_at c.spans x) (value_at d.spans x) (value_at f.spans x) (k x) (kf x),
  sf,
)

-- `for ex in img_extents`, from maps that keep the account of the first `n` sectors and with spans that
-- are not empty: it ends, keeps the account, gives no sector of an extent that was added before to
-- another one, and stops the search for parents only where nothing is uncovered.
pub add_extents_lem :
    (n : ℕ) (exs : List Extent) (idx : ℕ) (extents : List Extent) (c : Covering)
    → Accounts n c
    → AllNonEmpty exs
    → Added n c (add_extents exs idx extents c)
unfolding add_extents
add_extents_lem n [] idx extents c a h =
    (false, idx, extents, c, refl, a, λ x. first_of_self (value_at c.spans x), refl)
add_extents_lem n (ex ∷ exs) idx extents c a h =
    let (d, ed, ad, vd) = add_spans_lem n (length extents) (spans ex) c a h.0 in
    let k : Keeps c d = λ x.
      filled_all-first_of (length extents) (spans ex) x (value_at c.spans x) (value_at d.spans x)
        (vd x) in
    rw ed (
      add_rest n (is_empty d.uncovered) (next_idx ex idx) (extents ++ ex ∷ []) c d
        (add_extents exs (next_idx ex idx) (extents ++ ex ∷ []) d) ad k refl
        (add_extents_lem n exs (next_idx ex idx) (extents ++ ex ∷ []) d ad h.1))
