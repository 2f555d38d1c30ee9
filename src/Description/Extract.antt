-- ===== src/Description/Extract.antt =====
-- What `extract_extent_descriptions` of src/extent_description.rs can return.
use vmdk_rs.Base.{
  ℕ, ◌≡◌, ◌≢◌, suc, length, refl, subst, false, Bool-cases, inl, inr, List, [], ◌∷◌, Option, none,
  some, arith, ◌==◌,
}
use vmdk_rs.Text.{
  Text, is_whitespace, trim, trim_start, trim_end, cons_trimmed, split_once, cons_first,
}
use vmdk_rs.Description.{
  ◌>>=◌, ExtentDescriptionLine, ExtentDescriptionInner, ExtentDescription, kind_of_inner,
  parse_target, parse_line, inner_of, description_of, is_extent_line,
}

>>=-eq-some {ℓ κ} :
    {A : Type ℓ} {B : Type κ} (m : Option A) (f : A → Option B) {b : B}
    → (m >>= f) ≡ some b
    → (a : A) × (m ≡ some a) × (f a ≡ some b)
>>=-eq-some none f h = cc
>>=-eq-some (some a) f h = (a, refl, h)

-- Not empty, and no white space at the end.
abbrev Solid : Text → Type 0
Solid [] = ⊥
Solid (c ∷ []) = is_whitespace c ≡ false
Solid (c ∷ d ∷ s) = Solid (d ∷ s)

cons_trimmed-Solid :
    (c : ℕ) (r : Text) → (r ≢ [] → Solid r) → cons_trimmed c r ≢ [] → Solid (cons_trimmed c r)
cons_trimmed-Solid c [] h n = elim (Bool-cases (is_whitespace c)) [
  | inl w ↦ absurd (n (rw w))
  | inr w ↦ rw w w
]
cons_trimmed-Solid c (d ∷ s) h n = h (ground arith)

trim_end-Solid : (t : Text) → trim_end t ≢ [] → Solid (trim_end t)
unfolding trim_end
trim_end-Solid [] n = absurd (n refl)
trim_end-Solid (c ∷ s) n = cons_trimmed-Solid c (trim_end s) (trim_end-Solid s) n

trim_start-Solid : (t : Text) → Solid t → Solid (trim_start t)
unfolding trim_start
trim_start-Solid [] h = h
trim_start-Solid (c ∷ []) h = rw h h
trim_start-Solid (c ∷ d ∷ s) h = elim (Bool-cases (is_whitespace c)) [
  | inl w ↦ rw w (trim_start-Solid (d ∷ s) h)
  | inr w ↦ rw w h
]

cons_first-some :
    (x : ℕ) (o : Option (Text × Text)) (a b : Text)
    → cons_first x o ≡ some (a, b)
    → (a' : Text) × (o ≡ some (a', b))
cons_first-some x none a b h = cc
cons_first-some x (some (a', b')) a b h = (a', cc)

split_once-Solid : (t a b : Text) → Solid t → split_once b' ' t ≡ some (a, b) → Solid b
unfolding split_once is_whitespace
split_once-Solid [] a b h e = absurd h
split_once-Solid (x ∷ []) a b h e = ground arith
split_once-Solid (x ∷ d ∷ s) a b h e = elim (Bool-cases (x == b' ')) [
  | inl w ↦ let q : d ∷ s ≡ b = ground (arith, e) in subst Solid q h
  | inr w ↦
      let e' : cons_first x (split_once b' ' (d ∷ s)) ≡ some (a, b) = ground (arith, e) in
      let (a', q) = cons_first-some x (split_once b' ' (d ∷ s)) a b e' in
      split_once-Solid (d ∷ s) a' b h q
]

parse_target-filename :
    (t : Text) (file : Option Text) (off : Option ℕ)
    → Solid t
    → parse_target t ≡ some (file, off)
    → file ≢ none
unfolding parse_target
parse_target-filename [] file off h e = absurd h
parse_target-filename (c ∷ s) file off h e = ground arith

split_once-ne-nil : (t a b : Text) → split_once b' ' t ≡ some (a, b) → t ≢ []
unfolding split_once
split_once-ne-nil [] a b h n = cc
split_once-ne-nil (x ∷ t) a b h n = cc n

-- Every value that the option may hold satisfies `P`.
data Ensures {A : Type 0} (P : A → Type 0) : Option A → Type 0 where
  nothing : Ensures P none
  value : {a : A} → P a → Ensures P (some a)

bind_with :
    {A B : Type 0} {P : B → Type 0} (Q : A → Type 0) {m : Option A} {f : A → Option B}
    → Ensures Q m
    → ((a : A) → Q a → Ensures P (f a))
    → Ensures P (m >>= f)
bind_with Q nothing k = nothing
bind_with Q (value {a = a} h) k = k a h

bind_any :
    {A B : Type 0} {P : B → Type 0} (m : Option A) {f : A → Option B}
    → ((a : A) → Ensures P (f a))
    → Ensures P (m >>= f)
bind_any none k = nothing
bind_any (some a) k = k a

Ensures-some :
    {A : Type 0} (P : A → Type 0) (o : Option A) → ((a : A) → o ≡ some a → P a) → Ensures P o
Ensures-some P none h = nothing
Ensures-some P (some a) h = value (h a refl)

some-Ensures : {A : Type 0} {P : A → Type 0} {o : Option A} (a : A) → Ensures P o → o ≡ some a → P a
some-Ensures a nothing e = cc
some-Ensures {P = P} a (value {a = a'} h) e = let q : a' ≡ a = cc in subst P q h

-- The text that the parser of a line starts from.
trimmed-Solid :
    (s a b : Text)
    → split_once b' ' (trim_start (trim s)) ≡ some (a, b)
    → Solid (trim_start (trim s))
trimmed-Solid s a b h = trim_start-Solid _ (
    trim_start-Solid _
      (trim_end-Solid s (λ n. split_once-ne-nil _ a b h (unfold trim_start in rw n))))

first_field :
    (s : Text) → Ensures (λ (p : Text × Text). Solid p.1) (split_once b' ' (trim_start (trim s)))
first_field s =
    Ensures-some _ (split_once b' ' (trim_start (trim s)))
      (λ p e. split_once-Solid (trim_start (trim s)) p.0 p.1 (trimmed-Solid s p.0 p.1 e) e)

next_field :
    (t : Text) → Solid t → Ensures (λ (p : Text × Text). Solid p.1) (split_once b' ' (trim_start t))
next_field t h =
    Ensures-some _ (split_once b' ' (trim_start t))
      (λ p e. split_once-Solid (trim_start t) p.0 p.1 (trim_start-Solid t h) e)

-- A line that parses names a file.
parse_line-Ensures :
    (s : Text) → Ensures (λ (l : ExtentDescriptionLine). l.filename ≢ none) (parse_line s)
unfolding parse_line
parse_line-Ensures s = bind_with _ (first_field s) λ p1 h1. bind_any _ λ m.
    bind_with _ (next_field p1.1 h1) λ p2 h2. bind_any _ λ n.
      bind_with _ (next_field p2.1 h2) λ p3 h3. bind_any _ λ k.
        bind_with (λ (t : Option Text × Option ℕ). t.0 ≢ none)
          (Ensures-some _ (parse_target (trim_start p3.1))
            (λ t e. parse_target-filename (trim_start p3.1) t.0 t.1 (trim_start-Solid p3.1 h3) e))
          λ t h. value h

-- A line that `parse_line` accepts names a file.
parse_line-filename :
    (s : Text) (l : ExtentDescriptionLine) → parse_line s ≡ some l → l.filename ≢ none
parse_line-filename s l e = some-Ensures l (parse_line-Ensures s) e

-- A description keeps the access mode, the size and the kind of its line.
description_of_keeps :
    (l : ExtentDescriptionLine) (d : ExtentDescription)
    → description_of l ≡ some d
    → (d.access_mode ≡ l.access_mode) × (d.sectors ≡ l.sectors) × (kind_of_inner d.kind ≡ l.kind)
unfolding description_of inner_of kind_of_inner
description_of_keeps l d h = ground arith

abbrev pub All {ℓ κ} : {A : Type ℓ} → (A → Type κ) → List A → Type κ
All P [] = Unit
All P (x ∷ xs) = P x × All P xs

-- The number of lines that start with an access mode and a blank.
abbrev pub extent_lines : List Text → ℕ
extent_lines [] = 0
extent_lines (l ∷ ls) = elim (is_extent_line l) [
  | none ↦ extent_lines ls
  | some m ↦ suc (extent_lines ls)
]

abbrev pub NotZero : ExtentDescription → Type 0
NotZero d = d.kind ≢ ExtentDescriptionInner.zeroed

-- What the list of descriptions says of the lines that it comes from.
record Extracted (ls : List Text) (ds : List ExtentDescription) : Type 0 where
  counted : length ds ≡ extent_lines ls
  no_zero : All NotZero ds
