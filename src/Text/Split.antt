-- ===== src/Text/Split.antt =====
-- Where the splitting and trimming functions of `str` stop.
use vmdk_rs.Base.{ℕ, ◌≡◌, refl, true, false, [], ◌∷◌, ◌++◌, none, some, arith, ◌==◌}
use vmdk_rs.Text.{Text, is_whitespace, trim_start, trim_end, text_eq, split_once, rsplit_once}

-- No code point of `s` is `c`.
abbrev pub Lacks : ℕ → Text → Type 0
Lacks c [] = Unit
Lacks c (x ∷ s) = ((x == c) ≡ false) × Lacks c s

pub text_eq_refl : (s : Text) → text_eq s s ≡ true
unfolding text_eq
text_eq_refl [] = refl
text_eq_refl (c ∷ s) = ground (arith, text_eq_refl s)

pub eq_of_text_eq : (s t : Text) → text_eq s t ≡ true → s ≡ t
unfolding text_eq
eq_of_text_eq [] [] h = refl
eq_of_text_eq [] (d ∷ t) h = cc
eq_of_text_eq (c ∷ s) [] h = cc
eq_of_text_eq (c ∷ s) (d ∷ t) h = ground (arith, eq_of_text_eq s t)

-- `split_once` finds the first occurrence.
pub split_once-append : (c : ℕ) (s t : Text) → Lacks c s → split_once c (s ++ c ∷ t) ≡ some (s, t)
unfolding split_once
split_once-append c [] t h = ground arith
split_once-append c (x ∷ s) t h = ground (arith, split_once-append c s t)

rsplit_once-Lacks : (c : ℕ) (t : Text) → Lacks c t → rsplit_once c t ≡ none
unfolding rsplit_once
rsplit_once-Lacks c [] h = refl
rsplit_once-Lacks c (x ∷ t) h = ground (arith, rsplit_once-Lacks c t)

-- `rsplit_once` finds the last occurrence.
pub rsplit_once-append : (c : ℕ) (s t : Text) → Lacks c t → rsplit_once c (s ++ c ∷ t) ≡ some (s, t)
unfolding rsplit_once
rsplit_once-append c [] t h = ground (arith, rsplit_once-Lacks c t)
rsplit_once-append c (x ∷ s) t h = ground (arith, rsplit_once-append c s t)

pub trim_start-cons : (c : ℕ) (s : Text) → is_whitespace c ≡ false → trim_start (c ∷ s) ≡ c ∷ s
unfolding trim_start
trim_start-cons c s h = ground (arith, h)

-- A text that ends in `c` is not trimmed at its end.
pub trim_end-append :
    (s : Text) (c : ℕ) → is_whitespace c ≡ false → trim_end (s ++ c ∷ []) ≡ s ++ c ∷ []
unfolding trim_end
trim_end-append [] c h = ground (arith, h)
trim_end-append (x ∷ []) c h = ground (arith, h)
trim_end-append (x ∷ y ∷ s) c h = rw (trim_end-append (y ∷ s) c h)

-- No code point of `s` is white space.
abbrev pub NoSpace : Text → Type 0
NoSpace [] = Unit
NoSpace (c ∷ s) = (is_whitespace c ≡ false) × NoSpace s

pub trim_end-NoSpace : (s : Text) → NoSpace s → trim_end s ≡ s
unfolding trim_end
trim_end-NoSpace [] h = refl
trim_end-NoSpace (c ∷ []) h = ground (arith, h.0)
trim_end-NoSpace (c ∷ d ∷ s) h = rw (trim_end-NoSpace (d ∷ s) h.1)

pub trim_end-append_NoSpace :
    (s : Text) (c : ℕ) (t : Text) → NoSpace (c ∷ t) → trim_end (s ++ c ∷ t) ≡ s ++ c ∷ t
unfolding trim_end
trim_end-append_NoSpace [] c t h = trim_end-NoSpace (c ∷ t) h
trim_end-append_NoSpace (x ∷ []) c t h = rw (trim_end-NoSpace (c ∷ t) h)
trim_end-append_NoSpace (x ∷ y ∷ s) c t h = rw (trim_end-append_NoSpace (y ∷ s) c t h)

pub Lacks-append : (c : ℕ) (s t : Text) → Lacks c s → Lacks c t → Lacks c (s ++ t)
Lacks-append c [] t h k = k
Lacks-append c (x ∷ s) t h k = (h.0, Lacks-append c s t h.1 k)

pub NoSpace-append : (s t : Text) → NoSpace s → NoSpace t → NoSpace (s ++ t)
NoSpace-append [] t h k = k
NoSpace-append (x ∷ s) t h k = (h.0, NoSpace-append s t h.1 k)
