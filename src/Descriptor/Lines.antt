-- ===== src/Descriptor/Lines.antt =====
-- The lines of a descriptor file, which src/descriptor.rs reads one by one.
use vmdk_rs.Base.{
  ℕ, zero, suc, ◌+◌, ◌≤◌, ◌<◌, ◌≡◌, refl, ap, List, [], ◌∷◌, ◌++◌, Bool-cases, inl, inr,
  if◌then◌else◌, ◌==◌, length, tabulate, drop, arith,
}
use vmdk_rs.Base.Outcome.{Outcome, ok, err, hang}
use vmdk_rs.Io.{Bytes}
use vmdk_rs.Buffered.Cut.{upto}
use vmdk_rs.Text.{Text, text_eq, trim_end}
use vmdk_rs.Text.Utf8.{IsAscii}
use vmdk_rs.Errors.{OpenErrorKind, descriptor_error, unrecognized_descriptor}
use vmdk_rs.Descriptor.{marker, is_blank}

abbrev pub cons_line : ℕ → List Text → List Text
cons_line c [] = (c ∷ []) ∷ []
cons_line c (l ∷ ls) = (c ∷ l) ∷ ls

-- A text cut behind every line feed.
unfoldable pub split_lines : Text → List Text
split_lines [] = []
split_lines (c ∷ s) = if c == b'\n' then (c ∷ []) ∷ split_lines s else cons_line c (split_lines s)

-- The first line that is not blank decides what the whole text is.
unfoldable pub classify : Text → List Text → Outcome OpenErrorKind Text
classify whole [] = hang
classify whole (l ∷ ls) =
    if text_eq (trim_end l) marker
    then ok whole
    else if is_blank (trim_end l)
    then classify whole ls
    else err (descriptor_error unrecognized_descriptor)

-- The first line, and the lines behind it.
pub split_lines-upto :
    (s : Text)
    → 0 < length s
    → let l = upto b'\n' s in (0 < length l) × (split_lines s ≡ l ∷ split_lines (drop (length l) s))
unfolding split_lines
split_lines-upto [] h = absurd (omega arith)
split_lines-upto (c ∷ []) h = elim (Bool-cases (c == b'\n')) [
  | inl e ↦ rw e (omega arith, refl)
  | inr e ↦ rw e (omega arith, refl)
]
split_lines-upto (c ∷ d ∷ s) h = elim (Bool-cases (c == b'\n')) [
  | inl e ↦ rw e (omega arith, refl)
  | inr e ↦ rw e (omega arith, ap (cons_line c) (split_lines-upto (d ∷ s) (omega arith)).1)
]

pub Ascii_of-tabulate :
    (f : ℕ → ℕ) (p n : ℕ) → ((i : ℕ) → i < p + n → f i < 128) → IsAscii (tabulate f p n)
Ascii_of-tabulate f p zero h = tt
Ascii_of-tabulate f p (suc n) h =
    (h p (omega arith), Ascii_of-tabulate f (suc p) n (λ i l. h i (omega arith)))

pub upto-IsAscii : (delim : ℕ) (xs : Bytes) → IsAscii xs → IsAscii (upto delim xs)
upto-IsAscii delim [] h = tt
upto-IsAscii delim (x ∷ xs) h = elim (Bool-cases (x == delim)) [
  | inl e ↦ rw e (h.0, tt)
  | inr e ↦ rw e (h.0, upto-IsAscii delim xs h.1)
]

pub length-upto : (delim : ℕ) (xs : Bytes) → length (upto delim xs) ≤ length xs
length-upto delim [] = omega arith
length-upto delim (x ∷ xs) = let r = length-upto delim xs in ground arith

-- The first line and what is behind it are the bytes.
pub upto-drop : (delim : ℕ) (xs : Bytes) → upto delim xs ++ drop (length (upto delim xs)) xs ≡ xs
upto-drop delim [] = refl
upto-drop delim (x ∷ xs) = elim (Bool-cases (x == delim)) [
  | inl e ↦ rw e refl
  | inr e ↦ rw e (ap (λ t. x ∷ t) (upto-drop delim xs))
]
