-- ===== src/Buffered/Cut.antt =====
-- What `memchr` finds in a buffer of a `BufReader`, which src/descriptor.rs reads through.
use vmdk_rs.Base.{
  ℕ, zero, suc, ◌+◌, ◌-◌, ◌≤◌, ◌<◌, ◌≡◌, refl, ap, sym, [], ◌∷◌, ◌++◌, Option, none, some, Bool,
  true, false, ◌==◌, if◌then◌else◌, length, tabulate, arith,
}
use mathlib.Core.List.{nil≢cons, tail-eq_of_cons-eq}
use vmdk_rs.Io.{Bytes}
use vmdk_rs.Buffered.{cut, cons_cut}

-- The bytes up to the first `delim` with it, or all.
abbrev pub upto : ℕ → Bytes → Bytes
upto delim [] = []
upto delim (b ∷ bs) = if b == delim then b ∷ [] else b ∷ upto delim bs

-- What `cut` says of `xs`, whatever comes behind it.
abbrev pub Cuts : ℕ → Bytes → Option (Bytes × Bytes) → Type 0
Cuts delim xs none = (ys : Bytes) → upto delim (xs ++ ys) ≡ xs ++ upto delim ys
Cuts delim xs (some (pre, rest)) =
    ((ys : Bytes) → upto delim (xs ++ ys) ≡ pre) × (xs ≡ pre ++ rest) × (0 < length pre)

pub cons_cut-Cuts :
    (delim x : ℕ) (xs : Bytes) (b : Bool) (o : Option (Bytes × Bytes))
    → (x == delim) ≡ b
    → Cuts delim xs o
    → Cuts delim (x ∷ xs) (if b then some (x ∷ [], xs) else cons_cut x o)
cons_cut-Cuts delim x xs true o e h = (λ ys. rw e refl, refl, omega arith)
cons_cut-Cuts delim x xs false none e h = λ ys. rw e (ap (λ t. x ∷ t) (h ys))
cons_cut-Cuts delim x xs false (some (pre, rest)) e h =
    (λ ys. rw e (ap (λ t. x ∷ t) (h.0 ys)), ap (λ t. x ∷ t) h.1, omega arith)

pub cut-Cuts : (delim : ℕ) (xs : Bytes) → Cuts delim xs (cut delim xs)
unfolding cut
cut-Cuts delim [] = λ ys. refl
cut-Cuts delim (x ∷ xs) =
    cons_cut-Cuts delim x xs (x == delim) (cut delim xs) refl (cut-Cuts delim xs)

-- A prefix of the bytes from `q` on, and what is behind it.
pub tabulate-split :
    (f : ℕ → ℕ) (q k : ℕ) (pre rest : Bytes)
    → tabulate f q k ≡ pre ++ rest
    → (length pre ≤ k) × (rest ≡ tabulate f (q + length pre) (k - length pre))
tabulate-split f q k [] rest e =
    let z : q + 0 ≡ q = omega arith in
    let w : k - 0 ≡ k = omega arith in (omega arith, rw (z, w) (sym e))
tabulate-split f q zero (x ∷ pre) rest e = absurd (nil≢cons e)
tabulate-split f q (suc k) (x ∷ pre) rest e =
    let (l, r) = tabulate-split f (suc q) k pre rest (tail-eq_of_cons-eq e) in
    let a : q + suc (length pre) ≡ suc q + length pre = omega arith in
    let b : suc k - suc (length pre) ≡ k - length pre = omega arith in (omega arith, rw (a, b) r)
