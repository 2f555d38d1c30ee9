-- ===== src/Text/Utf8.antt =====
-- `String::from_utf8_lossy` and `str::from_utf8`, which src/descriptor.rs calls on what it reads.
use vmdk_rs.Base.{
  ℕ, zero, suc, ◌+◌, ◌-◌, ◌*◌, ◌<◌, ◌≡◌, refl, ap, Bool, false, ◌&&◌, List, [], ◌∷◌, Option, none,
  some, ltb, leb, ◌==◌, lt→ltb, if◌then◌else◌, length, drop, map,
}
use vmdk_rs.Text.{Text}

-- Whether there is a byte and it lies in `[lo, hi]`.
abbrev next_in : ℕ → ℕ → List ℕ → Bool
next_in lo hi [] = false
next_in lo hi (c ∷ bs) = leb lo c && leb c hi

-- The low six bits of the byte, or 0.
abbrev low_six : List ℕ → ℕ
low_six [] = 0
low_six (c ∷ bs) = c - 0x80

-- A sequence of three bytes whose second lies in `[lo, hi]`.
abbrev decode3 : ℕ → ℕ → ℕ → List ℕ → Option ℕ × ℕ
decode3 lo hi b bs =
    if next_in lo hi bs
    then (if next_in 0x80 0xBF (drop 1 bs)
        then (some ((b - 0xE0) * 4096 + low_six bs * 64 + low_six (drop 1 bs)), 2)
        else (none, 1))
    else (none, 0)

-- A sequence of four bytes whose second lies in `[lo, hi]`.
abbrev decode4 : ℕ → ℕ → ℕ → List ℕ → Option ℕ × ℕ
decode4 lo hi b bs =
    if next_in lo hi bs
    then (if next_in 0x80 0xBF (drop 1 bs)
        then (if next_in 0x80 0xBF (drop 2 bs)
            then (
              some (
                  (b - 0xF0) * 262144
                  + low_six bs * 4096
                  + low_six (drop 1 bs) * 64
                  + low_six (drop 2 bs)),
              3,
            )
            else (none, 2))
        else (none, 1))
    else (none, 0)

-- The code point that starts with byte `b`, and how many of the bytes behind `b` belong to it; where
-- they are no code point, the longest part that could start one is `none`.
unfoldable pub decode_one : ℕ → List ℕ → Option ℕ × ℕ
decode_one b bs =
    if ltb b 0x80
    then (some b, 0)
    else if leb 0xC2 b && leb b 0xDF
    then (if next_in 0x80 0xBF bs then (some ((b - 0xC0) * 64 + low_six bs), 1) else (none, 0))
    else if b == 0xE0
    then decode3 0xA0 0xBF b bs
    else if b == 0xED
    then decode3 0x80 0x9F b bs
    else if leb 0xE1 b && leb b 0xEF
    then decode3 0x80 0xBF b bs
    else if b == 0xF0
    then decode4 0x90 0xBF b bs
    else if leb 0xF1 b && leb b 0xF3
    then decode4 0x80 0xBF b bs
    else if b == 0xF4
    then decode4 0x80 0x8F b bs
    else (none, 0)

-- On fuel of the number of bytes: each step takes one at least.
unfoldable pub decode_loop : ℕ → List ℕ → List (Option ℕ)
unfolding decode_one
decode_loop zero bs = []
decode_loop (suc fuel) [] = []
decode_loop (suc fuel) (b ∷ bs) =
    let one = decode_one b bs in one.0 ∷ decode_loop fuel (drop one.1 bs)

abbrev or_replacement : Option ℕ → ℕ
or_replacement none = 0xFFFD
or_replacement (some c) = c

abbrev all_some : List (Option ℕ) → Option Text
all_some [] = some []
all_some (none ∷ cs) = none
all_some (some c ∷ cs) = elim (all_some cs) [ none ↦ none | some t ↦ some (c ∷ t) ]

-- `String::from_utf8_lossy`
unfoldable pub from_utf8_lossy : List ℕ → Text
unfolding decode_loop
from_utf8_lossy bs = map or_replacement (decode_loop (length bs) bs)

-- `str::from_utf8`
unfoldable pub from_utf8 : List ℕ → Option Text
unfolding decode_loop
from_utf8 bs = all_some (decode_loop (length bs) bs)

abbrev pub IsAscii : List ℕ → Type 0
IsAscii [] = Unit
IsAscii (b ∷ bs) = (b < 128) × IsAscii bs

decode_one-ascii : (b : ℕ) (bs : List ℕ) → b < 128 → decode_one b bs ≡ (some b, 0)
unfolding decode_one
decode_one-ascii b bs h = rw (lt→ltb b 128 h)

decode_loop-ascii : (bs : List ℕ) → IsAscii bs → decode_loop (length bs) bs ≡ map (λ c. some c) bs
unfolding decode_loop
decode_loop-ascii [] h = refl
decode_loop-ascii (b ∷ bs) h =
    rw (decode_one-ascii b bs h.0) (ap (λ cs. some b ∷ cs) (decode_loop-ascii bs h.1))

lossy_self : (bs : List ℕ) → map or_replacement (map (λ c. some c) bs) ≡ bs
lossy_self [] = refl
lossy_self (b ∷ bs) = ap (λ t. b ∷ t) (lossy_self bs)

all_some_self : (bs : List ℕ) → all_some (map (λ c. some c) bs) ≡ some bs
all_some_self [] = refl
all_some_self (b ∷ bs) = rw (all_some_self bs, all_some)

-- ASCII bytes are their own code points.
pub from_utf8_lossy-ascii : (bs : List ℕ) → IsAscii bs → from_utf8_lossy bs ≡ bs
unfolding from_utf8_lossy
from_utf8_lossy-ascii bs h = rw (decode_loop-ascii bs h) (lossy_self bs)

pub from_utf8-ascii : (bs : List ℕ) → IsAscii bs → from_utf8 bs ≡ some bs
unfolding from_utf8
from_utf8-ascii bs h = rw (decode_loop-ascii bs h) (all_some_self bs)
