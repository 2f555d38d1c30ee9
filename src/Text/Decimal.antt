-- ===== src/Text/Decimal.antt =====
-- Decimal numerals, and that `parse::<u64>()` reads them.
use vmdk_rs.Base.{
  u64_mod, ℕ, zero, suc, ◌+◌, ◌-◌, ◌*◌, ◌/◌, ◌%◌, ◌^◌, ◌<◌, ◌≡◌, refl, ◌∙◌, ◌≢◌, true, false, [],
  ◌∷◌, ◌++◌, Option, none, some, arith, ltb, if◌then◌else◌,
}
use vmdk_rs.Text.{Text, is_whitespace, is_digit, parse_digits, parse_u64}
use vmdk_rs.Text.Split.{Lacks, NoSpace}

-- The decimal digits of `n`, for `n` below 10 ^ (k + 1).
unfoldable pub decimal : ℕ → ℕ → Text
decimal zero n = (b'0' + n) ∷ []
decimal (suc k) n =
    let rest = decimal k (n / 10) in
    if ltb n 10 then (b'0' + n) ∷ [] else rest ++ (b'0' + n % 10) ∷ []

abbrev then_digits : Option ℕ → Text → Option ℕ
then_digits none t = none
then_digits (some acc) t = parse_digits acc t

parse_digits-append :
    (acc : ℕ) (s t : Text) → parse_digits acc (s ++ t) ≡ then_digits (parse_digits acc s) t
unfolding parse_digits
parse_digits-append acc [] t = refl
parse_digits-append acc (c ∷ s) t = ground (arith, parse_digits-append (acc * 10 + (c - b'0')) s t)

parse_digit :
    (acc d : ℕ)
    → d < 10
    → acc * 10 + d < u64_mod
    → parse_digits acc ((b'0' + d) ∷ []) ≡ some (acc * 10 + d)
unfolding parse_digits
parse_digit acc d h k = ground arith

parse_digits-decimal :
    (k n : ℕ) → n < 10 ^ suc k → n < u64_mod → parse_digits 0 (decimal k n) ≡ some n
unfolding decimal
parse_digits-decimal zero n h b = ground (arith, parse_digit 0 n)
parse_digits-decimal (suc k) n h b = ground (
  arith,
  parse_digit 0 n,
  parse_digits-append 0 (decimal k (n / 10)) ((b'0' + n % 10) ∷ []),
  parse_digits-decimal k (n / 10) (omega arith) (omega arith),
  parse_digit (n / 10) (n % 10),
)

-- Every code point of a numeral is a digit.
abbrev Digits : Text → Type 0
Digits [] = Unit
Digits (c ∷ s) = (is_digit c ≡ true) × Digits s

Digits-append : (s t : Text) → Digits s → Digits t → Digits (s ++ t)
Digits-append [] t h k = k
Digits-append (x ∷ s) t h k = (h.0, Digits-append s t h.1 k)

decimal-Digits : (k n : ℕ) → n < 10 ^ suc k → Digits (decimal k n)
unfolding decimal
decimal-Digits zero n h = (ground arith, tt)
decimal-Digits (suc k) n h = ground (
  arith,
  decimal-Digits k (n / 10) (omega arith),
  Digits-append (decimal k (n / 10)) ((b'0' + n % 10) ∷ []),
)

digit-not_space : (c : ℕ) → is_digit c ≡ true → is_whitespace c ≡ false
unfolding is_whitespace
digit-not_space c h = ground arith

Digits-NoSpace : (t : Text) → Digits t → NoSpace t
Digits-NoSpace [] h = tt
Digits-NoSpace (c ∷ t) h = (digit-not_space c h.0, Digits-NoSpace t h.1)

Digits-Lacks : (c : ℕ) (t : Text) → is_digit c ≡ false → Digits t → Lacks c t
Digits-Lacks c [] n h = tt
Digits-Lacks c (x ∷ t) n h = (ground (arith, h.0), Digits-Lacks c t n h.1)

parse_u64-Digits : (t : Text) → Digits t → t ≢ [] → parse_u64 t ≡ parse_digits 0 t
unfolding parse_u64
parse_u64-Digits [] h n = absurd (n refl)
parse_u64-Digits (c ∷ t) h n = ground (arith, h.0)

append-ne-nil : (s : Text) (c : ℕ) → s ++ c ∷ [] ≢ []
append-ne-nil [] c h = cc
append-ne-nil (x ∷ s) c h = cc

text_cons : (t : Text) → t ≢ [] → (c : ℕ) × (s : Text) × (t ≡ c ∷ s)
text_cons [] h = absurd (h refl)
text_cons (c ∷ s) h = (c, s, refl)

decimal-ne-nil : (k n : ℕ) → decimal k n ≢ []
unfolding decimal
decimal-ne-nil zero n h = cc
decimal-ne-nil (suc k) n h = ground (arith, append-ne-nil (decimal k (n / 10)) (b'0' + n % 10))

-- The numeral of a `u64`.
abbrev pub decimal_u64 : ℕ → Text
decimal_u64 n = decimal 19 n

module _ (n : ℕ) (h : n < u64_mod) where
  pub decimal_u64-NoSpace : NoSpace (decimal_u64 n)
  decimal_u64-NoSpace = Digits-NoSpace _ (decimal-Digits 19 n (omega arith))

  pub decimal_u64-Lacks : (c : ℕ) → is_digit c ≡ false → Lacks c (decimal_u64 n)
  decimal_u64-Lacks c k = Digits-Lacks c _ k (decimal-Digits 19 n (omega arith))

  -- `parse::<u64>()` reads back the numeral of a `u64`.
  pub parse_u64-decimal_u64 : parse_u64 (decimal_u64 n) ≡ some n
  parse_u64-decimal_u64 =
      parse_u64-Digits _ (decimal-Digits 19 n (omega arith)) (decimal-ne-nil 19 n)
      ∙ parse_digits-decimal 19 n (omega arith) h

pub decimal_u64-cons : (n : ℕ) → (c : ℕ) × (t : Text) × (decimal_u64 n ≡ c ∷ t)
decimal_u64-cons n = text_cons (decimal 19 n) (decimal-ne-nil 19 n)
