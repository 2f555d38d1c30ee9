-- ===== src/Spans/View.antt =====
-- What a map of spans says of a single sector, and when it is well formed.
use vmdk_rs.Base.{
  true, false, ℕ, suc, ◌≤◌, ◌<◌, Bool, ◌&&◌, [], ◌∷◌, Option, none, some, ltb, leb, if◌then◌else◌,
  ◌≡◌, refl, arith,
}
use vmdk_rs.Spans.Map.{SpanMap}

-- `beg ≤ x < end`
abbrev pub inside : ℕ → ℕ → ℕ → Bool
inside beg end x = leb beg x && ltb x end

module _ {ℓ} {T : Type ℓ} where
  -- Non-empty spans from `lo` on, in order and not overlapping.
  abbrev pub Disjoint : ℕ → SpanMap (ℕ × T) → Type 0
  Disjoint lo [] = Unit
  Disjoint lo ((b, (e, v)) ∷ m) = (lo ≤ b) × (b < e) × Disjoint e m

  -- The value of the span that covers sector `x`.
  abbrev pub value_at : SpanMap (ℕ × T) → ℕ → Option T
  value_at [] x = none
  value_at ((b, (e, v)) ∷ m) x = if inside b e x then some v else value_at m x

  -- `o` where it has a value, else `v` on `[beg, end)`.
  abbrev pub filled : ℕ → ℕ → T → ℕ → Option T → Option T
  filled beg end v x (some w) = some w
  filled beg end v x none = if inside beg end x then some v else none

  -- No sector before the first span is covered.
  pub value_at_before :
      (lo : ℕ) (m : SpanMap (ℕ × T)) (x : ℕ) → Disjoint lo m → x < lo → value_at m x ≡ none
  value_at_before lo [] x d h = refl
  value_at_before lo ((b, (e, v)) ∷ m) x d h = ground (arith, value_at_before e m x)

  pub Disjoint-mono : {lo hi : ℕ} (m : SpanMap (ℕ × T)) → lo ≤ hi → Disjoint hi m → Disjoint lo m
  Disjoint-mono [] h d = tt
  Disjoint-mono ((b, (e, v)) ∷ m) h d = (omega arith, d.1, d.2)

-- Non-empty spans from `lo` on, in order and with a gap after each.
abbrev pub Gapped : ℕ → SpanMap ℕ → Type 0
Gapped lo [] = Unit
Gapped lo ((b, e) ∷ m) = (lo ≤ b) × (b < e) × Gapped (suc e) m

abbrev pub covered : SpanMap ℕ → ℕ → Bool
covered [] x = false
covered ((b, e) ∷ m) x = if inside b e x then true else covered m x

-- `o` without `[beg, end)`
abbrev pub cleared : ℕ → ℕ → ℕ → Bool → Bool
cleared beg end x o = if inside beg end x then false else o

pub covered_before : (lo : ℕ) (m : SpanMap ℕ) (x : ℕ) → Gapped lo m → x < lo → covered m x ≡ false
covered_before lo [] x d h = refl
covered_before lo ((b, e) ∷ m) x d h = ground (arith, covered_before (suc e) m x)

pub Gapped-mono : {lo hi : ℕ} (m : SpanMap ℕ) → lo ≤ hi → Gapped hi m → Gapped lo m
Gapped-mono [] h d = tt
Gapped-mono ((b, e) ∷ m) h d = (omega arith, d.1, d.2)
