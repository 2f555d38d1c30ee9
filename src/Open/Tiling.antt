-- ===== src/Open/Tiling.antt =====
-- The spans that `VmdkReader::open` of src/vmdk_reader.rs ends with tile the image.
use vmdk_rs.Base.{
  u64_mod, mul64, ℕ, ◌-◌, ◌*◌, ◌≤◌, ◌<◌, ◌≡◌, false, ◌&&◌, ltb, [], ◌∷◌, none, min, arith,
}
use native.Mathlib.Decide.{dec_le}
use vmdk_rs.Spans.Map.{SpanMap}
use vmdk_rs.Spans.View.{Disjoint, value_at, value_at_before}
use vmdk_rs.Storage.{sector_size}
use vmdk_rs.Image.{in_bytes}
use vmdk_rs.Image.Cover.{is_none}
use vmdk_rs.Reader.ReadAt.{Tiles, AllBelow}

-- Each sector from `lo` up to `hi` has a value.
abbrev pub Given : ℕ → ℕ → SpanMap (ℕ × ℕ) → Type 0
Given lo hi m = (x : ℕ) → lo ≤ x → (ltb x hi && is_none (value_at m x)) ≡ false

-- No sector from `w` on has a value.
abbrev pub NoneFrom : ℕ → SpanMap (ℕ × ℕ) → Type 0
NoneFrom w m = (x : ℕ) → w ≤ x → value_at m x ≡ none

NoneFrom-end :
    (lo w b e v : ℕ) (m : SpanMap (ℕ × ℕ))
    → Disjoint lo ((b, (e, v)) ∷ m)
    → NoneFrom w ((b, (e, v)) ∷ m)
    → e ≤ w
NoneFrom-end lo w b e v m d n = elim (dec_le e w) [
  | yes h ↦ h
  | no h ↦ let f = n (e - 1) (omega arith) in ground (arith, f, d.1)
]

NoneFrom-rest :
    (lo w b e v : ℕ) (m : SpanMap (ℕ × ℕ))
    → Disjoint lo ((b, (e, v)) ∷ m)
    → NoneFrom w ((b, (e, v)) ∷ m)
    → NoneFrom w m
NoneFrom-rest lo w b e v m d n x h =
    let l = NoneFrom-end lo w b e v m d n in let f = n x h in ground (arith, f)

Given-start :
    (lo hi b e v : ℕ) (m : SpanMap (ℕ × ℕ))
    → Disjoint lo ((b, (e, v)) ∷ m)
    → Given lo hi ((b, (e, v)) ∷ m)
    → min b hi ≤ lo
Given-start lo hi b e v m d g = elim (dec_le (min b hi) lo) [
  | yes h ↦ h
  | no h ↦
      let f = g lo (omega arith) in
      let n = value_at_before e m lo d.2 (omega (arith, d.1)) in ground (arith, f, n, d.1)
]

Given-rest :
    (lo hi b e v : ℕ) (m : SpanMap (ℕ × ℕ))
    → Disjoint lo ((b, (e, v)) ∷ m)
    → Given lo hi ((b, (e, v)) ∷ m)
    → Given e hi m
Given-rest lo hi b e v m d g x h = let f = g x (omega (arith, d.0, d.1)) in ground (arith, f)

-- In bytes, spans that give each sector up to `hi` tile the bytes up to there.
pub in_bytes-Tiles :
    (lo hi w : ℕ) (m : SpanMap (ℕ × ℕ))
    → w * sector_size < u64_mod
    → Disjoint lo m
    → Given lo hi m
    → NoneFrom w m
    → Tiles (lo * sector_size) (hi * sector_size) (in_bytes m) × AllBelow u64_mod (in_bytes m)
unfolding in_bytes
in_bytes-Tiles lo hi w [] h d g n = elim (dec_le hi lo) [
  | yes p ↦ (omega arith, tt)
  | no p ↦ let f = g lo (omega arith) in (ground (arith, f), tt)
]
in_bytes-Tiles lo hi w ((b, (e, v)) ∷ m) h d g n =
    let l = NoneFrom-end lo w b e v m d n in
    let s = Given-start lo hi b e v m d g in
    let (t, a) =
      in_bytes-Tiles e hi w m h d.2 (Given-rest lo hi b e v m d g)
        (NoneFrom-rest lo w b e v m d n) in
    let eb : mul64 b sector_size ≡ b * sector_size = omega (arith, d.1) in
    let ee : mul64 e sector_size ≡ e * sector_size = omega arith in
    rw (eb, ee) ((omega (arith, d.0), omega arith, omega (arith, d.1), t), (omega arith, a))
