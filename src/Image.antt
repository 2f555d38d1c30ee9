-- ===== src/Image.antt =====
-- How `VmdkReader::open` of src/vmdk_reader.rs adds the extents of one image of the chain to the map
-- of spans, and fills what no image covers.
pub mod Cover
pub mod Earlier
pub mod Zeros
use vmdk_rs.Base.{
  suc, if◌then◌else◌, nat_eq, mul64, sub64, ℕ, Bool, true, false, List, [], ◌∷◌, ◌++◌, Option, none,
  some, length, map,
}
use vmdk_rs.Spans.Map.{SpanMap, is_empty}
use vmdk_rs.Spans.Insert.{insert_span}
use vmdk_rs.Spans.Remove.{remove_span}
use vmdk_rs.Storage.{sector_size, zeroed}
use vmdk_rs.Extent.{Extent, spans, has_file}
use vmdk_rs.Description.{◌>>=◌}
use vmdk_rs.Reader.{Span}

-- The two maps that `open` keeps, in sectors. `none` below is a loop that ran out of fuel.
pub record Covering : Type 0 where
  pub spans : SpanMap (ℕ × ℕ)
  pub uncovered : SpanMap ℕ

-- `for (beg, end) in ex.spans()`
unfoldable pub add_spans : ℕ → List (ℕ × ℕ) → Covering → Option Covering
add_spans i [] c = some c
add_spans i ((beg, end) ∷ l) c = do
  m ← insert_span beg end i c.spans
  u ← remove_span beg end c.uncovered
  add_spans i l (record { spans = m; uncovered = u })

-- `if ex.has_file() { idx += 1 }`: the index of the next source
abbrev pub next_idx : Extent → ℕ → ℕ
next_idx ex idx = if has_file ex.storage then suc idx else idx

-- `for ex in img_extents`: whether the loop over the images ends, the index of the next source, and the
-- extents so far.
unfoldable pub add_extents :
    List Extent → ℕ → List Extent → Covering → Option (Bool × (ℕ × (List Extent × Covering)))
add_extents [] idx extents c = some (false, (idx, (extents, c)))
add_extents (ex ∷ exs) idx extents c = do
  c' ← add_spans (length extents) (spans ex) c
  elim (is_empty c'.uncovered) [
    | true ↦ some (true, (next_idx ex idx, (extents ++ ex ∷ [], c')))
    | false ↦ add_extents exs (next_idx ex idx) (extents ++ ex ∷ []) c'
  ]

abbrev pub zero_extent : ℕ → ℕ → Extent
zero_extent lb ub = record { start_sector = lb; sectors = sub64 ub lb; storage = zeroed }

-- `for (lb, ub) in uncovered`
unfoldable pub zero_fill :
    SpanMap ℕ → List Extent → SpanMap (ℕ × ℕ) → Option (List Extent × SpanMap (ℕ × ℕ))
zero_fill [] extents m = some (extents, m)
zero_fill ((lb, ub) ∷ u) extents m = do
  m' ← insert_span lb ub (length extents) m
  zero_fill u (extents ++ zero_extent lb ub ∷ []) m'

-- `spans.into_iter().map(…)`: from sectors to bytes
unfoldable pub in_bytes : SpanMap (ℕ × ℕ) → List Span
in_bytes m = map (λ s. (mul64 s.0 sector_size, (mul64 s.1.0 sector_size, s.1.1))) m
