-- ===== src/Examples/SpanMaps.antt =====
-- Maps of spans.
use vmdk_rs.Base.{nat_eq, ℕ, ◌≡◌, [], ◌∷◌, some, arith}
use vmdk_rs.Spans.Map.{SpanMap}
use vmdk_rs.Spans.View.{Disjoint, Gapped, value_at, filled, covered, cleared}
use vmdk_rs.Spans.Insert.{insert_span}
use vmdk_rs.Spans.Insert.Fill.{insert_span_fills}
use vmdk_rs.Spans.Remove.{remove_span}
use vmdk_rs.Spans.Remove.Clear.{remove_span_clears}

-- `[0, 4)` of extent 0 and `[6, 8)` of extent 1
abbrev two_extents : SpanMap (ℕ × ℕ)
two_extents = (0, (4, 0)) ∷ (6, (8, 1)) ∷ []

abbrev two_gaps : SpanMap ℕ
two_gaps = (0, 4) ∷ (6, 8) ∷ []

insert_span_fills_example :
    (m' : SpanMap (ℕ × ℕ)) × (insert_span 2 9 7 two_extents ≡ some m')
    × Disjoint 0 m'
    × ((x : ℕ) → value_at m' x ≡ filled 2 9 7 x (value_at two_extents x))
insert_span_fills_example =
    insert_span_fills 2 9 7 two_extents (omega arith, omega arith, (omega arith, omega arith, tt))
      (omega arith)

remove_span_clears_example :
    (m' : SpanMap ℕ) × (remove_span 2 7 two_gaps ≡ some m')
    × Gapped 0 m'
    × ((x : ℕ) → covered m' x ≡ cleared 2 7 x (covered two_gaps x))
remove_span_clears_example =
    remove_span_clears 2 7 two_gaps (omega arith, omega arith, (omega arith, omega arith, tt))
      (omega arith)
