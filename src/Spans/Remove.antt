-- ===== src/Spans/Remove.antt =====
-- `remove_span` of src/spans.rs. The body of its `loop` is `remove_step`.
pub mod Round
pub mod RoundClears
pub mod Clear
use vmdk_rs.Base.{ℕ, zero, suc, ◌-◌, Option, none, some, ltb, leb, ◌==◌, if◌then◌else◌}
use vmdk_rs.Spans.Map.{SpanMap, Step, done, again, floor, above, insert, remove}

-- the second half of the loop's body: from the next span on
unfoldable pub remove_next : ℕ → ℕ → SpanMap ℕ → Step (SpanMap ℕ)
remove_next sbeg send m = elim (above sbeg m) [
  | none ↦ done m
  | some (ubeg, uend) ↦
      if leb ubeg send
      then (if ltb send uend
          then done (insert send uend (remove ubeg m))
          else again uend (remove ubeg m))
      else done m
]

unfoldable pub remove_step : ℕ → ℕ → SpanMap ℕ → Step (SpanMap ℕ)
remove_step sbeg send m = elim (floor sbeg m) [
  | none ↦ remove_next sbeg send m
  | some (lbeg, lend) ↦
      if ltb sbeg lend
      then (let m' = if ltb lbeg sbeg then insert lbeg sbeg m else remove lbeg m in
          if ltb send lend
          then done (insert send lend m')
          else if send == lend
          then done m'
          else remove_next lend send m')
      else remove_next sbeg send m
]

-- The loop with fuel; `none` means that the fuel ran out.
unfoldable pub remove_loop : ℕ → ℕ → ℕ → SpanMap ℕ → Option (SpanMap ℕ)
remove_loop zero sbeg send m = none
remove_loop (suc fuel) sbeg send m = elim (remove_step sbeg send m) [
  | done m' ↦ some m'
  | again sbeg' m' ↦ remove_loop fuel sbeg' send m'
]

-- Each round moves `sbeg` up, so as many rounds as the span is long are enough.
unfoldable pub remove_span : ℕ → ℕ → SpanMap ℕ → Option (SpanMap ℕ)
unfolding remove_loop
remove_span sbeg send m = remove_loop (suc (send - sbeg)) sbeg send m
