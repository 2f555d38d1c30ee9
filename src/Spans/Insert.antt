-- ===== src/Spans/Insert.antt =====
-- `insert_span` of src/spans.rs. The body of its `loop` is `insert_step`, which either returns from
-- the function or goes round again with a new `sbeg`.
pub mod Round
pub mod Fill
use vmdk_rs.Base.{ℕ, zero, suc, ◌-◌, ◌&&◌, Option, none, some, ltb, leb, ◌==◌, if◌then◌else◌, Eq}
use vmdk_rs.Spans.Map.{SpanMap, Step, done, again, floor, above, insert, remove}

module _ {ℓ} {T : Type ℓ} ⦃e : Eq T⦄ where
  -- the second half of the loop's body: from the next span on
  unfoldable pub insert_gap : ℕ → ℕ → T → SpanMap (ℕ × T) → Step (SpanMap (ℕ × T))
  insert_gap sbeg send val m = elim (above sbeg m) [
    | none ↦ done (insert sbeg (send, val) m)
    | some (ubeg, (uend, uv)) ↦
        if leb ubeg send
        then (let m' =
              if e.beq uv val
              then insert sbeg (uend, val) (remove ubeg m)
              else insert sbeg (ubeg, val) m in
            if ltb uend send then again uend m' else done m')
        else done (insert sbeg (send, val) m)
  ]

  unfoldable pub insert_step : ℕ → ℕ → T → SpanMap (ℕ × T) → Step (SpanMap (ℕ × T))
  insert_step sbeg send val m = elim (floor sbeg m) [
    | none ↦ insert_gap sbeg send val m
    | some (lbeg, (lend, lv)) ↦
        if ltb sbeg lend
        then (if leb send lend then done m else again lend m)
        else insert_gap (if sbeg == lend && e.beq val lv then lbeg else sbeg) send val m
  ]

  -- The loop with fuel; `none` means that the fuel ran out.
  unfoldable pub insert_loop : ℕ → ℕ → ℕ → T → SpanMap (ℕ × T) → Option (SpanMap (ℕ × T))
  insert_loop zero sbeg send val m = none
  insert_loop (suc fuel) sbeg send val m = elim (insert_step sbeg send val m) [
    | done m' ↦ some m'
    | again sbeg' m' ↦ insert_loop fuel sbeg' send val m'
  ]

  -- Each round moves `sbeg` up, so as many rounds as the span is long are enough.
  unfoldable pub insert_span : ℕ → ℕ → T → SpanMap (ℕ × T) → Option (SpanMap (ℕ × T))
  unfolding insert_loop
  insert_span sbeg send val m = insert_loop (suc (send - sbeg)) sbeg send val m
