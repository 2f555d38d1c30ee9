-- ===== src/Foyer/Copy.antt =====
-- The copy of the chunks into the buffer of a read in src/foyercache.rs.
use vmdk_rs.Base.{
  u64_mod, add64, sub64, ℕ, zero, suc, ◌+◌, ◌-◌, ◌≤◌, ◌<◌, ◌≡◌, refl, ap, ◌∙◌, sym, List, [], ◌∷◌,
  ◌++◌, le→leb, lt→ltb, le→ltb_false, length, length-append, length-drop, length-tabulate, take,
  take-length, take_all, take-tabulate, drop, drop-tabulate, tabulate, tabulate-append, map, min,
  arith,
}
use native.Mathlib.Decide.{dec_lt}
use vmdk_rs.Base.Outcome.{ok}
use vmdk_rs.Io.{Bytes}
use vmdk_rs.Foyer.{step_by, copy_slice, copy_chunk, copy_chunks}
use vmdk_rs.Foyer.Coherent.{chunk, AllBefore}

-- `buf` holds the bytes from `off` on in its first `k` places.
abbrev Filled : (ℕ → ℕ) → ℕ → ℕ → Bytes → Type 0
Filled byte off k buf = (take k buf ≡ tabulate byte off k) × (k ≤ length buf)

module _ (byte : ℕ → ℕ) (size chlen : ℕ) (pos : 0 < chlen) (fits : size + chlen < u64_mod) where
  copy_slice-ok :
      (chbeg d bbeg : ℕ) (ch buf : Bytes)
      → bbeg + d ≤ length buf
      → chbeg + d ≤ length ch
      → copy_slice chbeg (chbeg + d) ch bbeg (bbeg + d) buf
        ≡ ok (bbeg + d, take bbeg buf ++ take d (drop chbeg ch) ++ drop (bbeg + d) buf)
  unfolding copy_slice
  copy_slice-ok chbeg d bbeg ch buf h k =
      let z : chbeg + d - chbeg ≡ d = omega arith in
      rw
        (
          le→leb bbeg (bbeg + d) (omega arith),
          le→leb (bbeg + d) (length buf) h,
          le→leb chbeg (chbeg + d) (omega arith),
          le→leb (chbeg + d) (length ch) k,
          z,
        )
        refl

  copy_chunk_step :
      (off c bbeg d : ℕ) (ch buf : Bytes)
      → c ≤ off + bbeg
      → off + length buf < u64_mod
      → bbeg ≤ length buf
      → length ch < u64_mod
      → d ≡ min (off + length buf) (c + length ch) - (off + bbeg)
      → off + bbeg ≤ c + length ch
      → copy_chunk off c ch bbeg buf
        ≡ ok (bbeg + d, take bbeg buf ++ take d (drop (off + bbeg - c) ch) ++ drop (bbeg + d) buf)
  unfolding copy_chunk
  copy_chunk_step off c bbeg d ch buf h w l v e k =
      let a : sub64 (add64 off bbeg) c ≡ off + bbeg - c = omega (arith, h, w, l) in
      let b : min (add64 (off + bbeg - c) (sub64 (length buf) bbeg)) (length ch)
          ≡ off + bbeg - c + d =
        omega (arith, h, w, l, v, e, k) in
      let g : add64 bbeg (sub64 (off + bbeg - c + d) (off + bbeg - c)) ≡ bbeg + d =
        omega (arith, h, w, l, v, e, k) in
      ap
        (λ x.
          copy_slice x (min (add64 x (sub64 (length buf) bbeg)) (length ch)) ch bbeg
            (add64 bbeg (sub64 (min (add64 x (sub64 (length buf) bbeg)) (length ch)) x)) buf)
        a
      ∙ ap (λ y. copy_slice (off + bbeg - c) y ch bbeg (add64 bbeg (sub64 y (off + bbeg - c))) buf)
          b
      ∙ ap (λ z. copy_slice (off + bbeg - c) (off + bbeg - c + d) ch bbeg z buf) g
      ∙ copy_slice-ok (off + bbeg - c) d bbeg ch buf (omega (arith, e, k, l, h))
          (omega (arith, e, k, l, h))

  -- What the chunk at `c` gives from `off + bbeg` on.
  chunk_part :
      (off c bbeg d : ℕ)
      → c ≤ off + bbeg
      → off + bbeg + d ≤ min (c + chlen) size
      → take d (drop (off + bbeg - c) (chunk byte size chlen c)) ≡ tabulate byte (off + bbeg) d
  chunk_part off c bbeg d h k =
      let i = off + bbeg - c in
      let n = min (c + chlen) size - c in
      let e : c + i ≡ off + bbeg = omega arith in
      rw (drop-tabulate byte c n i (omega arith), e)
        (take-tabulate byte (off + bbeg) (n - i) d (omega arith))

  buf_parts :
      (off c bbeg d : ℕ) (buf : Bytes)
      → Filled byte off bbeg buf
      → c ≤ off + bbeg
      → off + bbeg + d ≤ min (c + chlen) size
      → take bbeg buf
          ++ take d (drop (off + bbeg - c) (chunk byte size chlen c))
          ++ drop (bbeg + d) buf
        ≡ tabulate byte off (bbeg + d) ++ drop (bbeg + d) buf
  buf_parts off c bbeg d buf f h k =
      rw (f.0, chunk_part off c bbeg d h k)
        (ap (λ t. t ++ drop (bbeg + d) buf) (tabulate-append byte off bbeg d))

  Filled-append :
      (off k : ℕ) (buf : Bytes)
      → k ≤ length buf
      → Filled byte off k (tabulate byte off k ++ drop k buf)
        × (length (tabulate byte off k ++ drop k buf) ≡ length buf)
  Filled-append off k buf h =
      let n = length-tabulate byte off k in
      let l = length-append (tabulate byte off k) (drop k buf) in
      let m = length-drop k buf in
      (
        (rw n at (take-length (tabulate byte off k) (drop k buf)), omega (arith, n, l, m)),
        omega (arith, n, l, m, h),
      )

  -- A chunk fills the buffer up to its own end or to that of the buffer.
  copy_chunk-Filled :
      (off c bbeg n : ℕ) (buf : Bytes)
      → Filled byte off bbeg buf
      → length buf ≡ n
      → c < off + n
      → off + n ≤ size
      → c ≤ off + bbeg
      → off + bbeg ≤ c + chlen
      → (buf' : Bytes) × (copy_chunk off c (chunk byte size chlen c) bbeg buf
          ≡ ok (min (off + n) (c + chlen) - off, buf'))
        × Filled byte off (min (off + n) (c + chlen) - off) buf'
        × (length buf' ≡ n)
  copy_chunk-Filled off c bbeg n buf f e h k l m =
      let ch = chunk byte size chlen c in
      let t = length-tabulate byte c (min (c + chlen) size - c) in
      let d = min (off + n) (c + chlen) - (off + bbeg) in
      let q : bbeg + d ≡ min (off + n) (c + chlen) - off = omega (arith, f.1, e) in
      let r : d ≡ min (off + length buf) (c + length ch) - (off + bbeg) = omega (arith, t, e, k) in
      let s =
        copy_chunk_step off c bbeg d ch buf l (omega (arith, e, k, fits)) f.1
          (omega (arith, t, fits)) r (omega (arith, t, m, k, f.1, e)) in
      let b = buf_parts off c bbeg d buf f l (omega (arith, k, f.1, e, m)) in
      let (g, w) = Filled-append off (bbeg + d) buf (omega (arith, f.1, e)) in
      rw (sym q) (
        tabulate byte off (bbeg + d) ++ drop (bbeg + d) buf,
        s ∙ ap (λ x. ok (bbeg + d, x)) b,
        g,
        w ∙ e,
      )

  pub AllBefore-step_by :
      (fuel beg end : ℕ) → end ≤ size → AllBefore size (step_by fuel chlen beg end)
  unfolding step_by
  AllBefore-step_by zero beg end h = tt
  AllBefore-step_by (suc fuel) beg end h = elim (dec_lt beg end) [
    | yes p ↦ rw (lt→ltb beg end p) (omega arith, AllBefore-step_by fuel (beg + chlen) end h)
    | no p ↦ rw (le→ltb_false beg end (omega arith)) tt
  ]

  copy_chunks-done :
      (off n bbeg : ℕ) (buf : Bytes)
      → Filled byte off bbeg buf
      → length buf ≡ n
      → n ≤ bbeg
      → copy_chunks off [] [] bbeg buf ≡ ok (tabulate byte off n)
  unfolding copy_chunks
  copy_chunks-done off n bbeg buf f e h =
      let b : bbeg ≡ length buf = omega (arith, f.1, e, h) in
      ap (λ t. ok t)
        (sym (take_all buf) ∙ ap (λ i. take i buf) (sym b) ∙ f.0 ∙ ap (tabulate byte off) (b ∙ e))

  copy_chunks_step :
      (off c bbeg bbeg' : ℕ) (ch buf buf' : Bytes) (cs : List ℕ) (chs : List Bytes)
      → copy_chunk off c ch bbeg buf ≡ ok (bbeg', buf')
      → copy_chunks off (c ∷ cs) (ch ∷ chs) bbeg buf ≡ copy_chunks off cs chs bbeg' buf'
  unfolding copy_chunks
  copy_chunks_step off c bbeg bbeg' ch buf buf' cs chs e = rw e refl

  -- The chunks of a range fill the buffer.
  pub copy_chunks_lem :
      (off n fuel c bbeg : ℕ) (buf : Bytes)
      → Filled byte off bbeg buf
      → length buf ≡ n
      → off + n ≤ size
      → off + n ≤ c + fuel
      → min c (off + n) ≤ off + bbeg
      → off + bbeg ≤ c + chlen
      → let cs = step_by fuel chlen c (off + n) in
        copy_chunks off cs (map (chunk byte size chlen) cs) bbeg buf ≡ ok (tabulate byte off n)
  unfolding step_by
  copy_chunks_lem off n zero c bbeg buf f e k w l m =
      copy_chunks-done off n bbeg buf f e (omega (arith, w, l))
  copy_chunks_lem off n (suc fuel) c bbeg buf f e k w l m = elim (dec_lt c (off + n)) [
    | yes p ↦
        let (buf', s, g, e') = copy_chunk-Filled off c bbeg n buf f e p k (omega (arith, l, p)) m in
        let bbeg' = min (off + n) (c + chlen) - off in
        let cs = step_by fuel chlen (c + chlen) (off + n) in
        rw (lt→ltb c (off + n) p) (
          copy_chunks_step off c bbeg bbeg' (chunk byte size chlen c) buf buf' cs
            (map (chunk byte size chlen) cs) s
          ∙ copy_chunks_lem off n fuel (c + chlen) bbeg' buf' g e' k (omega (arith, w, pos))
              (omega (arith, p, l, m, pos, f.1, e)) (omega (arith, p, l, m, pos)))
    | no p ↦
        rw (le→ltb_false c (off + n) (omega arith))
          (copy_chunks-done off n bbeg buf f e (omega (arith, l, p)))
  ]
