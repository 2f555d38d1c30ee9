-- ===== src/Reader/ReadAt.antt =====
-- `read_at_offset` of src/vmdk_reader.rs over spans that tile the image.
use vmdk_rs.Base.{
  u64_mod, sub64, add64, ℕ, zero, suc, ◌+◌, ◌-◌, ◌≤◌, ◌<◌, ◌≡◌, refl, ap, ◌∙◌, List, [], ◌∷◌, ◌++◌,
  some, leb, if◌then◌else◌, length, length-append, get_elem?, min, tabulate, length-tabulate,
  tabulate-append, arith, lt→ltb, le→ltb_false, le→leb, lt→leb_false,
}
use mathlib.Core.List.{append_assoc, append-nil}
use native.Mathlib.Decide.{dec_le}
use vmdk_rs.Base.Outcome.{ok}
use vmdk_rs.Crates.{ByteOrder, Deflate}
use vmdk_rs.Io.{Bytes, Cache}
use vmdk_rs.Storage.{ExtentStorage, read_storage}
use vmdk_rs.Extent.{Extent}
use vmdk_rs.Reader.{Span, VmdkReader, index, read_loop}

-- Non-empty spans in order from `lo` on, without a gap before `hi`.
abbrev pub Tiles : ℕ → ℕ → List Span → Type 0
Tiles lo hi [] = hi ≤ lo
Tiles lo hi ((b, (e, x)) ∷ m) = (lo ≤ b) × (min b hi ≤ lo) × (b < e) × Tiles e hi m

-- The ends of the spans are values of a `u64`.
abbrev pub AllBelow : ℕ → List Span → Type 0
AllBelow w [] = Unit
AllBelow w ((b, (e, x)) ∷ m) = (e < w) × AllBelow w m

module _ (cache : Cache) (order : ByteOrder) (deflate : Deflate) where
  -- From inside `[beg, end)` the storage returns at least one byte, and the bytes of `disk`.
  pub record ServesSpan (disk : ℕ → ℕ) (beg end : ℕ) (st : ExtentStorage) : Type 0 where
    pub serve :
        (off n : ℕ)
        → beg ≤ off
        → off + n ≤ end
        → 0 < n
        → (k : ℕ) × (0 < k)
          × (k ≤ n)
          × (read_storage cache order deflate st off n ≡ ok (tabulate disk off k))

  -- Each span names an extent of the reader that serves it.
  abbrev pub Backed : (ℕ → ℕ) → List Extent → List Span → Type 0
  Backed disk extents [] = Unit
  Backed disk extents ((b, (e, x)) ∷ m) =
      ((ex : Extent) × (get_elem? extents x ≡ some ex) × ServesSpan disk b e ex.storage)
      × Backed disk extents m

  get_elem?-append :
      {A : Type 0} (pre : List A) (x : A) (suf : List A)
      → get_elem? (pre ++ x ∷ suf) (length pre) ≡ some x
  get_elem?-append [] x suf = refl
  get_elem?-append (y ∷ pre) x suf = get_elem?-append pre x suf

  pub loop_stop :
      (fuel : ℕ) (v : VmdkReader) (i offset end left : ℕ) (out : Bytes)
      → end ≤ offset
      → read_loop cache order deflate fuel v i offset end left out ≡ ok out
  unfolding read_loop
  loop_stop zero v i offset end left out h = rw (le→ltb_false offset end h)
  loop_stop (suc fuel) v i offset end left out h = rw (le→ltb_false offset end h, read_loop)

  -- One round that reads `k` bytes.
  loop_round :
      (disk : ℕ → ℕ) (fuel : ℕ) (v : VmdkReader) (i offset end left : ℕ) (out : Bytes) (b e x k : ℕ)
      (ex : Extent)
      → offset < end
      → offset < e
      → e < u64_mod
      → get_elem? v.spans i ≡ some (b, (e, x))
      → get_elem? v.extents x ≡ some ex
      → read_storage cache order deflate ex.storage offset (min (e - offset) left)
        ≡ ok (tabulate disk offset k)
      → offset + k ≤ e
      → read_loop cache order deflate (suc fuel) v i offset end left out
        ≡ read_loop cache order deflate fuel v
            (if leb e (offset + k) then suc i else i)
            (offset + k)
            end
            (left - k)
            (out ++ tabulate disk offset k)
  unfolding read_loop
  loop_round disk fuel v i offset end left out b e x k ex h1 h2 h3 es ee er hk =
      let q : sub64 e offset ≡ e - offset = omega arith in
      let l : length (tabulate disk offset k) ≡ k = length-tabulate disk offset k in
      let a : add64 offset k ≡ offset + k = omega arith in
      rw (lt→ltb offset end h1, read_loop)
        (rw (es, index) (rw (ee, index) (rw q (rw er (rw l (rw a))))))

  -- On `fuel`, the loop from offset `off` in the span behind `pre` reads the bytes of `disk`.
  abbrev pub Reads : (ℕ → ℕ) → ℕ → VmdkReader → ℕ → Type 0
  Reads disk fuel v end =
      (pre suf : List Span) (off left b e x hi : ℕ) (out : Bytes)
      → v.spans ≡ pre ++ (b, (e, x)) ∷ suf
      → Tiles b hi ((b, (e, x)) ∷ suf)
      → Backed disk v.extents ((b, (e, x)) ∷ suf)
      → AllBelow u64_mod ((b, (e, x)) ∷ suf)
      → b ≤ off
      → off < e
      → off + left ≡ end
      → end ≤ hi
      → left ≤ fuel
      → read_loop cache order deflate fuel v (length pre) off end left out
        ≡ ok (out ++ tabulate disk off left)

  -- The loop behind a span that has been read to its end.
  loop_next :
      (disk : ℕ → ℕ) (fuel : ℕ) (v : VmdkReader) (end : ℕ)
      → Reads disk fuel v end
      → (pre suf : List Span) (left b e x hi : ℕ) (out : Bytes) → v.spans ≡ pre ++ (b, (e, x)) ∷ suf
      → Tiles e hi suf
      → Backed disk v.extents suf
      → AllBelow u64_mod suf
      → e + left ≡ end
      → end ≤ hi
      → left ≤ fuel
      → read_loop cache order deflate fuel v (suc (length pre)) e end left out
        ≡ ok (out ++ tabulate disk e left)
  loop_next disk fuel v end ih pre suf zero b e x hi out es t bk u h1 h2 h3 =
      rw append-nil (loop_stop fuel v (suc (length pre)) e end 0 out (omega arith))
  loop_next disk fuel v end ih pre [] (suc left) b e x hi out es t bk u h1 h2 h3 =
      absurd (omega arith)
  loop_next disk fuel v end ih pre ((b2, (e2, x2)) ∷ suf) (suc left) b e x hi out es t bk u h1 h2
        h3 =
      let l : length (pre ++ (b, (e, x)) ∷ []) ≡ suc (length pre) =
        omega (arith, length-append pre ((b, (e, x)) ∷ [])) in
      let a : v.spans ≡ (pre ++ (b, (e, x)) ∷ []) ++ (b2, (e2, x2)) ∷ suf = rw append_assoc es in
      let r =
        ih (pre ++ (b, (e, x)) ∷ []) suf e (suc left) b2 e2 x2 hi out a
          (omega arith, omega arith, t.2, t.3) bk u (omega (arith, t.0, t.1))
          (omega (arith, t.0, t.1, t.2)) h1 h2 h3 in
      rw l at r

  -- The loop behind a round of `k` bytes.
  loop_after :
      (disk : ℕ → ℕ) (fuel : ℕ) (v : VmdkReader) (end : ℕ)
      → Reads disk fuel v end
      → (pre suf : List Span) (off left k b e x hi : ℕ) (out : Bytes)
      → v.spans ≡ pre ++ (b, (e, x)) ∷ suf
      → Tiles b hi ((b, (e, x)) ∷ suf)
      → Backed disk v.extents ((b, (e, x)) ∷ suf)
      → AllBelow u64_mod ((b, (e, x)) ∷ suf)
      → b ≤ off
      → off + left ≡ end
      → end ≤ hi
      → left ≤ suc fuel
      → 0 < k
      → k ≤ left
      → off + k ≤ e
      → read_loop cache order deflate fuel v
          (if leb e (off + k) then suc (length pre) else length pre)
          (off + k)
          end
          (left - k)
          (out ++ tabulate disk off k)
        ≡ ok (out ++ tabulate disk off left)
  loop_after disk fuel v end ih pre suf off left k b e x hi out es t bk u h1 h2 h3 h4 k0 kn ke =
      let w : k + (left - k) ≡ left = omega arith in
      let j : (out ++ tabulate disk off k) ++ tabulate disk (off + k) (left - k)
          ≡ out ++ tabulate disk off left =
        append_assoc out _ _
        ∙ ap (λ xs. out ++ xs) (tabulate-append disk off k (left - k))
        ∙ ap (λ n. out ++ tabulate disk off n) w in
      elim (dec_le e (off + k)) [
        | yes q ↦
            let z : off + k ≡ e = omega arith in
            rw (le→leb e (off + k) q) (
              loop_next disk fuel v end ih pre suf (left - k) b (off + k) x hi
                (out ++ tabulate disk off k) (rw z es) (rw z t.3) bk.1 u.1 (omega arith) h3
                (omega arith))
            ∙ ap ok j
        | no q ↦
            rw (lt→leb_false e (off + k) (omega arith)) (
              ih pre suf (off + k) (left - k) b e x hi (out ++ tabulate disk off k) es t bk u
                (omega arith) (omega arith) (omega arith) h3 (omega arith))
            ∙ ap ok j
      ]

  pub loop-Reads : (disk : ℕ → ℕ) (fuel : ℕ) (v : VmdkReader) (end : ℕ) → Reads disk fuel v end
  loop-Reads disk zero v end pre suf off left b e x hi out es t bk u h1 h2 h3 h4 h5 =
      let z : left ≡ 0 = omega arith in
      rw (z, append-nil) (loop_stop zero v (length pre) off end 0 out (omega arith))
  loop-Reads disk (suc fuel) v end pre suf off zero b e x hi out es t bk u h1 h2 h3 h4 h5 =
      rw append-nil (loop_stop (suc fuel) v (length pre) off end 0 out (omega arith))
  loop-Reads disk (suc fuel) v end pre suf off (suc left) b e x hi out es t ((ex, ee, sv), bk) u h1
        h2 h3 h4 h5 =
      let (k, k0, kn, er) =
        sv.serve off (min (e - off) (suc left)) h1 (omega arith) (omega arith) in
      let here : get_elem? v.spans (length pre) ≡ some (b, (e, x)) =
        rw es (get_elem?-append pre (b, (e, x)) suf) in
      loop_round disk fuel v (length pre) off end (suc left) out b e x k ex (omega arith) h2 u.0
        here ee er (omega arith)
      ∙ loop_after disk fuel v end (loop-Reads disk fuel v end) pre suf off (suc left) k b e x hi
          out es t ((ex, ee, sv), bk) u h1 h3 h4 h5 k0 (omega arith) (omega arith)
