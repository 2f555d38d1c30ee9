-- ===== src/Io/Exact.antt =====
-- `CacheReadSeek` of src/cachereadseek.rs over a source that serves its bytes.
use vmdk_rs.Base.{
  u64_mod, ℕ, zero, suc, ◌+◌, ◌-◌, ◌≤◌, ◌<◌, ◌≡◌, refl, ap, ◌∙◌, [], ◌∷◌, ◌++◌, length, tabulate,
  length-tabulate, arith, min, leb, le→leb, lt→leb_false, if◌then◌else◌,
}
use mathlib.Core.List.{append-nil}
use native.Mathlib.Decide.{dec_lt, dec_le}
use vmdk_rs.Base.Outcome.{ok, err}
use vmdk_rs.Io.{
  Bytes, Cache, ℤ, pos, negsuc, SeekFrom, unexpected_eof, seek_past_end, from_start, from_end,
  from_current, CacheReadSeek, checked_add_signed, seek_to, read, seek, read_exact_loop, read_exact,
}

-- `2 ^ 63`: the length of a file is an `off_t` and that of an object an `i64`.
abbrev pub max_size : ℕ
max_size = 9223372036854775808

-- Source `idx` holds `size` bytes, and `byte off` is the one at offset `off`. This is what the
-- trait `Cache` asks of `read` and `end`.
pub record Serves (cache : Cache) (idx : ℕ) (byte : ℕ → ℕ) (size : ℕ) : Type 0 where
  pub ends : cache.end idx ≡ ok size
  pub reads : (off n : ℕ) → 0 < n → off + n ≤ size → cache.read idx off n ≡ ok (tabulate byte off n)
  pub fits : size < max_size

module _ (cache : Cache) (idx : ℕ) (byte : ℕ → ℕ) (size : ℕ)
    (serves : Serves cache idx byte size) where
  abbrev pub at : ℕ → CacheReadSeek
  at p = record { idx = idx; pos = p }

  read_some :
      (p n : ℕ)
      → p + suc n ≤ size
      → read cache (suc n) (at p) ≡ ok (tabulate byte p (suc n), at (p + suc n))
  unfolding read
  read_some p n h = ground (arith, serves.ends, serves.reads p (suc n) (omega arith) h)

  read_rest :
      (p n : ℕ)
      → p ≤ size
      → size < p + n
      → p + n < u64_mod
      → read cache n (at p) ≡ ok (tabulate byte p (size - p), at size)
  unfolding read
  read_rest p n h k w = elim (dec_lt p size) [
    | yes q ↦ ground (arith, serves.ends, serves.reads p (size - p) (omega arith) (omega arith))
    | no q ↦
        let e : size - p ≡ 0 = omega arith in
        let e' : p ≡ size = omega arith in ground (arith, serves.ends)
  ]

  loop_step :
      (fuel n b : ℕ) (bs got : Bytes) (f f' : CacheReadSeek)
      → read cache (suc n) f ≡ ok (b ∷ bs, f')
      → read_exact_loop cache (suc fuel) (suc n) got f
        ≡ read_exact_loop cache fuel (n - length bs) (got ++ b ∷ bs) f'
  unfolding read_exact_loop
  loop_step fuel n b bs got f f' e = rw e

  loop_stop :
      (fuel n : ℕ) (got : Bytes) (f f' : CacheReadSeek)
      → read cache (suc n) f ≡ ok ([], f')
      → read_exact_loop cache (suc fuel) (suc n) got f ≡ err unexpected_eof
  unfolding read_exact_loop
  loop_stop fuel n got f f' e = rw e

  loop_done :
      (fuel : ℕ) (got : Bytes) (f : CacheReadSeek)
      → read_exact_loop cache fuel 0 got f ≡ ok (got, f)
  unfolding read_exact_loop
  loop_done fuel got f = refl

  loop-full :
      (fuel n p : ℕ) (got : Bytes)
      → n ≤ fuel
      → p + n ≤ size
      → read_exact_loop cache fuel n got (at p) ≡ ok (got ++ tabulate byte p n, at (p + n))
  loop-full fuel zero p got h k =
      let e : p + 0 ≡ p = omega arith in rw (e, append-nil) (loop_done fuel got (at p))
  loop-full zero (suc n) p got h k = absurd (omega arith)
  loop-full (suc fuel) (suc n) p got h k =
      let e : n - length (tabulate byte (suc p) n) ≡ 0 =
        omega (arith, length-tabulate byte (suc p) n) in
      loop_step fuel n (byte p) (tabulate byte (suc p) n) got (at p) (at (p + suc n))
        (read_some p n k)
      ∙ ap (λ l. read_exact_loop cache fuel l (got ++ tabulate byte p (suc n)) (at (p + suc n))) e
      ∙ loop_done fuel _ _

  read_end : (n : ℕ) → size + suc n < u64_mod → read cache (suc n) (at size) ≡ ok ([], at size)
  read_end n w =
      let e : size - size ≡ 0 = omega arith in
      rw e at (read_rest size (suc n) (omega arith) (omega arith) w)

  -- With fewer bytes left than are asked for, the loop ends with `UnexpectedEof`.
  loop_short :
      (fuel n p k : ℕ) (got : Bytes)
      → n ≤ fuel
      → p + k ≡ size
      → k < n
      → p + n < u64_mod
      → read_exact_loop cache fuel n got (at p) ≡ err unexpected_eof
  loop_short fuel zero p k got h s l w = absurd (omega arith)
  loop_short zero (suc n) p k got h s l w = absurd (omega arith)
  loop_short (suc fuel) (suc n) p zero got h s l w =
      let e : p ≡ size = omega arith in
      rw e (loop_stop fuel n got (at size) (at size) (read_end n (omega (arith, e, w))))
  loop_short (suc zero) (suc n) p (suc k) got h s l w = absurd (omega arith)
  loop_short (suc (suc fuel)) (suc n) p (suc k) got h s l w =
      let e : size - p ≡ suc k = omega arith in
      let r = rw e at (read_rest p (suc n) (omega arith) (omega arith) w) in
      let more : n - length (tabulate byte (suc p) k) ≡ suc (n - k - 1) =
        omega (arith, length-tabulate byte (suc p) k) in
      loop_step (suc fuel) n (byte p) (tabulate byte (suc p) k) got (at p) (at size) r
      ∙ ap (λ j. read_exact_loop cache (suc fuel) j (got ++ tabulate byte p (suc k)) (at size)) more
      ∙ loop_stop fuel _ _ (at size) (at size) (read_end (n - k - 1) (omega arith))

  pub read_exact_ok :
      (p n : ℕ) → p + n ≤ size → read_exact cache n (at p) ≡ ok (tabulate byte p n, at (p + n))
  unfolding read_exact
  read_exact_ok p n h = loop-full n n p [] (omega arith) h

  pub read_exact_eof :
      (p n : ℕ)
      → p ≤ size
      → size < p + n
      → p + n < u64_mod
      → read_exact cache n (at p) ≡ err unexpected_eof
  unfolding read_exact
  read_exact_eof p n h k w =
      loop_short n n p (size - p) [] (omega arith) (omega arith) (omega arith) w

  -- Over a source that is served, from any position `p` up to its end, where `p + n` is a `u64`: with
  -- `n` bytes left `read_exact` returns them and moves past them, and else it is an `UnexpectedEof`.
  pub read_exact_lem :
      (p n : ℕ)
      → p ≤ size
      → p + n < u64_mod
      → read_exact cache n (at p)
        ≡ (if leb (p + n) size then ok (tabulate byte p n, at (p + n)) else err unexpected_eof)
  read_exact_lem p n h w = elim (dec_le (p + n) size) [
    | yes q ↦ rw (le→leb (p + n) size q) (read_exact_ok p n q)
    | no q ↦ rw (lt→leb_false (p + n) size (omega arith)) (read_exact_eof p n h (omega arith) w)
  ]

  -- Over a source that is served, a `seek` from the start to a `u64` ends there, wherever the position
  -- was, or is the error for a position behind the end.
  seek-from_start :
      (p n : ℕ)
      → n < u64_mod
      → seek cache (from_start n) (at p) ≡ (if leb n size then ok (at n) else err seek_past_end)
  unfolding seek
  seek-from_start p n h = ground (arith, serves.ends)

  -- `base + offset ≡ p`, for a signed offset
  abbrev pub Offset : ℕ → ℤ → ℕ → Type 0
  Offset base (pos k) p = p ≡ base + k
  Offset base (negsuc k) p = p + suc k ≡ base

  -- Where a seek from `p` to `to` leads: to `n`, or as far from the end or from `p` as the offset says.
  abbrev pub Target : ℕ → SeekFrom → ℕ → Type 0
  Target p (from_start n) q = q ≡ n
  Target p (from_end offset) q = Offset size offset q
  Target p (from_current offset) q = Offset p offset q

  seek_to_lem :
      (p base : ℕ) (offset : ℤ) (f : CacheReadSeek)
      → seek_to (at p) size (checked_add_signed base offset) ≡ ok f
      → (f.idx ≡ idx) × (f.pos ≤ size) × Offset base offset f.pos
  seek_to_lem p base (pos k) f e = ground (arith, e)
  seek_to_lem p base (negsuc k) f e = ground (arith, e)

  -- Over a source that is served, a `seek` that succeeds keeps the source, and ends not behind its end: from
  -- the start at the given position, and else at the signed offset from the end or from the position before.
  pub seek_lem :
      (p : ℕ) (to : SeekFrom) (f : CacheReadSeek)
      → seek cache to (at p) ≡ ok f
      → (f.idx ≡ idx) × (f.pos ≤ size) × Target p to f.pos
  unfolding seek
  seek_lem p (from_start n) f e =
      let (a, b, c) = seek_to_lem p n (pos 0) f (rw serves.ends at e) in (a, b, omega (arith, c))
  seek_lem p (from_end n) f e = seek_to_lem p size n f (rw serves.ends at e)
  seek_lem p (from_current n) f e = seek_to_lem p p n f (rw serves.ends at e)

  pub seek_ok : (p n : ℕ) → n ≤ size → seek cache (from_start n) (at p) ≡ ok (at n)
  seek_ok p n h =
      seek-from_start p n (omega (arith, serves.fits))
      ∙ ap (λ b. if b then ok (at n) else err seek_past_end) (le→leb n size h)

  pub seek_err :
      (p n : ℕ) → n < u64_mod → size < n → seek cache (from_start n) (at p) ≡ err seek_past_end
  seek_err p n k h =
      seek-from_start p n k
      ∙ ap (λ b. if b then ok (at n) else err seek_past_end) (lt→leb_false n size h)

  -- A `read` returns what is left of the source, at most `n` bytes.
  pub read_upto :
      (p n : ℕ)
      → p ≤ size
      → p + n < u64_mod
      → let k = min n (size - p) in read cache n (at p) ≡ ok (tabulate byte p k, at (p + k))
  unfolding read
  read_upto p zero h w = ground (arith, serves.ends)
  read_upto p (suc n) h w = elim (dec_le (p + suc n) size) [
    | yes q ↦ let e : min (suc n) (size - p) ≡ suc n = omega arith in rw e (read_some p n q)
    | no q ↦
        let e : min (suc n) (size - p) ≡ size - p = omega arith in
        let e' : p + (size - p) ≡ size = omega arith in
        rw (e, e') (read_rest p (suc n) h (omega arith) w)
  ]
