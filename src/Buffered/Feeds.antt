-- ===== src/Buffered/Feeds.antt =====
-- What a `BufReader` returns, wherever the ends of its buffers fall.
use vmdk_rs.Base.{
  ℕ, zero, suc, ◌+◌, ◌-◌, ◌≤◌, ◌<◌, ◌≡◌, refl, ap, ◌∙◌, sym, [], ◌∷◌, ◌++◌, Option, none, some,
  length, length-append, tabulate, length-tabulate, tabulate-append, min, arith,
}
use vmdk_rs.Base.Outcome.{Outcome, ok}
use vmdk_rs.Io.{Bytes, IoError}
use vmdk_rs.Buffered.{buffer_size, cut, consume, fill_buf, read_until, read_to_end}
use vmdk_rs.Buffered.Cut.{upto, Cuts, cut-Cuts, tabulate-split}

-- `fill` reads the bytes of `byte` up to `size`: `st p` is what it wraps at position `p`.
pub record Feeds {S : Type 0} (fill : S → Outcome IoError (Bytes × S)) (st : ℕ → S) (byte : ℕ → ℕ)
    (size : ℕ) : Type 0 where
  pub feeds :
      (p : ℕ)
      → p ≤ size
      → let k = min buffer_size (size - p) in fill (st p) ≡ ok (tabulate byte p k, st (p + k))

module _ {S : Type 0} (fill : S → Outcome IoError (Bytes × S)) (st : ℕ → S) (byte : ℕ → ℕ)
    (size : ℕ) (fed : Feeds fill st byte size) where
  -- The reader at position `q` with `k` bytes in its buffer.
  abbrev pub buffered : ℕ → ℕ → Bytes × S
  buffered q k = (tabulate byte q k, st (q + k))

  -- The bytes that are left.
  abbrev pub left : ℕ → Bytes
  left q = tabulate byte q (size - q)

  fill_buf_lem :
      (q k : ℕ)
      → q + k ≤ size
      → (j : ℕ) × (q + j ≤ size)
        × (min 1 (size - q) ≤ j)
        × (fill_buf fill (buffered q k) ≡ ok (buffered q j))
  unfolding fill_buf
  fill_buf_lem q zero h =
      let z : q + 0 ≡ q = omega arith in
      (min buffer_size (size - q), omega arith, omega arith, rw z (fed.feeds q (omega arith)))
  fill_buf_lem q (suc k) h = (suc k, h, omega arith, refl)

  left-split : (q j : ℕ) → q + j ≤ size → left q ≡ tabulate byte q j ++ left (q + j)
  left-split q j h =
      let e : j + (size - (q + j)) ≡ size - q = omega arith in
      sym (tabulate-append byte q j (size - (q + j)) ∙ ap (tabulate byte q) e)

  -- What `read_until` returns from position `q` on.
  abbrev Line : ℕ → ℕ → Outcome IoError (Bytes × (Bytes × S)) → Type 0
  Line delim q o =
      (k : ℕ) × (q + length (upto delim (left q)) + k ≤ size)
      × (o ≡ ok (upto delim (left q), buffered (q + length (upto delim (left q))) k))

  read_until_stop :
      (fuel delim : ℕ) (r : Bytes × S) (s : S)
      → fill_buf fill r ≡ ok ([], s)
      → read_until fill (suc fuel) delim r ≡ ok ([], ([], s))
  unfolding read_until
  read_until_stop fuel delim r s e = rw e

  read_until_found :
      (fuel delim b : ℕ) (bs pre rest : Bytes) (r : Bytes × S) (s : S)
      → fill_buf fill r ≡ ok (b ∷ bs, s)
      → cut delim (b ∷ bs) ≡ some (pre, rest)
      → read_until fill (suc fuel) delim r ≡ ok (pre, (rest, s))
  unfolding read_until
  read_until_found fuel delim b bs pre rest r s e c =
      rw e (ap (λ o. consume fill (b ∷ bs) s o (read_until fill fuel delim)) c)

  read_until_more :
      (fuel delim b : ℕ) (bs more : Bytes) (r r' : Bytes × S) (s : S)
      → fill_buf fill r ≡ ok (b ∷ bs, s)
      → cut delim (b ∷ bs) ≡ none
      → read_until fill fuel delim ([], s) ≡ ok (more, r')
      → read_until fill (suc fuel) delim r ≡ ok ((b ∷ bs) ++ more, r')
  unfolding read_until
  read_until_more fuel delim b bs more r r' s e c m =
      rw e (
        ap (λ o. consume fill (b ∷ bs) s o (read_until fill fuel delim)) c
        ∙ rw (m, read_until) refl)

  -- The line ends in the buffer.
  ends_in_buffer :
      (fuel delim q j : ℕ) (pre rest : Bytes) (r : Bytes × S)
      → q + suc j ≤ size
      → fill_buf fill r ≡ ok (buffered q (suc j))
      → cut delim (tabulate byte q (suc j)) ≡ some (pre, rest)
      → Cuts delim (tabulate byte q (suc j)) (some (pre, rest))
      → Line delim q (read_until fill (suc fuel) delim r)
  ends_in_buffer fuel delim q j pre rest r h e c (f, g, p) =
      let (l, t) = tabulate-split byte q (suc j) pre rest g in
      let u : upto delim (left q) ≡ pre = rw (left-split q (suc j) h) (f (left (q + suc j))) in
      let z : q + suc j ≡ q + length pre + (suc j - length pre) = omega arith in
      (
        suc j - length pre,
        rw u (omega arith),
        read_until_found fuel delim (byte q) (tabulate byte (suc q) j) pre rest r (st (q + suc j)) e
              c
            ∙ rw (u, sym t) (ap (λ p. ok (pre, (rest, st p))) z),
      )

  -- What the rounds behind this one have to return.
  abbrev Rest : ℕ → ℕ → ℕ → Type 0
  Rest fuel delim q =
      q ≤ size → size < q + fuel → Line delim q (read_until fill fuel delim (buffered q 0))

  -- The line does not end in the buffer.
  goes_on :
      (fuel delim q j : ℕ) (r : Bytes × S)
      → q + suc j ≤ size
      → size < q + suc fuel
      → fill_buf fill r ≡ ok (buffered q (suc j))
      → cut delim (tabulate byte q (suc j)) ≡ none
      → Cuts delim (tabulate byte q (suc j)) none
      → Rest fuel delim (q + suc j)
      → Line delim q (read_until fill (suc fuel) delim r)
  goes_on fuel delim q j r h w e c f rest =
      let p = q + suc j in
      let (k, l, m) = rest h (omega arith) in
      let line = upto delim (left p) in
      let u : upto delim (left q) ≡ tabulate byte q (suc j) ++ line =
        rw (left-split q (suc j) h) (f (left p)) in
      let n : length (tabulate byte q (suc j) ++ line) ≡ suc j + length line =
        length-append (tabulate byte q (suc j)) line
        ∙ ap (λ i. i + length line) (length-tabulate byte q (suc j)) in
      let y : q + suc j ≡ q + suc j + 0 = omega arith in
      let z : q + (suc j + length line) ≡ p + length line = omega arith in
      (
        k,
        rw (u, n) (omega arith),
        read_until_more fuel delim (byte q) (tabulate byte (suc q) j) line r
              (buffered (p + length line) k) (st p) e c
              (ap (λ i. read_until fill fuel delim ([], st i)) y ∙ m)
            ∙ rw (u, n, z) refl,
      )

  in_or_behind :
      (fuel delim q j : ℕ) (r : Bytes × S) (o : Option (Bytes × Bytes))
      → q + suc j ≤ size
      → size < q + suc fuel
      → fill_buf fill r ≡ ok (buffered q (suc j))
      → cut delim (tabulate byte q (suc j)) ≡ o
      → Cuts delim (tabulate byte q (suc j)) o
      → Rest fuel delim (q + suc j)
      → Line delim q (read_until fill (suc fuel) delim r)
  in_or_behind fuel delim q j r none h w e c f rest = goes_on fuel delim q j r h w e c f rest
  in_or_behind fuel delim q j r (some (pre, t)) h w e c f rest =
      ends_in_buffer fuel delim q j pre t r h e c f

  read_until_round :
      (fuel delim q j : ℕ) (r : Bytes × S)
      → q + j ≤ size
      → min 1 (size - q) ≤ j
      → size < q + suc fuel
      → fill_buf fill r ≡ ok (buffered q j)
      → Rest fuel delim (q + j)
      → Line delim q (read_until fill (suc fuel) delim r)
  read_until_round fuel delim q zero r h n w e rest =
      let z : size - q ≡ 0 = omega arith in
      let y : q + 0 ≡ q = omega arith in
      let u : upto delim (left q) ≡ [] = rw z refl in
      (0, rw u (omega arith), read_until_stop fuel delim r (st (q + 0)) e ∙ rw (u, y, y) refl)
  read_until_round fuel delim q (suc j) r h n w e rest =
      let xs = tabulate byte q (suc j) in
      in_or_behind fuel delim q j r (cut delim xs) h w e refl (cut-Cuts delim xs) rest

  -- `read_until` returns the bytes up to the delimiter, or all that are left.
  pub read_until_lem :
      (fuel delim q k : ℕ)
      → q + k ≤ size
      → size < q + fuel
      → Line delim q (read_until fill fuel delim (buffered q k))
  read_until_lem zero delim q k h w = absurd (omega arith)
  read_until_lem (suc fuel) delim q k h w =
      let (j, l, n, e) = fill_buf_lem q k h in
      read_until_round fuel delim q j (buffered q k) l n w e
        (λ l' w'. read_until_lem fuel delim (q + j) 0 (omega arith) w')

  read_to_end_stop :
      (fuel : ℕ) (r : Bytes × S) (s : S)
      → fill_buf fill r ≡ ok ([], s)
      → read_to_end fill (suc fuel) r ≡ ok []
  unfolding read_to_end
  read_to_end_stop fuel r s e = rw e

  read_to_end_more :
      (fuel b : ℕ) (bs more : Bytes) (r : Bytes × S) (s : S)
      → fill_buf fill r ≡ ok (b ∷ bs, s)
      → read_to_end fill fuel ([], s) ≡ ok more
      → read_to_end fill (suc fuel) r ≡ ok ((b ∷ bs) ++ more)
  unfolding read_to_end
  read_to_end_more fuel b bs more r s e m = rw e (rw (m, read_to_end) refl)

  read_to_end_round :
      (fuel q j : ℕ) (r : Bytes × S)
      → q + j ≤ size
      → min 1 (size - q) ≤ j
      → fill_buf fill r ≡ ok (buffered q j)
      → (0 < j → read_to_end fill fuel ([], st (q + j)) ≡ ok (left (q + j)))
      → read_to_end fill (suc fuel) r ≡ ok (left q)
  read_to_end_round fuel q zero r h n e rest =
      let z : size - q ≡ 0 = omega arith in read_to_end_stop fuel r (st (q + 0)) e ∙ rw z refl
  read_to_end_round fuel q (suc j) r h n e rest =
      read_to_end_more fuel (byte q) (tabulate byte (suc q) j) (left (q + suc j)) r (st (q + suc j))
        e (rest (omega arith))
      ∙ ap (λ bs. ok bs) (sym (left-split q (suc j) h))

  -- `read_to_end` returns all the bytes that are left.
  pub read_to_end_lem :
      (fuel q k : ℕ)
      → q + k ≤ size
      → size < q + fuel
      → read_to_end fill fuel (buffered q k) ≡ ok (left q)
  read_to_end_lem zero q k h w = absurd (omega arith)
  read_to_end_lem (suc fuel) q k h w =
      let (j, l, n, e) = fill_buf_lem q k h in
      let y : q + j + 0 ≡ q + j = omega arith in
      read_to_end_round fuel q j (buffered q k) l n e (λ p.
        ap (λ i. read_to_end fill fuel ([], st i)) (sym y)
        ∙ read_to_end_lem fuel (q + j) 0 (omega arith) (omega arith))
