-- ===== src/Descriptor/File.antt =====
-- What `read_descriptor_file` of src/descriptor.rs makes of a file: its reads against the lines of the
-- whole text.
use vmdk_rs.Base.{
  ℕ, zero, suc, ◌+◌, ◌-◌, ◌≤◌, ◌<◌, ◌≡◌, refl, ap, ◌∙◌, sym, List, [], ◌∷◌, ◌++◌, length, tabulate,
  length-tabulate, drop, drop-tabulate, arith,
}
use mathlib.Core.List.{append_assoc}
use native.Mathlib.Decide.{dec_lt}
use vmdk_rs.Base.Outcome.{Outcome, ok, hang}
use vmdk_rs.Io.{Bytes, IoError, Cache, CacheReadSeek, read}
use vmdk_rs.Io.Exact.{Serves, at, read_upto}
use vmdk_rs.Buffered.{buffer_size}
use vmdk_rs.Buffered.Cut.{upto}
use vmdk_rs.Buffered.Feeds.{Feeds, left, buffered, read_until_lem, read_to_end_lem}
use vmdk_rs.Text.{Text, text_eq, trim_end}
use vmdk_rs.Text.Utf8.{IsAscii, from_utf8-ascii}
use vmdk_rs.Errors.{OpenErrorKind}
use vmdk_rs.Descriptor.{
  read_line, read_to_string, match_line, read_descriptor_loop, read_descriptor_file,
}
use vmdk_rs.Descriptor.Lines.{
  split_lines, classify, split_lines-upto, Ascii_of-tabulate, upto-IsAscii, length-upto, upto-drop,
}

module _ (cache : Cache) (idx : ℕ) (byte : ℕ → ℕ) (size : ℕ) (serves : Serves cache idx byte size)
    (ascii : (i : ℕ) → i < size → byte i < 128) where
  abbrev here : ℕ → CacheReadSeek
  here = at cache idx byte size serves

  abbrev fill : CacheReadSeek → Outcome IoError (Bytes × CacheReadSeek)
  fill = read cache buffer_size

  fill-Feeds : Feeds fill here byte size
  fill-Feeds = record {
    feeds =
        λ p h. read_upto cache idx byte size serves p buffer_size h (omega (arith, serves.fits, h));
  }

  -- The reader at `q` with `k` bytes in its buffer, and the bytes that are left.
  abbrev reader : ℕ → ℕ → Bytes × CacheReadSeek
  reader = buffered fill here byte size fill-Feeds

  abbrev rest : ℕ → Bytes
  rest = left fill here byte size fill-Feeds

  abbrev line : ℕ → Bytes
  line q = upto b'\n' (rest q)

  rest-IsAscii : (q : ℕ) → q ≤ size → IsAscii (rest q)
  rest-IsAscii q h = Ascii_of-tabulate byte q (size - q) (λ i l. ascii i (omega arith))

  read_line_lem :
      (steps q k : ℕ)
      → q + k ≤ size
      → size < q + steps
      → (j : ℕ) × (q + length (line q) + j ≤ size)
        × (read_line cache steps (reader q k) ≡ ok (line q, reader (q + length (line q)) j))
  unfolding read_line
  read_line_lem steps q k h w =
      let (j, l, e) = read_until_lem fill here byte size fill-Feeds steps b'\n' q k h w in
      let v =
        from_utf8-ascii (line q) (upto-IsAscii b'\n' (rest q) (rest-IsAscii q (omega arith))) in
      (j, l, rw e (rw v refl))

  read_to_string_lem :
      (steps q k : ℕ) (desc : Text)
      → q + k ≤ size
      → size < q + steps
      → read_to_string cache steps desc (reader q k) ≡ ok (desc ++ rest q)
  unfolding read_to_string
  read_to_string_lem steps q k desc h w =
      let e = read_to_end_lem fill here byte size fill-Feeds steps q k h w in
      let v = from_utf8-ascii (rest q) (rest-IsAscii q (omega arith)) in rw e (rw v refl)

  rest-line :
      (q : ℕ)
      → q ≤ size
      → (q + length (line q) ≤ size) × (line q ++ rest (q + length (line q)) ≡ rest q)
  rest-line q h =
      let n = length (line q) in
      let l : n ≤ size - q =
        rw (length-tabulate byte q (size - q)) at (length-upto b'\n' (rest q)) in
      let e : size - q - n ≡ size - (q + n) = omega arith in
      (omega arith, rw (drop-tabulate byte q (size - q) n l, e) at (upto-drop b'\n' (rest q)))

  rest-drop : (q : ℕ) → q ≤ size → drop (length (line q)) (rest q) ≡ rest (q + length (line q))
  rest-drop q h =
      let n = length (line q) in
      let (l, _) = rest-line q h in
      let e : size - q - n ≡ size - (q + n) = omega arith in
      drop-tabulate byte q (size - q) n (omega arith) ∙ rw e refl

  split_lines-rest :
      (q : ℕ)
      → q < size
      → (0 < length (line q))
        × (split_lines (rest q) ≡ line q ∷ split_lines (rest (q + length (line q))))
  split_lines-rest q h =
      let (l, s) = split_lines-upto (rest q) (omega (arith, length-tabulate byte q (size - q))) in
      (l, s ∙ ap (λ t. line q ∷ split_lines t) (rest-drop q (omega arith)))

  match_line_lem :
      (steps : ℕ) (l : Text) (ls : List Text) (desc whole : Text) (r : Bytes × CacheReadSeek)
      (again : Outcome OpenErrorKind Text)
      → read_to_string cache steps desc r ≡ ok whole
      → again ≡ classify whole ls
      → match_line cache steps (trim_end l) desc r again ≡ classify whole (l ∷ ls)
  unfolding match_line classify
  match_line_lem steps l ls desc whole r again e f = rw (e, f) refl

  loop_step :
      (steps fuel : ℕ) (desc l : Text) (r r' : Bytes × CacheReadSeek)
      → read_line cache steps r ≡ ok (l, r')
      → read_descriptor_loop cache steps (suc fuel) desc r
        ≡ match_line cache steps
            (trim_end l)
            (desc ++ l)
            r'
            (read_descriptor_loop cache steps fuel (desc ++ l) r')
  unfolding read_descriptor_loop
  loop_step steps fuel desc l r r' e = rw e refl

  match_line-blank :
      (steps : ℕ) (desc : Text) (r : Bytes × CacheReadSeek) (again : Outcome OpenErrorKind Text)
      → match_line cache steps (trim_end []) desc r again ≡ again
  unfolding match_line trim_end text_eq
  match_line-blank steps desc r again = refl

  rest_end : rest size ≡ []
  rest_end = let e : size - size ≡ 0 = omega arith in rw e refl

  read_line_end :
      (steps : ℕ) → 0 < steps → read_line cache steps (reader size 0) ≡ ok ([], reader size 0)
  read_line_end steps h =
      let (j, l, e) = read_line_lem steps size 0 (omega arith) (omega arith) in
      let n : line size ≡ [] = rw rest_end refl in
      let z : size + 0 ≡ size = omega arith in
      let i : j ≡ 0 = omega arith in rw z (rw (i, n, z, z) at e)

  -- At the end of the file the loop reads one empty line after another.
  loop_end :
      (steps fuel : ℕ) (desc : Text)
      → 0 < steps
      → read_descriptor_loop cache steps fuel desc (reader size 0) ≡ hang
  unfolding read_descriptor_loop
  loop_end steps zero desc h = refl
  loop_end steps (suc fuel) desc h =
      loop_step steps fuel desc [] (reader size 0) (reader size 0) (read_line_end steps h)
      ∙ match_line-blank steps (desc ++ []) (reader size 0) _
      ∙ loop_end steps fuel (desc ++ []) h

  classify_end : (whole : Text) → classify whole (split_lines (rest size)) ≡ hang
  unfolding classify split_lines
  classify_end whole = rw rest_end refl

  loop_lem :
      (steps fuel q k : ℕ) (desc : Text)
      → q + k ≤ size
      → size < steps
      → size < q + fuel
      → read_descriptor_loop cache steps fuel desc (reader q k)
        ≡ classify (desc ++ rest q) (split_lines (rest q))
  loop_lem steps zero q k desc h w v = absurd (omega arith)
  loop_lem steps (suc fuel) q k desc h w v = elim (dec_lt q size) [
    | yes p ↦
        let (j, l, e) = read_line_lem steps q k h (omega arith) in
        let (m, s) = split_lines-rest q p in
        let (_, t) = rest-line q (omega arith) in
        let n = length (line q) in
        let whole : (desc ++ line q) ++ rest (q + n) ≡ desc ++ rest q =
          append_assoc desc (line q) (rest (q + n)) ∙ ap (λ t. desc ++ t) t in
        let text =
          read_to_string_lem steps (q + n) j (desc ++ line q) l (omega arith)
          ∙ ap (λ t. ok t) whole in
        let ih =
          loop_lem steps fuel (q + n) j (desc ++ line q) l w (omega arith)
          ∙ ap (λ t. classify t (split_lines (rest (q + n)))) whole in
        loop_step steps fuel desc (line q) (reader q k) (reader (q + n) j) e
        ∙ match_line_lem steps (line q) (split_lines (rest (q + n))) (desc ++ line q)
            (desc ++ rest q) (reader (q + n) j)
            (read_descriptor_loop cache steps fuel (desc ++ line q) (reader (q + n) j)) text ih
        ∙ ap (classify (desc ++ rest q)) (sym s)
    | no p ↦
        let i : q ≡ size = omega arith in
        let j : k ≡ 0 = omega arith in
        rw (i, j)
          (loop_end steps (suc fuel) desc (omega arith) ∙ sym (classify_end (desc ++ rest size)))
  ]

  -- Over a file of ASCII bytes that is served: with fuel for more rounds than the file has bytes, what
  -- `read_descriptor_file` returns is decided by the first line of the file that is not blank. Where it
  -- is the marker of a descriptor, the text is the whole file; where it is another line, the descriptor
  -- is not recognized; where there is none, the loop does not end.
  pub read_descriptor_file-classify :
      (fuel : ℕ)
      → size < fuel
      → let file = tabulate byte 0 size in
        read_descriptor_file cache fuel (here 0) ≡ classify file (split_lines file)
  unfolding read_descriptor_file
  read_descriptor_file-classify fuel h =
      let z : size - 0 ≡ size = omega arith in
      rw z at (loop_lem fuel fuel 0 0 [] (omega arith) h (omega arith))
