-- ===== src/Hash/Whole.antt =====
-- The digest of `do_hash` in src/main.rs is that of the whole image.
use vmdk_rs.Base.{
  u64_mod, add64, ℕ, zero, suc, ◌+◌, ◌-◌, ◌≤◌, ◌<◌, ◌≡◌, refl, ap, ◌∙◌, sym, false, ◌++◌, lt→ltb,
  le→ltb_false, ◌==◌, length, length-append, length-drop, length-tabulate, length-replicate, take,
  take-length, drop, tabulate, tabulate-append, min, arith,
}
use native.Mathlib.Decide.{dec_lt}
use vmdk_rs.Base.Outcome.{ok}
use vmdk_rs.Crates.{ByteOrder, Deflate}
use vmdk_rs.Io.{Bytes, Cache}
use vmdk_rs.Reader.{VmdkReader, read_at_offset}
use vmdk_rs.Reader.ReadAt.{Tiles, AllBelow, Backed}
use vmdk_rs.Reader.Locate.{read_at_offset_lem}
use vmdk_rs.Hash.{Hasher, IsDigest, buf_size, new_buf, overwrite, hash_loop, hash_reader}

take-overwrite : (n : ℕ) (xs ys : Bytes) → length xs ≡ n → take n (overwrite ys xs) ≡ xs
take-overwrite n xs ys e = rw (sym e) (take-length xs _)

length-overwrite : (xs ys : Bytes) → length xs ≤ length ys → length (overwrite ys xs) ≡ length ys
length-overwrite xs ys h =
    let a = length-append xs (drop (length xs) ys) in
    let b = length-drop (length xs) ys in omega (arith, a, b)

length-new_buf : (n : ℕ) → length (new_buf n) ≡ n
unfolding new_buf
length-new_buf n = length-replicate n 0

tabulate-from_zero : (f : ℕ → ℕ) (m n : ℕ) → tabulate f 0 m ++ tabulate f m n ≡ tabulate f 0 (m + n)
tabulate-from_zero f m n = let z : 0 + m ≡ m = omega arith in rw z at (tabulate-append f 0 m n)

module _ (cache : Cache) (order : ByteOrder) (deflate : Deflate) (hasher : Hasher)
    (digest : IsDigest hasher) (disk : ℕ → ℕ) (v : VmdkReader)
    (tiles : Tiles 0 v.image_size v.spans) (below : AllBelow u64_mod v.spans)
    (backed : Backed cache order deflate disk v.extents v.spans)
    (fits : v.image_size + buf_size < u64_mod) where
  loop_stop :
      (fuel offset : ℕ) (buf : Bytes) (s : hasher.State)
      → v.image_size ≤ offset
      → hash_loop cache order deflate hasher fuel v offset buf s ≡ ok s
  unfolding hash_loop
  loop_stop zero offset buf s h = rw (le→ltb_false offset v.image_size h)
  loop_stop (suc fuel) offset buf s h = rw (le→ltb_false offset v.image_size h, hash_loop)

  loop_step :
      (fuel offset k : ℕ) (buf bytes : Bytes) (s : hasher.State)
      → offset < v.image_size
      → read_at_offset cache order deflate v offset (length buf) ≡ ok (suc k, bytes)
      → hash_loop cache order deflate hasher (suc fuel) v offset buf s
        ≡ hash_loop cache order deflate hasher fuel v
            (add64 offset (suc k))
            (overwrite buf bytes)
            (hasher.update s (take (suc k) (overwrite buf bytes)))
  unfolding hash_loop
  loop_step fuel offset k buf bytes s h e =
      let z : (suc k == 0) ≡ false = ground arith in
      rw (lt→ltb offset v.image_size h, e) (rw z refl)

  -- A round that reads `k + 1` bytes.
  loop_round :
      (fuel offset k : ℕ) (buf : Bytes) (s : hasher.State)
      → offset < v.image_size
      → length buf ≡ buf_size
      → suc k ≡ min buf_size (v.image_size - offset)
      → hash_loop cache order deflate hasher (suc fuel) v offset buf s
        ≡ hash_loop cache order deflate hasher fuel v
            (offset + suc k)
            (overwrite buf (tabulate disk offset (suc k)))
            (hasher.update s (tabulate disk offset (suc k)))
  unfolding hash_loop
  loop_round fuel offset k buf s h b e =
      let r =
        read_at_offset_lem cache order deflate disk v offset buf_size (omega arith) tiles below
          backed (omega arith) in
      let r' = rw (le→ltb_false v.image_size offset (omega arith), sym e) at r in
      let a : add64 offset (suc k) ≡ offset + suc k = omega (arith, e) in
      let t =
        take-overwrite (suc k) (tabulate disk offset (suc k)) buf
          (length-tabulate disk offset (suc k)) in
      loop_step fuel offset k buf (tabulate disk offset (suc k)) s h (rw (sym b) at r')
      ∙ ap
          (λ o.
            hash_loop cache order deflate hasher fuel v o
              (overwrite buf (tabulate disk offset (suc k)))
              (hasher.update s (take (suc k) (overwrite buf (tabulate disk offset (suc k))))))
          a
      ∙ ap
          (λ t.
            hash_loop cache order deflate hasher fuel v (offset + suc k)
              (overwrite buf (tabulate disk offset (suc k))) (hasher.update s t))
          t

  -- The loop from `offset` on, with the bytes before it hashed.
  hash_loop_lem :
      (fuel offset : ℕ) (buf : Bytes)
      → offset ≤ v.image_size
      → v.image_size ≤ offset + fuel
      → length buf ≡ buf_size
      → hash_loop cache order deflate hasher fuel v offset buf
          (hasher.update hasher.new (tabulate disk 0 offset))
        ≡ ok (hasher.update hasher.new (tabulate disk 0 v.image_size))
  hash_loop_lem zero offset buf h w b =
      let e : offset ≡ v.image_size = omega arith in
      loop_stop zero offset buf _ (omega arith) ∙ rw e refl
  hash_loop_lem (suc fuel) offset buf h w b = elim (dec_lt offset v.image_size) [
    | yes p ↦
        let k = min buf_size (v.image_size - offset) - 1 in
        let e : suc k ≡ min buf_size (v.image_size - offset) = omega arith in
        let bytes = tabulate disk offset (suc k) in
        let n = length-tabulate disk offset (suc k) in
        loop_round fuel offset k buf (hasher.update hasher.new (tabulate disk 0 offset)) p b e
        ∙ ap (hash_loop cache order deflate hasher fuel v (offset + suc k) (overwrite buf bytes)) (
            digest.update-append hasher.new (tabulate disk 0 offset) bytes
            ∙ ap (hasher.update hasher.new) (tabulate-from_zero disk offset (suc k)))
        ∙ hash_loop_lem fuel (offset + suc k) (overwrite buf bytes) (omega arith) (omega arith)
            (length-overwrite bytes buf (omega (arith, n, b, e)) ∙ b)
    | no p ↦
        let e : offset ≡ v.image_size = omega arith in
        loop_stop (suc fuel) offset buf _ (omega arith) ∙ rw e refl
  ]

  -- For a reader whose spans tile its image, end within a `u64` and are each backed by an extent that
  -- serves the bytes of `disk`, where the size of the image and the 1 MiB of the buffer are together a
  -- `u64`, and for a digest that does not depend on how the bytes are cut: the loop ends, and the result
  -- is the digest of the whole image.
  pub hash_reader-whole :
      hash_reader cache order deflate hasher v
      ≡ ok (hasher.finalize (hasher.update hasher.new (tabulate disk 0 v.image_size)))
  unfolding hash_reader
  hash_reader-whole =
      let e =
        hash_loop_lem v.image_size 0 (new_buf buf_size) (omega arith) (omega arith)
          (length-new_buf buf_size) in
      let f = rw (digest.update-nil hasher.new) at e in rw f refl
