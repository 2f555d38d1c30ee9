-- ===== src/Storage/Inflate.antt =====
-- `read_and_decompress_grain` of src/storage.rs over a decoder that streams the bytes of the grain.
use vmdk_rs.Base.{
  u64_mod, mul64, ℕ, zero, suc, ◌+◌, ◌-◌, ◌*◌, ◌≤◌, ◌<◌, ◌≡◌, ◌⊎◌, inl, inr, refl, ap, ◌∙◌, sym, [],
  ◌∷◌, ◌++◌, true, false, ◌==◌, le→ltb_false, length, take, drop, replicate, tabulate, length-take,
  length-drop, min, arith,
}
use native.Mathlib.Decide.{dec_le}
use mathlib.Core.List.{append_assoc}
use vmdk_rs.Base.Outcome.{ok, err}
use vmdk_rs.Crates.{ByteOrder, Deflate}
use vmdk_rs.Io.{Bytes, Cache, crazy_grain_index}
use vmdk_rs.Io.Exact.{Serves, at, read_exact_ok}
use vmdk_rs.Storage.{inflate_loop, is_bad_header, read_and_decompress_grain}

-- What the crate flate2 promises of a decoder: `Rest x z` says that `z` is still to come from `x`. A read
-- returns a prefix of it that is not empty, unless the buffer is or nothing is left.
pub record Streams (deflate : Deflate) : Type 1 where
  pub Rest : deflate.Decoder → Bytes → Type 0
  pub reads :
      (x : deflate.Decoder) (z : Bytes) (n : ℕ)
      → Rest x z
      → (k : ℕ) × (k ≤ min n (length z))
        × (min 1 (min n (length z)) ≤ k)
        × (y : deflate.Decoder) × (deflate.read x n ≡ ok (take k z, y))
        × Rest y (drop k z)

-- The first `n` bytes, with zeros where there are fewer.
abbrev pub padded : ℕ → Bytes → Bytes
padded n z = take n z ++ replicate (n - length z) 0

take-nil : (n : ℕ) → take {A = ℕ} n [] ≡ []
take-nil zero = refl
take-nil (suc n) = refl

take-append-take-drop :
    (k n : ℕ) (z : Bytes) → k ≤ n → take k z ++ take (n - k) (drop k z) ≡ take n z
take-append-take-drop zero n z h = let e : n - 0 ≡ n = omega arith in rw e refl
take-append-take-drop (suc k) zero z h = absurd (omega arith)
take-append-take-drop (suc k) (suc n) [] h = take-nil (suc n - suc k)
take-append-take-drop (suc k) (suc n) (b ∷ z) h =
    let e : suc n - suc k ≡ n - k = omega arith in
    rw e (ap (λ t. b ∷ t) (take-append-take-drop k n z (omega arith)))

padded-drop :
    (k n : ℕ) (z : Bytes)
    → k ≤ n
    → k ≤ length z
    → take k z ++ padded (n - k) (drop k z) ≡ padded n z
padded-drop k n z h l =
    let e : n - k - length (drop k z) ≡ n - length z = omega (arith, length-drop k z, h, l) in
    rw e (
      sym (append_assoc (take k z) (take (n - k) (drop k z)) (replicate (n - length z) 0))
      ∙ ap (λ t. t ++ replicate (n - length z) 0) (take-append-take-drop k n z h))

padded_end : (n : ℕ) (z : Bytes) → min n (length z) ≡ 0 → padded n z ≡ replicate n 0
padded_end zero z h = let e : 0 - length z ≡ 0 = omega arith in rw e refl
padded_end (suc n) [] h = let e : suc n - 0 ≡ suc n = omega arith in rw e refl
padded_end (suc n) (b ∷ z) h = absurd (omega (arith, h))

module _ (cache : Cache) (order : ByteOrder) (deflate : Deflate) where
  inflate_stop :
      (fuel gi left : ℕ) (filled : Bytes) (d y : deflate.Decoder)
      → deflate.read d left ≡ ok ([], y)
      → inflate_loop cache order deflate (suc fuel) gi left filled d
        ≡ ok (filled ++ replicate left 0)
  unfolding inflate_loop
  inflate_stop fuel gi left filled d y e = rw e refl

  inflate_round :
      (fuel gi left b : ℕ) (bs filled : Bytes) (d y : deflate.Decoder)
      → deflate.read d left ≡ ok (b ∷ bs, y)
      → (left == 0) ≡ false
      → inflate_loop cache order deflate (suc fuel) gi left filled d
        ≡ inflate_loop cache order deflate fuel gi (left - suc (length bs)) (filled ++ b ∷ bs) y
  unfolding inflate_loop
  inflate_round fuel gi left b bs filled d y e z = rw e (
      ap
        (λ t. elim t [
          | true ↦ err (crazy_grain_index gi)
          | false ↦
              inflate_loop cache order deflate fuel gi (left - suc (length bs)) (filled ++ b ∷ bs) y
        ])
        z)

  -- One round of the loop, by how much of `z` it reads.
  inflate_cases :
      (streams : Streams deflate) (fuel gi left k : ℕ) (filled z : Bytes) (d y : deflate.Decoder)
      → k ≤ min left (length z)
      → min 1 (min left (length z)) ≤ k
      → deflate.read d left ≡ ok (take k z, y)
      → (inflate_loop cache order deflate fuel gi (left - k) (filled ++ take k z) y
            ≡ ok ((filled ++ take k z) ++ padded (left - k) (drop k z))
          ⊎ (k ≡ 0))
      → inflate_loop cache order deflate (suc fuel) gi left filled d ≡ ok (filled ++ padded left z)
  inflate_cases streams fuel gi left zero filled z d y h m e rest =
      inflate_stop fuel gi left filled d y e
      ∙ ap (λ t. ok (filled ++ t)) (sym (padded_end left z (omega (arith, m))))
  inflate_cases streams fuel gi left (suc k) filled [] d y h m e rest = absurd (omega (arith, h))
  inflate_cases streams fuel gi left (suc k) filled (b ∷ z) d y h m e (inr c) =
      absurd (omega (arith, c))
  inflate_cases streams fuel gi left (suc k) filled (b ∷ z) d y h m e (inl r) =
      let n : suc (length (take k z)) ≡ suc k = omega (arith, length-take k z, h) in
      let q : (left == 0) ≡ false = ground (arith, h) in
      inflate_round fuel gi left b (take k z) filled d y e q
      ∙ ap (λ i. inflate_loop cache order deflate fuel gi (left - i) (filled ++ b ∷ take k z) y) n
      ∙ r
      ∙ ap (λ t. ok t)
          (append_assoc filled (b ∷ take k z) (padded (left - suc k) (drop k z))
            ∙ ap (λ t. filled ++ t)
                (padded-drop (suc k) left (b ∷ z) (omega (arith, h)) (omega (arith, h))))

  -- The loop ends with the bytes that were to come, cut or filled up to the length of the buffer.
  inflate_loop_lem :
      (streams : Streams deflate) (fuel gi left : ℕ) (filled z : Bytes) (d : deflate.Decoder)
      → left < fuel
      → streams.Rest d z
      → inflate_loop cache order deflate fuel gi left filled d ≡ ok (filled ++ padded left z)
  inflate_loop_lem streams zero gi left filled z d h r = absurd (omega arith)
  inflate_loop_lem streams (suc fuel) gi left filled z d h r =
      let (k, a, b, y, e, s) = streams.reads d z left r in
      inflate_cases streams fuel gi left k filled z d y a b e (elim (dec_le 1 k) [
        | yes p ↦ inl (
            inflate_loop_lem streams fuel gi (left - k) (filled ++ take k z) (drop k z) y
              (omega arith) s)
        | no p ↦ inr (omega arith)
      ])

  -- For a decoder that streams, over a file that is served: where the 12 bytes at `p` give a size of the
  -- compressed data of at most twice the grain, the next two bytes are those of a zlib header and the file
  -- goes on for that size, a compressed grain is what the decoder has to come from the data behind the
  -- header, cut at the grain size or filled with zeros up to it.
  pub read_and_decompress_grain-padded :
      (streams : Streams deflate) (idx : ℕ) (byte : ℕ → ℕ) (size p gi gs ds : ℕ) (z : Bytes)
      (serves : Serves cache idx byte size)
      → order.u32_le (tabulate byte (p + 8) 4) ≡ ds
      → ds ≤ 2 * gs
      → 2 * gs < u64_mod
      → is_bad_header (order.u16_be (tabulate byte (p + 12) 2)) ≡ false
      → p + 14 + ds ≤ size
      → streams.Rest (deflate.new (tabulate byte (p + 14) ds)) z
      → read_and_decompress_grain cache order deflate (at cache idx byte size serves p) gi gs
        ≡ ok (padded gs z)
  unfolding read_and_decompress_grain
  read_and_decompress_grain-padded streams idx byte size p gi gs ds z serves e h w b l r =
      let r1 = read_exact_ok cache idx byte size serves p 8 (omega arith) in
      let r2 = read_exact_ok cache idx byte size serves (p + 8) 4 (omega arith) in
      let z2 : p + 8 + 4 ≡ p + 12 = omega arith in
      let r3 = read_exact_ok cache idx byte size serves (p + 12) 2 (omega arith) in
      let z3 : p + 12 + 2 ≡ p + 14 = omega arith in
      let r4 = read_exact_ok cache idx byte size serves (p + 14) ds l in
      let m : mul64 2 gs ≡ 2 * gs = omega (arith, w) in
      let i =
        inflate_loop_lem streams (suc gs) gi gs [] z (deflate.new (tabulate byte (p + 14) ds))
          (omega arith) r in
      rw (r1, r2, z2, e, m, le→ltb_false (2 * gs) ds h) (rw (r3, b, z3, r4) i)
