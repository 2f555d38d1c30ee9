-- ===== src/Header/Parse.antt =====
-- The readers of src/header.rs: which bytes of the source each header takes.
use vmdk_rs.Base.{
  ℕ, ◌+◌, ◌≤◌, ◌<◌, ◌≡◌, refl, if◌then◌else◌, leb, le→leb, lt→leb_false, tabulate, arith,
}
use native.Mathlib.Decide.{dec_le}
use vmdk_rs.Base.Outcome.{Outcome, ok, err, ◌>>=◌}
use vmdk_rs.Crates.{ByteOrder}
use vmdk_rs.Io.{Bytes, IoError, unexpected_eof, Cache, CacheReadSeek, read_exact}
use vmdk_rs.Io.Exact.{Serves, max_size, at, read_exact_lem}
use vmdk_rs.Header.{read_word, vmdk3_from_reader, vmdk4_from_reader, se_sparse_from_reader}
use vmdk_rs.Header.Layout.{vmdk3_at, vmdk4_at, se_sparse_at}

module _ (cache : Cache) (order : ByteOrder) (idx : ℕ) (byte : ℕ → ℕ) (size : ℕ)
    (serves : Serves cache idx byte size) where
  -- `Io.Exact.at` of this source.
  abbrev pub here : ℕ → CacheReadSeek
  here p = at cache idx byte size serves p

  -- From byte `p + o` to `p + e`, `g` reads `v`; a source that ends before is an `UnexpectedEof`.
  abbrev Parses :
      {A : Type 0} → ℕ → ℕ → ℕ → A → (CacheReadSeek → Outcome IoError (A × CacheReadSeek)) → Type 0
  Parses p o e v g =
      p + o ≤ size
      → e < max_size
      → g (here (p + o)) ≡ (if leb (p + e) size then ok (v, here (p + e)) else err unexpected_eof)

  Parses-bytes : (p o n : ℕ) → Parses p o (o + n) (tabulate byte (p + o) n) (read_exact cache n)
  Parses-bytes p o n h l =
      let e : p + o + n ≡ p + (o + n) = omega arith in
      rw e at
        (read_exact_lem cache idx byte size serves (p + o) n h (omega (arith, serves.fits, h, l)))

  Parses-front : (p n : ℕ) → Parses p 0 n (tabulate byte p n) (read_exact cache n)
  Parses-front p n h l =
      let e : p + 0 ≡ p = omega arith in
      rw e (
        read_exact_lem cache idx byte size serves p n (omega arith)
          (omega (arith, serves.fits, h, l)))

  Parses-word :
      (value : Bytes → ℕ) (p o n : ℕ)
      → Parses p o (o + n) (value (tabulate byte (p + o) n)) (read_word cache order n value)
  unfolding read_word
  Parses-word value p o n h l = elim (dec_le (p + (o + n)) size) [
    | yes q ↦
        rw (le→leb (p + (o + n)) size q)
          (rw (rw (le→leb (p + (o + n)) size q) at (Parses-bytes p o n h l)))
    | no q ↦
        rw (lt→leb_false (p + (o + n)) size (omega arith))
          (rw (rw (lt→leb_false (p + (o + n)) size (omega arith)) at (Parses-bytes p o n h l)))
  ]

  -- Two reads, one behind the other.
  Parses-bind :
      {A B : Type 0} (p o m e : ℕ) (v : A) (w : B)
      (g : CacheReadSeek → Outcome IoError (A × CacheReadSeek))
      (k : A → CacheReadSeek → Outcome IoError (B × CacheReadSeek))
      → m ≤ e
      → Parses p o m v g
      → Parses p m e w (k v)
      → Parses p o e w (λ r. g r >>= λ x. k x.0 x.1)
  Parses-bind p o m e v w g k l f c h b = elim (dec_le (p + m) size) [
    | yes q ↦ rw (rw (le→leb (p + m) size q) at (f h (omega (arith, l, b)))) (c q b)
    | no q ↦
        rw (lt→leb_false (p + e) size (omega arith))
          (rw (rw (lt→leb_false (p + m) size (omega arith)) at (f h (omega (arith, l, b)))))
  ]

  Parses-pure : {A : Type 0} (p o : ℕ) (v : A) → Parses p o o v (λ r. ok (v, r))
  Parses-pure p o v h b = rw (le→leb (p + o) size h) refl

  then_bytes :
      {B : Type 0} (p o n e : ℕ) (w : B)
      (k : Bytes → CacheReadSeek → Outcome IoError (B × CacheReadSeek))
      → o + n ≤ e
      → Parses p (o + n) e w (k (tabulate byte (p + o) n))
      → Parses p o e w (λ r. read_exact cache n r >>= λ x. k x.0 x.1)
  then_bytes p o n e w k l c =
      Parses-bind p o (o + n) e _ w (read_exact cache n) k l (Parses-bytes p o n) c

  then_front :
      {B : Type 0} (p n e : ℕ) (w : B)
      (k : Bytes → CacheReadSeek → Outcome IoError (B × CacheReadSeek))
      → n ≤ e
      → Parses p n e w (k (tabulate byte p n))
      → Parses p 0 e w (λ r. read_exact cache n r >>= λ x. k x.0 x.1)
  then_front p n e w k l c = Parses-bind p 0 n e _ w (read_exact cache n) k l (Parses-front p n) c

  then_word :
      {B : Type 0} (value : Bytes → ℕ) (p o n e : ℕ) (w : B)
      (k : ℕ → CacheReadSeek → Outcome IoError (B × CacheReadSeek))
      → o + n ≤ e
      → Parses p (o + n) e w (k (value (tabulate byte (p + o) n)))
      → Parses p o e w (λ r. read_word cache order n value r >>= λ x. k x.0 x.1)
  then_word value p o n e w k l c =
      Parses-bind p o (o + n) e _ w (read_word cache order n value) k l (Parses-word value p o n) c

  -- What is parsed from the front of the header on.
  from_front :
      {A : Type 0} (p e : ℕ) (v : A) (g : CacheReadSeek → Outcome IoError (A × CacheReadSeek))
      → p ≤ size
      → e < max_size
      → Parses p 0 e v g
      → g (here p) ≡ (if leb (p + e) size then ok (v, here (p + e)) else err unexpected_eof)
  from_front p e v g h b r =
      let h0 : p + 0 ≤ size = omega arith in let z : p + 0 ≡ p = omega arith in rw z at (r h0 b)

  -- Over a source that is served, from a position up to its end, `Vmdk3Header::from_reader` reads 44 bytes, each field from its place, and moves past them; a source
  -- with fewer bytes left is an `UnexpectedEof`.
  pub vmdk3_from_reader_lem :
      (p : ℕ)
      → p ≤ size
      → vmdk3_from_reader cache order (here p) ≡ (
          if leb (p + 44) size
          then ok (vmdk3_at order byte p, here (p + 44))
          else err unexpected_eof)
  unfolding vmdk3_from_reader
  vmdk3_from_reader_lem p h =
      from_front p 44 (vmdk3_at order byte p) (vmdk3_from_reader cache order) h (omega arith) (
        then_front p 4 44 _ _ (omega arith) (
          then_word order.u32_le p 4 4 44 _ _ (omega arith) (
            then_word order.u32_le p 8 4 44 _ _ (omega arith) (
              then_word order.u32_le p 12 4 44 _ _ (omega arith) (
                then_word order.u32_le p 16 4 44 _ _ (omega arith) (
                  then_word order.u32_le p 20 4 44 _ _ (omega arith) (
                    then_word order.u32_le p 24 4 44 _ _ (omega arith) (
                      then_word order.u32_le p 28 4 44 _ _ (omega arith) (
                        then_word order.u32_le p 32 4 44 _ _ (omega arith) (
                          then_word order.u32_le p 36 4 44 _ _ (omega arith) (
                            then_word order.u32_le p 40 4 44 _ _ (omega arith)
                              (Parses-pure p 44 _))))))))))))

  -- Over a source that is served, from a position up to its end, `Vmdk4Header::from_reader` reads 79 bytes, each field from its place, and moves past them; a source
  -- with fewer bytes left is an `UnexpectedEof`.
  pub vmdk4_from_reader_lem :
      (p : ℕ)
      → p ≤ size
      → vmdk4_from_reader cache order (here p) ≡ (
          if leb (p + 79) size
          then ok (vmdk4_at order byte p, here (p + 79))
          else err unexpected_eof)
  unfolding vmdk4_from_reader
  vmdk4_from_reader_lem p h =
      from_front p 79 (vmdk4_at order byte p) (vmdk4_from_reader cache order) h (omega arith) (
        then_front p 4 79 _ _ (omega arith) (
          then_word order.u32_le p 4 4 79 _ _ (omega arith) (
            then_word order.u32_le p 8 4 79 _ _ (omega arith) (
              then_word order.u64_le p 12 8 79 _ _ (omega arith) (
                then_word order.u64_le p 20 8 79 _ _ (omega arith) (
                  then_word order.u64_le p 28 8 79 _ _ (omega arith) (
                    then_word order.u64_le p 36 8 79 _ _ (omega arith) (
                      then_word order.u32_le p 44 4 79 _ _ (omega arith) (
                        then_word order.u64_le p 48 8 79 _ _ (omega arith) (
                          then_word order.u64_le p 56 8 79 _ _ (omega arith) (
                            then_word order.u64_le p 64 8 79 _ _ (omega arith) (
                              then_word order.u8 p 72 1 79 _ _ (omega arith) (
                                then_bytes p 73 4 79 _ _ (omega arith) (
                                  then_word order.u16_le p 77 2 79 _ _ (omega arith)
                                    (Parses-pure p 79 _)))))))))))))))

  -- Over a source that is served, from a position up to its end, `VmdkSeSparseConstHeader::from_reader` reads 208 bytes, each field from its place, and moves past
  -- them; a source with fewer bytes left is an `UnexpectedEof`.
  pub se_sparse_from_reader_lem :
      (p : ℕ)
      → p ≤ size
      → se_sparse_from_reader cache order (here p) ≡ (
          if leb (p + 208) size
          then ok (se_sparse_at order byte p, here (p + 208))
          else err unexpected_eof)
  unfolding se_sparse_from_reader
  se_sparse_from_reader_lem p h =
      from_front p 208 (se_sparse_at order byte p) (se_sparse_from_reader cache order) h
        (omega arith)
        (then_front p 8 208 _ _ (omega arith) (
          then_word order.u64_le p 8 8 208 _ _ (omega arith) (
            then_word order.u64_le p 16 8 208 _ _ (omega arith) (
              then_word order.u64_le p 24 8 208 _ _ (omega arith) (
                then_word order.u64_le p 32 8 208 _ _ (omega arith) (
                  then_word order.u64_le p 40 8 208 _ _ (omega arith) (
                    then_word order.u64_le p 48 8 208 _ _ (omega arith) (
                      then_word order.u64_le p 56 8 208 _ _ (omega arith) (
                        then_word order.u64_le p 64 8 208 _ _ (omega arith) (
                          then_word order.u64_le p 72 8 208 _ _ (omega arith) (
                            then_word order.u64_le p 80 8 208 _ _ (omega arith) (
                              then_word order.u64_le p 88 8 208 _ _ (omega arith) (
                                then_word order.u64_le p 96 8 208 _ _ (omega arith) (
                                  then_word order.u64_le p 104 8 208 _ _ (omega arith) (
                                    then_word order.u64_le p 112 8 208 _ _ (omega arith) (
                                      then_word order.u64_le p 120 8 208 _ _ (omega arith) (
                                        then_word order.u64_le p 128 8 208 _ _ (omega arith) (
                                          then_word order.u64_le p 136 8 208 _ _ (omega arith) (
                                            then_word order.u64_le p 144 8 208 _ _ (omega arith) (
                                              then_word order.u64_le p 152 8 208 _ _ (omega arith) (
                                                then_word order.u64_le p 160 8 208 _ _ (omega arith)
                                                  (then_word order.u64_le p 168 8 208 _ _
                                                    (omega arith)
                                                    (then_word order.u64_le p 176 8 208 _ _
                                                      (omega arith)
                                                      (then_word order.u64_le p 184 8 208 _ _
                                                        (omega arith)
                                                        (then_word order.u64_le p 192 8 208 _ _
                                                          (omega arith)
                                                          (then_word order.u64_le p 200 8 208 _ _
                                                            (omega arith)
                                                            (Parses-pure p 208
                                                            _)))))))))))))))))))))))))))
