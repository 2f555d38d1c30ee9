-- ===== src/Grains/Contents.antt =====
-- What `read_grain_table_sparse` of src/extents.rs makes of the bytes of a file.
use vmdk_rs.Base.{
  u64_mod, add64, mul64, ℕ, zero, suc, ◌+◌, ◌*◌, ◌≤◌, ◌<◌, ◌≡◌, ◌⊎◌, refl, ap, ◌∙◌, List, [], ◌∷◌,
  none, false, true, ◌==◌, if◌then◌else◌, length, arith, Bool-cases, inl, inr,
}
use native.Mathlib.Nat.{suc-mul}
use vmdk_rs.Base.Outcome.{ok}
use vmdk_rs.Crates.{ByteOrder}
use vmdk_rs.Io.{Cache, CacheReadSeek}
use vmdk_rs.Io.Exact.{Serves, at, read_exact_ok, seek_ok}
use vmdk_rs.Storage.{sector_size, GrainTable, get}
use vmdk_rs.Metadata.{VmdkSparseMeta}
use vmdk_rs.Header.{read_word, read_u32}
use vmdk_rs.Grains.{
  extend, allocated, table_len, read_entries, sparse_loop, read_grain_table_sparse,
}
use vmdk_rs.Grains.Entries.{
  word, words, offsets, entry, tables, length-offsets, get_elem?-offsets, tables-get,
}
use vmdk_rs.Grains.Table.{entry_or}

-- Each table that there is lies in the file.
abbrev pub InFile : ℕ → ℕ → List ℕ → Type 0
InFile size n [] = Unit
InFile size n (o ∷ l1) = ((o ≡ 0) ⊎ (o + 4 * n ≤ size)) × InFile size n l1

module _ (cache : Cache) (order : ByteOrder) (idx : ℕ) (byte : ℕ → ℕ) (size : ℕ)
    (serves : Serves cache idx byte size) where
  abbrev here : ℕ → CacheReadSeek
  here p = at cache idx byte size serves p

  read_u32_lem :
      (p : ℕ) → p + 4 ≤ size → read_u32 cache order (here p) ≡ ok (word order byte p, here (p + 4))
  unfolding read_word
  read_u32_lem p h = rw (read_exact_ok cache idx byte size serves p 4 h) refl

  read_entries-words :
      (p n : ℕ)
      → p + 4 * n ≤ size
      → read_entries cache order n (read_u32 cache order) (here p)
        ≡ ok (words order byte p n, here (p + 4 * n))
  unfolding read_entries
  read_entries-words p zero h = let e : p + 4 * 0 ≡ p = omega arith in rw e refl
  read_entries-words p (suc n) h =
      let e : p + 4 + 4 * n ≡ p + 4 * suc n = omega arith in
      rw (read_u32_lem p (omega arith)) (rw (rw e at (read_entries-words (p + 4) n (omega arith))))

  sparse_loop-step :
      (h : VmdkSparseMeta) (start cur p o : ℕ) (l1 : List ℕ) (t : GrainTable)
      → (cur == add64 start h.sectors) ≡ false
      → table_len h.l2_len h.sectors start cur ≡ h.l2_len
      → add64 cur h.l2_len ≡ cur + h.l2_len
      → (o ≡ 0) ⊎ (o + 4 * h.l2_len ≤ size)
      → (q : ℕ) × (sparse_loop cache order h start cur (o ∷ l1) t (here p)
          ≡ sparse_loop cache order h start
              (cur + h.l2_len)
              l1
              (if o == 0 then t else extend t (allocated cur 0 (words order byte o h.l2_len)))
              (here q))
  unfolding sparse_loop
  sparse_loop-step h start cur p o l1 t more len next (inl z) =
      let e : (o == 0) ≡ true = ground (arith, z) in
      (p, rw (more, sparse_loop) (rw e (rw len (rw next refl))))
  sparse_loop-step h start cur p o l1 t more len next (inr f) = elim (Bool-cases (o == 0)) [
    | inl e ↦ (p, rw (more, sparse_loop) (rw e (rw len (rw next refl))))
    | inr e ↦ (
      o + 4 * h.l2_len,
      rw (more, sparse_loop)
          (rw e (
            rw (seek_ok cache idx byte size serves p o (omega arith))
              (rw len (rw (read_entries-words o h.l2_len f) (rw next refl))))),
    )
  ]

  sparse_loop-tables :
      (h : VmdkSparseMeta) (start cur p : ℕ) (l1 : List ℕ) (t : GrainTable)
      → 0 < h.l2_len
      → start ≤ cur
      → cur + length l1 * h.l2_len ≤ start + h.sectors
      → start + h.sectors < u64_mod
      → InFile size h.l2_len l1
      → sparse_loop cache order h start cur l1 t (here p) ≡ ok (tables order byte h.l2_len cur l1 t)
  unfolding sparse_loop
  sparse_loop-tables h start cur p [] t pos low high all file = refl
  sparse_loop-tables h start cur p (o ∷ l1) t pos low high all file =
      let m = suc-mul (length l1) h.l2_len in
      let b : cur + h.l2_len + length l1 * h.l2_len ≤ start + h.sectors = omega (arith, m) in
      let more : (cur == add64 start h.sectors) ≡ false = ground (arith, m) in
      let len : table_len h.l2_len h.sectors start cur ≡ h.l2_len = ground (arith, b) in
      let next : add64 cur h.l2_len ≡ cur + h.l2_len = omega (arith, b) in
      let s = sparse_loop-step h start cur p o l1 t more len next file.0 in
      s.1 ∙ sparse_loop-tables h start (cur + h.l2_len) s.0 l1 _ pos (omega arith) b all file.1

  -- When the directory and its tables lie in the file and the tables have an entry for no more than
  -- the sectors of the extent, the grain table is read, and for grain `i` of table `j`, under the
  -- number of the first sector plus that of the grain, it has the entry of the file, or none where
  -- that or the table is 0.
  pub read_grain_table_sparse-get :
      (h : VmdkSparseMeta) (start p j i : ℕ)
      → h.l1_offset + 4 * h.l1_len ≤ size
      → InFile size h.l2_len (offsets order byte h.l1_offset h.l1_len)
      → h.l1_len * h.l2_len ≤ h.sectors
      → start + h.sectors < u64_mod
      → j < h.l1_len
      → i < h.l2_len
      → (t : GrainTable) × (read_grain_table_sparse cache order h start (here p) ≡ ok t)
        × (get t (start + (j * h.l2_len + i))
            ≡ entry_or
                (entry order byte (mul64 (word order byte (h.l1_offset + 4 * j)) sector_size) i)
                none)
  unfolding read_grain_table_sparse get
  read_grain_table_sparse-get h start p j i dir file all small l r =
      let l1 = offsets order byte h.l1_offset h.l1_len in
      let len = length-offsets order byte h.l1_offset h.l1_len in
      let m : length l1 * h.l2_len ≡ h.l1_len * h.l2_len = ap (λ n. n * h.l2_len) len in
      let low : start ≤ start = omega arith in
      let high : start + length l1 * h.l2_len ≤ start + h.sectors = omega (arith, m) in
      let pos : 0 < h.l2_len = omega arith in
      let e =
        sparse_loop-tables h start start (h.l1_offset + 4 * h.l1_len) l1 [] pos low high small
          file in
      (
        tables order byte h.l2_len start l1 [],
        rw (seek_ok cache idx byte size serves p h.l1_offset (omega arith))
            (rw (read_entries-words h.l1_offset h.l1_len dir) e),
        tables-get order byte h.l2_len start l1 [] j i
            (mul64 (word order byte (h.l1_offset + 4 * j)) sector_size) (omega (arith, high))
            (get_elem?-offsets order byte h.l1_offset h.l1_len j l) r,
      )
