-- ===== src/Reader/Backs.antt =====
-- Which extents of src/storage.rs serve the spans of src/vmdk_reader.rs, and with which bytes.
use vmdk_rs.Base.{
  u64_mod, ℕ, zero, suc, ◌+◌, ◌-◌, ◌*◌, ◌/◌, ◌%◌, ◌≤◌, ◌<◌, ◌≡◌, refl, ap, ◌∙◌, sym, ◌∷◌, Option,
  none, some, Bool, false, ◌&&◌, ◌==◌, if◌then◌else◌, replicate, tabulate, tabulate_shift, min,
  arith, Bool-cases, inl, inr,
}
use native.Mathlib.Nat.{add-mul-div_left, div-eq_of_lt, mod-add-div, mod-lt}
use vmdk_rs.Base.Outcome.{ok, map_err}
use vmdk_rs.Crates.{ByteOrder, Deflate}
use vmdk_rs.Io.{Cache}
use vmdk_rs.Io.Exact.{Serves}
use vmdk_rs.Storage.{
  sector_size, get, SparseStorage, FlatStorage, sparse, flat, zeroed, io_error, read_grain,
  read_zero, read_storage,
}
use vmdk_rs.Storage.Serve.{read_flat_lem, read_grain_zero, read_grain_plain, read_sparse_lem}
use vmdk_rs.Reader.ReadAt.{ServesSpan}

-- Within one grain, the grain stays and the place in it moves on.
div_within : (off j gs : ℕ) → 0 < gs → off % gs + j < gs → (off + j) / gs ≡ off / gs
div_within off j gs p h =
    let split : off + j ≡ off % gs + j + gs * (off / gs) = omega (arith, mod-add-div off gs) in
    rw split (
      add-mul-div_left (off % gs + j) (off / gs) p
      ∙ ap (λ z. z + off / gs) (div-eq_of_lt h)
      ∙ omega arith)

mod_within : (off j gs : ℕ) → 0 < gs → off % gs + j < gs → (off + j) % gs ≡ off % gs + j
mod_within off j gs p h =
    let e = ap (λ z. (off + j) % gs + gs * z) (div_within off j gs p h) in
    omega (arith, mod-add-div off gs, mod-add-div (off + j) gs, e)

replicate-tabulate : (off n : ℕ) → replicate {A = ℕ} n 0 ≡ tabulate (λ x. 0) off n
replicate-tabulate off zero = refl
replicate-tabulate off (suc n) = ap (λ xs. 0 ∷ xs) (replicate-tabulate (suc off) n)

-- The byte of the image at offset `x`, from the grain table and the bytes of the file.
abbrev pub grain_byte : Bool → (ℕ → ℕ) → ℕ → Option ℕ → ℕ
grain_byte zeroes byte within none = 0
grain_byte zeroes byte within (some sector) =
    if zeroes && sector == 1 then 0 else byte (sector * sector_size + within)

abbrev pub sparse_byte : SparseStorage → (ℕ → ℕ) → ℕ → ℕ
sparse_byte s byte x =
    let gs = s.grain_size * sector_size in
    grain_byte s.zeroed_grain_table_entry byte (x % gs) (get s.grain_table (x / gs))

-- In one grain, `sparse_byte` is one entry's.
sparse_byte-within :
    (s : SparseStorage) (byte : ℕ → ℕ) (off j : ℕ)
    → let gs = s.grain_size * sector_size in
      0 < gs
      → off % gs + j < gs
      → sparse_byte s byte (off + j)
        ≡ grain_byte s.zeroed_grain_table_entry byte (off % gs + j) (get s.grain_table (off / gs))
sparse_byte-within s byte off j p h =
    let gs : ℕ = s.grain_size * sector_size in
    rw (div_within off j gs p h, mod_within off j gs p h) refl

module _ (cache : Cache) (order : ByteOrder) (deflate : Deflate) where
  -- The bytes that `read_grain` reads of a grain that is not compressed.
  read_grain_bytes :
      (s : SparseStorage) (byte : ℕ → ℕ) (size index gs sector within r : ℕ)
      → Serves cache s.file byte size
      → s.has_compressed_grain ≡ false
      → sector * sector_size + within + r ≤ size
      → read_grain cache order deflate s index gs sector within r
        ≡ ok (
            tabulate
              (λ j. grain_byte s.zeroed_grain_table_entry byte (within + j) (some sector))
              0
              r)
  read_grain_bytes s byte size index gs sector within r serves c h =
      elim (Bool-cases (s.zeroed_grain_table_entry && sector == 1)) [
        | inl e ↦ rw e (
            read_grain_zero cache order deflate s index gs sector within r e
            ∙ ap ok (replicate-tabulate 0 r))
        | inr e ↦ rw e (
            read_grain_plain cache order deflate byte size s index gs sector within r serves e c h
            ∙ ap ok (
                tabulate_shift byte (λ j. byte (sector * sector_size + (within + j)))
                  (sector * sector_size + within) 0 r (λ j q. ap byte (omega arith))))
      ]

  -- A sparse extent without compression, with a positive grain size in bytes that is a `u64`, over a
  -- file that is served and holds the whole grain that the table gives for `off`: a read of `n` bytes at
  -- `off` returns the bytes of the extent from `off` on, as many as fit in the grain. They are zeros
  -- where the grain is marked as zeroed, and else the bytes at the grain's sector.
  pub read_storage-sparse :
      (s : SparseStorage) (byte : ℕ → ℕ) (size off n sector : ℕ)
      → let gs = s.grain_size * sector_size in
        Serves cache s.file byte size
        → 0 < gs
        → gs < u64_mod
        → s.has_compressed_grain ≡ false
        → get s.grain_table (off / gs) ≡ some sector
        → sector * sector_size + gs ≤ size
        → read_storage cache order deflate (sparse s) off n
          ≡ ok (tabulate (sparse_byte s byte) off (min (gs - off % gs) n))
  unfolding read_storage
  read_storage-sparse s byte size off n sector serves p q c g fits =
      let gs : ℕ = s.grain_size * sector_size in
      let m = mod-lt off p in
      let k : ℕ = min (gs - off % gs) n in
      read_sparse_lem cache order deflate s off n sector p q g
      ∙ ap (map_err io_error)
          (read_grain_bytes s byte size (off / gs) gs sector (off % gs) k serves c (omega arith))
      ∙ ap ok (
          tabulate_shift
            (λ j. grain_byte s.zeroed_grain_table_entry byte (off % gs + j) (some sector))
            (sparse_byte s byte) 0 off k
            (λ j l.
              let z : 0 + j ≡ j = omega arith in
              rw z (
                sym (
                  sparse_byte-within s byte off j p (omega arith)
                  ∙ ap (grain_byte s.zeroed_grain_table_entry byte (off % gs + j)) g))))

  -- A sparse extent serves every span whose grains the table has and the file holds.
  pub sparse-Serves :
      (s : SparseStorage) (byte : ℕ → ℕ) (size beg end : ℕ)
      → let gs = s.grain_size * sector_size in
        Serves cache s.file byte size
        → 0 < gs
        → gs < u64_mod
        → s.has_compressed_grain ≡ false
        → ((x : ℕ)
            → beg ≤ x
            → x < end
            → (sector : ℕ) × (get s.grain_table (x / gs) ≡ some sector)
              × (sector * sector_size + gs ≤ size))
        → ServesSpan cache order deflate (sparse_byte s byte) beg end (sparse s)
  sparse-Serves s byte size beg end serves p q c tab = record {
    serve = λ off n h1 h2 h3.
        let gs : ℕ = s.grain_size * sector_size in
        let (sector, g, fits) = tab off h1 (omega arith) in
        let m = mod-lt off p in
        (
          min (gs - off % gs) n,
          omega arith,
          omega arith,
          read_storage-sparse s byte size off n sector serves p q c g fits,
        );
  }

  -- A flat extent over a file that is served, where `off` is a `u64` at or behind the extent's offset
  -- and the file holds the `n` bytes, counted from that offset: a read returns the bytes of the file at
  -- the offset of the image less that of the extent.
  pub read_storage-flat :
      (s : FlatStorage) (byte : ℕ → ℕ) (size off n : ℕ)
      → Serves cache s.file byte size
      → s.offset * sector_size ≤ off
      → off < u64_mod
      → off + n ≤ s.offset * sector_size + size
      → read_storage cache order deflate (flat s) off n
        ≡ ok (tabulate (λ x. byte (x - s.offset * sector_size)) off n)
  unfolding read_storage
  read_storage-flat s byte size off n serves h w l =
      read_flat_lem cache order deflate byte size s off n serves h w (omega arith)
      ∙ ap ok (
          tabulate_shift byte (λ x. byte (x - s.offset * sector_size))
            (off - s.offset * sector_size) off n (λ j q. ap byte (omega arith)))

  -- A flat extent serves the spans that lie within its file.
  pub flat-Serves :
      (s : FlatStorage) (byte : ℕ → ℕ) (size beg end : ℕ)
      → Serves cache s.file byte size
      → s.offset * sector_size ≤ beg
      → end < u64_mod
      → end ≤ s.offset * sector_size + size
      → ServesSpan cache order deflate (λ x. byte (x - s.offset * sector_size)) beg end (flat s)
  flat-Serves s byte size beg end serves h w l = record {
    serve = λ off n h1 h2 h3. (
      n,
      h3,
      omega arith,
      read_storage-flat s byte size off n serves (omega arith) (omega arith) (omega arith),
    );
  }

  -- The extent that fills what no image covers serves zeros.
  pub zeroed-Serves : (beg end : ℕ) → ServesSpan cache order deflate (λ x. 0) beg end zeroed
  unfolding read_storage read_zero
  zeroed-Serves beg end = record {
    serve = λ off n h1 h2 h3. (n, h3, omega arith, ap ok (replicate-tabulate off n));
  }
