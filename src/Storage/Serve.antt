-- ===== src/Storage/Serve.antt =====
-- What `ExtentStorage::read` of src/storage.rs returns, branch by branch.
use vmdk_rs.Base.{
  u64_mod, sub64, mul64, add64, ℕ, ◌+◌, ◌-◌, ◌*◌, ◌/◌, ◌%◌, ◌≤◌, ◌<◌, ◌≡◌, some, true, false, ◌&&◌,
  tabulate, replicate, arith, min, ◌==◌,
}
use vmdk_rs.Base.Outcome.{ok, ◌>>=◌, map_err}
use vmdk_rs.Crates.{ByteOrder, Deflate}
use vmdk_rs.Io.{Cache, from_start, read_exact, seek}
use vmdk_rs.Io.Exact.{Serves, seek_ok, read_exact_ok}
use vmdk_rs.Storage.{
  sector_size, get, SparseStorage, FlatStorage, io_error, handle, read_grain, read_sparse,
  read_flat,
}

module _ (cache : Cache) (order : ByteOrder) (deflate : Deflate) where
  module _ (idx : ℕ) (byte : ℕ → ℕ) (size : ℕ) (serves : Serves cache idx byte size) where
    -- A seek from the start and the read behind it.
    seek_read :
        (p n : ℕ)
        → p + n ≤ size
        → (do
          file ← seek cache (from_start p) (handle idx)
          (bytes, file') ← read_exact cache n file
          ok bytes)
          ≡ ok (tabulate byte p n)
    seek_read p n h =
        rw (seek_ok cache idx byte size serves 0 p (omega arith))
          (rw (read_exact_ok cache idx byte size serves p n h))

  -- A flat extent reads its file at the offset of the image less the extent's offset in the file.
  pub read_flat_lem :
      (byte : ℕ → ℕ) (size : ℕ) (s : FlatStorage) (offset n : ℕ)
      → Serves cache s.file byte size
      → s.offset * sector_size ≤ offset
      → offset < u64_mod
      → offset - s.offset * sector_size + n ≤ size
      → read_flat cache order deflate s offset n
        ≡ ok (tabulate byte (offset - s.offset * sector_size) n)
  unfolding read_flat
  read_flat_lem byte size s offset n serves h k l =
      let e : sub64 offset (mul64 s.offset sector_size) ≡ offset - s.offset * sector_size =
        omega arith in
      rw e (rw (seek_read s.file byte size serves _ n l))

  pub read_grain_zero :
      (s : SparseStorage) (index gs sector within r : ℕ)
      → (s.zeroed_grain_table_entry && sector == 1) ≡ true
      → read_grain cache order deflate s index gs sector within r ≡ ok (replicate r 0)
  unfolding read_grain
  read_grain_zero s index gs sector within r e = rw e

  pub read_grain_plain :
      (byte : ℕ → ℕ) (size : ℕ) (s : SparseStorage) (index gs sector within r : ℕ)
      → Serves cache s.file byte size
      → (s.zeroed_grain_table_entry && sector == 1) ≡ false
      → s.has_compressed_grain ≡ false
      → sector * sector_size + within + r ≤ size
      → read_grain cache order deflate s index gs sector within r
        ≡ ok (tabulate byte (sector * sector_size + within) r)
  unfolding read_grain
  read_grain_plain byte size s index gs sector within r serves z c h =
      let e : add64 (mul64 sector sector_size) within ≡ sector * sector_size + within =
        omega (arith, serves.fits) in
      rw (z, c) (rw e (seek_read s.file byte size serves _ r h))

  -- `SparseStorage::read` stays within one grain, and reads the grain that the table gives.
  pub read_sparse_lem :
      (s : SparseStorage) (offset n sector : ℕ)
      → let gs = s.grain_size * sector_size in
        0 < gs
        → gs < u64_mod
        → get s.grain_table (offset / gs) ≡ some sector
        → read_sparse cache order deflate s offset n
          ≡ map_err io_error (
              read_grain cache order deflate s
                (offset / gs)
                gs
                sector
                (offset % gs)
                (min (gs - offset % gs) n))
  unfolding read_sparse
  read_sparse_lem s offset n sector p q g =
      let e : mul64 s.grain_size sector_size ≡ s.grain_size * sector_size = omega arith in
      let z : (s.grain_size * sector_size == 0) ≡ false = ground arith in rw e (rw z (rw g))
