-- ===== src/Storage.antt =====
-- src/storage.rs: reading from one extent's file. A file handle is the index of its source: each
-- read seeks from the start before it reads, so the position that a handle is left at does not
-- matter, and it is not kept.
pub mod Serve
pub mod Inflate
use vmdk_rs.Base.{
  sub64, mul64, add64, ℕ, zero, suc, ◌+◌, ◌-◌, ◌*◌, ◌/◌, ◌%◌, ◌^◌, List, [], ◌∷◌, ◌++◌, Option,
  none, some, Bool, true, false, ◌&&◌, ◌||◌, ltb, leb, ◌==◌, if◌then◌else◌, length, replicate, take,
  drop, min, not,
}
use Prim.Native.Nat.{bit_and}
use vmdk_rs.Base.Outcome.{Outcome, ok, err, panic, hang, ◌>>=◌, map_err}
use vmdk_rs.Crates.{ByteOrder, Deflate}
use vmdk_rs.Io.{
  Bytes, IoError, crazy_grain_index, Cache, SeekFrom, from_start, CacheReadSeek, read_exact, seek,
}

abbrev pub sector_size : ℕ
sector_size = 512

-- `grain_table: HashMap<u64, u64>`: the entries in the order in which the map iterates over them.
abbrev pub GrainTable : Type 0
GrainTable = List (ℕ × ℕ)

-- `map.get(&k)`
unfoldable pub get : GrainTable → ℕ → Option ℕ
get [] k = none
get ((j, v) ∷ t) k = if j == k then some v else get t k

pub record SparseStorage : Type 0 where
  pub file : ℕ
  pub grain_table : GrainTable
  pub grain_size : ℕ
  pub has_compressed_grain : Bool
  pub zeroed_grain_table_entry : Bool

pub record FlatStorage : Type 0 where
  pub file : ℕ
  pub offset : ℕ

pub data ExtentStorage : Type 0 where
  sparse : SparseStorage → ExtentStorage
  flat : FlatStorage → ExtentStorage
  zeroed : ExtentStorage

-- `enum ReadError` of src/vmdk_reader.rs
pub data ReadError : Type 0 where
  offset_beyond_end : ℕ → ℕ → ReadError
  offset_not_found : ℕ → ReadError
  io_error : IoError → ReadError

abbrev pub handle : ℕ → CacheReadSeek
handle i = record { idx = i; pos = 0 }

-- The checks of a zlib stream header.
abbrev pub is_bad_header : ℕ → Bool
is_bad_header h =
    not (h % 31 == 0) || not (bit_and h 0x0f00 == 0x0800) || not (bit_and h 0x0020 == 0)

module _ (cache : Cache) (order : ByteOrder) (deflate : Deflate) where
  open deflate use {Decoder, new, read}

  -- The loop that fills `buf` from the decoder: `filled` is `buf[..c]`, and `left` bytes are behind it.
  unfoldable pub inflate_loop : ℕ → ℕ → ℕ → Bytes → Decoder → Outcome IoError Bytes
  inflate_loop zero grain_index left filled d = hang
  inflate_loop (suc fuel) grain_index left filled d = do
    (bytes, d') ← read d left
    elim bytes [
      | [] ↦ ok (filled ++ replicate left 0)
      | b ∷ bs ↦ elim (left == 0) [
        | true ↦ err (crazy_grain_index grain_index)
        | false ↦ inflate_loop fuel grain_index (left - suc (length bs)) (filled ++ b ∷ bs) d'
      ]
    ]

  -- Each round but the last fills a byte at least.
  unfoldable pub read_and_decompress_grain : CacheReadSeek → ℕ → ℕ → Outcome IoError Bytes
  read_and_decompress_grain file grain_index grain_size = do
    (lba, file1) ← read_exact cache 8 file
    (size, file2) ← read_exact cache 4 file1
    let data_size = order.u32_le size
    if ltb (mul64 2 grain_size) data_size then err (crazy_grain_index grain_index) else (do
      (header, file3) ← read_exact cache 2 file2
      if is_bad_header (order.u16_be header) then err (crazy_grain_index grain_index) else (do
        (buffer, file4) ← read_exact cache data_size file3
        inflate_loop (suc grain_size) grain_index grain_size [] (new buffer)))

  -- `SparseStorage::read` from the grain's sector on, for `r` bytes at `within` in the grain
  unfoldable pub read_grain : SparseStorage → ℕ → ℕ → ℕ → ℕ → ℕ → Outcome IoError Bytes
  read_grain s grain_index grain_size sector_num within r =
      if s.zeroed_grain_table_entry && sector_num == 1
      then ok (replicate r 0)
      else if s.has_compressed_grain
      then (do
        file ← seek cache (from_start (mul64 sector_num sector_size)) (handle s.file)
        grain ← read_and_decompress_grain file grain_index grain_size
        ok (take r (drop within grain)))
      else (do
        file ← seek cache (from_start (add64 (mul64 sector_num sector_size) within)) (handle s.file)
        (bytes, file') ← read_exact cache r file
        ok bytes)

  abbrev pub expect : Option ℕ → Outcome ReadError ℕ
  expect none = panic
  expect (some v) = ok v

  -- `SparseStorage::read` into a buffer of `n` bytes: the bytes that it fills. A grain size of 0
  -- and a grain that the table lacks are panics.
  unfoldable pub read_sparse : SparseStorage → ℕ → ℕ → Outcome ReadError Bytes
  read_sparse s offset n =
      let grain_size = mul64 s.grain_size sector_size in
      if grain_size == 0 then panic else (do
        sector_num ← expect (get s.grain_table (offset / grain_size))
        map_err io_error (
            read_grain s (offset / grain_size) grain_size sector_num (offset % grain_size)
              (min (grain_size - offset % grain_size) n)))

  -- `FlatStorage::read`
  unfoldable pub read_flat : FlatStorage → ℕ → ℕ → Outcome ReadError Bytes
  read_flat s offset n = map_err io_error (do
    file ← seek cache (from_start (sub64 offset (mul64 s.offset sector_size))) (handle s.file)
    (bytes, file') ← read_exact cache n file
    ok bytes)

  -- `read_zero`
  unfoldable pub read_zero : ℕ → Bytes
  read_zero n = replicate n 0

  -- `ExtentStorage::read`
  unfoldable pub read_storage : ExtentStorage → ℕ → ℕ → Outcome ReadError Bytes
  read_storage (sparse s) offset n = read_sparse s offset n
  read_storage (flat s) offset n = read_flat s offset n
  read_storage zeroed offset n = ok (read_zero n)
