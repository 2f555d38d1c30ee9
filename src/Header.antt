-- ===== src/Header.antt =====
-- src/header.rs: the headers of sparse extents. A reader is a `CacheReadSeek`; `R: Read + Seek` is
-- generic there, and this is the instance that the program uses.
pub mod Layout
pub mod Parse
pub mod Open
pub mod Accept
use vmdk_rs.Base.{
  mul64, ℕ, ◌+◌, ◌*◌, ◌/◌, ◌%◌, ◌^◌, List, [], ◌∷◌, Option, none, some, Bool, true, false, not,
  ◌&&◌, ◌||◌, ltb, leb, ◌==◌, if◌then◌else◌,
}
use Prim.Native.Nat.{bit_and}
use vmdk_rs.Base.Outcome.{Outcome, ok, err, panic, ◌>>=◌, map_err}
use vmdk_rs.Crates.{ByteOrder}
use vmdk_rs.Io.{
  Bytes, IoError, Cache, CacheReadSeek, negsuc, SeekFrom, from_start, from_end, read_exact, seek,
}
use vmdk_rs.Storage.{sector_size, handle}
use vmdk_rs.Errors.{
  HeaderName, OpenErrorKind, vmdk3_header, vmdk4_header, se_sparse_header, io_error,
  deserialization_failed, invalid_file_header,
}
use vmdk_rs.Metadata.{
  Vmdk3Header, Vmdk4Header, VmdkSeSparseConstHeader, VmdkSparseMeta, VmdkSeSparseMeta, FileType,
  use_secondary, image_bytes, sparse_of_vmdk3, div_ceil, is_unsupported, meta_of_vmdk4, limit_vmdk4,
  sparse_of_vmdk4, se_sparse_of_header, vmdk3_magic, vmdk4_magic, vmdk_se_sparse_magic, starts_with,
  signature_to_file_type, vmdk3, vmdk4, vmdk_se_sparse,
}

module _ (cache : Cache) (order : ByteOrder) where
  -- `read_u8`, and `read_u16::<LittleEndian>` and its kin: `read_exact`, then the value.
  unfoldable pub read_word : ℕ → (Bytes → ℕ) → CacheReadSeek → Outcome IoError (ℕ × CacheReadSeek)
  read_word n value r = do (bytes, r') ← read_exact cache n r; ok (value bytes, r')

  abbrev pub read_u8 : CacheReadSeek → Outcome IoError (ℕ × CacheReadSeek)
  read_u8 = read_word 1 order.u8

  abbrev pub read_u16 : CacheReadSeek → Outcome IoError (ℕ × CacheReadSeek)
  read_u16 = read_word 2 order.u16_le

  abbrev pub read_u32 : CacheReadSeek → Outcome IoError (ℕ × CacheReadSeek)
  read_u32 = read_word 4 order.u32_le

  abbrev pub read_u64 : CacheReadSeek → Outcome IoError (ℕ × CacheReadSeek)
  read_u64 = read_word 8 order.u64_le

  -- `Vmdk3Header::from_reader`
  unfoldable pub vmdk3_from_reader : CacheReadSeek → Outcome IoError (Vmdk3Header × CacheReadSeek)
  vmdk3_from_reader r0 = do
    (magic, r1) ← read_exact cache 4 r0
    (version, r2) ← read_u32 r1
    (flags, r3) ← read_u32 r2
    (disk_sectors, r4) ← read_u32 r3
    (granularity, r5) ← read_u32 r4
    (l1dir_offset, r6) ← read_u32 r5
    (l1dir_size, r7) ← read_u32 r6
    (file_sectors, r8) ← read_u32 r7
    (cylinders, r9) ← read_u32 r8
    (heads, r10) ← read_u32 r9
    (sectors_per_track, r11) ← read_u32 r10
    ok (
      record {
        magic = magic;
        version = version;
        flags = flags;
        disk_sectors = disk_sectors;
        granularity = granularity;
        l1dir_offset = l1dir_offset;
        l1dir_size = l1dir_size;
        file_sectors = file_sectors;
        cylinders = cylinders;
        heads = heads;
        sectors_per_track = sectors_per_track;
      },
      r11,
    )

  -- `Vmdk4Header::from_reader`
  unfoldable pub vmdk4_from_reader : CacheReadSeek → Outcome IoError (Vmdk4Header × CacheReadSeek)
  vmdk4_from_reader r0 = do
    (magic, r1) ← read_exact cache 4 r0
    (version, r2) ← read_u32 r1
    (flags, r3) ← read_u32 r2
    (capacity, r4) ← read_u64 r3
    (granularity, r5) ← read_u64 r4
    (desc_offset, r6) ← read_u64 r5
    (desc_size, r7) ← read_u64 r6
    (num_gtes_per_gt, r8) ← read_u32 r7
    (rgd_offset, r9) ← read_u64 r8
    (gd_offset, r10) ← read_u64 r9
    (grain_offset, r11) ← read_u64 r10
    (filler, r12) ← read_u8 r11
    (check_bytes, r13) ← read_exact cache 4 r12
    (compress_algorithm, r14) ← read_u16 r13
    ok (
      record {
        magic = magic;
        version = version;
        flags = flags;
        capacity = capacity;
        granularity = granularity;
        desc_offset = desc_offset;
        desc_size = desc_size;
        num_gtes_per_gt = num_gtes_per_gt;
        rgd_offset = rgd_offset;
        gd_offset = gd_offset;
        grain_offset = grain_offset;
        filler = filler;
        check_bytes = check_bytes;
        compress_algorithm = compress_algorithm;
      },
      r14,
    )

  -- `VmdkSeSparseConstHeader::from_reader`
  unfoldable pub se_sparse_from_reader :
      CacheReadSeek → Outcome IoError (VmdkSeSparseConstHeader × CacheReadSeek)
  se_sparse_from_reader r0 = do
    (magic, r1) ← read_exact cache 8 r0
    (version, r2) ← read_u64 r1
    (capacity, r3) ← read_u64 r2
    (grain_size, r4) ← read_u64 r3
    (grain_table_size, r5) ← read_u64 r4
    (flags, r6) ← read_u64 r5
    (reserved1, r7) ← read_u64 r6
    (reserved2, r8) ← read_u64 r7
    (reserved3, r9) ← read_u64 r8
    (reserved4, r10) ← read_u64 r9
    (volatile_header_offset, r11) ← read_u64 r10
    (volatile_header_size, r12) ← read_u64 r11
    (journal_header_offset, r13) ← read_u64 r12
    (journal_header_size, r14) ← read_u64 r13
    (journal_offset, r15) ← read_u64 r14
    (journal_size, r16) ← read_u64 r15
    (grain_dir_offset, r17) ← read_u64 r16
    (grain_dir_size, r18) ← read_u64 r17
    (grain_tables_offset, r19) ← read_u64 r18
    (grain_tables_size, r20) ← read_u64 r19
    (free_bitmap_offset, r21) ← read_u64 r20
    (free_bitmap_size, r22) ← read_u64 r21
    (backmap_offset, r23) ← read_u64 r22
    (backmap_size, r24) ← read_u64 r23
    (grains_offset, r25) ← read_u64 r24
    (grains_size, r26) ← read_u64 r25
    ok (
      record {
        magic = magic;
        version = version;
        capacity = capacity;
        grain_size = grain_size;
        grain_table_size = grain_table_size;
        flags = flags;
        reserved1 = reserved1;
        reserved2 = reserved2;
        reserved3 = reserved3;
        reserved4 = reserved4;
        volatile_header_offset = volatile_header_offset;
        volatile_header_size = volatile_header_size;
        journal_header_offset = journal_header_offset;
        journal_header_size = journal_header_size;
        journal_offset = journal_offset;
        journal_size = journal_size;
        grain_dir_offset = grain_dir_offset;
        grain_dir_size = grain_dir_size;
        grain_tables_offset = grain_tables_offset;
        grain_tables_size = grain_tables_size;
        free_bitmap_offset = free_bitmap_offset;
        free_bitmap_size = free_bitmap_size;
        backmap_offset = backmap_offset;
        backmap_size = backmap_size;
        grains_offset = grains_offset;
        grains_size = grains_size;
      },
      r26,
    )

  -- `check_signature`
  unfoldable pub check_signature : CacheReadSeek → Outcome IoError (Option FileType × CacheReadSeek)
  check_signature r = do (sig, r') ← read_exact cache 8 r; ok (signature_to_file_type sig, r')

  -- The seek to the front, the check of the signature, and the seek back.
  unfoldable pub sniff : CacheReadSeek → Outcome IoError (Option FileType × CacheReadSeek)
  sniff src = do
    r ← seek cache (from_start 0) src
    (ft, r1) ← check_signature r
    r2 ← seek cache (from_start 0) r1
    ok (ft, r2)

  -- The secondary header, 1024 bytes from the end of the file.
  unfoldable pub read_secondary : CacheReadSeek → Outcome OpenErrorKind Vmdk4Header
  read_secondary r = do
    r1 ← map_err io_error (seek cache (from_end (negsuc 1023)) r)
    (ft, r2) ← map_err io_error (check_signature r1)
    r3 ← map_err io_error (seek cache (from_end (negsuc 1023)) r2)
    (h, r4) ← map_err (deserialization_failed vmdk4_header) (vmdk4_from_reader r3)
    ok h

  abbrev pub read_header_of : Option FileType → CacheReadSeek → Outcome OpenErrorKind VmdkSparseMeta
  read_header_of (some vmdk3) r = do
    (h, r') ← map_err (deserialization_failed vmdk3_header) (vmdk3_from_reader r)
    sparse_of_vmdk3 h
  read_header_of (some vmdk4) r = do
    (h, r') ← map_err (deserialization_failed vmdk4_header) (vmdk4_from_reader r)
    h' ← (if use_secondary h then read_secondary r' else ok h)
    sparse_of_vmdk4 h'
  read_header_of (some vmdk_se_sparse) r = err invalid_file_header
  read_header_of none r = err invalid_file_header

  -- `read_header_sparse`
  unfoldable pub read_header_sparse : CacheReadSeek → Outcome OpenErrorKind VmdkSparseMeta
  read_header_sparse src = do (ft, r) ← map_err io_error (sniff src); read_header_of ft r

  abbrev pub read_se_header_of :
      Option FileType → CacheReadSeek → Outcome OpenErrorKind VmdkSeSparseMeta
  read_se_header_of (some vmdk_se_sparse) r = do
    (h, r') ← map_err (deserialization_failed se_sparse_header) (se_sparse_from_reader r)
    se_sparse_of_header h
  read_se_header_of (some vmdk3) r = err invalid_file_header
  read_se_header_of (some vmdk4) r = err invalid_file_header
  read_se_header_of none r = err invalid_file_header

  -- `read_header_sesparse`
  unfoldable pub read_header_sesparse : CacheReadSeek → Outcome OpenErrorKind VmdkSeSparseMeta
  read_header_sesparse src = do (ft, r) ← map_err io_error (sniff src); read_se_header_of ft r
