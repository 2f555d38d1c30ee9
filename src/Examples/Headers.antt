-- ===== src/Examples/Headers.antt =====
-- A VMDK4 header and a grain table.
use vmdk_rs.Base.{
  ℕ, mul64, ◌+◌, ◌*◌, ◌≡◌, inr, some, none, refl, false, [], ◌∷◌, ◌++◌, if◌then◌else◌, leb,
  replicate, tabulate, arith,
}
use vmdk_rs.Base.Outcome.{ok, err}
use vmdk_rs.Io.{Cache, CacheReadSeek, unexpected_eof, read, read_exact, read_exact_loop, seek}
use vmdk_rs.Io.Exact.{Serves}
use vmdk_rs.Storage.{sector_size, GrainTable, get}
use vmdk_rs.Errors.{io_error}
use vmdk_rs.Metadata.{
  VmdkSeSparseConstHeader, vmdk_se_sparse_magic, meta_of_se_sparse, se_sparse_of_header,
  VmdkSparseMeta, signature_to_file_type, sparse_of_vmdk4,
}
use vmdk_rs.Header.{
  read_word, vmdk4_from_reader, se_sparse_from_reader, read_header_sparse, read_header_sesparse,
}
use vmdk_rs.Header.Layout.{vmdk4_at, se_sparse_at}
use vmdk_rs.Header.Parse.{vmdk4_from_reader_lem, se_sparse_from_reader_lem}
use vmdk_rs.Header.Open.{
  sparse_meta, se_sparse_meta, read_header_sparse_lem, read_header_sesparse_lem,
}
use vmdk_rs.Header.Accept.{Covers, sparse_of_vmdk4_lem, IsSeSparse, se_sparse_of_header_lem}
use vmdk_rs.Grains.{without, extend, allocated, read_entries, sparse_loop, read_grain_table_sparse}
use vmdk_rs.Grains.Table.{entry_or}
use vmdk_rs.Grains.Entries.{entry, word, offsets}
use vmdk_rs.Grains.Contents.{InFile, read_grain_table_sparse-get}
use vmdk_rs.Grains.Keys.{Within, read_grain_table_sparse-Within}
use vmdk_rs.Examples.Disk.{disk, disk-Serves, bytes_order, bytes_of}

-- 4096 sectors in grains of 128 sectors, and tables of 512 entries.
abbrev kdmv : ℕ → ℕ
kdmv = bytes_of (
    (0x4B ∷ 0x44 ∷ 0x4D ∷ 0x56 ∷ 1 ∷ 0 ∷ 0 ∷ 0 ∷ 3 ∷ 0 ∷ 0 ∷ 0 ∷ [])
    ++ (0 ∷ 16 ∷ 0 ∷ 0 ∷ 0 ∷ 0 ∷ 0 ∷ 0 ∷ 128 ∷ 0 ∷ 0 ∷ 0 ∷ 0 ∷ 0 ∷ 0 ∷ 0 ∷ [])
    ++ (1 ∷ 0 ∷ 0 ∷ 0 ∷ 0 ∷ 0 ∷ 0 ∷ 0 ∷ 20 ∷ 0 ∷ 0 ∷ 0 ∷ 0 ∷ 0 ∷ 0 ∷ 0 ∷ 0 ∷ 2 ∷ 0 ∷ 0 ∷ [])
    ++ (21 ∷ 0 ∷ 0 ∷ 0 ∷ 0 ∷ 0 ∷ 0 ∷ 0 ∷ 26 ∷ []))

abbrev kdmv_file : Cache
kdmv_file = disk kdmv 4096

kdmv-Serves : Serves kdmv_file 0 kdmv 4096
kdmv-Serves = disk-Serves kdmv 4096 0 (omega arith)

abbrev front : ℕ → CacheReadSeek
front p = record { idx = 0; pos = p }

abbrev kdmv_meta : VmdkSparseMeta
kdmv_meta = record {
  compressed = false;
  has_zero_grain = false;
  sectors = 4096;
  l1_offset = 10752;
  l1_len = 1;
  l2_len = 512;
  cluster_sectors = 128;
}

read_header_sparse_lem_example : read_header_sparse kdmv_file bytes_order (front 7) ≡ (
    if leb 8 4096
    then sparse_meta bytes_order kdmv 4096 (signature_to_file_type (tabulate kdmv 0 8))
    else err (io_error unexpected_eof))
read_header_sparse_lem_example =
    read_header_sparse_lem kdmv_file bytes_order 0 kdmv 4096 kdmv-Serves 7

read_header_sesparse_lem_example : read_header_sesparse kdmv_file bytes_order (front 7) ≡ (
    if leb 8 4096
    then se_sparse_meta bytes_order kdmv 4096 (signature_to_file_type (tabulate kdmv 0 8))
    else err (io_error unexpected_eof))
read_header_sesparse_lem_example =
    read_header_sesparse_lem kdmv_file bytes_order 0 kdmv 4096 kdmv-Serves 7

vmdk4_from_reader_lem_example : vmdk4_from_reader kdmv_file bytes_order (front 0) ≡ (
    if leb (0 + 79) 4096
    then ok (vmdk4_at bytes_order kdmv 0, front (0 + 79))
    else err unexpected_eof)
vmdk4_from_reader_lem_example =
    vmdk4_from_reader_lem kdmv_file bytes_order 0 kdmv 4096 kdmv-Serves 0 (omega arith)

se_sparse_from_reader_lem_example : se_sparse_from_reader kdmv_file bytes_order (front 4000) ≡ (
    if leb (4000 + 208) 4096
    then ok (se_sparse_at bytes_order kdmv 4000, front (4000 + 208))
    else err unexpected_eof)
se_sparse_from_reader_lem_example =
    se_sparse_from_reader_lem kdmv_file bytes_order 0 kdmv 4096 kdmv-Serves 4000 (omega arith)

accepts : sparse_of_vmdk4 (vmdk4_at bytes_order kdmv 0) ≡ ok kdmv_meta
unfolding sparse_of_vmdk4
accepts = refl

sparse_of_vmdk4_lem_example : Covers kdmv_meta
sparse_of_vmdk4_lem_example =
    sparse_of_vmdk4_lem (vmdk4_at bytes_order kdmv 0) kdmv_meta (omega arith) accepts

-- 2 ^ 20 sectors, with a directory of 4 sectors.
abbrev sparse_const : VmdkSeSparseConstHeader
sparse_const = record {
  magic = vmdk_se_sparse_magic;
  version = 0x0000000200000001;
  capacity = 1048576;
  grain_size = 8;
  grain_table_size = 64;
  flags = 0;
  reserved1 = 0;
  reserved2 = 0;
  reserved3 = 0;
  reserved4 = 0;
  volatile_header_offset = 1;
  volatile_header_size = 1;
  journal_header_offset = 2;
  journal_header_size = 2;
  journal_offset = 2048;
  journal_size = 2048;
  grain_dir_offset = 4096;
  grain_dir_size = 4;
  grain_tables_offset = 8192;
  grain_tables_size = 2048;
  free_bitmap_offset = 10240;
  free_bitmap_size = 2048;
  backmap_offset = 12288;
  backmap_size = 2048;
  grains_offset = 14336;
  grains_size = 1048576;
}

accepts_const : se_sparse_of_header sparse_const ≡ ok (meta_of_se_sparse sparse_const)
unfolding se_sparse_of_header
accepts_const = refl

se_sparse_of_header_lem_example : IsSeSparse sparse_const (meta_of_se_sparse sparse_const)
se_sparse_of_header_lem_example =
    se_sparse_of_header_lem sparse_const (meta_of_se_sparse sparse_const) (omega arith)
      accepts_const

-- A directory of one table at sector 1, whose second grain is at sector 5.
abbrev tables : ℕ → ℕ
tables = bytes_of (1 ∷ replicate 515 0 ++ 5 ∷ [])

abbrev small_meta : VmdkSparseMeta
small_meta = record {
  compressed = false;
  has_zero_grain = false;
  sectors = 3;
  l1_offset = 0;
  l1_len = 1;
  l2_len = 512;
  cluster_sectors = 1;
}

abbrev small_table : GrainTable
small_table = (9, 5) ∷ []

table_run :
    read_grain_table_sparse (disk tables 4096) bytes_order small_meta 8 (front 0) ≡ ok small_table
unfolding read_grain_table_sparse sparse_loop read_entries read_word read_exact read_exact_loop read
    seek extend allocated without
table_run = refl

read_grain_table_sparse-Within_example : Within 8 (8 + 3) small_table
read_grain_table_sparse-Within_example =
    read_grain_table_sparse-Within (disk tables 4096) bytes_order small_meta 8 (front 0) small_table
      (omega arith) table_run

-- The same directory for an extent of 512 sectors.
abbrev full_meta : VmdkSparseMeta
full_meta = record {
  compressed = false;
  has_zero_grain = false;
  sectors = 512;
  l1_offset = 0;
  l1_len = 1;
  l2_len = 512;
  cluster_sectors = 1;
}

tables-InFile : InFile 4096 512 (offsets bytes_order tables 0 1)
tables-InFile = (inr (omega arith), tt)

read_grain_table_sparse-get_example :
    (t : GrainTable) × (read_grain_table_sparse (disk tables 4096) bytes_order full_meta 8 (front 0)
      ≡ ok t)
    × (get t (8 + (0 * 512 + 1))
        ≡ entry_or
            (entry bytes_order tables (mul64 (word bytes_order tables (0 + 4 * 0)) sector_size) 1)
            none)
read_grain_table_sparse-get_example =
    read_grain_table_sparse-get (disk tables 4096) bytes_order 0 tables 4096
      (disk-Serves tables 4096 0 (omega arith)) full_meta 8 0 0 1 (omega arith) tables-InFile
      (omega arith) (omega arith) (omega arith) (omega arith)

-- That entry is the 5 on the disk.
entry_run :
    entry_or (entry bytes_order tables (mul64 (word bytes_order tables 0) sector_size) 1) none
    ≡ some 5
entry_run = refl
