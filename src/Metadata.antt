-- ===== src/Metadata.antt =====
-- The headers of src/header.rs and the metadata of an extent that they become.
use vmdk_rs.Base.{
  mul64, ℕ, ◌+◌, ◌/◌, ◌%◌, ◌^◌, [], ◌∷◌, Option, none, some, Bool, true, false, not, ◌&&◌, ◌||◌,
  ltb, ◌==◌, if◌then◌else◌,
}
use Prim.Native.Nat.{bit_and}
use vmdk_rs.Base.Outcome.{Outcome, ok, err, panic, ◌>>=◌}
use vmdk_rs.Io.{Bytes}
use vmdk_rs.Storage.{sector_size}
use vmdk_rs.Errors.{OpenErrorKind, invalid_file_header}

-- `struct Vmdk3Header`
pub record Vmdk3Header : Type 0 where
  pub magic : Bytes
  pub version : ℕ
  pub flags : ℕ
  pub disk_sectors : ℕ
  pub granularity : ℕ
  pub l1dir_offset : ℕ
  pub l1dir_size : ℕ
  pub file_sectors : ℕ
  pub cylinders : ℕ
  pub heads : ℕ
  pub sectors_per_track : ℕ

-- `struct Vmdk4Header`
pub record Vmdk4Header : Type 0 where
  pub magic : Bytes
  pub version : ℕ
  pub flags : ℕ
  pub capacity : ℕ
  pub granularity : ℕ
  pub desc_offset : ℕ
  pub desc_size : ℕ
  pub num_gtes_per_gt : ℕ
  pub rgd_offset : ℕ
  pub gd_offset : ℕ
  pub grain_offset : ℕ
  pub filler : ℕ
  pub check_bytes : Bytes
  pub compress_algorithm : ℕ

-- `struct VmdkSeSparseConstHeader`
pub record VmdkSeSparseConstHeader : Type 0 where
  pub magic : Bytes
  pub version : ℕ
  pub capacity : ℕ
  pub grain_size : ℕ
  pub grain_table_size : ℕ
  pub flags : ℕ
  pub reserved1 : ℕ
  pub reserved2 : ℕ
  pub reserved3 : ℕ
  pub reserved4 : ℕ
  pub volatile_header_offset : ℕ
  pub volatile_header_size : ℕ
  pub journal_header_offset : ℕ
  pub journal_header_size : ℕ
  pub journal_offset : ℕ
  pub journal_size : ℕ
  pub grain_dir_offset : ℕ
  pub grain_dir_size : ℕ
  pub grain_tables_offset : ℕ
  pub grain_tables_size : ℕ
  pub free_bitmap_offset : ℕ
  pub free_bitmap_size : ℕ
  pub backmap_offset : ℕ
  pub backmap_size : ℕ
  pub grains_offset : ℕ
  pub grains_size : ℕ

-- `struct VmdkSparseMeta`
pub record VmdkSparseMeta : Type 0 where
  pub compressed : Bool
  pub has_zero_grain : Bool
  pub sectors : ℕ
  pub l1_offset : ℕ
  pub l1_len : ℕ
  pub l2_len : ℕ
  pub cluster_sectors : ℕ

-- `struct VmdkSeSparseMeta`
pub record VmdkSeSparseMeta : Type 0 where
  pub sectors : ℕ
  pub l1_offset : ℕ
  pub l1_len : ℕ
  pub l2_tables_offset : ℕ
  pub l2_len : ℕ
  pub cluster_sectors : ℕ
  pub clusters_offset : ℕ

pub data FileType : Type 0 where
  vmdk3 : FileType
  vmdk4 : FileType
  vmdk_se_sparse : FileType

-- `Vmdk4Header::use_secondary`
unfoldable pub use_secondary : Vmdk4Header → Bool
use_secondary h = h.gd_offset == 0xFFFFFFFFFFFFFFFF && h.compress_algorithm == 1

-- `l1_len * l2_len * cluster_sectors * SECTOR_SIZE`
abbrev pub image_bytes : ℕ → ℕ → ℕ → ℕ
image_bytes l1_len l2_len cluster_sectors =
    mul64 (mul64 (mul64 l1_len l2_len) cluster_sectors) sector_size

-- `TryFrom<Vmdk3Header> for VmdkSparseMeta`
unfoldable pub sparse_of_vmdk3 : Vmdk3Header → Outcome OpenErrorKind VmdkSparseMeta
sparse_of_vmdk3 h =
    if ltb (2 ^ 41) (image_bytes h.l1dir_size 4096 h.granularity)
    then err invalid_file_header
    else ok (record {
      compressed = false;
      has_zero_grain = false;
      sectors = h.disk_sectors;
      l1_offset = mul64 h.l1dir_offset sector_size;
      l1_len = h.l1dir_size;
      l2_len = 4096;
      cluster_sectors = h.granularity;
    })

-- `u64::div_ceil`: a division by 0 is a panic
abbrev pub div_ceil : ℕ → ℕ → Outcome OpenErrorKind ℕ
div_ceil a b = if b == 0 then panic else ok (a / b + (if a % b == 0 then 0 else 1))

-- The header that `TryFrom<Vmdk4Header>` refuses at once.
abbrev pub is_unsupported : Vmdk4Header → Bool
is_unsupported h =
    ltb 3 h.version || h.num_gtes_per_gt == 0 || ltb 512 h.num_gtes_per_gt || h.granularity == 0

-- `let meta = Self { … }`, with `l1_len`
abbrev pub meta_of_vmdk4 : Vmdk4Header → ℕ → VmdkSparseMeta
meta_of_vmdk4 h l1_len = record {
  compressed = not (bit_and h.flags 0x10000 == 0);
  has_zero_grain = not (bit_and h.flags 0x04 == 0);
  sectors = h.capacity;
  l1_offset = mul64 (if bit_and h.flags 0x02 == 0 then h.gd_offset else h.rgd_offset) sector_size;
  l1_len = l1_len;
  l2_len = h.num_gtes_per_gt;
  cluster_sectors = h.granularity;
}

-- The limit of 2 TB.
abbrev pub limit_vmdk4 : Vmdk4Header → ℕ → Outcome OpenErrorKind VmdkSparseMeta
limit_vmdk4 h l1_len =
    if ltb (2 ^ 41) (image_bytes l1_len h.num_gtes_per_gt h.granularity)
    then err invalid_file_header
    else ok (meta_of_vmdk4 h l1_len)

-- `TryFrom<Vmdk4Header> for VmdkSparseMeta`
unfoldable pub sparse_of_vmdk4 : Vmdk4Header → Outcome OpenErrorKind VmdkSparseMeta
sparse_of_vmdk4 h =
    if is_unsupported h
    then err invalid_file_header
    else div_ceil h.capacity (mul64 h.num_gtes_per_gt h.granularity) >>= limit_vmdk4 h

-- The entries of a directory or of a table of so many sectors.
abbrev pub entries_of : ℕ → ℕ
entries_of n = mul64 n sector_size / 8

-- The header that `TryFrom<VmdkSeSparseConstHeader>` refuses at once.
abbrev pub is_other_se_sparse : VmdkSeSparseConstHeader → Bool
is_other_se_sparse h =
    not (h.version == 0x0000000200000001)
    || not (h.grain_size == 8)
    || not (h.grain_table_size == 64)
    || not (h.flags == 0)
    || not (h.reserved1 == 0)
    || not (h.reserved2 == 0)
    || not (h.reserved3 == 0)
    || not (h.reserved4 == 0)

-- `let meta = Self { … }`
abbrev pub meta_of_se_sparse : VmdkSeSparseConstHeader → VmdkSeSparseMeta
meta_of_se_sparse h = record {
  sectors = h.capacity;
  l1_offset = mul64 h.grain_dir_offset sector_size;
  l1_len = entries_of h.grain_dir_size;
  l2_tables_offset = mul64 h.grain_tables_offset sector_size;
  l2_len = entries_of h.grain_table_size;
  cluster_sectors = h.grain_size;
  clusters_offset = h.grains_offset;
}

-- `TryFrom<VmdkSeSparseConstHeader> for VmdkSeSparseMeta`
unfoldable pub se_sparse_of_header :
    VmdkSeSparseConstHeader → Outcome OpenErrorKind VmdkSeSparseMeta
se_sparse_of_header h =
    let size =
      image_bytes (entries_of h.grain_dir_size) (entries_of h.grain_table_size) h.grain_size in
    if is_other_se_sparse h
    then err invalid_file_header
    else if ltb (2 ^ 46) size
    then err invalid_file_header
    else ok (meta_of_se_sparse h)

abbrev pub vmdk3_magic : Bytes
vmdk3_magic = 0x43 ∷ 0x4F ∷ 0x57 ∷ 0x44 ∷ []

abbrev pub vmdk4_magic : Bytes
vmdk4_magic = 0x4B ∷ 0x44 ∷ 0x4D ∷ 0x56 ∷ []

abbrev pub vmdk_se_sparse_magic : Bytes
vmdk_se_sparse_magic = 0xBE ∷ 0xBA ∷ 0xFE ∷ 0xCA ∷ 0 ∷ 0 ∷ 0 ∷ 0 ∷ []

-- `sig.starts_with(&magic)`
unfoldable pub starts_with : Bytes → Bytes → Bool
starts_with bytes [] = true
starts_with [] (m ∷ magic) = false
starts_with (b ∷ bytes) (m ∷ magic) = b == m && starts_with bytes magic

-- `signature_to_file_type`, of a signature of 8 bytes: the third magic has as many.
unfoldable pub signature_to_file_type : Bytes → Option FileType
signature_to_file_type sig =
    if starts_with sig vmdk3_magic
    then some vmdk3
    else if starts_with sig vmdk4_magic
    then some vmdk4
    else if starts_with sig vmdk_se_sparse_magic
    then some vmdk_se_sparse
    else none
