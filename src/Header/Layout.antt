-- ===== src/Header/Layout.antt =====
-- Where each field of a header of src/header.rs lies, and how the bytes are read in order.
use vmdk_rs.Base.{ℕ, ◌+◌, tabulate}
use vmdk_rs.Crates.{ByteOrder}
use vmdk_rs.Metadata.{Vmdk3Header, Vmdk4Header, VmdkSeSparseConstHeader}

module _ (order : ByteOrder) (byte : ℕ → ℕ) where
  -- The header that starts at byte `p`.
  abbrev pub vmdk3_at : ℕ → Vmdk3Header
  vmdk3_at p = record {
    magic = tabulate byte p 4;
    version = order.u32_le (tabulate byte (p + 4) 4);
    flags = order.u32_le (tabulate byte (p + 8) 4);
    disk_sectors = order.u32_le (tabulate byte (p + 12) 4);
    granularity = order.u32_le (tabulate byte (p + 16) 4);
    l1dir_offset = order.u32_le (tabulate byte (p + 20) 4);
    l1dir_size = order.u32_le (tabulate byte (p + 24) 4);
    file_sectors = order.u32_le (tabulate byte (p + 28) 4);
    cylinders = order.u32_le (tabulate byte (p + 32) 4);
    heads = order.u32_le (tabulate byte (p + 36) 4);
    sectors_per_track = order.u32_le (tabulate byte (p + 40) 4);
  }

  abbrev pub vmdk4_at : ℕ → Vmdk4Header
  vmdk4_at p = record {
    magic = tabulate byte p 4;
    version = order.u32_le (tabulate byte (p + 4) 4);
    flags = order.u32_le (tabulate byte (p + 8) 4);
    capacity = order.u64_le (tabulate byte (p + 12) 8);
    granularity = order.u64_le (tabulate byte (p + 20) 8);
    desc_offset = order.u64_le (tabulate byte (p + 28) 8);
    desc_size = order.u64_le (tabulate byte (p + 36) 8);
    num_gtes_per_gt = order.u32_le (tabulate byte (p + 44) 4);
    rgd_offset = order.u64_le (tabulate byte (p + 48) 8);
    gd_offset = order.u64_le (tabulate byte (p + 56) 8);
    grain_offset = order.u64_le (tabulate byte (p + 64) 8);
    filler = order.u8 (tabulate byte (p + 72) 1);
    check_bytes = tabulate byte (p + 73) 4;
    compress_algorithm = order.u16_le (tabulate byte (p + 77) 2);
  }

  abbrev pub se_sparse_at : ℕ → VmdkSeSparseConstHeader
  se_sparse_at p = record {
    magic = tabulate byte p 8;
    version = order.u64_le (tabulate byte (p + 8) 8);
    capacity = order.u64_le (tabulate byte (p + 16) 8);
    grain_size = order.u64_le (tabulate byte (p + 24) 8);
    grain_table_size = order.u64_le (tabulate byte (p + 32) 8);
    flags = order.u64_le (tabulate byte (p + 40) 8);
    reserved1 = order.u64_le (tabulate byte (p + 48) 8);
    reserved2 = order.u64_le (tabulate byte (p + 56) 8);
    reserved3 = order.u64_le (tabulate byte (p + 64) 8);
    reserved4 = order.u64_le (tabulate byte (p + 72) 8);
    volatile_header_offset = order.u64_le (tabulate byte (p + 80) 8);
    volatile_header_size = order.u64_le (tabulate byte (p + 88) 8);
    journal_header_offset = order.u64_le (tabulate byte (p + 96) 8);
    journal_header_size = order.u64_le (tabulate byte (p + 104) 8);
    journal_offset = order.u64_le (tabulate byte (p + 112) 8);
    journal_size = order.u64_le (tabulate byte (p + 120) 8);
    grain_dir_offset = order.u64_le (tabulate byte (p + 128) 8);
    grain_dir_size = order.u64_le (tabulate byte (p + 136) 8);
    grain_tables_offset = order.u64_le (tabulate byte (p + 144) 8);
    grain_tables_size = order.u64_le (tabulate byte (p + 152) 8);
    free_bitmap_offset = order.u64_le (tabulate byte (p + 160) 8);
    free_bitmap_size = order.u64_le (tabulate byte (p + 168) 8);
    backmap_offset = order.u64_le (tabulate byte (p + 176) 8);
    backmap_size = order.u64_le (tabulate byte (p + 184) 8);
    grains_offset = order.u64_le (tabulate byte (p + 192) 8);
    grains_size = order.u64_le (tabulate byte (p + 200) 8);
  }
