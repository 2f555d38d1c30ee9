-- ===== src/Examples/Readings.antt =====
-- Descriptors inside an extent and in files of their own.
use vmdk_rs.Base.{ℕ, ◌*◌, ◌≡◌, refl, ltb, if◌then◌else◌, tabulate, arith}
use vmdk_rs.Base.Outcome.{ok}
use vmdk_rs.Io.{Cache, CacheReadSeek}
use vmdk_rs.Text.Utf8.{from_utf8_lossy}
use vmdk_rs.Storage.{sector_size}
use vmdk_rs.Descriptor.{read_descriptor_internal, read_descriptor_file}
use vmdk_rs.Descriptor.Internal.{read_descriptor_internal-nul, read_descriptor_internal-unended}
use vmdk_rs.Descriptor.Lines.{classify, split_lines}
use vmdk_rs.Descriptor.File.{read_descriptor_file-classify}
use vmdk_rs.Examples.Disk.{disk, disk-Serves}

-- Two sectors of text, and zeros behind them.
abbrev text_byte : ℕ → ℕ
text_byte i = if ltb i 515 then 65 else 0

abbrev text_file : Cache
text_file = disk text_byte 2048

abbrev text_at : ℕ → CacheReadSeek
text_at p = record { idx = 0; pos = p }

read_descriptor_internal-nul_example :
    (end : ℕ) × (read_descriptor_internal text_file 1 (text_at 7)
      ≡ ok (from_utf8_lossy (tabulate text_byte (1 * sector_size) 3), text_at end))
read_descriptor_internal-nul_example =
    read_descriptor_internal-nul text_file 0 text_byte 2048
      (disk-Serves text_byte 2048 0 (omega arith)) 1 7 3 (omega arith) (omega arith)
      (λ i l h. ground arith) refl

-- A file without a NUL.
abbrev full_byte : ℕ → ℕ
full_byte i = 65

abbrev full_file : Cache
full_file = disk full_byte 600

read_descriptor_internal-unended_example :
    (end : ℕ) × (read_descriptor_internal full_file 1 (text_at 7)
      ≡ ok (from_utf8_lossy (tabulate full_byte (1 * sector_size) 87), text_at end))
read_descriptor_internal-unended_example =
    read_descriptor_internal-unended full_file 0 full_byte 600
      (disk-Serves full_byte 600 0 (omega arith)) 1 7 87 (omega arith) (λ i l h. omega arith)

-- A file whose first line is not that of a descriptor.
read_descriptor_file-classify_example :
    let file = tabulate full_byte 0 20 in
    read_descriptor_file (disk full_byte 20) 30 (text_at 0) ≡ classify file (split_lines file)
read_descriptor_file-classify_example =
    read_descriptor_file-classify (disk full_byte 20) 0 full_byte 20
      (disk-Serves full_byte 20 0 (omega arith)) (λ i l. omega arith) 30 (omega arith)
