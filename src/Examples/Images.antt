-- ===== src/Examples/Images.antt =====
-- An image of two extents.
use vmdk_rs.Base.{
  ◌++◌, ℕ, ◌-◌, ◌*◌, ◌/◌, ◌%◌, ◌≡◌, refl, true, false, [], ◌∷◌, some, if◌then◌else◌, ltb, tabulate,
  min, arith, ◌&&◌, List,
}
use vmdk_rs.Base.Outcome.{ok, err}
use vmdk_rs.Io.{Cache}
use vmdk_rs.Io.Exact.{Serves}
use vmdk_rs.Storage.{
  read_storage, sector_size, get, SparseStorage, FlatStorage, flat, sparse, offset_beyond_end,
}
use vmdk_rs.Extent.{Extent, spans}
use vmdk_rs.Reader.{VmdkReader, read_at_offset}
use vmdk_rs.Reader.Locate.{read_at_offset_lem}
use vmdk_rs.Spans.Map.{SpanMap}
use vmdk_rs.Spans.View.{Disjoint, value_at}
use vmdk_rs.Image.{Covering, add_spans, add_extents, zero_fill}
use vmdk_rs.Image.Earlier.{AllNonEmpty, Added, add_extents_lem}
use vmdk_rs.Image.Cover.{Accounts, filled_all, is_none, add_spans_lem}
use vmdk_rs.Image.Zeros.{zeros, span_at, zero_fill-zeros}
use vmdk_rs.Image.Earlier.{first_of}
use vmdk_rs.Reader.Backs.{read_storage-sparse, read_storage-flat, sparse_byte, flat-Serves}
use vmdk_rs.Examples.Disk.{disk, disk-Serves, bytes_order, stored}

abbrev counter : ℕ → ℕ
counter x = x % 251

abbrev file : Cache
file = disk counter 4096

abbrev whole_file : FlatStorage
whole_file = record { file = 0; offset = 0 }

abbrev image_byte : ℕ → ℕ
image_byte x = counter (x - 0 * sector_size)

abbrev extent : ℕ → Extent
extent start = record { start_sector = start; sectors = 2; storage = flat whole_file }

abbrev image : VmdkReader
image = record {
  image_size = 2048;
  spans = (0, (1024, 0)) ∷ (1024, (2048, 1)) ∷ [];
  extents = extent 0 ∷ extent 2 ∷ [];
}

file-Serves : Serves file 0 counter 4096
file-Serves = disk-Serves counter 4096 0 (omega arith)

-- A read that goes from one extent to the next.
read_at_offset_lem_example :
    let k = min 1500 (2048 - 1000) in
    read_at_offset file bytes_order stored image 1000 1500 ≡ (
      if ltb 2048 1000
      then err (offset_beyond_end 1000 2048)
      else ok (k, tabulate image_byte 1000 k))
read_at_offset_lem_example =
    read_at_offset_lem file bytes_order stored image_byte image 1000 1500 (omega arith)
      (omega arith) (omega arith, (omega arith, tt))
      (
        (
          extent 0,
          refl,
          flat-Serves file bytes_order stored whole_file counter 4096 0 1024 file-Serves
              (omega arith) (omega arith) (omega arith),
        ),
        (
          (
            extent 2,
            refl,
            flat-Serves file bytes_order stored whole_file counter 4096 1024 2048 file-Serves
                (omega arith) (omega arith) (omega arith),
          ),
          tt,
        ),
      )
      (omega arith)

read_storage-flat_example :
    read_storage file bytes_order stored (flat whole_file) 1024 700
    ≡ ok (tabulate image_byte 1024 700)
read_storage-flat_example =
    read_storage-flat file bytes_order stored whole_file counter 4096 1024 700 file-Serves
      (omega arith) (omega arith) (omega arith)

-- Grains of one sector: the first at sector 3, the second at sector 1.
abbrev two_grains : SparseStorage
two_grains = record {
  file = 0;
  grain_table = (0, 3) ∷ (1, 1) ∷ [];
  grain_size = 1;
  has_compressed_grain = false;
  zeroed_grain_table_entry = true;
}

second_grain : get two_grains.grain_table (600 / (1 * sector_size)) ≡ some 1
unfolding get
second_grain = refl

read_storage-sparse_example :
    read_storage file bytes_order stored (sparse two_grains) 600 1000
    ≡ ok (
        tabulate
          (sparse_byte two_grains counter)
          600
          (min (1 * sector_size - 600 % (1 * sector_size)) 1000))
read_storage-sparse_example =
    read_storage-sparse file bytes_order stored two_grains counter 4096 600 1000 1 file-Serves
      (omega arith) (omega arith) refl second_grain (omega arith)

-- Nothing is given yet, and then the two extents of a first image.
abbrev start : Covering
start = record { spans = []; uncovered = (0, 4) ∷ [] }

start-Accounts : Accounts 4 start
start-Accounts = record {
  disjoint = tt;
  gapped = (omega arith, omega arith, tt);
  accounts = λ x. ground arith;
}

add_spans_lem_example :
    (d : Covering) × (add_spans 0 ((0, 2) ∷ []) start ≡ some d)
    × Accounts 4 d
    × ((x : ℕ) → value_at d.spans x ≡ filled_all 0 ((0, 2) ∷ []) x (value_at start.spans x))
add_spans_lem_example = add_spans_lem 4 0 ((0, 2) ∷ []) start start-Accounts (omega arith, tt)

two_extents-AllNonEmpty : AllNonEmpty (extent 0 ∷ extent 2 ∷ [])
unfolding spans
two_extents-AllNonEmpty = ((omega arith, tt), ((omega arith, tt), tt))

add_extents_lem_example : Added 4 start (add_extents (extent 0 ∷ extent 2 ∷ []) 1 [] start)
add_extents_lem_example =
    add_extents_lem 4 (extent 0 ∷ extent 2 ∷ []) 1 [] start start-Accounts two_extents-AllNonEmpty

zero_fill-zeros_example :
    (r : List Extent × SpanMap (ℕ × ℕ)) × (zero_fill start.uncovered [] start.spans ≡ some r)
    × (r.0 ≡ [] ++ zeros start.uncovered)
    × Disjoint 0 r.1
    × ((x : ℕ) → value_at r.1 x ≡ first_of (value_at start.spans x) (span_at 0 start.uncovered x))
    × ((x : ℕ) → (ltb x 4 && is_none (value_at r.1 x)) ≡ false)
zero_fill-zeros_example = zero_fill-zeros 4 [] start start-Accounts (omega arith)
