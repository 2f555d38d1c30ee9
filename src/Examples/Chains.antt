-- ===== src/Examples/Chains.antt =====
-- An image of one extent, opened.
use vmdk_rs.Base.{
  true, ℕ, suc, ◌-◌, ◌≡◌, refl, ◌*◌, [], ◌∷◌, Option, none, some, ltb, if◌then◌else◌, min, tabulate,
  get_elem?, arith,
}
use vmdk_rs.Base.Outcome.{ok, err}
use vmdk_rs.Text.{Text, codes}
use vmdk_rs.Storage.{sector_size, flat, offset_beyond_end}
use vmdk_rs.Extent.{Extent, spans, has_file}
use vmdk_rs.Extents.{Host}
use vmdk_rs.Reader.{VmdkReader, read_at_offset}
use vmdk_rs.Reader.ReadAt.{Backed}
use vmdk_rs.Spans.Map.{SpanMap, floor, above, insert, remove}
use vmdk_rs.Open.{img_loop, match_size, total_sectors, read_descriptor, handle_image, open_url}
use vmdk_rs.Open.Owner.{ExtentsWithin}
use vmdk_rs.Open.Whole.{Whole, last_sector, open_url-Whole, open_url-reads}
use vmdk_rs.Metadata.{signature_to_file_type, starts_with}
use vmdk_rs.Header.{check_signature}
use vmdk_rs.Io.{read_exact, read_exact_loop, read, seek}
use vmdk_rs.Descriptor.{
  read_descriptor_file, read_descriptor_loop, read_line, read_to_string, match_line,
  extract_parent_fn_hint, first_capture,
}
use vmdk_rs.Buffered.{read_until, read_to_end, fill_buf, cut}
use vmdk_rs.Text.{
  text_eq, is_whitespace, lines, parse_digits, parse_u64, rsplit_once, split_once, strip_prefix,
  trim_end, trim_start,
}
use vmdk_rs.Text.Utf8.{from_utf8, decode_loop, decode_one}
use vmdk_rs.Description.{
  description_of, extract_extent_descriptions, extract_lines, filename_of, inner_of, is_extent_line,
  parse_access_mode, parse_extent_kind, parse_line, parse_offset, parse_target,
}
use vmdk_rs.Extents.{read_extent, read_extents, read_extents_loop}
use vmdk_rs.Open.Handles.{HandlesFrom, KeepsOthers, Kept}
use vmdk_rs.Open.Kept.{img_loop-Kept}
use vmdk_rs.Image.{Covering, add_extents, add_spans, zero_fill, in_bytes}
use vmdk_rs.Spans.Insert.{insert_span, insert_loop, insert_step, insert_gap}
use vmdk_rs.Spans.Remove.{remove_span, remove_loop, remove_step, remove_next}
use vmdk_rs.Reader.Backs.{flat-Serves}
use vmdk_rs.Examples.Disk.{disk, disk-Serves, bytes_order, stored}

-- The file is its own descriptor and its own flat extent; it ends with line feeds.
abbrev descriptor : Text
descriptor = codes "# Disk DescriptorFile\nRW 1 FLAT \"a\" 0\n"

abbrev pub file_byte : ℕ → ℕ
file_byte x = elim (get_elem? descriptor x) [ none ↦ 10 | some b ↦ b ]

abbrev pub host : Host
host = record {
  Url = Unit {0};
  Source = Unit {0};
  Sources = Unit {0};
  join = λ url name. some tt;
  same = λ a b. true;
  as_text = λ url. [];
  source_for_url = λ url. ok tt;
  add_source = λ idx src sources. tt;
  cache = λ sources. disk file_byte 512;
}

abbrev no_hint : Text → Option Text
no_hint line = none

abbrev extent : ℕ → Extent
extent idx = record {
  start_sector = 0;
  sectors = 1;
  storage = flat (record { file = suc idx; offset = 0 });
}

handle_image_run :
    (url : Unit {0}) (idx : ℕ) (sources : Unit {0})
    → handle_image host bytes_order no_hint 600 url idx sources ≡ ok (extent idx ∷ [], (none, tt))
unfolding handle_image check_signature signature_to_file_type starts_with read_exact read_exact_loop
    read seek read_descriptor read_descriptor_file read_descriptor_loop read_line read_to_string
    match_line extract_parent_fn_hint first_capture read_until read_to_end fill_buf cut text_eq
    is_whitespace lines parse_digits parse_u64 rsplit_once split_once strip_prefix trim_end
    trim_start from_utf8 decode_loop decode_one description_of extract_extent_descriptions
    extract_lines filename_of inner_of is_extent_line parse_access_mode parse_extent_kind parse_line
    parse_offset parse_target read_extent read_extents read_extents_loop
handle_image_run url idx sources = refl

abbrev pub image : VmdkReader
image = record { image_size = 512; spans = (0, (512, 0)) ∷ []; extents = extent 0 ∷ [] }

open_run : open_url host bytes_order no_hint 600 1 tt tt ≡ ok (image, tt)
unfolding open_url img_loop match_size total_sectors add_extents add_spans spans zero_fill in_bytes
    insert_span insert_loop insert_step insert_gap remove_span remove_loop remove_step remove_next
    floor above insert remove has_file
open_run = rw (handle_image_run tt 0 tt) refl

extent-ExtentsWithin : (idx : ℕ) → ExtentsWithin last_sector (extent idx ∷ [])
unfolding spans
extent-ExtentsWithin idx = ((omega arith, omega arith, tt), tt)

open_url-Whole_example : (m : SpanMap (ℕ × ℕ)) × Whole image m
open_url-Whole_example =
    open_url-Whole host bytes_order no_hint 600 1 tt tt (image, tt) open_run (omega arith)
      (extent-ExtentsWithin 0)

abbrev pub image_byte : ℕ → ℕ
image_byte x = file_byte (x - 0 * sector_size)

pub image-Backed :
    Backed (disk file_byte 512) bytes_order stored image_byte image.extents image.spans
image-Backed = (
  (
    extent 0,
    refl,
    flat-Serves (disk file_byte 512) bytes_order stored (record { file = 1; offset = 0 }) file_byte
        512 0 512 (disk-Serves file_byte 512 1 (omega arith)) (omega arith) (omega arith)
        (omega arith),
  ),
  tt,
)

open_url-reads_example :
    let k = min 100 (512 - 500) in
    read_at_offset (disk file_byte 512) bytes_order stored image 500 100
    ≡ (if ltb 512 500 then err (offset_beyond_end 500 512) else ok (k, tabulate image_byte 500 k))
open_url-reads_example =
    open_url-reads host bytes_order no_hint 600 stored image_byte 1 tt tt (image, tt) 500 100
      open_run (omega arith) (extent-ExtentsWithin 0) image-Backed (omega arith)

abbrev filled_in : Covering
filled_in = record { spans = (0, (1, 0)) ∷ []; uncovered = [] }

chain_run :
    img_loop host bytes_order no_hint 600 1 tt 0 none [] (record { spans = []; uncovered = [] }) tt
    ≡ ok (512, (extent 0 ∷ [], (filled_in, tt)))
unfolding img_loop match_size total_sectors add_extents add_spans spans insert_span insert_loop
    insert_step insert_gap remove_span remove_loop remove_step remove_next floor above insert remove
    has_file
chain_run = rw (handle_image_run tt 0 tt) refl

-- Every source is the same file.
abbrev host-KeepsOthers : KeepsOthers host
host-KeepsOthers i j src sources byte size d s = s

img_loop-Kept_example :
    (hi : ℕ) × HandlesFrom 0 hi (extent 0 ∷ []) × Kept host bytes_order host-KeepsOthers 0 tt tt
img_loop-Kept_example =
    img_loop-Kept host bytes_order no_hint host-KeepsOthers 600 1 tt 0 none []
      (record { spans = []; uncovered = [] }) tt (512, (extent 0 ∷ [], (filled_in, tt)))
      (omega arith) chain_run
