-- ===== src/Examples/Locations.antt =====
-- A platform with a descriptor file and a flat file, and an image that is opened on it.
use vmdk_rs.Base.{
  replicate, ℕ, zero, suc, ◌-◌, ◌*◌, ◌%◌, ◌<◌, ◌≡◌, refl, true, false, List, [], ◌∷◌, Option, none,
  some, ltb, if◌then◌else◌, min, tabulate, arith, ap, Bool,
}
use vmdk_rs.Base.Outcome.{ok, err, ok_injective}
use vmdk_rs.Io.{IoError, Cache, source_failed}
use vmdk_rs.Descriptor.{extract_parent_fn_hint, first_capture}
use vmdk_rs.Text.Utf8.{IsAscii}
use vmdk_rs.Errors.{of_kind, unsupported_scheme}
use vmdk_rs.Text.{Text, codes, text_eq}
use vmdk_rs.Sources.{BytesSource, file_source}
use vmdk_rs.Sources.Read.{HoldsBytes, file_source-HoldsBytes}
use vmdk_rs.Location.{
  Platform, relative_url_without_base, source_for_url, path_or_url_to_url, open_file,
}
use vmdk_rs.Location.Holds.{IsHonest, Named, source_for_url-HoldsBytes}
use vmdk_rs.Location.Reports.{Reports, source_for_url-Reports}
use vmdk_rs.Description.{
  rw_access, description_of, extract_extent_descriptions, extract_lines, inner_of, is_extent_line,
  parse_access_mode, parse_extent_kind, parse_line, parse_offset, parse_target,
}
use vmdk_rs.Text.{
  is_whitespace, lines, parse_digits, parse_u64, rsplit_once, split_once, strip_prefix, trim_end,
  trim_start,
}
use vmdk_rs.Reader.{read_at_offset}
use vmdk_rs.Storage.{sector_size, offset_beyond_end}
use vmdk_rs.Open.Platform.{open_image}
use vmdk_rs.Open.Platform.Flat.{flat_contents, IsFile, flat_sources, open_image-flat}
use vmdk_rs.Foyer.Setup.{
  History, FoyerCache, new, set_up, with_default_cache, device_for, foyer_cache,
}
use vmdk_rs.Foyer.Fresh.{Reached, at_start, after_read}
use vmdk_rs.Foyer.{foyer_read}
use vmdk_rs.Foyer.Coherent.{Contents}
use vmdk_rs.Examples.Caches.{last_chunk, last_chunk-IsCache, builder, empty-IsFresh}
use vmdk_rs.Open.Flat.{flat_description, flat_reader}
use vmdk_rs.Examples.Disk.{bytes_order, stored, bytes_of}

abbrev descriptor : Text
descriptor = codes "# Disk DescriptorFile\nRW 1 FLAT \"/a\" 0\n"

abbrev text_byte : ℕ → ℕ
text_byte = bytes_of descriptor

abbrev text_len : ℕ
text_len = 39

abbrev flat_byte : ℕ → ℕ
flat_byte x = x % 251

abbrev is_descriptor : Text → Bool
is_descriptor path = text_eq path (codes "/d.vmdk")

-- Every path but that of the descriptor names the flat file.
abbrev platform : Platform
platform = record {
  is_windows = false;
  Url = Text;
  parse = λ p. relative_url_without_base;
  from_file_path = λ p. some p;
  join = λ url name. some name;
  same = text_eq;
  as_text = λ url. url;
  scheme = λ url. if text_eq url (codes "x") then codes "ftp" else codes "file";
  path = λ url. url;
  host_str = λ url. none;
  canonicalize = λ p. some p;
  file_len = λ path. ok (if is_descriptor path then text_len else 512);
  files = λ path.
      some (if is_descriptor path then tabulate text_byte 0 text_len else tabulate flat_byte 0 512);
  Bucket = Unit {0};
  bucket = λ name. ok tt;
  head_object = λ b key. err source_failed;
  get_object_range = λ b key beg last. err source_failed;
}

if_tabulate :
    (b : Bool) (f g : ℕ → ℕ) (m n len : ℕ)
    → (if b then m else n) ≡ len
    → some (if b then tabulate f 0 m else tabulate g 0 n)
      ≡ some (tabulate (if b then f else g) 0 len)
if_tabulate true f g m n len e = ap (λ k. some (tabulate f 0 k)) e
if_tabulate false f g m n len e = ap (λ k. some (tabulate g 0 k)) e

platform-IsHonest : IsHonest platform
platform-IsHonest = record {
  file_byte = λ path. if is_descriptor path then text_byte else flat_byte;
  file_holds = λ path len e.
      if_tabulate (is_descriptor path) text_byte flat_byte text_len 512 len
        (ok_injective {E = IoError} (if is_descriptor path then text_len else 512) len e);
  object_byte = λ b key x. 0;
  object_holds = λ b key len code e. cc;
}

abbrev flat_file : BytesSource
flat_file = file_source platform.files (codes "/a") 512

abbrev descriptor_file : BytesSource
descriptor_file = file_source platform.files (codes "/d.vmdk") text_len

opens_flat : source_for_url platform (codes "/a") ≡ ok flat_file
unfolding source_for_url open_file text_eq
opens_flat = refl

opens_descriptor : source_for_url platform (codes "/d.vmdk") ≡ ok descriptor_file
unfolding source_for_url open_file text_eq
opens_descriptor = refl

source_for_url-HoldsBytes_example : Named platform platform-IsHonest (codes "/a") flat_file
source_for_url-HoldsBytes_example =
    source_for_url-HoldsBytes platform platform-IsHonest (codes "/a") flat_file opens_flat

unsupported : source_for_url platform (codes "x") ≡ err (of_kind (unsupported_scheme (codes "x")))
unfolding source_for_url text_eq
unsupported = refl

source_for_url-Reports_example :
    Reports platform (codes "x") (of_kind (unsupported_scheme (codes "x")))
source_for_url-Reports_example =
    source_for_url-Reports platform (codes "x") (of_kind (unsupported_scheme (codes "x")))
      unsupported

flat_file-HoldsBytes : HoldsBytes flat_file flat_byte 512
unfolding text_eq
flat_file-HoldsBytes = file_source-HoldsBytes platform.files (codes "/a") flat_byte 512 refl

descriptor_file-HoldsBytes : HoldsBytes descriptor_file text_byte text_len
unfolding text_eq
descriptor_file-HoldsBytes =
    file_source-HoldsBytes platform.files (codes "/d.vmdk") text_byte text_len refl

abbrev opened : List BytesSource
opened = descriptor_file ∷ flat_file ∷ []

-- The image is opened, and its disk is the flat file.
abbrev set_up_cache : FoyerCache last_chunk builder
set_up_cache = new last_chunk builder none tt 1048576 0

abbrev no_hint : Text → Option Text
no_hint line = none

bytes_of-IsAscii : (bs : Text) → IsAscii bs → (i : ℕ) → bytes_of bs i < 128
bytes_of-IsAscii [] h i = omega arith
bytes_of-IsAscii (b ∷ bs) h zero = h.0
bytes_of-IsAscii (b ∷ bs) h (suc i) = bytes_of-IsAscii bs h.1 i

described :
    extract_extent_descriptions (tabulate text_byte 0 text_len)
    ≡ some (flat_description rw_access 1 (codes "/a") ∷ [])
unfolding lines parse_digits parse_u64 rsplit_once split_once strip_prefix trim_end trim_start
    text_eq is_whitespace description_of extract_extent_descriptions extract_lines inner_of
    is_extent_line parse_access_mode parse_extent_kind parse_line parse_offset parse_target
described = refl

abbrev rest : Text
rest = codes "RW 1 FLAT \"/a\" 0\n"

ready : set_up last_chunk builder (ok tt) (codes "file") ≡ ok set_up_cache
unfolding set_up with_default_cache device_for text_eq
ready = refl

descriptor-IsFile : IsFile platform (codes "/d.vmdk") text_byte text_len
unfolding text_eq
descriptor-IsFile = record { is_file = refl; measured = refl; holds = refl }

flat-IsFile : IsFile platform (codes "/a") flat_byte 512
unfolding text_eq
flat-IsFile = record { is_file = refl; measured = refl; holds = refl }

abbrev image_contents : Contents
image_contents = flat_contents text_byte text_len flat_byte 512

-- What is left by a read of the descriptor, and then by one of the flat file.
abbrev after_text : last_chunk.Store
after_text = (foyer_read last_chunk 1048576 opened 0 0 (replicate 8 0) none).1

abbrev after_flat : last_chunk.Store
after_flat = (foyer_read last_chunk 1048576 opened 1 100 (replicate 8 0) after_text).1

abbrev Left : last_chunk.Store → Type 0
Left s = Reached last_chunk last_chunk-IsCache builder image_contents set_up_cache s

after_text-Left : Left after_text
after_text-Left =
    after_read none opened 0 0 8 descriptor_file at_start refl descriptor_file-HoldsBytes
      (omega arith) (omega arith)

after_flat-Left : Left after_flat
after_flat-Left =
    after_read after_text opened 1 100 8 flat_file after_text-Left refl flat_file-HoldsBytes
      (omega arith) (omega arith)

abbrev opening : History last_chunk builder
opening i off n = after_text

abbrev later : History last_chunk builder
later i off n = after_flat

abbrev image_cache : Cache
image_cache =
    foyer_cache last_chunk builder set_up_cache later
      (flat_sources platform (codes "/d.vmdk") text_len (codes "/a") 512)

open_image-flat_example :
    (open_image platform last_chunk builder
        (ok tt)
        bytes_order
        no_hint
        opening
        later
        40
        1
        (codes "/d.vmdk")
      ≡ ok (flat_reader 1, image_cache))
    × (let j = min 100 (1 * sector_size - 500) in
        read_at_offset image_cache bytes_order stored (flat_reader 1) 500 100 ≡ (
          if ltb (1 * sector_size) 500
          then err (offset_beyond_end 500 (1 * sector_size))
          else ok (j, tabulate flat_byte 500 j)))
unfolding path_or_url_to_url extract_parent_fn_hint first_capture lines text_eq
open_image-flat_example =
    open_image-flat platform last_chunk last_chunk-IsCache builder (ok tt) bytes_order no_hint
      stored (codes "/d.vmdk") (codes "/d.vmdk") (codes "/a") set_up_cache rw_access 1 (codes "/a")
      40 0 text_len 512 text_byte flat_byte rest 500 100 opening later refl ready empty-IsFresh
      (λ i off m. after_text-Left) (λ i off m. after_flat-Left) descriptor-IsFile (omega arith)
      (λ i h. bytes_of-IsAscii descriptor (omega arith) i) (omega arith) refl described refl refl
      flat-IsFile (omega arith) (omega arith) (omega arith) (omega arith)
