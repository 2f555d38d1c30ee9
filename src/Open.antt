-- ===== src/Open.antt =====
-- `VmdkReader::open` and `handle_image` of src/vmdk_reader.rs: the images of a chain, from the one that
-- is opened to its parents.
pub mod Tiling
pub mod Owner
pub mod Chain
pub mod Filled
pub mod Whole
pub mod Handles
pub mod Kept
pub mod Described
pub mod Flat
pub mod Platform
use vmdk_rs.Base.{
  nat_eq, add64, mul64, ℕ, zero, suc, ◌+◌, ◌-◌, ◌*◌, ◌/◌, ◌%◌, List, [], ◌∷◌, ◌++◌, Option, none,
  some, Bool, true, false, not, ◌&&◌, ltb, ◌==◌, if◌then◌else◌, length,
}
use vmdk_rs.Base.Outcome.{Outcome, ok, err, panic, hang, ◌>>=◌, map_err}
use vmdk_rs.Crates.{ByteOrder}
use vmdk_rs.Text.{Text}
use vmdk_rs.Description.{ExtentDescription, extract_extent_descriptions}
use vmdk_rs.Descriptor.{read_descriptor_internal, read_descriptor_file, extract_parent_fn_hint}
use vmdk_rs.Io.{Bytes, Cache, CacheReadSeek, negsuc, from_start, from_end, seek}
use vmdk_rs.Storage.{sector_size, handle}
use vmdk_rs.Errors.{
  OpenErrorKind, OpenError, of_kind, of_descriptor, of_io, io_error, descriptor_error,
  parse_extent_description_error, bad_path, bad_parent_extent_descriptor_size,
}
use vmdk_rs.Metadata.{FileType, vmdk3, vmdk4, vmdk_se_sparse, Vmdk4Header, use_secondary}
use vmdk_rs.Header.{check_signature, vmdk4_from_reader}
use vmdk_rs.Extent.{Extent}
use vmdk_rs.Extents.{Host, read_extents}
use vmdk_rs.Spans.Map.{SpanMap, is_empty}
use vmdk_rs.Image.{Covering, add_extents, zero_fill, in_bytes}
use vmdk_rs.Reader.{VmdkReader}

-- A loop of the span maps that ran out of fuel.
abbrev pub in_time {ℓ κ} : {E : Type ℓ} {A : Type κ} → Option A → Outcome E A
in_time none = hang
in_time (some a) = ok a

module _ (cache : Cache) (order : ByteOrder) where
  -- The header that `handle_image` takes the place of the descriptor from.
  unfoldable pub descriptor_header :
      CacheReadSeek → Outcome OpenErrorKind (Vmdk4Header × CacheReadSeek)
  descriptor_header crs = do
    r ← map_err io_error (seek cache (from_start 0) crs)
    (h, r1) ← map_err io_error (vmdk4_from_reader cache order r)
    if use_secondary h
        then (do
          r2 ← map_err io_error (seek cache (from_end (negsuc 1023)) r1)
          map_err io_error (vmdk4_from_reader cache order r2))
        else ok (h, r1)

  -- `let descriptor = match ft …`; `fuel` is that of the loops over a descriptor file.
  unfoldable pub read_descriptor : ℕ → Option FileType → CacheReadSeek → Outcome OpenErrorKind Text
  read_descriptor fuel (some vmdk4) crs = do
    (h, r) ← descriptor_header crs
    if ltb 0 h.desc_offset
        then (do
          (text, r') ← map_err io_error (read_descriptor_internal cache h.desc_offset r)
          ok text)
        else ok []
  read_descriptor fuel none crs = do
    r ← map_err io_error (seek cache (from_start 0) crs)
    read_descriptor_file cache fuel r
  read_descriptor fuel (some vmdk3) crs = err (descriptor_error parse_extent_description_error)
  read_descriptor fuel (some vmdk_se_sparse) crs =
      err (descriptor_error parse_extent_description_error)

abbrev pub is_vmdk4 : Option FileType → Bool
is_vmdk4 (some vmdk4) = true
is_vmdk4 _ = false

abbrev pub descriptions :
    Option (List ExtentDescription) → Outcome OpenError (List ExtentDescription)
descriptions none = err (of_descriptor parse_extent_description_error)
descriptions (some eds) = ok eds

-- `img_extents.iter().fold(0, |acc, i| acc + i.sectors)`
unfoldable pub total_sectors : ℕ → List Extent → ℕ
total_sectors acc [] = acc
total_sectors acc (ex ∷ exs) = total_sectors (add64 acc ex.sectors) exs

-- `size.div_ceil(SECTOR_SIZE)`
abbrev pub sectors_of : ℕ → ℕ
sectors_of size = if size % sector_size == 0 then size / sector_size else size / sector_size + 1

-- `image_size` and the maps of `open`
abbrev pub first_covering : ℕ → Covering
first_covering size = record { spans = []; uncovered = (0, sectors_of size) ∷ [] }

-- The test of the size of an image against that of the first one, which sets the maps up.
unfoldable pub match_size : Text → Option ℕ → ℕ → Covering → Outcome OpenError Covering
match_size url none size c = ok (first_covering size)
match_size url (some s) size c =
    if not (s == size)
    then err (record { path = url; kind = bad_parent_extent_descriptor_size s size })
    else ok c

module _ (host : Host) (order : ByteOrder) (captures : Text → Option Text) where
  open host use {Url, Sources, join, as_text, source_for_url, add_source}

  abbrev pub parent_of : Url → Option Text → Outcome OpenError (Option Url)
  parent_of url none = ok none
  parent_of url (some p) = elim (join url p) [
    | none ↦ err (of_kind (bad_path p))
    | some u ↦ ok (some u)
  ]

  -- `handle_image`
  unfoldable pub handle_image :
      ℕ → Url → ℕ → Sources → Outcome OpenError (List Extent × (Option Url × Sources))
  handle_image fuel current_url idx sources = do
    src ← source_for_url current_url
    let sources' = add_source idx src sources
    let cache = host.cache sources'
    (ft, crs) ← map_err of_io (check_signature cache order (handle idx))
    descriptor ← map_err of_kind (read_descriptor cache order fuel ft crs)
    eds ← descriptions (extract_extent_descriptions descriptor)
    let singular = is_vmdk4 ft && length eds == 1
    (extents, sources'') ← read_extents host order current_url eds singular (suc idx) sources'
    parent_url ← parent_of current_url (extract_parent_fn_hint captures descriptor)
    ok (extents, (parent_url, sources''))

  -- What the loop over the images ends with: the size, the extents, the maps, and the sources.
  abbrev pub Chain : Type 0
  Chain = ℕ × (List Extent × (Covering × Sources))

  -- `if uncovered.is_empty() { break }`, `let Some(parent_url) = parent_url else { break }`: `again` is
  -- the next round.
  abbrev pub next_image :
      Bool → Option Url → Chain → (Url → Outcome OpenError Chain) → Outcome OpenError Chain
  next_image true parent_url chain again = ok chain
  next_image false none chain again = ok chain
  next_image false (some url) chain again = again url

  -- `'img_loop`, on fuel for the images of the chain; `steps` is the fuel within an image.
  unfoldable pub img_loop :
      ℕ → ℕ → Url → ℕ → Option ℕ → List Extent → Covering → Sources → Outcome OpenError Chain
  img_loop steps zero current_url idx image_size extents c sources = hang
  img_loop steps (suc fuel) current_url idx image_size extents c sources = do
    (img_extents, (parent_url, sources')) ← handle_image steps current_url idx sources
    let size = mul64 (total_sectors 0 img_extents) sector_size
    c' ← match_size (as_text current_url) image_size size c
    (stop, (idx', (extents', c''))) ← in_time (add_extents img_extents (suc idx) extents c')
    next_image stop parent_url (size, (extents', (c'', sources')))
        (λ url. img_loop steps fuel url idx' (some size) extents' c'' sources')

  -- `open`, with its URL and with the cache that has been set up for it: the reader, and the sources of
  -- its cache.
  unfoldable pub open_url : ℕ → ℕ → Url → Sources → Outcome OpenError (VmdkReader × Sources)
  open_url steps fuel url sources = do
    (size, (extents, (c, sources'))) ←
        img_loop steps fuel url 0 none [] (record { spans = []; uncovered = [] }) sources
    (extents', spans) ← in_time (zero_fill c.uncovered extents c.spans)
    ok (record { image_size = size; spans = in_bytes spans; extents = extents' }, sources')
