-- ===== src/Open/Platform/Flat.antt =====
-- From the files of a flat image to what `VmdkReader::open` and `read_at_offset` of src/vmdk_reader.rs make
-- of them.
use vmdk_rs.Base.{
  u64_mod, ℕ, zero, suc, ◌+◌, ◌-◌, ◌*◌, ◌≤◌, ◌<◌, ◌≡◌, refl, true, List, [], ◌∷◌, Option, none,
  some, min, ltb, if◌then◌else◌, tabulate,
}
use vmdk_rs.Base.Outcome.{Outcome, ok, err}
use vmdk_rs.Crates.{ByteOrder, Deflate}
use vmdk_rs.Text.{Text, codes, text_eq}
use vmdk_rs.Io.{IoError}
use vmdk_rs.Io.Exact.{Serves, max_size}
use vmdk_rs.Errors.{OpenError}
use vmdk_rs.Description.{AccessMode, extract_extent_descriptions}
use vmdk_rs.Descriptor.{extract_parent_fn_hint}
use vmdk_rs.Storage.{sector_size, offset_beyond_end}
use vmdk_rs.Sources.{BytesSource, file_source, add_source}
use vmdk_rs.Sources.Read.{file_source-HoldsBytes, add_source_lem}
use vmdk_rs.Foyer.{HybridCache}
use vmdk_rs.Foyer.Coherent.{IsCache, Contents}
use vmdk_rs.Foyer.Setup.{Builder, FoyerCache, History, set_up, foyer_cache}
use vmdk_rs.Foyer.Fresh.{chunk_size, IsFresh, Reached, set_up_ok, foyer_cache-Serves}
use vmdk_rs.Location.{Platform, file_path, open_file, source_for_url, path_or_url_to_url, host_on}
use vmdk_rs.Reader.{read_at_offset}
use vmdk_rs.Open.Described.{after_marker}
use vmdk_rs.Open.Flat.{flat_description, flat_reader, open_url-flat}
use vmdk_rs.Open.Platform.{open_image}

-- The URL names a file of `len` bytes.
pub record IsFile (platform : Platform) (url : platform.Url) (byte : ℕ → ℕ) (len : ℕ) : Type 0 where
  pub is_file : text_eq (platform.scheme url) (codes "file") ≡ true
  pub measured : platform.file_len (file_path platform url) ≡ ok len
  pub holds : platform.files (file_path platform url) ≡ some (tabulate byte 0 len)

module _ (platform : Platform) where
  -- The source of the file that a URL names.
  abbrev pub source_of : platform.Url → ℕ → BytesSource
  source_of url len = file_source platform.files (file_path platform url) len

  source_of-opens :
      (url : platform.Url) (byte : ℕ → ℕ) (len : ℕ)
      → IsFile platform url byte len
      → ◌≡◌ {A = Outcome OpenError BytesSource}
          (source_for_url platform url)
          (ok (source_of url len))
  unfolding source_for_url open_file
  source_of-opens url byte len f = rw f.is_file (rw f.measured refl)

  -- The sources of the image: the descriptor, and the flat file.
  abbrev pub flat_sources : platform.Url → ℕ → platform.Url → ℕ → List BytesSource
  flat_sources url len u size =
      add_source 1 (source_of u size) (add_source 0 (source_of url len) [])

-- What the sources of the image hold: the descriptor, and the flat file.
abbrev byte_in : (ℕ → ℕ) → (ℕ → ℕ) → ℕ → ℕ → ℕ
byte_in byte disk zero = byte
byte_in byte disk (suc idx) = disk

abbrev size_in : ℕ → ℕ → ℕ → ℕ
size_in len size zero = len
size_in len size (suc idx) = size

abbrev pub flat_contents : (ℕ → ℕ) → ℕ → (ℕ → ℕ) → ℕ → Contents
flat_contents byte len disk size = record { byte = byte_in byte disk; size = size_in len size }

module _ (platform : Platform) (foyer : HybridCache) (laws : IsCache foyer)
    (builder : Builder foyer) (runtime : Outcome IoError (Unit {0})) (order : ByteOrder)
    (captures : Text → Option Text) (deflate : Deflate) where
  open platform use {Url, scheme, join}

  -- Whatever earlier reads have left in the cache, a file is served from the index at which its source has
  -- been added.
  file-Serves :
      (contents : Contents) (c : FoyerCache foyer builder) (held : History foyer builder)
      (sources : List BytesSource) (idx : ℕ) (url : Url)
      → c.chlen ≡ chunk_size
      → IsFresh foyer laws builder c.cache
      → ((i off n : ℕ) → Reached foyer laws builder contents c (held i off n))
      → IsFile platform url (contents.byte idx) (contents.size idx)
      → contents.size idx < max_size
      → Serves
          (foyer_cache foyer builder c held
            (add_source idx (source_of platform url (contents.size idx)) sources))
          idx
          (contents.byte idx)
          (contents.size idx)
  file-Serves contents c held sources idx url e fresh reached f w =
      let byte = contents.byte idx in
      let len = contents.size idx in
      let src = source_of platform url len in
      foyer_cache-Serves foyer laws builder contents c held (add_source idx src sources) idx src e
        fresh reached (add_source_lem idx 0 src sources).0
        (file_source-HoldsBytes platform.files (file_path platform url) byte len f.holds) w

  -- The path or URL of a descriptor file of ASCII bytes that starts with the line of the marker, names no
  -- parent, and has one extent, of `n` sectors of a flat file from its start on, where `n` is not 0 and
  -- the file that the descriptor names holds that many sectors; each file has less than 2 ^ 63 bytes, the
  -- cache that is set up holds nothing yet, and `offset + k` is a `u64`: whatever earlier reads of the two
  -- files have left in the cache at each read, `open` returns a reader of `n` sectors, and `read_at_offset`
  -- on it returns the bytes of the flat file from `offset` on, as many as the buffer of `k` bytes takes or
  -- the image still holds; an offset behind the end of the image is the error that says so.
  pub open_image-flat :
      (image_path : Text) (url u : Url) (c : FoyerCache foyer builder) (access : AccessMode) (n : ℕ)
      (name : Text) (steps fuel len size : ℕ) (byte disk : ℕ → ℕ) (rest : Text) (offset k : ℕ)
      (opening later : History foyer builder)
      → let text = tabulate byte 0 len in
        let contents = flat_contents byte len disk size in
        path_or_url_to_url platform image_path ≡ some url
        → set_up foyer builder runtime (scheme url) ≡ ok c
        → IsFresh foyer laws builder c.cache
        → ((i off m : ℕ) → Reached foyer laws builder contents c (opening i off m))
        → ((i off m : ℕ) → Reached foyer laws builder contents c (later i off m))
        → IsFile platform url byte len
        → len < max_size
        → ((i : ℕ) → i < len → byte i < 128)
        → len < steps
        → text ≡ after_marker rest
        → extract_extent_descriptions text ≡ some (flat_description access n name ∷ [])
        → extract_parent_fn_hint captures text ≡ none
        → join url name ≡ some u
        → IsFile platform u disk size
        → size < max_size
        → 0 < n
        → n * sector_size ≤ size
        → offset + k < u64_mod
        → let cache = foyer_cache foyer builder c later (flat_sources platform url len u size) in
          let j = min k (n * sector_size - offset) in
          (open_image platform foyer builder runtime order captures opening later steps
              (suc fuel)
              image_path
            ≡ ok (flat_reader n, cache))
          × (read_at_offset cache order deflate (flat_reader n) offset k ≡ (
              if ltb (n * sector_size) offset
              then err (offset_beyond_end offset (n * sector_size))
              else ok (j, tabulate disk offset j)))
  unfolding open_image
  open_image-flat image_path url u c access n name steps fuel len size byte disk rest offset k
        opening later located ready fresh before after file w ascii enough text described last joins
        flat_file v p l h =
      let (none_yet, chunks) = set_up_ok foyer laws builder runtime (scheme url) c ready in
      let contents = flat_contents byte len disk size in
      let opened =
        open_url-flat (host_on platform (foyer_cache foyer builder c opening)) order captures
          deflate url u (source_of platform url len) (source_of platform u size) access n name []
          steps fuel len size byte disk rest (source_of-opens platform url byte len file)
          (file-Serves contents c opening [] 0 url chunks fresh before file w) ascii enough text
          described last joins (source_of-opens platform u disk size flat_file)
          (file-Serves contents c opening (add_source 0 (source_of platform url len) []) 1 u chunks
            fresh before flat_file v)
          p l in
      let reads =
        open_url-flat (host_on platform (foyer_cache foyer builder c later)) order captures deflate
          url u (source_of platform url len) (source_of platform u size) access n name [] steps fuel
          len size byte disk rest (source_of-opens platform url byte len file)
          (file-Serves contents c later [] 0 url chunks fresh after file w) ascii enough text
          described last joins (source_of-opens platform u disk size flat_file)
          (file-Serves contents c later (add_source 0 (source_of platform url len) []) 1 u chunks
            fresh after flat_file v)
          p l in
      (rw located (rw ready (rw none_yet (rw opened.0 refl))), reads.1 offset k h)
