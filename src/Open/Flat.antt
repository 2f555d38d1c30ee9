-- ===== src/Open/Flat.antt =====
-- `VmdkReader::open` of src/vmdk_reader.rs on the simplest image: a descriptor file that names one flat
-- extent and no parent.
use vmdk_rs.Base.{
  nat_eq, u64_mod, add64, mul64, ℕ, suc, ◌+◌, ◌-◌, ◌*◌, ◌/◌, ◌%◌, ◌≤◌, ◌<◌, ◌≡◌, refl, ap, subst,
  fun_ext, false, [], ◌∷◌, Option, none, some, tabulate, min, ltb, if◌then◌else◌, arith,
}
use vmdk_rs.Base.Outcome.{ok, err}
use vmdk_rs.Text.{Text}
use vmdk_rs.Crates.{ByteOrder, Deflate}
use vmdk_rs.Io.Exact.{Serves}
use vmdk_rs.Description.{
  AccessMode, ExtentDescription, ExtentDescriptionInner, extract_extent_descriptions, filename_of,
}
use vmdk_rs.Descriptor.{extract_parent_fn_hint}
use vmdk_rs.Storage.{sector_size, FlatStorage, flat, offset_beyond_end}
use vmdk_rs.Extent.{Extent, spans, has_file}
use vmdk_rs.Image.{add_extents, add_spans, zero_fill, in_bytes}
use vmdk_rs.Extents.{Host, read_extents, read_extents_loop, read_extent}
use vmdk_rs.Reader.{VmdkReader, read_at_offset}
use vmdk_rs.Reader.ReadAt.{Backed, ServesSpan}
use vmdk_rs.Reader.Backs.{flat-Serves}
use vmdk_rs.Reader.Locate.{read_at_offset_lem}
use vmdk_rs.Open.Described.{after_marker, check_signature-descriptor, read_descriptor-file}
use vmdk_rs.Open.{handle_image, img_loop, open_url, match_size, total_sectors}
use vmdk_rs.Spans.Map.{floor, above, insert, remove}
use vmdk_rs.Spans.Insert.{insert_span, insert_loop, insert_step, insert_gap}
use vmdk_rs.Spans.Remove.{remove_span, remove_loop, remove_step, remove_next}

insert_first : (n : ℕ) → 0 < n → insert_span {T = ℕ} 0 n 0 [] ≡ some ((0, (n, 0)) ∷ [])
unfolding insert_span insert_loop insert_step insert_gap floor above insert
insert_first n h = refl

remove_all : (n : ℕ) → 0 < n → remove_span 0 n ((0, n) ∷ []) ≡ some []
unfolding remove_span remove_loop remove_step remove_next floor above insert remove
remove_all n h = ground arith

abbrev pub flat_description : AccessMode → ℕ → Text → ExtentDescription
flat_description access n name = record {
  access_mode = access;
  sectors = n;
  kind = ExtentDescriptionInner.flat name 0;
}

-- The extent over source 1.
abbrev pub flat_extent : ℕ → Extent
flat_extent n = record {
  start_sector = 0;
  sectors = n;
  storage = flat (record { file = 1; offset = 0 });
}

-- The reader of an image of `n` sectors in one flat extent.
abbrev pub flat_reader : ℕ → VmdkReader
flat_reader n = record {
  image_size = n * sector_size;
  spans = (0, (n * sector_size, 0)) ∷ [];
  extents = flat_extent n ∷ [];
}

module _ (host : Host) (order : ByteOrder) (captures : Text → Option Text) where
  open host use {Url, Source, Sources, join, source_for_url, add_source}

  read_extents-flat :
      (url u : Url) (src : Source) (access : AccessMode) (n : ℕ) (name : Text) (sources : Sources)
      → join url name ≡ some u
      → source_for_url u ≡ ok src
      → read_extents host order url (flat_description access n name ∷ []) false 1 sources
        ≡ ok (flat_extent n ∷ [], add_source 1 src sources)
  unfolding read_extents read_extents_loop read_extent filename_of
  read_extents-flat url u src access n name sources e f = rw e (rw f refl)

  handle_image-flat :
      (url u : Url) (src file : Source) (access : AccessMode) (n : ℕ) (name : Text)
      (sources : Sources) (steps len : ℕ) (byte : ℕ → ℕ) (rest : Text)
      → let sources1 = add_source 0 src sources in
        let text = tabulate byte 0 len in
        source_for_url url ≡ ok src
        → Serves (host.cache sources1) 0 byte len
        → ((i : ℕ) → i < len → byte i < 128)
        → len < steps
        → text ≡ after_marker rest
        → extract_extent_descriptions text ≡ some (flat_description access n name ∷ [])
        → extract_parent_fn_hint captures text ≡ none
        → join url name ≡ some u
        → source_for_url u ≡ ok file
        → handle_image host order captures steps url 0 sources
          ≡ ok (flat_extent n ∷ [], (none, add_source 1 file sources1))
  unfolding handle_image
  handle_image-flat url u src file access n name sources steps len byte rest opens serves ascii
        enough text described last joins found =
      let sources1 = add_source 0 src sources in
      let c = host.cache sources1 in
      let sig = check_signature-descriptor c order byte len serves ascii rest text in
      let desc = read_descriptor-file c order byte len serves ascii rest text steps enough in
      let ext = read_extents-flat url u file access n name sources1 joins found in
      rw opens (rw sig (rw desc (rw described (rw ext (rw last refl)))))

  -- One image without a parent, and one flat extent in it.
  open_url-one :
      (url : Url) (sources sources' : Sources) (steps fuel n : ℕ)
      → handle_image host order captures steps url 0 sources
        ≡ ok (flat_extent n ∷ [], (none, sources'))
      → 0 < n
      → n * sector_size < u64_mod
      → open_url host order captures steps (suc fuel) url sources ≡ ok (flat_reader n, sources')
  unfolding open_url img_loop match_size total_sectors add_extents add_spans spans zero_fill
      in_bytes has_file
  open_url-one url sources sources' steps fuel n e p w =
      let a : add64 0 n ≡ n = omega arith in
      let m : mul64 n sector_size ≡ n * sector_size = omega arith in
      let z : mul64 0 sector_size ≡ 0 = refl in
      let s : n * sector_size % sector_size ≡ 0 = omega arith in
      let d : n * sector_size / sector_size ≡ n = omega arith in
      rw e (rw (a, m, s, d) (rw (insert_first n p) (rw (remove_all n p) (rw m refl))))

  flat_reader-Backed :
      (deflate : Deflate) (sources : Sources) (disk : ℕ → ℕ) (size n : ℕ)
      → Serves (host.cache sources) 1 disk size
      → n * sector_size ≤ size
      → Backed (host.cache sources) order deflate disk (flat_extent n ∷ []) (flat_reader n).spans
  flat_reader-Backed deflate sources disk size n serves l =
      let s : FlatStorage = record { file = 1; offset = 0 } in
      let z : (λ x. disk (x - 0 * sector_size)) ≡ disk = fun_ext (λ x. ap disk (omega arith)) in
      let w = serves.fits in
      (
        (
          flat_extent n,
          refl,
          subst (λ b. ServesSpan (host.cache sources) order deflate b 0 (n * sector_size) (flat s))
              z
              (flat-Serves (host.cache sources) order deflate s disk size 0 (n * sector_size) serves
                (omega arith) (omega arith) (omega arith)),
        ),
        tt,
      )

  -- A descriptor file of ASCII bytes that is served, starts with the line of the marker, names no parent,
  -- and has one extent, of `n` sectors of a flat file from its start on, where `n` is not 0, and a file
  -- that is served and holds that many sectors, at the place that the descriptor names: `open` returns a
  -- reader of `n` sectors, and where `offset + k` is a `u64`, `read_at_offset` on it returns the bytes of
  -- the flat file from `offset` on, as many as the buffer of `k` bytes takes or the image still holds; an
  -- offset behind the end of the image is the error that says so.
  pub open_url-flat :
      (deflate : Deflate) (url u : Url) (src file : Source) (access : AccessMode) (n : ℕ)
      (name : Text) (sources : Sources) (steps fuel len size : ℕ) (byte disk : ℕ → ℕ) (rest : Text)
      → let sources1 = add_source 0 src sources in
        let sources2 = add_source 1 file sources1 in
        let text = tabulate byte 0 len in
        source_for_url url ≡ ok src
        → Serves (host.cache sources1) 0 byte len
        → ((i : ℕ) → i < len → byte i < 128)
        → len < steps
        → text ≡ after_marker rest
        → extract_extent_descriptions text ≡ some (flat_description access n name ∷ [])
        → extract_parent_fn_hint captures text ≡ none
        → join url name ≡ some u
        → source_for_url u ≡ ok file
        → Serves (host.cache sources2) 1 disk size
        → 0 < n
        → n * sector_size ≤ size
        → (open_url host order captures steps (suc fuel) url sources ≡ ok (flat_reader n, sources2))
          × ((offset k : ℕ)
              → offset + k < u64_mod
              → let j = min k (n * sector_size - offset) in
                read_at_offset (host.cache sources2) order deflate (flat_reader n) offset k ≡ (
                  if ltb (n * sector_size) offset
                  then err (offset_beyond_end offset (n * sector_size))
                  else ok (j, tabulate disk offset j)))
  open_url-flat deflate url u src file access n name sources steps fuel len size byte disk rest
        opens serves ascii enough text described last joins found holds p l =
      let sources1 = add_source 0 src sources in
      let sources2 = add_source 1 file sources1 in
      let w : n * sector_size < u64_mod = omega (arith, holds.fits) in
      (
        open_url-one url sources sources2 steps fuel n
            (handle_image-flat url u src file access n name sources steps len byte rest opens serves
              ascii enough text described last joins found)
            p w,
        λ offset k h.
            read_at_offset_lem (host.cache sources2) order deflate disk (flat_reader n) offset k
              (omega arith) (omega arith) (w, tt)
              (flat_reader-Backed deflate sources2 disk size n holds l) h,
      )
