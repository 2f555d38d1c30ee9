-- ===== src/Open/Whole.antt =====
-- What `VmdkReader::open` of src/vmdk_reader.rs ends with: spans that tile the image, each with the first
-- extent of the chain that has it.
use vmdk_rs.Base.{
  nat_eq, u64_mod, mul64, ℕ, ◌+◌, ◌-◌, ◌*◌, ◌/◌, ◌%◌, ◌≤◌, ◌<◌, ◌≡◌, refl, ◌∙◌, sym, subst, Bool,
  false, ◌&&◌, ltb, List, [], Option, none, some, if◌then◌else◌, min, tabulate, arith,
  some_injective,
}
use vmdk_rs.Base.Outcome.{ok, err, bind_ok, ok_injective}
use vmdk_rs.Crates.{ByteOrder, Deflate}
use vmdk_rs.Text.{Text}
use vmdk_rs.Spans.Map.{SpanMap}
use vmdk_rs.Spans.View.{Disjoint, value_at}
use vmdk_rs.Storage.{sector_size, offset_beyond_end}
use vmdk_rs.Extent.{Extent}
use vmdk_rs.Extents.{Host}
use vmdk_rs.Image.{Covering, zero_fill, in_bytes}
use vmdk_rs.Image.Cover.{is_none, zero_fill_lem}
use vmdk_rs.Reader.{VmdkReader, read_at_offset}
use vmdk_rs.Reader.ReadAt.{Tiles, AllBelow, Backed}
use vmdk_rs.Reader.Locate.{read_at_offset_lem}
use vmdk_rs.Open.{in_time, sectors_of, img_loop, open_url}
use vmdk_rs.Open.Tiling.{NoneFrom, in_bytes-Tiles}
use vmdk_rs.Open.Owner.{ExtentsWithin, owner, Sound, ExtentsWithin-Grown}
use vmdk_rs.Image.Zeros.{covered-EndsWithin}
use vmdk_rs.Open.Filled.{zero_fill-owned, zero_fill-Grown}
use vmdk_rs.Open.Chain.{img_loop-Follows, img_loop-sectors, in_time_ok}

-- The last sector that a span may end at for its end in bytes to be a `u64`.
abbrev pub last_sector : ℕ
last_sector = 36028797018963967

-- `m` are the spans of the reader in sectors. They do not overlap, have the first extent of each sector,
-- and in bytes they tile the image.
pub record Whole (v : VmdkReader) (m : SpanMap (ℕ × ℕ)) : Type 0 where
  pub bytes : v.spans ≡ in_bytes m
  pub disjoint : Disjoint 0 m
  pub owned : (x : ℕ) → value_at m x ≡ owner 0 v.extents x
  pub tiles : Tiles 0 v.image_size v.spans
  pub below : AllBelow u64_mod v.spans

sectors_of-whole : (k size : ℕ) → size ≡ mul64 k sector_size → sectors_of size * sector_size ≡ size
sectors_of-whole k size e =
    let z : size % sector_size ≡ 0 = omega (arith, e) in
    let y : size / sector_size * sector_size ≡ size = omega (arith, z) in rw z y

beyond_end : (n x : ℕ) (b : Bool) → n ≤ x → (ltb x n && b) ≡ false
beyond_end n x b h = ground arith

abbrev reader_of : ℕ → List Extent × SpanMap (ℕ × ℕ) → VmdkReader
reader_of size z = record { image_size = size; spans = in_bytes z.1; extents = z.0 }

fill-Whole :
    (size k : ℕ) (es : List Extent) (c : Covering) (z : List Extent × SpanMap (ℕ × ℕ))
    → size ≡ mul64 k sector_size
    → Sound (sectors_of size) last_sector es c
    → zero_fill c.uncovered es c.spans ≡ some z
    → Whole (reader_of size z) z.1
fill-Whole size k es c z e s f =
    let n = sectors_of size in
    let w = sectors_of-whole k size e in
    let l : n ≤ last_sector = let b : size < u64_mod = omega (arith, e) in omega (arith, w, b) in
    let ends = covered-EndsWithin 0 last_sector c.uncovered s.accounts.gapped (λ x h.
      s.accounts.accounts x
      ∙ beyond_end n x (is_none (value_at c.spans x)) (omega (arith, l, h))) in
    let (a, ea, da, ga) = zero_fill_lem n es c s.accounts in
    let (b, eb, nb, ob) =
      zero_fill-owned 0 last_sector c.uncovered es c.spans (omega arith) s.accounts.gapped ends
        s.accounts.disjoint s.beyond s.owned in
    let pa : a ≡ z = some_injective a z (sym ea ∙ f) in
    let pb : b ≡ z = some_injective b z (sym eb ∙ f) in
    let d1 = subst (λ (t : List Extent × SpanMap (ℕ × ℕ)). Disjoint 0 t.1) pa da in
    let g1 =
      subst
        (λ (t : List Extent × SpanMap (ℕ × ℕ)).
          (x : ℕ) → (ltb x n && is_none (value_at t.1 x)) ≡ false)
        pa ga in
    let n1 = subst (λ (t : List Extent × SpanMap (ℕ × ℕ)). NoneFrom last_sector t.1) pb nb in
    let o1 =
      subst (λ (t : List Extent × SpanMap (ℕ × ℕ)). (x : ℕ) → value_at t.1 x ≡ owner 0 t.0 x) pb
        ob in
    let (t1, b1) = in_bytes-Tiles 0 n last_sector z.1 (omega arith) d1 (λ x h. g1 x) n1 in
    record {
      bytes = refl;
      disjoint = d1;
      owned = o1;
      tiles = subst (λ i. Tiles 0 i (in_bytes z.1)) w t1;
      below = b1;
    }

module _ (host : Host) (order : ByteOrder) (captures : Text → Option Text) (steps : ℕ) where
  -- When the spans of its extents are not empty and end at the last sector of a `u64` of bytes at the
  -- latest: the reader of a non-empty image that `open` returns has spans that do not overlap, that are
  -- those of the first extent of each sector, in the order of the chain and with zeros last, and that
  -- tile the bytes of the image.
  pub open_url-Whole :
      (fuel : ℕ) (url : host.Url) (sources : host.Sources) (v : VmdkReader × host.Sources)
      → open_url host order captures steps fuel url sources ≡ ok v
      → 0 < v.0.image_size
      → ExtentsWithin last_sector v.0.extents
      → (m : SpanMap (ℕ × ℕ)) × Whole v.0 m
  unfolding open_url
  open_url-Whole fuel url sources v e h within =
      let first : Covering = record { spans = []; uncovered = [] } in
      let (r, er, e1) =
        bind_ok (img_loop host order captures steps fuel url 0 none [] first sources) _ v e in
      let (z, ez, e2) =
        bind_ok (in_time (zero_fill r.1.1.0.uncovered r.1.0 r.1.1.0.spans)) _ v e1 in
      let q : (reader_of r.0 z, r.1.1.1) ≡ v = ok_injective (reader_of r.0 z, r.1.1.1) v e2 in
      let filled = in_time_ok (zero_fill r.1.1.0.uncovered r.1.0 r.1.1.0.spans) z ez in
      let (_, s) =
        img_loop-Follows host order captures steps last_sector fuel url 0 none [] first sources r
          er in
      let (k, ek) =
        img_loop-sectors host order captures steps fuel url 0 none [] first sources r er in
      let p : 0 < r.0 = subst (λ (t : VmdkReader × host.Sources). 0 < t.0.image_size) (sym q) h in
      let w : ExtentsWithin last_sector z.0 =
        subst (λ (t : VmdkReader × host.Sources). ExtentsWithin last_sector t.0.extents) (sym q)
          within in
      let grown = zero_fill-Grown r.1.1.0.uncovered r.1.0 r.1.1.0.spans z filled in
      let sound = s (ExtentsWithin-Grown last_sector r.1.0 z.0 grown w) refl p in
      (
        z.1,
        subst (λ (t : VmdkReader × host.Sources). Whole t.0 z.1) q
            (fill-Whole r.0 k r.1.0 r.1.1.0 z ek sound filled),
      )

  -- When the spans of its extents are not empty and end at the last sector of a `u64` of bytes at the
  -- latest: from the reader of a non-empty image that `open` returns, when each of its spans is backed by
  -- an extent that serves the bytes of `disk`, and where `offset + n` is a `u64`, `read_at_offset`
  -- returns, with the bytes from `offset` on, as many as the buffer of `n` bytes takes or the image still
  -- holds; an offset behind the end of the image is the error that says so.
  pub open_url-reads :
      (deflate : Deflate) (disk : ℕ → ℕ) (fuel : ℕ) (url : host.Url) (sources : host.Sources)
      (v : VmdkReader × host.Sources) (offset n : ℕ)
      → open_url host order captures steps fuel url sources ≡ ok v
      → 0 < v.0.image_size
      → ExtentsWithin last_sector v.0.extents
      → Backed (host.cache v.1) order deflate disk v.0.extents v.0.spans
      → offset + n < u64_mod
      → let k = min n (v.0.image_size - offset) in
        read_at_offset (host.cache v.1) order deflate v.0 offset n ≡ (
          if ltb v.0.image_size offset
          then err (offset_beyond_end offset v.0.image_size)
          else ok (k, tabulate disk offset k))
  open_url-reads deflate disk fuel url sources v offset n e h within backed l =
      let (m, w) = open_url-Whole fuel url sources v e h within in
      read_at_offset_lem (host.cache v.1) order deflate disk v.0 offset n h w.tiles w.below backed l
