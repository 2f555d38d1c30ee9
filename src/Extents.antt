-- ===== src/Extents.antt =====
-- `read_extent` and `read_extents` of src/extents.rs.
pub mod Row
pub mod Reports
use vmdk_rs.Base.{
  add64, ℕ, suc, List, [], ◌∷◌, Option, none, some, Bool, true, false, not, ◌&&◌, if◌then◌else◌,
}
use vmdk_rs.Base.Outcome.{Outcome, ok, err, panic, ◌>>=◌, map_err}
use vmdk_rs.Crates.{ByteOrder}
use vmdk_rs.Text.{Text}
use vmdk_rs.Description.{ExtentDescriptionInner, ExtentDescription, filename_of}
use vmdk_rs.Io.{Cache, CacheReadSeek}
use vmdk_rs.Storage.{ExtentStorage, sparse, flat, handle}
use vmdk_rs.Errors.{OpenErrorKind, OpenError, of_kind, with_path, io_error, bad_path}
use vmdk_rs.Header.{read_header_sparse, read_header_sesparse}
use vmdk_rs.Grains.{read_grain_table_sparse, read_grain_table_sesparse}
use vmdk_rs.Extent.{Extent}

module _ (cache : Cache) (order : ByteOrder) where
  abbrev pub read_extent_sparse : ℕ → CacheReadSeek → Outcome OpenErrorKind ExtentStorage
  read_extent_sparse start src = do
    header ← read_header_sparse cache order src
    table ← map_err io_error (read_grain_table_sparse cache order header start src)
    ok (
        sparse (record {
          file = src.idx;
          grain_table = table;
          grain_size = header.cluster_sectors;
          has_compressed_grain = header.compressed;
          zeroed_grain_table_entry = header.has_zero_grain;
        }))

  abbrev pub read_extent_sesparse : ℕ → CacheReadSeek → Outcome OpenErrorKind ExtentStorage
  read_extent_sesparse start src = do
    header ← read_header_sesparse cache order src
    table ← map_err io_error (read_grain_table_sesparse cache order header start src)
    ok (
        sparse (record {
          file = src.idx;
          grain_table = table;
          grain_size = header.cluster_sectors;
          has_compressed_grain = false;
          zeroed_grain_table_entry = true;
        }))

  -- `read_extent`. The errors have no path yet.
  unfoldable pub read_extent :
      ExtentDescriptionInner → ℕ → CacheReadSeek → Outcome OpenErrorKind ExtentStorage
  read_extent (ExtentDescriptionInner.sparse f) start src = read_extent_sparse start src
  read_extent (ExtentDescriptionInner.vmfs_sparse f) start src = read_extent_sparse start src
  read_extent (ExtentDescriptionInner.se_sparse f) start src = read_extent_sesparse start src
  read_extent (ExtentDescriptionInner.vmfs f) start src =
      ok (flat (record { file = src.idx; offset = 0 }))
  read_extent (ExtentDescriptionInner.flat f o) start src =
      ok (flat (record { file = src.idx; offset = o }))
  read_extent (ExtentDescriptionInner.vmfs_raw f) start src = panic
  read_extent (ExtentDescriptionInner.vmfs_rdm f) start src = panic
  read_extent ExtentDescriptionInner.zeroed start src = panic

-- What the program uses of the crate url, of the sources of bytes, and of the cache that they are
-- added to.
pub record Host : Type 1 where
  pub Url : Type 0
  pub Source : Type 0
  pub Sources : Type 0
  pub join : Url → Text → Option Url
  pub same : Url → Url → Bool
  pub as_text : Url → Text
  pub source_for_url : Url → Outcome OpenError Source
  pub add_source : ℕ → Source → Sources → Sources
  pub cache : Sources → Cache

module _ (host : Host) (order : ByteOrder) where
  open host use {Url, Source, Sources, join, same, as_text, source_for_url, add_source}

  abbrev pub url_of : Text → Option Url → Outcome OpenError Url
  url_of name none = err (with_path name (of_kind (bad_path name)))
  url_of name (some u) = ok u

  abbrev pub filename : Option Text → Outcome OpenError Text
  filename none = panic
  filename (some f) = ok f

  -- `source_for_url(…).or_else(…)`
  abbrev pub or_current :
      Bool → Outcome OpenError Source → Outcome OpenError Source → Outcome OpenError Source
  or_current retry (err e) other = if retry then other else err e
  or_current retry s other = s

  -- The loop of `read_extents`.
  unfoldable pub read_extents_loop :
      Url
      → Bool
      → ℕ
      → ℕ
      → List ExtentDescription
      → Sources
      → Outcome OpenError (List Extent × Sources)
  read_extents_loop image_url singular start idx [] sources = ok ([], sources)
  read_extents_loop image_url singular start idx (ed ∷ eds) sources = do
    name ← filename (filename_of ed.kind)
    url ← url_of name (join image_url name)
    src ←
        or_current (singular && not (same url image_url)) (source_for_url url)
          (source_for_url image_url)
    let sources' = add_source idx src sources
    storage ←
        map_err (λ e. with_path (as_text url) (of_kind e))
          (read_extent (host.cache sources') order ed.kind start (handle idx))
    (extents, sources'') ←
        read_extents_loop image_url singular (add64 start ed.sectors) (suc idx) eds sources'
    ok (
      record { start_sector = start; sectors = ed.sectors; storage = storage } ∷ extents,
      sources'',
    )

  -- `read_extents`
  unfoldable pub read_extents :
      Url → List ExtentDescription → Bool → ℕ → Sources → Outcome OpenError (List Extent × Sources)
  read_extents image_url eds singular idx sources =
      read_extents_loop image_url singular 0 idx eds sources
