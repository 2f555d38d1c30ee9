-- ===== src/Foyer/Setup.antt =====
-- How the cache of src/foyercache.rs is set up, and the settings that `VmdkReader::open` of
-- src/vmdk_reader.rs gives it.
use vmdk_rs.Base.{ℕ, List, [], Option, none, some, ltb, ◌*◌, replicate, if◌then◌else◌}
use vmdk_rs.Base.Outcome.{Outcome, ok, ◌>>=◌, map_err}
use vmdk_rs.Text.{Text, codes, text_eq}
use vmdk_rs.Io.{IoError, Cache}
use vmdk_rs.Errors.{OpenErrorKind, initialization_failed, tokio_runtime_failed, cache_setup_failed}
use vmdk_rs.Sources.{BytesSource, end_of}
use vmdk_rs.Foyer.{HybridCache, foyer_read}

-- `HybridCacheBuilder` of the crate foyer, and `tempfile::tempdir`: `build memory device` makes a cache
-- with so much memory, and with a device where there is one.
pub record Builder (foyer : HybridCache) : Type 1 where
  pub TempDir : Type 0
  pub Device : Type 0
  pub tempdir : Outcome IoError TempDir
  pub fs_device : TempDir → ℕ → Outcome IoError Device
  pub build : ℕ → Option Device → Outcome IoError foyer.Store

module _ (foyer : HybridCache) (builder : Builder foyer) where
  open builder use {TempDir, Device, tempdir, fs_device, build}

  -- `struct FoyerCache`
  pub record FoyerCache : Type 0 where
    pub chlen : ℕ
    pub sources : List BytesSource
    pub cache : foyer.Store
    pub cache_dir : TempDir
    pub readahead : ℕ

  -- `FoyerCache::new`
  abbrev pub new : foyer.Store → TempDir → ℕ → ℕ → FoyerCache
  new cache cache_dir chlen readahead = record {
    chlen = chlen;
    sources = [];
    cache = cache;
    cache_dir = cache_dir;
    readahead = readahead;
  }

  -- `let builder = if disk_size > 0 …`
  unfoldable pub device_for : TempDir → ℕ → Outcome IoError (Option Device)
  device_for cache_dir disk_size =
      if ltb 0 disk_size
      then (do device ← fs_device cache_dir disk_size; ok (some device))
      else ok none

  -- `FoyerCache::with_default_cache`
  unfoldable pub with_default_cache : ℕ → ℕ → ℕ → ℕ → Outcome IoError FoyerCache
  with_default_cache chlen mem_size disk_size readahead = do
    cache_dir ← tempdir
    device ← device_for cache_dir disk_size
    cache ← build mem_size device
    ok (new cache cache_dir chlen readahead)

  -- `cache_disk_size`
  abbrev pub cache_disk_size : Text → ℕ
  cache_disk_size scheme = if text_eq scheme (codes "s3") then 256 else 0

  -- The runtime and the cache that `open` sets up for a URL with this scheme.
  unfoldable pub set_up : Outcome IoError (Unit {0}) → Text → Outcome OpenErrorKind FoyerCache
  set_up runtime scheme = do
    started ← map_err (λ e. initialization_failed (tokio_runtime_failed e)) runtime
    map_err (λ e. initialization_failed (cache_setup_failed e))
        (with_default_cache (1024 * 1024) 256 (cache_disk_size scheme) 0)

  -- What the cache holds when the read of `n` bytes of source `idx` at `off` starts, which earlier reads
  -- have left.
  abbrev pub History : Type 0
  History = ℕ → ℕ → ℕ → foyer.Store

  -- The cache as what `CacheReadSeek` uses of it.
  abbrev pub foyer_cache : FoyerCache → History → List BytesSource → Cache
  foyer_cache c held sources = record {
    read =
        λ idx off n. (foyer_read foyer c.chlen sources idx off (replicate n 0) (held idx off n)).0;
    end = λ idx. end_of idx sources;
  }
