-- ===== src/Open/Platform.antt =====
-- `VmdkReader::open` of src/vmdk_reader.rs as a whole, from a path or a URL to a reader.
pub mod Flat
use vmdk_rs.Base.{ℕ, List, Option, none, some}
use vmdk_rs.Base.Outcome.{Outcome, ok, err, ◌>>=◌, map_err}
use vmdk_rs.Crates.{ByteOrder}
use vmdk_rs.Text.{Text}
use vmdk_rs.Io.{IoError, Cache}
use vmdk_rs.Errors.{OpenError, of_kind, bad_path}
use vmdk_rs.Foyer.{HybridCache}
use vmdk_rs.Foyer.Setup.{Builder, History, set_up, foyer_cache}
use vmdk_rs.Location.{Platform, path_or_url_to_url, host_on}
use vmdk_rs.Reader.{VmdkReader}
use vmdk_rs.Open.{open_url}

-- `.ok_or(OpenErrorKind::BadPath(image_path.as_ref().into()))?`
abbrev pub url_or_bad : {Url : Type 0} → Text → Option Url → Outcome OpenError Url
url_or_bad path none = err (of_kind (bad_path path))
url_or_bad path (some url) = ok url

module _ (platform : Platform) (foyer : HybridCache) (builder : Builder foyer)
    (runtime : Outcome IoError (Unit {0})) (order : ByteOrder) (captures : Text → Option Text) where
  -- `VmdkReader::open`: the reader, and its cache. `opening` is what the cache holds at the reads of `open`,
  -- and `later` at those of the reader.
  unfoldable pub open_image :
      History foyer builder
      → History foyer builder
      → ℕ
      → ℕ
      → Text
      → Outcome OpenError (VmdkReader × Cache)
  open_image opening later steps fuel image_path = do
    url ← url_or_bad image_path (path_or_url_to_url platform image_path)
    c ← map_err of_kind (set_up foyer builder runtime (platform.scheme url))
    (v, sources) ←
        open_url (host_on platform (foyer_cache foyer builder c opening)) order captures steps fuel
          url c.sources
    ok (v, foyer_cache foyer builder c later sources)
