-- ===== src/Sources.antt =====
-- The sources of bytes and the cache that keeps nothing: src/bytessource.rs, src/placeholdersource.rs,
-- src/filesource.rs, src/s3source.rs and src/dummycache.rs, and the sources of src/foyercache.rs.
pub mod Read
use vmdk_rs.Base.{
  add64, sub64, ℕ, zero, suc, ◌+◌, ◌-◌, List, [], ◌∷◌, ◌++◌, Option, none, some, Bool, ltb, leb,
  ◌==◌, if◌then◌else◌, length, take, drop, replicate, get_elem?,
}
use vmdk_rs.Base.Outcome.{Outcome, ok, err, panic, ◌>>=◌}
use vmdk_rs.Text.{Text}
use vmdk_rs.Io.{Bytes, IoError, unexpected_eof, source_failed, source_out_of_bounds, Cache}

-- `trait BytesSource`: `read beg end`
pub record BytesSource : Type 0 where
  pub read : ℕ → ℕ → Outcome IoError Bytes
  pub end : Outcome IoError ℕ

-- `PlaceholderSource`: both methods are `unreachable!()`.
abbrev pub placeholder_source : BytesSource
placeholder_source = record { read = λ beg end. panic; end = panic }

-- `FileSource`: `files` is what the paths of the file system hold. With `end < beg` the length of the
-- buffer underflows.
unfoldable pub read_file : Option Bytes → ℕ → ℕ → Outcome IoError Bytes
read_file none beg end = err source_failed
read_file (some bytes) beg end =
    if ltb end beg
    then panic
    else if ltb (length (drop beg bytes)) (end - beg)
    then err unexpected_eof
    else ok (take (end - beg) (drop beg bytes))

abbrev pub file_source : (Text → Option Bytes) → Text → ℕ → BytesSource
file_source files path len = record { read = read_file (files path); end = ok len }

-- `S3Source`: `get_object_range beg last` is the request of the crate s3, whose last byte is
-- inclusive.
unfoldable pub read_s3 : (ℕ → ℕ → Outcome IoError Bytes) → ℕ → ℕ → Outcome IoError Bytes
read_s3 get_object_range beg end = get_object_range beg (sub64 end 1)

abbrev pub s3_source : (ℕ → ℕ → Outcome IoError Bytes) → ℕ → BytesSource
s3_source get_object_range len = record { read = read_s3 get_object_range; end = ok len }

abbrev pub set_at : ℕ → BytesSource → List BytesSource → List BytesSource
set_at i src [] = []
set_at zero src (s ∷ sources) = src ∷ sources
set_at (suc i) src (s ∷ sources) = s ∷ set_at i src sources

-- `add_source`: the sources are resized with placeholders where they are too few.
unfoldable pub add_source : ℕ → BytesSource → List BytesSource → List BytesSource
add_source idx src sources = set_at idx src (
    if leb (length sources) idx
    then sources ++ replicate (idx + 1 - length sources) placeholder_source
    else sources)

-- `.ok_or(…)`
abbrev pub or_out_of_bounds : ℕ → Option BytesSource → Outcome IoError BytesSource
or_out_of_bounds idx none = err (source_out_of_bounds idx)
or_out_of_bounds idx (some src) = ok src

-- `self.sources.get(idx).ok_or(…)`
abbrev pub source_at : ℕ → List BytesSource → Outcome IoError BytesSource
source_at idx sources = or_out_of_bounds idx (get_elem? sources idx)

-- `end`
unfoldable pub end_of : ℕ → List BytesSource → Outcome IoError ℕ
end_of idx sources = do src ← source_at idx sources; src.end

-- `DummyCache::read` into a buffer of `n` bytes: an index out of range is a panic, and so is a source
-- that returns another number of bytes.
unfoldable pub dummy_read : List BytesSource → ℕ → ℕ → ℕ → Outcome IoError Bytes
dummy_read sources idx off n = do
  src ← elim (get_elem? sources idx) [ none ↦ panic | some src ↦ ok src ]
  bytes ← src.read off (add64 off n)
  if length bytes == n then ok bytes else panic

-- `DummyCache`
abbrev pub dummy_cache : List BytesSource → Cache
dummy_cache sources = record { read = dummy_read sources; end = λ idx. end_of idx sources }
