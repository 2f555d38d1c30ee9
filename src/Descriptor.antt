-- ===== src/Descriptor.antt =====
-- src/descriptor.rs: the text of a descriptor, inside a sparse extent or in a file of its own.
pub mod Internal
pub mod Lines
pub mod File
use vmdk_rs.Base.{
  mul64, ℕ, zero, suc, ◌-◌, ◌*◌, Bool, List, [], ◌∷◌, ◌++◌, Option, none, some, ◌==◌, if◌then◌else◌,
  length, take, min,
}
use vmdk_rs.Base.Outcome.{Outcome, ok, err, panic, hang, ◌>>=◌, map_err}
use vmdk_rs.Io.{Bytes, IoError, invalid_utf8, Cache, CacheReadSeek, from_start, read, seek}
use vmdk_rs.Buffered.{buffer_size, read_until, read_to_end}
use vmdk_rs.Text.{Text, codes, text_eq, trim_end, lines}
use vmdk_rs.Text.Utf8.{from_utf8, from_utf8_lossy}
use vmdk_rs.Storage.{sector_size}
use vmdk_rs.Errors.{OpenErrorKind, io_error, descriptor_error, unrecognized_descriptor}

-- `20 * SECTOR_SIZE`
abbrev pub window : ℕ
window = 10240

-- `# Disk DescriptorFile`
abbrev pub marker : Text
marker = codes "# Disk DescriptorFile"

abbrev pub valid : Option Text → Outcome IoError Text
valid none = err invalid_utf8
valid (some t) = ok t

-- `&buf[..(len - 1)]` as a text; without a byte in `buf` the subtraction or the slice panics.
unfoldable pub but_last : Bytes → Outcome IoError Text
but_last [] = panic
but_last (b ∷ bs) = ok (from_utf8_lossy (take (length bs) (b ∷ bs)))

abbrev pub is_blank : Text → Bool
is_blank line = text_eq line []

module _ (cache : Cache) where
  -- What `BufReader` reads from `src.take(limit)`.
  unfoldable pub take_fill : ℕ × CacheReadSeek → Outcome IoError (Bytes × (ℕ × CacheReadSeek))
  take_fill (zero, f) = ok ([], (zero, f))
  take_fill (suc limit, f) = do
    (bytes, f') ← read cache (min buffer_size (suc limit)) f
    ok (bytes, (suc limit - length bytes, f'))

  -- `read_descriptor_internal`
  unfoldable pub read_descriptor_internal :
      ℕ → CacheReadSeek → Outcome IoError (Text × CacheReadSeek)
  read_descriptor_internal offset src = do
    src' ← seek cache (from_start (mul64 offset sector_size)) src
    (buf, (_, (_, src''))) ← read_until take_fill (suc window) 0 ([], (window, src'))
    text ← but_last buf
    ok (text, src'')

  -- `r.read_line(&mut line)` with an empty `line`
  unfoldable pub read_line :
      ℕ → Bytes × CacheReadSeek → Outcome IoError (Text × (Bytes × CacheReadSeek))
  read_line fuel r = do
    (bytes, r') ← read_until (read cache buffer_size) fuel b'\n' r
    line ← valid (from_utf8 bytes)
    ok (line, r')

  -- `r.read_to_string(&mut desc)`
  unfoldable pub read_to_string : ℕ → Text → Bytes × CacheReadSeek → Outcome IoError Text
  read_to_string fuel desc r = do
    bytes ← read_to_end (read cache buffer_size) fuel r
    rest ← valid (from_utf8 bytes)
    ok (desc ++ rest)

  -- `match line.as_str().trim_end()`: `again` is the next round.
  unfoldable pub match_line :
      ℕ
      → Text
      → Text
      → Bytes × CacheReadSeek
      → Outcome OpenErrorKind Text
      → Outcome OpenErrorKind Text
  match_line fuel line desc r again =
      if text_eq line marker
      then map_err io_error (read_to_string fuel desc r)
      else if is_blank line
      then again
      else err (descriptor_error unrecognized_descriptor)

  -- The loop of `read_descriptor_file`. `steps` is the fuel of a read, `fuel` that of the loop.
  unfoldable pub read_descriptor_loop :
      ℕ → ℕ → Text → Bytes × CacheReadSeek → Outcome OpenErrorKind Text
  read_descriptor_loop steps zero desc r = hang
  read_descriptor_loop steps (suc fuel) desc r = do
    (line, r') ← map_err io_error (read_line steps r)
    let again = read_descriptor_loop steps fuel (desc ++ line) r'
    match_line steps (trim_end line) (desc ++ line) r' again

  -- `read_descriptor_file`
  unfoldable pub read_descriptor_file : ℕ → CacheReadSeek → Outcome OpenErrorKind Text
  read_descriptor_file fuel src = read_descriptor_loop fuel fuel [] ([], src)

-- `extract_parent_fn_hint`: `captures` is the first group that the pattern of the crate regex
-- captures in a line.
unfoldable pub first_capture : (Text → Option Text) → List Text → Option Text
first_capture captures [] = none
first_capture captures (l ∷ ls) = elim (captures l) [
  | some hint ↦ some hint
  | none ↦ first_capture captures ls
]

unfoldable pub extract_parent_fn_hint : (Text → Option Text) → Text → Option Text
extract_parent_fn_hint captures descriptor = first_capture captures (lines descriptor)
