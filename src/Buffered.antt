-- ===== src/Buffered.antt =====
-- `BufReader` of the standard library as src/descriptor.rs uses it: `fill` reads into its buffer of
-- 8 KiB from what it wraps.
pub mod Cut
pub mod Feeds
use vmdk_rs.Base.{ℕ, zero, suc, List, [], ◌∷◌, ◌++◌, Option, none, some, ◌==◌, if◌then◌else◌}
use vmdk_rs.Base.Outcome.{Outcome, ok, hang, ◌>>=◌}
use vmdk_rs.Io.{Bytes, IoError}

abbrev pub buffer_size : ℕ
buffer_size = 8192

abbrev cons_cut : ℕ → Option (Bytes × Bytes) → Option (Bytes × Bytes)
cons_cut b none = none
cons_cut b (some (pre, rest)) = some (b ∷ pre, rest)

-- `memchr`: the bytes up to the first `delim` with it, and the rest.
unfoldable pub cut : ℕ → Bytes → Option (Bytes × Bytes)
cut delim [] = none
cut delim (b ∷ bs) = if b == delim then some (b ∷ [], bs) else cons_cut b (cut delim bs)

module _ {S : Type 0} (fill : S → Outcome IoError (Bytes × S)) where
  -- `fill_buf`
  unfoldable pub fill_buf : Bytes × S → Outcome IoError (Bytes × S)
  fill_buf ([], s) = fill s
  fill_buf (b ∷ bs, s) = ok (b ∷ bs, s)

  -- What `memchr` found in the buffer is consumed; else the whole buffer is, and `again` reads on.
  abbrev pub consume :
      Bytes
      → S
      → Option (Bytes × Bytes)
      → (Bytes × S → Outcome IoError (Bytes × (Bytes × S)))
      → Outcome IoError (Bytes × (Bytes × S))
  consume buf s (some (pre, rest)) again = ok (pre, (rest, s))
  consume buf s none again = do (more, r) ← again ([], s); ok (buf ++ more, r)

  -- `read_until(delim)`: each round takes a byte at least.
  unfoldable pub read_until : ℕ → ℕ → Bytes × S → Outcome IoError (Bytes × (Bytes × S))
  read_until zero delim r = hang
  read_until (suc fuel) delim r = do
    (buf, s) ← fill_buf r
    elim buf [
      | [] ↦ ok ([], ([], s))
      | b ∷ bs ↦ consume (b ∷ bs) s (cut delim (b ∷ bs)) (read_until fuel delim)
    ]

  -- `read_to_end`
  unfoldable pub read_to_end : ℕ → Bytes × S → Outcome IoError Bytes
  read_to_end zero r = hang
  read_to_end (suc fuel) r = do
    (buf, s) ← fill_buf r
    elim buf [ [] ↦ ok [] | b ∷ bs ↦ do more ← read_to_end fuel ([], s); ok ((b ∷ bs) ++ more) ]
