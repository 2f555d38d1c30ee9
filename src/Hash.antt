-- ===== src/Hash.antt =====
-- `do_hash` and `run` of src/main.rs, without the progress that they print to the standard error.
pub mod Whole
use vmdk_rs.Base.{
  add64, ℕ, zero, suc, ◌+◌, List, [], ◌∷◌, ◌++◌, Bool, true, false, ltb, ◌==◌, if◌then◌else◌,
  length, take, drop, replicate, ◌≡◌,
}
use vmdk_rs.Base.Outcome.{Outcome, ok, err, panic, hang, ◌>>=◌, map_err}
use vmdk_rs.Crates.{ByteOrder, Deflate}
use vmdk_rs.Text.{Text}
use vmdk_rs.Io.{Bytes, Cache}
use vmdk_rs.Storage.{ReadError}
use vmdk_rs.Errors.{OpenError}
use vmdk_rs.Reader.{VmdkReader, read_at_offset}

-- The crate sha1: `Sha1::new`, `update` and `finalize`.
pub record Hasher : Type 1 where
  pub State : Type 0
  pub new : State
  pub update : State → Bytes → State
  pub finalize : State → Bytes

-- A digest depends on the bytes alone, not on how they are cut.
pub record IsDigest (h : Hasher) : Type 0 where
  pub update-nil : (s : h.State) → h.update s [] ≡ s
  pub update-append : (s : h.State) (a b : Bytes) → h.update (h.update s a) b ≡ h.update s (a ++ b)

-- `enum VmdkError` of src/vmdk_reader.rs
pub data VmdkError : Type 0 where
  open_error : OpenError → VmdkError
  read_error : ReadError → VmdkError

-- The length of `buf`.
abbrev pub buf_size : ℕ
buf_size = 1048576

-- `vec![0; n]`
unfoldable pub new_buf : ℕ → Bytes
new_buf n = replicate n 0

-- What a read leaves in a buffer.
abbrev pub overwrite : Bytes → Bytes → Bytes
overwrite buf bytes = bytes ++ drop (length bytes) buf

module _ (cache : Cache) (order : ByteOrder) (deflate : Deflate) (hasher : Hasher) where
  -- The `while` loop of `do_hash`. Each round takes a byte at least.
  unfoldable pub hash_loop :
      ℕ → VmdkReader → ℕ → Bytes → hasher.State → Outcome VmdkError hasher.State
  hash_loop zero v offset buf state = if ltb offset v.image_size then hang else ok state
  hash_loop (suc fuel) v offset buf state =
      if ltb offset v.image_size
      then (do
        (read, bytes) ←
            map_err read_error (read_at_offset cache order deflate v offset (length buf))
        let buf' = overwrite buf bytes
        if read == 0
            then ok state
            else hash_loop fuel v (add64 offset read) buf' (hasher.update state (take read buf')))
      else ok state

  -- `do_hash` with the reader that it has opened.
  unfoldable pub hash_reader : VmdkReader → Outcome VmdkError Bytes
  hash_reader v = do
    state ← hash_loop v.image_size v 0 (new_buf buf_size) hasher.new
    ok (hasher.finalize state)

module _ (order : ByteOrder) (deflate : Deflate) (hasher : Hasher)
    (open_path : Text → Outcome OpenError (VmdkReader × Cache)) where
  -- `do_hash`
  unfoldable pub do_hash : Text → Outcome VmdkError Bytes
  do_hash path = do
    (v, cache) ← map_err open_error (open_path path)
    hash_reader cache order deflate hasher v

  -- `run`: what it prints, and how it ends.
  unfoldable pub run : List Text → List (Text × Bytes) × Outcome VmdkError (Unit {0})
  run [] = ([], ok tt)
  run (p ∷ paths) = elim (do_hash p) [
    | ok digest ↦ let rest = run paths in ((p, digest) ∷ rest.0, rest.1)
    | err e ↦ ([], err e)
    | panic ↦ ([], panic)
    | hang ↦ ([], hang)
  ]
