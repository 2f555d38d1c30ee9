-- ===== src/Crates.antt =====
-- The crates that the program calls and that are not part of the repository, as parameters.
use vmdk_rs.Base.{ℕ, ◌≤◌, ◌≡◌, length}
use vmdk_rs.Base.Outcome.{Outcome, ok}
use vmdk_rs.Io.{Bytes, IoError}

-- byteorder: the value of the bytes that `read_u8`, `read_u16`, `read_u32` and `read_u64` read.
pub record ByteOrder : Type 0 where
  pub u8 : Bytes → ℕ
  pub u16_be : Bytes → ℕ
  pub u16_le : Bytes → ℕ
  pub u32_le : Bytes → ℕ
  pub u64_le : Bytes → ℕ

-- flate2: a decoder over compressed data, and its `read` into a buffer of `n` bytes.
pub record Deflate : Type 1 where
  pub Decoder : Type 0
  pub new : Bytes → Decoder
  pub read : Decoder → ℕ → Outcome IoError (Bytes × Decoder)

-- `Read::read` returns at most as many bytes as the buffer has.
pub record IsReader (d : Deflate) : Type 0 where
  pub within :
      (x : d.Decoder) (n : ℕ) (b : Bytes) (y : d.Decoder) → d.read x n ≡ ok (b, y) → length b ≤ n
