-- ===== src/Examples/Disk.antt =====
-- Sources, a byte order and a decoder for the runs.
use vmdk_rs.Base.{
  ℕ, ◌+◌, ◌*◌, ◌<◌, [], ◌∷◌, Option, none, some, get_elem?, take, drop, tabulate, refl,
}
use vmdk_rs.Base.Outcome.{ok}
use vmdk_rs.Crates.{ByteOrder, Deflate}
use vmdk_rs.Io.{Bytes, Cache}
use vmdk_rs.Io.Exact.{Serves, max_size}

-- Every source holds `size` bytes of `byte`.
abbrev pub disk : (ℕ → ℕ) → ℕ → Cache
disk byte size = record { read = λ idx off n. ok (tabulate byte off n); end = λ idx. ok size }

pub disk-Serves :
    (byte : ℕ → ℕ) (size idx : ℕ) → size < max_size → Serves (disk byte size) idx byte size
disk-Serves byte size idx h = record { ends = refl; reads = λ off n p l. refl; fits = h }

abbrev pub value_le : Bytes → ℕ
value_le [] = 0
value_le (b ∷ bs) = b + 256 * value_le bs

abbrev pub value_be : ℕ → Bytes → ℕ
value_be acc [] = acc
value_be acc (b ∷ bs) = value_be (acc * 256 + b) bs

abbrev pub bytes_order : ByteOrder
bytes_order = record {
  u8 = value_le;
  u16_be = value_be 0;
  u16_le = value_le;
  u32_le = value_le;
  u64_le = value_le;
}

-- A decoder that copies.
abbrev pub stored : Deflate
stored = record { Decoder = Bytes; new = λ b. b; read = λ d n. ok (take n d, drop n d) }

-- The list's bytes, and zeros behind them.
abbrev pub byte_or_zero : Option ℕ → ℕ
byte_or_zero none = 0
byte_or_zero (some b) = b

abbrev pub bytes_of : Bytes → ℕ → ℕ
bytes_of bs x = byte_or_zero (get_elem? bs x)
