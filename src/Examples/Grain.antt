-- ===== src/Examples/Grain.antt =====
-- A compressed grain of four bytes, with a decoder that copies.
use vmdk_rs.Base.{ℕ, zero, suc, ◌≡◌, refl, ap, ◌∙◌, [], ◌∷◌, length, take, drop, min, arith}
use vmdk_rs.Base.Outcome.{ok}
use vmdk_rs.Io.{Bytes, CacheReadSeek}
use vmdk_rs.Storage.{read_and_decompress_grain}
use vmdk_rs.Storage.Inflate.{Streams, padded, read_and_decompress_grain-padded}
use vmdk_rs.Examples.Disk.{disk, disk-Serves, bytes_order, stored, bytes_of}

take-min : (n : ℕ) (z : Bytes) → take n z ≡ take (min n (length z)) z
take-min zero z = let e : min 0 (length z) ≡ 0 = omega arith in rw e refl
take-min (suc n) [] = let e : min (suc n) 0 ≡ 0 = omega arith in rw e refl
take-min (suc n) (b ∷ z) =
    let e : min (suc n) (suc (length z)) ≡ suc (min n (length z)) = omega arith in
    rw e (ap (λ t. b ∷ t) (take-min n z))

drop-min : (n : ℕ) (z : Bytes) → drop n z ≡ drop (min n (length z)) z
drop-min zero z = let e : min 0 (length z) ≡ 0 = omega arith in rw e refl
drop-min (suc n) [] = let e : min (suc n) 0 ≡ 0 = omega arith in rw e refl
drop-min (suc n) (b ∷ z) =
    let e : min (suc n) (suc (length z)) ≡ suc (min n (length z)) = omega arith in
    rw e (drop-min n z)

abbrev stored_streams : Streams stored
stored_streams = record {
  Rest = λ x z. x ≡ z;
  reads = λ x z n e. (
    min n (length z),
    omega arith,
    omega arith,
    drop n x,
    rw (e, take-min n z) refl,
    ap (drop n) e ∙ drop-min n z,
  );
}

abbrev grain_bytes : Bytes
grain_bytes = 0 ∷ 0 ∷ 0 ∷ 0 ∷ 0 ∷ 0 ∷ 0 ∷ 0 ∷ 4 ∷ 0 ∷ 0 ∷ 0 ∷ 0x78 ∷ 0x01 ∷ 65 ∷ 66 ∷ 67 ∷ 68 ∷ []

abbrev front : CacheReadSeek
front = record { idx = 0; pos = 0 }

read_and_decompress_grain-padded_example :
    read_and_decompress_grain (disk (bytes_of grain_bytes) 18) bytes_order stored front 7 6
    ≡ ok (padded 6 (65 ∷ 66 ∷ 67 ∷ 68 ∷ []))
read_and_decompress_grain-padded_example =
    read_and_decompress_grain-padded (disk (bytes_of grain_bytes) 18) bytes_order stored
      stored_streams 0 (bytes_of grain_bytes) 18 0 7 6 4 (65 ∷ 66 ∷ 67 ∷ 68 ∷ [])
      (disk-Serves (bytes_of grain_bytes) 18 0 (omega arith)) refl (omega arith) (omega arith) refl
      (omega arith) refl
