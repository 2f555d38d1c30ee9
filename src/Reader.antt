-- ===== src/Reader.antt =====
-- `VmdkReader::read_at_offset` of src/vmdk_reader.rs.
pub mod ReadAt
pub mod Locate
pub mod Backs
use vmdk_rs.Base.{
  sub64, add64, ℕ, zero, suc, ◌+◌, ◌-◌, List, [], ◌∷◌, ◌++◌, Option, none, some, Bool, true, false,
  ltb, leb, ◌==◌, if◌then◌else◌, length, get_elem?, min,
}
use vmdk_rs.Base.Outcome.{Outcome, ok, err, panic, hang, ◌>>=◌}
use vmdk_rs.Crates.{ByteOrder, Deflate}
use vmdk_rs.Io.{Bytes, Cache}
use vmdk_rs.Storage.{ReadError, offset_beyond_end, read_storage}
use vmdk_rs.Extent.{Extent}

-- In bytes: the start, the end and the index of the extent.
abbrev pub Span : Type 0
Span = ℕ × (ℕ × ℕ)

-- `struct VmdkReader` without the path, and with the cache and the runtime as arguments of its methods.
pub record VmdkReader : Type 0 where
  pub image_size : ℕ
  pub spans : List Span
  pub extents : List Extent

pub data Found : Type 0 where
  found : ℕ → Found
  insert_at : ℕ → Found

-- `spans.binary_search_by_key(&key, |e| e.0)` over the sorted list from index `i` on: where the key
-- is, or where it would be put.
unfoldable pub search_key : ℕ → List Span → ℕ → Found
search_key key [] i = insert_at i
search_key key ((b, t) ∷ m) i =
    if b == key then found i else if ltb key b then insert_at i else search_key key m (suc i)

-- `match … { Ok(i) => i, Err(0) => unreachable!(), Err(i) => i - 1 }`
unfoldable pub first_span : Found → Outcome ReadError ℕ
first_span (found i) = ok i
first_span (insert_at zero) = panic
first_span (insert_at (suc i)) = ok i

-- `self.spans[i]`, `self.extents[i]`
abbrev pub index {ℓ} : {A : Type ℓ} → List A → ℕ → Outcome ReadError A
index xs i = elim (get_elem? xs i) [ none ↦ panic | some x ↦ ok x ]

module _ (cache : Cache) (order : ByteOrder) (deflate : Deflate) where
  -- The `while` loop: `left` is the length of `buf`, and `out` is what has been filled.
  unfoldable pub read_loop : ℕ → VmdkReader → ℕ → ℕ → ℕ → ℕ → Bytes → Outcome ReadError Bytes
  read_loop zero v i offset end left out = if ltb offset end then hang else ok out
  read_loop (suc fuel) v i offset end left out = elim (ltb offset end) [
    | false ↦ ok out
    | true ↦ do
      span ← index v.spans i
      ex ← index v.extents span.1.1
      let r = min (sub64 span.1.0 offset) left
      bytes ← read_storage cache order deflate ex.storage offset r
      let offset' = add64 offset (length bytes)
      read_loop fuel v (if leb span.1.0 offset' then suc i else i) offset' end (left - length bytes)
          (out ++ bytes)
  ]

  -- The bytes that the buffer of length `n` is limited to.
  abbrev pub limited : ℕ → ℕ → ℕ → ℕ
  limited image_end beg n = if ltb image_end (add64 beg n) then sub64 image_end beg else n

  -- `read_at_offset` into a buffer of `n` bytes: the number that it returns, and what it fills.
  -- Each round takes a byte or a span, so the fuel is enough.
  unfoldable pub read_at_offset : VmdkReader → ℕ → ℕ → Outcome ReadError (ℕ × Bytes)
  read_at_offset v offset n =
      if ltb v.image_size offset then err (offset_beyond_end offset v.image_size) else (do
        let left = limited v.image_size offset n
        let end = add64 offset left
        i ← first_span (search_key offset v.spans 0)
        out ← read_loop (left + length v.spans) v i offset end left []
        ok (sub64 end offset, out))
