-- ===== src/Io.antt =====
-- Reading through a cache: src/cache.rs (the trait), src/cachereadseek.rs, and the provided method
-- `read_exact` of `std::io::Read`.
pub mod Exact
use vmdk_rs.Base.{
  u64_mod, add64, sub64, ℕ, zero, suc, ◌+◌, ◌-◌, ◌^◌, List, [], ◌∷◌, ◌++◌, Option, none, some, Bool,
  ltb, leb, ◌==◌, if◌then◌else◌, length, min,
}
use vmdk_rs.Base.Outcome.{Outcome, ok, err, panic, hang, ◌>>=◌}

abbrev pub Bytes : Type 0
Bytes = List ℕ

-- The kinds of `std::io::Error` that the program makes or passes on.
pub data IoError : Type 0 where
  unexpected_eof : IoError
  seek_past_end : IoError
  seek_negative : IoError
  crazy_grain_index : ℕ → IoError
  bad_l1_entry : IoError
  bad_l2_entry : IoError
  source_out_of_bounds : ℕ → IoError
  source_failed : IoError
  invalid_utf8 : IoError

-- `trait Cache`, after its sources have been added. `read idx off n` fills a buffer of `n` bytes.
pub record Cache : Type 0 where
  pub read : ℕ → ℕ → ℕ → Outcome IoError Bytes
  pub end : ℕ → Outcome IoError ℕ

-- `i64`
pub data ℤ : Type 0 where
  pos : ℕ → ℤ
  negsuc : ℕ → ℤ

pub data SeekFrom : Type 0 where
  from_start : ℕ → SeekFrom
  from_end : ℤ → SeekFrom
  from_current : ℤ → SeekFrom

-- `CacheReadSeek`: the cache and the runtime are arguments of its methods here.
pub record CacheReadSeek : Type 0 where
  pub idx : ℕ
  pub pos : ℕ

-- `u64::checked_add_signed`
abbrev pub checked_add_signed : ℕ → ℤ → Option ℕ
checked_add_signed base (pos k) = if ltb (base + k) u64_mod then some (base + k) else none
checked_add_signed base (negsuc k) = if ltb k base then some (base - suc k) else none

-- `let (base, offset) = match pos …`
abbrev pub seek_base : ℕ → ℕ → SeekFrom → ℕ × ℤ
seek_base last here (from_start n) = (n, ℤ.pos 0)
seek_base last here (from_end n) = (last, n)
seek_base last here (from_current n) = (here, n)

abbrev pub seek_to : CacheReadSeek → ℕ → Option ℕ → Outcome IoError CacheReadSeek
seek_to f last none = err seek_negative
seek_to f last (some n) =
    if leb n last then ok (record { idx = f.idx; pos = n }) else err seek_past_end

module _ (cache : Cache) where
  -- `CacheReadSeek::read` into a buffer of `n` bytes. A slice `buf[..len]` out of range is a panic.
  unfoldable pub read : ℕ → CacheReadSeek → Outcome IoError (Bytes × CacheReadSeek)
  read n f = do
    send ← cache.end f.idx
    let rend = min send (add64 f.pos n)
    let len = sub64 rend f.pos
    if ltb n len
        then panic
        else if ltb 0 len
        then (do bytes ← cache.read f.idx f.pos len; ok (bytes, record { idx = f.idx; pos = rend }))
        else ok ([], f)

  -- `CacheReadSeek::seek`
  unfoldable pub seek : SeekFrom → CacheReadSeek → Outcome IoError CacheReadSeek
  seek to f = do
    last ← cache.end f.idx
    let base = seek_base last f.pos to
    seek_to f last (checked_add_signed base.0 base.1)

  -- `Read::read_exact` with `left` bytes of the buffer still to fill; `got` is what is there.
  unfoldable pub read_exact_loop :
      ℕ → ℕ → Bytes → CacheReadSeek → Outcome IoError (Bytes × CacheReadSeek)
  read_exact_loop fuel zero got f = ok (got, f)
  read_exact_loop zero (suc left) got f = hang
  read_exact_loop (suc fuel) (suc left) got f = do
    (bytes, f') ← read (suc left) f
    elim bytes [
      | [] ↦ err unexpected_eof
      | b ∷ bs ↦ read_exact_loop fuel (left - length bs) (got ++ b ∷ bs) f'
    ]

  -- Each round takes a byte at least.
  unfoldable pub read_exact : ℕ → CacheReadSeek → Outcome IoError (Bytes × CacheReadSeek)
  read_exact n f = read_exact_loop n n [] f
