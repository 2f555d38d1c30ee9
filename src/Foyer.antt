-- ===== src/Foyer.antt =====
-- src/foyercache.rs: reads in chunks, through a cache of the crate foyer. The futures of the chunks run
-- in their order here. The two iterators of the read-ahead are not run in the source, since an iterator
-- that nothing consumes calls nothing.
pub mod Coherent
pub mod Copy
pub mod Read
pub mod Setup
pub mod Fresh
use vmdk_rs.Base.{
  add64, sub64, mul64, ℕ, zero, suc, ◌+◌, ◌-◌, ◌/◌, List, [], ◌∷◌, ◌++◌, Option, none, some, Bool,
  true, false, ◌&&◌, ltb, leb, ◌==◌, if◌then◌else◌, length, take, drop, min,
}
use vmdk_rs.Base.Outcome.{Outcome, ok, err, panic, hang, ◌>>=◌}
use vmdk_rs.Io.{Bytes, IoError, source_failed}
use vmdk_rs.Sources.{BytesSource, source_at}

-- `HybridCache<(usize, u64), Vec<u8>>` of the crate foyer. `get_or_fetch key fetched` returns what the
-- cache holds for the key, or what the source has fetched.
pub record HybridCache : Type 1 where
  pub Store : Type 0
  pub get_or_fetch : ℕ × ℕ → Outcome IoError Bytes → Store → Outcome IoError Bytes × Store

-- `(beg..end).step_by(chlen)`, on fuel of `end - beg`: a step is 1 at least.
unfoldable pub step_by : ℕ → ℕ → ℕ → ℕ → List ℕ
step_by zero chlen beg end = []
step_by (suc fuel) chlen beg end =
    let rest = step_by fuel chlen (beg + chlen) end in if ltb beg end then beg ∷ rest else []

-- `buf[bbeg..bend].copy_from_slice(&ch[chbeg..chend])`. A slice out of range is a panic.
unfoldable pub copy_slice : ℕ → ℕ → Bytes → ℕ → ℕ → Bytes → Outcome IoError (ℕ × Bytes)
copy_slice chbeg chend ch bbeg bend buf =
    if leb bbeg bend && (leb bend (length buf) && (leb chbeg chend && leb chend (length ch)))
    then ok (bend, take bbeg buf ++ take (chend - chbeg) (drop chbeg ch) ++ drop bend buf)
    else panic

-- The round of the copy for the chunk `ch` at `choff`: `bbeg` bytes of `buf` are filled.
unfoldable pub copy_chunk : ℕ → ℕ → Bytes → ℕ → Bytes → Outcome IoError (ℕ × Bytes)
copy_chunk off choff ch bbeg buf =
    let chbeg = sub64 (add64 off bbeg) choff in
    let chend = min (add64 chbeg (sub64 (length buf) bbeg)) (length ch) in
    copy_slice chbeg chend ch bbeg (add64 bbeg (sub64 chend chbeg)) buf

-- `for (choff, ch) in (csbeg..csend).step_by(self.chlen).zip(chunks)`
unfoldable pub copy_chunks : ℕ → List ℕ → List Bytes → ℕ → Bytes → Outcome IoError Bytes
copy_chunks off [] chunks bbeg buf = ok buf
copy_chunks off (choff ∷ choffs) [] bbeg buf = ok buf
copy_chunks off (choff ∷ choffs) (ch ∷ chunks) bbeg buf = do
  (bbeg', buf') ← copy_chunk off choff ch bbeg buf
  copy_chunks off choffs chunks bbeg' buf'

-- `.map_err(std::io::Error::other)`
abbrev pub other_error {ℓ} : {A : Type ℓ} → Outcome IoError A → Outcome IoError A
other_error (ok a) = ok a
other_error (err e) = err source_failed
other_error panic = panic
other_error hang = hang

-- `self.sources.get(idx)` and its `end()`
unfoldable pub source_and_end : ℕ → List BytesSource → Outcome IoError (BytesSource × ℕ)
source_and_end idx sources = do source ← source_at idx sources; end ← source.end; ok (source, end)

module _ (foyer : HybridCache) where
  open foyer use {Store, get_or_fetch}

  -- What the closure of `make_getter` fetches.
  abbrev pub fetch : ℕ → BytesSource → ℕ → ℕ → Outcome IoError Bytes
  fetch chlen source end choff = source.read choff (min (add64 choff chlen) end)

  abbrev pub cons_chunk :
      Bytes → Outcome IoError (List Bytes) × Store → Outcome IoError (List Bytes) × Store
  cons_chunk ch (ok chunks, s) = (ok (ch ∷ chunks), s)
  cons_chunk ch (err e, s) = (err e, s)
  cons_chunk ch (panic, s) = (panic, s)
  cons_chunk ch (hang, s) = (hang, s)

  -- One chunk, and the others if it could be had.
  abbrev pub join_chunk :
      Outcome IoError Bytes × Store
      → (Store → Outcome IoError (List Bytes) × Store)
      → Outcome IoError (List Bytes) × Store
  join_chunk (ok ch, s) others = cons_chunk ch (others s)
  join_chunk (err e, s) others = (err e, s)
  join_chunk (panic, s) others = (panic, s)
  join_chunk (hang, s) others = (hang, s)

  -- `try_join_all((csbeg..csend).step_by(self.chlen).map(getter))`
  unfoldable pub fetch_chunks :
      ℕ → ℕ → BytesSource → ℕ → List ℕ → Store → Outcome IoError (List Bytes) × Store
  fetch_chunks chlen idx source end [] s = (ok [], s)
  fetch_chunks chlen idx source end (choff ∷ choffs) s =
      join_chunk (get_or_fetch (idx, choff) (fetch chlen source end choff) s)
        (fetch_chunks chlen idx source end choffs)

  -- The copy of the chunks that have been fetched.
  abbrev pub copy_fetched :
      ℕ → List ℕ → Bytes → Outcome IoError (List Bytes) × Store → Outcome IoError Bytes × Store
  copy_fetched off choffs buf (chunks, s) =
      ((do chs ← other_error chunks; copy_chunks off choffs chs 0 buf), s)

  -- The chunks of `[off, off + buf.len())` from a source up to its end.
  abbrev pub read_chunks :
      ℕ → ℕ → ℕ → Bytes → Store → Outcome IoError (BytesSource × ℕ) → Outcome IoError Bytes × Store
  read_chunks chlen idx off buf s (ok (source, end)) =
      let csbeg = mul64 (off / chlen) chlen in
      let csend = add64 off (length buf) in
      let choffs = step_by (csend - csbeg) chlen csbeg csend in
      copy_fetched off choffs buf (fetch_chunks chlen idx source end choffs s)
  read_chunks chlen idx off buf s (err e) = (err e, s)
  read_chunks chlen idx off buf s panic = (panic, s)
  read_chunks chlen idx off buf s hang = (hang, s)

  -- `FoyerCache::read` into `buf`. A chunk length of 0 is a division by zero.
  unfoldable pub foyer_read :
      ℕ → List BytesSource → ℕ → ℕ → Bytes → Store → Outcome IoError Bytes × Store
  foyer_read zero sources idx off buf s = (panic, s)
  foyer_read (suc c) sources idx off buf s =
      read_chunks (suc c) idx off buf s (source_and_end idx sources)
