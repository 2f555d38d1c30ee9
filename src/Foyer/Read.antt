-- ===== src/Foyer/Read.antt =====
-- `FoyerCache::read` of src/foyercache.rs returns the bytes of the source, whatever the cache has kept.
use vmdk_rs.Base.{
  u64_mod, add64, mul64, ℕ, suc, ◌+◌, ◌-◌, ◌*◌, ◌/◌, ◌≤◌, ◌<◌, ◌≡◌, refl, ap, ◌∙◌, sym, List, some,
  length, tabulate, get_elem?, map, arith,
}
use native.Mathlib.Nat.{mod-eq_of_lt, div-mul-le_self, lt-div-mul-add}
use vmdk_rs.Base.Outcome.{Outcome, ok}
use vmdk_rs.Io.{Bytes, IoError}
use vmdk_rs.Sources.{BytesSource, or_out_of_bounds, dummy_read}
use vmdk_rs.Sources.Read.{HoldsBytes, dummy_read_lem}
use vmdk_rs.Foyer.{
  HybridCache, step_by, copy_chunks, copy_fetched, fetch_chunks, source_and_end, read_chunks,
  foyer_read,
}
use vmdk_rs.Foyer.Coherent.{IsCache, Contents, Coherent, chunk, fetch_chunks_lem}
use vmdk_rs.Foyer.Copy.{copy_chunks_lem, AllBefore-step_by}

module _ (foyer : HybridCache) (laws : IsCache foyer) (contents : Contents) (c : ℕ) where
  open foyer use {Store}

  copy_fetched-ok :
      (off : ℕ) (choffs : List ℕ) (buf : Bytes) (x : Outcome IoError (List Bytes) × Store)
      (chs : List Bytes)
      → x.0 ≡ ok chs
      → copy_fetched foyer off choffs buf x ≡ (copy_chunks off choffs chs 0 buf, x.1)
  copy_fetched-ok off choffs buf (o, s) chs e = ap (λ p. copy_fetched foyer off choffs buf (p, s)) e

  module _ (sources : List BytesSource) (idx : ℕ) (source : BytesSource)
      (there : get_elem? sources idx ≡ some source)
      (holds : HoldsBytes source (contents.byte idx) (contents.size idx))
      (fits : contents.size idx + suc c < u64_mod) where
    source_lem : source_and_end idx sources ≡ ok (source, contents.size idx)
    unfolding source_and_end
    source_lem = rw (there, or_out_of_bounds) (rw holds.ends refl)

    read_step :
        (off : ℕ) (buf : Bytes) (s : Store) (size : ℕ)
        → source_and_end idx sources ≡ ok (source, size)
        → let csbeg = mul64 (off / suc c) (suc c) in
          let csend = add64 off (length buf) in
          let choffs = step_by (csend - csbeg) (suc c) csbeg csend in
          foyer_read foyer (suc c) sources idx off buf s
          ≡ copy_fetched foyer off choffs buf (fetch_chunks foyer (suc c) idx source size choffs s)
    unfolding foyer_read
    read_step off buf s size e = ap (read_chunks foyer (suc c) idx off buf s) e

    -- With chunks of `c + 1` bytes, over a source that holds its bytes and where its size and a chunk are
    -- together a `u64`, from a cache that for each key holds the chunk of the source or nothing: a read
    -- that ends in the source fills the buffer with the bytes of the source, and leaves such a cache.
    pub foyer_read_lem :
        (off : ℕ) (buf : Bytes) (s : Store)
        → off + length buf ≤ contents.size idx
        → Coherent foyer laws contents (suc c) s
        → let r = foyer_read foyer (suc c) sources idx off buf s in
          (r.0 ≡ ok (tabulate (contents.byte idx) off (length buf)))
          × Coherent foyer laws contents (suc c) r.1
    foyer_read_lem off buf s h k =
        let n = length buf in
        let q = off / suc c * suc c in
        let lo : q ≤ off = div-mul-le_self off (suc c) in
        let hi : off < q + suc c = lt-div-mul-add (omega arith) in
        let size = contents.size idx in
        let eb : mul64 (off / suc c) (suc c) ≡ q = mod-eq_of_lt (omega (arith, lo, h, fits)) in
        let ee : add64 off n ≡ off + n = omega (arith, h, fits) in
        let st = rw (eb, ee) at (read_step off buf s size source_lem) in
        let cs = step_by (off + n - q) (suc c) q (off + n) in
        let (f, k1) =
          fetch_chunks_lem foyer laws contents (suc c) idx source (omega arith) holds fits cs s
            (AllBefore-step_by (contents.byte idx) size (suc c) (omega arith) fits (off + n - q) q
              (off + n) h)
            k in
        let x = fetch_chunks foyer (suc c) idx source size cs s in
        let p =
          copy_chunks_lem (contents.byte idx) size (suc c) (omega arith) fits off n (off + n - q) q
            0 buf (refl, omega arith) refl h (omega arith) (omega (arith, lo))
            (omega (arith, hi)) in
        let all =
          st ∙ copy_fetched-ok off cs buf x (map (chunk (contents.byte idx) size (suc c)) cs) f in
        rw all (p, k1)

    -- Under the same conditions, a read of one byte or more is that of the cache that keeps nothing.
    pub foyer_read-dummy_read :
        (off : ℕ) (buf : Bytes) (s : Store)
        → 0 < length buf
        → off + length buf ≤ contents.size idx
        → Coherent foyer laws contents (suc c) s
        → (foyer_read foyer (suc c) sources idx off buf s).0
          ≡ dummy_read sources idx off (length buf)
    foyer_read-dummy_read off buf s h l k =
        (foyer_read_lem off buf s l k).0
        ∙ sym (
            dummy_read_lem sources idx off (length buf) source (contents.byte idx)
              (contents.size idx) there holds (omega (arith, fits)) h l)
