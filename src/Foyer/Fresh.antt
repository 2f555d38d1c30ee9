-- ===== src/Foyer/Fresh.antt =====
-- A cache of src/foyercache.rs that has just been set up serves the sources that are added to it.
use vmdk_rs.Base.{
  ℕ, ◌+◌, ◌<◌, ◌≤◌, ◌≡◌, ap, sym, subst, ◌∙◌, List, [], some, length-replicate, replicate, tabulate,
  get_elem?, arith,
}
use vmdk_rs.Base.Outcome.{Outcome, ok, bind_ok, map_err_ok, ok_injective, map_err}
use vmdk_rs.Text.{Text}
use vmdk_rs.Io.{Bytes, IoError}
use vmdk_rs.Io.Exact.{Serves, max_size}
use vmdk_rs.Errors.{initialization_failed, tokio_runtime_failed, cache_setup_failed}
use vmdk_rs.Sources.{BytesSource, end_of}
use vmdk_rs.Sources.Read.{HoldsBytes}
use vmdk_rs.Foyer.{HybridCache, foyer_read}
use vmdk_rs.Foyer.Coherent.{IsCache, Contents, Coherent}
use vmdk_rs.Foyer.Read.{foyer_read_lem}
use vmdk_rs.Foyer.Setup.{
  Builder, FoyerCache, new, device_for, with_default_cache, cache_disk_size, set_up, History,
  foyer_cache,
}

-- `1024 * 1024`
abbrev pub chunk_size : ℕ
chunk_size = 1048576

module _ (foyer : HybridCache) (laws : IsCache foyer) (builder : Builder foyer) where
  -- What `build` makes holds nothing yet.
  abbrev pub IsFresh : foyer.Store → Type 0
  IsFresh s = (key : ℕ × ℕ) (b : Bytes) → ¬ (laws.Holds s key b)

  with_default_cache_ok :
      (chlen mem_size disk_size readahead : ℕ) (c : FoyerCache foyer builder)
      → with_default_cache foyer builder chlen mem_size disk_size readahead ≡ ok c
      → (c.sources ≡ []) × (c.chlen ≡ chlen)
  unfolding with_default_cache
  with_default_cache_ok chlen mem_size disk_size readahead c e =
      let (dir, _, e1) = bind_ok builder.tempdir _ c e in
      let (device, _, e2) = bind_ok (device_for foyer builder dir disk_size) _ c e1 in
      let (store, _, e3) = bind_ok (builder.build mem_size device) _ c e2 in
      let q = ok_injective (new foyer builder store dir chlen readahead) c e3 in
      (
        ap (λ (t : FoyerCache foyer builder). t.sources) (sym q),
        ap (λ (t : FoyerCache foyer builder). t.chlen) (sym q),
      )

  pub set_up_ok :
      (runtime : Outcome IoError (Unit {0})) (scheme : Text) (c : FoyerCache foyer builder)
      → set_up foyer builder runtime scheme ≡ ok c
      → (c.sources ≡ []) × (c.chlen ≡ chunk_size)
  unfolding set_up
  set_up_ok runtime scheme c e =
      let (u, _, e1) =
        bind_ok (map_err (λ o. initialization_failed (tokio_runtime_failed o)) runtime) _ c e in
      let f = λ (o : IoError). initialization_failed (cache_setup_failed o) in
      let w =
        with_default_cache foyer builder chunk_size 256 (cache_disk_size foyer builder scheme) 0 in
      with_default_cache_ok chunk_size 256 (cache_disk_size foyer builder scheme) 0 c
        (map_err_ok f w c e1)

  -- What the cache can hold: what it holds when it is set up, and what a read of a source leaves, when the
  -- sources hold their contents.
  pub data Reached (contents : Contents) (c : FoyerCache foyer builder) : foyer.Store → Type 0 where
    at_start : Reached contents c c.cache
    after_read :
        (s : foyer.Store) (sources : List BytesSource) (idx off n : ℕ) (src : BytesSource)
        → Reached contents c s
        → get_elem? sources idx ≡ some src
        → HoldsBytes src (contents.byte idx) (contents.size idx)
        → contents.size idx < max_size
        → off + n ≤ contents.size idx
        → Reached contents c (foyer_read foyer c.chlen sources idx off (replicate n 0) s).1

  read_from :
      (contents : Contents) (s : foyer.Store) (sources : List BytesSource) (idx off n : ℕ)
      (src : BytesSource)
      → Coherent foyer laws contents chunk_size s
      → get_elem? sources idx ≡ some src
      → HoldsBytes src (contents.byte idx) (contents.size idx)
      → contents.size idx < max_size
      → off + n ≤ contents.size idx
      → let r = foyer_read foyer chunk_size sources idx off (replicate n 0) s in
        (r.0 ≡ ok (tabulate (contents.byte idx) off n))
        × Coherent foyer laws contents chunk_size r.1
  read_from contents s sources idx off n src k there holds w l =
      let len = length-replicate {A = ℕ} n 0 in
      let (e, k1) =
        foyer_read_lem foyer laws contents 1048575 sources idx src there holds (omega (arith, w))
          off (replicate n 0) s (omega (arith, len, l)) k in
      (e ∙ ap (λ m. ok (tabulate (contents.byte idx) off m)) len, k1)

  Reached-Coherent :
      (contents : Contents) (c : FoyerCache foyer builder) (s : foyer.Store)
      → c.chlen ≡ chunk_size
      → IsFresh c.cache
      → Reached contents c s
      → Coherent foyer laws contents chunk_size s
  Reached-Coherent contents c _ e fresh at_start = λ i k b h. absurd (fresh (i, k) b h)
  Reached-Coherent contents c _ e fresh (after_read s sources idx off n src r there holds w l) =
      let k = Reached-Coherent contents c s e fresh r in
      subst
        (λ m.
          Coherent foyer laws contents chunk_size
            (foyer_read foyer m sources idx off (replicate n 0) s).1)
        (sym e) (read_from contents s sources idx off n src k there holds w l).1

  -- Whatever earlier reads have left in the cache, a source that holds its bytes is served.
  pub foyer_cache-Serves :
      (contents : Contents) (c : FoyerCache foyer builder) (held : History foyer builder)
      (sources : List BytesSource) (idx : ℕ) (src : BytesSource)
      → c.chlen ≡ chunk_size
      → IsFresh c.cache
      → ((i off n : ℕ) → Reached contents c (held i off n))
      → get_elem? sources idx ≡ some src
      → HoldsBytes src (contents.byte idx) (contents.size idx)
      → contents.size idx < max_size
      → Serves
          (foyer_cache foyer builder c held sources)
          idx
          (contents.byte idx)
          (contents.size idx)
  unfolding end_of
  foyer_cache-Serves contents c held sources idx src e fresh reached there holds w = record {
    ends = rw there holds.ends;
    reads = λ off n p l.
        let s = held idx off n in
        let k = Reached-Coherent contents c s e fresh (reached idx off n) in
        ap (λ m. (foyer_read foyer m sources idx off (replicate n 0) s).0) e
        ∙ (read_from contents s sources idx off n src k there holds w l).0;
    fits = w;
  }
