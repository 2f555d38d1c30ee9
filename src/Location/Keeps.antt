-- ===== src/Location/Keeps.antt =====
-- A source that is added to the cache of src/foyercache.rs replaces none that is served at another index.
use vmdk_rs.Base.{
  ℕ, zero, suc, ◌<◌, ◌≡◌, refl, ap, ◌∙◌, List, [], ◌∷◌, some, length, get_elem?, replicate, arith,
  inl, inr, Option-cases,
}
use vmdk_rs.Base.Outcome.{Outcome, ok}
use vmdk_rs.Io.{Bytes, IoError}
use vmdk_rs.Sources.{BytesSource, add_source, end_of}
use vmdk_rs.Sources.Read.{add_source_lem}
use vmdk_rs.Foyer.{HybridCache, foyer_read, source_and_end}
use vmdk_rs.Foyer.Setup.{Builder, FoyerCache, History, foyer_cache}
use vmdk_rs.Location.{Platform, host_on}
use vmdk_rs.Open.Handles.{KeepsOthers}

get_elem?-lt :
    (sources : List BytesSource) (j : ℕ) (s : BytesSource)
    → get_elem? sources j ≡ some s
    → j < length sources
get_elem?-lt [] j s e = cc
get_elem?-lt (x ∷ sources) zero s e = omega arith
get_elem?-lt (x ∷ sources) (suc j) s e = omega (arith, get_elem?-lt sources j s e)

end_of-lt :
    (j : ℕ) (sources : List BytesSource) (size : ℕ)
    → end_of j sources ≡ ok size
    → j < length sources
unfolding end_of
end_of-lt j sources size e = elim (Option-cases (get_elem? sources j)) [
  | inl n ↦ absurd (let f = rw n at e in cc f)
  | inr (s, n) ↦ get_elem?-lt sources j s n
]

module _ (foyer : HybridCache) (builder : Builder foyer) (c : FoyerCache foyer builder)
    (held : History foyer builder) where
  foyer_read_same :
      (j off n chlen : ℕ) (sources sources' : List BytesSource) (s : foyer.Store)
      → get_elem? sources' j ≡ get_elem? sources j
      → foyer_read foyer chlen sources' j off (replicate n 0) s
        ≡ foyer_read foyer chlen sources j off (replicate n 0) s
  unfolding foyer_read source_and_end
  foyer_read_same j off n zero sources sources' s e = refl
  foyer_read_same j off n (suc k) sources sources' s e = rw e refl

  end_of_same :
      (j : ℕ) (sources sources' : List BytesSource)
      → get_elem? sources' j ≡ get_elem? sources j
      → end_of j sources' ≡ end_of j sources
  unfolding end_of
  end_of_same j sources sources' e = rw e refl

  pub foyer_cache-KeepsOthers :
      (platform : Platform) → KeepsOthers (host_on platform (foyer_cache foyer builder c held))
  foyer_cache-KeepsOthers platform i j src sources byte size d s =
      let e = (add_source_lem i j src sources).1 d (end_of-lt j sources size s.ends) in
      record {
        ends = end_of_same j sources (add_source i src sources) e ∙ s.ends;
        reads = λ off n p l.
            ap (λ (t : Outcome IoError Bytes × foyer.Store). t.0)
              (foyer_read_same j off n c.chlen sources (add_source i src sources) (held j off n) e)
            ∙ s.reads off n p l;
        fits = s.fits;
      }
