-- ===== src/Foyer/Coherent.antt =====
-- The chunks that src/foyercache.rs gets, whatever its cache has kept or dropped.
use vmdk_rs.Base.{
  u64_mod, add64, ℕ, ◌+◌, ◌-◌, ◌<◌, ◌≡◌, ◌⊎◌, inl, inr, refl, ap, ◌∙◌, sym, List, [], ◌∷◌, map, min,
  tabulate, arith,
}
use vmdk_rs.Base.Outcome.{Outcome, ok, ok_injective}
use vmdk_rs.Io.{Bytes, IoError}
use vmdk_rs.Sources.{BytesSource}
use vmdk_rs.Sources.Read.{HoldsBytes}
use vmdk_rs.Foyer.{HybridCache, fetch, cons_chunk, join_chunk, fetch_chunks}

-- What is asked of the crate foyer: `get_or_fetch` returns what the cache held for the key or what was
-- fetched, afterwards the cache holds nothing else, and it fails only where the fetch fails. What it
-- drops is not said.
pub record IsCache (foyer : HybridCache) : Type 1 where
  pub Holds : foyer.Store → ℕ × ℕ → Bytes → Type 0
  pub returned :
      (key : ℕ × ℕ) (f : Outcome IoError Bytes) (s : foyer.Store) (b : Bytes)
      → (foyer.get_or_fetch key f s).0 ≡ ok b
      → Holds s key b ⊎ (f ≡ ok b)
  pub kept :
      (key other : ℕ × ℕ) (f : Outcome IoError Bytes) (s : foyer.Store) (b : Bytes)
      → Holds (foyer.get_or_fetch key f s).1 other b
      → Holds s other b ⊎ ((other ≡ key) × (f ≡ ok b))
  pub succeeds :
      (key : ℕ × ℕ) (f : Outcome IoError Bytes) (s : foyer.Store) (b : Bytes)
      → f ≡ ok b
      → (c : Bytes) × ((foyer.get_or_fetch key f s).0 ≡ ok c)

-- The chunk at `c` of a source.
abbrev pub chunk : (ℕ → ℕ) → ℕ → ℕ → ℕ → Bytes
chunk byte size chlen c = tabulate byte c (min (c + chlen) size - c)

-- What the sources hold, by their index.
pub record Contents : Type 0 where
  pub byte : ℕ → ℕ → ℕ
  pub size : ℕ → ℕ

abbrev pub AllBefore : ℕ → List ℕ → Type 0
AllBefore w [] = Unit
AllBefore w (c ∷ cs) = (c < w) × AllBefore w cs

fetch_lem :
    (chlen : ℕ) (source : BytesSource) (byte : ℕ → ℕ) (size c : ℕ) (foyer : HybridCache)
    → HoldsBytes source byte size
    → 0 < chlen
    → size + chlen < u64_mod
    → c < size
    → fetch foyer chlen source size c ≡ ok (chunk byte size chlen c)
fetch_lem chlen source byte size c foyer h p w l =
    let a : add64 c chlen ≡ c + chlen = omega arith in
    ap (λ e. source.read c (min e size)) a
    ∙ h.reads c (min (c + chlen) size) (omega arith) (omega arith)

module _ (foyer : HybridCache) (laws : IsCache foyer) (contents : Contents) (chlen : ℕ) where
  open foyer use {Store, get_or_fetch}

  -- The cache holds for a key the chunk of the source or nothing.
  abbrev pub Coherent : Store → Type 0
  Coherent s =
      (idx c : ℕ) (b : Bytes)
      → laws.Holds s (idx, c) b
      → b ≡ chunk (contents.byte idx) (contents.size idx) chlen c

  join_chunk-ok :
      (x : Outcome IoError Bytes × Store) (ch : Bytes)
      (others : Store → Outcome IoError (List Bytes) × Store)
      → x.0 ≡ ok ch
      → join_chunk foyer x others ≡ cons_chunk foyer ch (others x.1)
  join_chunk-ok (o, s) ch others e = ap (λ p. join_chunk foyer (p, s) others) e

  cons_chunk-ok :
      (x : Outcome IoError (List Bytes) × Store) (ch : Bytes) (chs : List Bytes)
      → x.0 ≡ ok chs
      → cons_chunk foyer ch x ≡ (ok (ch ∷ chs), x.1)
  cons_chunk-ok (o, s) ch chs e = ap (λ p. cons_chunk foyer ch (p, s)) e

  module _ (idx : ℕ) (source : BytesSource) (pos : 0 < chlen)
      (holds : HoldsBytes source (contents.byte idx) (contents.size idx))
      (fits : contents.size idx + chlen < u64_mod) where
    abbrev chunk_at : ℕ → Bytes
    chunk_at c = chunk (contents.byte idx) (contents.size idx) chlen c

    abbrev fetched : ℕ → Outcome IoError Bytes
    fetched c = fetch foyer chlen source (contents.size idx) c

    get_chunk :
        (c : ℕ) (s : Store)
        → c < contents.size idx
        → Coherent s
        → ((get_or_fetch (idx, c) (fetched c) s).0 ≡ ok (chunk_at c))
          × Coherent (get_or_fetch (idx, c) (fetched c) s).1
    get_chunk c s h k =
        let f =
          fetch_lem chlen source (contents.byte idx) (contents.size idx) c foyer holds pos fits h in
        let (b, e) = laws.succeeds (idx, c) (fetched c) s (chunk_at c) f in
        let same : b ≡ chunk_at c = elim (laws.returned (idx, c) (fetched c) s b e) [
          | inl q ↦ k idx c b q
          | inr q ↦ ok_injective b (chunk_at c) (sym q ∙ f)
        ] in
        (
          e ∙ ap (λ t. ok t) same,
          λ i d b' q. elim (laws.kept (idx, c) (i, d) (fetched c) s b' q) [
            | inl r ↦ k i d b' r
            | inr (r, g) ↦
                ok_injective b' (chunk_at c) (sym g ∙ f)
                ∙ ap (λ (t : ℕ × ℕ). chunk (contents.byte t.0) (contents.size t.0) chlen t.1)
                    (sym r)
          ],
        )

    -- The chunks are those of the source, and the cache stays coherent.
    pub fetch_chunks_lem :
        (cs : List ℕ) (s : Store)
        → AllBefore (contents.size idx) cs
        → Coherent s
        → ((fetch_chunks foyer chlen idx source (contents.size idx) cs s).0 ≡ ok (map chunk_at cs))
          × Coherent (fetch_chunks foyer chlen idx source (contents.size idx) cs s).1
    unfolding fetch_chunks
    fetch_chunks_lem [] s h k = (refl, k)
    fetch_chunks_lem (c ∷ cs) s h k =
        let x = get_or_fetch (idx, c) (fetched c) s in
        let (e, k1) = get_chunk c s h.0 k in
        let others = fetch_chunks foyer chlen idx source (contents.size idx) cs in
        let (e2, k2) = fetch_chunks_lem cs x.1 h.1 k1 in
        let q =
          join_chunk-ok x (chunk_at c) others e
          ∙ cons_chunk-ok (others x.1) (chunk_at c) (map chunk_at cs) e2 in
        rw q (refl, k2)
