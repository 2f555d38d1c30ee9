-- ===== src/Open/Handles.antt =====
-- The sources that `VmdkReader::open` of src/vmdk_reader.rs adds to the cache: no two extents of the chain
-- share one, and none is replaced.
use vmdk_rs.Base.{
  nat_eq, add64, ℕ, suc, ◌≤◌, ◌<◌, ◌≡◌, ◌≢◌, ap, sym, subst, Bool, not, ◌&&◌, List, [], ◌∷◌, ◌++◌,
  Option, none, some, arith,
}
use vmdk_rs.Base.Outcome.{ok, map_err, map_err_ok, bind_ok, ok_injective}
use vmdk_rs.Crates.{ByteOrder}
use vmdk_rs.Io.{Cache}
use vmdk_rs.Io.Exact.{Serves}
use vmdk_rs.Description.{ExtentDescription, ExtentDescriptionInner, filename_of}
use vmdk_rs.Storage.{ExtentStorage, sparse, flat, zeroed, handle}
use vmdk_rs.Errors.{io_error, of_kind, with_path}
use vmdk_rs.Header.{read_header_sparse, read_header_sesparse}
use vmdk_rs.Grains.{read_grain_table_sparse, read_grain_table_sesparse}
use vmdk_rs.Extent.{Extent}
use vmdk_rs.Extents.{
  Host, url_of, filename, or_current, read_extent_sparse, read_extent_sesparse, read_extent,
  read_extents_loop,
}

-- The source that a storage reads from.
abbrev pub file_of : ExtentStorage → Option ℕ
file_of (sparse s) = some s.file
file_of (flat s) = some s.file
file_of zeroed = none

-- The extents read from sources of their own, in increasing order from `lo` on and before `hi`.
abbrev pub HandlesFrom : ℕ → ℕ → List Extent → Type 0
HandlesFrom lo hi [] = lo ≤ hi
HandlesFrom lo hi (ex ∷ exs) =
    (k : ℕ) × (lo ≤ k) × (file_of ex.storage ≡ some k) × HandlesFrom (suc k) hi exs

-- The extents read from the sources `k`, `k + 1` and so on.
abbrev pub Consecutive : ℕ → List Extent → Type 0
Consecutive k [] = Unit
Consecutive k (ex ∷ exs) = (file_of ex.storage ≡ some k) × Consecutive (suc k) exs

pub HandlesFrom-append :
    (lo hi : ℕ) (exs : List Extent) (ex : Extent)
    → HandlesFrom lo hi exs
    → file_of ex.storage ≡ some hi
    → HandlesFrom lo (suc hi) (exs ++ ex ∷ [])
HandlesFrom-append lo hi [] ex h e = (hi, h, e, omega arith)
HandlesFrom-append lo hi (x ∷ exs) ex (k, l, f, h) e =
    (k, l, f, HandlesFrom-append (suc k) hi exs ex h e)

pub HandlesFrom-le :
    (lo hi hi' : ℕ) (exs : List Extent) → hi ≤ hi' → HandlesFrom lo hi exs → HandlesFrom lo hi' exs
HandlesFrom-le lo hi hi' [] l h = omega arith
HandlesFrom-le lo hi hi' (x ∷ exs) l (k, p, f, h) = (k, p, f, HandlesFrom-le (suc k) hi hi' exs l h)

module _ (cache : Cache) (order : ByteOrder) where
  read_extent_sparse-file :
      (start k : ℕ) (st : ExtentStorage)
      → read_extent_sparse cache order start (handle k) ≡ ok st
      → file_of st ≡ some k
  read_extent_sparse-file start k st e =
      let (h, _, e1) = bind_ok (read_header_sparse cache order (handle k)) _ st e in
      let (t, _, e2) =
        bind_ok (map_err io_error (read_grain_table_sparse cache order h start (handle k))) _ st
          e1 in
      ap file_of (sym (ok_injective _ st e2))

  read_extent_sesparse-file :
      (start k : ℕ) (st : ExtentStorage)
      → read_extent_sesparse cache order start (handle k) ≡ ok st
      → file_of st ≡ some k
  read_extent_sesparse-file start k st e =
      let (h, _, e1) = bind_ok (read_header_sesparse cache order (handle k)) _ st e in
      let (t, _, e2) =
        bind_ok (map_err io_error (read_grain_table_sesparse cache order h start (handle k))) _ st
          e1 in
      ap file_of (sym (ok_injective _ st e2))

  -- An extent reads from the source that it was opened with.
  read_extent-file :
      (kind : ExtentDescriptionInner) (start k : ℕ) (st : ExtentStorage)
      → read_extent cache order kind start (handle k) ≡ ok st
      → file_of st ≡ some k
  unfolding read_extent
  read_extent-file (ExtentDescriptionInner.sparse f) start k st e =
      read_extent_sparse-file start k st e
  read_extent-file (ExtentDescriptionInner.vmfs_sparse f) start k st e =
      read_extent_sparse-file start k st e
  read_extent-file (ExtentDescriptionInner.se_sparse f) start k st e =
      read_extent_sesparse-file start k st e
  read_extent-file (ExtentDescriptionInner.vmfs f) start k st e =
      ap file_of (sym (ok_injective _ st e))
  read_extent-file (ExtentDescriptionInner.flat f o) start k st e =
      ap file_of (sym (ok_injective _ st e))
  read_extent-file (ExtentDescriptionInner.vmfs_raw f) start k st e = cc
  read_extent-file (ExtentDescriptionInner.vmfs_rdm f) start k st e = cc
  read_extent-file ExtentDescriptionInner.zeroed start k st e = cc

-- An added source replaces none that is served at another index.
abbrev pub KeepsOthers : Host → Type 0
KeepsOthers host =
    (i j : ℕ) (src : host.Source) (sources : host.Sources) (byte : ℕ → ℕ) (size : ℕ)
    → i ≢ j
    → Serves (host.cache sources) j byte size
    → Serves (host.cache (host.add_source i src sources)) j byte size

module _ (host : Host) (order : ByteOrder) (keeps : KeepsOthers host) where
  open host use {Url, Source, Sources, join, same, as_text, source_for_url, add_source}

  -- What is served before index `k` still is.
  abbrev pub Kept : ℕ → Sources → Sources → Type 0
  Kept k sources sources' =
      (j : ℕ) (byte : ℕ → ℕ) (size : ℕ)
      → j < k
      → Serves (host.cache sources) j byte size
      → Serves (host.cache sources') j byte size

  pub add_source-Kept :
      (k i : ℕ) (src : Source) (sources : Sources)
      → k ≤ i
      → Kept k sources (add_source i src sources)
  add_source-Kept k i src sources l j byte size h s =
      keeps i j src sources byte size (λ e. omega (arith, e)) s

  pub read_extents_loop-Kept :
      (url : Url) (singular : Bool) (start idx : ℕ) (eds : List ExtentDescription)
      (sources : Sources) (r : List Extent × Sources)
      → read_extents_loop host order url singular start idx eds sources ≡ ok r
      → Consecutive idx r.0 × Kept idx sources r.1
  unfolding read_extents_loop
  read_extents_loop-Kept url singular start idx [] sources r e =
      subst (λ (t : List Extent × Sources). Consecutive idx t.0 × Kept idx sources t.1)
        (ok_injective ([], sources) r e) (tt, λ j byte size h s. s)
  read_extents_loop-Kept url singular start idx (ed ∷ eds) sources r e =
      let (name, a, e1) = bind_ok (filename host order (filename_of ed.kind)) _ r e in
      let (u, b, e2) = bind_ok (url_of host order name (join url name)) _ r e1 in
      let (src, c, e3) =
        bind_ok
          (or_current host order (singular && not (same u url)) (source_for_url u)
            (source_for_url url))
          _ r e2 in
      let sources1 = add_source idx src sources in
      let (st, d, e4) =
        bind_ok
          (map_err (λ k. with_path (as_text u) (of_kind k))
            (read_extent (host.cache sources1) order ed.kind start (handle idx)))
          _ r e3 in
      let (more, f, e5) =
        bind_ok
          (read_extents_loop host order url singular (add64 start ed.sectors) (suc idx) eds
            sources1)
          _ r e4 in
      let (con, kept) =
        read_extents_loop-Kept url singular (add64 start ed.sectors) (suc idx) eds sources1 more
          f in
      let ex : Extent = record { start_sector = start; sectors = ed.sectors; storage = st } in
      subst (λ (t : List Extent × Sources). Consecutive idx t.0 × Kept idx sources t.1)
        (ok_injective (ex ∷ more.0, more.1) r e5)
        (
          (
            read_extent-file (host.cache sources1) order ed.kind start idx st
                (map_err_ok (λ k. with_path (as_text u) (of_kind k)) _ st d),
            con,
          ),
          λ j byte size h s.
              kept j byte size (omega arith)
                (add_source-Kept idx idx src sources (omega arith) j byte size h s),
        )
