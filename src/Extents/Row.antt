-- ===== src/Extents/Row.antt =====
-- The extents that `read_extents` of src/extents.rs returns stand one behind the other.
use vmdk_rs.Base.{add64, ℕ, suc, ◌≡◌, refl, subst, List, [], ◌∷◌, Bool, not, ◌&&◌}
use vmdk_rs.Base.Outcome.{ok, map_err, bind_ok, ok_injective}
use vmdk_rs.Crates.{ByteOrder}
use vmdk_rs.Description.{ExtentDescription, filename_of}
use vmdk_rs.Storage.{handle}
use vmdk_rs.Errors.{of_kind, with_path}
use vmdk_rs.Extent.{Extent}
use vmdk_rs.Extents.{
  Host, url_of, filename, or_current, read_extent, read_extents_loop, read_extents,
}

-- An extent for each description, with its number of sectors and behind the sectors of the ones before.
abbrev pub InRow : ℕ → List ExtentDescription → List Extent → Type 0
InRow start [] [] = Unit
InRow start [] (ex ∷ exs) = ⊥
InRow start (ed ∷ eds) [] = ⊥
InRow start (ed ∷ eds) (ex ∷ exs) =
    (ex.start_sector ≡ start) × (ex.sectors ≡ ed.sectors) × InRow (add64 start ed.sectors) eds exs

module _ (host : Host) (order : ByteOrder) where
  open host use {Url, Source, Sources, join, same, as_text, source_for_url, add_source}

  loop-InRow :
      (url : Url) (singular : Bool) (start idx : ℕ) (eds : List ExtentDescription)
      (sources : Sources) (r : List Extent × Sources)
      → read_extents_loop host order url singular start idx eds sources ≡ ok r
      → InRow start eds r.0
  unfolding read_extents_loop
  loop-InRow url singular start idx [] sources r e =
      subst (λ (t : List Extent × Sources). InRow start [] t.0) (ok_injective ([], sources) r e) tt
  loop-InRow url singular start idx (ed ∷ eds) sources r e =
      let (name, a, e1) = bind_ok (filename host order (filename_of ed.kind)) _ r e in
      let (u, b, e2) = bind_ok (url_of host order name (join url name)) _ r e1 in
      let (src, c, e3) =
        bind_ok
          (or_current host order (singular && not (same u url)) (source_for_url u)
            (source_for_url url))
          _ r e2 in
      let sources' = add_source idx src sources in
      let (storage, d, e4) =
        bind_ok
          (map_err (λ k. with_path (as_text u) (of_kind k))
            (read_extent (host.cache sources') order ed.kind start (handle idx)))
          _ r e3 in
      let (rest, f, e5) =
        bind_ok
          (read_extents_loop host order url singular (add64 start ed.sectors) (suc idx) eds
            sources')
          _ r e4 in
      subst (λ (t : List Extent × Sources). InRow start (ed ∷ eds) t.0) (ok_injective _ r e5)
        (refl, refl, loop-InRow url singular (add64 start ed.sectors) (suc idx) eds sources' rest f)

  -- Where `read_extents` returns, there is one extent for each description, in their order, each with the
  -- sectors of its description and starting where the one before ends, from sector 0 on.
  pub read_extents-InRow :
      (url : Url) (eds : List ExtentDescription) (singular : Bool) (idx : ℕ) (sources : Sources)
      (r : List Extent × Sources)
      → read_extents host order url eds singular idx sources ≡ ok r
      → InRow 0 eds r.0
  unfolding read_extents
  read_extents-InRow url eds singular idx sources r e =
      loop-InRow url singular 0 idx eds sources r e
