-- ===== src/Open/Kept.antt =====
-- The loop of `VmdkReader::open` in src/vmdk_reader.rs over the images of a chain: each extent has a source of
-- its own, and what an earlier image has added stays.
use vmdk_rs.Base.{
  nat_eq, mul64, ℕ, zero, suc, ◌≤◌, ◌≡◌, refl, subst, Bool, true, false, ◌&&◌, ◌==◌, List, [], ◌∷◌,
  ◌++◌, Option, none, some, length, arith, inl, inr, Option-cases,
}
use vmdk_rs.Base.Outcome.{ok, map_err, bind_ok, ok_injective}
use vmdk_rs.Crates.{ByteOrder}
use vmdk_rs.Text.{Text}
use vmdk_rs.Description.{extract_extent_descriptions}
use vmdk_rs.Descriptor.{extract_parent_fn_hint}
use vmdk_rs.Storage.{ExtentStorage, sparse, flat, zeroed, handle, sector_size}
use vmdk_rs.Errors.{of_io, of_kind}
use vmdk_rs.Header.{check_signature}
use vmdk_rs.Extent.{Extent, spans, has_file}
use vmdk_rs.Extents.{Host, read_extents}
use vmdk_rs.Spans.Map.{is_empty}
use vmdk_rs.Image.{Covering, next_idx, add_spans, add_extents}
use vmdk_rs.Open.{
  is_vmdk4, read_descriptor, descriptions, parent_of, handle_image, img_loop, total_sectors,
}
use vmdk_rs.Open.Owner.{Extension}
use vmdk_rs.Open.Chain.{img_loop-Round, img_loop-zero, in_time_ok}
use vmdk_rs.Open.Handles.{
  file_of, HandlesFrom, Consecutive, HandlesFrom-append, HandlesFrom-le, KeepsOthers, Kept,
  add_source-Kept, read_extents_loop-Kept,
}

has_file_of : (st : ExtentStorage) (k : ℕ) → file_of st ≡ some k → has_file st ≡ true
unfolding has_file
has_file_of (sparse s) k e = refl
has_file_of (flat s) k e = refl
has_file_of zeroed k e = cc

-- Where adding extents ends: the sources of all extents are before the next index.
abbrev Handled : ℕ → Option Extension → Type 0
Handled idx none = Unit
Handled idx (some r) = HandlesFrom 0 r.1.0 r.1.1.0 × (idx ≤ r.1.0)

Handled-rest :
    (b : Bool) (idx k : ℕ) (es : List Extent) (c : Covering) (rest : Option Extension)
    → idx ≤ k
    → HandlesFrom 0 k es
    → Handled k rest
    → Handled idx (elim b [ true ↦ some (true, (k, (es, c))) | false ↦ rest ])
Handled-rest true idx k es c rest l h r = (h, l)
Handled-rest false idx k es c none l h r = tt
Handled-rest false idx k es c (some x) l h r = (r.0, omega (arith, r.1))

add_extents-Handled :
    (exs : List Extent) (idx : ℕ) (extents : List Extent) (c : Covering)
    → Consecutive idx exs
    → HandlesFrom 0 idx extents
    → Handled idx (add_extents exs idx extents c)
unfolding add_extents
add_extents-Handled [] idx extents c k h = (h, omega arith)
add_extents-Handled (ex ∷ exs) idx extents c k h =
    elim (Option-cases (add_spans (length extents) (spans ex) c)) [
      | inl e ↦ rw e tt
      | inr (d, e) ↦
          let i = next_idx ex idx in
          let q : suc idx ≡ i = rw (has_file_of ex.storage idx k.0) refl in
          let h1 = HandlesFrom-append 0 idx extents ex h k.0 in
          let h2 = subst (λ t. HandlesFrom 0 t (extents ++ ex ∷ [])) q h1 in
          let more = add_extents exs i (extents ++ ex ∷ []) d in
          rw e (
            Handled-rest (is_empty d.uncovered) idx i (extents ++ ex ∷ []) d more (omega (arith, q))
              h2
              (add_extents-Handled exs i (extents ++ ex ∷ []) d
                (subst (λ t. Consecutive t exs) q k.1) h2))
    ]

Handled-some :
    (idx : ℕ) (o : Option Extension) (r : Extension)
    → Handled idx o
    → o ≡ some r
    → HandlesFrom 0 r.1.0 r.1.1.0 × (idx ≤ r.1.0)
Handled-some idx o r h e = subst (Handled idx) e h

module _ (host : Host) (order : ByteOrder) (captures : Text → Option Text)
    (keeps : KeepsOthers host) where
  open host use {Url, Source, Sources, join, source_for_url, add_source}

  handle_image-Kept :
      (steps : ℕ) (url : Url) (idx : ℕ) (sources : Sources)
      (r : List Extent × (Option Url × Sources))
      → handle_image host order captures steps url idx sources ≡ ok r
      → Consecutive (suc idx) r.0 × Kept host order keeps idx sources r.1.1
  unfolding handle_image read_extents
  handle_image-Kept steps url idx sources r e =
      let (src, a, e1) = bind_ok (source_for_url url) _ r e in
      let sources1 = add_source idx src sources in
      let cache = host.cache sources1 in
      let (ft, b, e2) = bind_ok (map_err of_io (check_signature cache order (handle idx))) _ r e1 in
      let (text, c, e3) =
        bind_ok (map_err of_kind (read_descriptor cache order steps ft.0 ft.1)) _ r e2 in
      let (eds, d, e4) = bind_ok (descriptions (extract_extent_descriptions text)) _ r e3 in
      let singular = is_vmdk4 ft.0 && length eds == 1 in
      let (more, f, e5) =
        bind_ok (read_extents host order url eds singular (suc idx) sources1) _ r e4 in
      let (parent, g, e6) =
        bind_ok (parent_of host order captures url (extract_parent_fn_hint captures text)) _ r e5 in
      let (con, kept) =
        read_extents_loop-Kept host order keeps url singular 0 (suc idx) eds sources1 more f in
      subst
        (λ (t : List Extent × (Option Url × Sources)).
          Consecutive (suc idx) t.0 × Kept host order keeps idx sources t.1.1)
        (ok_injective (more.0, (parent, more.1)) r e6)
        (
          con,
          λ j byte size h s.
              kept j byte size (omega arith) (
                add_source-Kept host order keeps idx idx src sources (omega arith) j byte size h s),
        )

  -- Where the loop over the images of a chain returns, from index `idx` on and with extents whose sources
  -- are before it, in a cache where an added source replaces no other: each extent reads from a source of
  -- its own, in the order of the extents, and what was served before index `idx` still is.
  pub img_loop-Kept :
      (steps fuel : ℕ) (url : Url) (idx : ℕ) (image_size : Option ℕ) (extents : List Extent)
      (c : Covering) (sources : Sources) (r : ℕ × (List Extent × (Covering × Sources)))
      → HandlesFrom 0 idx extents
      → img_loop host order captures steps fuel url idx image_size extents c sources ≡ ok r
      → (hi : ℕ) × HandlesFrom 0 hi r.1.0 × Kept host order keeps idx sources r.1.1.1
  img_loop-Kept steps zero url idx image_size extents c sources r h e =
      absurd (img_loop-zero host order captures steps url idx image_size extents c sources r e)
  img_loop-Kept steps (suc fuel) url idx image_size extents c sources r h e =
      let (a, ea, c1, ec, b, eb, next) =
        img_loop-Round host order captures steps fuel url idx image_size extents c sources r e in
      let size = mul64 (total_sectors 0 a.0) sector_size in
      let (con, kept) = handle_image-Kept steps url idx sources a ea in
      let h1 = HandlesFrom-le 0 idx (suc idx) extents (omega arith) h in
      let (h2, l) =
        Handled-some (suc idx) (add_extents a.0 (suc idx) extents c1) b
          (add_extents-Handled a.0 (suc idx) extents c1 con h1)
          (in_time_ok (add_extents a.0 (suc idx) extents c1) b eb) in
      elim next [
        | inl q ↦
            subst
              (λ (x : ℕ × (List Extent × (Covering × Sources))).
                (hi : ℕ) × HandlesFrom 0 hi x.1.0 × Kept host order keeps idx sources x.1.1.1)
              q (b.1.0, h2, kept)
        | inr (u, f) ↦
            let (hi, h3, kept') =
              img_loop-Kept steps fuel u b.1.0 (some size) b.1.1.0 b.1.1.1 a.1.1 r h2 f in
            (hi, h3, λ j byte n k s. kept' j byte n (omega (arith, l)) (kept j byte n k s))
      ]
