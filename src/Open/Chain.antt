-- ===== src/Open/Chain.antt =====
-- The loop over the images of a chain in `VmdkReader::open` of src/vmdk_reader.rs.
use vmdk_rs.Base.{
  nat_eq, mul64, ℕ, zero, suc, ◌<◌, ◌≡◌, ◌≢◌, ◌⊎◌, refl, ap, sym, subst, Bool, true, false, not,
  ◌&&◌, ltb, ◌==◌, List, [], Option, none, some, if◌then◌else◌, arith, inl, inr,
}
use vmdk_rs.Base.Outcome.{Outcome, ok, bind_ok, guard_ok, ok_injective}
use vmdk_rs.Crates.{ByteOrder}
use vmdk_rs.Text.{Text}
use vmdk_rs.Spans.View.{inside}
use vmdk_rs.Storage.{sector_size}
use vmdk_rs.Extent.{Extent}
use vmdk_rs.Extents.{Host}
use vmdk_rs.Errors.{OpenError, bad_parent_extent_descriptor_size}
use vmdk_rs.Image.{Covering, add_extents}
use vmdk_rs.Open.{
  in_time, sectors_of, first_covering, match_size, handle_image, next_image, img_loop,
  total_sectors,
}
use vmdk_rs.Open.Owner.{
  ExtentsWithin, Sound, Grown, Grown-trans, ExtentsWithin-Grown, Extension, add_extents-Extends,
}

sectors_of_pos : (size : ℕ) → 0 < size → 0 < sectors_of size
sectors_of_pos size h = ground arith

first_accounts : (n x : ℕ) → (if inside 0 n x then true else false) ≡ (ltb x n && true)
first_accounts n x = ground arith

first_covering-Sound : (size w : ℕ) → 0 < size → Sound (sectors_of size) w [] (first_covering size)
first_covering-Sound size w h = record {
  accounts = record {
    disjoint = tt;
    gapped = (omega arith, sectors_of_pos size h, tt);
    accounts = λ x. first_accounts (sectors_of size) x;
  };
  beyond = λ x k. refl;
  owned = λ x. refl;
}

pub in_time_ok :
    {A : Type 0} (o : Option A) (a : A)
    → ◌≡◌ {A = Outcome OpenError A} (in_time o) (ok a)
    → o ≡ some a
in_time_ok none a e = cc
in_time_ok (some b) a e = ap some (ok_injective {E = OpenError} b a e)

-- What is kept from round to round: no extent before the first image.
abbrev pub Kept : ℕ → Option ℕ → List Extent → Covering → Type 0
Kept w none es c = es ≡ []
Kept w (some size) es c = 0 < size → Sound (sectors_of size) w es c

match_size-Kept :
    (name : Text) (w : ℕ) (image_size : Option ℕ) (size : ℕ) (es : List Extent) (c d : Covering)
    → Kept w image_size es c
    → match_size name image_size size c ≡ ok d
    → Kept w (some size) es d
unfolding match_size
match_size-Kept name w none size es c d k e h = rw k (
    subst (Sound (sectors_of size) w []) (ok_injective (first_covering size) d e)
      (first_covering-Sound size w h))
match_size-Kept name w (some s) size es c d k e h =
    let (t, f) =
      guard_ok (not (s == size))
        (record { path = name; kind = bad_parent_extent_descriptor_size s size }) (ok c) d e in
    let q : s ≡ size = ground (arith, t) in
    subst (Sound (sectors_of size) w es) (ok_injective c d f)
      (subst (λ z. Sound (sectors_of z) w es c) q (k (rw q h)))

module _ (host : Host) (order : ByteOrder) (captures : Text → Option Text) where
  open host use {Url, Sources, as_text}

  next_image_ok :
      (stop : Bool) (parent : Option Url) (chain r : ℕ × (List Extent × (Covering × Sources)))
      (again : Url → Outcome OpenError (ℕ × (List Extent × (Covering × Sources))))
      → next_image host order captures stop parent chain again ≡ ok r
      → (chain ≡ r) ⊎ ((u : Url) × (again u ≡ ok r))
  next_image_ok true parent chain r again e = inl (ok_injective chain r e)
  next_image_ok false none chain r again e = inl (ok_injective chain r e)
  next_image_ok false (some u) chain r again e = inr (u, e)

  -- What a round that the loop returns from went through.
  abbrev pub Round :
      ℕ
      → ℕ
      → Url
      → ℕ
      → Option ℕ
      → List Extent
      → Covering
      → Sources
      → ℕ × (List Extent × (Covering × Sources))
      → Type 0
  Round steps fuel url idx image_size extents c sources r =
      (a : List Extent × (Option Url × Sources)) × (handle_image host order captures steps url idx
          sources
        ≡ ok a)
      × (c1 : Covering) × (match_size (as_text url) image_size
            (mul64 (total_sectors 0 a.0) sector_size) c
          ≡ ok c1)
      × (b : Extension) × (◌≡◌ {A = Outcome OpenError Extension}
          (in_time (add_extents a.0 (suc idx) extents c1)) (ok b))
      × (((mul64 (total_sectors 0 a.0) sector_size, (b.1.1.0, (b.1.1.1, a.1.1))) ≡ r)
          ⊎ ((u : Url) × (img_loop host order captures steps fuel u b.1.0
                  (some (mul64 (total_sectors 0 a.0) sector_size)) b.1.1.0 b.1.1.1 a.1.1
                ≡ ok r)))

  pub img_loop-Round :
      (steps fuel : ℕ) (url : Url) (idx : ℕ) (image_size : Option ℕ) (extents : List Extent)
      (c : Covering) (sources : Sources) (r : ℕ × (List Extent × (Covering × Sources)))
      → img_loop host order captures steps (suc fuel) url idx image_size extents c sources ≡ ok r
      → Round steps fuel url idx image_size extents c sources r
  unfolding img_loop
  img_loop-Round steps fuel url idx image_size extents c sources r e =
      let (a, ea, e1) = bind_ok (handle_image host order captures steps url idx sources) _ r e in
      let size = mul64 (total_sectors 0 a.0) sector_size in
      let (c1, ec, e2) = bind_ok (match_size (as_text url) image_size size c) _ r e1 in
      let (b, eb, e3) = bind_ok (in_time (add_extents a.0 (suc idx) extents c1)) _ r e2 in
      (
        a,
        ea,
        c1,
        ec,
        b,
        eb,
        next_image_ok b.0 a.1.0 (size, (b.1.1.0, (b.1.1.1, a.1.1))) r
            (λ u. img_loop host order captures steps fuel u b.1.0 (some size) b.1.1.0 b.1.1.1 a.1.1)
            e3,
      )

  pub img_loop-zero :
      (steps : ℕ) (url : Url) (idx : ℕ) (image_size : Option ℕ) (extents : List Extent)
      (c : Covering) (sources : Sources) (r : ℕ × (List Extent × (Covering × Sources)))
      → img_loop host order captures steps 0 url idx image_size extents c sources ≢ ok r
  unfolding img_loop
  img_loop-zero steps url idx image_size extents c sources r e = cc

  abbrev Chain : Type 0
  Chain = ℕ × (List Extent × (Covering × Sources))

  -- The extents of the chain stand behind those before, and when all of them are within `w` the maps stay
  -- sound.
  abbrev pub Follows : ℕ → Option ℕ → List Extent → Covering → Chain → Type 0
  Follows w image_size extents c r =
      Grown extents r.1.0
      × (ExtentsWithin w r.1.0 → Kept w image_size extents c → Kept w (some r.0) r.1.0 r.1.1.0)

  pub img_loop-Follows :
      (steps w fuel : ℕ) (url : Url) (idx : ℕ) (image_size : Option ℕ) (extents : List Extent)
      (c : Covering) (sources : Sources) (r : Chain)
      → img_loop host order captures steps fuel url idx image_size extents c sources ≡ ok r
      → Follows w image_size extents c r
  img_loop-Follows steps w zero url idx image_size extents c sources r e =
      absurd (img_loop-zero steps url idx image_size extents c sources r e)
  img_loop-Follows steps w (suc fuel) url idx image_size extents c sources r e =
      let (a, ea, c1, ec, b, eb, next) =
        img_loop-Round steps fuel url idx image_size extents c sources r e in
      let size = mul64 (total_sectors 0 a.0) sector_size in
      let n = sectors_of size in
      let (g, s) =
        add_extents-Extends n w a.0 (suc idx) extents c1 b
          (in_time_ok (add_extents a.0 (suc idx) extents c1) b eb) in
      let step : ExtentsWithin w b.1.1.0
          → Kept w image_size extents c
          → Kept w (some size) b.1.1.0 b.1.1.1 =
        λ h k p. s h (match_size-Kept (as_text url) w image_size size extents c c1 k ec p) in
      elim next [
        | inl q ↦ subst (Follows w image_size extents c) q (g, step)
        | inr (u, f) ↦
            let (g', t) =
              img_loop-Follows steps w fuel u b.1.0 (some size) b.1.1.0 b.1.1.1 a.1.1 r f in
            (
              Grown-trans extents b.1.1.0 r.1.0 g g',
              λ h k. t h (step (ExtentsWithin-Grown w b.1.1.0 r.1.0 g' h) k),
            )
      ]

  -- The size is one of whole sectors.
  pub img_loop-sectors :
      (steps fuel : ℕ) (url : Url) (idx : ℕ) (image_size : Option ℕ) (extents : List Extent)
      (c : Covering) (sources : Sources) (r : ℕ × (List Extent × (Covering × Sources)))
      → img_loop host order captures steps fuel url idx image_size extents c sources ≡ ok r
      → (k : ℕ) × (r.0 ≡ mul64 k sector_size)
  img_loop-sectors steps zero url idx image_size extents c sources r e =
      absurd (img_loop-zero steps url idx image_size extents c sources r e)
  img_loop-sectors steps (suc fuel) url idx image_size extents c sources r e =
      let (a, ea, c1, ec, b, eb, next) =
        img_loop-Round steps fuel url idx image_size extents c sources r e in
      let size = mul64 (total_sectors 0 a.0) sector_size in
      elim next [
        | inl q ↦ (
          total_sectors 0 a.0,
          ap (λ (x : ℕ × (List Extent × (Covering × Sources))). x.0) (sym q),
        )
        | inr (u, f) ↦ img_loop-sectors steps fuel u b.1.0 (some size) b.1.1.0 b.1.1.1 a.1.1 r f
      ]
