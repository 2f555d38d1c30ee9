-- ===== src/Extents/Reports.antt =====
-- Which errors `read_extents` of src/extents.rs ends with.
use vmdk_rs.Base.{
  add64, ℕ, suc, ◌≡◌, ◌⊎◌, inl, inr, refl, ap, List, [], ◌∷◌, Option, none, some, Bool, true, false,
  not, ◌&&◌,
}
use vmdk_rs.Base.Outcome.{Outcome, ok, err, map_err, ◌>>=◌, bind_err, map_err_err}
use vmdk_rs.Crates.{ByteOrder}
use vmdk_rs.Text.{Text}
use vmdk_rs.Errors.{OpenError, of_kind, with_path, bad_path}
use vmdk_rs.Description.{ExtentDescription, filename_of}
use vmdk_rs.Storage.{ExtentStorage, handle}
use vmdk_rs.Extent.{Extent}
use vmdk_rs.Extents.{
  Host, url_of, filename, or_current, read_extent, read_extents_loop, read_extents,
}

module _ (host : Host) (order : ByteOrder) where
  open host use {Url, Source, Sources, join, same, as_text, source_for_url, add_source}

  abbrev Result : Type 0
  Result = List Extent × Sources

  filename-err :
      (o : Option Text) (k : Text → Outcome OpenError Result) (x : OpenError)
      → (filename host order o >>= k) ≡ err x
      → (name : Text) × (o ≡ some name) × (k name ≡ err x)
  filename-err none k x e = cc
  filename-err (some name) k x e = (name, refl, e)

  url_of-err :
      (name : Text) (o : Option Url) (k : Url → Outcome OpenError Result) (x : OpenError)
      → (url_of host order name o >>= k) ≡ err x
      → ((o ≡ none) × (x ≡ with_path name (of_kind (bad_path name))))
        ⊎ ((u : Url) × (o ≡ some u) × (k u ≡ err x))
  url_of-err name none k x e = inl (refl, cc)
  url_of-err name (some u) k x e = inr (u, refl, e)

  or_current-err :
      (singular other : Bool) (a b : Outcome OpenError Source) (x : OpenError)
      → or_current host order (singular && other) a b ≡ err x
      → (a ≡ err x) ⊎ ((singular ≡ true) × (b ≡ err x))
  or_current-err singular other (ok s) b x e = cc
  or_current-err false other (err y) b x e = inl e
  or_current-err true false (err y) b x e = inl e
  or_current-err true true (err y) b x e = inr (refl, e)
  or_current-err singular other Outcome.panic b x e = cc
  or_current-err singular other Outcome.hang b x e = cc

  -- What is wrong with an extent whose URL is `u`.
  abbrev pub Unread : Url → Bool → OpenError → Url → Type 0
  Unread url singular x u =
      (source_for_url u ≡ err x)
      ⊎ (((singular ≡ true) × (source_for_url url ≡ err x)) ⊎ (x.path ≡ as_text u))

  -- What is wrong with one extent of the image at `url`.
  abbrev pub Fault : Url → Bool → OpenError → ExtentDescription → Type 0
  Fault url singular x ed =
      (name : Text) × (filename_of ed.kind ≡ some name)
      × (((join url name ≡ none) × (x ≡ with_path name (of_kind (bad_path name))))
          ⊎ ((u : Url) × (join url name ≡ some u) × Unread url singular x u))

  abbrev pub AtOne : (ExtentDescription → Type 0) → List ExtentDescription → Type 0
  AtOne p [] = ⊥
  AtOne p (ed ∷ eds) = p ed ⊎ AtOne p eds

  -- The source is opened and the extent is read, or what is wrong.
  read-err :
      (url u : Url) (singular : Bool) (ed : ExtentDescription) (start idx : ℕ) (sources : Sources)
      (k : Source → ExtentStorage → Outcome OpenError Result) (x : OpenError)
      → (or_current host order
            (singular && not (same u url))
            (source_for_url u)
            (source_for_url url)
          >>= λ src.
              map_err
                (λ e. with_path (as_text u) (of_kind e))
                (read_extent
                  (host.cache (add_source idx src sources))
                  order
                  ed.kind
                  start
                  (handle idx))
              >>= k src)
        ≡ err x
      → Unread url singular x u ⊎ ((src : Source) × (st : ExtentStorage) × (k src st ≡ err x))
  read-err url u singular ed start idx sources k x e =
      elim (bind_err
        (or_current host order (singular && not (same u url)) (source_for_url u)
          (source_for_url url))
        _ x e) [
          | inl c ↦ elim (or_current-err singular _ _ _ x c) [
            | inl h ↦ inl (inl h)
            | inr h ↦ inl (inr (inl h))
          ]
          | inr (src, c, e1) ↦ elim (bind_err (map_err _ _) (k src) x e1) [
            | inl d ↦
                let (o, _, f) = map_err_err _ _ x d in
                inl (inr (inr (ap (λ (q : OpenError). q.path) f)))
            | inr (st, d, e2) ↦ inr (src, st, e2)
          ]
        ]

  loop-AtOne :
      (url : Url) (singular : Bool) (start idx : ℕ) (eds : List ExtentDescription)
      (sources : Sources) (x : OpenError)
      → read_extents_loop host order url singular start idx eds sources ≡ err x
      → AtOne (Fault url singular x) eds
  unfolding read_extents_loop
  loop-AtOne url singular start idx [] sources x e = cc
  loop-AtOne url singular start idx (ed ∷ eds) sources x e =
      let (name, n, e1) = filename-err (filename_of ed.kind) _ x e in
      elim (url_of-err name (join url name) _ x e1) [
        | inl h ↦ inl (name, n, inl h)
        | inr (u, m, e2) ↦ elim (read-err url u singular ed start idx sources _ x e2) [
          | inl h ↦ inl (name, n, inr (u, m, h))
          | inr (src, st, e3) ↦
              let next =
                read_extents_loop host order url singular (add64 start ed.sectors) (suc idx) eds
                  (add_source idx src sources) in
              elim (bind_err next _ x e3) [
                | inl f ↦ inr (
                    loop-AtOne url singular (add64 start ed.sectors) (suc idx) eds
                      (add_source idx src sources) x f)
                | inr (more, f, e4) ↦ cc
              ]
        ]
      ]

  -- Where `read_extents` fails, one of the extents is the reason: its name cannot be joined to the URL of
  -- the image, and the error says so and has the name as its path; or the error is that of opening its
  -- source, or for a singular image that of opening the image; or its path is the URL of the extent.
  pub read_extents-AtOne :
      (url : Url) (eds : List ExtentDescription) (singular : Bool) (idx : ℕ) (sources : Sources)
      (x : OpenError)
      → read_extents host order url eds singular idx sources ≡ err x
      → AtOne (Fault url singular x) eds
  unfolding read_extents
  read_extents-AtOne url eds singular idx sources x e =
      loop-AtOne url singular 0 idx eds sources x e
