-- ===== src/Location/Reports.antt =====
-- Which errors `source_for_url` of src/vmdk_reader.rs ends with, and the paths that they carry.
use vmdk_rs.Base.{
  ℕ, ◌≡◌, ◌≢◌, refl, ap, [], Option, none, some, ◌==◌, if◌then◌else◌, ◌⊎◌, inl, inr, Bool-cases,
}
use vmdk_rs.Base.Outcome.{
  Outcome, ok, err, bind_err, map_err, map_err_err, map_err_ok, ok_injective,
}
use vmdk_rs.Text.{Text, codes, text_eq}
use vmdk_rs.Io.{IoError, ℤ, pos, negsuc}
use vmdk_rs.Errors.{OpenError, of_io, with_path, io_error, bad_path, unsupported_scheme}
use vmdk_rs.Location.{
  Platform, file_path, open_file, host_or_bad, open_object, source_for_url, content_length,
  unwrapped,
}

unwrapped-ne-err : (o : Option ℤ) (e : OpenError) → unwrapped o ≢ err e
unwrapped-ne-err none e h = cc
unwrapped-ne-err (some (pos n)) e h = cc
unwrapped-ne-err (some (negsuc k)) e h = cc

content_length-ne-err : (h : Option ℤ × ℕ) (e : OpenError) → content_length h ≢ err e
unfolding content_length
content_length-ne-err (o, code) e f = elim (Bool-cases (code == 200)) [
  | inl h ↦ unwrapped-ne-err o e (rw h at f)
  | inr h ↦ let g = rw h at f in cc g
]

host_or_bad_err :
    (url : Text) (o : Option Text) (e : OpenError)
    → host_or_bad url o ≡ err e
    → (o ≡ none) × (e ≡ record { path = []; kind = bad_path url })
host_or_bad_err url none e h = (refl, cc)
host_or_bad_err url (some n) e h = cc

host_or_bad_ok : (url name : Text) (o : Option Text) → host_or_bad url o ≡ ok name → o ≡ some name
host_or_bad_ok url name none h = cc
host_or_bad_ok url name (some n) h = ap some (ok_injective {E = OpenError} n name h)

module _ (platform : Platform) where
  open platform use {Url, Bucket, scheme, as_text, path, host_str, file_len, bucket, head_object}

  -- The call `x` has failed, and `e` is its error, reported for the path `at`.
  abbrev pub FailedAt : {A : Type 0} → Outcome IoError A → Text → OpenError → Type 0
  FailedAt x at e = (o : IoError) × (x ≡ err o) × (e ≡ record { path = at; kind = io_error o })

  open_file-FailedAt :
      (url : Url) (e : OpenError)
      → open_file platform url ≡ err e
      → FailedAt (file_len (file_path platform url)) (file_path platform url) e
  unfolding open_file
  open_file-FailedAt url e h =
      let at = λ (o : IoError). with_path (file_path platform url) (of_io o) in
      elim (bind_err (map_err at (file_len (file_path platform url))) _ e h) [
        | inl f ↦ map_err_err at (file_len (file_path platform url)) e f
        | inr (len, _, f) ↦ absurd (cc f)
      ]

  -- What went wrong with an s3 URL: it has no host, its bucket, or the request for the object.
  abbrev pub Unavailable : Url → OpenError → Type 0
  Unavailable url e =
      ((host_str url ≡ none) × (e ≡ record { path = []; kind = bad_path (as_text url) }))
      ⊎ ((name : Text) × (host_str url ≡ some name)
          × (FailedAt (bucket name) (as_text url) e
              ⊎ ((b : Bucket) × (bucket name ≡ ok b)
                  × FailedAt (head_object b (path url)) (as_text url) e)))

  open_object-Unavailable :
      (url : Url) (e : OpenError) → open_object platform url ≡ err e → Unavailable url e
  unfolding open_object
  open_object-Unavailable url e h =
      let at = λ (o : IoError). with_path (as_text url) (of_io o) in
      elim (bind_err (host_or_bad (as_text url) (host_str url)) _ e h) [
        | inl f ↦ inl (host_or_bad_err (as_text url) (host_str url) e f)
        | inr (name, n, h1) ↦
            let there = host_or_bad_ok (as_text url) name (host_str url) n in
            elim (bind_err (map_err at (bucket name)) _ e h1) [
              | inl f ↦ inr (name, there, inl (map_err_err at (bucket name) e f))
              | inr (b, m, h2) ↦
                  let made = map_err_ok at (bucket name) b m in
                  elim (bind_err (map_err at (head_object b (path url))) _ e h2) [
                    | inl f ↦
                        inr (
                          name,
                          there,
                          inr (b, made, map_err_err at (head_object b (path url)) e f),
                        )
                    | inr (head, _, h3) ↦ elim (bind_err (content_length head) _ e h3) [
                      | inl f ↦ absurd (content_length-ne-err head e f)
                      | inr (len, _, f) ↦ absurd (cc f)
                    ]
                  ]
            ]
      ]

  -- Which error, by the scheme of the URL.
  abbrev pub Reports : Url → OpenError → Type 0
  Reports url e =
      if text_eq (scheme url) (codes "file")
      then FailedAt (file_len (file_path platform url)) (file_path platform url) e
      else if text_eq (scheme url) (codes "s3")
      then Unavailable url e
      else e ≡ record { path = []; kind = unsupported_scheme (as_text url) }

  -- Where `source_for_url` fails: for a file URL the length of the file could not be had, and the error is
  -- that one, with the path of the file; for an s3 URL without a host it is a `BadPath` whose path is left
  -- empty, and for one with a host it is the error of the bucket, or of the request for the object in it,
  -- with the URL as its path; and for every other scheme it is an `UnsupportedScheme` whose path is left
  -- empty.
  pub source_for_url-Reports :
      (url : Url) (e : OpenError) → source_for_url platform url ≡ err e → Reports url e
  unfolding source_for_url
  source_for_url-Reports url e h = elim (Bool-cases (text_eq (scheme url) (codes "file"))) [
    | inl f ↦ rw f (open_file-FailedAt url e (rw f at h))
    | inr f ↦ elim (Bool-cases (text_eq (scheme url) (codes "s3"))) [
      | inl k ↦ rw (f, k) (open_object-Unavailable url e (rw (f, k) at h))
      | inr k ↦ rw (f, k) (let g = rw (f, k) at h in cc g)
    ]
  ]
