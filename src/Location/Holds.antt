-- ===== src/Location/Holds.antt =====
-- What the sources that `source_for_url` of src/vmdk_reader.rs returns hold, and the paths of its errors.
use vmdk_rs.Base.{
  u64_mod, ℕ, suc, ◌-◌, ◌≤◌, ◌<◌, ◌≡◌, refl, ap, subst, ◌∙◌, true, Option, none, some, ◌==◌,
  tabulate, ◌⊎◌, inl, inr, Bool-cases,
}
use vmdk_rs.Base.Outcome.{ok, map_err, bind_ok, ok_injective, map_err_ok}
use vmdk_rs.Text.{Text, codes, text_eq}
use vmdk_rs.Io.{IoError, ℤ, pos, negsuc}
use vmdk_rs.Errors.{of_io, with_path}
use vmdk_rs.Sources.{BytesSource}
use vmdk_rs.Sources.Read.{HoldsBytes, file_source-HoldsBytes, s3_source-HoldsBytes}
use vmdk_rs.Location.{
  Platform, file_path, open_file, host_or_bad, open_object, source_for_url, content_length,
  unwrapped,
}

-- The metadata of a file gives the length of what it holds, and an object has the length that its head
-- gives: its requests return the bytes from the first to the last one that they name.
pub record IsHonest (platform : Platform) : Type 0 where
  pub file_byte : Text → ℕ → ℕ
  pub file_holds :
      (path : Text) (len : ℕ)
      → platform.file_len path ≡ ok len
      → platform.files path ≡ some (tabulate (file_byte path) 0 len)
  pub object_byte : platform.Bucket → Text → ℕ → ℕ
  pub object_holds :
      (b : platform.Bucket) (key : Text) (len code : ℕ)
      → platform.head_object b key ≡ ok (some (pos len), code)
      → (len < u64_mod)
        × ((beg last : ℕ)
            → beg ≤ last
            → last < len
            → platform.get_object_range b key beg last
              ≡ ok (tabulate (object_byte b key) beg (suc last - beg)))

unwrapped_ok : (o : Option ℤ) (len : ℕ) → unwrapped o ≡ ok len → o ≡ some (pos len)
unwrapped_ok none len e = cc
unwrapped_ok (some (pos n)) len e = ap (λ k. some (pos k)) (ok_injective n len e)
unwrapped_ok (some (negsuc k)) len e = cc

content_length_ok : (h : Option ℤ × ℕ) (len : ℕ) → content_length h ≡ ok len → h.0 ≡ some (pos len)
unfolding content_length
content_length_ok (o, code) len e = elim (Bool-cases (code == 200)) [
  | inl h ↦ unwrapped_ok o len (rw h at e)
  | inr h ↦ absurd (let f = rw h at e in cc f)
]

host_or_bad_ok :
    (url : Text) (o : Option Text) (name : Text) → host_or_bad url o ≡ ok name → o ≡ some name
host_or_bad_ok url none name e = cc
host_or_bad_ok url (some n) name e = ap some (ok_injective n name e)

module _ (platform : Platform) (honest : IsHonest platform) where
  open platform use {Url, Bucket, scheme, path, host_str, file_len, bucket}

  -- The URL names the file with these bytes.
  abbrev pub NamesFile : Url → (ℕ → ℕ) → ℕ → Type 0
  NamesFile url byte size =
      (text_eq (scheme url) (codes "file") ≡ true)
      × (file_len (file_path platform url) ≡ ok size)
      × (byte ≡ honest.file_byte (file_path platform url))

  -- The URL names the object with these bytes.
  abbrev pub NamesObject : Url → (ℕ → ℕ) → ℕ → Type 0
  NamesObject url byte size =
      (text_eq (scheme url) (codes "s3") ≡ true)
      × (name : Text) × (host_str url ≡ some name)
      × (b : Bucket) × (bucket name ≡ ok b)
      × (code : ℕ) × (platform.head_object b (path url) ≡ ok (some (pos size), code))
      × (byte ≡ honest.object_byte b (path url))

  -- A source of the bytes that the URL names.
  abbrev pub Named : Url → BytesSource → Type 0
  Named url src =
      (byte : ℕ → ℕ) × (size : ℕ) × HoldsBytes src byte size
      × (NamesFile url byte size ⊎ NamesObject url byte size)

  open_file-Named :
      (url : Url) (src : BytesSource)
      → text_eq (scheme url) (codes "file") ≡ true
      → open_file platform url ≡ ok src
      → Named url src
  unfolding open_file
  open_file-Named url src h e =
      let p = file_path platform url in
      let (len, e1, e2) = bind_ok (map_err (λ o. with_path p (of_io o)) (file_len p)) _ src e in
      let l = map_err_ok (λ o. with_path p (of_io o)) (file_len p) len e1 in
      let holds =
        file_source-HoldsBytes platform.files p (honest.file_byte p) len
          (honest.file_holds p len l) in
      (
        honest.file_byte p,
        len,
        subst (λ t. HoldsBytes t (honest.file_byte p) len) (ok_injective _ src e2) holds,
        inl (h, l, refl),
      )

  open_object-Named :
      (url : Url) (src : BytesSource)
      → text_eq (scheme url) (codes "s3") ≡ true
      → open_object platform url ≡ ok src
      → Named url src
  unfolding open_object
  open_object-Named url src h e =
      let key = path url in
      let of = λ (o : IoError). with_path (platform.as_text url) (of_io o) in
      let (name, e1, e2) = bind_ok (host_or_bad (platform.as_text url) (host_str url)) _ src e in
      let (b, e3, e4) = bind_ok (map_err of (bucket name)) _ src e2 in
      let (head, e5, e6) = bind_ok (map_err of (platform.head_object b key)) _ src e4 in
      let (len, e7, e8) = bind_ok (content_length head) _ src e6 in
      let c = content_length_ok head len e7 in
      let k : platform.head_object b key ≡ ok (some (pos len), head.1) =
        map_err_ok of (platform.head_object b key) head e5 ∙ ap (λ o. ok (o, head.1)) c in
      let (fits, gets) = honest.object_holds b key len head.1 k in
      let holds =
        s3_source-HoldsBytes (platform.get_object_range b key) (honest.object_byte b key) len fits
          gets in
      (
        honest.object_byte b key,
        len,
        subst (λ t. HoldsBytes t (honest.object_byte b key) len) (ok_injective _ src e8) holds,
        inr (
          h,
          name,
          host_or_bad_ok (platform.as_text url) (host_str url) name e1,
          b,
          map_err_ok of (bucket name) b e3,
          head.1,
          k,
          refl,
        ),
      )

  -- On a platform whose files and objects are what their metadata says, a source that `source_for_url`
  -- returns holds the bytes of the file or of the object that the URL names, all of them.
  pub source_for_url-HoldsBytes :
      (url : Url) (src : BytesSource) → source_for_url platform url ≡ ok src → Named url src
  unfolding source_for_url
  source_for_url-HoldsBytes url src e = elim (Bool-cases (text_eq (scheme url) (codes "file"))) [
    | inl h ↦ open_file-Named url src h (rw h at e)
    | inr h ↦ elim (Bool-cases (text_eq (scheme url) (codes "s3"))) [
      | inl k ↦ open_object-Named url src k (rw (h, k) at e)
      | inr k ↦ absurd (let f = rw (h, k) at e in cc f)
    ]
  ]
