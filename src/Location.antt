-- ===== src/Location.antt =====
-- `path_or_url_to_url` and `source_for_url` of src/vmdk_reader.rs: from a path or a URL to a source of
-- bytes.
pub mod Holds
pub mod Reports
pub mod Keeps
use vmdk_rs.Base.{ℕ, List, [], ◌∷◌, Bool, Option, none, some, ◌==◌, if◌then◌else◌}
use vmdk_rs.Base.Outcome.{Outcome, ok, err, panic, ◌>>=◌, map_err}
use vmdk_rs.Text.{Text, codes, text_eq}
use vmdk_rs.Io.{Bytes, IoError, Cache, ℤ, pos, negsuc}
use vmdk_rs.Errors.{
  OpenErrorKind, OpenError, of_kind, of_io, with_path, bad_path, unsupported_scheme,
}
use vmdk_rs.Sources.{BytesSource, file_source, s3_source, add_source}
use vmdk_rs.Extents.{Host}

-- What `Url::parse` ends with: of its errors the program tells one from the others.
pub data Parsed (A : Type 0) : Type 0 where
  parsed : A → Parsed A
  relative_url_without_base : Parsed A
  malformed : Parsed A

-- What the program uses of the crates url and s3, of `std::fs` and of `std::path`. The errors of the
-- crate s3 are `std::io::Error`s here, which `std::io::Error::other` makes of them.
pub record Platform : Type 1 where
  pub is_windows : Bool
  pub Url : Type 0
  pub parse : Text → Parsed Url
  pub from_file_path : Text → Option Url
  pub join : Url → Text → Option Url
  pub same : Url → Url → Bool
  pub as_text : Url → Text
  pub scheme : Url → Text
  pub path : Url → Text
  pub host_str : Url → Option Text
  pub canonicalize : Text → Option Text
  pub file_len : Text → Outcome IoError ℕ
  pub files : Text → Option Bytes
  pub Bucket : Type 0
  pub bucket : Text → Outcome IoError Bucket
  pub head_object : Bucket → Text → Outcome IoError (Option ℤ × ℕ)
  pub get_object_range : Bucket → Text → ℕ → ℕ → Outcome IoError Bytes

-- `trim_start_matches('/')`
unfoldable pub trim_slashes : Text → Text
trim_slashes [] = []
trim_slashes (c ∷ s) = if c == b'/' then trim_slashes s else c ∷ s

abbrev pub unwrapped : Option ℤ → Outcome OpenError ℕ
unwrapped none = panic
unwrapped (some (pos len)) = ok len
unwrapped (some (negsuc k)) = panic

-- `assert_eq!(code, 200)`, and `h.content_length.unwrap().try_into().unwrap()`
unfoldable pub content_length : Option ℤ × ℕ → Outcome OpenError ℕ
content_length (len, code) = if code == 200 then unwrapped len else panic

-- `.ok_or(OpenErrorKind::BadPath(url.to_string()))`
abbrev pub host_or_bad : Text → Option Text → Outcome OpenError Text
host_or_bad url none = err (of_kind (bad_path url))
host_or_bad url (some name) = ok name

module _ (platform : Platform) where
  open platform use {
    Url, Bucket, is_windows, parse, from_file_path, as_text, scheme, path, host_str, canonicalize,
    file_len, files, bucket, head_object, get_object_range,
  }

  -- `path_or_url_to_url`
  unfoldable pub path_or_url_to_url : Text → Option Url
  path_or_url_to_url p = elim (parse p) [
    | parsed url ↦ some url
    | relative_url_without_base ↦ elim (canonicalize p) [
      | none ↦ none
      | some absolute ↦ from_file_path absolute
    ]
    | malformed ↦ none
  ]

  -- The path that a file URL names.
  abbrev pub file_path : Url → Text
  file_path url = if is_windows then trim_slashes (path url) else path url

  -- The arm for "file".
  unfoldable pub open_file : Url → Outcome OpenError BytesSource
  open_file url = do
    let p = file_path url
    len ← map_err (λ e. with_path p (of_io e)) (file_len p)
    ok (file_source files p len)

  -- The arm for "s3".
  unfoldable pub open_object : Url → Outcome OpenError BytesSource
  open_object url = do
    name ← host_or_bad (as_text url) (host_str url)
    b ← map_err (λ e. with_path (as_text url) (of_io e)) (bucket name)
    head ← map_err (λ e. with_path (as_text url) (of_io e)) (head_object b (path url))
    len ← content_length head
    ok (s3_source (get_object_range b (path url)) len)

  -- `source_for_url`
  unfoldable pub source_for_url : Url → Outcome OpenError BytesSource
  source_for_url url =
      if text_eq (scheme url) (codes "file")
      then open_file url
      else if text_eq (scheme url) (codes "s3")
      then open_object url
      else err (of_kind (unsupported_scheme (as_text url)))

  -- The platform as what `open` and `read_extents` use of it, with a cache over the sources.
  abbrev pub host_on : (List BytesSource → Cache) → Host
  host_on cache = record {
    Url = Url;
    Source = BytesSource;
    Sources = List BytesSource;
    join = platform.join;
    same = platform.same;
    as_text = as_text;
    source_for_url = source_for_url;
    add_source = add_source;
    cache = cache;
  }
