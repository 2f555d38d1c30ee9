-- ===== src/Errors.antt =====
-- src/errors.rs: the errors that opening an image ends with, and their messages. `DeserializationError`
-- is in the constructor that holds it.
use vmdk_rs.Base.{ℕ, [], ◌++◌}
use vmdk_rs.Text.{Text, codes}
use vmdk_rs.Text.Decimal.{decimal}
use vmdk_rs.Io.{IoError}

-- `enum DescriptorError`
pub data DescriptorError : Type 0 where
  u64_parse_error : Text → DescriptorError
  kind_parse_error : Text → DescriptorError
  parse_extent_description_error : DescriptorError
  unrecognized_descriptor : DescriptorError

-- The name in a `DeserializationError`
pub data HeaderName : Type 0 where
  vmdk3_header : HeaderName
  vmdk4_header : HeaderName
  se_sparse_header : HeaderName

-- `enum InitError`
pub data InitError : Type 0 where
  tokio_runtime_failed : IoError → InitError
  cache_setup_failed : IoError → InitError

-- `enum OpenErrorKind`
pub data OpenErrorKind : Type 0 where
  io_error : IoError → OpenErrorKind
  bad_parent_extent_descriptor_size : ℕ → ℕ → OpenErrorKind
  descriptor_error : DescriptorError → OpenErrorKind
  deserialization_failed : HeaderName → IoError → OpenErrorKind
  invalid_file_header : OpenErrorKind
  initialization_failed : InitError → OpenErrorKind
  bad_path : Text → OpenErrorKind
  unsupported_scheme : Text → OpenErrorKind

-- `struct OpenError`
pub record OpenError : Type 0 where
  pub path : Text
  pub kind : OpenErrorKind

-- `From<OpenErrorKind> for OpenError`
abbrev pub of_kind : OpenErrorKind → OpenError
of_kind e = record { path = []; kind = e }

-- `From<DescriptorError> for OpenError`
abbrev pub of_descriptor : DescriptorError → OpenError
of_descriptor e = record { path = []; kind = descriptor_error e }

-- `From<DeserializationError> for OpenError`
abbrev pub of_deserialization : HeaderName → IoError → OpenError
of_deserialization name e = record { path = []; kind = deserialization_failed name e }

-- `From<std::io::Error> for OpenError`
abbrev pub of_io : IoError → OpenError
of_io e = record { path = []; kind = io_error e }

-- `OpenError::with_path`
abbrev pub with_path : Text → OpenError → OpenError
with_path path e = record { path = path; kind = e.kind }

-- The digits of a `u64`.
abbrev pub show_u64 : ℕ → Text
show_u64 n = decimal 19 n

abbrev pub show_name : HeaderName → Text
show_name vmdk3_header = codes "Vmdk3Header"
show_name vmdk4_header = codes "Vmdk4Header"
show_name se_sparse_header = codes "VmdkSeSparseConstHeader"

unfoldable pub show_descriptor_error : DescriptorError → Text
show_descriptor_error (u64_parse_error s) = codes "failed to parse '" ++ s ++ codes "' as a u64"
show_descriptor_error (kind_parse_error s) =
    codes "failed to parse '" ++ s ++ codes "' as Kind enum"
show_descriptor_error parse_extent_description_error = []
show_descriptor_error unrecognized_descriptor = codes "failed to recognize descriptor"

-- What `std::io::Error` prints under `{}` and under `{:?}`.
module _ (display debug : IoError → Text) where
  unfoldable pub show_init_error : InitError → Text
  show_init_error (tokio_runtime_failed e) = codes "Failed to start tokio Runtime: " ++ display e
  show_init_error (cache_setup_failed e) = display e

  unfoldable pub show_kind : OpenErrorKind → Text
  show_kind (io_error e) = display e
  show_kind (bad_parent_extent_descriptor_size s t) =
      codes "Expected size of parent extent descriptor "
      ++ show_u64 s
      ++ codes ", actual "
      ++ show_u64 t
  show_kind (descriptor_error e) = codes "Error reading descriptor: " ++ show_descriptor_error e
  show_kind (deserialization_failed name e) =
      codes "Error while deserializing " ++ show_name name ++ codes " struct: " ++ debug e
  show_kind invalid_file_header = codes "No KDMV or COWD headers detected"
  show_kind (initialization_failed e) = show_init_error e
  show_kind (bad_path p) = codes "Malformed path or URL: " ++ p
  show_kind (unsupported_scheme u) = codes "Unsupported URL scheme: " ++ u

  unfoldable pub show_open_error : OpenError → Text
  show_open_error e = e.path ++ codes ": " ++ show_kind e.kind
