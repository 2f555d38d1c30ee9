-- ===== src/Description.antt =====
-- src/extent_description.rs: the lines of a descriptor that describe extents. Its three error
-- types have one value each, so `Result` is `Option` here and `Err` is `none`.
pub mod Line
pub mod Extract
use vmdk_rs.Base.{ℕ, zero, suc, List, [], ◌∷◌, Option, none, some, if◌then◌else◌}
use vmdk_rs.Text.{
  Text, codes, trim, trim_start, text_eq, split_once, rsplit_once, strip_prefix, lines, parse_u64,
}

infixl 5 ◌>>=◌
abbrev pub ◌>>=◌ {ℓ κ} : {A : Type ℓ} {B : Type κ} → Option A → (A → Option B) → Option B
none >>= f = none
some a >>= f = f a

pub data AccessMode : Type 0 where
  no_access rd_only rw_access : AccessMode

pub data ExtentKind : Type 0 where
  flat se_sparse sparse vmfs vmfs_sparse vmfs_rdm vmfs_raw zeroed : ExtentKind

-- `AccessMode::from_str`
unfoldable pub parse_access_mode : Text → Option AccessMode
parse_access_mode s =
    if text_eq s (codes "NOACCESS")
    then some no_access
    else if text_eq s (codes "RDONLY")
    then some rd_only
    else if text_eq s (codes "RW")
    then some rw_access
    else none

-- `ExtentKind::from_str`
unfoldable pub parse_extent_kind : Text → Option ExtentKind
parse_extent_kind s =
    if text_eq s (codes "FLAT")
    then some flat
    else if text_eq s (codes "SESPARSE")
    then some se_sparse
    else if text_eq s (codes "SPARSE")
    then some sparse
    else if text_eq s (codes "VMFS")
    then some vmfs
    else if text_eq s (codes "VMFSRAW")
    then some vmfs_raw
    else if text_eq s (codes "VMFSRDM")
    then some vmfs_rdm
    else if text_eq s (codes "VMFSSPARSE")
    then some vmfs_sparse
    else if text_eq s (codes "ZERO")
    then some zeroed
    else none

pub record ExtentDescriptionLine : Type 0 where
  pub access_mode : AccessMode
  pub sectors : ℕ
  pub kind : ExtentKind
  pub filename : Option Text
  pub offset : Option ℕ

-- `match s.is_empty()` over the text behind the file name
unfoldable pub parse_offset : Text → Option (Option ℕ)
parse_offset [] = some none
parse_offset (c ∷ s) = do n ← parse_u64 (c ∷ s); some (some n)

-- `let (filename, offset) = if s.is_empty() … else …`
unfoldable pub parse_target : Text → Option (Option Text × Option ℕ)
unfolding parse_offset
parse_target [] = some (none, none)
parse_target (c ∷ s) = do
  quoted ← strip_prefix b'"' (c ∷ s)
  (tok, rest) ← rsplit_once b'"' quoted
  offset ← parse_offset (trim_start rest)
  some (some tok, offset)

-- `ExtentDescriptionLine::from_str`
unfoldable pub parse_line : Text → Option ExtentDescriptionLine
parse_line s = do
  (access_tok, s1) ← split_once b' ' (trim_start (trim s))
  mode ← parse_access_mode access_tok
  (sectors_tok, s2) ← split_once b' ' (trim_start s1)
  n ← parse_u64 sectors_tok
  (kind_tok, s3) ← split_once b' ' (trim_start s2)
  k ← parse_extent_kind kind_tok
  (file, off) ← parse_target (trim_start s3)
  some (record { access_mode = mode; sectors = n; kind = k; filename = file; offset = off })

pub data ExtentDescriptionInner : Type 0 where
  flat : Text → ℕ → ExtentDescriptionInner
  se_sparse : Text → ExtentDescriptionInner
  sparse : Text → ExtentDescriptionInner
  vmfs : Text → ExtentDescriptionInner
  vmfs_raw : Text → ExtentDescriptionInner
  vmfs_rdm : Text → ExtentDescriptionInner
  vmfs_sparse : Text → ExtentDescriptionInner
  zeroed : ExtentDescriptionInner

-- `ExtentKind::from(&ExtentDescriptionInner)`
unfoldable pub kind_of_inner : ExtentDescriptionInner → ExtentKind
kind_of_inner (ExtentDescriptionInner.flat f o) = ExtentKind.flat
kind_of_inner (ExtentDescriptionInner.se_sparse f) = ExtentKind.se_sparse
kind_of_inner (ExtentDescriptionInner.sparse f) = ExtentKind.sparse
kind_of_inner (ExtentDescriptionInner.vmfs f) = ExtentKind.vmfs
kind_of_inner (ExtentDescriptionInner.vmfs_raw f) = ExtentKind.vmfs_raw
kind_of_inner (ExtentDescriptionInner.vmfs_rdm f) = ExtentKind.vmfs_rdm
kind_of_inner (ExtentDescriptionInner.vmfs_sparse f) = ExtentKind.vmfs_sparse
kind_of_inner ExtentDescriptionInner.zeroed = ExtentKind.zeroed

pub record ExtentDescription : Type 0 where
  pub access_mode : AccessMode
  pub sectors : ℕ
  pub kind : ExtentDescriptionInner

-- `offset: None | Some(0)`
abbrev none_or_zero : Option ℕ → Option (Unit {0})
none_or_zero none = some tt
none_or_zero (some zero) = some tt
none_or_zero (some (suc n)) = none

abbrev only_none : Option ℕ → Option (Unit {0})
only_none none = some tt
only_none (some n) = none

-- the `match edl` of `ExtentDescription::try_from`
unfoldable pub inner_of : ExtentKind → Option Text → Option ℕ → Option ExtentDescriptionInner
inner_of ExtentKind.zeroed none none = some ExtentDescriptionInner.zeroed
inner_of ExtentKind.flat (some f) (some o) = some (ExtentDescriptionInner.flat f o)
inner_of ExtentKind.sparse (some f) o = do
  u ← none_or_zero o
  some (ExtentDescriptionInner.sparse f)
inner_of ExtentKind.se_sparse (some f) o = do
  u ← none_or_zero o
  some (ExtentDescriptionInner.se_sparse f)
inner_of ExtentKind.vmfs (some f) o = do u ← only_none o; some (ExtentDescriptionInner.vmfs f)
inner_of ExtentKind.vmfs_sparse (some f) o = do
  u ← only_none o
  some (ExtentDescriptionInner.vmfs_sparse f)
inner_of ExtentKind.vmfs_rdm (some f) o = do
  u ← only_none o
  some (ExtentDescriptionInner.vmfs_rdm f)
inner_of ExtentKind.vmfs_raw (some f) o = do
  u ← only_none o
  some (ExtentDescriptionInner.vmfs_raw f)
inner_of _ _ _ = none

-- `ExtentDescription::try_from(ExtentDescriptionLine)`
unfoldable pub description_of : ExtentDescriptionLine → Option ExtentDescription
unfolding inner_of
description_of l = do
  k ← inner_of l.kind l.filename l.offset
  some (record { access_mode = l.access_mode; sectors = l.sectors; kind = k })

-- `ExtentDescription::filename`; `none` is the `todo!` panic for the kinds that are not supported.
unfoldable pub filename_of : ExtentDescriptionInner → Option Text
filename_of (ExtentDescriptionInner.sparse f) = some f
filename_of (ExtentDescriptionInner.se_sparse f) = some f
filename_of (ExtentDescriptionInner.flat f o) = some f
filename_of (ExtentDescriptionInner.vmfs f) = some f
filename_of (ExtentDescriptionInner.vmfs_sparse f) = some f
filename_of _ = none

-- Whether a line describes an extent: its text up to the first blank is an access mode.
abbrev pub starts_extent : Option (Text × Text) → Option AccessMode
starts_extent none = none
starts_extent (some (a, rest)) = parse_access_mode a

unfoldable pub is_extent_line : Text → Option AccessMode
is_extent_line l = starts_extent (split_once b' ' (trim_start l))

-- `extract_extent_descriptions` over the lines that are left
unfoldable pub extract_lines : List Text → Option (List ExtentDescription)
extract_lines [] = some []
extract_lines (l ∷ ls) =
    let rest = extract_lines ls in
    elim (is_extent_line l) [
      | none ↦ rest
      | some mode ↦ do edl ← parse_line l; ed ← description_of edl; eds ← rest; some (ed ∷ eds)
    ]

unfoldable pub extract_extent_descriptions : Text → Option (List ExtentDescription)
extract_extent_descriptions descriptor = extract_lines (lines descriptor)
