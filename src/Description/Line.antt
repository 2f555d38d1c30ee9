-- ===== src/Description/Line.antt =====
-- `ExtentDescriptionLine::from_str` of src/extent_description.rs on the lines that VMware writes.
use vmdk_rs.Base.{
  u64_mod, ℕ, ◌<◌, ◌≡◌, refl, ap, ◌∙◌, subst, [], ◌∷◌, ◌++◌, Option, none, some, arith,
}
use mathlib.Core.List.{append-nil}
use vmdk_rs.Text.{
  Text, codes, is_whitespace, trim, trim_start, trim_end, text_eq, strip_prefix, parse_u64,
}
use vmdk_rs.Text.Split.{
  Lacks, NoSpace, split_once-append, rsplit_once-append, trim_start-cons, trim_end-NoSpace,
}
use vmdk_rs.Text.Decimal.{
  decimal_u64, decimal_u64-NoSpace, decimal_u64-Lacks, parse_u64-decimal_u64, decimal_u64-cons,
}
use vmdk_rs.Description.{
  AccessMode, ExtentKind, parse_access_mode, parse_extent_kind, parse_offset, parse_target,
  parse_line,
}

abbrev pub access_word : AccessMode → Text
access_word AccessMode.no_access = codes "NOACCESS"
access_word AccessMode.rd_only = codes "RDONLY"
access_word AccessMode.rw_access = codes "RW"

abbrev pub kind_word : ExtentKind → Text
kind_word ExtentKind.flat = codes "FLAT"
kind_word ExtentKind.se_sparse = codes "SESPARSE"
kind_word ExtentKind.sparse = codes "SPARSE"
kind_word ExtentKind.vmfs = codes "VMFS"
kind_word ExtentKind.vmfs_sparse = codes "VMFSSPARSE"
kind_word ExtentKind.vmfs_rdm = codes "VMFSRDM"
kind_word ExtentKind.vmfs_raw = codes "VMFSRAW"
kind_word ExtentKind.zeroed = codes "ZERO"

-- The offset behind the closing quote.
abbrev pub offset_text : Option ℕ → Text
offset_text none = []
offset_text (some o) = b' ' ∷ decimal_u64 o

abbrev pub target_text : Text → Option ℕ → Text
target_text f o = b'"' ∷ (f ++ b'"' ∷ offset_text o)

abbrev pub line_text : AccessMode → ℕ → ExtentKind → Text → Option ℕ → Text
line_text a n k f o =
    access_word a ++ b' ' ∷ (decimal_u64 n ++ b' ' ∷ (kind_word k ++ b' ' ∷ target_text f o))

abbrev pub FitsU64 : Option ℕ → Type 0
FitsU64 none = Unit
FitsU64 (some o) = o < u64_mod

parse_access_mode-word : (a : AccessMode) → parse_access_mode (access_word a) ≡ some a
unfolding parse_access_mode text_eq
parse_access_mode-word AccessMode.no_access = refl
parse_access_mode-word AccessMode.rd_only = refl
parse_access_mode-word AccessMode.rw_access = refl

parse_extent_kind-word : (k : ExtentKind) → parse_extent_kind (kind_word k) ≡ some k
unfolding parse_extent_kind text_eq
parse_extent_kind-word ExtentKind.flat = refl
parse_extent_kind-word ExtentKind.se_sparse = refl
parse_extent_kind-word ExtentKind.sparse = refl
parse_extent_kind-word ExtentKind.vmfs = refl
parse_extent_kind-word ExtentKind.vmfs_sparse = refl
parse_extent_kind-word ExtentKind.vmfs_rdm = refl
parse_extent_kind-word ExtentKind.vmfs_raw = refl
parse_extent_kind-word ExtentKind.zeroed = refl

access_word-Lacks : (a : AccessMode) → Lacks b' ' (access_word a)
access_word-Lacks AccessMode.no_access = ground arith
access_word-Lacks AccessMode.rd_only = ground arith
access_word-Lacks AccessMode.rw_access = ground arith

kind_word-Lacks : (k : ExtentKind) → Lacks b' ' (kind_word k)
kind_word-Lacks ExtentKind.flat = ground arith
kind_word-Lacks _ = ground arith

-- A word starts with no white space.
trim_start-access :
    (a : AccessMode) (r : Text) → trim_start (access_word a ++ r) ≡ access_word a ++ r
unfolding trim_start is_whitespace
trim_start-access AccessMode.no_access r = refl
trim_start-access _ r = refl

trim_start-kind : (k : ExtentKind) (r : Text) → trim_start (kind_word k ++ r) ≡ kind_word k ++ r
unfolding trim_start is_whitespace
trim_start-kind ExtentKind.flat r = refl
trim_start-kind _ r = refl

trim_start-NoSpace :
    (t : Text) (r : Text) (c : ℕ) (s : Text) → t ≡ c ∷ s → NoSpace t → trim_start (t ++ r) ≡ t ++ r
trim_start-NoSpace t r c s e h = rw e (trim_start-cons c (s ++ r) (subst NoSpace e h).0)

trim_start-decimal :
    (n : ℕ) (r : Text) → n < u64_mod → trim_start (decimal_u64 n ++ r) ≡ decimal_u64 n ++ r
trim_start-decimal n r h =
    let (c, s, e) = decimal_u64-cons n in
    trim_start-NoSpace (decimal_u64 n) r c s e (decimal_u64-NoSpace n h)

offset-Lacks : (o : Option ℕ) → FitsU64 o → Lacks b'"' (offset_text o)
offset-Lacks none h = tt
offset-Lacks (some o) h = (refl, decimal_u64-Lacks o h b'"' refl)

trim_start_self : (n : ℕ) → n < u64_mod → trim_start (decimal_u64 n) ≡ decimal_u64 n
trim_start_self n h = rw append-nil at (trim_start-decimal n [] h)

trim_start-blank : (r : Text) → trim_start (b' ' ∷ r) ≡ trim_start r
unfolding trim_start is_whitespace
trim_start-blank r = refl

parse_offset-number :
    (t : Text) (n c : ℕ) (s : Text)
    → t ≡ c ∷ s
    → parse_u64 t ≡ some n
    → parse_offset t ≡ some (some n)
unfolding parse_offset
parse_offset-number t n c s e h = rw e (let h' : parse_u64 (c ∷ s) ≡ some n = rw (← e) h in rw h')

-- What stands behind the closing quote is read back.
parse_offset-text : (o : Option ℕ) → FitsU64 o → parse_offset (trim_start (offset_text o)) ≡ some o
unfolding parse_offset trim_start
parse_offset-text none h = refl
parse_offset-text (some o) h =
    let (c, s, e) = decimal_u64-cons o in
    ap parse_offset (trim_start-blank (decimal_u64 o) ∙ trim_start_self o h)
    ∙ parse_offset-number (decimal_u64 o) o c s e (parse_u64-decimal_u64 o h)

-- The file name may hold any code points, quotes and blanks among them.
parse_target-text :
    (f : Text) (o : Option ℕ)
    → FitsU64 o
    → parse_target (trim_start (target_text f o)) ≡ some (some f, o)
unfolding parse_target strip_prefix trim_start is_whitespace
parse_target-text f o h =
    rw (rsplit_once-append b'"' f (offset_text o) (offset-Lacks o h)) (rw (parse_offset-text o h))

-- A text that `trim_end` leaves alone, and that is not empty.
abbrev Kept : Text → Type 0
Kept t = (c : ℕ) × (s : Text) × (t ≡ c ∷ s) × (trim_end t ≡ t)

Kept-cons : (x : ℕ) (t : Text) → Kept t → Kept (x ∷ t)
unfolding trim_end
Kept-cons x t (c, s, e, k) = (x, t, refl, rw (k, e))

Kept-append : (p t : Text) → Kept t → Kept (p ++ t)
Kept-append [] t k = k
Kept-append (x ∷ p) t k = Kept-cons x (p ++ t) (Kept-append p t k)

offset-Kept : (o : Option ℕ) → FitsU64 o → Kept (b'"' ∷ offset_text o)
unfolding trim_end is_whitespace
offset-Kept none h = (b'"', [], refl, refl)
offset-Kept (some o) h =
    let (c, s, e) = decimal_u64-cons o in
    Kept-cons b'"' _ (Kept-cons b' ' _ (c, s, e, trim_end-NoSpace _ (decimal_u64-NoSpace o h)))

line-Kept :
    (a : AccessMode) (n : ℕ) (k : ExtentKind) (f : Text) (o : Option ℕ)
    → FitsU64 o
    → Kept (line_text a n k f o)
line-Kept a n k f o h = Kept-append (access_word a) _ (
    Kept-cons b' ' _ (
      Kept-append (decimal_u64 n) _ (
        Kept-cons b' ' _ (
          Kept-append (kind_word k) _
            (Kept-cons b' ' _ (Kept-cons b'"' _ (Kept-append f _ (offset-Kept o h))))))))

trim-line :
    (a : AccessMode) (n : ℕ) (k : ExtentKind) (f : Text) (o : Option ℕ)
    → FitsU64 o
    → trim_start (trim (line_text a n k f o)) ≡ line_text a n k f o
trim-line a n k f o h =
    rw ((line-Kept a n k f o h).3) (rw trim_start-access (trim_start-access a _))

-- A line with an access mode, a `u64` sector count, a kind, a quoted file name of any code points
-- and an optional `u64` offset, written with single blanks, is read back as these five values.
pub parse_line-line_text :
    (a : AccessMode) (n : ℕ) (k : ExtentKind) (f : Text) (o : Option ℕ)
    → n < u64_mod
    → FitsU64 o
    → parse_line (line_text a n k f o)
      ≡ some (record { access_mode = a; sectors = n; kind = k; filename = some f; offset = o })
unfolding parse_line
parse_line-line_text a n k f o h ho = rw (trim-line a n k f o ho) (
    rw (
      split_once-append b' ' (access_word a) _ (access_word-Lacks a),
      parse_access_mode-word a,
      trim_start-decimal n _ h,
      split_once-append b' ' (decimal_u64 n) _ (decimal_u64-Lacks n h b' ' refl),
      parse_u64-decimal_u64 n h,
      trim_start-kind k _,
      split_once-append b' ' (kind_word k) _ (kind_word-Lacks k),
      parse_extent_kind-word k,
      parse_target-text f o ho,
    ))
