-- ===== src/Capi.antt =====
-- src/capi.rs: the C interface, with what it allocates and frees. A pointer is an address, and 0 is
-- null.
pub mod Memory
pub mod Calls
use vmdk_rs.Base.{
  ℕ, zero, suc, ◌+◌, List, [], ◌∷◌, ◌++◌, Option, none, some, Bool, true, false, ◌==◌,
  if◌then◌else◌,
}
use vmdk_rs.Base.Outcome.{Outcome, ok, err, panic, hang}
use vmdk_rs.Crates.{ByteOrder, Deflate}
use vmdk_rs.Text.{Text, codes}
use vmdk_rs.Text.Utf8.{from_utf8}
use vmdk_rs.Io.{Bytes, Cache}
use vmdk_rs.Storage.{ReadError}
use vmdk_rs.Errors.{OpenError}
use vmdk_rs.Reader.{VmdkReader, read_at_offset}

-- What is allocated: a `CString` without its last NUL, a `VmdkError`, a `VmdkReader` with its cache, and
-- a `VmdkHandle`.
pub data Block : Type 1 where
  c_string : Bytes → Block
  vmdk_error : ℕ → Block
  vmdk_reader : VmdkReader × Cache → Block
  vmdk_handle : ℕ → ℕ → ℕ → Block

pub record Heap : Type 1 where
  pub next : ℕ
  pub blocks : List (ℕ × Block)

abbrev pub alloc : Block → Heap → ℕ × Heap
alloc b h = (h.next, record { next = suc h.next; blocks = (h.next, b) ∷ h.blocks })

unfoldable pub block_at : ℕ → List (ℕ × Block) → Option Block
block_at p [] = none
block_at p ((q, b) ∷ l) = if q == p then some b else block_at p l

unfoldable pub erase : ℕ → List (ℕ × Block) → List (ℕ × Block)
erase p [] = []
erase p ((q, b) ∷ l) = if q == p then l else (q, b) ∷ erase p l

abbrev pub free : ℕ → Heap → Heap
free p h = record { next = h.next; blocks = erase p h.blocks }

-- `CString::new`: a NUL inside is an error.
unfoldable pub has_nul : Bytes → Bool
has_nul [] = false
has_nul (b ∷ bs) = if b == 0 then true else has_nul bs

-- `.replace("\0", "\u{FFFD}")`
unfoldable pub replace_nul : Bytes → Bytes
replace_nul [] = []
replace_nul (b ∷ bs) =
    let rest = replace_nul bs in if b == 0 then 0xEF ∷ 0xBF ∷ 0xBD ∷ rest else b ∷ rest

abbrev pub never_text : Text
never_text =
    codes
      ". Additionally, the original error message somehow contained an internal null, which should never happen."

abbrev pub message_of : Bytes → Bytes
message_of e = if has_nul e then replace_nul e ++ never_text else e

-- `fill_error(e, err)`: what it stores in `err`, where `err` is not null.
unfoldable pub fill_error : Bytes → Bool → Heap → Option ℕ × Heap
fill_error e false h = (none, h)
fill_error e true h =
    let m = alloc (c_string (message_of e)) h in
    let p = alloc (vmdk_error m.0) m.1 in (some p.0, p.1)

-- `drop(Box::from_raw(self.message))`: a box of one `c_char`, which is undefined behaviour where the
-- allocation has another size: `none`.
abbrev pub free_c_char : ℕ → Option Block → Heap → Option Heap
free_c_char p (some (c_string [])) h = some (free p h)
free_c_char p _ h = none

abbrev pub freed : ℕ → Option Heap → Option Heap
freed p none = none
freed p (some h) = some (free p h)

-- `Drop for VmdkError` and the box itself
abbrev pub drop_error : ℕ → Option Block → Heap → Option Heap
drop_error p (some (vmdk_error zero)) h = some (free p h)
drop_error p (some (vmdk_error (suc m))) h =
    freed p (free_c_char (suc m) (block_at (suc m) h.blocks) h)
drop_error p _ h = none

-- `vmdk_free_error`
unfoldable pub vmdk_free_error : ℕ → Heap → Option Heap
vmdk_free_error zero h = some h
vmdk_free_error (suc p) h = drop_error (suc p) (block_at (suc p) h.blocks) h

-- What a call returns, what it stores in `err`, and the heap.
abbrev pub Returned : Type 1
Returned = ℕ × (Option ℕ × Heap)

-- `fill_error(…); return null`
abbrev pub fail : Bytes → Bool → Heap → Returned
fail e wants h = (0, fill_error e wants h)

-- `VmdkHandle::new` and the box around it
unfoldable pub new_handle : Bytes → VmdkReader × Cache → Bool → Heap → Returned
new_handle path r wants h =
    if has_nul path
    then fail (codes "path contains an internal null") wants h
    else (let s = alloc (c_string path) h in
        let b = alloc (vmdk_reader r) s.1 in
        let p = alloc (vmdk_handle b.0 s.0 r.0.image_size) b.1 in (p.0, (none, p.1)))

module _ (open_path : Text → Outcome OpenError (VmdkReader × Cache))
    (open_message : OpenError → Bytes) where
  -- `match VmdkReader::open(ip)`
  abbrev pub opened :
      Bytes → Bool → Heap → Outcome OpenError (VmdkReader × Cache) → Outcome OpenError Returned
  opened path wants h (ok r) = ok (new_handle path r wants h)
  opened path wants h (err e) = ok (fail (open_message e) wants h)
  opened path wants h panic = panic
  opened path wants h hang = hang

  abbrev pub open_text : Bytes → Bool → Heap → Option Text → Outcome OpenError Returned
  open_text path wants h none = ok (fail (codes "image_path is not UTF-8") wants h)
  open_text path wants h (some ip) = opened path wants h (open_path ip)

  -- `vmdk_open`: the bytes of the path up to its NUL, or `none` for null; `wants` says that `err` is not
  -- null.
  unfoldable pub vmdk_open : Option Bytes → Bool → Heap → Outcome OpenError Returned
  vmdk_open none wants h = ok (fail (codes "image_path is null") wants h)
  vmdk_open (some path) wants h = open_text path wants h (from_utf8 path)

abbrev pub free_path : ℕ → ℕ → Heap → Option Block → Option Heap
free_path p path h (some (c_string s)) = some (free p (free path h))
free_path p path h _ = none

abbrev pub free_reader : ℕ → ℕ → ℕ → Heap → Option Block → Option Heap
free_reader p reader path h (some (vmdk_reader r)) =
    free_path p path (free reader h) (block_at path (erase reader h.blocks))
free_reader p reader path h _ = none

-- `Drop for VmdkHandle` and the box itself: the reader, the path and the handle are freed.
abbrev pub drop_handle : ℕ → Option Block → Heap → Option Heap
drop_handle p (some (vmdk_handle reader path size)) h =
    free_reader p reader path h (block_at reader h.blocks)
drop_handle p _ h = none

-- `vmdk_close`
unfoldable pub vmdk_close : ℕ → Heap → Option Heap
vmdk_close zero h = some h
vmdk_close (suc p) h = drop_handle (suc p) (block_at (suc p) h.blocks) h

-- What `vmdk_read` returns and fills, what it stores in `err`, and the heap. What an error leaves in the
-- buffer is not said.
abbrev pub Read : Type 1
Read = (ℕ × Bytes) × (Option ℕ × Heap)

module _ (order : ByteOrder) (deflate : Deflate) (read_message : ReadError → Bytes) where
  -- `.unwrap_or_else(|e| { fill_error(e, err); 0 })`
  abbrev pub or_zero : Bool → Heap → Outcome ReadError (ℕ × Bytes) → Outcome ReadError Read
  or_zero wants h (ok r) = ok (r, (none, h))
  or_zero wants h (err e) = ok ((0, []), fill_error (read_message e) wants h)
  or_zero wants h panic = panic
  or_zero wants h hang = hang

  abbrev pub read_through : ℕ → ℕ → Bool → Heap → Option Block → Option (Outcome ReadError Read)
  read_through offset n wants h (some (vmdk_reader r)) =
      some (or_zero wants h (read_at_offset r.1 order deflate r.0 offset n))
  read_through offset n wants h _ = none

  abbrev pub read_handle : ℕ → ℕ → Bool → Heap → Option Block → Option (Outcome ReadError Read)
  read_handle offset n wants h (some (vmdk_handle reader path size)) =
      read_through offset n wants h (block_at reader h.blocks)
  read_handle offset n wants h _ = none

  -- `vmdk_read` into a buffer of `n` bytes, or `none` for null. The outer `none` is a handle that is no
  -- `VmdkHandle`.
  unfoldable pub vmdk_read : ℕ → ℕ → Option ℕ → Bool → Heap → Option (Outcome ReadError Read)
  vmdk_read zero offset buf wants h =
      some (ok ((0, []), fill_error (codes "handle is null") wants h))
  vmdk_read (suc p) offset none wants h =
      some (ok ((0, []), fill_error (codes "buf is null") wants h))
  vmdk_read (suc p) offset (some n) wants h =
      read_handle offset n wants h (block_at (suc p) h.blocks)
