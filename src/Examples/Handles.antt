-- ===== src/Examples/Handles.antt =====
-- A handle of the C interface, from its opening to its end.
use vmdk_rs.Base.{ℕ, ◌%◌, ◌<◌, ◌≡◌, refl, true, false, [], none, some, arith}
use vmdk_rs.Base.Outcome.{Outcome, ok}
use vmdk_rs.Text.{Text, codes}
use vmdk_rs.Text.Utf8.{from_utf8, decode_loop, decode_one}
use vmdk_rs.Io.{Bytes, Cache}
use vmdk_rs.Storage.{ReadError}
use vmdk_rs.Errors.{OpenError}
use vmdk_rs.Reader.{VmdkReader, read_at_offset}
use vmdk_rs.Capi.{
  Heap, Returned, has_nul, fill_error, vmdk_free_error, new_handle, vmdk_open, vmdk_close,
  vmdk_read,
}
use vmdk_rs.Capi.Calls.{
  Answered, vmdk_close-vmdk_open, vmdk_read-vmdk_open, vmdk_free_error-fill_error,
}
use vmdk_rs.Examples.Disk.{disk, bytes_order, stored}

abbrev no_bytes : VmdkReader × Cache
no_bytes = (record { image_size = 0; spans = []; extents = [] }, disk (λ x. x % 251) 512)

abbrev open_path : Text → Outcome OpenError (VmdkReader × Cache)
open_path ip = ok no_bytes

abbrev open_message : OpenError → Bytes
open_message e = codes "open"

abbrev read_message : ReadError → Bytes
read_message e = codes "read"

abbrev heap : Heap
heap = record { next = 1; blocks = [] }

abbrev path : Bytes
path = codes "a.vmdk"

abbrev handle : Returned
handle = new_handle path no_bytes true heap

open_run : vmdk_open open_path open_message (some path) true heap ≡ ok handle
unfolding vmdk_open from_utf8 decode_loop decode_one
open_run = refl

handle_pos : 0 < handle.0
unfolding new_handle has_nul
handle_pos = omega arith

vmdk_close-vmdk_open_example :
    (g : Heap) × (vmdk_close handle.0 handle.1.1 ≡ some g) × (g.blocks ≡ heap.blocks)
vmdk_close-vmdk_open_example =
    vmdk_close-vmdk_open open_path open_message (some path) true heap handle open_run handle_pos

path_text : from_utf8 path ≡ some path
unfolding from_utf8 decode_loop decode_one
path_text = refl

path_nul : has_nul path ≡ false
unfolding has_nul
path_nul = refl

vmdk_read-vmdk_open_example :
    (r : Returned) × (vmdk_open open_path open_message (some path) true heap ≡ ok r)
    × Answered read_message true r.1.1
        (read_at_offset no_bytes.1 bytes_order stored no_bytes.0 3 5)
        (vmdk_read bytes_order stored read_message r.0 3 (some 5) true r.1.1)
vmdk_read-vmdk_open_example =
    vmdk_read-vmdk_open open_path open_message bytes_order stored read_message path path no_bytes
      true true heap 3 5 path_text path_nul refl

vmdk_free_error-fill_error_example :
    let r = fill_error (codes "open") true heap in
    (p : ℕ) × (r.0 ≡ some p) × (vmdk_free_error p r.1 ≡ none)
vmdk_free_error-fill_error_example = vmdk_free_error-fill_error b'o' (codes "pen") 0 []
