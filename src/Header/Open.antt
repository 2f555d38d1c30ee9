-- ===== src/Header/Open.antt =====
-- `read_header_sparse` and `read_header_sesparse` of src/header.rs, as functions of the bytes.
use vmdk_rs.Base.{
  ℕ, ◌+◌, ◌-◌, ◌≤◌, ◌<◌, ◌≡◌, refl, Option, none, some, if◌then◌else◌, leb, le→leb, lt→leb_false,
  tabulate, arith, Bool, true, false,
}
use native.Mathlib.Decide.{dec_le}
use vmdk_rs.Base.Outcome.{Outcome, ok, err, ◌>>=◌}
use vmdk_rs.Crates.{ByteOrder}
use vmdk_rs.Io.{unexpected_eof, seek_negative, negsuc, from_end, Cache, CacheReadSeek, seek}
use vmdk_rs.Io.Exact.{Serves, at, read_exact_ok, read_exact_eof, seek_ok}
use vmdk_rs.Errors.{
  OpenErrorKind, io_error, deserialization_failed, invalid_file_header, vmdk3_header, vmdk4_header,
  se_sparse_header,
}
use vmdk_rs.Metadata.{
  FileType, vmdk3, vmdk4, vmdk_se_sparse, Vmdk4Header, VmdkSparseMeta, VmdkSeSparseMeta,
  use_secondary, sparse_of_vmdk3, sparse_of_vmdk4, se_sparse_of_header, signature_to_file_type,
}
use vmdk_rs.Header.{
  check_signature, sniff, read_secondary, read_header_of, read_se_header_of, read_header_sparse,
  read_header_sesparse,
}
use vmdk_rs.Header.Layout.{vmdk3_at, vmdk4_at, se_sparse_at}
use vmdk_rs.Header.Parse.{vmdk3_from_reader_lem, vmdk4_from_reader_lem, se_sparse_from_reader_lem}

-- The metadata of a sparse extent whose file holds `size` bytes.
abbrev pub sparse_meta :
    ByteOrder → (ℕ → ℕ) → ℕ → Option FileType → Outcome OpenErrorKind VmdkSparseMeta
sparse_meta order byte size (some vmdk3) =
    if leb 44 size
    then sparse_of_vmdk3 (vmdk3_at order byte 0)
    else err (deserialization_failed vmdk3_header unexpected_eof)
sparse_meta order byte size (some vmdk4) =
    if leb 79 size
    then (if use_secondary (vmdk4_at order byte 0)
        then (if leb 1024 size
            then sparse_of_vmdk4 (vmdk4_at order byte (size - 1024))
            else err (io_error seek_negative))
        else sparse_of_vmdk4 (vmdk4_at order byte 0))
    else err (deserialization_failed vmdk4_header unexpected_eof)
sparse_meta order byte size (some vmdk_se_sparse) = err invalid_file_header
sparse_meta order byte size none = err invalid_file_header

-- The metadata of a SESPARSE extent.
abbrev pub se_sparse_meta :
    ByteOrder → (ℕ → ℕ) → ℕ → Option FileType → Outcome OpenErrorKind VmdkSeSparseMeta
se_sparse_meta order byte size (some vmdk_se_sparse) =
    if leb 208 size
    then se_sparse_of_header (se_sparse_at order byte 0)
    else err (deserialization_failed se_sparse_header unexpected_eof)
se_sparse_meta order byte size (some vmdk3) = err invalid_file_header
se_sparse_meta order byte size (some vmdk4) = err invalid_file_header
se_sparse_meta order byte size none = err invalid_file_header

module _ (cache : Cache) (order : ByteOrder) (idx : ℕ) (byte : ℕ → ℕ) (size : ℕ)
    (serves : Serves cache idx byte size) where
  abbrev here : ℕ → CacheReadSeek
  here p = at cache idx byte size serves p

  check_ok :
      (p : ℕ)
      → p + 8 ≤ size
      → check_signature cache order (here p)
        ≡ ok (signature_to_file_type (tabulate byte p 8), here (p + 8))
  unfolding check_signature
  check_ok p h = rw (read_exact_ok cache idx byte size serves p 8 h)

  check_eof :
      (p : ℕ) → p ≤ size → size < p + 8 → check_signature cache order (here p) ≡ err unexpected_eof
  unfolding check_signature
  check_eof p h k =
      rw (read_exact_eof cache idx byte size serves p 8 h k (omega (arith, serves.fits)))

  sniff_ok :
      (p : ℕ)
      → 8 ≤ size
      → sniff cache order (here p) ≡ ok (signature_to_file_type (tabulate byte 0 8), here 0)
  unfolding sniff
  sniff_ok p h =
      rw (seek_ok cache idx byte size serves p 0 (omega arith))
        (rw (check_ok 0 h) (rw (seek_ok cache idx byte size serves (0 + 8) 0 (omega arith))))

  sniff_eof : (p : ℕ) → size < 8 → sniff cache order (here p) ≡ err unexpected_eof
  unfolding sniff
  sniff_eof p h =
      rw (seek_ok cache idx byte size serves p 0 (omega arith)) (rw (check_eof 0 (omega arith) h))

  seek_back :
      (p : ℕ) → 1024 ≤ size → seek cache (from_end (negsuc 1023)) (here p) ≡ ok (here (size - 1024))
  unfolding seek
  seek_back p h = ground (arith, serves.ends)

  seek_back_err :
      (p : ℕ) → size < 1024 → seek cache (from_end (negsuc 1023)) (here p) ≡ err seek_negative
  unfolding seek
  seek_back_err p h = ground (arith, serves.ends)

  read_secondary_ok :
      (p : ℕ)
      → 1024 ≤ size
      → read_secondary cache order (here p) ≡ ok (vmdk4_at order byte (size - 1024))
  unfolding read_secondary
  read_secondary_ok p h =
      let l : leb (size - 1024 + 79) size ≡ true = le→leb _ size (omega arith) in
      rw (seek_back p h) (
        rw (check_ok (size - 1024) (omega arith)) (
          rw (seek_back (size - 1024 + 8) h) (
            rw (
              rw l at (
                vmdk4_from_reader_lem cache order idx byte size serves (size - 1024)
                  (omega arith))))))

  read_secondary_err :
      (p : ℕ) → size < 1024 → read_secondary cache order (here p) ≡ err (io_error seek_negative)
  unfolding read_secondary
  read_secondary_err p h = rw (seek_back_err p h)

  read_vmdk3 :
      read_header_of cache order (some vmdk3) (here 0) ≡ sparse_meta order byte size (some vmdk3)
  read_vmdk3 = elim (dec_le 44 size) [
    | yes q ↦
        let l : leb 44 size ≡ true = le→leb 44 size q in
        rw l (rw (rw l at (vmdk3_from_reader_lem cache order idx byte size serves 0 (omega arith))))
    | no q ↦
        let l : leb 44 size ≡ false = lt→leb_false 44 size (omega arith) in
        rw l (rw (rw l at (vmdk3_from_reader_lem cache order idx byte size serves 0 (omega arith))))
  ]

  -- What follows the primary header.
  choose_header :
      (b : Bool) (h : Vmdk4Header) (p : ℕ)
      → ((if b then read_secondary cache order (here p) else ok h) >>= λ h'. sparse_of_vmdk4 h') ≡ (
          if b
          then (if leb 1024 size
              then sparse_of_vmdk4 (vmdk4_at order byte (size - 1024))
              else err (io_error seek_negative))
          else sparse_of_vmdk4 h)
  choose_header false h p = refl
  choose_header true h p = elim (dec_le 1024 size) [
    | yes q ↦ rw (le→leb 1024 size q) (rw (read_secondary_ok p q))
    | no q ↦ rw (lt→leb_false 1024 size (omega arith)) (rw (read_secondary_err p (omega arith)))
  ]

  read_vmdk4 :
      read_header_of cache order (some vmdk4) (here 0) ≡ sparse_meta order byte size (some vmdk4)
  read_vmdk4 = elim (dec_le 79 size) [
    | yes q ↦
        let l : leb 79 size ≡ true = le→leb 79 size q in
        rw l (
          rw (rw l at (vmdk4_from_reader_lem cache order idx byte size serves 0 (omega arith)))
            (choose_header (use_secondary (vmdk4_at order byte 0)) (vmdk4_at order byte 0) 79))
    | no q ↦
        let l : leb 79 size ≡ false = lt→leb_false 79 size (omega arith) in
        rw l (rw (rw l at (vmdk4_from_reader_lem cache order idx byte size serves 0 (omega arith))))
  ]

  read_by_type :
      (ft : Option FileType)
      → read_header_of cache order ft (here 0) ≡ sparse_meta order byte size ft
  read_by_type none = refl
  read_by_type (some vmdk3) = read_vmdk3
  read_by_type (some vmdk4) = read_vmdk4
  read_by_type (some vmdk_se_sparse) = refl

  read_se_by_type :
      (ft : Option FileType)
      → read_se_header_of cache order ft (here 0) ≡ se_sparse_meta order byte size ft
  read_se_by_type none = refl
  read_se_by_type (some vmdk3) = refl
  read_se_by_type (some vmdk4) = refl
  read_se_by_type (some vmdk_se_sparse) = elim (dec_le 208 size) [
    | yes q ↦
        let l : leb 208 size ≡ true = le→leb 208 size q in
        rw l (
          rw (rw l at (se_sparse_from_reader_lem cache order idx byte size serves 0 (omega arith))))
    | no q ↦
        let l : leb 208 size ≡ false = lt→leb_false 208 size (omega arith) in
        rw l (
          rw (rw l at (se_sparse_from_reader_lem cache order idx byte size serves 0 (omega arith))))
  ]

  -- `read_header_sparse` over a file that is served, from any position: the metadata depends on the bytes alone. A
  -- file with fewer than 8 bytes is an `UnexpectedEof`, and else the signature says which header is
  -- read, at the front or, for GD_AT_END, 1024 bytes from the end.
  pub read_header_sparse_lem :
      (p : ℕ)
      → read_header_sparse cache order (here p) ≡ (
          if leb 8 size
          then sparse_meta order byte size (signature_to_file_type (tabulate byte 0 8))
          else err (io_error unexpected_eof))
  unfolding read_header_sparse
  read_header_sparse_lem p = elim (dec_le 8 size) [
    | yes q ↦
        rw (le→leb 8 size q)
          (rw (sniff_ok p q) (read_by_type (signature_to_file_type (tabulate byte 0 8))))
    | no q ↦ rw (lt→leb_false 8 size (omega arith)) (rw (sniff_eof p (omega arith)))
  ]

  -- `read_header_sesparse` over a file that is served, from any position: a file with the SESPARSE signature and a complete
  -- header is judged by its header, and every other file is the error that the branch gives.
  pub read_header_sesparse_lem :
      (p : ℕ)
      → read_header_sesparse cache order (here p) ≡ (
          if leb 8 size
          then se_sparse_meta order byte size (signature_to_file_type (tabulate byte 0 8))
          else err (io_error unexpected_eof))
  unfolding read_header_sesparse
  read_header_sesparse_lem p = elim (dec_le 8 size) [
    | yes q ↦
        rw (le→leb 8 size q)
          (rw (sniff_ok p q) (read_se_by_type (signature_to_file_type (tabulate byte 0 8))))
    | no q ↦ rw (lt→leb_false 8 size (omega arith)) (rw (sniff_eof p (omega arith)))
  ]
