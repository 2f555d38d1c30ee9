-- ===== src/Open/Described.antt =====
-- How `handle_image` of src/vmdk_reader.rs tells a descriptor file, and reads it.
use vmdk_rs.Base.{
  nat_eq, ℕ, ◌≤◌, ◌<◌, ◌≡◌, refl, ap, sym, ◌∙◌, ◌∷◌, ◌++◌, none, length, length-tabulate, take,
  tabulate, take-tabulate, arith,
}
use vmdk_rs.Base.Outcome.{ok}
use vmdk_rs.Text.{Text, text_eq, trim_end, is_whitespace}
use vmdk_rs.Crates.{ByteOrder}
use vmdk_rs.Io.{Cache, CacheReadSeek}
use vmdk_rs.Io.Exact.{Serves, at, read_exact_ok, seek_ok}
use vmdk_rs.Descriptor.{marker}
use vmdk_rs.Descriptor.File.{read_descriptor_file-classify}
use vmdk_rs.Header.{check_signature}
use vmdk_rs.Open.{read_descriptor}
use vmdk_rs.Descriptor.Lines.{split_lines, classify}
use vmdk_rs.Metadata.{signature_to_file_type, starts_with}

-- A text whose first line is the marker of a descriptor.
abbrev pub after_marker : Text → Text
after_marker rest = marker ++ b'\n' ∷ rest

classify-after_marker :
    (whole rest : Text) → classify whole (split_lines (after_marker rest)) ≡ ok whole
unfolding classify split_lines trim_end text_eq is_whitespace
classify-after_marker whole rest = refl

signature-after_marker : (rest : Text) → signature_to_file_type (take 8 (after_marker rest)) ≡ none
unfolding signature_to_file_type starts_with
signature-after_marker rest = refl

-- A descriptor of ASCII bytes at source 0, behind its marker.
module _ (cache : Cache) (order : ByteOrder) (byte : ℕ → ℕ) (len : ℕ)
    (serves : Serves cache 0 byte len) (ascii : (i : ℕ) → i < len → byte i < 128) (rest : Text)
    (text : tabulate byte 0 len ≡ after_marker rest) where
  abbrev pub here : ℕ → CacheReadSeek
  here = at cache 0 byte len serves

  long_enough : 8 ≤ len
  long_enough = omega (arith, ap length text, length-tabulate byte 0 len)

  signature : signature_to_file_type (tabulate byte 0 8) ≡ none
  signature =
      ap signature_to_file_type (sym (take-tabulate byte 0 len 8 long_enough) ∙ ap (take 8) text)
      ∙ signature-after_marker rest

  pub check_signature-descriptor : check_signature cache order (here 0) ≡ ok (none, here 8)
  unfolding check_signature
  check_signature-descriptor =
      rw (read_exact_ok cache 0 byte len serves 0 8 long_enough) (rw signature refl)

  pub read_descriptor-file :
      (steps : ℕ)
      → len < steps
      → read_descriptor cache order steps none (here 8) ≡ ok (tabulate byte 0 len)
  unfolding read_descriptor
  read_descriptor-file steps h = rw (seek_ok cache 0 byte len serves 8 0 (omega arith)) (
      read_descriptor_file-classify cache 0 byte len serves ascii steps h
      ∙ ap (λ t. classify (tabulate byte 0 len) (split_lines t)) text
      ∙ classify-after_marker (tabulate byte 0 len) rest)
