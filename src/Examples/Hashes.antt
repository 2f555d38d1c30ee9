-- ===== src/Examples/Hashes.antt =====
-- An image of one extent, hashed.
use vmdk_rs.Base.{◌≡◌, refl, List, [], ◌∷◌, ◌++◌, some, if◌then◌else◌, tabulate, arith}
use vmdk_rs.Base.Outcome.{Outcome, ok, err}
use vmdk_rs.Io.{Bytes, Cache}
use vmdk_rs.Text.{Text, codes}
use vmdk_rs.Reader.{VmdkReader}
use vmdk_rs.Text.{text_eq}
use vmdk_rs.Errors.{OpenError, of_kind, invalid_file_header}
use vmdk_rs.Hash.{Hasher, IsDigest, VmdkError, hash_reader, do_hash}
use vmdk_rs.Main.{success, failure, main}
use vmdk_rs.Main.Exits.{main_lem}
use vmdk_rs.Hash.Whole.{hash_reader-whole}
use mathlib.Core.List.{append_assoc, append-nil}
use vmdk_rs.Examples.Disk.{disk, bytes_order, stored}
use vmdk_rs.Examples.Chains.{file_byte, image, image_byte, image-Backed}

-- A digest that is the bytes themselves.
abbrev collect : Hasher
collect = record { State = Bytes; new = []; update = λ s b. s ++ b; finalize = λ s. s }

collect-IsDigest : IsDigest collect
collect-IsDigest = record {
  update-nil = λ s. append-nil s;
  update-append = λ s a b. append_assoc s a b;
}

hash_reader-whole_example :
    hash_reader (disk file_byte 512) bytes_order stored collect image
    ≡ ok (collect.finalize (collect.update collect.new (tabulate image_byte 0 512)))
hash_reader-whole_example =
    hash_reader-whole (disk file_byte 512) bytes_order stored collect collect-IsDigest image_byte
      image (omega arith) (omega arith, tt) image-Backed (omega arith)

-- The image is at one path, and nothing at the others.
abbrev open_path : Text → Outcome OpenError (VmdkReader × Cache)
open_path path =
    if text_eq path (codes "d")
    then ok (image, disk file_byte 512)
    else err (of_kind invalid_file_header)

abbrev hex : Bytes → Text
hex digest = codes "00"

abbrev message : VmdkError → Text
message e = codes "error"

abbrev digests : List (Text × Bytes)
digests = (codes "d", tabulate image_byte 0 512) ∷ []

hashed : do_hash bytes_order stored collect open_path (codes "d") ≡ ok (tabulate image_byte 0 512)
unfolding do_hash text_eq
hashed = hash_reader-whole_example

not_there :
    do_hash bytes_order stored collect open_path (codes "x")
    ≡ err (VmdkError.open_error (of_kind invalid_file_header))
unfolding do_hash text_eq
not_there = refl

main_lem_example :
    let main = main bytes_order stored collect open_path hex message in
    (main (codes "d" ∷ [])
      ≡ some (record { stdout = codes "d: 00" ∷ []; stderr = []; code = success }))
    × (main (codes "d" ∷ codes "x" ∷ codes "d" ∷ [])
        ≡ some
            (record { stdout = codes "d: 00" ∷ []; stderr = codes "error" ∷ []; code = failure }))
main_lem_example =
    main_lem bytes_order stored collect open_path hex message digests (codes "x") (codes "d" ∷ [])
      (VmdkError.open_error (of_kind invalid_file_header)) (hashed, tt) not_there
