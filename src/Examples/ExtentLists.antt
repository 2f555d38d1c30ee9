-- ===== src/Examples/ExtentLists.antt =====
-- The extents of an image, read or not.
use vmdk_rs.Base.{◌≡◌, refl, List, false, [], ◌∷◌}
use vmdk_rs.Base.Outcome.{ok, err}
use vmdk_rs.Text.{codes}
use vmdk_rs.Storage.{flat}
use vmdk_rs.Extent.{Extent}
use vmdk_rs.Metadata.{signature_to_file_type, starts_with}
use vmdk_rs.Header.{check_signature, sniff, read_header_sparse}
use vmdk_rs.Io.{read_exact, read_exact_loop, read, seek}
use vmdk_rs.Description.{rw_access, rd_only, ExtentDescription, ExtentDescriptionInner, filename_of}
use vmdk_rs.Extents.{read_extent, read_extents, read_extents_loop}
use vmdk_rs.Extents.Reports.{AtOne, Fault, read_extents-AtOne}
use vmdk_rs.Extents.Row.{InRow, read_extents-InRow}
use vmdk_rs.Errors.{OpenError, of_kind, with_path, invalid_file_header}
use vmdk_rs.Examples.Disk.{bytes_order}
use vmdk_rs.Examples.Chains.{host}

abbrev descriptions : List ExtentDescription
descriptions =
    record {
      access_mode = rw_access;
      sectors = 1;
      kind = ExtentDescriptionInner.flat (codes "a") 0;
    }
    ∷ record { access_mode = rd_only; sectors = 5; kind = ExtentDescriptionInner.vmfs (codes "b") }
    ∷ []

abbrev row : List Extent
row =
    record { start_sector = 0; sectors = 1; storage = flat (record { file = 3; offset = 0 }) }
    ∷ record { start_sector = 1; sectors = 5; storage = flat (record { file = 4; offset = 0 }) }
    ∷ []

read_extents_run : read_extents host bytes_order tt descriptions false 3 tt ≡ ok (row, tt)
unfolding read_extents read_extents_loop read_extent filename_of
read_extents_run = refl

read_extents-InRow_example : InRow 0 descriptions row
read_extents-InRow_example =
    read_extents-InRow host bytes_order tt descriptions false 3 tt (row, tt) read_extents_run

-- The file again, as an extent that has a header, which it has not.
abbrev headless : List ExtentDescription
headless =
    record {
      access_mode = rw_access;
      sectors = 1;
      kind = ExtentDescriptionInner.sparse (codes "a");
    }
    ∷ []

abbrev no_header : OpenError
no_header = with_path [] (of_kind invalid_file_header)

headless_run : read_extents host bytes_order tt headless false 3 tt ≡ err no_header
unfolding read_extents read_extents_loop read_extent filename_of read_header_sparse sniff
    check_signature signature_to_file_type starts_with read_exact read_exact_loop read seek
headless_run = refl

read_extents-AtOne_example :
    AtOne host bytes_order (Fault host bytes_order tt false no_header) headless
read_extents-AtOne_example =
    read_extents-AtOne host bytes_order tt headless false 3 tt no_header headless_run
