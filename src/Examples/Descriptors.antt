-- ===== src/Examples/Descriptors.antt =====
-- Lines of a descriptor.
use vmdk_rs.Base.{◌≡◌, refl, some, arith}
use vmdk_rs.Text.{Text, codes}
use vmdk_rs.Description.{
  AccessMode, ExtentKind, ExtentDescriptionLine, ExtentDescriptionInner, ExtentDescription,
  parse_line, inner_of, description_of,
}
use vmdk_rs.Description.Line.{line_text, parse_line-line_text}

abbrev file_name : Text
file_name = codes "disk-f001.vmdk"

abbrev flat_line : ExtentDescriptionLine
flat_line = record {
  access_mode = AccessMode.rw_access;
  sectors = 4096;
  kind = ExtentKind.flat;
  filename = some file_name;
  offset = some 128;
}

abbrev flat_description : ExtentDescription
flat_description = record {
  access_mode = AccessMode.rw_access;
  sectors = 4096;
  kind = ExtentDescriptionInner.flat file_name 128;
}

parse_line-line_text_example :
    parse_line (line_text AccessMode.rw_access 4096 ExtentKind.flat file_name (some 128))
    ≡ some flat_line
parse_line-line_text_example =
    parse_line-line_text AccessMode.rw_access 4096 ExtentKind.flat file_name (some 128)
      (omega arith) (omega arith)

describes : description_of flat_line ≡ some flat_description
unfolding description_of inner_of
describes = refl

abbrev descriptor : Text
descriptor = codes "version=1\nRW 8 SPARSE \"a\"\n"

abbrev sparse_description : ExtentDescription
sparse_description = record {
  access_mode = AccessMode.rw_access;
  sectors = 8;
  kind = ExtentDescriptionInner.sparse (codes "a");
}
