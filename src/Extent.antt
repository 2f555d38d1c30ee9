-- ===== src/Extent.antt =====
-- `struct Extent` of src/extents.rs.
use vmdk_rs.Base.{mul64, add64, ℕ, List, [], ◌∷◌, Bool, true, false, map}
use vmdk_rs.Storage.{ExtentStorage, sparse, flat, zeroed}

pub record Extent : Type 0 where
  pub start_sector : ℕ
  pub sectors : ℕ
  pub storage : ExtentStorage

-- The span of the grain with key `goff`.
abbrev pub grain_span : ℕ → ℕ → ℕ → ℕ × ℕ
grain_span start grain_size goff =
    let beg = add64 start (mul64 goff grain_size) in (beg, add64 beg grain_size)

abbrev spans_of : ℕ → ℕ → ExtentStorage → List (ℕ × ℕ)
spans_of start sectors (sparse s) = map (λ g. grain_span start s.grain_size g.0) s.grain_table
spans_of start sectors (flat s) = (start, add64 start sectors) ∷ []
spans_of start sectors zeroed = (start, add64 start sectors) ∷ []

-- `Extent::spans`, in sectors
unfoldable pub spans : Extent → List (ℕ × ℕ)
spans ex = spans_of ex.start_sector ex.sectors ex.storage

-- `Extent::has_file`
unfoldable pub has_file : ExtentStorage → Bool
has_file zeroed = false
has_file _ = true
