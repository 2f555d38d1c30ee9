-- ===== src/Header/Accept.antt =====
-- What src/header.rs guarantees of the metadata that it accepts.
use vmdk_rs.Base.{
  mul64, ℕ, ◌+◌, ◌-◌, ◌*◌, ◌/◌, ◌%◌, ◌^◌, ◌≤◌, ◌<◌, ◌≡◌, refl, ap, subst, ◌∙◌, ltb, if◌then◌else◌,
  arith, ◌⊎◌, inl, inr, false,
}
use native.Mathlib.Omega.{div_any}
use native.Mathlib.Nat.{mod-lt, mul-le-mul, mul_comm, suc-mul}
use vmdk_rs.Base.Outcome.{Outcome, ok, err, ◌>>=◌, ok_injective, bind_ok, guard_ok}
use vmdk_rs.Errors.{OpenErrorKind, invalid_file_header}
use vmdk_rs.Metadata.{
  Vmdk4Header, VmdkSparseMeta, VmdkSeSparseConstHeader, VmdkSeSparseMeta, image_bytes, div_ceil,
  is_unsupported, meta_of_vmdk4, limit_vmdk4, sparse_of_vmdk4, entries_of, is_other_se_sparse,
  meta_of_se_sparse, se_sparse_of_header,
}

ceil_cases :
    (a b n : ℕ)
    → div_ceil a b ≡ ok n
    → (0 < b) × (((a % b ≡ 0) × (n ≡ a / b)) ⊎ ((0 < a % b) × (n ≡ a / b + 1)))
ceil_cases a b n e = ground (arith, e)

ceil_bounds :
    (a b n : ℕ)
    → 0 < b
    → ((a % b ≡ 0) × (n ≡ a / b)) ⊎ ((0 < a % b) × (n ≡ a / b + 1))
    → (a ≤ n * b) × (n * b < a + b)
ceil_bounds a b n p (inl (z, q)) =
    let e : n * b ≡ b * (a / b) = rw q (mul_comm (a / b) b) in omega (arith, div_any a b, e)
ceil_bounds a b n p (inr (z, q)) =
    let e : n * b ≡ b * (a / b) + b =
      rw q (
        ap (λ t. t * b) (omega arith) ∙ suc-mul (a / b) b ∙ ap (λ t. t + b) (mul_comm (a / b) b)) in
    omega (arith, div_any a b, mod-lt a p, e)

-- `n` is `a / b`, rounded up.
ceil_covers : (a b n : ℕ) → div_ceil a b ≡ ok n → (a ≤ n * b) × (n * b < a + b)
ceil_covers a b n e = let (p, c) = ceil_cases a b n e in ceil_bounds a b n p c

-- The checks that a VMDK4 header passes, and the metadata that it gives.
vmdk4_checks :
    (h : Vmdk4Header) (m : VmdkSparseMeta)
    → sparse_of_vmdk4 h ≡ ok m
    → (l1_len : ℕ) × (is_unsupported h ≡ false)
      × (div_ceil h.capacity (mul64 h.num_gtes_per_gt h.granularity) ≡ ok l1_len)
      × (ltb (2 ^ 41) (image_bytes l1_len h.num_gtes_per_gt h.granularity) ≡ false)
      × (meta_of_vmdk4 h l1_len ≡ m)
unfolding sparse_of_vmdk4
vmdk4_checks h m e =
    let d = div_ceil h.capacity (mul64 h.num_gtes_per_gt h.granularity) in
    let (f, e1) = guard_ok (is_unsupported h) invalid_file_header (d >>= limit_vmdk4 h) m e in
    let (l1_len, c, e2) = bind_ok d (limit_vmdk4 h) m e1 in
    let (g, e3) =
      guard_ok (ltb (2 ^ 41) (image_bytes l1_len h.num_gtes_per_gt h.granularity))
        invalid_file_header (ok (meta_of_vmdk4 h l1_len)) m e2 in
    (l1_len, f, c, g, ok_injective _ m e3)

-- Tables of 1 to 512 grains of a sector or more, and exactly as many tables as the sectors need.
abbrev pub Covers : VmdkSparseMeta → Type 0
Covers m =
    (0 < m.l2_len)
    × (m.l2_len ≤ 512)
    × (0 < m.cluster_sectors)
    × (m.sectors ≤ m.l1_len * (m.l2_len * m.cluster_sectors))
    × (m.l1_len * (m.l2_len * m.cluster_sectors) < m.sectors + m.l2_len * m.cluster_sectors)

-- A header whose granularity is within 2 ^ 55 and that is accepted: the grain tables have 1 to 512
-- entries of a grain of 1 sector at least, and the directory has exactly the tables that the sectors
-- need.
pub sparse_of_vmdk4_lem :
    (h : Vmdk4Header) (m : VmdkSparseMeta)
    → h.granularity < 2 ^ 55
    → sparse_of_vmdk4 h ≡ ok m
    → Covers m
sparse_of_vmdk4_lem h m g e =
    let (l1_len, f, c, _, e3) = vmdk4_checks h m e in
    let b : (0 < h.num_gtes_per_gt) × (h.num_gtes_per_gt ≤ 512) × (0 < h.granularity) =
      ground (arith, f) in
    let g' : h.granularity ≤ 2 ^ 55 - 1 = omega arith in
    let bound : h.num_gtes_per_gt * h.granularity ≤ 512 * (2 ^ 55 - 1) = mul-le-mul b.1 g' in
    let w : mul64 h.num_gtes_per_gt h.granularity ≡ h.num_gtes_per_gt * h.granularity =
      omega (arith, bound) in
    let (lo, hi) = ceil_covers h.capacity (h.num_gtes_per_gt * h.granularity) l1_len (rw w at c) in
    subst Covers e3 (b.0, b.1, b.2, lo, hi)

-- The tables of 4096 grains of 8 sectors that the limit of 64 TB leaves.
tables_limit : (n : ℕ) → n < 2 ^ 40 → ltb (2 ^ 46) (image_bytes n 4096 8) ≡ false → n ≤ 2 ^ 22
tables_limit n g k = ground (arith, k)

-- Tables of 4096 grains of 8 sectors, and at most 2 ^ 22 tables: 64 TB.
abbrev pub IsSeSparse : VmdkSeSparseConstHeader → VmdkSeSparseMeta → Type 0
IsSeSparse h m =
    (m.l2_len ≡ 4096)
    × (m.cluster_sectors ≡ 8)
    × (m.l1_len ≡ 64 * h.grain_dir_size)
    × (m.l1_len ≤ 2 ^ 22)
    × (m.sectors ≡ h.capacity)

-- A header of a sesparse extent whose directory is of less than 2 ^ 34 sectors and that is accepted:
-- each grain table has 4096 entries of a grain of 8 sectors, the directory has 64 entries for each
-- of its sectors, and there are at most 2 ^ 22 of them.
pub se_sparse_of_header_lem :
    (h : VmdkSeSparseConstHeader) (m : VmdkSeSparseMeta)
    → h.grain_dir_size < 2 ^ 34
    → se_sparse_of_header h ≡ ok m
    → IsSeSparse h m
unfolding se_sparse_of_header
se_sparse_of_header_lem h m g e =
    let over =
      ltb (2 ^ 46)
        (image_bytes (entries_of h.grain_dir_size) (entries_of h.grain_table_size) h.grain_size) in
    let rest : Outcome OpenErrorKind VmdkSeSparseMeta =
      if over then err invalid_file_header else ok (meta_of_se_sparse h) in
    let (f, e1) = guard_ok (is_other_se_sparse h) invalid_file_header rest m e in
    let (k, e2) = guard_ok over invalid_file_header (ok (meta_of_se_sparse h)) m e1 in
    let t : (h.grain_size ≡ 8) × (h.grain_table_size ≡ 64) = ground (arith, f) in
    let l1 : entries_of h.grain_dir_size ≡ 64 * h.grain_dir_size = omega arith in
    let l2 : entries_of h.grain_table_size ≡ 4096 = rw t.1 refl in
    let limit : 64 * h.grain_dir_size ≤ 2 ^ 22 =
      tables_limit (64 * h.grain_dir_size) (omega arith) (rw (l1, l2, t.0) at k) in
    subst (IsSeSparse h) (ok_injective (meta_of_se_sparse h) m e2) (l2, t.0, l1, rw l1 limit, refl)
