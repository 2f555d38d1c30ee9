-- ===== src/Grains.antt =====
-- The grain tables of sparse extents: `read_grain_table_sparse` and `read_grain_table_sesparse` of
-- src/extents.rs.
pub mod Keys
pub mod Table
pub mod Entries
pub mod Contents
use vmdk_rs.Base.{
  add64, sub64, mul64, ℕ, zero, suc, ◌*◌, ◌/◌, ◌^◌, List, [], ◌∷◌, ◌++◌, Option, none, some, Bool,
  true, false, not, ◌||◌, ◌==◌, if◌then◌else◌, min, map,
}
use Prim.Native.Nat.{bit_and, bit_or}
use vmdk_rs.Base.Outcome.{Outcome, ok, err, ◌>>=◌}
use vmdk_rs.Crates.{ByteOrder}
use vmdk_rs.Io.{Bytes, IoError, bad_l1_entry, bad_l2_entry, Cache, CacheReadSeek, from_start, seek}
use vmdk_rs.Storage.{sector_size, GrainTable}
use vmdk_rs.Metadata.{VmdkSparseMeta, VmdkSeSparseMeta}
use vmdk_rs.Header.{read_u32, read_u64}

-- The table without the entry for `k`.
unfoldable pub without : ℕ → GrainTable → GrainTable
without k [] = []
without k ((j, v) ∷ t) = let rest = without k t in if j == k then rest else (j, v) ∷ rest

-- `grain_table.extend(entries)`: a later entry takes the place of an earlier one.
unfoldable pub extend : GrainTable → List (ℕ × ℕ) → GrainTable
extend t [] = t
extend t ((k, v) ∷ es) = extend ((k, v) ∷ without k t) es

-- `l2_entries.iter().enumerate().filter(…).map(…)`, from entry `i` on
unfoldable pub allocated : ℕ → ℕ → List ℕ → List (ℕ × ℕ)
allocated cur i [] = []
allocated cur i (g ∷ gs) =
    let rest = allocated cur (suc i) gs in if g == 0 then rest else (add64 cur i, g) ∷ rest

-- The number of entries that are read of the table at `cur`.
abbrev pub table_len : ℕ → ℕ → ℕ → ℕ → ℕ
table_len l2_len sectors start cur = min l2_len (sub64 sectors (sub64 cur start))

-- One entry of a SESPARSE table: `none` is `continue`.
unfoldable pub cluster_of : VmdkSeSparseMeta → ℕ → Outcome IoError (Option ℕ)
cluster_of h e =
    if e == 0
    then ok none
    else if bit_and e 0xF000000000000000 == 0x1000000000000000
        || bit_and e 0xF000000000000000 == 0x2000000000000000
    then ok (some 1)
    else if bit_and e 0xF000000000000000 == 0x3000000000000000
    then ok (
        some (
          add64 h.clusters_offset (
            mul64
              (bit_or (bit_and e 0x0FFF000000000000 / 2 ^ 48)
                (bit_and e 0x0000FFFFFFFFFFFF * 2 ^ 12))
              h.cluster_sectors)))
    else err bad_l2_entry

abbrev pub add_cluster : ℕ → ℕ → Option ℕ → GrainTable → GrainTable
add_cluster cur i none t = t
add_cluster cur i (some c) t = extend t ((add64 cur i, c) ∷ [])

-- `for (i, &l2_entry) in l2_entries.iter().enumerate()`, from entry `i` on
unfoldable pub add_clusters :
    VmdkSeSparseMeta → ℕ → ℕ → List ℕ → GrainTable → Outcome IoError GrainTable
add_clusters h cur i [] t = ok t
add_clusters h cur i (e ∷ es) t = do
  c ← cluster_of h e
  add_clusters h cur (suc i) es (add_cluster cur i c t)

module _ (cache : Cache) (order : ByteOrder) where
  -- `(0..n).map(|_| read()).collect::<Result<Vec<u64>, _>>()`
  unfoldable pub read_entries :
      ℕ
      → (CacheReadSeek → Outcome IoError (ℕ × CacheReadSeek))
      → CacheReadSeek
      → Outcome IoError (List ℕ × CacheReadSeek)
  read_entries zero read r = ok ([], r)
  read_entries (suc n) read r = do
    (e, r1) ← read r
    (es, r2) ← read_entries n read r1
    ok (e ∷ es, r2)

  -- `for l2_offset in l1_entries`
  unfoldable pub sparse_loop :
      VmdkSparseMeta → ℕ → ℕ → List ℕ → GrainTable → CacheReadSeek → Outcome IoError GrainTable
  sparse_loop h start cur [] t r = ok t
  sparse_loop h start cur (l2_offset ∷ l1) t r =
      let n = table_len h.l2_len h.sectors start cur in
      elim (cur == add64 start h.sectors) [
        | true ↦ ok t
        | false ↦ elim (l2_offset == 0) [
          | true ↦ sparse_loop h start (add64 cur n) l1 t r
          | false ↦ do
            r1 ← seek cache (from_start l2_offset) r
            (es, r2) ← read_entries n (read_u32 cache order) r1
            sparse_loop h start (add64 cur n) l1 (extend t (allocated cur 0 es)) r2
        ]
      ]

  -- `read_grain_table_sparse`
  unfoldable pub read_grain_table_sparse :
      VmdkSparseMeta → ℕ → CacheReadSeek → Outcome IoError GrainTable
  read_grain_table_sparse h start r = do
    r1 ← seek cache (from_start h.l1_offset) r
    (l1, r2) ← read_entries h.l1_len (read_u32 cache order) r1
    sparse_loop h start start (map (λ e. mul64 e sector_size) l1) [] r2

  -- `for l1_entry in l1_entries`
  unfoldable pub se_sparse_loop :
      VmdkSeSparseMeta → ℕ → ℕ → List ℕ → GrainTable → CacheReadSeek → Outcome IoError GrainTable
  se_sparse_loop h start cur [] t r = ok t
  se_sparse_loop h start cur (l1_entry ∷ l1) t r =
      let n = table_len h.l2_len h.sectors start cur in
      elim (cur == add64 start h.sectors) [
        | true ↦ ok t
        | false ↦ elim (l1_entry == 0) [
          | true ↦ se_sparse_loop h start (add64 cur n) l1 t r
          | false ↦ elim (bit_and l1_entry 0xF000000000000000 == 0x1000000000000000) [
            | false ↦ err bad_l1_entry
            | true ↦ do
              r1 ←
                  seek cache
                    (from_start (
                      add64 h.l2_tables_offset
                        (mul64 (bit_and l1_entry 0x0FFFFFFFFFFFFFFF) (mul64 h.l2_len 8))))
                    r
              (es, r2) ← read_entries n (read_u64 cache order) r1
              t' ← add_clusters h cur 0 es t
              se_sparse_loop h start (add64 cur n) l1 t' r2
          ]
        ]
      ]

  -- `read_grain_table_sesparse`
  unfoldable pub read_grain_table_sesparse :
      VmdkSeSparseMeta → ℕ → CacheReadSeek → Outcome IoError GrainTable
  read_grain_table_sesparse h start r = do
    r1 ← seek cache (from_start h.l1_offset) r
    (l1, r2) ← read_entries h.l1_len (read_u64 cache order) r1
    se_sparse_loop h start start l1 [] r2
