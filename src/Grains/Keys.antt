-- ===== src/Grains/Keys.antt =====
-- Which grains `read_grain_table_sparse` of src/extents.rs puts into its table.
use vmdk_rs.Base.{
  u64_mod, add64, mul64, ℕ, zero, suc, ◌+◌, ◌≤◌, ◌<◌, ◌≡◌, refl, ap, subst, ◌∙◌, sym, List, [], ◌∷◌,
  Bool, true, false, ◌==◌, if◌then◌else◌, map, length, arith, ◌⊎◌, inl, inr,
}
use vmdk_rs.Base.Outcome.{Outcome, ok, ◌>>=◌, bind_ok, ok_injective}
use vmdk_rs.Crates.{ByteOrder}
use vmdk_rs.Io.{IoError, Cache, CacheReadSeek, from_start, seek}
use vmdk_rs.Storage.{sector_size, GrainTable}
use vmdk_rs.Metadata.{VmdkSparseMeta}
use vmdk_rs.Header.{read_u32}
use vmdk_rs.Grains.{
  without, extend, allocated, table_len, read_entries, sparse_loop, read_grain_table_sparse,
}

-- The keys lie in `[lo, hi)`, and no value is 0.
abbrev pub Within : ℕ → ℕ → List (ℕ × ℕ) → Type 0
Within lo hi [] = Unit
Within lo hi ((k, v) ∷ t) = (lo ≤ k) × (k < hi) × (0 < v) × Within lo hi t

if-Within :
    (lo hi : ℕ) (b : Bool) (s t : List (ℕ × ℕ))
    → Within lo hi s
    → Within lo hi t
    → Within lo hi (if b then s else t)
if-Within lo hi false s t v w = w
if-Within lo hi true s t v w = v

without-Within : (lo hi k : ℕ) (t : GrainTable) → Within lo hi t → Within lo hi (without k t)
unfolding without
without-Within lo hi k [] w = tt
without-Within lo hi k ((j, v) ∷ t) w =
    let rest = without-Within lo hi k t w.3 in
    if-Within lo hi (j == k) (without k t) ((j, v) ∷ without k t) rest (w.0, w.1, w.2, rest)

extend-Within :
    (lo hi : ℕ) (t : GrainTable) (es : List (ℕ × ℕ))
    → Within lo hi t
    → Within lo hi es
    → Within lo hi (extend t es)
unfolding extend
extend-Within lo hi t [] w u = w
extend-Within lo hi t ((k, v) ∷ es) w u =
    extend-Within lo hi ((k, v) ∷ without k t) es (u.0, u.1, u.2, without-Within lo hi k t w) u.3

allocated-Within :
    (lo hi cur i : ℕ) (gs : List ℕ)
    → lo ≤ cur
    → cur + i + length gs ≤ hi
    → hi < u64_mod
    → Within lo hi (allocated cur i gs)
unfolding allocated
allocated-Within lo hi cur i [] h k w = tt
allocated-Within lo hi cur i (zero ∷ gs) h k w =
    allocated-Within lo hi cur (suc i) gs h (omega arith) w
allocated-Within lo hi cur i (suc g ∷ gs) h k w =
    let z : (suc g == 0) ≡ false = ground arith in
    rw z (
      omega arith,
      omega arith,
      omega arith,
      allocated-Within lo hi cur (suc i) gs h (omega arith) w,
    )

-- Which of three branches was taken.
branch_ok :
    (b c : Bool) (x y z : Outcome IoError GrainTable) (u : GrainTable)
    → elim b [ true ↦ x | false ↦ elim c [ true ↦ y | false ↦ z ] ] ≡ ok u
    → (x ≡ ok u) ⊎ ((y ≡ ok u) ⊎ (z ≡ ok u))
branch_ok true c x y z u e = inl e
branch_ok false true x y z u e = inr (inl e)
branch_ok false false x y z u e = inr (inr e)

module _ (cache : Cache) (order : ByteOrder) where
  read_entries-length :
      (n : ℕ) (read : CacheReadSeek → Outcome IoError (ℕ × CacheReadSeek)) (r : CacheReadSeek)
      (p : List ℕ × CacheReadSeek)
      → read_entries cache order n read r ≡ ok p
      → length p.0 ≡ n
  unfolding read_entries
  read_entries-length zero read r p e = ap (λ q. length q.0) (sym (ok_injective ([], r) p e))
  read_entries-length (suc n) read r p e =
      let (x, e1, e2) = bind_ok (read r) _ p e in
      let (y, e3, e4) = bind_ok (read_entries cache order n read x.1) _ p e2 in
      ap (λ q. length q.0) (sym (ok_injective (x.0 ∷ y.0, y.1) p e4))
      ∙ ap suc (read_entries-length n read x.1 y e3)

  -- What a step of the loop keeps: the sectors from `start` to `hi` are where keys may lie.
  sparse_loop-Within :
      (h : VmdkSparseMeta) (start cur hi : ℕ) (l1 : List ℕ) (t u : GrainTable) (r : CacheReadSeek)
      → start ≤ cur
      → cur ≤ hi
      → hi ≡ start + h.sectors
      → hi < u64_mod
      → Within start hi t
      → sparse_loop cache order h start cur l1 t r ≡ ok u
      → Within start hi u
  unfolding sparse_loop
  sparse_loop-Within h start cur hi [] t u r h1 h2 h3 h4 w e =
      subst (Within start hi) (ok_injective t u e) w
  sparse_loop-Within h start cur hi (l2_offset ∷ l1) t u r h1 h2 h3 h4 w e =
      let n = table_len h.l2_len h.sectors start cur in
      let next : (start ≤ add64 cur n) × (add64 cur n ≤ hi) × (cur + n ≤ hi) = omega arith in
      let k : List ℕ × CacheReadSeek → Outcome IoError GrainTable = λ x.
        sparse_loop cache order h start (add64 cur n) l1 (extend t (allocated cur 0 x.0)) x.1 in
      elim (branch_ok (cur == add64 start h.sectors) (l2_offset == 0) (ok t)
        (sparse_loop cache order h start (add64 cur n) l1 t r)
        (seek cache (from_start l2_offset) r >>= λ r1.
          read_entries cache order n (read_u32 cache order) r1 >>= k)
        u e) [
          | inl e1 ↦ subst (Within start hi) (ok_injective t u e1) w
          | inr (inl e1) ↦
              sparse_loop-Within h start (add64 cur n) hi l1 t u r next.0 next.1 h3 h4 w e1
          | inr (inr e1) ↦
              let (r1, _, e2) =
                bind_ok (seek cache (from_start l2_offset) r)
                  (λ r1. read_entries cache order n (read_u32 cache order) r1 >>= k) u e1 in
              let (x, e3, e4) =
                bind_ok (read_entries cache order n (read_u32 cache order) r1) k u e2 in
              let l = read_entries-length n (read_u32 cache order) r1 x e3 in
              let a = allocated-Within start hi cur 0 x.0 h1 (omega arith) h4 in
              sparse_loop-Within h start (add64 cur n) hi l1 (extend t (allocated cur 0 x.0)) u x.1
                next.0 next.1 h3 h4 (extend-Within start hi t (allocated cur 0 x.0) w a) e4
        ]

  -- When `read_grain_table_sparse` succeeds, and the extent's sectors end within 2 ^ 64, every key of
  -- the table is one of the extent's sectors, and no entry is the 0 that stands for the parent's data.
  pub read_grain_table_sparse-Within :
      (h : VmdkSparseMeta) (start : ℕ) (r : CacheReadSeek) (u : GrainTable)
      → start + h.sectors < u64_mod
      → read_grain_table_sparse cache order h start r ≡ ok u
      → Within start (start + h.sectors) u
  unfolding read_grain_table_sparse
  read_grain_table_sparse-Within h start r u w e =
      let k : List ℕ × CacheReadSeek → Outcome IoError GrainTable =
        λ x. sparse_loop cache order h start start (map (λ e. mul64 e sector_size) x.0) [] x.1 in
      let (r1, _, e1) =
        bind_ok (seek cache (from_start h.l1_offset) r)
          (λ r1. read_entries cache order h.l1_len (read_u32 cache order) r1 >>= k) u e in
      let (x, _, e2) =
        bind_ok (read_entries cache order h.l1_len (read_u32 cache order) r1) k u e1 in
      sparse_loop-Within h start start (start + h.sectors) (map (λ e. mul64 e sector_size) x.0) [] u
        x.1 (omega arith) (omega arith) refl w tt e2
