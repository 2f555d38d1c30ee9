-- ===== src/Grains/Entries.antt =====
-- The entries of the tables that `read_grain_table_sparse` of src/extents.rs reads, as functions of the
-- bytes of a file.
use vmdk_rs.Base.{
  u64_mod, mul64, ℕ, zero, suc, ◌+◌, ◌*◌, ◌≤◌, ◌<◌, ◌≡◌, refl, ap, ◌∙◌, List, [], ◌∷◌, Option, some,
  false, true, ◌==◌, if◌then◌else◌, length, tabulate, map, arith, get_elem?, some_injective,
  Bool-cases, inl, inr,
}
use native.Mathlib.Nat.{suc-mul}
use vmdk_rs.Crates.{ByteOrder}
use vmdk_rs.Storage.{sector_size, GrainTable, get}
use vmdk_rs.Grains.{extend, allocated}
use vmdk_rs.Grains.Table.{entry_or, over, over-before, get-extend}

module _ (order : ByteOrder) (byte : ℕ → ℕ) where
  -- The `u32` at offset `p`, and `n` of them from there on.
  abbrev pub word : ℕ → ℕ
  word p = order.u32_le (tabulate byte p 4)

  abbrev pub words : ℕ → ℕ → List ℕ
  words p zero = []
  words p (suc n) = word p ∷ words (p + 4) n

  length-words : (p n : ℕ) → length (words p n) ≡ n
  length-words p zero = refl
  length-words p (suc n) = ap suc (length-words (p + 4) n)

  -- The offsets of the tables, of which the directory at `p` has `n`.
  abbrev pub offsets : ℕ → ℕ → List ℕ
  offsets p n = map (λ e. mul64 e sector_size) (words p n)

  pub length-offsets : (p n : ℕ) → length (offsets p n) ≡ n
  length-offsets p zero = refl
  length-offsets p (suc n) = ap suc (length-offsets (p + 4) n)

  pub get_elem?-offsets :
      (p n j : ℕ) → j < n → get_elem? (offsets p n) j ≡ some (mul64 (word (p + 4 * j)) sector_size)
  get_elem?-offsets p zero j l = absurd (omega arith)
  get_elem?-offsets p (suc n) zero l = let b : p + 4 * 0 ≡ p = omega arith in rw b refl
  get_elem?-offsets p (suc n) (suc j) l =
      let b : p + 4 * suc j ≡ p + 4 + 4 * j = omega arith in
      rw b (get_elem?-offsets (p + 4) n j (omega arith))

  over-words :
      (k p n i : ℕ) (o : Option ℕ)
      → i < n
      → over k (words p n) (k + i) o ≡ entry_or (word (p + 4 * i)) o
  over-words k p zero i o h = absurd (omega arith)
  over-words k p (suc n) zero o h =
      let a : k + 0 ≡ k = omega arith in
      let b : p + 4 * 0 ≡ p = omega arith in
      let c : (k == k) ≡ true = ground arith in rw (a, b, c) refl
  over-words k p (suc n) (suc i) o h =
      let a : k + suc i ≡ suc k + i = omega arith in
      let b : p + 4 * suc i ≡ p + 4 + 4 * i = omega arith in
      let c : (suc k + i == k) ≡ false = ground arith in
      rw (a, b, c) (over-words (suc k) (p + 4) n i o (omega arith))

  over-beyond : (k p n x : ℕ) (o : Option ℕ) → k + n ≤ x → over k (words p n) x o ≡ o
  over-beyond k p zero x o h = refl
  over-beyond k p (suc n) x o h =
      let c : (x == k) ≡ false = ground arith in
      rw c (over-beyond (suc k) (p + 4) n x o (omega arith))

  -- The tables at the offsets `l1`, of `n` entries each, over what is there already.
  abbrev pub tables : ℕ → ℕ → List ℕ → GrainTable → GrainTable
  tables n cur [] t = t
  tables n cur (o ∷ l1) t =
      tables n (cur + n) l1 (if o == 0 then t else extend t (allocated cur 0 (words o n)))

  -- Entry `i` of the table at `o`; without a table all entries are 0.
  abbrev pub entry : ℕ → ℕ → ℕ
  entry o i = if o == 0 then 0 else word (o + 4 * i)

  table-get :
      (n cur o x : ℕ) (t : GrainTable)
      → cur + n < u64_mod
      → get (if o == 0 then t else extend t (allocated cur 0 (words o n))) x
        ≡ (if o == 0 then get t x else over cur (words o n) x (get t x))
  table-get n cur o x t h = elim (Bool-cases (o == 0)) [
    | inl e ↦ rw e refl
    | inr e ↦
        let z : cur + 0 ≡ cur = omega arith in
        rw e (rw z at (get-extend cur 0 (words o n) t x (omega (arith, length-words o n))))
  ]

  tables-before :
      (n cur : ℕ) (l1 : List ℕ) (t : GrainTable) (x : ℕ)
      → cur + length l1 * n < u64_mod
      → x < cur
      → get (tables n cur l1 t) x ≡ get t x
  tables-before n cur [] t x h l = refl
  tables-before n cur (o ∷ l1) t x h l =
      let m = suc-mul (length l1) n in
      let e = table-get n cur o x t (omega (arith, m)) in
      tables-before n (cur + n) l1 _ x (omega (arith, m)) (omega arith)
      ∙ ground (arith, e, over-before cur (words o n) x (get t x) l)

  pub tables-get :
      (n cur : ℕ) (l1 : List ℕ) (t : GrainTable) (j i o : ℕ)
      → cur + length l1 * n < u64_mod
      → get_elem? l1 j ≡ some o
      → i < n
      → let x = cur + (j * n + i) in get (tables n cur l1 t) x ≡ entry_or (entry o i) (get t x)
  tables-get n cur [] t j i o h e l = cc
  tables-get n cur (a ∷ l1) t zero i o h e l =
      let m = suc-mul (length l1) n in
      let q : a ≡ o = some_injective a o e in
      let z : cur + (0 * n + i) ≡ cur + i = omega arith in
      let f = table-get n cur o (cur + i) t (omega (arith, m)) in
      rw z (
        tables-before n (cur + n) l1 _ (cur + i) (omega (arith, m)) (omega arith)
        ∙ rw q (ground (arith, f, over-words cur o n i (get t (cur + i)) l)))
  tables-get n cur (a ∷ l1) t (suc j) i o h e l =
      let m = suc-mul (length l1) n in
      let k = suc-mul j n in
      let x = cur + n + (j * n + i) in
      let z : cur + (suc j * n + i) ≡ x = omega (arith, k) in
      let f = table-get n cur a x t (omega (arith, m)) in
      rw z (
        tables-get n (cur + n) l1 (if a == 0 then t else extend t (allocated cur 0 (words a n))) j i
          o (omega (arith, m)) e l
        ∙ ap (entry_or (entry o i))
            (ground (arith, f, over-beyond cur a n x (get t x) (omega arith))))
