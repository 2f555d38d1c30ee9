-- ===== src/Grains/Table.antt =====
-- Looking a grain up in the tables that `read_grain_table_sparse` of src/extents.rs puts together.
use vmdk_rs.Base.{
  u64_mod, add64, ℕ, zero, suc, ◌+◌, ◌<◌, ◌≡◌, refl, ap, ◌∙◌, List, [], ◌∷◌, Option, none, some,
  false, ◌==◌, if◌then◌else◌, length, arith, Bool-cases, inl, inr,
}
use vmdk_rs.Storage.{GrainTable, get}
use vmdk_rs.Grains.{without, extend, allocated}

get-without : (k x : ℕ) (t : GrainTable) → get (without k t) x ≡ (if k == x then none else get t x)
unfolding get without
get-without k x [] = ground arith
get-without k x ((j, v) ∷ t) = ground (arith, get-without k x t)

get-insert :
    (k v x : ℕ) (t : GrainTable)
    → get ((k, v) ∷ without k t) x ≡ (if k == x then some v else get t x)
unfolding get
get-insert k v x t = ground (arith, get-without k x t)

-- An entry of 0 stands for what is there already.
abbrev pub entry_or : ℕ → Option ℕ → Option ℕ
entry_or zero o = o
entry_or (suc g) o = some (suc g)

-- The entries `gs` stand at the keys from `k` on.
abbrev pub over : ℕ → List ℕ → ℕ → Option ℕ → Option ℕ
over k [] x o = o
over k (g ∷ gs) x o = if x == k then entry_or g o else over (suc k) gs x o

pub over-before : (k : ℕ) (gs : List ℕ) (x : ℕ) (o : Option ℕ) → x < k → over k gs x o ≡ o
over-before k [] x o h = refl
over-before k (g ∷ gs) x o h = ground (arith, over-before (suc k) gs x o (omega arith))

over-first :
    (k : ℕ) (p : Option ℕ) (gs : List ℕ) (x : ℕ) (o : Option ℕ)
    → over (suc k) gs x (if k == x then p else o) ≡ (if x == k then p else over (suc k) gs x o)
over-first k p gs x o = elim (Bool-cases (k == x)) [
  | inl e ↦
      let q : k ≡ x = ground (arith, e) in
      ground (arith, q, over-before (suc k) gs x p (omega (arith, q)))
  | inr n ↦
      let a : (k == x) ≡ false = ground (arith, n) in
      let b : (x == k) ≡ false = ground (arith, n) in rw (a, b) refl
]

pub get-extend :
    (cur i : ℕ) (gs : List ℕ) (t : GrainTable) (x : ℕ)
    → cur + i + length gs < u64_mod
    → get (extend t (allocated cur i gs)) x ≡ over (cur + i) gs x (get t x)
unfolding extend allocated
get-extend cur i [] t x h = refl
get-extend cur i (zero ∷ gs) t x h =
    let next : cur + suc i ≡ suc (cur + i) = omega arith in
    let ih = rw next at (get-extend cur (suc i) gs t x (omega arith)) in
    ground (arith, ih, over-before (suc (cur + i)) gs x (get t x))
get-extend cur i (suc g ∷ gs) t x h =
    let next : cur + suc i ≡ suc (cur + i) = omega arith in
    let a : add64 cur i ≡ cur + i = omega arith in
    let t1 : GrainTable = (cur + i, suc g) ∷ without (cur + i) t in
    let ih = rw next at (get-extend cur (suc i) gs t1 x (omega arith)) in
    let z : (suc g == 0) ≡ false = ground arith in
    rw (z, a)
      (ih
        ∙ ap (over (suc (cur + i)) gs x) (get-insert (cur + i) (suc g) x t)
        ∙ over-first (cur + i) (some (suc g)) gs x (get t x))
