-- ===== src/Examples/Caches.antt =====
-- Sources, and a cache that keeps the last chunk.
use vmdk_rs.Base.{
  ℕ, suc, ◌-◌, ◌%◌, ◌≡◌, ◌≢◌, ◌⊎◌, inl, inr, refl, ap, ◌∙◌, Bool, true, ◌&&◌, ◌==◌, Bool-cases,
  List, [], ◌∷◌, Option, none, some, if◌then◌else◌, replicate, tabulate, arith,
}
use vmdk_rs.Base.Outcome.{Outcome, ok, err, panic, hang, ok_injective}
use vmdk_rs.Io.{Bytes, IoError}
use vmdk_rs.Text.{Text, codes}
use vmdk_rs.Sources.{BytesSource, file_source, dummy_read}
use vmdk_rs.Sources.Read.{HoldsBytes, file_source-HoldsBytes}
use vmdk_rs.Foyer.{HybridCache, foyer_read}
use vmdk_rs.Foyer.Coherent.{IsCache, Contents, Coherent}
use vmdk_rs.Foyer.Setup.{Builder}
use vmdk_rs.Foyer.Fresh.{IsFresh}
use vmdk_rs.Foyer.Read.{foyer_read_lem, foyer_read-dummy_read}

abbrev counter : ℕ → ℕ
counter x = x % 251

abbrev files : Text → Option Bytes
files path = some (tabulate counter 0 100)

abbrev file : BytesSource
file = file_source files (codes "a.vmdk") 100

file-HoldsBytes : HoldsBytes file counter 100
file-HoldsBytes = file_source-HoldsBytes files (codes "a.vmdk") counter 100 refl

abbrev object_range : ℕ → ℕ → Outcome IoError Bytes
object_range beg last = ok (tabulate counter beg (suc last - beg))

abbrev sources : List BytesSource
sources = file ∷ []

-- What is kept after a fetch.
abbrev pub keep :
    ℕ × ℕ
    → Option ((ℕ × ℕ) × Bytes)
    → Outcome IoError Bytes
    → Outcome IoError Bytes × Option ((ℕ × ℕ) × Bytes)
keep key s (ok b) = (ok b, some (key, b))
keep key s (err e) = (err e, s)
keep key s panic = (panic, s)
keep key s hang = (hang, s)

abbrev pub same_key : ℕ × ℕ → ℕ × ℕ → Bool
same_key (a, b) (c, d) = a == c && b == d

abbrev pub get_or_keep :
    ℕ × ℕ
    → Outcome IoError Bytes
    → Option ((ℕ × ℕ) × Bytes)
    → Outcome IoError Bytes × Option ((ℕ × ℕ) × Bytes)
get_or_keep key f none = keep key none f
get_or_keep key f (some (other, b)) =
    if same_key other key then (ok b, some (other, b)) else keep key (some (other, b)) f

abbrev pub last_chunk : HybridCache
last_chunk = record { Store = Option ((ℕ × ℕ) × Bytes); get_or_fetch = get_or_keep }

same_key_eq : (k l : ℕ × ℕ) → same_key k l ≡ true → k ≡ l
same_key_eq (a, b) (c, d) e = ground (arith, e)

keep-returned :
    (key : ℕ × ℕ) (s : Option ((ℕ × ℕ) × Bytes)) (f : Outcome IoError Bytes) (b : Bytes)
    → (keep key s f).0 ≡ ok b
    → f ≡ ok b
keep-returned key s (ok c) b e = e
keep-returned key s (err c) b e = e
keep-returned key s panic b e = e
keep-returned key s hang b e = e

keep-kept :
    (key other : ℕ × ℕ) (s : Option ((ℕ × ℕ) × Bytes)) (f : Outcome IoError Bytes) (b : Bytes)
    → (keep key s f).1 ≡ some (other, b)
    → (s ≡ some (other, b)) ⊎ ((other ≡ key) × (f ≡ ok b))
keep-kept key other s (ok c) b e = inr (cc, cc)
keep-kept key other s (err c) b e = inl e
keep-kept key other s panic b e = inl e
keep-kept key other s hang b e = inl e

none_ne : (x : (ℕ × ℕ) × Bytes) → ◌≢◌ {A = Option ((ℕ × ℕ) × Bytes)} none (some x)
none_ne x e = cc

get_or_keep-returned :
    (key : ℕ × ℕ) (f : Outcome IoError Bytes) (s : Option ((ℕ × ℕ) × Bytes)) (b : Bytes)
    → (get_or_keep key f s).0 ≡ ok b
    → (s ≡ some (key, b)) ⊎ (f ≡ ok b)
get_or_keep-returned key f none b e = inr (keep-returned key none f b e)
get_or_keep-returned key f (some (other, c)) b e = elim (Bool-cases (same_key other key)) [
  | inl t ↦
      let q : c ≡ b = ok_injective {E = IoError} c b (rw t at e) in
      inl (rw (same_key_eq other key t, q) refl)
  | inr t ↦ inr (keep-returned key (some (other, c)) f b (rw t at e))
]

get_or_keep-kept :
    (key other : ℕ × ℕ) (f : Outcome IoError Bytes) (s : Option ((ℕ × ℕ) × Bytes)) (b : Bytes)
    → (get_or_keep key f s).1 ≡ some (other, b)
    → (s ≡ some (other, b)) ⊎ ((other ≡ key) × (f ≡ ok b))
get_or_keep-kept key other f none b e = keep-kept key other none f b e
get_or_keep-kept key other f (some (k, c)) b e = elim (Bool-cases (same_key k key)) [
  | inl t ↦ inl (rw t at e)
  | inr t ↦ keep-kept key other (some (k, c)) f b (rw t at e)
]

get_or_keep-succeeds :
    (key : ℕ × ℕ) (b : Bytes) (s : Option ((ℕ × ℕ) × Bytes))
    → (c : Bytes) × ((get_or_keep key (ok b) s).0 ≡ ok c)
get_or_keep-succeeds key b none = (b, refl)
get_or_keep-succeeds key b (some (other, c)) = elim (Bool-cases (same_key other key)) [
  | inl t ↦ (c, rw t refl)
  | inr t ↦ (b, rw t refl)
]

pub last_chunk-IsCache : IsCache last_chunk
last_chunk-IsCache = record {
  Holds = λ s key b. s ≡ some (key, b);
  returned = λ key f s b e. get_or_keep-returned key f s b e;
  kept = λ key other f s b e. get_or_keep-kept key other f s b e;
  succeeds = λ key f s b e.
      let (c, q) = get_or_keep-succeeds key b s in (c, ap (λ g. (get_or_keep key g s).0) e ∙ q);
}

abbrev contents : Contents
contents = record { byte = λ idx. counter; size = λ idx. 100 }

empty-Coherent : Coherent last_chunk last_chunk-IsCache contents 16 none
unfolding last_chunk-IsCache
empty-Coherent idx c b e = absurd (none_ne ((idx, c), b) e)

-- A builder of such caches.
abbrev pub builder : Builder last_chunk
builder = record {
  TempDir = Unit {0};
  Device = ℕ;
  tempdir = ok tt;
  fs_device = λ dir size. ok size;
  build = λ memory device. ok none;
}

pub empty-IsFresh : IsFresh last_chunk last_chunk-IsCache builder none
unfolding last_chunk-IsCache
empty-IsFresh key b e = none_ne (key, b) e

-- A read over three chunks of 16 bytes.
foyer_read_lem_example :
    let r = foyer_read last_chunk 16 sources 0 10 (replicate 30 0) none in
    (r.0 ≡ ok (tabulate counter 10 30)) × Coherent last_chunk last_chunk-IsCache contents 16 r.1
foyer_read_lem_example =
    foyer_read_lem last_chunk last_chunk-IsCache contents 15 sources 0 file refl file-HoldsBytes
      (omega arith) 10 (replicate 30 0) none (omega arith) empty-Coherent

foyer_read-dummy_read_example :
    (foyer_read last_chunk 16 sources 0 10 (replicate 30 0) none).0 ≡ dummy_read sources 0 10 30
foyer_read-dummy_read_example =
    foyer_read-dummy_read last_chunk last_chunk-IsCache contents 15 sources 0 file refl
      file-HoldsBytes (omega arith) 10 (replicate 30 0) none (omega arith) (omega arith)
      empty-Coherent
