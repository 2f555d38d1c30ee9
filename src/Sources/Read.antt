-- ===== src/Sources/Read.antt =====
-- What the sources of src/filesource.rs and src/s3source.rs read, and the cache of src/dummycache.rs over
-- them.
use vmdk_rs.Base.{
  u64_mod, add64, sub64, ℕ, zero, suc, ◌+◌, ◌-◌, ◌≤◌, ◌<◌, ◌≡◌, ◌≢◌, refl, ap, ◌∙◌, List, [], ◌∷◌,
  ◌++◌, Option, some, true, ◌==◌, length, drop, tabulate, length-tabulate, take-tabulate,
  drop-tabulate, get_elem?, replicate, length-replicate, length-append, le→leb, lt→leb_false,
  le→ltb_false, arith,
}
use native.Mathlib.Decide.{dec_le}
use vmdk_rs.Base.Outcome.{Outcome, ok}
use vmdk_rs.Text.{Text}
use vmdk_rs.Io.{Bytes, IoError}
use vmdk_rs.Io.Exact.{Serves, max_size}
use vmdk_rs.Sources.{
  BytesSource, placeholder_source, file_source, read_file, s3_source, read_s3, add_source, set_at,
  dummy_read, end_of, dummy_cache,
}

-- The source holds the bytes of `byte` up to `size`: what the trait `BytesSource` asks of its methods.
pub record HoldsBytes (src : BytesSource) (byte : ℕ → ℕ) (size : ℕ) : Type 0 where
  pub ends : src.end ≡ ok size
  pub reads :
      (beg end : ℕ) → beg < end → end ≤ size → src.read beg end ≡ ok (tabulate byte beg (end - beg))

-- A file that has the length that it had when it was opened holds its bytes.
pub file_source-HoldsBytes :
    (files : Text → Option Bytes) (path : Text) (byte : ℕ → ℕ) (len : ℕ)
    → files path ≡ some (tabulate byte 0 len)
    → HoldsBytes (file_source files path len) byte len
unfolding read_file
file_source-HoldsBytes files path byte len e = record {
  ends = refl;
  reads = λ beg end h k.
      let d : drop beg (tabulate byte 0 len) ≡ tabulate byte beg (len - beg) =
        (let z : 0 + beg ≡ beg = omega arith in
          rw z at (drop-tabulate byte 0 len beg (omega arith))) in
      let t = take-tabulate byte beg (len - beg) (end - beg) (omega arith) in
      let n = length-tabulate byte beg (len - beg) in
      rw
        (
          e,
          d,
          n,
          le→ltb_false end beg (omega arith),
          le→ltb_false (len - beg) (end - beg) (omega arith),
          t,
        )
        refl;
}

-- An object whose requests return the bytes from the first to the last one that they name holds its
-- bytes.
pub s3_source-HoldsBytes :
    (get_object_range : ℕ → ℕ → Outcome IoError Bytes) (byte : ℕ → ℕ) (len : ℕ)
    → len < u64_mod
    → ((beg last : ℕ)
        → beg ≤ last
        → last < len
        → get_object_range beg last ≡ ok (tabulate byte beg (suc last - beg)))
    → HoldsBytes (s3_source get_object_range len) byte len
unfolding read_s3
s3_source-HoldsBytes get_object_range byte len w h = record {
  ends = refl;
  reads = λ beg end l k.
      let e : sub64 end 1 ≡ end - 1 = omega arith in
      let e' : suc (end - 1) - beg ≡ end - beg = omega arith in
      rw e (h beg (end - 1) (omega arith) (omega arith) ∙ rw e' refl);
}

length-set_at :
    (i : ℕ) (src : BytesSource) (l : List BytesSource) → length (set_at i src l) ≡ length l
length-set_at i src [] = refl
length-set_at zero src (s ∷ l) = refl
length-set_at (suc i) src (s ∷ l) = ap suc (length-set_at i src l)

get_elem?-set_at :
    (i : ℕ) (src : BytesSource) (l : List BytesSource)
    → i < length l
    → get_elem? (set_at i src l) i ≡ some src
get_elem?-set_at i src [] h = absurd (omega arith)
get_elem?-set_at zero src (s ∷ l) h = refl
get_elem?-set_at (suc i) src (s ∷ l) h = get_elem?-set_at i src l (omega arith)

get_elem?-set_at_other :
    (i j : ℕ) (src : BytesSource) (l : List BytesSource)
    → i ≢ j
    → get_elem? (set_at i src l) j ≡ get_elem? l j
get_elem?-set_at_other i j src [] h = refl
get_elem?-set_at_other zero zero src (s ∷ l) h = absurd (h refl)
get_elem?-set_at_other zero (suc j) src (s ∷ l) h = refl
get_elem?-set_at_other (suc i) zero src (s ∷ l) h = refl
get_elem?-set_at_other (suc i) (suc j) src (s ∷ l) h =
    get_elem?-set_at_other i j src l (λ e. h (ap suc e))

get_elem?-append_left :
    (xs ys : List BytesSource) (j : ℕ) → j < length xs → get_elem? (xs ++ ys) j ≡ get_elem? xs j
get_elem?-append_left [] ys j h = absurd (omega arith)
get_elem?-append_left (x ∷ xs) ys zero h = refl
get_elem?-append_left (x ∷ xs) ys (suc j) h = get_elem?-append_left xs ys j (omega arith)

-- `add_source` puts the source at its index, wherever that is, and leaves the sources that were there at
-- other indices.
pub add_source_lem :
    (idx j : ℕ) (src : BytesSource) (sources : List BytesSource)
    → (get_elem? (add_source idx src sources) idx ≡ some src)
      × (idx ≢ j
          → j < length sources
          → get_elem? (add_source idx src sources) j ≡ get_elem? sources j)
unfolding add_source
add_source_lem idx j src sources = elim (dec_le (length sources) idx) [
  | yes h ↦
      let more = replicate (idx + 1 - length sources) placeholder_source in
      let n : length (sources ++ more) ≡ idx + 1 = omega (
        arith,
        h,
        length-append sources more,
        length-replicate (idx + 1 - length sources) placeholder_source,
      ) in
      rw (le→leb (length sources) idx h) (
        get_elem?-set_at idx src (sources ++ more) (omega (arith, n)),
        λ d l.
            get_elem?-set_at_other idx j src (sources ++ more) d
            ∙ get_elem?-append_left sources more j l,
      )
  | no h ↦ rw (lt→leb_false (length sources) idx (omega arith)) (
    get_elem?-set_at idx src sources (omega arith),
    λ d l. get_elem?-set_at_other idx j src sources d,
  )
]

-- Over a source that holds the bytes of `byte`, the cache that keeps nothing fills a buffer of one byte
-- or more with those at the offset, up to the end of the source.
pub dummy_read_lem :
    (sources : List BytesSource) (idx off n : ℕ) (src : BytesSource) (byte : ℕ → ℕ) (size : ℕ)
    → get_elem? sources idx ≡ some src
    → HoldsBytes src byte size
    → size < u64_mod
    → 0 < n
    → off + n ≤ size
    → dummy_read sources idx off n ≡ ok (tabulate byte off n)
unfolding dummy_read
dummy_read_lem sources idx off n src byte size e h w p l =
    let a : add64 off n ≡ off + n = omega arith in
    let d : off + n - off ≡ n = omega arith in
    let r = h.reads off (off + n) (omega arith) l in
    let z : (n == n) ≡ true = ground arith in
    rw (e, a, r, d) (rw (length-tabulate byte off n) (rw z refl))

-- A source that holds its bytes is served by the cache that keeps nothing.
dummy_cache-Serves :
    (sources : List BytesSource) (idx : ℕ) (src : BytesSource) (byte : ℕ → ℕ) (size : ℕ)
    → get_elem? sources idx ≡ some src
    → HoldsBytes src byte size
    → size < max_size
    → Serves (dummy_cache sources) idx byte size
unfolding end_of
dummy_cache-Serves sources idx src byte size e h w = record {
  ends = rw e h.ends;
  reads = λ off n p l. dummy_read_lem sources idx off n src byte size e h (omega (arith, w)) p l;
  fits = w;
}
