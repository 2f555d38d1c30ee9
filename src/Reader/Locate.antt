-- ===== src/Reader/Locate.antt =====
-- Where `read_at_offset` of src/vmdk_reader.rs starts, and what it reads altogether.
use vmdk_rs.Base.{
  u64_mod, sub64, add64, ℕ, zero, suc, ◌+◌, ◌-◌, ◌≤◌, ◌<◌, ◌≡◌, refl, ap, ◌∙◌, sym, List, [], ◌∷◌,
  ◌++◌, ltb, if◌then◌else◌, length, length-append, min, tabulate, arith, lt→ltb, le→ltb_false, inl,
  inr, ◌⊎◌,
}
use mathlib.Core.List.{append_assoc}
use native.Mathlib.Decide.{dec_lt, dec_le}
use vmdk_rs.Base.Outcome.{ok, err}
use vmdk_rs.Crates.{ByteOrder, Deflate}
use vmdk_rs.Io.{Bytes, Cache}
use vmdk_rs.Storage.{offset_beyond_end}
use vmdk_rs.Reader.{
  Span, VmdkReader, insert_at, search_key, first_span, read_loop, limited, read_at_offset,
}
use vmdk_rs.Reader.ReadAt.{Tiles, AllBelow, Backed, loop_stop, loop-Reads}

-- Where no span starts at or before the key, the key would be put at the front.
search_behind :
    (key : ℕ) (m : List Span) (lo hi i : ℕ)
    → Tiles lo hi m
    → key < lo
    → search_key key m i ≡ insert_at i
unfolding search_key
search_behind key [] lo hi i t h = refl
search_behind key ((b, (e, x)) ∷ m) lo hi i t h = ground (arith, t.0)

-- The key lies in the first span.
search_here :
    (key : ℕ) (m : List Span) (b e x hi i : ℕ)
    → Tiles e hi m
    → b ≤ key
    → key < e
    → first_span (search_key key ((b, (e, x)) ∷ m) i) ≡ ok i
unfolding search_key first_span
search_here key m b e x hi i t h k = ground (arith, search_behind key m e hi (suc i) t k)

search_later :
    (key : ℕ) (m : List Span) (b e x i : ℕ)
    → b < e
    → e ≤ key
    → search_key key ((b, (e, x)) ∷ m) i ≡ search_key key m (suc i)
unfolding search_key
search_later key m b e x i h k = ground arith

module _ (cache : Cache) (order : ByteOrder) (deflate : Deflate) where
  -- The span that holds `key`, the spans before it and behind it, and that the search finds it.
  record Located (disk : ℕ → ℕ) (v : VmdkReader) (key hi : ℕ) : Type 0 where
    pre : List Span
    b : ℕ
    e : ℕ
    x : ℕ
    suf : List Span
    split : v.spans ≡ pre ++ (b, (e, x)) ∷ suf
    tiles : Tiles b hi ((b, (e, x)) ∷ suf)
    backed : Backed cache order deflate disk v.extents ((b, (e, x)) ∷ suf)
    below : AllBelow u64_mod ((b, (e, x)) ∷ suf)
    from : b ≤ key
    before : key < e
    finds : first_span (search_key key v.spans 0) ≡ ok (length pre)

  locate :
      (disk : ℕ → ℕ) (v : VmdkReader) (key lo hi : ℕ) (pre m : List Span)
      → v.spans ≡ pre ++ m
      → search_key key v.spans 0 ≡ search_key key m (length pre)
      → Tiles lo hi m
      → Backed cache order deflate disk v.extents m
      → AllBelow u64_mod m
      → lo ≤ key
      → key < hi
      → Located disk v key hi
  locate disk v key lo hi pre [] es f t bk u h k = absurd (omega arith)
  locate disk v key lo hi pre ((b, (e, x)) ∷ m) es f t bk u h k = elim (dec_lt key e) [
    | yes q ↦ record {
      pre = pre;
      b = b;
      e = e;
      x = x;
      suf = m;
      split = es;
      tiles = (omega arith, omega arith, t.2, t.3);
      backed = bk;
      below = u;
      from = omega (arith, t.0, t.1);
      before = q;
      finds =
          ap first_span f ∙ search_here key m b e x hi (length pre) t.3 (omega (arith, t.0, t.1)) q;
    }
    | no q ↦
        let l : length (pre ++ (b, (e, x)) ∷ []) ≡ suc (length pre) =
          omega (arith, length-append pre ((b, (e, x)) ∷ [])) in
        locate disk v key e hi (pre ++ (b, (e, x)) ∷ []) m (rw append_assoc es)
          (f
            ∙ search_later key m b e x (length pre) t.2 (omega arith)
            ∙ ap (search_key key m) (sym l))
          t.3 bk.1 u.1 (omega arith) k
  ]

  -- The key lies before the end of the first span, which may start behind it.
  search_gap :
      (key : ℕ) (m : List Span) (b e x lo hi i : ℕ)
      → Tiles lo hi ((b, (e, x)) ∷ m)
      → key < e
      → lo ≤ key
      → (lo < hi) ⊎ (0 < i)
      → (j : ℕ) × (first_span (search_key key ((b, (e, x)) ∷ m) i) ≡ ok j)
  unfolding first_span
  search_gap key m b e x lo hi i t q h k = elim (dec_le b key) [
    | yes p ↦ (i, search_here key m b e x hi i t.3 p q)
    | no p ↦
        let z : i ≡ suc (i - 1) = omega (arith, t.1) in
        (
          i - 1,
          ap first_span (
                search_behind key ((b, (e, x)) ∷ m) b hi i (omega arith, omega arith, t.2, t.3)
                  (omega arith))
              ∙ ap (λ n. first_span (insert_at n)) z,
        )
  ]

  -- At or behind the image's end, the search ends at some span.
  search_any :
      (key : ℕ) (m : List Span) (lo hi i : ℕ)
      → Tiles lo hi m
      → lo ≤ key
      → (lo < hi) ⊎ (0 < i)
      → (j : ℕ) × (first_span (search_key key m i) ≡ ok j)
  unfolding search_key first_span
  search_any key [] lo hi zero t h k = ground (arith, k)
  search_any key [] lo hi (suc i) t h k = (i, refl)
  search_any key ((b, (e, x)) ∷ m) lo hi i t h k = elim (dec_lt key e) [
    | yes q ↦ search_gap key m b e x lo hi i t q h k
    | no q ↦
        let (j, f) = search_any key m e hi (suc i) t.3 (omega arith) (inr (omega arith)) in
        (j, ap first_span (search_later key m b e x i t.2 (omega arith)) ∙ f)
  ]

  -- `read_at_offset` from what the search and the loop return.
  read_from :
      (v : VmdkReader) (offset n i : ℕ) (out : Bytes)
      → offset ≤ v.image_size
      → offset + n < u64_mod
      → first_span (search_key offset v.spans 0) ≡ ok i
      → let k = min n (v.image_size - offset) in
        read_loop cache order deflate (k + length v.spans) v i offset (offset + k) k [] ≡ ok out
        → read_at_offset cache order deflate v offset n ≡ ok (k, out)
  unfolding read_at_offset
  read_from v offset n i out h w f r =
      let k : ℕ = min n (v.image_size - offset) in
      let l : limited cache order deflate v.image_size offset n ≡ k = ground arith in
      let a : add64 offset k ≡ offset + k = omega arith in
      let d : sub64 (offset + k) offset ≡ k = omega arith in
      rw (le→ltb_false v.image_size offset h) (rw l (rw a (rw f (rw r (rw d)))))

  read_within :
      (disk : ℕ → ℕ) (v : VmdkReader) (offset n : ℕ)
      → Located disk v offset v.image_size
      → offset ≤ v.image_size
      → offset + n < u64_mod
      → let k = min n (v.image_size - offset) in
        read_at_offset cache order deflate v offset n ≡ ok (k, tabulate disk offset k)
  read_within disk v offset n l h w =
      let k : ℕ = min n (v.image_size - offset) in
      read_from v offset n (length l.pre) _ h w l.finds (
        loop-Reads cache order deflate disk (k + length v.spans) v (offset + k) l.pre l.suf offset k
          l.b l.e l.x v.image_size [] l.split l.tiles l.backed l.below l.from l.before refl
          (omega arith) (omega arith))

  read_at_end :
      (disk : ℕ → ℕ) (v : VmdkReader) (offset n : ℕ)
      → (i : ℕ) × (first_span (search_key offset v.spans 0) ≡ ok i)
      → offset ≡ v.image_size
      → offset + n < u64_mod
      → let k = min n (v.image_size - offset) in
        read_at_offset cache order deflate v offset n ≡ ok (k, tabulate disk offset k)
  read_at_end disk v offset n (i, f) h w =
      let k : ℕ = min n (v.image_size - offset) in
      let z : k ≡ 0 = omega arith in
      read_from v offset n i _ (omega arith) w f (
        loop_stop cache order deflate (k + length v.spans) v i offset (offset + k) k []
          (omega arith)
        ∙ rw z refl)

  read_beyond :
      (v : VmdkReader) (offset n : ℕ)
      → v.image_size < offset
      → read_at_offset cache order deflate v offset n ≡ err (offset_beyond_end offset v.image_size)
  unfolding read_at_offset
  read_beyond v offset n h = rw (lt→ltb v.image_size offset h)

  -- For a non-empty image whose spans tile it, end within a `u64` and are each backed by an extent that
  -- serves the bytes of `disk`, and where `offset + n` is a `u64`: `read_at_offset` returns, with the
  -- bytes from `offset` on, as many as the buffer of `n` bytes takes or the image still holds; an offset
  -- behind the end of the image is the error that says so.
  pub read_at_offset_lem :
      (disk : ℕ → ℕ) (v : VmdkReader) (offset n : ℕ)
      → 0 < v.image_size
      → Tiles 0 v.image_size v.spans
      → AllBelow u64_mod v.spans
      → Backed cache order deflate disk v.extents v.spans
      → offset + n < u64_mod
      → let k = min n (v.image_size - offset) in
        read_at_offset cache order deflate v offset n ≡ (
          if ltb v.image_size offset
          then err (offset_beyond_end offset v.image_size)
          else ok (k, tabulate disk offset k))
  read_at_offset_lem disk v offset n h0 t u bk h = elim (dec_lt v.image_size offset) [
    | yes q ↦ rw (lt→ltb v.image_size offset q) (read_beyond v offset n q)
    | no q ↦
        rw (le→ltb_false v.image_size offset (omega arith)) (elim (dec_lt offset v.image_size) [
          | yes p ↦
              read_within disk v offset n
                (locate disk v offset 0 v.image_size [] v.spans refl refl t bk u (omega arith) p)
                (omega arith) h
          | no p ↦
              read_at_end disk v offset n
                (search_any offset v.spans 0 v.image_size 0 t (omega arith) (inl h0)) (omega arith)
                h
        ])
  ]
