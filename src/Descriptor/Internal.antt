-- ===== src/Descriptor/Internal.antt =====
-- Which bytes of an extent `read_descriptor_internal` of src/descriptor.rs takes for its descriptor.
use vmdk_rs.Base.{
  mul64, ℕ, zero, suc, ◌+◌, ◌-◌, ◌*◌, ◌≤◌, ◌<◌, ◌≡◌, refl, ap, ◌∙◌, [], length, tabulate,
  length-tabulate, take-tabulate, min, arith,
}
use vmdk_rs.Base.Outcome.{ok, panic, ◌>>=◌}
use vmdk_rs.Io.{Bytes, Cache, CacheReadSeek, seek, from_start}
use vmdk_rs.Io.Exact.{Serves, at, read_upto, seek_ok}
use vmdk_rs.Buffered.{buffer_size, read_until}
use vmdk_rs.Buffered.Cut.{upto}
use vmdk_rs.Buffered.Feeds.{Feeds, read_until_lem}
use vmdk_rs.Text.Utf8.{from_utf8_lossy}
use vmdk_rs.Storage.{sector_size}
use vmdk_rs.Descriptor.{window, but_last, take_fill, read_descriptor_internal}

-- Bytes that are none of them NUL run to their end.
upto-nonzero :
    (f : ℕ → ℕ) (p n : ℕ)
    → ((i : ℕ) → p ≤ i → i < p + n → 0 < f i)
    → upto 0 (tabulate f p n) ≡ tabulate f p n
upto-nonzero f p zero h = refl
upto-nonzero f p (suc n) h =
    let r = upto-nonzero f (suc p) n (λ i l m. h i (omega arith) (omega arith)) in
    let b : 0 < f p = h p (omega arith) (omega arith) in ground (arith, r, b)

-- The first NUL ends them.
upto-zero :
    (f : ℕ → ℕ) (p n k : ℕ)
    → k < n
    → ((i : ℕ) → p ≤ i → i < p + k → 0 < f i)
    → f (p + k) ≡ 0
    → upto 0 (tabulate f p n) ≡ tabulate f p (suc k)
upto-zero f p zero k l h z = absurd (omega arith)
upto-zero f p (suc n) zero l h z = ground arith
upto-zero f p (suc n) (suc k) l h z =
    let e : suc p + k ≡ p + suc k = omega arith in
    let r =
      upto-zero f (suc p) n k (omega arith) (λ i l m. h i (omega arith) (omega arith)) (rw e z) in
    let b : 0 < f p = h p (omega arith) (omega arith) in ground (arith, r, b)

but_last-tabulate :
    (f : ℕ → ℕ) (p n : ℕ) → but_last (tabulate f p (suc n)) ≡ ok (from_utf8_lossy (tabulate f p n))
unfolding but_last
but_last-tabulate f p n =
    rw (length-tabulate f (suc p) n)
      (ap (λ t. ok (from_utf8_lossy t)) (take-tabulate f p (suc n) n (omega arith)))

module _ (cache : Cache) (idx : ℕ) (byte : ℕ → ℕ) (size : ℕ)
    (serves : Serves cache idx byte size) where
  -- The limit of 20 sectors, and the end of the source.
  abbrev windowed : ℕ → ℕ → ℕ × CacheReadSeek
  windowed base p = (window + base - p, at cache idx byte size serves p)

  abbrev window_end : ℕ → ℕ
  window_end base = min size (base + window)

  take_fill_lem :
      (limit p : ℕ)
      → p ≤ size
      → let k = min (min buffer_size limit) (size - p) in
        take_fill cache (limit, at cache idx byte size serves p)
        ≡ ok (tabulate byte p k, (limit - k, at cache idx byte size serves (p + k)))
  unfolding take_fill
  take_fill_lem zero p h =
      let e : min (min buffer_size 0) (size - p) ≡ 0 = omega arith in
      let e' : p + 0 ≡ p = omega arith in rw (e, e') refl
  take_fill_lem (suc limit) p h =
      let n = min buffer_size (suc limit) in
      rw
        (
          read_upto cache idx byte size serves p n h (omega (arith, serves.fits, h)),
          length-tabulate byte p (min n (size - p)),
        )
        refl

  take_fill-Feeds : (base : ℕ) → Feeds (take_fill cache) (windowed base) byte (window_end base)
  take_fill-Feeds base = record {
    feeds = λ p h.
        let e : min (min buffer_size (window + base - p)) (size - p)
            ≡ min buffer_size (window_end base - p) =
          omega arith in
        let k = min buffer_size (window_end base - p) in
        let d : window + base - p - k ≡ window + base - (p + k) = omega arith in
        rw d at (rw e at (take_fill_lem (window + base - p) p (omega arith)));
  }

  internal_step :
      (offset limit : ℕ) (src src' src'' : CacheReadSeek) (line rest : Bytes)
      → seek cache (from_start (mul64 offset sector_size)) src ≡ ok src'
      → read_until (take_fill cache) (suc window) 0 ([], (window, src'))
        ≡ ok (line, (rest, (limit, src'')))
      → read_descriptor_internal cache offset src ≡ (but_last line >>= λ t. ok (t, src''))
  unfolding read_descriptor_internal
  internal_step offset limit src src' src'' line rest e f = rw e (rw f refl)

  -- The bytes from `p` on that the window leaves.
  abbrev windowed_bytes : ℕ → Bytes
  windowed_bytes p = tabulate byte p (window_end p - p)

  -- What is read, whatever the bytes are.
  internal_upto :
      (offset q : ℕ)
      → offset * sector_size ≤ size
      → (k : ℕ) × (read_descriptor_internal cache offset (at cache idx byte size serves q) ≡ (
          but_last (upto 0 (windowed_bytes (offset * sector_size))) >>= λ t.
          ok (t, at cache idx byte size serves k)))
  internal_upto offset q h =
      let p = offset * sector_size in
      let (k, l, e) =
        read_until_lem (take_fill cache) (windowed p) byte (window_end p) (take_fill-Feeds p)
          (suc window) 0 p 0 (omega arith) (omega arith) in
      let line = upto 0 (windowed_bytes p) in
      let end = p + length line + k in
      let m : mul64 offset sector_size ≡ p = omega (arith, serves.fits) in
      let s =
        ap (λ o. seek cache (from_start o) (at cache idx byte size serves q)) m
        ∙ seek_ok cache idx byte size serves q p h in
      let z : p + 0 ≡ p = omega arith in
      let w : window + p - p ≡ window = omega arith in
      (
        end,
        internal_step offset (window + p - end) (at cache idx byte size serves q)
            (at cache idx byte size serves p) (at cache idx byte size serves end) line
            (tabulate byte (p + length line) k) s (rw (z, w) at e),
      )

  -- Over an extent that is served: from sector `offset`, which is not behind its end, the descriptor is
  -- the text of the bytes before the first NUL, when one of the next 20 sectors up to the end of the
  -- extent has one.
  pub read_descriptor_internal-nul :
      (offset q k : ℕ)
      → offset * sector_size + k < size
      → k < window
      → ((i : ℕ) → offset * sector_size ≤ i → i < offset * sector_size + k → 0 < byte i)
      → byte (offset * sector_size + k) ≡ 0
      → (end : ℕ) × (read_descriptor_internal cache offset (at cache idx byte size serves q)
          ≡ ok (
            from_utf8_lossy (tabulate byte (offset * sector_size) k),
            at cache idx byte size serves end,
          ))
  read_descriptor_internal-nul offset q k h w nonzero nul =
      let p = offset * sector_size in
      let (end, e) = internal_upto offset q (omega arith) in
      let u = upto-zero byte p (window_end p - p) k (omega arith) nonzero nul in
      (end, rw (u, but_last-tabulate byte p k) at e)

  -- Over an extent that is served: where `w + 1` bytes stand from sector `offset` on, up to 20 sectors
  -- and the end of the extent, and none of them is NUL, the descriptor is the text of the first `w` of
  -- them: the last one is lost.
  pub read_descriptor_internal-unended :
      (offset q w : ℕ)
      → suc w ≡ min window (size - offset * sector_size)
      → ((i : ℕ) → offset * sector_size ≤ i → i < offset * sector_size + suc w → 0 < byte i)
      → (end : ℕ) × (read_descriptor_internal cache offset (at cache idx byte size serves q)
          ≡ ok (
            from_utf8_lossy (tabulate byte (offset * sector_size) w),
            at cache idx byte size serves end,
          ))
  read_descriptor_internal-unended offset q w v nonzero =
      let p = offset * sector_size in
      let (end, e) = internal_upto offset q (omega arith) in
      let n : window_end p - p ≡ suc w = omega arith in
      let u = upto-nonzero byte p (suc w) nonzero in
      (end, rw (n, u, but_last-tabulate byte p w) at e)

  -- Over an extent that is served, a descriptor at the very end of the extent is a panic.
  pub read_descriptor_internal-panic :
      (offset q : ℕ)
      → offset * sector_size ≡ size
      → read_descriptor_internal cache offset (at cache idx byte size serves q) ≡ panic
  unfolding but_last
  read_descriptor_internal-panic offset q h =
      let p = offset * sector_size in
      let (end, e) = internal_upto offset q (omega arith) in
      let n : window_end p - p ≡ 0 = omega arith in rw n at e
