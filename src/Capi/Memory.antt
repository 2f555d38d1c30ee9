-- ===== src/Capi/Memory.antt =====
-- What the calls of src/capi.rs allocate is freed, and what they return.
use vmdk_rs.Base.{
  ℕ, suc, ◌<◌, ◌≡◌, ◌⊎◌, inl, inr, refl, ap, ◌∙◌, List, ◌∷◌, Option, none, some, Bool, true, false,
  Bool-cases, ◌==◌, arith,
}
use vmdk_rs.Text.{codes}
use vmdk_rs.Io.{Bytes, Cache}
use vmdk_rs.Reader.{VmdkReader}
use vmdk_rs.Capi.{
  Heap, Block, c_string, vmdk_handle, vmdk_reader, free, free_path, free_reader, drop_handle,
  block_at, erase, has_nul, fill_error, Returned, fail, new_handle, vmdk_close,
}

same : (n : ℕ) → (n == n) ≡ true
same n = ground arith

pub one_above : (n : ℕ) → (suc n == n) ≡ false
one_above n = ground arith

two_above : (n : ℕ) → (suc (suc n) == n) ≡ false
two_above n = ground arith

abbrev is_some : Option ℕ → Bool
is_some none = false
is_some (some p) = true

-- A handle and no error, or null and an error where it can be stored.
abbrev pub Reports : Bool → Returned → Type 0
Reports wants r = ((0 < r.0) × (r.1.0 ≡ none)) ⊎ ((r.0 ≡ 0) × (is_some r.1.0 ≡ wants))

fill_error-is_some :
    (e : Bytes) (wants : Bool) (h : Heap) → is_some (fill_error e wants h).0 ≡ wants
unfolding fill_error
fill_error-is_some e false h = refl
fill_error-is_some e true h = refl

pub fail-Reports : (e : Bytes) (wants : Bool) (h : Heap) → Reports wants (fail e wants h)
fail-Reports e wants h = inr (refl, fill_error-is_some e wants h)

pub new_handle-Reports :
    (path : Bytes) (x : VmdkReader × Cache) (wants : Bool) (h : Heap)
    → Reports wants (new_handle path x wants h)
unfolding new_handle
new_handle-Reports path x wants h = elim (Bool-cases (has_nul path)) [
  | inl e ↦ rw e (fail-Reports (codes "path contains an internal null") wants h)
  | inr e ↦ rw e (inl (omega arith, refl))
]

pub block_at_same : (p : ℕ) (b : Block) (l : List (ℕ × Block)) → block_at p ((p, b) ∷ l) ≡ some b
unfolding block_at
block_at_same p b l = rw (same p) refl

pub block_at_other :
    (p q : ℕ) (b : Block) (l : List (ℕ × Block))
    → (q == p) ≡ false
    → block_at p ((q, b) ∷ l) ≡ block_at p l
unfolding block_at
block_at_other p q b l e = rw e refl

erase_same : (p : ℕ) (b : Block) (l : List (ℕ × Block)) → erase p ((p, b) ∷ l) ≡ l
unfolding erase
erase_same p b l = rw (same p) refl

erase_other :
    (p q : ℕ) (b : Block) (l : List (ℕ × Block))
    → (q == p) ≡ false
    → erase p ((q, b) ∷ l) ≡ (q, b) ∷ erase p l
unfolding erase
erase_other p q b l e = rw e refl

-- Three blocks that stand before `l`, with a handle on top.
module _ (n size : ℕ) (x : VmdkReader × Cache) (path : Bytes) (l : List (ℕ × Block)) where
  abbrev pub three : Heap
  three = record {
    next = suc (suc (suc n));
    blocks =
        (suc (suc n), vmdk_handle (suc n) n size) ∷ (suc n, vmdk_reader x) ∷ (n, c_string path) ∷ l;
  }

  without_reader :
      erase (suc n) three.blocks
      ≡ (suc (suc n), vmdk_handle (suc n) n size) ∷ (n, c_string path) ∷ l
  without_reader =
      erase_other (suc n) (suc (suc n)) (vmdk_handle (suc n) n size)
        ((suc n, vmdk_reader x) ∷ (n, c_string path) ∷ l) (one_above (suc n))
      ∙ ap (λ t. (suc (suc n), vmdk_handle (suc n) n size) ∷ t)
          (erase_same (suc n) (vmdk_reader x) ((n, c_string path) ∷ l))

  without_path :
      erase n (erase (suc n) three.blocks) ≡ (suc (suc n), vmdk_handle (suc n) n size) ∷ l
  without_path =
      ap (erase n) without_reader
      ∙ erase_other n (suc (suc n)) (vmdk_handle (suc n) n size) ((n, c_string path) ∷ l)
          (two_above n)
      ∙ ap (λ t. (suc (suc n), vmdk_handle (suc n) n size) ∷ t) (erase_same n (c_string path) l)

  path_there : block_at n (erase (suc n) three.blocks) ≡ some (c_string path)
  path_there =
      ap (block_at n) without_reader
      ∙ block_at_other n (suc (suc n)) (vmdk_handle (suc n) n size) ((n, c_string path) ∷ l)
          (two_above n)
      ∙ block_at_same n (c_string path) l

  pub reader_there : block_at (suc n) three.blocks ≡ some (vmdk_reader x)
  reader_there =
      block_at_other (suc n) (suc (suc n)) (vmdk_handle (suc n) n size)
        ((suc n, vmdk_reader x) ∷ (n, c_string path) ∷ l) (one_above (suc n))
      ∙ block_at_same (suc n) (vmdk_reader x) ((n, c_string path) ∷ l)

  pub close_three : (g : Heap) × (vmdk_close (suc (suc n)) three ≡ some g) × (g.blocks ≡ l)
  unfolding vmdk_close
  close_three = (
    free (suc (suc n)) (free n (free (suc n) three)),
    ap (λ o. drop_handle (suc (suc n)) o three)
          (block_at_same (suc (suc n)) (vmdk_handle (suc n) n size)
            ((suc n, vmdk_reader x) ∷ (n, c_string path) ∷ l))
        ∙ ap (free_reader (suc (suc n)) (suc n) n three) reader_there
        ∙ ap (free_path (suc (suc n)) n (free (suc n) three)) path_there,
    ap (erase (suc (suc n))) without_path ∙ erase_same (suc (suc n)) (vmdk_handle (suc n) n size) l,
  )

-- The heap after a handle that was just made is closed.
pub new_handle-close :
    (path : Bytes) (x : VmdkReader × Cache) (wants : Bool) (h : Heap)
    → let r = new_handle path x wants h in
      0 < r.0 → (g : Heap) × (vmdk_close r.0 r.1.1 ≡ some g) × (g.blocks ≡ h.blocks)
unfolding new_handle
new_handle-close path x wants h = elim (Bool-cases (has_nul path)) [
  | inl e ↦ rw e (λ p. absurd (omega (arith, p)))
  | inr e ↦ rw e (λ p. close_three h.next x.0.image_size x path h.blocks)
]
