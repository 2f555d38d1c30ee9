-- ===== src/Capi/Calls.antt =====
-- The calls of src/capi.rs one after the other.
use vmdk_rs.Base.{
  ℕ, suc, ◌<◌, ◌≡◌, ◌⊎◌, inl, inr, refl, ap, ◌∙◌, sym, subst, List, [], ◌∷◌, ◌++◌, Option, none,
  some, Bool, true, false, Bool-cases, ◌==◌, arith,
}
use vmdk_rs.Base.Outcome.{Outcome, ok, err, panic, hang, ok_injective}
use vmdk_rs.Crates.{ByteOrder, Deflate}
use vmdk_rs.Text.{Text, codes}
use vmdk_rs.Text.Utf8.{from_utf8}
use vmdk_rs.Io.{Bytes, Cache}
use vmdk_rs.Storage.{ReadError}
use vmdk_rs.Errors.{OpenError}
use vmdk_rs.Reader.{VmdkReader, read_at_offset}
use vmdk_rs.Capi.{
  Heap, Block, c_string, vmdk_error, vmdk_handle, vmdk_reader, block_at, has_nul, message_of,
  never_text, replace_nul, fill_error, free_c_char, freed, drop_error, vmdk_free_error, Returned,
  fail, new_handle, opened, open_text, vmdk_open, vmdk_close, or_zero, read_handle, read_through,
  vmdk_read, Read,
}
use vmdk_rs.Capi.Memory.{
  new_handle-close, block_at_same, block_at_other, one_above, reader_there, three,
}

-- What `q`, a `vmdk_read` on the heap `g`, gives for what `read_at_offset` of the reader gives.
abbrev pub Answered :
    (ReadError → Bytes)
    → Bool
    → Heap
    → Outcome ReadError (ℕ × Bytes)
    → Option (Outcome ReadError Read)
    → Type 1
Answered message wants g (ok (n, bytes)) q = q ≡ some (ok ((n, bytes), (none, g)))
Answered message false g (err e) q = q ≡ some (ok ((0, []), (none, g)))
Answered message true g (err e) q =
    (m p : ℕ) × (h : Heap) × (q ≡ some (ok ((0, []), (some p, h))))
    × (block_at p h.blocks ≡ some (vmdk_error m))
    × (block_at m h.blocks ≡ some (c_string (message_of (message e))))
Answered message wants g Outcome.panic q = q ≡ some panic
Answered message wants g Outcome.hang q = q ≡ some hang

or_zero-Answered :
    (order : ByteOrder) (deflate : Deflate) (message : ReadError → Bytes) (wants : Bool) (g : Heap)
    (o : Outcome ReadError (ℕ × Bytes))
    → Answered message wants g o (some (or_zero order deflate message wants g o))
unfolding fill_error
or_zero-Answered order deflate message wants g (ok (n, bytes)) = refl
or_zero-Answered order deflate message false g (err e) = refl
or_zero-Answered order deflate message true g (err e) =
    let m = g.next in
    let s = c_string (message_of (message e)) in
    (
      m,
      suc m,
      record { next = suc (suc m); blocks = (suc m, vmdk_error m) ∷ (m, s) ∷ g.blocks },
      refl,
      block_at_same (suc m) (vmdk_error m) ((m, s) ∷ g.blocks),
      block_at_other m (suc m) (vmdk_error m) ((m, s) ∷ g.blocks) (one_above m)
          ∙ block_at_same m s g.blocks,
    )
or_zero-Answered order deflate message wants g Outcome.panic = refl
or_zero-Answered order deflate message wants g Outcome.hang = refl

module _ (open_path : Text → Outcome OpenError (VmdkReader × Cache))
    (open_message : OpenError → Bytes) where
  -- What `vmdk_open` returns is that of `fail` or that of `new_handle`.
  abbrev Made : Bool → Heap → Returned → Type 1
  Made wants h r =
      ((e : Bytes) × (fail e wants h ≡ r))
      ⊎ ((path : Bytes) × (x : VmdkReader × Cache) × (new_handle path x wants h ≡ r))

  opened-Made :
      (path : Bytes) (wants : Bool) (h : Heap) (o : Outcome OpenError (VmdkReader × Cache))
      (r : Returned)
      → opened open_path open_message path wants h o ≡ ok r
      → Made wants h r
  opened-Made path wants h (ok x) r e = inr (path, x, ok_injective (new_handle path x wants h) r e)
  opened-Made path wants h (err k) r e =
      inl (open_message k, ok_injective (fail (open_message k) wants h) r e)
  opened-Made path wants h panic r e = cc
  opened-Made path wants h hang r e = cc

  open_text-Made :
      (path : Bytes) (wants : Bool) (h : Heap) (o : Option Text) (r : Returned)
      → open_text open_path open_message path wants h o ≡ ok r
      → Made wants h r
  open_text-Made path wants h none r e = inl (
    codes "image_path is not UTF-8",
    ok_injective (fail (codes "image_path is not UTF-8") wants h) r e,
  )
  open_text-Made path wants h (some ip) r e = opened-Made path wants h (open_path ip) r e

  vmdk_open-Made :
      (path : Option Bytes) (wants : Bool) (h : Heap) (r : Returned)
      → vmdk_open open_path open_message path wants h ≡ ok r
      → Made wants h r
  unfolding vmdk_open
  vmdk_open-Made none wants h r e =
      inl (codes "image_path is null", ok_injective (fail (codes "image_path is null") wants h) r e)
  vmdk_open-Made (some path) wants h r e = open_text-Made path wants h (from_utf8 path) r e

  -- A handle that `vmdk_open` returns can be closed, and afterwards the same blocks are allocated as
  -- before it was opened.
  pub vmdk_close-vmdk_open :
      (path : Option Bytes) (wants : Bool) (h : Heap) (r : Returned)
      → vmdk_open open_path open_message path wants h ≡ ok r
      → 0 < r.0
      → (g : Heap) × (vmdk_close r.0 r.1.1 ≡ some g) × (g.blocks ≡ h.blocks)
  vmdk_close-vmdk_open path wants h r e p = elim (vmdk_open-Made path wants h r e) [
    | inl (m, q) ↦ absurd (omega (arith, p, ap (λ (t : Returned). t.0) q))
    | inr (f, x, q) ↦
        subst
          (λ (t : Returned). (g : Heap) × (vmdk_close t.0 t.1.1 ≡ some g) × (g.blocks ≡ h.blocks)) q
          (new_handle-close f x wants h (subst (λ (t : Returned). 0 < t.0) (sym q) p))
  ]

  new_handle-three :
      (path : Bytes) (x : VmdkReader × Cache) (wants : Bool) (h : Heap)
      → has_nul path ≡ false
      → new_handle path x wants h
        ≡ (suc (suc h.next), (none, three h.next x.0.image_size x path h.blocks))
  unfolding new_handle
  new_handle-three path x wants h z = rw z refl

  read_three :
      (order : ByteOrder) (deflate : Deflate) (read_message : ReadError → Bytes) (path : Bytes)
      (x : VmdkReader × Cache) (wants : Bool) (k offset n size : ℕ) (l : List (ℕ × Block))
      → let g = three k size x path l in
        vmdk_read order deflate read_message (suc (suc k)) offset (some n) wants g
        ≡ some (
            or_zero order deflate read_message wants g
              (read_at_offset x.1 order deflate x.0 offset n))
  unfolding vmdk_read
  read_three order deflate read_message path x wants k offset n size l =
      let g = three k size x path l in
      ap (read_handle order deflate read_message offset n wants g) (
        block_at_same (suc (suc k)) (vmdk_handle (suc k) k size)
          ((suc k, vmdk_reader x) ∷ (k, c_string path) ∷ l))
      ∙ ap (read_through order deflate read_message offset n wants g) (reader_there k size x path l)

  -- For a path of UTF-8 without a NUL, whose image is opened: `vmdk_open` returns a handle, and a
  -- `vmdk_read` through it returns and fills what `read_at_offset` of the reader does, with the heap and
  -- `err` left alone, or where that is an error, it returns 0, and where `err` is not null stores an error
  -- with its message there.
  pub vmdk_read-vmdk_open :
      (order : ByteOrder) (deflate : Deflate) (read_message : ReadError → Bytes) (path : Bytes)
      (ip : Text) (x : VmdkReader × Cache) (wants wants' : Bool) (h : Heap) (offset n : ℕ)
      → from_utf8 path ≡ some ip
      → has_nul path ≡ false
      → open_path ip ≡ ok x
      → (r : Returned) × (vmdk_open open_path open_message (some path) wants h ≡ ok r)
        × Answered read_message wants' r.1.1
            (read_at_offset x.1 order deflate x.0 offset n)
            (vmdk_read order deflate read_message r.0 offset (some n) wants' r.1.1)
  unfolding vmdk_open
  vmdk_read-vmdk_open order deflate read_message path ip x wants wants' h offset n u z o = (
    (suc (suc h.next), (none, three h.next x.0.image_size x path h.blocks)),
    ap (open_text open_path open_message path wants h) u
        ∙ ap (opened open_path open_message path wants h) o
        ∙ ap (λ r. ok r) (new_handle-three path x wants h z),
    subst
        (Answered read_message wants' (three h.next x.0.image_size x path h.blocks)
          (read_at_offset x.1 order deflate x.0 offset n))
        (sym (
          read_three order deflate read_message path x wants' h.next offset n x.0.image_size
            h.blocks))
        (or_zero-Answered order deflate read_message wants' _ _),
  )

message_of-nonempty : (b : ℕ) (bs : Bytes) → (x : ℕ) × (xs : Bytes) × (message_of (b ∷ bs) ≡ x ∷ xs)
unfolding has_nul replace_nul
message_of-nonempty b bs = elim (Bool-cases (b == 0)) [
  | inl e ↦ rw e (239, 191 ∷ 189 ∷ replace_nul bs ++ never_text, refl)
  | inr e ↦ rw e (elim (Bool-cases (has_nul bs)) [
    | inl f ↦ rw f (b, replace_nul bs ++ never_text, refl)
    | inr f ↦ rw f (b, bs, refl)
  ])
]

free_c_char-none :
    (k x : ℕ) (xs msg : Bytes) (l : List (ℕ × Block)) (g : Heap)
    → msg ≡ x ∷ xs
    → free_c_char
        (suc k)
        (block_at (suc k) ((suc (suc k), vmdk_error (suc k)) ∷ (suc k, c_string msg) ∷ l))
        g
      ≡ none
free_c_char-none k x xs msg l g e =
    ap (λ o. free_c_char (suc k) o g)
      (block_at_other (suc k) (suc (suc k)) (vmdk_error (suc k)) ((suc k, c_string msg) ∷ l)
          (one_above (suc k))
        ∙ block_at_same (suc k) (c_string msg) l
        ∙ ap (λ m. some (c_string m)) e)

-- On a heap whose next address is not null: the error that `fill_error` stores for a message that is not
-- empty cannot be freed by `vmdk_free_error`, since the message is freed with the layout of one `c_char`.
pub vmdk_free_error-fill_error :
    (b : ℕ) (bs : Bytes) (k : ℕ) (l : List (ℕ × Block))
    → let r = fill_error (b ∷ bs) true (record { next = suc k; blocks = l }) in
      (p : ℕ) × (r.0 ≡ some p) × (vmdk_free_error p r.1 ≡ none)
unfolding fill_error vmdk_free_error
vmdk_free_error-fill_error b bs k l =
    let (x, xs, e) = message_of-nonempty b bs in
    let msg = message_of (b ∷ bs) in
    let g : Heap = record {
      next = suc (suc (suc k));
      blocks = (suc (suc k), vmdk_error (suc k)) ∷ (suc k, c_string msg) ∷ l;
    } in
    (
      suc (suc k),
      refl,
      ap (λ o. drop_error (suc (suc k)) o g)
            (block_at_same (suc (suc k)) (vmdk_error (suc k)) ((suc k, c_string msg) ∷ l))
          ∙ ap (freed (suc (suc k))) (free_c_char-none k x xs msg l g e),
    )
