-- ===== src/Base/Lists.antt =====
-- Lists measured and indexed by native numbers, under the library's names.
use Prim.Native.Nat.{ℕ, zero, suc, ◌+◌, ◌-◌, ◌≤◌, ◌<◌, min}
use mathlib.Core.Path.{◌≡◌, refl, ap, ap₂}
use mathlib.Core.List.{List, [], ◌∷◌, ◌++◌}
use mathlib.Core.Option.{Option, none, some}
use native.Mathlib.Omega.{arith}

module _ {ℓ} {A : Type ℓ} where
  abbrev pub length : List A → ℕ
  length [] = 0
  length (x ∷ xs) = suc (length xs)

  abbrev pub get_elem? : List A → ℕ → Option A
  get_elem? [] i = none
  get_elem? (x ∷ xs) zero = some x
  get_elem? (x ∷ xs) (suc i) = get_elem? xs i

  abbrev pub take : ℕ → List A → List A
  take zero xs = []
  take (suc n) [] = []
  take (suc n) (x ∷ xs) = x ∷ take n xs

  abbrev pub drop : ℕ → List A → List A
  drop zero xs = xs
  drop (suc n) [] = []
  drop (suc n) (x ∷ xs) = drop n xs

  abbrev pub replicate : ℕ → A → List A
  replicate zero a = []
  replicate (suc n) a = a ∷ replicate n a

  pub length-append : (xs ys : List A) → length (xs ++ ys) ≡ length xs + length ys
  length-append [] ys = omega arith
  length-append (x ∷ xs) ys = omega (arith, length-append xs ys)

  pub length-take : (n : ℕ) (xs : List A) → length (take n xs) ≡ min n (length xs)
  length-take zero xs = omega arith
  length-take (suc n) [] = omega arith
  length-take (suc n) (x ∷ xs) = omega (arith, length-take n xs)

  pub length-drop : (n : ℕ) (xs : List A) → length (drop n xs) ≡ length xs - n
  length-drop zero xs = omega arith
  length-drop (suc n) [] = omega arith
  length-drop (suc n) (x ∷ xs) = omega (arith, length-drop n xs)

  pub length-replicate : (n : ℕ) (a : A) → length (replicate n a) ≡ n
  length-replicate zero a = refl
  length-replicate (suc n) a = ap suc (length-replicate n a)

  -- `f beg`, `f (beg + 1)`, …: the `n` values of `f` from `beg` on
  abbrev pub tabulate : (ℕ → A) → ℕ → ℕ → List A
  tabulate f beg zero = []
  tabulate f beg (suc n) = f beg ∷ tabulate f (suc beg) n

  pub length-tabulate : (f : ℕ → A) (beg n : ℕ) → length (tabulate f beg n) ≡ n
  length-tabulate f beg zero = refl
  length-tabulate f beg (suc n) = ap suc (length-tabulate f (suc beg) n)

  pub tabulate-append :
      (f : ℕ → A) (beg m n : ℕ)
      → tabulate f beg m ++ tabulate f (beg + m) n ≡ tabulate f beg (m + n)
  tabulate-append f beg zero n =
      let e : beg + 0 ≡ beg = omega arith in let e' : 0 + n ≡ n = omega arith in rw (e, e')
  tabulate-append f beg (suc m) n =
      let e : beg + suc m ≡ suc beg + m = omega arith in
      let e' : suc m + n ≡ suc (m + n) = omega arith in
      rw (e, e') (ap (λ xs. f beg ∷ xs) (tabulate-append f (suc beg) m n))

  pub tabulate_ext :
      (f g : ℕ → A) (beg end n : ℕ)
      → ((x : ℕ) → beg ≤ x → x < end → f x ≡ g x)
      → beg + n ≤ end
      → tabulate f beg n ≡ tabulate g beg n
  tabulate_ext f g beg end zero h k = refl
  tabulate_ext f g beg end (suc n) h k =
      ap₂ ◌∷◌ (h beg (omega arith) (omega arith))
        (tabulate_ext f g (suc beg) end n (λ x p q. h x (omega arith) q) (omega arith))

  -- A shifted function.
  pub tabulate_shift :
      (f g : ℕ → A) (a b n : ℕ)
      → ((k : ℕ) → k < n → f (a + k) ≡ g (b + k))
      → tabulate f a n ≡ tabulate g b n
  tabulate_shift f g a b zero h = refl
  tabulate_shift f g a b (suc n) h =
      ap₂ ◌∷◌
        (let q : f (a + 0) ≡ g (b + 0) = h 0 (omega arith) in
          let ea : a + 0 ≡ a = omega arith in let eb : b + 0 ≡ b = omega arith in rw (ea, eb) at q)
        (tabulate_shift f g (suc a) (suc b) n (λ k p.
          let q : f (a + suc k) ≡ g (b + suc k) = h (suc k) (omega arith) in
          let ea : a + suc k ≡ suc a + k = omega arith in
          let eb : b + suc k ≡ suc b + k = omega arith in rw (ea, eb) at q))

  pub drop-tabulate :
      (f : ℕ → A) (p n k : ℕ) → k ≤ n → drop k (tabulate f p n) ≡ tabulate f (p + k) (n - k)
  drop-tabulate f p n zero h =
      let e : p + 0 ≡ p = omega arith in let e' : n - 0 ≡ n = omega arith in rw (e, e') refl
  drop-tabulate f p zero (suc k) h = absurd (omega arith)
  drop-tabulate f p (suc n) (suc k) h =
      let e : p + suc k ≡ suc p + k = omega arith in
      let e' : suc n - suc k ≡ n - k = omega arith in
      rw (e, e') (drop-tabulate f (suc p) n k (omega arith))

  pub take-tabulate : (f : ℕ → A) (p n k : ℕ) → k ≤ n → take k (tabulate f p n) ≡ tabulate f p k
  take-tabulate f p n zero h = refl
  take-tabulate f p zero (suc k) h = absurd (omega arith)
  take-tabulate f p (suc n) (suc k) h =
      ap (λ xs. f p ∷ xs) (take-tabulate f (suc p) n k (omega arith))

  pub take-length : (xs ys : List A) → take (length xs) (xs ++ ys) ≡ xs
  take-length [] ys = refl
  take-length (x ∷ xs) ys = ap (λ t. x ∷ t) (take-length xs ys)

  pub take_all : (xs : List A) → take (length xs) xs ≡ xs
  take_all [] = refl
  take_all (x ∷ xs) = ap (λ t. x ∷ t) (take_all xs)
