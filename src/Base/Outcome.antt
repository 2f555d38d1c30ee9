-- ===== src/Base/Outcome.antt =====
-- How a Rust call ends: with `Ok`, with `Err`, with a panic, or (`hang`) not within the fuel of the
-- model's loops.
use mathlib.Core.Logic.{◌⊎◌, inl, inr}
use mathlib.Core.Path.{◌≡◌, refl, ap, sym, subst}
use vmdk_rs.Base.Tests.{if◌then◌else◌}
use mathlib.Core.Bool.{Bool, true, false}

pub data Outcome {ℓ κ} (E : Type ℓ) (A : Type κ) : Type (ℓ ⊔ κ) where
  ok : A → Outcome E A
  err : E → Outcome E A
  panic : Outcome E A
  hang : Outcome E A

infixl 5 ◌>>=◌
abbrev pub ◌>>=◌ {ℓ κ μ} :
    {E : Type ℓ} {A : Type κ} {B : Type μ} → Outcome E A → (A → Outcome E B) → Outcome E B
ok a >>= f = f a
err e >>= f = err e
panic >>= f = panic
hang >>= f = hang

-- `.map_err(f)`, and the conversion that `?` makes
abbrev pub map_err {ℓ κ μ} :
    {E : Type ℓ} {F : Type κ} {A : Type μ} → (E → F) → Outcome E A → Outcome F A
map_err f (ok a) = ok a
map_err f (err e) = err (f e)
map_err f panic = panic
map_err f hang = hang

module _ {ℓ κ} {E : Type ℓ} {B : Type κ} where
  unfoldable value_or : B → Outcome E B → B
  value_or a (ok b) = b
  value_or a _ = a

  pub ok_injective : (a b : B) → ◌≡◌ {A = Outcome E B} (ok a) (ok b) → a ≡ b
  unfolding value_or
  ok_injective a b e = ap (value_or a) e

  unfoldable IsOk : Outcome E B → Type 0
  IsOk (ok b) = Unit
  IsOk _ = ⊥

  not_ok : (x : Outcome E B) (b : B) → x ≡ ok b → IsOk x
  unfolding IsOk
  not_ok x b e = subst IsOk (sym e) tt

  -- What a call that succeeds went through.
  pub bind_ok {μ} :
      {A : Type μ} (x : Outcome E A) (k : A → Outcome E B) (b : B)
      → (x >>= k) ≡ ok b
      → (a : A) × (x ≡ ok a) × (k a ≡ ok b)
  unfolding IsOk
  bind_ok (ok a) k b e = (a, refl, e)
  bind_ok (err o) k b e = absurd (not_ok (err o) b e)
  bind_ok panic k b e = absurd (not_ok panic b e)
  bind_ok hang k b e = absurd (not_ok hang b e)

  -- Where a chain of calls fails.
  pub bind_err {μ} :
      {A : Type μ} (x : Outcome E A) (k : A → Outcome E B) (o : E)
      → (x >>= k) ≡ err o
      → (x ≡ err o) ⊎ ((a : A) × (x ≡ ok a) × (k a ≡ err o))
  bind_err (ok a) k o e = inr (a, refl, e)
  bind_err (err p) k o e = inl (cc)
  bind_err panic k o e = cc
  bind_err hang k o e = cc

  -- What follows an early return.
  pub guard_ok :
      (t : Bool) (o : E) (x : Outcome E B) (b : B)
      → (if t then err o else x) ≡ ok b
      → (t ≡ false) × (x ≡ ok b)
  unfolding IsOk
  guard_ok false o x b e = (refl, e)
  guard_ok true o x b e = absurd (not_ok (err o) b e)

pub map_err_ok {ℓ κ μ} :
    {E : Type ℓ} {F : Type κ} {A : Type μ} (f : E → F) (x : Outcome E A) (a : A)
    → map_err f x ≡ ok a
    → x ≡ ok a
map_err_ok f (ok b) a e = ap ok (ok_injective b a e)
map_err_ok f (err o) a e = cc
map_err_ok f panic a e = cc
map_err_ok f hang a e = cc

pub map_err_err {ℓ κ μ} :
    {E : Type ℓ} {F : Type κ} {A : Type μ} (f : E → F) (x : Outcome E A) (o : F)
    → map_err f x ≡ err o
    → (p : E) × (x ≡ err p) × (o ≡ f p)
map_err_err f (ok b) o e = cc
map_err_err f (err p) o e = (p, refl, cc)
map_err_err f panic o e = cc
map_err_err f hang o e = cc
