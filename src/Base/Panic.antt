-- ===== src/Base/Panic.antt =====
-- The result of code that may panic. An index out of range is the only panic that the engine's
-- code can meet in a release build, where integer overflow wraps.
use Prim.Native.Nat.{ℕ, zero, suc, ◌<◌}
use mathlib.Core.Path.{◌≡◌, refl, ap}
use mathlib.Core.Logic.{◌≢◌}
use mathlib.Core.List.{List, [], ◌∷◌}
use native.Mathlib.Omega.{arith}
use echofront.Base.Tests.{ltb, if◌then◌else◌}
use echofront.Base.Lists.{length, All}

pub data Exec {ℓ} (A : Type ℓ) : Type ℓ where
  ok : A → Exec A
  panic : Exec A

infixl 5 ◌>>=◌
abbrev pub ◌>>=◌ {ℓ κ} : {A : Type ℓ} {B : Type κ} → Exec A → (A → Exec B) → Exec B
ok a >>= f = f a
panic >>= f = panic

module _ {ℓ} {A : Type ℓ} where
  -- `xs[i]`, read.
  abbrev pub index : List A → ℕ → Exec A
  index [] i = panic
  index (x ∷ xs) zero = ok x
  index (x ∷ xs) (suc i) = index xs i

  -- The list with the element at `i` changed; the same list if there is none.
  abbrev pub update : List A → ℕ → (A → A) → List A
  update [] i f = []
  update (x ∷ xs) zero f = f x ∷ xs
  update (x ∷ xs) (suc i) f = x ∷ update xs i f

  -- `let x = &mut xs[i]`, followed by a mutation of `x`.
  abbrev pub modify : List A → ℕ → (A → A) → Exec (List A)
  modify xs i f = if ltb i (length xs) then ok (update xs i f) else panic

  pub modify_lem :
      (xs : List A) (i : ℕ) (f : A → A) → i < length xs → modify xs i f ≡ ok (update xs i f)
  modify_lem xs i f h = ground arith

  pub index_total : (xs : List A) (i : ℕ) → i < length xs → (x : A) × (index xs i ≡ ok x)
  index_total [] i h = absurd (omega arith)
  index_total (x ∷ xs) zero h = (x, refl)
  index_total (x ∷ xs) (suc i) h = index_total xs i (omega arith)

  pub index-lt : (xs : List A) (i : ℕ) {x : A} → index xs i ≡ ok x → i < length xs
  index-lt [] i h = cc
  index-lt (x ∷ xs) zero h = omega arith
  index-lt (x ∷ xs) (suc i) h = omega (arith, index-lt xs i h)

  pub length-update : (xs : List A) (i : ℕ) (f : A → A) → length (update xs i f) ≡ length xs
  length-update [] i f = refl
  length-update (x ∷ xs) zero f = refl
  length-update (x ∷ xs) (suc i) f = ap suc (length-update xs i f)

  pub index-update_self :
      (xs : List A) (i : ℕ) (f : A → A) {x : A}
      → index xs i ≡ ok x
      → index (update xs i f) i ≡ ok (f x)
  index-update_self [] i f h = cc
  index-update_self (x ∷ xs) zero f h = ground arith
  index-update_self (x ∷ xs) (suc i) f h = index-update_self xs i f h

  pub index-update_ne :
      (xs : List A) (i j : ℕ) (f : A → A) → i ≢ j → index (update xs i f) j ≡ index xs j
  index-update_ne [] i j f h = refl
  index-update_ne (x ∷ xs) zero zero f h = absurd (h refl)
  index-update_ne (x ∷ xs) zero (suc j) f h = refl
  index-update_ne (x ∷ xs) (suc i) zero f h = refl
  index-update_ne (x ∷ xs) (suc i) (suc j) f h = index-update_ne xs i j f (λ e. h (ap suc e))

  pub All-update {κ} :
      (P : A → Type κ) (f : A → A)
      → ((x : A) → P x → P (f x))
      → (xs : List A) (i : ℕ) → All P xs
      → All P (update xs i f)
  All-update P f h [] i a = tt
  All-update P f h (x ∷ xs) zero a = (h x a.0, a.1)
  All-update P f h (x ∷ xs) (suc i) a = (a.0, All-update P f h xs i a.1)
