-- ===== src/Prelude/Lists.antt =====
-- Vectors: their length, and the access to the last element.
use Prim.Native.Nat.{ℕ, suc, ◌+◌}
use mathlib.Core.Path.{◌≡◌, refl, ap}
use mathlib.Core.List.{List, [], ◌∷◌, ◌++◌}
use mathlib.Core.Option.{Option, none, some}
use native.Mathlib.Omega.{arith}

module _ {ℓ} {A : Type ℓ} where
  abbrev pub length : List A → ℕ
  length [] = 0
  length (x ∷ xs) = suc (length xs)

  pub length-append : (xs ys : List A) → length (xs ++ ys) ≡ length xs + length ys
  length-append [] ys = omega arith
  length-append (x ∷ xs) ys = omega (arith, length-append xs ys)

  -- `v.last()`
  unfoldable pub get_last? : List A → Option A
  get_last? [] = none
  get_last? (x ∷ []) = some x
  get_last? (x ∷ y ∷ ys) = get_last? (y ∷ ys)

  -- `*v.last_mut() = a`, which does nothing to an empty vector.
  unfoldable pub set_last : A → List A → List A
  set_last a [] = []
  set_last a (x ∷ []) = a ∷ []
  set_last a (x ∷ y ∷ ys) = x ∷ set_last a (y ∷ ys)

  pub length-set_last : (a : A) (xs : List A) → length (set_last a xs) ≡ length xs
  unfolding set_last
  length-set_last a [] = refl
  length-set_last a (x ∷ []) = refl
  length-set_last a (x ∷ y ∷ ys) = ap suc (length-set_last a (y ∷ ys))

  pub get_last?-push : (xs : List A) (a : A) → get_last? (xs ++ a ∷ []) ≡ some a
  unfolding get_last?
  get_last?-push [] a = refl
  get_last?-push (x ∷ []) a = refl
  get_last?-push (x ∷ y ∷ ys) a = get_last?-push (y ∷ ys) a

  pub get_last?-set_last : (x : A) (xs : List A) (a : A) → get_last? (set_last a (x ∷ xs)) ≡ some a
  unfolding get_last? set_last
  get_last?-set_last x [] a = refl
  get_last?-set_last x (y ∷ []) a = refl
  get_last?-set_last x (y ∷ z ∷ zs) a = get_last?-set_last y (z ∷ zs) a
