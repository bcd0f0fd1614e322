-- ===== src/Base/Lists.antt =====
-- Lists measured by native numbers, filtered by Boolean tests, and predicates over them.
use Prim.Native.Nat.{ℕ, suc, ◌+◌}
use mathlib.Core.Path.{◌≡◌, refl}
use mathlib.Core.Bool.{Bool, true, false, ◌||◌}
use mathlib.Core.List.{List, [], ◌∷◌, ◌++◌}
use native.Mathlib.Omega.{arith}
use qobject_mimic.Base.Tests.{if◌then◌else◌, ◌==◌}

module _ {ℓ} {A : Type ℓ} where
  abbrev pub length : List A → ℕ
  length [] = 0
  length (x ∷ xs) = suc (length xs)

  abbrev pub is_empty : List A → Bool
  is_empty [] = true
  is_empty (x ∷ xs) = false

  -- `std::remove_if` then `erase`: what the test picks goes, and the rest keeps its order.
  abbrev pub remove_if : (A → Bool) → List A → List A
  remove_if p [] = []
  remove_if p (x ∷ xs) = let rest = remove_if p xs in if p x then rest else x ∷ rest

  -- What the test picks, in order.
  abbrev pub keep_if : (A → Bool) → List A → List A
  keep_if p [] = []
  keep_if p (x ∷ xs) = let rest = keep_if p xs in if p x then x ∷ rest else rest

  abbrev pub any : (A → Bool) → List A → Bool
  any p [] = false
  any p (x ∷ xs) = p x || any p xs

  abbrev pub All {κ} : (A → Type κ) → List A → Type κ
  All P [] = Unit
  All P (x ∷ xs) = P x × All P xs

  abbrev pub foldl {κ} : {B : Type κ} → (B → A → B) → B → List A → B
  foldl f b [] = b
  foldl f b (x ∷ xs) = foldl f (f b x) xs

  pub length-append : (xs ys : List A) → length (xs ++ ys) ≡ length xs + length ys
  length-append [] ys = omega arith
  length-append (x ∷ xs) ys = omega (arith, length-append xs ys)

  pub is_empty-append : (xs ys : List A) (y : A) → is_empty (xs ++ y ∷ ys) ≡ false
  is_empty-append [] ys y = refl
  is_empty-append (x ∷ xs) ys y = refl

  pub remove_if-append :
      (p : A → Bool) (xs ys : List A) → remove_if p (xs ++ ys) ≡ remove_if p xs ++ remove_if p ys
  remove_if-append p [] ys = refl
  remove_if-append p (x ∷ xs) ys = ground (arith, remove_if-append p xs ys)

  -- Every element is kept or removed, and none twice.
  pub length-remove_if :
      (p : A → Bool) (xs : List A) → length (keep_if p xs) + length (remove_if p xs) ≡ length xs
  length-remove_if p [] = omega arith
  length-remove_if p (x ∷ xs) = ground (arith, length-remove_if p xs)

  pub remove_if_idem : (p : A → Bool) (xs : List A) → remove_if p (remove_if p xs) ≡ remove_if p xs
  remove_if_idem p [] = refl
  remove_if_idem p (x ∷ xs) = ground (arith, remove_if_idem p xs)

  pub any-remove_if : (p : A → Bool) (xs : List A) → any p (remove_if p xs) ≡ false
  any-remove_if p [] = refl
  any-remove_if p (x ∷ xs) = ground (arith, any-remove_if p xs)

  pub remove_if_of_none : (p : A → Bool) (xs : List A) → any p xs ≡ false → remove_if p xs ≡ xs
  remove_if_of_none p [] h = refl
  remove_if_of_none p (x ∷ xs) h = ground (arith, remove_if_of_none p xs)

  pub All-remove_if {κ} :
      (P : A → Type κ) (p : A → Bool) (xs : List A) → All P xs → All P (remove_if p xs)
  All-remove_if P p [] h = tt
  All-remove_if P p (x ∷ xs) h = ground (arith, All-remove_if P p xs h.1)

  pub All-append {κ} : (P : A → Type κ) (xs ys : List A) → All P xs → All P ys → All P (xs ++ ys)
  All-append P [] ys hx hy = hy
  All-append P (x ∷ xs) ys hx hy = (hx.0, All-append P xs ys hx.1 hy)

  pub foldl-append {κ} :
      {B : Type κ} (f : B → A → B) (b : B) (xs ys : List A)
      → foldl f b (xs ++ ys) ≡ foldl f (foldl f b xs) ys
  foldl-append f b [] ys = refl
  foldl-append f b (x ∷ xs) ys = foldl-append f (f b x) xs ys

abbrev pub contains : ℕ → List ℕ → Bool
contains a [] = false
contains a (x ∷ xs) = x == a || contains a xs
