-- ===== src/Base/Every.antt =====
-- Predicates over the members of a list, and over those that a test keeps.
use mathlib.Core.Path.{◌≡◌, refl}
use mathlib.Core.Bool.{Bool, true, false, ◌||◌}
use mathlib.Core.List.{List, [], ◌∷◌, ◌++◌}
use native.Mathlib.Omega.{arith}
use Prim.Native.Nat.{ℕ}
use qobject_mimic.Base.Tests.{if◌then◌else◌, ◌==◌}
use qobject_mimic.Base.Lists.{All, any, keep_if, remove_if}

All-if {ℓ κ} :
    {A : Type ℓ} (Q : A → Type κ) (b : Bool) (x : A) (xs : List A)
    → (b ≡ true → Q x)
    → All Q xs
    → All Q (if b then x ∷ xs else xs)
All-if Q true x xs f v = (f refl, v)
All-if Q false x xs f v = v

pub All-mono {ℓ κ μ} :
    {A : Type ℓ} (P : A → Type κ) (Q : A → Type μ) (xs : List A)
    → ((x : A) → P x → Q x)
    → All P xs
    → All Q xs
All-mono P Q [] f v = tt
All-mono P Q (x ∷ xs) f v = (f x v.0, All-mono P Q xs f v.1)

pub All-kept {ℓ κ μ} :
    {A : Type ℓ} (P : A → Type κ) (Q : A → Type μ) (p : A → Bool) (xs : List A)
    → ((x : A) → p x ≡ true → P x → Q x)
    → All P xs
    → All Q (keep_if p xs)
All-kept P Q p [] f v = tt
All-kept P Q p (x ∷ xs) f v =
    All-if Q (p x) x (keep_if p xs) (λ e. f x e v.0) (All-kept P Q p xs f v.1)

pub All-unless {ℓ κ} :
    {A : Type ℓ} (Q : A → Type κ) (b : Bool) (x : A) (xs : List A)
    → (b ≡ false → Q x)
    → All Q xs
    → All Q (if b then xs else x ∷ xs)
All-unless Q true x xs f v = v
All-unless Q false x xs f v = (f refl, v)

pub All-left {ℓ κ μ} :
    {A : Type ℓ} (P : A → Type κ) (Q : A → Type μ) (p : A → Bool) (xs : List A)
    → ((x : A) → p x ≡ false → P x → Q x)
    → All P xs
    → All Q (remove_if p xs)
All-left P Q p [] f v = tt
All-left P Q p (x ∷ xs) f v =
    All-unless Q (p x) x (remove_if p xs) (λ e. f x e v.0) (All-left P Q p xs f v.1)

pub All-both {ℓ κ μ} :
    {A : Type ℓ} (P : A → Type κ) (Q : A → Type μ) (xs : List A)
    → All P xs
    → All Q xs
    → All (λ x. P x × Q x) xs
All-both P Q [] u v = tt
All-both P Q (x ∷ xs) u v = ((u.0, v.0), All-both P Q xs u.1 v.1)

pub any-append {ℓ} :
    {A : Type ℓ} (p : A → Bool) (xs ys : List A) → any p (xs ++ ys) ≡ (any p xs || any p ys)
any-append p [] ys = refl
any-append p (x ∷ xs) ys = ground (arith, any-append p xs ys)

pub eq_of_test : (a b : ℕ) → (a == b) ≡ true → a ≡ b
eq_of_test a b e = ground arith
