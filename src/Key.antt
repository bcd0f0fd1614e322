-- ===== src/Key.antt =====
-- CallLaterKey and CallLaterKeyHash of src/Object.h. `std::hash<Object*>` is a parameter.
use Prim.Native.Nat.{bit_xor, ◌^◌}
use qobject_mimic.Base.{
  ℕ, zero, suc, ◌+◌, ◌*◌, ◌%◌, ◌≤◌, ◌≡◌, refl, Bool, true, false, ◌&&◌, ◌==◌, List, [], ◌∷◌,
  if◌then◌else◌, arith, length,
}

-- `target_bytes` are the 32 bytes of `mTargetBytes`.
pub record CallLaterKey : Type 0 where
  pub context : ℕ
  pub type_hash : ℕ
  pub target_size : ℕ
  pub target_bytes : List ℕ

-- `memcmp(a, b, n) == 0`.
unfoldable pub memcmp_eq : ℕ → List ℕ → List ℕ → Bool
memcmp_eq zero xs ys = true
memcmp_eq (suc n) [] ys = false
memcmp_eq (suc n) (x ∷ xs) [] = false
memcmp_eq (suc n) (x ∷ xs) (y ∷ ys) = (x == y) && memcmp_eq n xs ys

unfoldable pub key_eq : CallLaterKey → CallLaterKey → Bool
unfolding memcmp_eq
key_eq a b =
    if (a.context == b.context)
      && ((a.type_hash == b.type_hash) && (a.target_size == b.target_size))
    then memcmp_eq a.target_size a.target_bytes b.target_bytes
    else false

-- `size_t` has 64 bits.
abbrev pub size_mod : ℕ
size_mod = 2 ^ 64

-- The loop `for (i = 0; i < mTargetSize; ++i) h = h * 31 + mTargetBytes[i]`.
unfoldable pub hash_bytes : ℕ → List ℕ → ℕ → ℕ
hash_bytes zero bytes h = h
hash_bytes (suc n) [] h = h
hash_bytes (suc n) (b ∷ bytes) h = hash_bytes n bytes ((h * 31 + b) % size_mod)

module _ (pointer_hash : ℕ → ℕ) where
  unfoldable pub key_hash : CallLaterKey → ℕ
  unfolding hash_bytes
  key_hash k =
      hash_bytes k.target_size k.target_bytes
        (bit_xor (pointer_hash k.context) ((k.type_hash * 2) % size_mod))

hash_bytes_of_memcmp_eq :
    (n : ℕ) (xs ys : List ℕ) (h : ℕ)
    → memcmp_eq n xs ys ≡ true
    → hash_bytes n xs h ≡ hash_bytes n ys h
unfolding memcmp_eq hash_bytes
hash_bytes_of_memcmp_eq zero xs ys h e = refl
hash_bytes_of_memcmp_eq (suc n) [] ys h e = ground arith
hash_bytes_of_memcmp_eq (suc n) (x ∷ xs) [] h e = ground arith
hash_bytes_of_memcmp_eq (suc n) (x ∷ xs) (y ∷ ys) h e =
    ground (arith, hash_bytes_of_memcmp_eq n xs ys ((h * 31 + x) % size_mod))

memcmp_eq_refl : (n : ℕ) (xs : List ℕ) → n ≤ length xs → memcmp_eq n xs xs ≡ true
unfolding memcmp_eq
memcmp_eq_refl zero xs h = refl
memcmp_eq_refl (suc n) [] h = absurd (omega arith)
memcmp_eq_refl (suc n) (x ∷ xs) h = ground (arith, memcmp_eq_refl n xs (omega arith))

memcmp_eq_symm : (n : ℕ) (xs ys : List ℕ) → memcmp_eq n xs ys ≡ true → memcmp_eq n ys xs ≡ true
unfolding memcmp_eq
memcmp_eq_symm zero xs ys e = refl
memcmp_eq_symm (suc n) [] ys e = ground arith
memcmp_eq_symm (suc n) (x ∷ xs) [] e = ground arith
memcmp_eq_symm (suc n) (x ∷ xs) (y ∷ ys) e = ground (arith, memcmp_eq_symm n xs ys)

memcmp_eq_trans :
    (n : ℕ) (xs ys zs : List ℕ)
    → memcmp_eq n xs ys ≡ true
    → memcmp_eq n ys zs ≡ true
    → memcmp_eq n xs zs ≡ true
unfolding memcmp_eq
memcmp_eq_trans zero xs ys zs e f = refl
memcmp_eq_trans (suc n) [] ys zs e f = ground arith
memcmp_eq_trans (suc n) (x ∷ xs) [] zs e f = ground arith
memcmp_eq_trans (suc n) (x ∷ xs) (y ∷ ys) [] e f = ground arith
memcmp_eq_trans (suc n) (x ∷ xs) (y ∷ ys) (z ∷ zs) e f = ground (arith, memcmp_eq_trans n xs ys zs)

-- A key that fits its 32 bytes equals itself.
pub key_eq_refl : (k : CallLaterKey) → k.target_size ≤ length k.target_bytes → key_eq k k ≡ true
unfolding key_eq
key_eq_refl k h = ground (arith, memcmp_eq_refl k.target_size k.target_bytes)

-- Comparison of keys is symmetric and transitive, and equal keys hash alike whatever
-- `std::hash<Object*>` is: what an unordered_map needs of its key type.
pub key_eq_hash :
    (pointer_hash : ℕ → ℕ) (a b c : CallLaterKey)
    → key_eq a b ≡ true
    → key_eq b c ≡ true
    → (key_eq b a ≡ true)
      × (key_eq a c ≡ true)
      × (key_hash pointer_hash a ≡ key_hash pointer_hash c)
unfolding key_eq key_hash
key_eq_hash pointer_hash a b c e f =
    let n = a.target_size in
    let ac = memcmp_eq_trans n a.target_bytes b.target_bytes c.target_bytes in
    (
      ground (arith, memcmp_eq_symm n a.target_bytes b.target_bytes),
      ground (arith, ac),
      ground (
        arith,
        ac,
        hash_bytes_of_memcmp_eq n a.target_bytes c.target_bytes
            (bit_xor (pointer_hash a.context) ((a.type_hash * 2) % size_mod)),
      ),
    )
