-- ===== src/Examples/Traits.antt =====
-- The theorems on the overloads at concrete inputs: the class 1 is Object, the class 2 derives from
-- it and the class 3 from that one.
use qobject_mimic.Base.{ℕ, [], ◌∷◌, some, Bool, true, false, ◌≡◌, refl, arith, leb}
use qobject_mimic.Traits.{
  CppType, plain, member_function, pointer_to, function, signal, named, lvalue_ref_to,
}
use qobject_mimic.Overloads.{
  connect_takes, call_later_takes, own_const, later_inherited, takes_inherited,
}
use qobject_mimic.Overloads.Choice.{connect_choice}
use qobject_mimic.Overloads.Later.{call_later_by, padded}
use qobject_mimic.Overloads.Later.Agree.{call_later_by_lem}
use qobject_mimic.Object.CallLater.{call_later}
use qobject_mimic.Examples.Sample.{sample, sample_code}

abbrev base_of : ℕ → ℕ → Bool
base_of b d = leb b d

-- A const slot of the class 2, of one parameter, that returns nothing, on a receiver of the class 3.
connect_choice_example :
    connect_takes base_of 1 own_const 3
      (5 ∷ [])
      (member_function 2 0 (5 ∷ []) (record plain { is_const = true }))
    ≡ true
connect_choice_example =
    connect_choice base_of 1 own_const 2 0 3 (5 ∷ []) (5 ∷ []) (record plain { is_const = true })
      refl refl refl refl

-- The numbers of a type's words, for typeid().
abbrev hash_of : CppType → ℕ
hash_of (member_function c r ts q) = c
hash_of (named n) = n
hash_of (signal ts) = 100
hash_of (function r ts) = 101
hash_of (pointer_to t) = 102
hash_of (lvalue_ref_to t) = 103

call_later_by_lem_example :
    call_later_by base_of hash_of sample_code later_inherited 2 5 3
      (5 ∷ [])
      (member_function 2 0 (5 ∷ []) plain)
      (8 ∷ 0 ∷ [])
      false
      4
      sample
    ≡ some (call_later sample_code 2 5 2 2 (padded 32 (8 ∷ 0 ∷ [])) 4 sample)
unfolding call_later_takes takes_inherited
call_later_by_lem_example =
    call_later_by_lem base_of 1 hash_of sample_code later_inherited 2 5 2 0 3 4 (5 ∷ []) (5 ∷ [])
      (8 ∷ 0 ∷ []) plain false false sample refl refl refl (omega arith) refl
