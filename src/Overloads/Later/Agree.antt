-- ===== src/Overloads/Later/Agree.antt =====
-- The overloads 1 to 9 of callLater() on one slot (src/Object.h).
use qobject_mimic.Base.{ℕ, ◌≤◌, List, [], ◌∷◌, some, Bool, true, false, ◌≡◌, refl, arith, length}
use qobject_mimic.World.{World, Code}
use qobject_mimic.Traits.{
  CppType, Qualifiers, member_function, member_function_traits, has_specialization,
}
use qobject_mimic.Overloads.{
  same_types, CallLaterOverload, call_later_takes, takes_inherited, takes_own, later_member,
  later_inherited, later_inherited_const, later_inherited_result, later_inherited_result_const,
  later_own, later_own_const, later_own_result, later_own_result_const, later_function,
  later_signal, unsupported,
}
use qobject_mimic.Overloads.Later.{key_type, compiles, call_later_by, is_refused, padded}
use qobject_mimic.Object.CallLater.{call_later, schedule_call_later}

same_types_eq : (ts us : List ℕ) → same_types ts us ≡ true → ts ≡ us
same_types_eq [] [] e = refl
same_types_eq [] (u ∷ us) e = ground arith
same_types_eq (t ∷ ts) [] e = ground arith
same_types_eq (t ∷ ts) (u ∷ us) e = ground (arith, same_types_eq ts us)

-- The overloads for slots, 1 to 9.
abbrev pub is_for_slots : CallLaterOverload → Bool
is_for_slots later_function = false
is_for_slots later_signal = false
is_for_slots unsupported = false
is_for_slots later_member = true
is_for_slots later_inherited = true
is_for_slots later_inherited_const = true
is_for_slots later_inherited_result = true
is_for_slots later_inherited_result_const = true
is_for_slots later_own = true
is_for_slots later_own_const = true
is_for_slots later_own_result = true
is_for_slots later_own_result_const = true

-- The class in the type that an overload makes the key of, for a slot of the class `c`: overloads 6
-- to 9 name the receiver's.
abbrev pub key_class : CallLaterOverload → ℕ → ℕ → ℕ
key_class later_own receiver c = receiver
key_class later_own_const receiver c = receiver
key_class later_own_result receiver c = receiver
key_class later_own_result_const receiver c = receiver
key_class later_member receiver c = c
key_class later_inherited receiver c = c
key_class later_inherited_const receiver c = c
key_class later_inherited_result receiver c = c
key_class later_inherited_result_const receiver c = c
key_class later_function receiver c = c
key_class later_signal receiver c = c
key_class unsupported receiver c = c

module _ (base_of : ℕ → ℕ → Bool) (object : ℕ) where
  key_type-slot :
      (k : CallLaterOverload) (c r receiver : ℕ) (ts args : List ℕ) (q : Qualifiers) (b : Bool)
      → is_for_slots k ≡ true
      → q.is_noexcept ≡ false
      → call_later_takes base_of object k receiver args
          (record { type = member_function c r ts q; is_lvalue = b })
        ≡ true
      → key_type k receiver args (member_function c r ts q)
        ≡ member_function (key_class k receiver c) r ts q
  unfolding key_type call_later_takes takes_inherited takes_own member_function_traits
      has_specialization
  key_type-slot later_member c r receiver ts args q b s n h = refl
  key_type-slot later_inherited c r receiver ts args q b s n h =
      ground (arith, same_types_eq ts args)
  key_type-slot later_inherited_const c r receiver ts args q b s n h =
      ground (arith, same_types_eq ts args)
  key_type-slot later_inherited_result c r receiver ts args q b s n h =
      ground (arith, same_types_eq ts args)
  key_type-slot later_inherited_result_const c r receiver ts args q b s n h =
      ground (arith, same_types_eq ts args)
  key_type-slot later_own c r receiver ts args q b s n h = ground (arith, same_types_eq ts args)
  key_type-slot later_own_const c r receiver ts args q b s n h =
      ground (arith, same_types_eq ts args)
  key_type-slot later_own_result c r receiver ts args q b s n h =
      ground (arith, same_types_eq ts args)
  key_type-slot later_own_result_const c r receiver ts args q b s n h =
      ground (arith, same_types_eq ts args)
  key_type-slot later_function c r receiver ts args q b s n h = ground arith
  key_type-slot later_signal c r receiver ts args q b s n h = ground arith
  key_type-slot unsupported c r receiver ts args q b s n h = ground arith

compiles-slot :
    (base_of : ℕ → ℕ → Bool) (k : CallLaterOverload) (c r receiver : ℕ) (ts bytes : List ℕ)
    (q : Qualifiers)
    → is_for_slots k ≡ true
    → base_of c receiver ≡ true
    → length bytes ≤ 32
    → compiles base_of k receiver (member_function c r ts q) bytes ≡ true
compiles-slot base_of later_member c r receiver ts bytes q s b n = ground arith
compiles-slot base_of later_inherited c r receiver ts bytes q s b n = ground arith
compiles-slot base_of later_inherited_const c r receiver ts bytes q s b n = ground arith
compiles-slot base_of later_inherited_result c r receiver ts bytes q s b n = ground arith
compiles-slot base_of later_inherited_result_const c r receiver ts bytes q s b n = ground arith
compiles-slot base_of later_own c r receiver ts bytes q s b n = ground arith
compiles-slot base_of later_own_const c r receiver ts bytes q s b n = ground arith
compiles-slot base_of later_own_result c r receiver ts bytes q s b n = ground arith
compiles-slot base_of later_own_result_const c r receiver ts bytes q s b n = ground arith
compiles-slot base_of later_function c r receiver ts bytes q s b n = ground arith
compiles-slot base_of later_signal c r receiver ts bytes q s b n = ground arith
compiles-slot base_of unsupported c r receiver ts bytes q s b n = ground arith

is_refused-slot :
    (k : CallLaterOverload) (null_function : Bool)
    → is_for_slots k ≡ true
    → is_refused k null_function ≡ false
is_refused-slot later_member null_function s = refl
is_refused-slot later_inherited null_function s = refl
is_refused-slot later_inherited_const null_function s = refl
is_refused-slot later_inherited_result null_function s = refl
is_refused-slot later_inherited_result_const null_function s = refl
is_refused-slot later_own null_function s = refl
is_refused-slot later_own_const null_function s = refl
is_refused-slot later_own_result null_function s = refl
is_refused-slot later_own_result_const null_function s = refl
is_refused-slot later_function null_function s = ground arith
is_refused-slot later_signal null_function s = refl
is_refused-slot unsupported null_function s = refl

-- Whichever of the overloads 1 to 9 of callLater() a slot that is not noexcept resolves to, if
-- that overload takes it, the slot's class is the receiver's or a base of it, and its pointer fits
-- the key, the call compiles and is the call of scheduleCallLater() under a key of the slot's type,
-- in which overloads 1 to 5 put the slot's own class and overloads 6 to 9 the receiver's: for a slot
-- of the receiver's own class the key does not depend on the overload, for an inherited one it does.
pub call_later_by_lem :
    (base_of : ℕ → ℕ → Bool) (object : ℕ) (hash_of : CppType → ℕ) (code : Code)
    (k : CallLaterOverload) (caller context c r receiver invoker : ℕ) (ts args bytes : List ℕ)
    (q : Qualifiers) (is_lvalue null_function : Bool) (w : World)
    → is_for_slots k ≡ true
    → q.is_noexcept ≡ false
    → base_of c receiver ≡ true
    → length bytes ≤ 32
    → call_later_takes base_of object k receiver args
        (record { type = member_function c r ts q; is_lvalue = is_lvalue })
      ≡ true
    → call_later_by base_of hash_of code k caller context receiver args
        (member_function c r ts q)
        bytes
        null_function
        invoker
        w
      ≡ some (
          call_later code caller context
            (hash_of (member_function (key_class k receiver c) r ts q))
            (length bytes)
            (padded 32 bytes)
            invoker
            w)
unfolding call_later_by call_later schedule_call_later
call_later_by_lem base_of object hash_of code k caller context c r receiver invoker ts args bytes q
      is_lvalue null_function w s n b fits takes =
    ground (
      arith,
      key_type-slot base_of object k c r receiver ts args q is_lvalue s n takes,
      compiles-slot base_of k c r receiver ts bytes q s b fits,
      is_refused-slot k null_function s,
    )
