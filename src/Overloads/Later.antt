-- ===== src/Overloads/Later.antt =====
-- The bodies of the overloads of callLater() in src/Object.h: the key that each makes of the
-- callable, and the call of scheduleCallLater().
pub mod Agree
use qobject_mimic.Base.{
  ℕ, ◌+◌, ◌-◌, List, [], ◌∷◌, ◌++◌, Option, none, some, Bool, true, false, ◌&&◌, ◌||◌, not,
  if◌then◌else◌, ◌==◌, is_null, leb, length, zero, suc,
}
use qobject_mimic.Key.{CallLaterKey}
use qobject_mimic.World.{World, Code}
use qobject_mimic.Object.CallLater.{schedule_call_later}
use qobject_mimic.Traits.{
  CppType, Qualifiers, plain, member_function, named, signal, function, pointer_to, lvalue_ref_to,
  void_name,
}
use qobject_mimic.Overloads.{
  CallLaterOverload, later_member, later_inherited, later_inherited_const, later_inherited_result,
  later_inherited_result_const, later_own, later_own_const, later_own_result,
  later_own_result_const, later_function, later_signal, unsupported,
}

abbrev pub const_plain : Qualifiers
const_plain = record plain { is_const = true }

-- The class and the result type that overloads 2 to 9 deduce of a slot, which is a member function.
abbrev pub slot_class : CppType → ℕ
slot_class (member_function c r ts q) = c
slot_class (named n) = void_name
slot_class (signal ts) = void_name
slot_class (function r ts) = void_name
slot_class (pointer_to t) = void_name
slot_class (lvalue_ref_to t) = void_name

abbrev pub slot_result : CppType → ℕ
slot_result (member_function c r ts q) = r
slot_result (named n) = void_name
slot_result (signal ts) = void_name
slot_result (function r ts) = void_name
slot_result (pointer_to t) = void_name
slot_result (lvalue_ref_to t) = void_name

-- The type whose typeid goes into the key: of a call on a `receiver`, with arguments deduced as
-- `args`, for a callable of type `t`.
unfoldable pub key_type : CallLaterOverload → ℕ → List ℕ → CppType → CppType
key_type later_member receiver args t = t
key_type later_inherited receiver args t = member_function (slot_class t) void_name args plain
key_type later_inherited_const receiver args t =
    member_function (slot_class t) void_name args const_plain
key_type later_inherited_result receiver args t =
    member_function (slot_class t) (slot_result t) args plain
key_type later_inherited_result_const receiver args t =
    member_function (slot_class t) (slot_result t) args const_plain
key_type later_own receiver args t = member_function receiver void_name args plain
key_type later_own_const receiver args t = member_function receiver void_name args const_plain
key_type later_own_result receiver args t = member_function receiver (slot_result t) args plain
key_type later_own_result_const receiver args t =
    member_function receiver (slot_result t) args const_plain
key_type later_function receiver args t = t
key_type later_signal receiver args t = t
key_type unsupported receiver args t = t

-- `mTargetBytes`, all zero before the callable's bytes are copied in.
abbrev pub padded : ℕ → List ℕ → List ℕ
padded zero bytes = []
padded (suc n) [] = 0 ∷ padded n []
padded (suc n) (x ∷ bytes) = x ∷ padded n bytes

-- The static_assert lines of an overload, but for std::is_invocable_v, which every call is taken to
-- meet. The pointer sizes are at most those of the key.
abbrev pub compiles : (ℕ → ℕ → Bool) → CallLaterOverload → ℕ → CppType → List ℕ → Bool
compiles base_of later_member receiver t bytes =
    base_of (slot_class t) receiver && leb (length bytes) 32
compiles base_of later_inherited receiver t bytes = leb (length bytes) 32
compiles base_of later_inherited_const receiver t bytes = leb (length bytes) 32
compiles base_of later_inherited_result receiver t bytes = leb (length bytes) 32
compiles base_of later_inherited_result_const receiver t bytes = leb (length bytes) 32
compiles base_of later_own receiver t bytes = leb (length bytes) 32
compiles base_of later_own_const receiver t bytes = leb (length bytes) 32
compiles base_of later_own_result receiver t bytes = leb (length bytes) 32
compiles base_of later_own_result_const receiver t bytes = leb (length bytes) 32
compiles base_of later_function receiver t bytes = leb (length bytes) 32
compiles base_of later_signal receiver t bytes = leb (length bytes) 32
compiles base_of unsupported receiver t bytes = false

-- `!aFunc`: overload 10 alone looks at the callable.
abbrev pub is_refused : CallLaterOverload → Bool → Bool
is_refused later_function null_function = null_function
is_refused later_member null_function = false
is_refused later_inherited null_function = false
is_refused later_inherited_const null_function = false
is_refused later_inherited_result null_function = false
is_refused later_inherited_result_const null_function = false
is_refused later_own null_function = false
is_refused later_own_const null_function = false
is_refused later_own_result null_function = false
is_refused later_own_result_const null_function = false
is_refused later_signal null_function = false
is_refused unsupported null_function = false

-- The key that an overload makes. `hash_of` is typeid().hash_code(), `bytes` is the callable in
-- memory.
unfoldable pub later_key :
    (CppType → ℕ) → CallLaterOverload → ℕ → ℕ → List ℕ → CppType → List ℕ → CallLaterKey
unfolding key_type
later_key hash_of k context receiver args t bytes = record {
  context = context;
  type_hash = hash_of (key_type k receiver args t);
  target_size = length bytes;
  target_bytes = padded 32 bytes;
}

-- A callLater() that resolves to the overload `k`: `none` if it does not compile.
-- `null_function` is whether the callable is a null pointer to a function.
module _ (base_of : ℕ → ℕ → Bool) (hash_of : CppType → ℕ) (code : Code) where
  unfoldable pub call_later_by :
      CallLaterOverload → ℕ → ℕ → ℕ → List ℕ → CppType → List ℕ → Bool → ℕ → World → Option World
  unfolding later_key
  call_later_by k caller context receiver args t bytes null_function invoker w =
      if not (compiles base_of k receiver t bytes)
      then none
      else if is_null context || is_refused k null_function
      then some w
      else some (
          schedule_call_later code caller context
            (later_key hash_of k context receiver args t bytes) invoker w)
