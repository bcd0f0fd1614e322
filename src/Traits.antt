-- ===== src/Traits.antt =====
-- src/Global.h: the traits that the templates of src/Object.h select their overloads by, over a
-- syntax of the C++ types that they look at. Classes and other types are named by numbers.
pub mod Cover
use qobject_mimic.Base.{
  ℕ, List, [], ◌∷◌, Option, none, some, Bool, true, false, ◌&&◌, ◌||◌, not, if◌then◌else◌, ◌==◌,
}

pub data RefQualifier : Type 0 where
  unqualified lvalue_qualified rvalue_qualified : RefQualifier

-- What follows the parameters in the type of a member function.
pub record Qualifiers : Type 0 where
  pub is_const : Bool
  pub is_volatile : Bool
  pub is_noexcept : Bool
  pub ref : RefQualifier

abbrev pub plain : Qualifiers
plain = record { is_const = false; is_volatile = false; is_noexcept = false; ref = unqualified }

-- `named 0` is void. `member_function c r ts q` is `r ( c::* )( ts... ) q`, a pointer.
pub data CppType : Type 0 where
  named : ℕ → CppType
  signal : List ℕ → CppType
  function : ℕ → List ℕ → CppType
  member_function : ℕ → ℕ → List ℕ → Qualifiers → CppType
  pointer_to : CppType → CppType
  lvalue_ref_to : CppType → CppType

abbrev pub void_name : ℕ
void_name = 0

-- The specializations of MemberFunctionTraits, in the order of the source: none of them has a
-- reference qualifier.
unfoldable pub has_specialization : Qualifiers → Bool
has_specialization q = elim q.ref [
  | unqualified ↦ not (q.is_volatile && q.is_noexcept)
  | lvalue_qualified ↦ false
  | rvalue_qualified ↦ false
]

-- MemberFunctionTraits<T>: `is_member_function`, and `class_type` and `return_type` where the
-- specialization has them.
pub record MemberFunctionTraits : Type 0 where
  pub is_member_function : Bool
  pub class_type : ℕ
  pub return_type : Option ℕ

abbrev pub primary_traits : MemberFunctionTraits
primary_traits = record { is_member_function = false; class_type = void_name; return_type = none }

unfoldable pub member_function_traits : CppType → MemberFunctionTraits
unfolding has_specialization
member_function_traits (member_function c r ts q) =
    if has_specialization q
    then record { is_member_function = true; class_type = c; return_type = some r }
    else primary_traits
member_function_traits (named n) = primary_traits
member_function_traits (signal ts) = primary_traits
member_function_traits (function r ts) = primary_traits
member_function_traits (pointer_to t) = primary_traits
member_function_traits (lvalue_ref_to t) = primary_traits

abbrev pub is_member_function : CppType → Bool
is_member_function t = (member_function_traits t).is_member_function

-- IsSignal<T>.
abbrev pub is_signal : CppType → Bool
is_signal (signal ts) = true
is_signal (named n) = false
is_signal (function r ts) = false
is_signal (member_function c r ts q) = false
is_signal (pointer_to t) = false
is_signal (lvalue_ref_to t) = false

-- std::is_pointer (of a pointer to member it is false), std::remove_pointer, std::is_function and
-- std::decay.
abbrev pub is_pointer : CppType → Bool
is_pointer (pointer_to t) = true
is_pointer (named n) = false
is_pointer (signal ts) = false
is_pointer (function r ts) = false
is_pointer (member_function c r ts q) = false
is_pointer (lvalue_ref_to t) = false

abbrev pub remove_pointer : CppType → CppType
remove_pointer (pointer_to t) = t
remove_pointer (named n) = named n
remove_pointer (signal ts) = signal ts
remove_pointer (function r ts) = function r ts
remove_pointer (member_function c r ts q) = member_function c r ts q
remove_pointer (lvalue_ref_to t) = lvalue_ref_to t

abbrev pub is_function : CppType → Bool
is_function (function r ts) = true
is_function (named n) = false
is_function (signal ts) = false
is_function (member_function c r ts q) = false
is_function (pointer_to t) = false
is_function (lvalue_ref_to t) = false

abbrev pub is_function_pointer : CppType → Bool
is_function_pointer t = is_pointer t && is_function (remove_pointer t)

abbrev pub remove_reference : CppType → CppType
remove_reference (lvalue_ref_to t) = t
remove_reference (named n) = named n
remove_reference (signal ts) = signal ts
remove_reference (function r ts) = function r ts
remove_reference (member_function c r ts q) = member_function c r ts q
remove_reference (pointer_to t) = pointer_to t

-- The decay of a type that is no reference: a function becomes a pointer to it.
abbrev pub decay_value : CppType → CppType
decay_value (function r ts) = pointer_to (function r ts)
decay_value (named n) = named n
decay_value (signal ts) = signal ts
decay_value (member_function c r ts q) = member_function c r ts q
decay_value (pointer_to t) = pointer_to t
decay_value (lvalue_ref_to t) = lvalue_ref_to t

abbrev pub decay : CppType → CppType
decay t = decay_value (remove_reference t)
