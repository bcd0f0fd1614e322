-- ===== src/Traits/Cover.antt =====
-- MemberFunctionTraits and the C++ types of pointers to member functions.
use qobject_mimic.Base.{ℕ, List, some, true, false, ◌&&◌, not, ◌≡◌, ◌↔◌, arith}
use qobject_mimic.Traits.{
  Qualifiers, unqualified, member_function, has_specialization, member_function_traits,
  is_member_function, lvalue_ref_to,
}

abbrev pub IsCovered : Qualifiers → Type 0
IsCovered q = (q.ref ≡ unqualified) × (not (q.is_volatile && q.is_noexcept) ≡ true)

-- MemberFunctionTraits knows a pointer to member function, with its class and its result, exactly
-- if the function has no reference qualifier and is not both volatile and noexcept; of any other
-- it says that it is no member function. A reference to such a pointer is not known either.
pub member_function_traits_lem :
    (c r : ℕ) (ts : List ℕ) (q : Qualifiers)
    → ((is_member_function (member_function c r ts q) ≡ true) ↔ IsCovered q)
      × ((is_member_function (member_function c r ts q) ≡ true)
          ↔ ((member_function_traits (member_function c r ts q)).return_type ≡ some r))
      × (is_member_function (lvalue_ref_to (member_function c r ts q)) ≡ false)
unfolding member_function_traits has_specialization
member_function_traits_lem c r ts q = ground arith
