-- ===== src/Overloads/Choice.antt =====
-- Which overloads of connect() and callLater() take a slot (src/Object.h).
use qobject_mimic.Base.{
  ℕ, ◌+◌, List, [], ◌∷◌, Bool, true, false, ◌&&◌, ◌||◌, not, if◌then◌else◌, ◌==◌, ◌≡◌, refl, arith,
}
use qobject_mimic.Traits.{
  CppType, Qualifiers, unqualified, member_function, pointer_to, function, void_name,
  is_member_function, member_function_traits, has_specialization, named, signal,
}
use qobject_mimic.Overloads.{
  same_types, takes_inherited, takes_own, ConnectOverload, CallLaterOverload, connect_takes,
  call_later_takes, member, inherited, inherited_const, inherited_result, inherited_result_const,
  own, own_const, own_result, own_result_const, functor, later_member, later_function, later_signal,
  unsupported,
}

same_types_self : (ts : List ℕ) → same_types ts ts ≡ true
same_types_self [] = refl
same_types_self (t ∷ ts) = ground (arith, same_types_self ts)

-- The number of an overload in the source.
abbrev pub number : ConnectOverload → ℕ
number member = 1
number inherited = 2
number inherited_const = 3
number inherited_result = 4
number inherited_result_const = 5
number own = 6
number own_const = 7
number own_result = 8
number own_result_const = 9
number functor = 10

-- The overload for a slot's result and constness: of those for slots directly on the receiver, or
-- of those for slots of a base class.
abbrev pub best : Bool → ℕ → Bool → ℕ
best is_own r is_const =
    2 + (if is_own then 4 else 0) + (if r == void_name then 0 else 2) + (if is_const then 1 else 0)

module _ (base_of : ℕ → ℕ → Bool) (object : ℕ) where
  -- A slot of a receiver that is an Object, of its class or a base of it, neither volatile nor
  -- reference-qualified, with the signal's arguments as parameters, is taken by overload 1 of
  -- connect() and by the one of overloads 6 to 9 that is for its result and its constness; if its
  -- class is not the receiver's own, also by the one of overloads 2 to 5 for the same; and by no
  -- other. With other parameters it is taken by overload 1 alone.
  pub connect_choice :
      (k : ConnectOverload) (c r receiver : ℕ) (ts args : List ℕ) (q : Qualifiers)
      → base_of object receiver ≡ true
      → base_of c receiver ≡ true
      → q.ref ≡ unqualified
      → q.is_volatile ≡ false
      → connect_takes base_of object k receiver args (member_function c r ts q) ≡ (
          (number k == 1)
          || (same_types ts args
              && ((number k == best true r q.is_const)
                  || (not (c == receiver) && (number k == best false r q.is_const)))))
  unfolding connect_takes takes_inherited takes_own member_function_traits has_specialization
  connect_choice member c r receiver ts args q o b u v = ground arith
  connect_choice inherited c r receiver ts args q o b u v = ground arith
  connect_choice inherited_const c r receiver ts args q o b u v = ground arith
  connect_choice inherited_result c r receiver ts args q o b u v = ground arith
  connect_choice inherited_result_const c r receiver ts args q o b u v = ground arith
  connect_choice own c r receiver ts args q o b u v = ground arith
  connect_choice own_const c r receiver ts args q o b u v = ground arith
  connect_choice own_result c r receiver ts args q o b u v = ground arith
  connect_choice own_result_const c r receiver ts args q o b u v = ground arith
  connect_choice functor c r receiver ts args q o b u v = ground arith

  -- A slot that MemberFunctionTraits does not know, having a reference qualifier or being volatile
  -- and noexcept, is taken by overload 10 alone, which calls it like a function.
  pub connect_unknown :
      (k : ConnectOverload) (c r receiver : ℕ) (ts args : List ℕ) (q : Qualifiers)
      → is_member_function (member_function c r ts q) ≡ false
      → connect_takes base_of object k receiver args (member_function c r ts q) ≡ (number k == 10)
  unfolding connect_takes takes_inherited takes_own member_function_traits has_specialization
  connect_unknown member c r receiver ts args q u = ground arith
  connect_unknown inherited c r receiver ts args q u = ground arith
  connect_unknown inherited_const c r receiver ts args q u = ground arith
  connect_unknown inherited_result c r receiver ts args q u = ground arith
  connect_unknown inherited_result_const c r receiver ts args q u = ground arith
  connect_unknown own c r receiver ts args q u = ground arith
  connect_unknown own_const c r receiver ts args q u = ground arith
  connect_unknown own_result c r receiver ts args q u = ground arith
  connect_unknown own_result_const c r receiver ts args q u = ground arith
  connect_unknown functor c r receiver ts args q u = ground arith

  -- callLater() with a pointer to function, or with a pointer to member function that the traits
  -- know, of a receiver that is an Object: the overload meant for it takes it, and the overload
  -- that refuses every call takes it as well exactly if it is an lvalue. A signal is taken by its
  -- overload exactly if it is an lvalue, and never refused; a class type, such as a lambda's, is
  -- taken by the refusing overload alone.
  pub call_later_lvalues :
      (c r n receiver : ℕ) (ts args : List ℕ) (q : Qualifiers) (b : Bool)
      → base_of object receiver ≡ true
      → is_member_function (member_function c r ts q) ≡ true
      → let takes = λ (k : CallLaterOverload) (t : CppType).
        call_later_takes base_of object k receiver args (record { type = t; is_lvalue = b }) in
        (takes later_function (pointer_to (function r ts)) ≡ true)
        × (takes unsupported (pointer_to (function r ts)) ≡ b)
        × (takes later_member (member_function c r ts q) ≡ true)
        × (takes unsupported (member_function c r ts q) ≡ b)
        × (takes later_signal (signal ts) ≡ b)
        × (takes unsupported (signal ts) ≡ false)
        × (takes unsupported (named n) ≡ true)
        × (takes later_function (named n) ≡ false)
  unfolding call_later_takes takes_inherited takes_own member_function_traits has_specialization
  call_later_lvalues c r n receiver ts args q true o m = ground arith
  call_later_lvalues c r n receiver ts args q false o m = ground arith
