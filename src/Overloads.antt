-- ===== src/Overloads.antt =====
-- The overloads of connect() and callLater() in src/Object.h: which of them a call can choose.
-- `Shape` says of a slot's type what the overloads ask of it.
pub mod Choice
pub mod Connect
pub mod Later
use qobject_mimic.Base.{
  ℕ, List, [], ◌∷◌, Option, none, some, Bool, true, false, ◌&&◌, ◌||◌, not, if◌then◌else◌, ◌==◌,
}
use qobject_mimic.Traits.{
  CppType, Qualifiers, RefQualifier, unqualified, lvalue_qualified, rvalue_qualified, named, signal,
  function, member_function, pointer_to, lvalue_ref_to, void_name, is_member_function, is_signal,
  is_function_pointer, decay,
}

-- `==` on lists of names, as on the packs SignalArgs and Args.
abbrev pub same_types : List ℕ → List ℕ → Bool
same_types [] [] = true
same_types [] (b ∷ bs) = false
same_types (a ∷ ts) [] = false
same_types (a ∷ ts) (b ∷ bs) = a == b && same_types ts bs

-- A parameter `Ret ( C::* )( Args... )`, const or not, takes a pointer of exactly that type, and
-- one that is noexcept beside, which converts to it.
abbrev pub has_qualifiers : Bool → Qualifiers → Bool
has_qualifiers is_const q = elim q.ref [
  | unqualified ↦ not q.is_volatile && (if is_const then q.is_const else not q.is_const)
  | lvalue_qualified ↦ false
  | rvalue_qualified ↦ false
]

-- The overloads of connect(), in the order of the source.
pub data ConnectOverload : Type 0 where
  member inherited inherited_const inherited_result inherited_result_const own own_const own_result
        own_result_const functor :
      ConnectOverload

-- The overloads of callLater(), in the order of the source.
pub data CallLaterOverload : Type 0 where
  later_member later_inherited later_inherited_const later_inherited_result
        later_inherited_result_const later_own later_own_const later_own_result
        later_own_result_const later_function later_signal unsupported :
      CallLaterOverload

-- The second argument of callLater(): a type that is no reference, and whether it is an lvalue.
pub record Target : Type 0 where
  pub type : CppType
  pub is_lvalue : Bool

-- What a forwarding reference deduces of it, and what a parameter by value does.
abbrev pub forwarded : Target → CppType
forwarded t = if t.is_lvalue then lvalue_ref_to t.type else t.type

abbrev pub by_value : Target → CppType
by_value t = decay t.type

-- `base_of b d` is std::is_base_of<b, d>, of the classes of the program, whose bases are neither
-- ambiguous, inaccessible nor virtual; `object` is Object.
module _ (base_of : ℕ → ℕ → Bool) (object : ℕ) where
  -- The condition that overloads 2 to 5 of connect() and callLater() share: the slot's class is a
  -- proper base of the receiver's. `is_void` is whether the overload is for slots that return
  -- nothing, `is_const` whether for const ones.
  unfoldable pub takes_inherited : Bool → Bool → ℕ → List ℕ → CppType → Bool
  takes_inherited is_void is_const receiver args (member_function c r ts q) =
      base_of object receiver
      && (base_of c receiver
          && (not (c == receiver)
              && ((if is_void then r == void_name else not (r == void_name))
                  && (has_qualifiers is_const q && same_types ts args))))
  takes_inherited is_void is_const receiver args (named n) = false
  takes_inherited is_void is_const receiver args (signal ts) = false
  takes_inherited is_void is_const receiver args (function r ts) = false
  takes_inherited is_void is_const receiver args (pointer_to t) = false
  takes_inherited is_void is_const receiver args (lvalue_ref_to t) = false

  -- Overloads 6 to 9: the parameter is a pointer to a member of the receiver's class, which
  -- NonDeduced keeps from being deduced of the slot, so that a slot of a base class converts to it.
  unfoldable pub takes_own : Bool → Bool → ℕ → List ℕ → CppType → Bool
  takes_own is_void is_const receiver args (member_function c r ts q) =
      base_of object receiver
      && (base_of c receiver
          && ((if is_void then r == void_name else not (r == void_name))
              && (has_qualifiers is_const q && same_types ts args)))
  takes_own is_void is_const receiver args (named n) = false
  takes_own is_void is_const receiver args (signal ts) = false
  takes_own is_void is_const receiver args (function r ts) = false
  takes_own is_void is_const receiver args (pointer_to t) = false
  takes_own is_void is_const receiver args (lvalue_ref_to t) = false

  -- Whether an overload of connect() takes a slot, by its parameters and its enable_if.
  unfoldable pub connect_takes : ConnectOverload → ℕ → List ℕ → CppType → Bool
  unfolding takes_inherited takes_own
  connect_takes member receiver args t = is_member_function t
  connect_takes inherited receiver args t = takes_inherited true false receiver args t
  connect_takes inherited_const receiver args t = takes_inherited true true receiver args t
  connect_takes inherited_result receiver args t = takes_inherited false false receiver args t
  connect_takes inherited_result_const receiver args t = takes_inherited false true receiver args t
  connect_takes own receiver args t = takes_own true false receiver args t
  connect_takes own_const receiver args t = takes_own true true receiver args t
  connect_takes own_result receiver args t = takes_own false false receiver args t
  connect_takes own_result_const receiver args t = takes_own false true receiver args t
  connect_takes functor receiver args t = not (is_member_function t)

  -- The same of callLater().
  unfoldable pub call_later_takes : CallLaterOverload → ℕ → List ℕ → Target → Bool
  unfolding takes_inherited takes_own
  call_later_takes later_member receiver args t =
      base_of object receiver && is_member_function (by_value t)
  call_later_takes later_inherited receiver args t =
      takes_inherited true false receiver args (by_value t)
  call_later_takes later_inherited_const receiver args t =
      takes_inherited true true receiver args (by_value t)
  call_later_takes later_inherited_result receiver args t =
      takes_inherited false false receiver args (by_value t)
  call_later_takes later_inherited_result_const receiver args t =
      takes_inherited false true receiver args (by_value t)
  call_later_takes later_own receiver args t = takes_own true false receiver args (by_value t)
  call_later_takes later_own_const receiver args t = takes_own true true receiver args (by_value t)
  call_later_takes later_own_result receiver args t =
      takes_own false false receiver args (by_value t)
  call_later_takes later_own_result_const receiver args t =
      takes_own false true receiver args (by_value t)
  call_later_takes later_function receiver args t = is_function_pointer (by_value t)
  call_later_takes later_signal receiver args t = t.is_lvalue && is_signal t.type
  call_later_takes unsupported receiver args t =
      not (is_member_function (forwarded t))
      && (not (is_function_pointer (forwarded t)) && not (is_signal (decay (forwarded t))))
