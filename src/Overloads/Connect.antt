-- ===== src/Overloads/Connect.antt =====
-- The bodies of the overloads of connect() in src/Object.h: what each asserts of its types, and the
-- connection that it makes.
use qobject_mimic.Base.{
  ℕ, List, Option, none, some, Bool, true, ◌&&◌, if◌then◌else◌, ◌≡◌, refl, arith,
}
use qobject_mimic.World.{World, Code, ConnectionType}
use qobject_mimic.Traits.{CppType, is_member_function}
use qobject_mimic.Overloads.{
  ConnectOverload, connect_takes, member, inherited, inherited_const, inherited_result,
  inherited_result_const, own, own_const, own_result, own_result_const, functor,
}
use qobject_mimic.Overloads.Later.{slot_class}
use qobject_mimic.Signal.{Boost, connect}

-- The static_assert lines of an overload, of a receiver's class and the type of its slot.
module _ (base_of : ℕ → ℕ → Bool) (object : ℕ) where
  abbrev pub asserts : ConnectOverload → ℕ → CppType → Bool
  asserts member receiver t =
      base_of object receiver && (is_member_function t && base_of (slot_class t) receiver)
  asserts inherited receiver t = true
  asserts inherited_const receiver t = true
  asserts inherited_result receiver t = true
  asserts inherited_result_const receiver t = true
  asserts own receiver t = true
  asserts own_const receiver t = true
  asserts own_result receiver t = true
  asserts own_result_const receiver t = true
  asserts functor receiver t = true

  -- A connect() that resolves to the overload `k`: `none` if it does not compile. The receiver is
  -- of the class `receiver_class`, or the context of a functor.
  unfoldable pub connect_by :
      {code : Code}
      → Boost code
      → ConnectOverload
      → ℕ
      → CppType
      → ℕ
      → ℕ
      → ℕ
      → ConnectionType
      → World
      → Option (World × ℕ)
  connect_by b k receiver_class t sig receiver slot type w =
      if asserts k receiver_class t then some (connect b sig receiver slot type w) else none

  -- Whichever overload takes a slot of an Object, which is of the receiver's class or of a base of
  -- it if it is a member function, the call compiles and makes the same connection.
  pub connect_by_lem :
      {code : Code} (b : Boost code) (k : ConnectOverload) (receiver_class : ℕ) (args : List ℕ)
      (t : CppType) (sig receiver slot : ℕ) (type : ConnectionType) (w : World)
      → base_of object receiver_class ≡ true
      → (if is_member_function t then base_of (slot_class t) receiver_class else true) ≡ true
      → connect_takes base_of object k receiver_class args t ≡ true
      → connect_by b k receiver_class t sig receiver slot type w
        ≡ some (connect b sig receiver slot type w)
  unfolding connect_by connect_takes
  connect_by_lem b member c args t sig receiver slot type w o base m = ground arith
  connect_by_lem b inherited c args t sig receiver slot type w o base m = refl
  connect_by_lem b inherited_const c args t sig receiver slot type w o base m = refl
  connect_by_lem b inherited_result c args t sig receiver slot type w o base m = refl
  connect_by_lem b inherited_result_const c args t sig receiver slot type w o base m = refl
  connect_by_lem b own c args t sig receiver slot type w o base m = refl
  connect_by_lem b own_const c args t sig receiver slot type w o base m = refl
  connect_by_lem b own_result c args t sig receiver slot type w o base m = refl
  connect_by_lem b own_result_const c args t sig receiver slot type w o base m = refl
  connect_by_lem b functor c args t sig receiver slot type w o base m = refl
