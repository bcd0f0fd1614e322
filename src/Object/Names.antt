-- ===== src/Object/Names.antt =====
-- objectName() and setObjectName() of src/Object.cpp.
use qobject_mimic.Base.{ℕ, List, Option, none, some, ◌≡◌, ◌≢◌, arith}
use qobject_mimic.World.{World, Object, faulted, put_object}

-- objectName(); there is none to read at an address without an object.
unfoldable pub object_name : ℕ → World → Option (List ℕ)
object_name o w = elim (w.heap o) [ none ↦ none | some ob ↦ some ob.name ]

-- setObjectName().
unfoldable pub set_object_name : ℕ → List ℕ → World → World
set_object_name o name w = elim (w.heap o) [
  | none ↦ faulted w
  | some ob ↦ put_object o (record ob { name = name }) w
]

-- A name that is set is read back, and other objects keep theirs.
pub name_set :
    (o other : ℕ) (name : List ℕ) (ob : Object) (w : World)
    → w.heap o ≡ some ob
    → o ≢ other
    → (object_name o (set_object_name o name w) ≡ some name)
      × (object_name other (set_object_name o name w) ≡ object_name other w)
unfolding object_name set_object_name
name_set o other name ob w e apart = ground arith
