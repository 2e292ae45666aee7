-- ===== src/Json.antt =====
-- The values that `json.loads` gives, without floats and negative numbers. Each container has a
-- list type of its own, with a function to `List`.
use radius_todolist_app.Prelude.{ℕ, String, Bool, Option, none, some, List, [], ◌∷◌}
use radius_todolist_app.Error.{Result, ok, err, other}
use radius_todolist_app.Dict.{Dict, get}

mutual
  pub data Json : Type 0 where
    null : Json
    boolean : Bool → Json
    int : ℕ → Json
    text : String → Json
    arr : Items → Json
    obj : Fields → Json

  pub data Items : Type 0 where
    end : Items
    item : Json → Items → Items

  pub data Fields : Type 0 where
    stop : Fields
    field : String → Json → Fields → Fields

abbrev pub items : Items → List Json
items end = []
items (item v vs) = v ∷ items vs

abbrev pub fields : Fields → Dict Json
fields stop = []
fields (field k v fs) = (k, v) ∷ fields fs

-- A value on which `.get` is called: an AttributeError if it is no dictionary.
abbrev pub dict_of : Json → Result (Dict Json)
dict_of (obj fs) = ok (fields fs)
dict_of _ = err other

-- `isinstance(value, str)`
abbrev pub text_of : Option Json → Option String
text_of (some (text s)) = some s
text_of _ = none

-- `m[key]`: a KeyError if it is missing
unfoldable pub at_key : {A : Type 0} → String → Dict A → Result A
unfolding get
at_key key m = elim (get key m) [ none ↦ err other | some v ↦ ok v ]
