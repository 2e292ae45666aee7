-- ===== src/Operator/Frozen.antt =====
-- `freeze` and `plain` of src/plane_demo/management/provisioning.py.
use radius_todolist_app.Prelude.{String, ◌≡◌, refl, ap}
use radius_todolist_app.Json.{
  Json, null, boolean, int, text, arr, obj, Items, end, item, Fields, stop, field,
}

-- A value of `MappingProxyType`, of `tuple`, or a plain one.
mutual
  pub data Frozen : Type 0 where
    kept : Json → Frozen
    tuple : Tuple → Frozen
    mapping : Mapping → Frozen

  pub data Tuple : Type 0 where
    nil : Tuple
    cons : Frozen → Tuple → Tuple

  pub data Mapping : Type 0 where
    empty : Mapping
    entry : String → Frozen → Mapping → Mapping

unfoldable mutual
  pub freeze : Json → Frozen
  freeze (arr vs) = tuple (freeze_items vs)
  freeze (obj fs) = mapping (freeze_fields fs)
  freeze v = kept v

  pub freeze_items : Items → Tuple
  freeze_items end = nil
  freeze_items (item v vs) = cons (freeze v) (freeze_items vs)

  pub freeze_fields : Fields → Mapping
  freeze_fields stop = empty
  freeze_fields (field k v fs) = entry k (freeze v) (freeze_fields fs)

unfoldable mutual
  pub plain : Frozen → Json
  plain (kept v) = v
  plain (tuple vs) = arr (plain_items vs)
  plain (mapping fs) = obj (plain_fields fs)

  pub plain_items : Tuple → Items
  plain_items nil = end
  plain_items (cons v vs) = item (plain v) (plain_items vs)

  pub plain_fields : Mapping → Fields
  plain_fields empty = stop
  plain_fields (entry k v fs) = field k (plain v) (plain_fields fs)

mutual
  unfolding freeze freeze_items freeze_fields plain plain_items plain_fields

  thaws : (v : Json) → plain (freeze v) ≡ v
  thaws null = refl
  thaws (boolean b) = refl
  thaws (int n) = refl
  thaws (text s) = refl
  thaws (arr vs) = ap arr (thaws_items vs)
  thaws (obj fs) = ap obj (thaws_fields fs)

  thaws_items : (vs : Items) → plain_items (freeze_items vs) ≡ vs
  thaws_items end = refl
  thaws_items (item v vs) = λ i. item (thaws v i) (thaws_items vs i)

  thaws_fields : (fs : Fields) → plain_fields (freeze_fields fs) ≡ fs
  thaws_fields stop = refl
  thaws_fields (field k v fs) = λ i. field k (thaws v i) (thaws_fields fs i)

-- A value that is frozen, however deep, is plain again as it was.
pub plain-freeze : (v : Json) → plain (freeze v) ≡ v
plain-freeze v = thaws v
