-- ===== src/Operator.antt =====
-- `OperatorConfig` of src/plane_demo/management/provisioning.py: what `from_dict` checks and keeps.
-- `str(UUID(text))` and the tables of global addresses are parameters.
pub mod Frozen
pub mod Foundation
pub mod Selected
pub mod Allocation
pub mod Load
pub mod Complete
pub mod Access
use Prim.Native.Char.{Char, code}
use Prim.Native.String
use radius_todolist_app.Prelude.{
  ℕ, String, Bool, true, false, not, ◌&&◌, ◌||◌, Option, none, some, List, [], ◌∷◌, str_eq, ◌==◌,
  leb, if◌then◌else◌,
}
use radius_todolist_app.Error.{Error, Result, ok, err, value_error, other, ◌>>=◌, ◌>>◌, raise_if}
use radius_todolist_app.Dict.{Dict, get}
use radius_todolist_app.Text.{concat, is_lower, is_alnum, is_label_char, is_headed, strip_prefix}
use radius_todolist_app.Json.{
  Json, null, boolean, int, text, arr, obj, items, fields, dict_of, at_key,
}

-- SLUG: [a-z][a-z0-9-]{0,47}
unfoldable pub is_slug : String → Bool
unfolding is_headed
is_slug = is_headed is_lower is_label_char 0 47

-- `value == expected`, for a text
abbrev pub is_text : Option Json → String → Bool
is_text (some (text s)) expected = str_eq s expected
is_text _ expected = false

-- `text.startswith(prefix)`
unfoldable pub starts_text : String → String → Bool
unfolding strip_prefix
starts_text prefix s = elim (strip_prefix prefix s) [ none ↦ false | some _ ↦ true ]

-- A text that a pattern or a method is applied to: a TypeError for another value.
abbrev pub need_text : Json → Result String
need_text (text s) = ok s
need_text _ = err other

-- `m[key]`, for a text
unfoldable pub text_at : String → Dict Json → Result String
unfolding at_key
text_at key m = do value ← at_key key m; need_text value

-- `UUID(value)`
unfoldable pub check_uuid : (String → Option String) → Json → Result (Unit {0})
check_uuid uuid (text s) = elim (uuid s) [
  | none ↦ err (value_error "badly formed hexadecimal UUID string")
  | some _ ↦ ok tt
]
check_uuid uuid _ = err other
