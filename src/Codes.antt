-- ===== src/Codes.antt =====
-- The pattern `[a-z][a-z0-9_]{0,63}` of error codes: in `ProvisioningError.__init__` of
-- src/plane_demo/management/provisioning.py and in the checks of sql/management.sql and
-- sql/control.sql. Characters are ASCII where they match.

use Prim.Native.Char.{Char, code}
use radius_todolist_app.Prelude.{String, Bool, ◌||◌, ◌==◌}
use radius_todolist_app.Text.{is_lower, is_alnum, is_headed}

is_code_char : Char → Bool
is_code_char c = is_alnum c || code c == b'_'

-- re.fullmatch(r"[a-z][a-z0-9_]{0,63}", code)
unfoldable pub is_error_code : String → Bool
unfolding is_code_char is_headed
is_error_code = is_headed is_lower is_code_char 0 63
