-- ===== src/Identity/Patterns.antt =====
-- The choices and the patterns that `DemoConfig` of
-- src/plane_demo/management/providers/identity.py checks.
use Prim.Native.Nat.{◌+◌}
use Prim.Native.Char.{Char, code}
use radius_todolist_app.Prelude.{
  ℕ, String, Bool, true, false, not, ◌&&◌, ◌||◌, Option, none, some, List, [], ◌∷◌, ◌==◌, leb,
  if◌then◌else◌,
}
use radius_todolist_app.Text.{
  is_lower, is_digit, is_alnum, is_label_char, is_printable, is_run, is_headed, ends_alnum,
  strip_prefix,
}
use radius_todolist_app.Dict.{Dict}

-- The choices of RESOURCE_SIZING.
abbrev pub aks_tiers : List String
aks_tiers = "Free" ∷ "Standard" ∷ []

abbrev pub node_counts : List ℕ
node_counts = 2 ∷ 3 ∷ 4 ∷ []

abbrev pub node_disks : List ℕ
node_disks = 64 ∷ 128 ∷ 256 ∷ []

abbrev pub postgres_storages : List ℕ
postgres_storages = 32 ∷ 64 ∷ 128 ∷ 256 ∷ []

abbrev pub redis_skus : List String
redis_skus =
    "Balanced_B0" ∷ "Balanced_B1" ∷ "Balanced_B3" ∷ "Balanced_B5" ∷ "Balanced_B10" ∷ "Balanced_B20"
    ∷ []

abbrev pub gateway_capacities : List ℕ
gateway_capacities = 1 ∷ 2 ∷ 3 ∷ []

abbrev pub registry_skus : List String
registry_skus = "Basic" ∷ "Standard" ∷ "Premium" ∷ []

abbrev pub vault_skus : List String
vault_skus = "standard" ∷ "premium" ∷ []

unfoldable pub lower_code : Char → ℕ
lower_code c = if leb b'A' (code c) && leb (code c) b'Z' then code c + 32 else code c

-- `text == other.lower()`, for a text that is ASCII
unfoldable pub eq_lower : String → String → Bool
unfolding lower_code
eq_lower String.[] String.[] = true
eq_lower String.[] (String.◌∷◌ d t) = false
eq_lower (String.◌∷◌ c s) String.[] = false
eq_lower (String.◌∷◌ c s) (String.◌∷◌ d t) = code c == lower_code d && eq_lower s t

is_size_char : Char → Bool
is_size_char c = is_alnum c || (leb b'A' (code c) && leb (code c) b'Z') || code c == b'_'

-- Standard_[A-Za-z0-9_]{1,64}
unfoldable pub is_standard_size : String → Bool
unfolding strip_prefix is_run is_size_char
is_standard_size s = elim (strip_prefix "Standard_" s) [
  | none ↦ false
  | some rest ↦ is_run is_size_char 1 64 rest
]

unfoldable pub ends_hyphen : String → Bool
ends_hyphen String.[] = false
ends_hyphen (String.◌∷◌ c String.[]) = code c == b'-'
ends_hyphen (String.◌∷◌ c (String.◌∷◌ d s)) = ends_hyphen (String.◌∷◌ d s)

has_double_hyphen : String → Bool
has_double_hyphen String.[] = false
has_double_hyphen (String.◌∷◌ c String.[]) = false
has_double_hyphen (String.◌∷◌ c (String.◌∷◌ d s)) =
    (code c == b'-' && code d == b'-') || has_double_hyphen (String.◌∷◌ d s)

-- [a-z][a-z0-9-]{1,22}[a-z0-9], without "--"
unfoldable pub is_vault_name : String → Bool
unfolding ends_alnum is_headed has_double_hyphen
is_vault_name s =
    is_headed is_lower is_label_char 2 23 s && ends_alnum b'-' s && not (has_double_hyphen s)

unfoldable pub is_hex : Char → Bool
is_hex c = is_digit c || (leb b'a' (code c) && leb (code c) b'f')

unfoldable pub is_name : String → Bool
unfolding is_headed
is_name = is_headed is_lower is_label_char 0 15

-- [!-~]{32,512}
unfoldable pub is_demo_key : String → Bool
unfolding is_run
is_demo_key = is_run is_printable 32 512

unfoldable pub all_keys : (String → Bool) → Dict String → Bool
all_keys test [] = true
all_keys test ((k, v) ∷ m) = test k && all_keys test m

unfoldable pub all_values : (String → Bool) → Dict String → Bool
all_values test [] = true
all_values test ((k, v) ∷ m) = test v && all_values test m

unfoldable pub is_choice : ℕ → List ℕ → Bool
is_choice n [] = false
is_choice n (m ∷ ms) = n == m || is_choice n ms

-- `value is None or test(value)`
abbrev pub absent_or : {A : Type 0} → (A → Bool) → Option A → Bool
absent_or test none = true
absent_or test (some a) = test a

abbrev pub is_given : {A : Type 0} → Option A → Bool
is_given none = false
is_given (some _) = true
