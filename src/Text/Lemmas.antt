-- ===== src/Text/Lemmas.antt =====
-- What joining, stripping and partitioning texts give on the texts that the code joins.
use Prim.Native.Char.{char}
use radius_todolist_app.Prelude.{String, ◌≡◌, refl, ap, none, some, arith}
use text.Mathlib.TextLemmas.{nil-append, cons-append}
use radius_todolist_app.Text.{concat, rpartition, strip_prefix, remove_prefix}

pub strip_prefix-concat : (p s : String) → strip_prefix p (concat p s) ≡ some s
unfolding strip_prefix concat
strip_prefix-concat String.[] s = ap some (nil-append s)
strip_prefix-concat (String.◌∷◌ c p) s =
    rw (cons-append c p s) (ground (arith, strip_prefix-concat p s))

pub remove_prefix-concat : (p s : String) → remove_prefix p (concat p s) ≡ s
unfolding remove_prefix
remove_prefix-concat p s = rw (remove_prefix, strip_prefix-concat p s) refl

-- The last "-" before a text without one.
pub rpartition-concat :
    (a b : String)
    → rpartition b ≡ none
    → rpartition (concat a (String.◌∷◌ (char 45 tt) b)) ≡ some (a, b)
unfolding rpartition concat
rpartition-concat String.[] b h = rw (nil-append (String.◌∷◌ (char 45 tt) b), h) refl
rpartition-concat (String.◌∷◌ c a) b h =
    rw (cons-append c a (String.◌∷◌ (char 45 tt) b), rpartition, rpartition-concat a b h) refl
