-- ===== src/Numbers.antt =====
-- The numbers of Python beside the naturals: integers, and floats with their order.
use Prim.Native.Nat.{◌^◌}
use radius_todolist_app.Prelude.{ℕ, ◌*◌, Bool, true, false, not, ltb, leb}

-- Python's integers.
pub data ℤ : Type 0 where
  pos : ℕ → ℤ
  negsuc : ℕ → ℤ

-- Python's floats: each finite one is an integer divided by a power of two.
pub data Float : Type 0 where
  finite : (numerator : ℤ) (exponent : ℕ) → Float
  infinity : (is_negative : Bool) → Float
  nan : Float

-- `n < x`, false of a NaN as every comparison
unfoldable pub is_above : ℕ → Float → Bool
is_above n (finite (pos m) e) = ltb (n * 2 ^ e) m
is_above n (finite (negsuc m) e) = false
is_above n (infinity is_negative) = not is_negative
is_above n nan = false

-- `n <= x`
unfoldable pub is_at_least : ℕ → Float → Bool
is_at_least n (finite (pos m) e) = leb (n * 2 ^ e) m
is_at_least n (finite (negsuc m) e) = false
is_at_least n (infinity is_negative) = not is_negative
is_at_least n nan = false

-- `x <= n`
unfoldable pub is_at_most : ℕ → Float → Bool
is_at_most n (finite (pos m) e) = leb m (n * 2 ^ e)
is_at_most n (finite (negsuc m) e) = true
is_at_most n (infinity is_negative) = is_negative
is_at_most n nan = false

-- `math.isfinite`
unfoldable pub is_finite : Float → Bool
is_finite (finite m e) = true
is_finite _ = false
