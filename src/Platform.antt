-- ===== src/Platform.antt =====
-- What the program takes from CPython that depends on tables and hardware: IEEE double
-- arithmetic and the Unicode database beyond ASCII.
use mini_redis_test_app.Prelude.{ℕ, Bool, Option}
use mini_redis_test_app.Prelude.Int.{ℤ}
use mini_redis_test_app.Result.{Result}
use mini_redis_test_app.Text.{Text}

pub record Platform : Type 1 where
  -- `float`, with `0.0`, `a + b`, `a - b`, `a <= b`, `a < b` and `a == b`.
  pub Float : Type 0
  pub float_zero : Float
  pub float_add : Float → Float → Float
  pub float_sub : Float → Float → Float
  pub float_le : Float → Float → Bool
  pub float_lt : Float → Float → Bool
  pub float_eq : Float → Float → Bool
  -- `math.ceil(x)`: raises on NaN and on the infinities.
  pub ceil : Float → Result ℤ
  -- `float(text)`; `none` where it raises ValueError.
  pub parse_float : Text → Option Float
  -- `format(x, "g")`.
  pub format_g : Float → Text
  -- The Unicode database: `unicodedata.decimal(c)`, `c.upper()` and `s.lower()`, which are asked
  -- for characters and texts outside ASCII only.
  pub decimal : ℕ → Option ℕ
  pub upper_char : ℕ → Text
  pub lower_text : Text → Text
  -- How many nested calls of the decoder's `_decode_value` fit on the interpreter's stack, before
  -- it raises RecursionError.
  pub max_depth : ℕ
