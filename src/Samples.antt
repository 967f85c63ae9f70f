-- ===== src/Samples.antt =====
-- A concrete platform for tests and witnesses: whole seconds with NaN and infinity for `float`,
-- and no Unicode tables beyond ASCII.
use mini_redis_test_app.Prelude.{
  ◌+◌, Bool, true, false, Option, none, some, List, [], ◌∷◌, ◌==◌, if◌then◌else◌,
}
use mini_redis_test_app.Prelude.Int.{ℤ, pos, pos_part, neg_part, sub_ℕ, ◌+ℤ◌, ltb_ℤ, leb_ℤ}
use mini_redis_test_app.Platform.{Platform}
use mini_redis_test_app.Result.{Result, ok, raise, value_error, overflow_error}
use mini_redis_test_app.Service.{State}
use mini_redis_test_app.Command.{Command}
use mini_redis_test_app.Prelude.{String, map}
use mini_redis_test_app.Text.{Text, codes}

pub data Seconds : Type 0 where
  finite : ℤ → Seconds
  infinite nan : Seconds

abbrev add_seconds : Seconds → Seconds → Seconds
add_seconds (finite a) (finite b) = finite (a +ℤ b)
add_seconds nan _ = nan
add_seconds _ nan = nan
add_seconds _ _ = infinite

abbrev sub_seconds : Seconds → Seconds → Seconds
sub_seconds (finite a) (finite b) =
    finite (sub_ℕ (pos_part a + neg_part b) (neg_part a + pos_part b))
sub_seconds infinite (finite b) = infinite
sub_seconds _ _ = nan

abbrev le_seconds : Seconds → Seconds → Bool
le_seconds (finite a) (finite b) = leb_ℤ a b
le_seconds (finite a) infinite = true
le_seconds infinite infinite = true
le_seconds _ _ = false

abbrev lt_seconds : Seconds → Seconds → Bool
lt_seconds (finite a) (finite b) = ltb_ℤ a b
lt_seconds (finite a) infinite = true
lt_seconds _ _ = false

abbrev eq_seconds : Seconds → Seconds → Bool
eq_seconds (finite a) (finite b) = if ltb_ℤ a b then false else leb_ℤ a b
eq_seconds infinite infinite = true
eq_seconds _ _ = false

abbrev ceil_seconds : Seconds → Result ℤ
ceil_seconds (finite a) = ok a
ceil_seconds infinite = raise overflow_error
ceil_seconds nan = raise value_error

-- One digit, `inf` or `nan`.
abbrev parse_seconds : Text → Option Seconds
parse_seconds (c ∷ []) = some (finite (sub_ℕ c b'0'))
parse_seconds (c ∷ d ∷ e ∷ []) = if c == b'i' then some infinite else some nan
parse_seconds _ = none

abbrev format_seconds : Seconds → Text
format_seconds (finite a) = (b'0' + pos_part a) ∷ []
format_seconds infinite = codes "inf"
format_seconds nan = codes "nan"

instance abbrev pub sample : Platform
sample = record {
  Float = Seconds;
  float_zero = finite (pos 0);
  float_add = add_seconds;
  float_sub = sub_seconds;
  float_le = le_seconds;
  float_lt = lt_seconds;
  float_eq = eq_seconds;
  ceil = ceil_seconds;
  parse_float = parse_seconds;
  format_g = format_seconds;
  decimal = λ c. none;
  upper_char = λ c. c ∷ [];
  lower_text = λ s. s;
  max_depth = 20;
}

-- An empty store at time 0; every reading of the clock is a second later.
abbrev pub empty_state : State
empty_state = record {
  store = [];
  ttl = [];
  readings = λ n. finite (pos n);
  reads = 0;
  max_memory_bytes = none;
  access_clock = 0;
  access_order = [];
  evicted_keys = 0;
}

-- A request of the client: a name and its arguments.
abbrev pub request : String → List String → Command
request name arguments = record { name = codes name; arguments = map codes arguments }
