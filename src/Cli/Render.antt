-- ===== src/Cli/Render.antt =====
-- cmd/mini_redis_cli/main.py: what the client prints.
use mini_redis_test_app.Prelude.{
  ℕ, suc, Bool, false, ◌&&◌, List, [], ◌∷◌, ◌++◌, ◌==◌, if◌then◌else◌,
}
use mini_redis_test_app.Cli.Responses.{
  Kind, simple_string, error, number, null, blob_string, map, array, Value, Values, Fields, nothing,
  dict, list, nil, cons, end, field, RespObject, key_text,
}
use mini_redis_test_app.Result.{Result, ok, raise, value_error}
use mini_redis_test_app.Text.{Text, codes}
use mini_redis_test_app.Text.Decimal.{print_nat}

-- `"\n".join(lines)`
unfoldable pub join : List Text → Text
join [] = []
join (line ∷ []) = line
join (line ∷ next ∷ rest) = line ++ 10 ∷ join (next ∷ rest)

unfoldable pub starts_err : Text → Bool
starts_err (a ∷ b ∷ c ∷ d ∷ s) = (a == b'E' && b == b'R') && (c == b'R' && d == b' ')
starts_err _ = false

unfoldable pub render_error : Text → Text
unfolding starts_err
render_error message = if starts_err message then message else codes "ERR " ++ message

-- A value inside a container; the argument is `str` of a value.
unfoldable pub render_value : (Value → Text) → Value → Text
render_value str nothing = codes "(nil)"
render_value str v = str v

unfoldable pub render_fields : (Value → Text) → Fields → List Text
unfolding render_value
render_fields str end = []
render_fields str (field k v fs) = (k ++ (codes ": " ++ render_value str v)) ∷ render_fields str fs

-- `enumerate(array_value, start=1)`
unfoldable pub render_values : (Value → Text) → ℕ → Values → List Text
unfolding render_value
render_values str index nil = []
render_values str index (cons v vs) =
    (print_nat index ++ (codes ") " ++ render_value str v)) ∷ render_values str (suc index) vs

unfoldable pub render_map : (Value → Text) → Value → Result Text
unfolding render_fields join
render_map str (dict fs) = ok (join (render_fields str fs))
render_map str _ = raise value_error

unfoldable pub render_array : (Value → Text) → Value → Result Text
unfolding render_values join
render_array str (list nil) = ok (codes "(empty)")
render_array str (list (cons v vs)) = ok (join (render_values str 1 (cons v vs)))
render_array str _ = raise value_error

unfoldable pub render_kind : (Value → Text) → Kind → Value → Result Text
unfolding render_map render_array render_error
render_kind str simple_string v = ok (str v)
render_kind str blob_string v = ok (str v)
render_kind str number v = ok (str v)
render_kind str null v = ok (codes "(nil)")
render_kind str map v = render_map str v
render_kind str array v = render_array str v
render_kind str error v = ok (render_error (str v))

-- The argument is `str` of a container.
unfoldable pub render_response : (Value → Text) → RespObject → Result Text
unfolding render_kind key_text
render_response repr response = render_kind (key_text repr) response.kind response.value
