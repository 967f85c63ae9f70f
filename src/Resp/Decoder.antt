-- ===== src/Resp/Decoder.antt =====
-- internal/protocol/resp/request_decoder.py. An index into the text is the rest of the text from
-- there on.
use mini_redis_test_app.Prelude.{
  ℕ, zero, suc, ◌+◌, Bool, true, false, ◌&&◌, Option, none, some, List, [], ◌∷◌, ◌==◌, leb, take,
  drop, length, if◌then◌else◌,
}
use mini_redis_test_app.Prelude.Int.{ℤ, pos, negsuc}
use mini_redis_test_app.Platform.{Platform}
use mini_redis_test_app.Result.{
  Result, ok, raise, command_error, parse_error, recursion_error, ◌>>=◌,
}
use mini_redis_test_app.Resp.{
  RespValue, RespItems, simple_string, blob_string, number, array, items_of, err_protocol_error,
}
use mini_redis_test_app.Text.{Text}
use mini_redis_test_app.Text.Decimal.{parse_int}
use mini_redis_test_app.Text.Utf8
use mini_redis_test_app.Text.Utf8.{Bytes}

abbrev pub protocol_error {ℓ} : {A : Type ℓ} → Result A
protocol_error = raise (command_error (parse_error err_protocol_error))

-- The text before the first CRLF, and the text after it.
unfoldable pub find_crlf : Text → Option (Text × Text)
find_crlf [] = none
find_crlf (c ∷ []) = none
find_crlf (c ∷ d ∷ s) = elim (c == 13 && d == 10) [
  | true ↦ some ([], s)
  | false ↦ elim (find_crlf (d ∷ s)) [ none ↦ none | some (line, rest) ↦ some (c ∷ line, rest) ]
]

unfoldable pub read_line : Text → Result (Text × Text)
unfolding find_crlf
read_line s = elim (find_crlf s) [ none ↦ protocol_error | some found ↦ ok found ]

module _ ⦃P : Platform⦄ where
  -- `int(text)`, with the ValueError turned into a protocol error.
  unfoldable pub integer : Text → Result ℤ
  integer s = elim (parse_int s) [ none ↦ protocol_error | some n ↦ ok n ]

  unfoldable pub natural : Text → Result ℕ
  unfolding integer
  natural s = do n ← integer s; elim n [ pos k ↦ ok k | negsuc _ ↦ protocol_error ]

  unfoldable pub decode_simple_string : Text → Result (RespValue × Text)
  unfolding read_line
  decode_simple_string s = do (value, rest) ← read_line s; ok (simple_string value, rest)

  unfoldable pub decode_number : Text → Result (RespValue × Text)
  unfolding read_line integer
  decode_number s = do
    (number_text, rest) ← read_line s
    n ← integer number_text
    ok (number n, rest)

  unfoldable pub starts_crlf : Text → Bool
  starts_crlf (c ∷ d ∷ s) = c == 13 && d == 10
  starts_crlf _ = false

  -- The payload, and the two characters behind it, which must be CRLF.
  unfoldable pub take_blob : ℕ → Text → Result (RespValue × Text)
  unfolding starts_crlf
  take_blob n s =
      if leb (n + 2) (length s) && starts_crlf (drop n s)
      then ok (blob_string (take n s), drop (n + 2) s)
      else protocol_error

  unfoldable pub decode_blob_string : Text → Result (RespValue × Text)
  unfolding read_line natural take_blob
  decode_blob_string s = do
    (length_text, rest) ← read_line s
    n ← natural length_text
    take_blob n rest

  -- `for _ in range(count)` over a decoder of one item.
  unfoldable pub decode_items :
      (Text → Result (RespValue × Text)) → ℕ → Text → Result (List RespValue × Text)
  decode_items item zero s = ok ([], s)
  decode_items item (suc n) s = do
    (value, rest) ← item s
    (values, rest') ← decode_items item n rest
    ok (value ∷ values, rest')

  unfoldable pub decode_array :
      (Text → Result (RespValue × Text)) → Text → Result (RespValue × Text)
  unfolding read_line natural decode_items
  decode_array item s = do
    (count_text, rest) ← read_line s
    n ← natural count_text
    (values, rest') ← decode_items item n rest
    ok (array (items_of values), rest')

  -- `_decode_value`; the number is how many more nested calls fit on the stack.
  unfoldable pub decode_value : ℕ → Text → Result (RespValue × Text)
  unfolding decode_array decode_blob_string decode_simple_string decode_number
  decode_value zero s = raise recursion_error
  decode_value (suc depth) [] = protocol_error
  decode_value (suc depth) (prefix ∷ s) =
      if prefix == b'*'
      then decode_array (decode_value depth) s
      else if prefix == b'$'
      then decode_blob_string s
      else if prefix == b'+'
      then decode_simple_string s
      else if prefix == b':'
      then decode_number s
      else protocol_error

  unfoldable pub whole_array : RespValue → Text → Result RespItems
  whole_array (array items) [] = ok items
  whole_array _ _ = protocol_error

  unfoldable pub decode_text : Text → Result RespItems
  unfolding decode_value whole_array
  decode_text text = do (value, rest) ← decode_value P.max_depth text; whole_array value rest

  -- `decode`: the items of the one array that the data holds.
  unfoldable pub decode : Bytes → Result RespItems
  unfolding decode_text
  decode data' = elim (Utf8.decode data') [ none ↦ protocol_error | some text ↦ decode_text text ]
