-- ===== src/Cli/Responses.antt =====
-- cmd/mini_redis_cli/main.py: the reader of the server's responses. The stream is the list of the
-- bytes that are still to come.
pub mod Blobs
use mini_redis_test_app.Prelude.{
  ℕ, zero, suc, ◌+◌, Bool, true, false, ◌&&◌, Option, none, some, List, [], ◌∷◌, ◌==◌, leb, length,
  take, drop, if◌then◌else◌,
}
use mini_redis_test_app.Prelude.Int.{ℤ, pos, negsuc}
use mini_redis_test_app.Dict.{Dict}
use mini_redis_test_app.Platform.{Platform}
use mini_redis_test_app.Result.{
  Result, ok, raise, connection_error, value_error, recursion_error, ◌>>=◌,
}
use mini_redis_test_app.Text.{Text, codes, text_eq}
use mini_redis_test_app.Text.Casing.{is_ascii}
use mini_redis_test_app.Text.Decimal.{parse_int, print_int}
use mini_redis_test_app.Text.Utf8
use mini_redis_test_app.Text.Utf8.{Bytes}

pub data Kind : Type 0 where
  simple_string error number null blob_string map array : Kind

-- `RespObjectValue`; a dict is in insertion order.
mutual
  pub data Value : Type 0 where
    text : Text → Value
    integer : ℤ → Value
    nothing : Value
    dict : Fields → Value
    list : Values → Value

  pub data Values : Type 0 where
    nil : Values
    cons : Value → Values → Values

  pub data Fields : Type 0 where
    end : Fields
    field : Text → Value → Fields → Fields

pub record RespObject : Type 0 where
  pub kind : Kind
  pub value : Value

-- `stream.readline()`: the bytes up to the first line feed, and what follows them.
unfoldable pub split_line : Bytes → Bytes × Bytes
split_line [] = ([], [])
split_line (b ∷ s) =
    let (line, rest) = split_line s in if b == 10 then (b ∷ [], s) else (b ∷ line, rest)

-- `line[:-2]`, if the line ends in CRLF.
unfoldable pub strip_crlf : Bytes → Option Bytes
strip_crlf [] = none
strip_crlf (a ∷ []) = none
strip_crlf (a ∷ b ∷ []) = if a == 13 && b == 10 then some [] else none
strip_crlf (a ∷ b ∷ c ∷ s) = elim (strip_crlf (b ∷ c ∷ s)) [
  | none ↦ none
  | some line ↦ some (a ∷ line)
]

unfoldable pub read_line : Bytes → Result (Bytes × Bytes)
unfolding split_line strip_crlf
read_line s =
    let (line, rest) = split_line s in
    elim (strip_crlf line) [ none ↦ raise connection_error | some l ↦ ok (l, rest) ]

unfoldable pub read_exact : ℕ → Bytes → Result (Bytes × Bytes)
read_exact size s =
    if leb size (length s) then ok (take size s, drop size s) else raise connection_error

-- `.decode("utf-8")`; a UnicodeDecodeError is a ValueError.
unfoldable pub text_of : Bytes → Result Text
text_of data' = elim (Utf8.decode data') [ none ↦ raise value_error | some s ↦ ok s ]

-- `if read_line(stream) != b""`
unfoldable pub expect_empty : Bytes → Bytes → Result Bytes
expect_empty [] rest = ok rest
expect_empty (_ ∷ _) rest = raise connection_error

-- `message[4:]`, if the message starts with `ERR `.
unfoldable pub without_prefix : Text → Text
without_prefix (a ∷ b ∷ c ∷ d ∷ s) =
    if (a == b'E' && b == b'R') && (c == b'R' && d == b' ') then s else a ∷ b ∷ c ∷ d ∷ s
without_prefix s = s

abbrev null_object : RespObject
null_object = record { kind = null; value = nothing }

-- `value[key] = item`
unfoldable pub put_field : Fields → Text → Value → Fields
put_field end k v = field k v end
put_field (field j w fs) k v = if text_eq j k then field j v fs else field j w (put_field fs k v)

-- `str(value)` of a map's key; the first argument is `str` of a container.
unfoldable pub key_text : (Value → Text) → Value → Text
key_text repr (text t) = t
key_text repr (integer n) = print_int n
key_text repr nothing = codes "None"
key_text repr v = repr v

module _ ⦃P : Platform⦄ where
  -- `int(line.decode("ascii"))`
  unfoldable pub int_of_line : Bytes → Result ℤ
  int_of_line line = elim (is_ascii line) [
    | false ↦ raise value_error
    | true ↦ elim (parse_int line) [ none ↦ raise value_error | some n ↦ ok n ]
  ]

  unfoldable pub read_integer : Bytes → Result (ℤ × Bytes)
  unfolding read_line int_of_line
  read_integer s = do (line, rest) ← read_line s; n ← int_of_line line; ok (n, rest)

  unfoldable pub read_null : Bytes → Result (RespObject × Bytes)
  unfolding read_line expect_empty
  read_null s = do
    (line, rest) ← read_line s
    rest' ← expect_empty line rest
    ok (null_object, rest')

  unfoldable pub read_simple_string : Bytes → Result (RespObject × Bytes)
  unfolding read_line text_of
  read_simple_string s = do
    (line, rest) ← read_line s
    t ← text_of line
    ok (record { kind = simple_string; value = text t }, rest)

  unfoldable pub read_error : Bytes → Result (RespObject × Bytes)
  unfolding read_line text_of without_prefix
  read_error s = do
    (line, rest) ← read_line s
    t ← text_of line
    ok (record { kind = error; value = text (without_prefix t) }, rest)

  unfoldable pub read_number : Bytes → Result (RespObject × Bytes)
  unfolding read_integer
  read_number s = do
    (n, rest) ← read_integer s
    ok (record { kind = number; value = integer n }, rest)

  -- The payload of a blob and the line behind it, which must be empty.
  unfoldable pub read_payload : ℤ → Bytes → Result (RespObject × Bytes)
  unfolding read_exact text_of read_line expect_empty
  read_payload (negsuc _) s = ok (null_object, s)
  read_payload (pos size) s = do
    (payload, rest) ← read_exact size s
    t ← text_of payload
    (line, rest') ← read_line rest
    rest'' ← expect_empty line rest'
    ok (record { kind = blob_string; value = text t }, rest'')

  unfoldable pub read_blob_string : Bytes → Result (RespObject × Bytes)
  unfolding read_integer read_payload
  read_blob_string s = do (size, rest) ← read_integer s; read_payload size rest

  -- `materialize_response_value`
  unfoldable pub materialize : RespObject → Value
  materialize response = elim response.kind [
    | null ↦ nothing
    | simple_string ↦ response.value
    | blob_string ↦ response.value
    | number ↦ response.value
    | error ↦ response.value
    | map ↦ response.value
    | array ↦ response.value
  ]

  -- The loop of a map over a reader of one response; `str` of a key that is a container is a parameter.
  unfoldable pub read_fields :
      (Value → Text)
      → (Bytes → Result (RespObject × Bytes))
      → ℕ
      → Fields
      → Bytes
      → Result (Fields × Bytes)
  unfolding put_field materialize
  read_fields str reader zero fields s = ok (fields, s)
  read_fields str reader (suc n) fields s = do
    (key, rest) ← reader s
    (item, rest') ← reader rest
    read_fields str reader n (put_field fields (str (materialize key)) (materialize item)) rest'

  unfoldable pub read_values :
      (Bytes → Result (RespObject × Bytes)) → ℕ → Bytes → Result (Values × Bytes)
  unfolding materialize
  read_values reader zero s = ok (nil, s)
  read_values reader (suc n) s = do
    (item, rest) ← reader s
    (values, rest') ← read_values reader n rest
    ok (cons (materialize item) values, rest')

  -- `range(count)` of a negative count is empty.
  abbrev repeats : ℤ → ℕ
  repeats (pos n) = n
  repeats (negsuc _) = 0

  unfoldable pub read_map :
      (Value → Text) → (Bytes → Result (RespObject × Bytes)) → Bytes → Result (RespObject × Bytes)
  unfolding read_integer read_fields
  read_map str reader s = do
    (item_count, rest) ← read_integer s
    (fields, rest') ← read_fields str reader (repeats item_count) end rest
    ok (record { kind = map; value = dict fields }, rest')

  unfoldable pub read_counted :
      (Bytes → Result (RespObject × Bytes)) → ℤ → Bytes → Result (RespObject × Bytes)
  unfolding read_values
  read_counted reader (negsuc _) s = ok (null_object, s)
  read_counted reader (pos n) s = do
    (values, rest) ← read_values reader n s
    ok (record { kind = array; value = list values }, rest)

  unfoldable pub read_array :
      (Bytes → Result (RespObject × Bytes)) → Bytes → Result (RespObject × Bytes)
  unfolding read_integer read_counted
  read_array reader s = do (item_count, rest) ← read_integer s; read_counted reader item_count rest

  -- The number is how many more nested calls fit on the stack.
  unfoldable pub read_response : (Value → Text) → ℕ → Bytes → Result (RespObject × Bytes)
  unfolding read_simple_string read_error read_number read_null read_blob_string read_map read_array
      key_text
  read_response repr zero s = raise recursion_error
  read_response repr (suc depth) [] = raise connection_error
  read_response repr (suc depth) (prefix ∷ s) =
      if prefix == b'+'
      then read_simple_string s
      else if prefix == b'-'
      then read_error s
      else if prefix == b':'
      then read_number s
      else if prefix == b'_'
      then read_null s
      else if prefix == b'$'
      then read_blob_string s
      else if prefix == b'%'
      then read_map (key_text repr) (read_response repr depth) s
      else if prefix == b'*'
      then read_array (read_response repr depth) s
      else raise connection_error
