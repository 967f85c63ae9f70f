-- ===== src/Cli.antt =====
-- cmd/mini_redis_cli/main.py: the frames that the command-line client sends.
pub mod Requests
pub mod Responses
pub mod Render
use mini_redis_test_app.Prelude.{ℕ, List, [], ◌∷◌, ◌++◌, length, map}
use mini_redis_test_app.Prelude.Int.{ℤ, pos}
use mini_redis_test_app.Text.{Text, codes}
use mini_redis_test_app.Text.Decimal.{print_nat, print_int}
use mini_redis_test_app.Text.Utf8
use mini_redis_test_app.Text.Utf8.{Bytes}

abbrev pub crlf : Bytes
crlf = 13 ∷ 10 ∷ []

-- `str | int`
pub data Item : Type 0 where
  text : Text → Item
  integer : ℤ → Item

-- `str(n).encode("ascii")` is the text itself.
unfoldable pub encode_blob_string : Text → Bytes
encode_blob_string value =
    let encoded = Utf8.encode value in
    b'$' ∷ (print_nat (length encoded) ++ (crlf ++ (encoded ++ crlf)))

unfoldable pub encode_number : ℤ → Bytes
encode_number value = b':' ∷ (print_int value ++ crlf)

unfoldable pub encode_item : Item → Bytes
unfolding encode_blob_string encode_number
encode_item (text s) = encode_blob_string s
encode_item (integer n) = encode_number n

unfoldable pub encode_payload : List Item → Bytes
unfolding encode_item
encode_payload [] = []
encode_payload (item ∷ items) = encode_item item ++ encode_payload items

unfoldable pub encode_array : List Item → Bytes
unfolding encode_payload
encode_array items = b'*' ∷ (print_nat (length items) ++ (crlf ++ encode_payload items))

unfoldable pub build_hello_frame : Bytes
unfolding encode_array
build_hello_frame = encode_array (text (codes "HELLO") ∷ integer (pos 3) ∷ [])

unfoldable pub build_command_frame : Text → List Text → Bytes
unfolding encode_array
build_command_frame command arguments = encode_array (map text (command ∷ arguments))
