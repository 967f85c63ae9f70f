-- ===== src/Resp/Encoder.antt =====
-- internal/protocol/resp/response_encoder.py. The first argument is `protocol_version`.
use mini_redis_test_app.Prelude.{ℕ, Bool, false, [], ◌∷◌, ◌++◌, ◌==◌, length, if◌then◌else◌}
use mini_redis_test_app.Prelude.Int.{ℤ, pos, negsuc}
use mini_redis_test_app.Resp.{
  RespValue, RespItems, RespEntries, simple_string, blob_string, simple_error, number, null, array,
  map, boolean, nil, cons, end, entry, count_items, count_entries, resp_err_prefix,
}
use mini_redis_test_app.Text.{Text, codes}
use mini_redis_test_app.Text.Decimal.{print_nat, print_int}
use mini_redis_test_app.Text.Utf8
use mini_redis_test_app.Text.Utf8.{Bytes}

abbrev pub crlf : Bytes
crlf = 13 ∷ 10 ∷ []

-- One prefix byte, a text and CRLF.
unfoldable pub line : ℕ → Text → Bytes
line prefix s = prefix ∷ (Utf8.encode s ++ crlf)

unfoldable pub encode_blob : Text → Bytes
unfolding line
encode_blob s =
    let payload = Utf8.encode s in line b'$' (print_nat (length payload)) ++ payload ++ crlf

-- `protocol_version == 2`
unfoldable pub is_resp2 : ℤ → Bool
is_resp2 (pos n) = n == 2
is_resp2 (negsuc n) = false

-- `flattened_items`
abbrev pub flattened_items : RespEntries → RespItems
flattened_items end = nil
flattened_items (entry k v es) = cons k (cons v (flattened_items es))

unfoldable mutual
  unfolding line encode_blob is_resp2

  pub encode : ℤ → RespValue → Bytes
  encode version (simple_string s) = line b'+' s
  encode version (blob_string s) = encode_blob s
  encode version (number n) = line b':' (print_int n)
  encode version null = if is_resp2 version then line b'$' (codes "-1") else b'_' ∷ crlf
  encode version (simple_error message) = line b'-' (codes resp_err_prefix ++ b' ' ∷ message)
  encode version (boolean b) =
      if is_resp2 version
      then line b':' (print_nat (if b then 1 else 0))
      else b'#' ∷ (if b then b't' else b'f') ∷ crlf
  encode version (array items) =
      line b'*' (print_nat (count_items items)) ++ encode_items version items
  encode version (map entries) =
      -- RESP2 has no maps: what goes out is the array of `flattened_items`, whose items are the
      -- keys and the values in turn.
      if is_resp2 version
      then (line b'*' (print_nat (count_items (flattened_items entries)))
          ++ encode_entries version entries)
      else (line b'%' (print_nat (count_entries entries)) ++ encode_entries version entries)

  pub encode_items : ℤ → RespItems → Bytes
  encode_items version nil = []
  encode_items version (cons v vs) = encode version v ++ encode_items version vs

  pub encode_entries : ℤ → RespEntries → Bytes
  encode_entries version end = []
  encode_entries version (entry k v es) =
      encode version k ++ encode version v ++ encode_entries version es
