-- ===== src/Cli/Responses/Blobs.antt =====
-- The client reads back the strings that the server encodes: main.py and response_encoder.py.
use mini_redis_test_app.Prelude.{
  ℕ, suc, ◌≤◌, ◌≡◌, refl, true, some, [], ◌∷◌, ◌++◌, append_assoc, All, All-weaken, leb, length,
  length-append, take-append, drop-append, arith,
}
use mini_redis_test_app.Prelude.Int.{ℤ, pos}
use mini_redis_test_app.Cli.Responses.{
  Value, text, blob_string, split_line, strip_crlf, read_line, read_exact, text_of, expect_empty,
  int_of_line, read_integer, read_payload, read_blob_string, read_response,
}
use mini_redis_test_app.Platform.{Platform}
use mini_redis_test_app.Resp
use mini_redis_test_app.Resp.Encoder
use mini_redis_test_app.Resp.Encoder.{crlf}
use mini_redis_test_app.Result.{ok}
use mini_redis_test_app.Text.{Text}
use mini_redis_test_app.Text.Casing.{is_ascii}
use mini_redis_test_app.Text.Decimal.{
  print_nat, parse_int-print_nat, print_nat-IsDigit, IsDigit, max_str_digits,
}
use mini_redis_test_app.Text.Utf8
use mini_redis_test_app.Text.Utf8.{Bytes, IsScalar, IsAscii, encode_ascii, decode-encode}

split_line-digits :
    (line rest : Bytes)
    → All IsDigit line
    → split_line (line ++ (crlf ++ rest)) ≡ (line ++ crlf, rest)
unfolding split_line
split_line-digits [] rest h = refl
split_line-digits (c ∷ line) rest h = ground (arith, split_line-digits line rest h.1)

strip_crlf-digits : (line : Bytes) → strip_crlf (line ++ crlf) ≡ some line
unfolding strip_crlf
strip_crlf-digits [] = refl
strip_crlf-digits (a ∷ []) = refl
strip_crlf-digits (a ∷ b ∷ []) = refl
strip_crlf-digits (a ∷ b ∷ c ∷ line) = rw (strip_crlf-digits (b ∷ c ∷ line)) refl

is_ascii-digits : (line : Bytes) → All IsDigit line → is_ascii line ≡ true
unfolding is_ascii
is_ascii-digits [] h = refl
is_ascii-digits (c ∷ line) h = ground (arith, is_ascii-digits line h.1)

read_line-digits :
    (line rest : Bytes) → All IsDigit line → read_line (line ++ (crlf ++ rest)) ≡ ok (line, rest)
unfolding read_line
read_line-digits line rest h =
    rw
      (
        read_line,
        split_line-digits line rest h,
        strip_crlf-digits line,
        split_line-digits line rest h,
      )
      refl

module _ ⦃P : Platform⦄ where
  read_integer-print_nat :
      (n : ℕ) (rest : Bytes)
      → length (print_nat n) ≤ max_str_digits
      → read_integer (print_nat n ++ (crlf ++ rest)) ≡ ok (pos n, rest)
  unfolding read_integer int_of_line
  read_integer-print_nat n rest fits =
      rw
        (
          read_integer,
          read_line-digits (print_nat n) rest (print_nat-IsDigit n),
          int_of_line,
          is_ascii-digits (print_nat n) (print_nat-IsDigit n),
          parse_int-print_nat n fits,
        )
        refl

  read_payload-encode :
      (v : Text) (rest : Bytes)
      → All IsScalar v
      → read_payload (pos (length (Utf8.encode v))) (Utf8.encode v ++ (crlf ++ rest))
        ≡ ok (record { kind = blob_string; value = text v }, rest)
  unfolding read_payload read_exact text_of expect_empty read_line split_line strip_crlf
  read_payload-encode v rest scalar =
      let payload = Utf8.encode v in
      let enough : leb (length payload) (length (payload ++ (crlf ++ rest))) ≡ true =
        ground (arith, length-append payload (crlf ++ rest)) in
      rw
        (
          read_payload,
          read_exact,
          enough,
          take-append payload (crlf ++ rest),
          drop-append payload (crlf ++ rest),
          text_of,
          decode-encode v scalar,
        )
        refl

  -- The length of the text in bytes, which is what the frame says.
  abbrev size_of : Text → ℕ
  size_of v = length (Utf8.encode v)

  encode-line :
      (n : ℕ) (rest : Bytes)
      → Encoder.line b'$' (print_nat n) ++ rest ≡ b'$' ∷ (print_nat n ++ (crlf ++ rest))
  unfolding Encoder.line
  encode-line n rest =
      let ascii =
        All-weaken (λ c (h : IsDigit c). omega arith) (print_nat n) (print_nat-IsDigit n) in
      rw (Encoder.line, encode_ascii (print_nat n) ascii, append_assoc) refl

  encode-blob :
      (version : ℤ) (v : Text) (rest : Bytes)
      → Encoder.encode version (Resp.blob_string v) ++ rest
        ≡ b'$' ∷ (print_nat (size_of v) ++ (crlf ++ (Utf8.encode v ++ (crlf ++ rest))))
  unfolding Encoder.encode Encoder.encode_blob
  encode-blob version v rest =
      rw (append_assoc, append_assoc, encode-line (size_of v) (Utf8.encode v ++ (crlf ++ rest)))
        refl

  -- Whatever the protocol version and whatever follows: the client reads back every text of scalar
  -- values that the server sends as a blob string, ASCII or not, if its length in bytes has at
  -- most 4300 digits, and leaves the rest of the stream.
  pub read_response-encode :
      (repr : Value → Text) (depth : ℕ) (version : ℤ) (v : Text) (rest : Bytes)
      → All IsScalar v
      → length (print_nat (size_of v)) ≤ max_str_digits
      → read_response repr (suc depth) (Encoder.encode version (Resp.blob_string v) ++ rest)
        ≡ ok (record { kind = blob_string; value = text v }, rest)
  unfolding read_response read_blob_string
  read_response-encode repr depth version v rest scalar fits =
      rw
        (
          encode-blob version v rest,
          read_blob_string,
          read_integer-print_nat (size_of v) (Utf8.encode v ++ (crlf ++ rest)) fits,
        )
        (read_payload-encode v rest scalar)
