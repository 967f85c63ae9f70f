-- ===== src/Cli/Requests/Items.antt =====
-- The decoder on the frames' texts: cmd/mini_redis_cli/main.py and request_decoder.py.
use mathlib.Core.Path.{subst}
use mini_redis_test_app.Prelude.{
  ℕ, suc, ◌+◌, ◌≤◌, ◌<◌, ◌≡◌, refl, true, false, some, List, [], ◌∷◌, ◌++◌, map, length,
  length-append, drop, take-append, drop-append, All, arith, leb,
}
use mini_redis_test_app.Cli.{crlf}
use mini_redis_test_app.Platform.{Platform}
use mini_redis_test_app.Resp.{blob_string}
use mini_redis_test_app.Resp.Decoder
use mini_redis_test_app.Resp.Decoder.{
  protocol_error, find_crlf, read_line, natural, take_blob, starts_crlf, decode_blob_string,
  decode_items, decode_array, decode_value, whole_array, decode_text, decode,
}
use mini_redis_test_app.Result.{ok}
use mini_redis_test_app.Text.{Text}
use mini_redis_test_app.Text.Decimal.{
  print_nat, parse_int-print_nat, print_nat-IsDigit, IsDigit, max_str_digits,
}
use mini_redis_test_app.Text.Utf8
use mini_redis_test_app.Text.Utf8.{
  Bytes, IsScalar, IsAscii, encode-append, encode_ascii, decode-encode, length-encode_lt,
}
use mini_redis_test_app.Cli.Requests.Texts.{blob_text, blob_texts, IsPrintable, IsPlain}

-- The first CRLF behind a text of digits is the one that ends it.
find_crlf-digits :
    (line rest : Text) → All IsDigit line → find_crlf (line ++ (crlf ++ rest)) ≡ some (line, rest)
unfolding find_crlf
find_crlf-digits [] rest h = refl
find_crlf-digits (c ∷ []) rest h = ground arith
find_crlf-digits (c ∷ d ∷ line) rest h = ground (arith, find_crlf-digits (d ∷ line) rest h.1)

module _ ⦃P : Platform⦄ where
  -- Reading a printed number that a line ends.
  pub read_natural : (n : ℕ) → length (print_nat n) ≤ max_str_digits → natural (print_nat n) ≡ ok n
  unfolding natural Decoder.integer
  read_natural n fits = rw (natural, Decoder.integer, parse_int-print_nat n fits) refl

  pub read_line-print_nat :
      (n : ℕ) (rest : Text) → read_line (print_nat n ++ (crlf ++ rest)) ≡ ok (print_nat n, rest)
  unfolding read_line
  read_line-print_nat n rest =
      rw (read_line, find_crlf-digits (print_nat n) rest (print_nat-IsDigit n)) refl

  drop_frame : (s rest : Text) → drop (length s + 2) (s ++ (crlf ++ rest)) ≡ rest
  drop_frame [] rest = refl
  drop_frame (c ∷ s) rest =
      let step : suc (length s) + 2 ≡ suc (length s + 2) = omega arith in
      rw (step) (drop_frame s rest)

  frame_fits : (s rest : Text) → leb (length s + 2) (length (s ++ (crlf ++ rest))) ≡ true
  frame_fits s rest = ground (arith, length-append s (crlf ++ rest))

  -- A blob of `n` characters as the decoder counts them.
  take_blob-exact :
      (s rest : Text) → take_blob (length s) (s ++ (crlf ++ rest)) ≡ ok (blob_string s, rest)
  unfolding take_blob
  take_blob-exact s rest =
      rw
        (
          take_blob,
          frame_fits s rest,
          drop-append s (crlf ++ rest),
          take-append s (crlf ++ rest),
          drop_frame s rest,
        )
        refl

  -- The item that a blob's frame decodes to, in front of any text.
  decode_blob-exact :
      (s rest : Text)
      → length (print_nat (length s)) ≤ max_str_digits
      → decode_blob_string (print_nat (length s) ++ (crlf ++ (s ++ (crlf ++ rest))))
        ≡ ok (blob_string s, rest)
  unfolding decode_blob_string
  decode_blob-exact s rest fits =
      rw
        (
          decode_blob_string,
          read_line-print_nat (length s) (s ++ (crlf ++ rest)),
          read_natural (length s) fits,
        )
        (take_blob-exact s rest)

  -- A blob longer than what the text has in front of its last CRLF.
  take_blob-short :
      (n : ℕ) (s : Text) → length s < n → take_blob n (s ++ (crlf ++ [])) ≡ protocol_error
  unfolding take_blob
  take_blob-short n s h =
      let short : leb (n + 2) (length (s ++ (crlf ++ []))) ≡ false =
        ground (arith, length-append s (crlf ++ [])) in
      rw short refl

  decode_blob-short :
      (n : ℕ) (s : Text)
      → length s < n
      → length (print_nat n) ≤ max_str_digits
      → decode_blob_string (print_nat n ++ (crlf ++ (s ++ (crlf ++ [])))) ≡ protocol_error
  unfolding decode_blob_string
  decode_blob-short n s h fits =
      rw (decode_blob_string, read_line-print_nat n (s ++ (crlf ++ [])), read_natural n fits)
        (take_blob-short n s h)

module _ ⦃P : Platform⦄ where
  decode_value-blob :
      (depth : ℕ) (s rest : Text)
      → IsPlain s
      → decode_value (suc depth) (blob_text s rest) ≡ ok (blob_string s, rest)
  unfolding decode_value
  decode_value-blob depth s rest (ascii, fits) =
      let same = encode_ascii s ascii in
      rw same (
        decode_blob-exact s rest
          (subst (λ t. length (print_nat (length t)) ≤ max_str_digits) same fits))

  pub decode_items-blobs :
      (depth : ℕ) (parts : List Text)
      → All IsPlain parts
      → decode_items (decode_value (suc depth)) (length parts) (blob_texts parts)
        ≡ ok (map blob_string parts, [])
  unfolding decode_items
  decode_items-blobs depth [] h = refl
  decode_items-blobs depth (s ∷ parts) h =
      rw (decode_value-blob depth s (blob_texts parts) h.0, decode_items-blobs depth parts h.1) refl

  -- The last argument has a character outside ASCII.
  pub decode_items-wide :
      (depth : ℕ) (parts : List Text) (s t : Text) (c : ℕ)
      → All IsPlain parts
      → 0x80 ≤ c
      → IsPrintable (s ++ c ∷ t)
      → decode_items
          (decode_value (suc depth))
          (length (parts ++ (s ++ c ∷ t) ∷ []))
          (blob_texts (parts ++ (s ++ c ∷ t) ∷ []))
        ≡ protocol_error
  unfolding decode_items decode_value
  decode_items-wide depth [] s t c h wide fits =
      rw
        (decode_blob-short (length (Utf8.encode (s ++ c ∷ t))) (s ++ c ∷ t)
          (length-encode_lt s t c wide) fits)
        refl
  decode_items-wide depth (p ∷ parts) s t c h wide fits =
      let rest = blob_texts (parts ++ (s ++ c ∷ t) ∷ []) in
      rw (decode_value-blob depth p rest h.0, decode_items-wide depth parts s t c h.1 wide fits)
        refl
