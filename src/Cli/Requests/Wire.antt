-- ===== src/Cli/Requests/Wire.antt =====
-- The client's bytes are the encoding of the frames' texts.
use mini_redis_test_app.Prelude.{
  ℕ, suc, ◌≡◌, refl, ap, List, [], ◌∷◌, ◌++◌, append_assoc, inl, map, length, All, All-append,
  All-weaken, arith,
}
use mini_redis_test_app.Cli.{
  text, crlf, encode_blob_string, encode_item, encode_payload, encode_array,
}
use mini_redis_test_app.Text.{Text}
use mini_redis_test_app.Text.Decimal.{print_nat, print_nat-IsDigit, IsDigit}
use mini_redis_test_app.Text.Utf8
use mini_redis_test_app.Text.Utf8.{
  Bytes, IsScalar, IsAscii, encode-append, encode_ascii, decode-encode, length-encode_lt,
}
use mini_redis_test_app.Cli.Requests.Texts.{blob_text, blob_texts, array_text}

-- The bytes on the wire are the encoded text.
encode_digits :
    (n : ℕ) (rest : Text) → Utf8.encode (print_nat n ++ rest) ≡ print_nat n ++ Utf8.encode rest
encode_digits n rest =
    let ascii = All-weaken (λ c (h : IsDigit c). omega arith) (print_nat n) (print_nat-IsDigit n) in
    rw (encode-append (print_nat n) rest, encode_ascii (print_nat n) ascii) refl

encode-crlf : (rest : Text) → Utf8.encode (crlf ++ rest) ≡ crlf ++ Utf8.encode rest
unfolding Utf8.encode Utf8.encode_char
encode-crlf rest = refl

encode_head : (c : ℕ) (rest : Text) → IsAscii c → Utf8.encode (c ∷ rest) ≡ c ∷ Utf8.encode rest
unfolding Utf8.encode Utf8.encode_char
encode_head c rest h = ground arith

encode-blob_text :
    (s rest : Text) → encode_blob_string s ++ Utf8.encode rest ≡ Utf8.encode (blob_text s rest)
unfolding encode_blob_string
encode-blob_text s rest =
    let n = length (Utf8.encode s) in
    rw
      (
        encode_head b'$' (print_nat n ++ (crlf ++ (s ++ (crlf ++ rest)))) (omega arith),
        encode_digits n (crlf ++ (s ++ (crlf ++ rest))),
        encode-crlf (s ++ (crlf ++ rest)),
        encode-append s (crlf ++ rest),
        encode-crlf rest,
        append_assoc,
        append_assoc,
        append_assoc,
      )
      refl

encode-blob_texts :
    (parts : List Text) → encode_payload (map text parts) ≡ Utf8.encode (blob_texts parts)
unfolding encode_payload encode_item
encode-blob_texts [] = unfold Utf8.encode in refl
encode-blob_texts (s ∷ parts) = rw (encode-blob_texts parts) (encode-blob_text s (blob_texts parts))

length-map : (parts : List Text) → length (map text parts) ≡ length parts
length-map [] = refl
length-map (s ∷ parts) = ap suc (length-map parts)

pub encode-array_text :
    (parts : List Text) → encode_array (map text parts) ≡ Utf8.encode (array_text parts)
unfolding encode_array
encode-array_text parts =
    rw
      (
        encode_head b'*' (print_nat (length parts) ++ (crlf ++ blob_texts parts)) (omega arith),
        encode_digits (length parts) (crlf ++ blob_texts parts),
        encode-crlf (blob_texts parts),
        length-map parts,
        encode-blob_texts parts,
      )
      refl

pub plain-IsScalar : (s : Text) → All IsAscii s → All IsScalar s
plain-IsScalar s = All-weaken (λ c (h : IsAscii c). inl (omega arith)) s

line-IsScalar :
    (n : ℕ) (rest : Text) → All IsScalar rest → All IsScalar (print_nat n ++ (crlf ++ rest))
line-IsScalar n rest h =
    let digits_scalar =
      All-weaken (λ c (d : IsDigit c). inl (omega arith)) (print_nat n) (print_nat-IsDigit n) in
    All-append IsScalar (print_nat n) (crlf ++ rest) digits_scalar
      (inl (omega arith), (inl (omega arith), h))

blob_texts-IsScalar :
    (parts : List Text) → All (All IsScalar) parts → All IsScalar (blob_texts parts)
blob_texts-IsScalar [] h = tt
blob_texts-IsScalar (s ∷ parts) h =
    let rest = blob_texts-IsScalar parts h.1 in
    let body =
      All-append IsScalar s (crlf ++ blob_texts parts) h.0
        (inl (omega arith), (inl (omega arith), rest)) in
    (
      inl (omega arith),
      line-IsScalar (length (Utf8.encode s)) (s ++ (crlf ++ blob_texts parts)) body,
    )

pub array_text-IsScalar :
    (parts : List Text) → All (All IsScalar) parts → All IsScalar (array_text parts)
array_text-IsScalar parts h = (
  inl (omega arith),
  line-IsScalar (length parts) (blob_texts parts) (blob_texts-IsScalar parts h),
)
