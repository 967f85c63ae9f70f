-- ===== src/Cli/Requests.antt =====
-- What the server's decoder makes of the client's frames.
pub mod Texts
mod Items
mod Wire
use mathlib.Core.Path.{subst}
use mini_redis_test_app.Prelude.{
  ℕ, zero, suc, ◌+◌, ◌≤◌, ◌<◌, ◌≡◌, ◌≢◌, refl, sym, ap, ◌∙◌, Bool, true, false, Option, none, some,
  List, [], ◌∷◌, ◌++◌, append_assoc, inl, map, length, length-append, take, drop, take-append,
  drop-append, All, All-append, All-weaken, arith, ◌==◌, leb, if◌then◌else◌,
}
use mini_redis_test_app.Prelude.Int.{ℤ, pos}
use mini_redis_test_app.Cli.{
  Item, text, integer, crlf, encode_blob_string, encode_item, encode_payload, encode_array,
  build_command_frame,
}
use mini_redis_test_app.Platform.{Platform}
use mini_redis_test_app.Resp.{RespValue, RespItems, blob_string, array, items_of}
use mini_redis_test_app.Resp.Decoder
use mini_redis_test_app.Resp.Decoder.{
  protocol_error, find_crlf, read_line, natural, take_blob, starts_crlf, decode_blob_string,
  decode_items, decode_array, decode_value, whole_array, decode_text, decode,
}
use mini_redis_test_app.Result.{Result, ok, raise, ◌>>=◌}
use mini_redis_test_app.Text.{Text, codes}
use mini_redis_test_app.Text.Decimal.{
  print_nat, parse_int, parse_int-print_nat, print_nat-IsDigit, IsDigit, max_str_digits,
}
use mini_redis_test_app.Text.Utf8
use mini_redis_test_app.Text.Utf8.{
  Bytes, IsScalar, IsAscii, encode-append, encode_ascii, decode-encode, length-encode_lt,
}
use mini_redis_test_app.Cli.Requests.Texts.{blob_text, blob_texts, array_text, IsPrintable, IsPlain}
use mini_redis_test_app.Cli.Requests.Items.{
  read_line-print_nat, read_natural, decode_items-blobs, decode_items-wide,
}
use mini_redis_test_app.Cli.Requests.Wire.{encode-array_text, array_text-IsScalar, plain-IsScalar}

module _ ⦃P : Platform⦄ where
  -- The decoder sees the frame's text.
  decode-encode_array :
      (parts : List Text)
      → All (All IsScalar) parts
      → decode (encode_array (map text parts)) ≡ decode_text (array_text parts)
  unfolding decode
  decode-encode_array parts h =
      rw
        (
          encode-array_text parts,
          decode,
          decode-encode (array_text parts) (array_text-IsScalar parts h),
        )
        refl

  decode_array-items :
      (item : Text → Result (RespValue × Text)) (n : ℕ) (rest : Text)
      → length (print_nat n) ≤ max_str_digits
      → decode_array item (print_nat n ++ (crlf ++ rest))
        ≡ (decode_items item n rest >>= λ found. ok (array (items_of found.0), found.1))
  unfolding decode_array
  decode_array-items item n rest fits =
      rw (decode_array, read_line-print_nat n rest, read_natural n fits) refl

  decode_value-array :
      (n : ℕ) (rest : Text) {depth : ℕ}
      → n ≡ suc (suc depth)
      → decode_value n (b'*' ∷ rest) ≡ decode_array (decode_value (suc depth)) rest
  unfolding decode_value
  decode_value-array n rest e = rw (e) refl

  -- The server decodes the frame that the client builds of a command and its arguments to those
  -- texts, in order, if all of them are ASCII, their lengths and their number have at most 4300
  -- digits, and two nested calls fit on the stack.
  pub decode-build_command_frame :
      (command : Text) (arguments : List Text) {depth : ℕ}
      → P.max_depth ≡ suc (suc depth)
      → All IsPlain (command ∷ arguments)
      → length (print_nat (length (command ∷ arguments))) ≤ max_str_digits
      → decode (build_command_frame command arguments)
        ≡ ok (items_of (map blob_string (command ∷ arguments)))
  unfolding build_command_frame decode_text whole_array
  decode-build_command_frame command arguments {depth} deep plain fits =
      let parts = command ∷ arguments in
      let scalar = All-weaken (λ s (h : IsPlain s). plain-IsScalar s h.0) parts plain in
      rw
        (
          decode-encode_array parts scalar,
          decode_text,
          decode_value-array P.max_depth (print_nat (length parts) ++ (crlf ++ blob_texts parts))
              deep,
          decode_array-items (decode_value (suc depth)) (length parts) (blob_texts parts) fits,
          decode_items-blobs depth parts plain,
        )
        refl

  -- If the last argument has a character outside ASCII and the command and the other arguments are
  -- ASCII, all being scalar values, with lengths and a number of at most 4300 digits, and two
  -- nested calls fit on the stack, then the server refuses the client's frame with a protocol
  -- error: the client counts bytes, the decoder characters.
  pub decode-build_command_frame_wide :
      (command : Text) (arguments : List Text) (s t : Text) (c : ℕ) {depth : ℕ}
      → P.max_depth ≡ suc (suc depth)
      → All IsPlain (command ∷ arguments)
      → All IsScalar (s ++ c ∷ t)
      → 0x80 ≤ c
      → IsPrintable (s ++ c ∷ t)
      → length (print_nat (length (command ∷ arguments ++ (s ++ c ∷ t) ∷ []))) ≤ max_str_digits
      → decode (build_command_frame command (arguments ++ (s ++ c ∷ t) ∷ [])) ≡ protocol_error
  unfolding build_command_frame decode_text
  decode-build_command_frame_wide command arguments s t c {depth} deep plain last wide fits count =
      let parts = command ∷ arguments ++ (s ++ c ∷ t) ∷ [] in
      let front =
        All-weaken (λ p (h : IsPlain p). plain-IsScalar p h.0) (command ∷ arguments) plain in
      let scalar =
        All-append (All IsScalar) (command ∷ arguments) ((s ++ c ∷ t) ∷ []) front (last, tt) in
      rw
        (
          decode-encode_array parts scalar,
          decode_text,
          decode_value-array P.max_depth (print_nat (length parts) ++ (crlf ++ blob_texts parts))
              deep,
          decode_array-items (decode_value (suc depth)) (length parts) (blob_texts parts) count,
          decode_items-wide depth (command ∷ arguments) s t c plain wide fits,
        )
        refl
