-- ===== src/Cli/Requests/Texts.antt =====
-- The client's frames before they are encoded: the texts that the server's decoder reads.
use mini_redis_test_app.Prelude.{◌≤◌, List, [], ◌∷◌, ◌++◌, length, All}
use mini_redis_test_app.Cli.{crlf}
use mini_redis_test_app.Text.{Text}
use mini_redis_test_app.Text.Decimal.{print_nat, max_str_digits}
use mini_redis_test_app.Text.Utf8
use mini_redis_test_app.Text.Utf8.{IsAscii}

-- The frames of the arguments as texts, in front of a text.
abbrev pub blob_text : Text → Text → Text
blob_text s rest = b'$' ∷ (print_nat (length (Utf8.encode s)) ++ (crlf ++ (s ++ (crlf ++ rest))))

abbrev pub blob_texts : List Text → Text
blob_texts [] = []
blob_texts (s ∷ ss) = blob_text s (blob_texts ss)

-- A text whose length in bytes `int` reads back.
abbrev pub IsPrintable : Text → Type 0
IsPrintable s = length (print_nat (length (Utf8.encode s))) ≤ max_str_digits

-- An argument of ASCII characters.
abbrev pub IsPlain : Text → Type 0
IsPlain s = All IsAscii s × IsPrintable s

abbrev pub array_text : List Text → Text
array_text parts = b'*' ∷ (print_nat (length parts) ++ (crlf ++ blob_texts parts))
