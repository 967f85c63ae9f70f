-- ===== src/Text/Utf8.antt =====
-- `s.encode("utf-8")` and `b.decode("utf-8")`, the strict codec.
use mini_redis_test_app.Prelude.{
  ℕ, zero, suc, ◌+◌, ◌-◌, ◌*◌, ◌/◌, ◌%◌, ◌≤◌, ◌<◌, ◌≡◌, refl, ◌⊎◌, Bool, ◌&&◌, ◌||◌, Option, none,
  some, List, [], ◌∷◌, ◌++◌, length, arith, leb, ltb, if◌then◌else◌, All, Bool-cases, inl, inr,
  ltb→lt, ◌∙◌, append_assoc, length-append,
}
use mini_redis_test_app.Text.{Text}

abbrev pub Bytes : Type 0
Bytes = List ℕ

unfoldable pub encode_char : ℕ → Bytes
encode_char c =
    if ltb c 0x80
    then c ∷ []
    else if ltb c 0x800
    then (0xC0 + c / 64) ∷ (0x80 + c % 64) ∷ []
    else if ltb c 0x10000
    then (0xE0 + c / 4096) ∷ (0x80 + c / 64 % 64) ∷ (0x80 + c % 64) ∷ []
    else (0xF0 + c / 262144) ∷ (0x80 + c / 4096 % 64) ∷ (0x80 + c / 64 % 64) ∷ (0x80 + c % 64) ∷ []

-- No text that the decoder below returns holds a surrogate, on which Python's codec raises.
unfoldable pub encode : Text → Bytes
unfolding encode_char
encode [] = []
encode (c ∷ s) = encode_char c ++ encode s

is_scalar : ℕ → Bool
is_scalar c = ltb c 0xD800 || (leb 0xE000 c && leb c 0x10FFFF)

-- What a first byte says: how many bytes follow, its own bits, the least code point allowed.
pub record Lead : Type 0 where
  pub more : ℕ
  pub bits : ℕ
  pub least : ℕ

lead : ℕ → Option Lead
lead b =
    if ltb b 0x80
    then some (record { more = 0; bits = b; least = 0 })
    else if ltb b 0xC0
    then none
    else if ltb b 0xE0
    then some (record { more = 1; bits = b - 0xC0; least = 0x80 })
    else if ltb b 0xF0
    then some (record { more = 2; bits = b - 0xE0; least = 0x800 })
    else if ltb b 0xF8
    then some (record { more = 3; bits = b - 0xF0; least = 0x10000 })
    else none

push : ℕ → Option Text → Option Text
push c none = none
push c (some s) = some (c ∷ s)

-- `more` continuation bytes are due; `bits` is the value of those read.
scan : ℕ → ℕ → ℕ → Bytes → Option Text
unfolding lead push is_scalar
scan zero bits least [] = some []
scan (suc more) bits least [] = none
scan zero bits least (b ∷ s) = elim (lead b) [
  | none ↦ none
  | some l ↦ elim l.more [
    | zero ↦ push b (scan zero 0 0 s)
    | suc more ↦ scan (suc more) l.bits l.least s
  ]
]
scan (suc more) bits least (b ∷ s) =
    if leb 0x80 b && ltb b 0xC0
    then (let value = bits * 64 + (b - 0x80) in
        elim more [
          | zero ↦ if leb least value && is_scalar value then push value (scan zero 0 0 s) else none
          | suc m ↦ scan (suc m) value least s
        ])
    else none

unfoldable pub decode : Bytes → Option Text
unfolding scan
decode s = scan zero 0 0 s

-- A Unicode scalar value: a code point that is no surrogate.
abbrev pub IsScalar : ℕ → Type 0
IsScalar c = (c < 0xD800) ⊎ ((0xE000 ≤ c) × (c ≤ 0x10FFFF))

scan_single : (b : ℕ) (s : Bytes) → b < 0x80 → scan zero 0 0 (b ∷ s) ≡ push b (scan zero 0 0 s)
unfolding scan
scan_single b s h = ground arith

scan_first :
    (b : ℕ) (s : Bytes) (k bits least : ℕ)
    → lead b ≡ some (record { more = suc k; bits = bits; least = least })
    → scan zero 0 0 (b ∷ s) ≡ scan (suc k) bits least s
unfolding scan
scan_first b s k bits least h = cc

scan_middle :
    (b : ℕ) (s : Bytes) (k bits least : ℕ)
    → b < 64
    → scan (suc (suc k)) bits least ((0x80 + b) ∷ s) ≡ scan (suc k) (bits * 64 + b) least s
unfolding scan
scan_middle b s k bits least h = ground arith

scan_last :
    (b : ℕ) (s : Bytes) (bits least c : ℕ)
    → b < 64
    → bits * 64 + b ≡ c
    → least ≤ c
    → IsScalar c
    → scan 1 bits least ((0x80 + b) ∷ s) ≡ push c (scan zero 0 0 s)
unfolding scan
scan_last b s bits least c h e l sc = ground arith

scan-encode_char :
    (c : ℕ) (s : Bytes) → IsScalar c → scan zero 0 0 (encode_char c ++ s) ≡ push c (scan zero 0 0 s)
unfolding encode_char lead
scan-encode_char c s h = elim (Bool-cases (ltb c 0x80)) [
  | inl one ↦ rw one (scan_single c s (ltb→lt c _ one))
  | inr many ↦ rw many (elim (Bool-cases (ltb c 0x800)) [
    | inl two ↦ rw two (
        scan_first (0xC0 + c / 64) _ 0 (c / 64) 0x80 (ground arith)
        ∙ scan_last (c % 64) s (c / 64) 0x80 c (omega arith) (omega arith) (ground arith) h)
    | inr more ↦ rw more (elim (Bool-cases (ltb c 0x10000)) [
      | inl three ↦ rw three (
          scan_first (0xE0 + c / 4096) _ 1 (c / 4096) 0x800 (ground arith)
          ∙ scan_middle (c / 64 % 64) _ 0 (c / 4096) 0x800 (omega arith)
          ∙ scan_last (c % 64) s (c / 4096 * 64 + c / 64 % 64) 0x800 c (omega arith) (omega arith)
              (ground arith) h)
      | inr four ↦ rw four (
          scan_first (0xF0 + c / 262144) _ 2 (c / 262144) 0x10000 (ground arith)
          ∙ scan_middle (c / 4096 % 64) _ 1 (c / 262144) 0x10000 (omega arith)
          ∙ scan_middle (c / 64 % 64) _ 0 (c / 262144 * 64 + c / 4096 % 64) 0x10000 (omega arith)
          ∙ scan_last (c % 64) s ((c / 262144 * 64 + c / 4096 % 64) * 64 + c / 64 % 64) 0x10000 c
              (omega arith) (omega arith) (ground arith) h)
    ])
  ])
]

scan-encode : (s : Text) → All IsScalar s → scan zero 0 0 (encode s) ≡ some s
unfolding encode push
scan-encode [] h = unfold scan in refl
scan-encode (c ∷ s) h = rw (scan-encode_char c (encode s) h.0, scan-encode s h.1)

-- Decoding what `encode` made of scalar values gives them back.
pub decode-encode : (s : Text) → All IsScalar s → decode (encode s) ≡ some s
unfolding decode
decode-encode s h = scan-encode s h

pub encode-append : (s t : Text) → encode (s ++ t) ≡ encode s ++ encode t
unfolding encode
encode-append [] t = refl
encode-append (c ∷ s) t = rw (encode-append s t, append_assoc)

abbrev pub IsAscii : ℕ → Type 0
IsAscii c = c < 0x80

-- ASCII is its own encoding.
pub encode_ascii : (s : Text) → All IsAscii s → encode s ≡ s
unfolding encode encode_char
encode_ascii [] h = refl
encode_ascii (c ∷ s) h = ground (arith, encode_ascii s h.1)

length-encode_char :
    (c : ℕ) → (1 ≤ length (encode_char c)) × (0x80 ≤ c → 2 ≤ length (encode_char c))
unfolding encode_char
length-encode_char c = ground arith

-- An encoding has at least a byte for each character.
pub length-encode-le : (s : Text) → length s ≤ length (encode s)
unfolding encode
length-encode-le [] = omega arith
length-encode-le (c ∷ s) =
    omega
      (arith, length-encode-le s, length-append (encode_char c) (encode s), length-encode_char c)

-- A text with a character beyond ASCII has more bytes than characters.
pub length-encode_lt :
    (s t : Text) (c : ℕ) → 0x80 ≤ c → length (s ++ c ∷ t) < length (encode (s ++ c ∷ t))
unfolding encode
length-encode_lt [] t c h =
    let e = length-encode_char c in
    omega (arith, length-encode-le t, length-append (encode_char c) (encode t), e.1 h)
length-encode_lt (b ∷ s) t c h = omega (
  arith,
  length-encode_lt s t c h,
  length-append (encode_char b) (encode (s ++ c ∷ t)),
  length-encode_char b,
)
