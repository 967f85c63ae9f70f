-- ===== src/Text/Decimal.antt =====
-- `str(n)` and `int(text)` in base ten.
use mini_redis_test_app.Prelude.{
  ℕ, zero, suc, ◌+◌, ◌-◌, ◌*◌, ◌/◌, ◌%◌, ◌≤◌, ◌<◌, ◌≡◌, refl, ◌∙◌, Bool, true, false, ◌&&◌, Option,
  none, some, [], ◌∷◌, ◌++◌, append_assoc, append-nil, length, arith, ◌==◌, leb, ltb, if◌then◌else◌,
  Bool-cases, inl, inr, ltb→lt, length-append, All, All-append,
}
use mathlib.Core.Path.{ap₂}
use mini_redis_test_app.Prelude.Int.{ℤ, pos, negsuc}
use mini_redis_test_app.Platform.{Platform}
use mini_redis_test_app.Text.{Text, is_space}

-- `str(n)` on fuel: each round leaves a tenth, so `suc n` rounds are enough.
digits : ℕ → ℕ → Text
digits zero n = []
digits (suc f) n = elim (ltb n 10) [
  | true ↦ (b'0' + n) ∷ []
  | false ↦ digits f (n / 10) ++ (b'0' + n % 10) ∷ []
]

digits_one : (f n : ℕ) → ltb n 10 ≡ true → digits (suc f) n ≡ (b'0' + n) ∷ []
unfolding digits
digits_one f n h = ground arith

digits_more :
    (f n : ℕ) → ltb n 10 ≡ false → digits (suc f) n ≡ digits f (n / 10) ++ (b'0' + n % 10) ∷ []
unfolding digits
digits_more f n h = ground arith

unfoldable pub print_nat : ℕ → Text
unfolding digits
print_nat n = digits (suc n) n

unfoldable pub print_int : ℤ → Text
unfolding print_nat
print_int (pos n) = print_nat n
print_int (negsuc n) = b'-' ∷ print_nat (suc n)

-- sys.int_info: a longer numeral makes `int` raise ValueError.
abbrev pub max_str_digits : ℕ
max_str_digits = 4300

all_space : Text → Bool
unfolding is_space
all_space [] = true
all_space (c ∷ s) = is_space c && all_space s

skip_space : Text → Text
unfolding is_space
skip_space [] = []
skip_space (c ∷ s) = if is_space c then skip_space s else c ∷ s

finish : ℕ → ℕ → Option ℕ
finish n k = if leb k max_str_digits then some n else none

module _ ⦃P : Platform⦄ where
  digit_value : ℕ → Option ℕ
  digit_value c =
      if ltb c 127
      then (if leb b'0' c && leb c b'9' then some (c - b'0') else none)
      else P.decimal c

  -- `n` is the value and `k` the number of the digits so far; the flag says that a digit must
  -- come, as at the start and after an underscore.
  int_digits : Bool → ℕ → ℕ → Text → Option ℕ
  unfolding digit_value finish all_space
  int_digits true n k [] = none
  int_digits false n k [] = finish n k
  int_digits must n k (c ∷ s) = elim (digit_value c) [
    | some d ↦ int_digits false (n * 10 + d) (k + 1) s
    | none ↦
        let digit_next = int_digits true n k s in
        if must
        then none
        else if c == b'_'
        then digit_next
        else if all_space (c ∷ s)
        then finish n k
        else none
  ]

  signed : Text → Option ℤ
  signed [] = none
  signed (c ∷ s) =
      if c == b'-'
      then elim (int_digits true 0 0 s) [
        | none ↦ none
        | some zero ↦ some (pos 0)
        | some (suc n) ↦ some (negsuc n)
      ]
      else elim (int_digits true 0 0 (if c == b'+' then s else c ∷ s)) [
        | none ↦ none
        | some n ↦ some (pos n)
      ]

  -- `int(text)`; `none` where it raises ValueError.
  unfoldable pub parse_int : Text → Option ℤ
  unfolding signed int_digits skip_space
  parse_int s = signed (skip_space s)

  int_digits-digit :
      (d n : ℕ) (must : Bool) (k : ℕ) (s : Text)
      → d < 10
      → int_digits must n k ((b'0' + d) ∷ s) ≡ int_digits false (n * 10 + d) (k + 1) s
  unfolding int_digits
  int_digits-digit d n true k s h = ground arith
  int_digits-digit d n false k s h = ground arith

  -- Reading back the digits of `n`, whatever follows them.
  int_digits-digits :
      (f n : ℕ) (must : Bool) (k : ℕ) (s : Text)
      → n < f
      → int_digits must 0 k (digits f n ++ s) ≡ int_digits false n (k + length (digits f n)) s
  int_digits-digits zero n must k s h = absurd (omega arith)
  int_digits-digits (suc f) n must k s h = elim (Bool-cases (ltb n 10)) [
    | inl one ↦ rw (digits_one f n one) (
        int_digits-digit n 0 must k s (ltb→lt n 10 one)
        ∙ ap₂ (λ a b. int_digits false a b s) (omega arith) refl)
    | inr more ↦
        let rest = (b'0' + n % 10) ∷ s in
        let tenth = int_digits-digits f (n / 10) must k rest (ground arith) in
        rw (digits_more f n more, append_assoc)
          (tenth
            ∙ int_digits-digit (n % 10) (n / 10) false (k + length (digits f (n / 10))) s
                (omega arith)
            ∙ ap₂ (λ a b. int_digits false a b s) (omega arith)
                (omega (arith, length-append (digits f (n / 10)) ((b'0' + n % 10) ∷ []))))
  ]

  digits_head : (f n : ℕ) → n < f → (d : ℕ) × (r : Text) × (d < 10) × (digits f n ≡ (b'0' + d) ∷ r)
  digits_head zero n h = absurd (omega arith)
  digits_head (suc f) n h = elim (Bool-cases (ltb n 10)) [
    | inl one ↦ (n, [], ltb→lt n 10 one, digits_one f n one)
    | inr more ↦
        let (d, r, small, e) = digits_head f (n / 10) (ground arith) in
        (d, r ++ (b'0' + n % 10) ∷ [], small, rw (digits_more f n more, e))
  ]

  skip_space-digit : (d : ℕ) (s : Text) → d < 10 → skip_space ((b'0' + d) ∷ s) ≡ (b'0' + d) ∷ s
  unfolding skip_space
  skip_space-digit d s h = ground arith

  signed-digit :
      (d : ℕ) (s : Text) {n : ℕ}
      → d < 10
      → int_digits true 0 0 ((b'0' + d) ∷ s) ≡ some n
      → signed ((b'0' + d) ∷ s) ≡ some (pos n)
  unfolding signed
  signed-digit d s h e = ground arith

  finish_fits : (n k : ℕ) → k ≤ max_str_digits → int_digits false n k [] ≡ some n
  unfolding int_digits
  finish_fits n k h = ground arith

  parse-digits :
      (n : ℕ)
      → length (digits (suc n) n) ≤ max_str_digits
      → signed (skip_space (digits (suc n) n)) ≡ some (pos n)
  parse-digits n fits =
      let (d, r, small, e) = digits_head (suc n) n (omega arith) in
      let back = int_digits-digits (suc n) n true 0 [] (omega arith) in
      let value : int_digits true 0 0 ((b'0' + d) ∷ r) ≡ some n = cc (
        e,
        append-nil (digits (suc n) n),
        back,
        finish_fits n (0 + length (digits (suc n) n)) (omega arith),
      ) in
      rw (e, skip_space-digit d r small) (signed-digit d r small value)

  -- `int(str(n))` is `n`, for a number that `str` prints in at most 4300 digits.
  pub parse_int-print_nat :
      (n : ℕ) → length (print_nat n) ≤ max_str_digits → parse_int (print_nat n) ≡ some (pos n)
  parse_int-print_nat n fits =
      unfold parse_int print_nat in parse-digits n (unfold print_nat in fits)

abbrev pub IsDigit : ℕ → Type 0
IsDigit c = (b'0' ≤ c) × (c ≤ b'9')

digits-IsDigit : (f n : ℕ) → All IsDigit (digits f n)
digits-IsDigit zero n = unfold digits in tt
digits-IsDigit (suc f) n = elim (Bool-cases (ltb n 10)) [
  | inl one ↦
      let small = ltb→lt n 10 one in rw (digits_one f n one) ((omega arith, omega arith), tt)
  | inr more ↦ rw (digits_more f n more) (
      All-append IsDigit (digits f (n / 10)) _ (digits-IsDigit f (n / 10))
        ((omega arith, omega arith), tt))
]

-- `str(n)` has digits only.
pub print_nat-IsDigit : (n : ℕ) → All IsDigit (print_nat n)
print_nat-IsDigit n = unfold print_nat in digits-IsDigit (suc n) n
