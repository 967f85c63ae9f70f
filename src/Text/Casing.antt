-- ===== src/Text/Casing.antt =====
-- `s.upper()` and `s.lower()`: written out for ASCII, from the Unicode database beyond it.
use mathlib.Core.List.{flat_map}
use mini_redis_test_app.Prelude.{
  ℕ, ◌+◌, ◌-◌, Bool, true, ◌&&◌, [], ◌∷◌, map, leb, ltb, if◌then◌else◌,
}
use mini_redis_test_app.Platform.{Platform}
use mini_redis_test_app.Text.{Text}

unfoldable pub is_ascii : Text → Bool
is_ascii [] = true
is_ascii (c ∷ s) = ltb c 128 && is_ascii s

ascii_lower : ℕ → ℕ
ascii_lower c = if leb b'A' c && leb c b'Z' then c + 32 else c

module _ ⦃P : Platform⦄ where
  upper_one : ℕ → Text
  upper_one c =
      if ltb c 128
      then (if leb b'a' c && leb c b'z' then (c - 32) ∷ [] else c ∷ [])
      else P.upper_char c

  unfoldable pub upper : Text → Text
  unfolding upper_one flat_map
  upper = flat_map upper_one

  unfoldable pub lower : Text → Text
  unfolding ascii_lower is_ascii
  lower s = if is_ascii s then map ascii_lower s else P.lower_text s
