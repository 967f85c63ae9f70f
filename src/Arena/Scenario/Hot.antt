-- ===== src/Arena/Scenario/Hot.antt =====
-- internal/arena/scenario/workloads.py: the share of the hot keys.
use mini_redis_test_app.Prelude.{
  ℕ, zero, suc, ◌+◌, ◌*◌, ◌%◌, ◌≡◌, ◌∙◌, ◌⊎◌, inl, inr, refl, true, List, [], ◌∷◌, arith,
  if◌then◌else◌,
}
use mini_redis_test_app.Arena.Scenario.{is_hot, is_read_level, range_from}

-- How many of the indices are hot.
abbrev pub count_hot : ℕ → List ℕ → ℕ
count_hot hot_percent [] = 0
count_hot hot_percent (index ∷ indices) =
    (if is_hot hot_percent index then 1 else 0) + count_hot hot_percent indices

is_hot-shift : (h k index : ℕ) → is_hot h (100 * k + index) ≡ is_hot h index
unfolding is_hot
is_hot-shift h k index =
    let e : ((100 * k + index) * 37) % 100 ≡ (index * 37) % 100 = omega arith in rw e refl

count_hot-shift :
    (h k count start : ℕ)
    → count_hot h (range_from (100 * k + start) count) ≡ count_hot h (range_from start count)
count_hot-shift h k zero start = refl
count_hot-shift h k (suc count) start =
    let step : 100 * k + start + 1 ≡ 100 * k + (start + 1) = omega arith in
    rw (is_hot-shift h k start, step, count_hot-shift h k count (start + 1)) refl

level-cases :
    (h : ℕ)
    → is_read_level h ≡ true
    → (h ≡ 0) ⊎ ((h ≡ 20) ⊎ ((h ≡ 40) ⊎ ((h ≡ 60) ⊎ ((h ≡ 80) ⊎ (h ≡ 100)))))
unfolding is_read_level
level-cases h level = ground arith

count_hot-level : (h : ℕ) → is_read_level h ≡ true → count_hot h (range_from 0 100) ≡ h
unfolding is_hot
count_hot-level h level = elim (level-cases h level) [
  | inl e ↦ rw e refl
  | inr (inl e) ↦ rw e refl
  | inr (inr (inl e)) ↦ rw e refl
  | inr (inr (inr (inl e))) ↦ rw e refl
  | inr (inr (inr (inr (inl e)))) ↦ rw e refl
  | inr (inr (inr (inr (inr e)))) ↦ rw e refl
]

-- For every supported percentage and every block of a hundred indices that starts at a multiple of
-- a hundred: as many of them are hot as the percentage says.
pub count_hot-block :
    (h k : ℕ) → is_read_level h ≡ true → count_hot h (range_from (100 * k) 100) ≡ h
count_hot-block h k level =
    let start : 100 * k ≡ 100 * k + 0 = omega arith in
    rw start (count_hot-shift h k 100 0 ∙ count_hot-level h level)
