-- ===== src/Service/Slices.antt =====
-- command_service.py, `_slice_sequence`, index by index.
use mini_redis_test_app.Prelude.{
  ℕ, zero, suc, ◌+◌, ◌-◌, ◌≤◌, ◌<◌, ◌≡◌, refl, Bool, ◌||◌, none, List, [], ◌∷◌, length, take, drop,
  get_elem?, leb, ltb, arith, if◌then◌else◌, Bool-cases, inl, inr,
}
use mini_redis_test_app.Prelude.Int.{ℤ, pos, negsuc}
use mini_redis_test_app.Service.Entries.{wrap, clip, cut, bounded_slice, slice_sequence}

-- The first index of a slice.
abbrev pub first_index : ℕ → ℤ → ℕ
first_index n (pos k) = k
first_index n (negsuc k) = n - suc k

-- Whether an index is not behind the last one of a slice.
abbrev pub is_within : ℕ → ℕ → ℤ → Bool
is_within n i (pos k) = leb i k
is_within n i (negsuc k) = ltb (i + k) n

abbrev last_index : ℕ → ℕ → ℕ
last_index n hi = if leb n hi then n - 1 else hi

wrap-pos : (n k : ℕ) → wrap n (pos k) ≡ pos k
unfolding wrap
wrap-pos n k = ground arith

clip-wrap : (n : ℕ) (start : ℤ) → clip (wrap n start) ≡ pos (first_index n start)
unfolding clip wrap
clip-wrap n (pos k) = ground arith
clip-wrap n (negsuc k) = ground arith

module _ {A : Type 0} where
  get_elem-take :
      (m : ℕ) (xs : List A) (i : ℕ)
      → get_elem? (take m xs) i ≡ (if ltb i m then get_elem? xs i else none)
  get_elem-take zero xs i = ground arith
  get_elem-take (suc m) [] i = ground arith
  get_elem-take (suc m) (x ∷ xs) zero = ground arith
  get_elem-take (suc m) (x ∷ xs) (suc i) = ground (arith, get_elem-take m xs i)

  get_elem-drop : (n : ℕ) (xs : List A) (i : ℕ) → get_elem? (drop n xs) i ≡ get_elem? xs (i + n)
  get_elem-drop zero xs i = ground arith
  get_elem-drop (suc n) [] i = ground arith
  get_elem-drop (suc n) (x ∷ xs) i =
      let e : i + suc n ≡ suc (i + n) = omega arith in rw (e) (get_elem-drop n xs i)

  get_elem-past : (xs : List A) (i : ℕ) → length xs ≤ i → get_elem? xs i ≡ none
  get_elem-past [] i h = refl
  get_elem-past (x ∷ xs) zero h = ground arith
  get_elem-past (x ∷ xs) (suc i) h = get_elem-past xs i (omega arith)

  bounded-cut :
      (xs : List A) (n lo hi : ℕ)
      → lo < n
      → lo ≤ hi
      → bounded_slice xs n (pos lo) (pos hi) ≡ take (last_index n hi + 1 - lo) (drop lo xs)
  unfolding bounded_slice cut
  bounded-cut xs n lo hi a b = ground arith

  bounded-at :
      (xs : List A) (lo hi i : ℕ)
      → get_elem? (bounded_slice xs (length xs) (pos lo) (pos hi)) i
        ≡ (if leb (i + lo) hi then get_elem? xs (i + lo) else none)
  unfolding bounded_slice cut
  bounded-at xs lo hi i = elim (Bool-cases (leb (length xs) lo || ltb hi lo)) [
    | inl empty ↦ ground (arith, get_elem-past xs (i + lo))
    | inr some' ↦
        rw
          (
            bounded-cut xs (length xs) lo hi (ground arith) (ground arith),
            get_elem-take (last_index (length xs) hi + 1 - lo) (drop lo xs) i,
            get_elem-drop lo xs i,
          )
          (ground (arith, get_elem-past xs (i + lo)))
  ]

  bounded-below : (xs : List A) (n lo k : ℕ) → bounded_slice xs n (pos lo) (negsuc k) ≡ []
  unfolding bounded_slice
  bounded-below xs n lo k = ground arith

  bounded-wrap :
      (xs : List A) (lo : ℕ) (stop : ℤ) (i : ℕ)
      → get_elem? (bounded_slice xs (length xs) (pos lo) (wrap (length xs) stop)) i
        ≡ (if is_within (length xs) (i + lo) stop then get_elem? xs (i + lo) else none)
  unfolding wrap
  bounded-wrap xs lo (pos k) i = rw (wrap-pos (length xs) k) (bounded-at xs lo k i)
  bounded-wrap xs lo (negsuc k) i = elim (Bool-cases (leb (suc k) (length xs))) [
    | inl inside ↦ ground (arith, bounded-at xs lo (length xs - suc k) i)
    | inr outside ↦ ground (arith, bounded-below xs (length xs) lo (suc k - length xs - 1))
  ]

  -- For every list, every pair of bounds, negative and out of range ones too, and every index: the
  -- element of the slice at that index is the one that far behind the slice's first index, as long
  -- as that is not behind its last one. A negative bound counts from the end of the list.
  pub slice_sequence-at :
      (values : List A) (start stop : ℤ) (i : ℕ)
      → get_elem? (slice_sequence values start stop) i ≡ (
          if is_within (length values) (i + first_index (length values) start) stop
          then get_elem? values (i + first_index (length values) start)
          else none)
  unfolding slice_sequence
  slice_sequence-at [] start stop i = ground arith
  slice_sequence-at (v ∷ vs) start stop i =
      rw (clip-wrap (length (v ∷ vs)) start)
        (bounded-wrap (v ∷ vs) (first_index (length (v ∷ vs)) start) stop i)
