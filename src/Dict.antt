-- ===== src/Dict.antt =====
-- Python's `dict` with `str` keys, in insertion order: a write to a key that is there keeps its
-- place, a new key goes to the end.
use mini_redis_test_app.Prelude.{
  suc, ◌≤◌, ◌<◌, ◌≡◌, refl, ap, Bool, true, false, ◌||◌, Option, none, some, List, [], ◌∷◌, arith,
  length, if◌then◌else◌,
}
use mini_redis_test_app.Text.{Text, text_eq, text_eq_iff, text_eq_refl}

abbrev pub Dict {ℓ} : Type ℓ → Type ℓ
Dict V = List (Text × V)

-- `k in keys`, for a list or tuple of texts.
unfoldable pub contains : List Text → Text → Bool
contains [] k = false
contains (j ∷ js) k = text_eq j k || contains js k

module _ {ℓ} {V : Type ℓ} where
  -- `d.get(k)`
  unfoldable pub get : Dict V → Text → Option V
  get [] k = none
  get ((j, v) ∷ d) k = if text_eq j k then some v else get d k

  -- `d[k] = v`
  unfoldable pub set : Dict V → Text → V → Dict V
  set [] k v = (k, v) ∷ []
  set ((j, w) ∷ d) k v = if text_eq j k then (j, v) ∷ d else (j, w) ∷ set d k v

  -- `d.pop(k, None)` without its result
  unfoldable pub remove : Dict V → Text → Dict V
  remove [] k = []
  remove ((j, v) ∷ d) k = let rest = remove d k in if text_eq j k then rest else (j, v) ∷ rest

  -- `list(d.keys())`
  unfoldable pub keys : Dict V → List Text
  keys [] = []
  keys ((j, v) ∷ d) = j ∷ keys d

  pub get-set :
      (d : Dict V) (k j : Text) (v : V)
      → get (set d k v) j ≡ (if text_eq k j then some v else get d j)
  unfolding get set
  get-set [] k j v = refl
  get-set ((i, w) ∷ d) k j v =
      ground (arith, text_eq_iff k j, text_eq_iff i k, text_eq_iff i j, get-set d k j v)

  pub get-remove :
      (d : Dict V) (k j : Text) → get (remove d k) j ≡ (if text_eq k j then none else get d j)
  unfolding get remove
  get-remove [] k j = ground arith
  get-remove ((i, w) ∷ d) k j =
      ground (arith, text_eq_iff k j, text_eq_iff i k, text_eq_iff i j, get-remove d k j)

  pub get-set_self : (d : Dict V) (k : Text) (v : V) → get (set d k v) k ≡ some v
  get-set_self d k v = ground (arith, get-set d k k v, text_eq_refl k)

  pub get-remove_self : (d : Dict V) (k : Text) → get (remove d k) k ≡ none
  get-remove_self d k = ground (arith, get-remove d k k, text_eq_refl k)

  -- A key is listed exactly when it has a value.
  pub contains-keys :
      (d : Dict V) (k : Text)
      → contains (keys d) k ≡ (elim (get d k) [ none ↦ false | some v ↦ true ])
  unfolding contains keys get
  contains-keys [] k = refl
  contains-keys ((j, v) ∷ d) k = ground (arith, contains-keys d k)

  pub keys-set_old :
      (d : Dict V) (k : Text) (v w : V) → get d k ≡ some v → keys (set d k w) ≡ keys d
  unfolding keys set get
  keys-set_old [] k v w h = ground arith
  keys-set_old ((j, u) ∷ d) k v w h = ground (arith, keys-set_old d k v w)

  pub length-remove : (d : Dict V) (k : Text) → length (remove d k) ≤ length d
  unfolding remove
  length-remove [] k = omega arith
  length-remove ((j, v) ∷ d) k = ground (arith, length-remove d k)

  pub length-remove_lt :
      (d : Dict V) (k : Text) (v : V) → get d k ≡ some v → length (remove d k) < length d
  unfolding remove get
  length-remove_lt [] k v h = ground arith
  length-remove_lt ((j, u) ∷ d) k v h = ground (arith, length-remove d k, length-remove_lt d k v)

  pub length-keys : (d : Dict V) → length (keys d) ≡ length d
  unfolding keys
  length-keys [] = refl
  length-keys ((j, v) ∷ d) = ap suc (length-keys d)

  pub remove_absent : (d : Dict V) (k : Text) → get d k ≡ none → remove d k ≡ d
  unfolding remove get
  remove_absent [] k h = refl
  remove_absent ((j, v) ∷ d) k h = ground (arith, remove_absent d k)
