-- ===== src/Service/Entries.antt =====
-- command_service.py: the entry of a key, live and of the type that a command wants.
use mini_redis_test_app.Prelude.{
  ℕ, suc, ◌+◌, ◌-◌, ◌||◌, Option, none, some, List, [], ◌∷◌, length, take, drop, if◌then◌else◌,
}
use mini_redis_test_app.Prelude.Int.{ℤ, pos, ◌+ℤ◌, ltb_ℤ, leb_ℤ}
use mini_redis_test_app.Dict
use mini_redis_test_app.Dict.{Dict}
use mini_redis_test_app.Platform.{Platform}
use mini_redis_test_app.Repository.{
  ValueEntry, string_entry, hash_entry, list_entry, set_entry, zset_entry,
}
use mini_redis_test_app.Resp.{err_wrong_type}
use mini_redis_test_app.Result.{Error, command_error, validation_error}
use mini_redis_test_app.Service.{Exec, maybe, pure, throw, gets, modify, ◌>>=◌, ◌>>◌}
use mini_redis_test_app.Service.Expiration.{purge_if_expired}
use mini_redis_test_app.Service.Memory.{forget_key, touch_key}
use mini_redis_test_app.Text.{Text}

abbrev pub wrong_type : Error
wrong_type = command_error (validation_error err_wrong_type)

module _ ⦃P : Platform⦄ where
  unfoldable pub get_live_entry : Text → Exec (Option ValueEntry)
  unfolding purge_if_expired forget_key touch_key
  get_live_entry key = do
    purge_if_expired key
    entry ← gets (λ s. Dict.get s.store key)
    maybe entry (do forget_key key; pure none) (λ e. do touch_key key; pure (some e))

  -- `entry.value`, if the entry has the type asked for.
  unfoldable pub as_string : ValueEntry → Option Text
  as_string (string_entry value) = some value
  as_string _ = none

  unfoldable pub as_hash : ValueEntry → Option (Dict Text)
  as_hash (hash_entry value) = some value
  as_hash _ = none

  unfoldable pub as_list : ValueEntry → Option (List Text)
  as_list (list_entry value) = some value
  as_list _ = none

  unfoldable pub as_set : ValueEntry → Option (List Text)
  as_set (set_entry value) = some value
  as_set _ = none

  unfoldable pub as_zset : ValueEntry → Option (Dict P.Float)
  as_zset (zset_entry value) = some value
  as_zset _ = none

  -- `_get_typed_entry`, with the value of the entry.
  unfoldable pub typed :
      {A : Type 0} → (ValueEntry → Option A) → Option ValueEntry → Exec (Option A)
  typed view none = pure none
  typed view (some e) = maybe (view e) (throw wrong_type) (λ a. pure (some a))

  unfoldable pub get_typed_entry : {A : Type 0} → (ValueEntry → Option A) → Text → Exec (Option A)
  unfolding get_live_entry typed
  get_typed_entry view key = do entry ← get_live_entry key; typed view entry

  -- `self._store_repository.set(key, entry)`. A value that a method mutates in place is written
  -- back this way: no other key shares it, and the key keeps its place in the store.
  unfoldable pub put_entry : Text → ValueEntry → Exec (Unit {0})
  put_entry key e = modify λ s. record s { store = Dict.set s.store key e }

  unfoldable pub store_entry : Text → ValueEntry → Exec (Unit {0})
  unfolding put_entry touch_key
  store_entry key e = do put_entry key e; touch_key key

  -- The container of the key; a new empty one is stored first if the key has none.
  unfoldable pub get_or_create :
      {A : Type 0} → (ValueEntry → Option A) → ValueEntry → A → Text → Exec A
  unfolding get_typed_entry store_entry
  get_or_create view fresh empty key = do
    found ← get_typed_entry view key
    maybe found (do store_entry key fresh; pure empty) (λ a. pure a)

-- `_slice_sequence`
unfoldable pub wrap : ℕ → ℤ → ℤ
wrap n i = if ltb_ℤ i (pos 0) then i +ℤ pos n else i

unfoldable pub clip : ℤ → ℤ
clip i = if ltb_ℤ i (pos 0) then pos 0 else i

-- `values[start : stop + 1]` for bounds that are not negative.
unfoldable pub cut : {A : Type 0} → List A → ℤ → ℤ → List A
cut values (pos start) (pos stop) = take (stop + 1 - start) (drop start values)
cut values _ _ = []

-- The bounds behind the adjustments: nothing, or the slice that they leave.
unfoldable pub bounded_slice : {A : Type 0} → List A → ℕ → ℤ → ℤ → List A
unfolding cut
bounded_slice values n start stop =
    if ltb_ℤ stop (pos 0) || leb_ℤ (pos n) start || ltb_ℤ stop start
    then []
    else cut values start (if leb_ℤ (pos n) stop then pos (n - 1) else stop)

unfoldable pub slice_sequence : {A : Type 0} → List A → ℤ → ℤ → List A
unfolding wrap clip bounded_slice
slice_sequence [] start stop = []
slice_sequence (v ∷ vs) start stop =
    let n = suc (length vs) in bounded_slice (v ∷ vs) n (clip (wrap n start)) (wrap n stop)
