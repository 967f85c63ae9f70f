-- ===== src/Repository.antt =====
-- internal/repository: the entries of the store. The two in-memory repositories are `Dict`s; what
-- they add to a dict's methods is here.
use mini_redis_test_app.Prelude.{Bool, true, false, none, some, List, ◌++◌, [], ◌∷◌, if◌then◌else◌}
use mini_redis_test_app.Dict
use mini_redis_test_app.Dict.{Dict, contains}
use mini_redis_test_app.Platform.{Platform}
use mini_redis_test_app.Text.{Text, text_eq}

pub data ValueType : Type 0 where
  string hash list set zset : ValueType

module _ ⦃P : Platform⦄ where
  -- A `ValueEntry`: the code pairs each type with a value of that type only. A Python set is a
  -- list without repetition, since nothing in the program depends on its order.
  pub data ValueEntry : Type 0 where
    string_entry : Text → ValueEntry
    hash_entry : Dict Text → ValueEntry
    list_entry : List Text → ValueEntry
    set_entry : List Text → ValueEntry
    zset_entry : Dict P.Float → ValueEntry

  -- `entry.value_type`
  unfoldable pub value_type : ValueEntry → ValueType
  value_type (string_entry _) = string
  value_type (hash_entry _) = hash
  value_type (list_entry _) = list
  value_type (set_entry _) = set
  value_type (zset_entry _) = zset

  -- `InMemoryStoreRepository.delete`: what is left, and whether the key was there.
  unfoldable pub delete : Dict ValueEntry → Text → Bool × Dict ValueEntry
  delete store key =
      (elim (Dict.get store key) [ none ↦ false | some _ ↦ true ], Dict.remove store key)

-- `s.add(m)` and `s.discard(m)` on a set.
unfoldable pub add : List Text → Text → List Text
unfolding contains
add members m = if contains members m then members else members ++ m ∷ []

unfoldable pub discard : List Text → Text → List Text
discard [] m = []
discard (x ∷ members) m = let rest = discard members m in if text_eq x m then rest else x ∷ rest
