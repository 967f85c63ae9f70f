-- ===== src/Service/Memory.antt =====
-- command_service.py: the order of accesses, the size of the data, eviction.
use mini_redis_test_app.Prelude.{
  ℕ, zero, suc, ◌+◌, Bool, true, Option, none, some, List, [], ◌∷◌, length, leb, ltb, if◌then◌else◌,
}
use mini_redis_test_app.Dict
use mini_redis_test_app.Dict.{Dict, contains, keys}
use mini_redis_test_app.Platform.{Platform}
use mini_redis_test_app.Repository.{
  ValueEntry, string_entry, hash_entry, list_entry, set_entry, zset_entry,
}
use mini_redis_test_app.Service.{State, Exec, maybe, pure, gets, modify, ◌>>=◌, ◌>>◌}
use mini_redis_test_app.Service.Expiration.{purge_if_expired, delete_key}
use mini_redis_test_app.Text.{Text}
use mini_redis_test_app.Text.Utf8

-- `len(text.encode("utf-8"))`
-- `len(text.encode("utf-8"))` of a text that holds no surrogate; see `is_unencodable` for the others,
-- which the texts of the RESP server, all decoded from UTF-8, never are.
unfoldable pub byte_length : Text → ℕ
byte_length s = length (Utf8.encode s)

unfoldable pub sum_bytes : List Text → ℕ
sum_bytes [] = 0
sum_bytes (s ∷ texts) = byte_length s + sum_bytes texts

unfoldable pub sum_fields : Dict Text → ℕ
sum_fields [] = 0
sum_fields ((field, value) ∷ d) = byte_length field + byte_length value + sum_fields d

module _ ⦃P : Platform⦄ where
  unfoldable pub sum_scores : Dict P.Float → ℕ
  sum_scores [] = 0
  sum_scores ((member, score) ∷ d) =
      byte_length member + byte_length (P.format_g score) + sum_scores d

  unfoldable pub estimate_entry_bytes : Text → ValueEntry → ℕ
  estimate_entry_bytes key (string_entry value) = byte_length key + byte_length value
  estimate_entry_bytes key (hash_entry fields) = byte_length key + sum_fields fields
  estimate_entry_bytes key (list_entry values) = byte_length key + sum_bytes values
  estimate_entry_bytes key (set_entry members) = byte_length key + sum_bytes members
  estimate_entry_bytes key (zset_entry scores) = byte_length key + sum_scores scores

  unfoldable pub forget_key : Text → Exec (Unit {0})
  forget_key key = modify λ s. record s { access_order = Dict.remove s.access_order key }

  unfoldable pub mark_access : Text → State → State
  mark_access key s = record s {
    access_clock = s.access_clock + 1;
    access_order = Dict.set s.access_order key (s.access_clock + 1);
  }

  unfoldable pub touch_key : Text → Exec (Unit {0})
  unfolding forget_key mark_access
  touch_key key = do
    entry ← gets (λ s. Dict.get s.store key)
    maybe entry (forget_key key) (λ _. modify (mark_access key))

  unfoldable pub delete_entry_and_ttl : Text → Exec (Unit {0})
  unfolding delete_key forget_key
  delete_entry_and_ttl key = do delete_key key; forget_key key

  -- `if self._store_repository.get(key) is None: self._forget_key(key)`
  unfoldable pub forget_if_missing : Text → Exec (Unit {0})
  unfolding forget_key
  forget_if_missing key = do
    entry ← gets (λ s. Dict.get s.store key)
    maybe entry (forget_key key) (λ _. pure tt)

  unfoldable pub purge_keys : List Text → Exec (Unit {0})
  unfolding purge_if_expired forget_if_missing
  purge_keys [] = pure tt
  purge_keys (key ∷ rest) = do purge_if_expired key; forget_if_missing key; purge_keys rest

  unfoldable pub purge_all_expired_keys : Exec (Unit {0})
  unfolding purge_keys
  purge_all_expired_keys = do ttl_keys ← gets (λ s. keys s.ttl); purge_keys ttl_keys

  unfoldable pub sum_entries : List Text → ℕ → Exec ℕ
  unfolding forget_key estimate_entry_bytes
  sum_entries [] total = pure total
  sum_entries (key ∷ rest) total = do
    entry ← gets (λ s. Dict.get s.store key)
    maybe entry (do forget_key key; sum_entries rest total)
        (λ e. sum_entries rest (total + estimate_entry_bytes key e))

  unfoldable pub current_memory_bytes : Exec ℕ
  unfolding sum_entries
  current_memory_bytes = do store_keys ← gets (λ s. keys s.store); sum_entries store_keys 0

  -- `self._access_order.get(key, 0)`
  unfoldable pub access_of : Dict ℕ → Text → ℕ
  access_of order key = elim (Dict.get order key) [ none ↦ 0 | some n ↦ n ]

  -- `access < oldest_access`, where `none` stands for `float("inf")`.
  unfoldable pub is_older : ℕ → Option (Text × ℕ) → Bool
  is_older access none = true
  is_older access (some (key, oldest)) = ltb access oldest

  -- The loop's `oldest_key` and `oldest_access` are set together.
  unfoldable pub scan_candidates : List Text → List Text → Option (Text × ℕ) → Exec (Option Text)
  unfolding contains forget_key access_of is_older
  scan_candidates protected [] none = pure none
  scan_candidates protected [] (some (key, oldest)) = pure (some key)
  scan_candidates protected (key ∷ rest) best =
      if contains protected key then scan_candidates protected rest best else (do
        entry ← gets (λ s. Dict.get s.store key)
        maybe entry (do forget_key key; scan_candidates protected rest best)
            (λ _. do
              access ← gets (λ s. access_of s.access_order key)
              scan_candidates protected rest
                  (if is_older access best then some (key, access) else best)))

  unfoldable pub eviction_candidate : List Text → Exec (Option Text)
  unfolding scan_candidates
  eviction_candidate protected = do
    store_keys ← gets (λ s. keys s.store)
    scan_candidates protected store_keys none

  unfoldable pub evict : Text → Exec (Unit {0})
  unfolding delete_entry_and_ttl
  evict key = do
    delete_entry_and_ttl key
    modify (λ s. record s { evicted_keys = s.evicted_keys + 1 })

  -- `while self._current_memory_bytes() > limit`. Each round deletes a key of the store, so one
  -- round more than there are keys is enough fuel.
  unfoldable pub evict_while : ℕ → ℕ → List Text → Exec (Unit {0})
  unfolding current_memory_bytes eviction_candidate evict
  evict_while zero limit protected = pure tt
  evict_while (suc fuel) limit protected = do
    used ← current_memory_bytes
    if ltb limit used
        then (do
          candidate ← eviction_candidate protected
          maybe candidate (pure tt) (λ key. do evict key; evict_while fuel limit protected))
        else pure tt

  -- The last loop: the protected keys go too, while the data are too large.
  unfoldable pub evict_protected : ℕ → List Text → Exec (Unit {0})
  unfolding current_memory_bytes forget_key evict
  evict_protected limit [] = pure tt
  evict_protected limit (key ∷ rest) = do
    used ← current_memory_bytes
    if leb used limit then pure tt else (do
      entry ← gets (λ s. Dict.get s.store key)
      maybe entry (do forget_key key; evict_protected limit rest)
          (λ _. do evict key; evict_protected limit rest))

  unfoldable pub shrink_to : ℕ → List Text → Exec (Unit {0})
  unfolding purge_all_expired_keys evict_while evict_protected
  shrink_to limit protected = do
    purge_all_expired_keys
    fuel ← gets (λ s. suc (length s.store))
    evict_while fuel limit protected
    used ← current_memory_bytes
    if leb used limit then pure tt else evict_protected limit protected

  unfoldable pub ensure_max_memory : List Text → Exec (Unit {0})
  unfolding shrink_to
  ensure_max_memory protected = do
    limit ← gets (λ s. s.max_memory_bytes)
    maybe limit (pure tt) (λ n. shrink_to n protected)
