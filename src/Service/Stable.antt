-- ===== src/Service/Stable.antt =====
-- A property of the state that every primitive write of the service keeps is an invariant of
-- every command.
use mini_redis_test_app.Prelude.{ℕ, zero, suc, ◌+◌, Option, none, some, List, [], ◌∷◌, leb}
use mini_redis_test_app.Platform.{Platform}
use mini_redis_test_app.Repository.{ValueEntry}
use mini_redis_test_app.Service.{State, modify}
use mini_redis_test_app.Service.Basic.{
  set_service, get_service, del_service, expire_service, ttl_service,
}
use mini_redis_test_app.Service.Entries.{
  get_live_entry, get_typed_entry, typed, put_entry, store_entry, get_or_create,
}
use mini_redis_test_app.Service.Expiration.{
  now, delete_key, is_key_expired, purge_if_expired, remaining_seconds,
}
use mini_redis_test_app.Service.Hashes.{drop_if_empty}
use mini_redis_test_app.Service.Keeps.{Keeps, keeps_rules, Keeps-bind, Keeps-if, Keeps-maybe}
use mini_redis_test_app.Service.Memory.{
  mark_access, forget_key, touch_key, delete_entry_and_ttl, forget_if_missing, purge_keys,
  purge_all_expired_keys, sum_entries, current_memory_bytes, scan_candidates, eviction_candidate,
  evict, evict_while, evict_protected, shrink_to, ensure_max_memory,
}
use mini_redis_test_app.Text.{Text}

module _ ⦃P : Platform⦄ where
  pub record IsStable (I : State → Type 0) : Type 0 where
    pub kept_by_now : Keeps I now
    pub kept_by_delete : (key : Text) → Keeps I (delete_key key)
    pub kept_by_put : (key : Text) (e : ValueEntry) → Keeps I (put_entry key e)
    pub kept_by_set : (key value : Text) → Keeps I (set_service key value)
    pub kept_by_del : (key : Text) → Keeps I (del_service key)
    pub kept_by_expire :
        (key : Text) (ttl_seconds : P.Float) → Keeps I (expire_service key ttl_seconds)
    pub kept_by_forget : (key : Text) → Keeps I (forget_key key)
    pub kept_by_mark : (key : Text) → Keeps I (modify (mark_access key))
    pub kept_by_count : Keeps I (modify λ s. record s { evicted_keys = s.evicted_keys + 1 })
    pub kept_by_limit :
        (limit : Option ℕ) → Keeps I (modify λ s. record s { max_memory_bytes = limit })
    pub kept_by_reset : Keeps I (modify λ s. record s { access_order = []; evicted_keys = 0 })

  module _ {I : State → Type 0} (st : IsStable I) where
    now-Keeps : Keeps I now
    now-Keeps = st.kept_by_now

    count-Keeps : Keeps I (modify λ s. record s { evicted_keys = s.evicted_keys + 1 })
    count-Keeps = st.kept_by_count

    is_key_expired-Keeps : (key : Text) → Keeps I (is_key_expired key)
    unfolding is_key_expired
    is_key_expired-Keeps key = search (keeps_rules, now-Keeps)

    pub purge_if_expired-Keeps : (key : Text) → Keeps I (purge_if_expired key)
    unfolding purge_if_expired
    purge_if_expired-Keeps key = search (keeps_rules, is_key_expired-Keeps, st.kept_by_delete)

    remaining_seconds-Keeps : (key : Text) → Keeps I (remaining_seconds key)
    unfolding remaining_seconds
    remaining_seconds-Keeps key = search (keeps_rules, now-Keeps)

    pub get_service-Keeps : (key : Text) → Keeps I (get_service key)
    unfolding get_service
    get_service-Keeps key = search (keeps_rules, purge_if_expired-Keeps)

    pub ttl_service-Keeps : (key : Text) → Keeps I (ttl_service key)
    unfolding ttl_service
    ttl_service-Keeps key =
        search (keeps_rules, purge_if_expired-Keeps, remaining_seconds-Keeps) depth 10

    pub touch_key-Keeps : (key : Text) → Keeps I (touch_key key)
    unfolding touch_key
    touch_key-Keeps key = search (keeps_rules, st.kept_by_forget, st.kept_by_mark)

    get_live_entry-Keeps : (key : Text) → Keeps I (get_live_entry key)
    unfolding get_live_entry
    get_live_entry-Keeps key =
        search (keeps_rules, purge_if_expired-Keeps, st.kept_by_forget, touch_key-Keeps) depth 8

    typed-Keeps :
        {A : Type 0} (view : ValueEntry → Option A) (o : Option ValueEntry) → Keeps I (typed view o)
    unfolding typed
    typed-Keeps view none = search keeps_rules
    typed-Keeps view (some e) = search keeps_rules

    pub get_typed_entry-Keeps :
        {A : Type 0} (view : ValueEntry → Option A) (key : Text)
        → Keeps I (get_typed_entry view key)
    unfolding get_typed_entry
    get_typed_entry-Keeps view key = search (keeps_rules, get_live_entry-Keeps, typed-Keeps)

    pub get_or_create-Keeps :
        {A : Type 0} (view : ValueEntry → Option A) (fresh : ValueEntry) (empty : A) (key : Text)
        → Keeps I (get_or_create view fresh empty key)
    unfolding get_or_create store_entry
    get_or_create-Keeps view fresh empty key =
        search (keeps_rules, get_typed_entry-Keeps, st.kept_by_put, touch_key-Keeps) depth 8

    pub delete_entry_and_ttl-Keeps : (key : Text) → Keeps I (delete_entry_and_ttl key)
    unfolding delete_entry_and_ttl
    delete_entry_and_ttl-Keeps key = search (keeps_rules, st.kept_by_delete, st.kept_by_forget)

    pub drop_if_empty-Keeps : {A : Type 0} (l : List A) (key : Text) → Keeps I (drop_if_empty l key)
    unfolding drop_if_empty
    drop_if_empty-Keeps [] key = delete_entry_and_ttl-Keeps key
    drop_if_empty-Keeps (x ∷ l) key = search keeps_rules

    forget_if_missing-Keeps : (key : Text) → Keeps I (forget_if_missing key)
    unfolding forget_if_missing
    forget_if_missing-Keeps key = search (keeps_rules, st.kept_by_forget)

    purge_keys-Keeps : (l : List Text) → Keeps I (purge_keys l)
    unfolding purge_keys
    purge_keys-Keeps [] = search keeps_rules
    purge_keys-Keeps (key ∷ rest) =
        Keeps-bind _ _ (purge_if_expired-Keeps key)
          λ _. Keeps-bind _ _ (forget_if_missing-Keeps key) λ _. purge_keys-Keeps rest

    pub purge_all-Keeps : Keeps I purge_all_expired_keys
    unfolding purge_all_expired_keys
    purge_all-Keeps = search (keeps_rules, purge_keys-Keeps)

    sum_entries-Keeps : (l : List Text) (total : ℕ) → Keeps I (sum_entries l total)
    unfolding sum_entries
    sum_entries-Keeps [] total = search keeps_rules
    sum_entries-Keeps (key ∷ rest) total =
        let tail = sum_entries-Keeps rest in search (keeps_rules, st.kept_by_forget, tail) depth 8

    pub current_memory_bytes-Keeps : Keeps I current_memory_bytes
    unfolding current_memory_bytes
    current_memory_bytes-Keeps = search (keeps_rules, sum_entries-Keeps)

    scan_candidates-Keeps :
        (protected l : List Text) (best : Option (Text × ℕ))
        → Keeps I (scan_candidates protected l best)
    unfolding scan_candidates
    scan_candidates-Keeps protected [] none = search keeps_rules
    scan_candidates-Keeps protected [] (some b) = search keeps_rules
    scan_candidates-Keeps protected (key ∷ rest) best =
        let tail = scan_candidates-Keeps protected rest in
        search (keeps_rules, st.kept_by_forget, tail) depth 10

    eviction_candidate-Keeps : (protected : List Text) → Keeps I (eviction_candidate protected)
    unfolding eviction_candidate
    eviction_candidate-Keeps protected = search (keeps_rules, scan_candidates-Keeps)

    evict-Keeps : (key : Text) → Keeps I (evict key)
    unfolding evict
    evict-Keeps key = search (keeps_rules, delete_entry_and_ttl-Keeps, count-Keeps)

    evict_while-Keeps :
        (fuel limit : ℕ) (protected : List Text) → Keeps I (evict_while fuel limit protected)
    unfolding evict_while
    evict_while-Keeps zero limit protected = search keeps_rules
    evict_while-Keeps (suc fuel) limit protected =
        let tail = evict_while-Keeps fuel in
        search
          (keeps_rules, current_memory_bytes-Keeps, eviction_candidate-Keeps, evict-Keeps, tail)
          depth 10

    evict_protected-Keeps :
        (limit : ℕ) (protected : List Text) → Keeps I (evict_protected limit protected)
    unfolding evict_protected
    evict_protected-Keeps limit [] = search keeps_rules
    evict_protected-Keeps limit (key ∷ rest) = Keeps-bind _ _ current_memory_bytes-Keeps λ used.
        Keeps-if (leb used limit) _ _ (search keeps_rules) (
          Keeps-bind _ _ (search keeps_rules) λ entry.
            Keeps-maybe entry _ _
              (Keeps-bind _ _ (st.kept_by_forget key) λ _. evict_protected-Keeps limit rest)
              (λ _. Keeps-bind _ _ (evict-Keeps key) λ _. evict_protected-Keeps limit rest))

    pub ensure_max_memory-Keeps : (protected : List Text) → Keeps I (ensure_max_memory protected)
    unfolding ensure_max_memory shrink_to
    ensure_max_memory-Keeps protected =
        search
          (
            keeps_rules, purge_all-Keeps, evict_while-Keeps, current_memory_bytes-Keeps,
            evict_protected-Keeps,
          )
          depth 12
