-- ===== src/Service/Strings.antt =====
-- SET, GET, DEL and EXPIRE against each other: command_service.py and the services behind it.
use mini_redis_test_app.Prelude.{
  ℕ, ◌+◌, ◌≡◌, ◌⊎◌, refl, String, Option, none, some, List, [], ◌∷◌, arith, if◌then◌else◌,
  Bool-cases, Option-cases, inl, inr,
}
use mini_redis_test_app.Prelude.Int.{pos}
use mini_redis_test_app.Command.{Command, argument}
use mini_redis_test_app.Dict
use mini_redis_test_app.Dict.{Dict, get-set, get-remove, get-set_self, get-remove_self}
use mini_redis_test_app.Platform.{Platform}
use mini_redis_test_app.Repository.{
  ValueEntry, string_entry, hash_entry, list_entry, set_entry, zset_entry, delete,
}
use mini_redis_test_app.Resp.{RespValue, simple_string, blob_string, number, null, resp_ok}
use mini_redis_test_app.Result.{Result, ok, raise}
use mini_redis_test_app.Service.{State, Exec, pure, modify, ◌>>=◌}
use mini_redis_test_app.Service.Basic.{delete_stored, set_service, get_service, del_service}
use mini_redis_test_app.Service.Entries.{as_string, wrong_type}
use mini_redis_test_app.Service.Execute.{
  execute, execute_set, execute_get, get_reply, execute_keys, execute_del,
}
use mini_redis_test_app.Service.Expiration.{
  purge_if_expired, is_key_expired, now, is_expired, delete_key,
}
use mini_redis_test_app.Service.Memory.{touch_key, mark_access, forget_key, ensure_max_memory}
use mini_redis_test_app.Service.Sweeper.Removal.{is_due}
use mini_redis_test_app.Text.{Text, codes, text_eq, text_eq_iff}

-- A request as the client sends it.
abbrev pub request_of : String → List Text → Command
request_of name arguments = record { name = codes name; arguments = arguments }

module _ ⦃P : Platform⦄ where
  abbrev pub after_set : Text → Text → State → State
  after_set k v s =
      mark_access k
        (record s { store = Dict.set s.store k (string_entry v); ttl = Dict.remove s.ttl k })

  execute_set-eq :
      (k v : Text) (s : State)
      → s.max_memory_bytes ≡ none
      → execute (request_of "SET" (k ∷ v ∷ [])) s
        ≡ (ok (simple_string (codes resp_ok)), after_set k v s)
  unfolding execute execute_keys execute_set text_eq argument set_service touch_key
      ensure_max_memory ◌>>=◌
  execute_set-eq k v s unlimited = rw (get-set_self s.store k (string_entry v), unlimited) refl

  -- The entry that a command sees under a key, with the next reading of the clock.
  abbrev pub live_entry : State → Text → Option ValueEntry
  live_entry s k =
      if is_due (s.readings s.reads) (Dict.get s.ttl k) then none else Dict.get s.store k

  -- The reply to GET for an entry.
  abbrev pub string_reply : Option ValueEntry → Result RespValue
  string_reply none = ok null
  string_reply (some (string_entry v)) = ok (blob_string v)
  string_reply (some _) = raise wrong_type

  get_reply-eq :
      (k : Text) (o : Option ValueEntry) (s : State) → (get_reply k o s).0 ≡ string_reply o
  unfolding get_reply as_string touch_key forget_key mark_access ◌>>=◌
  get_reply-eq k none s = refl
  get_reply-eq k (some (string_entry v)) s = ground arith
  get_reply-eq k (some (hash_entry v)) s = ground arith
  get_reply-eq k (some (list_entry v)) s = ground arith
  get_reply-eq k (some (set_entry v)) s = ground arith
  get_reply-eq k (some (zset_entry v)) s = ground arith

  get_service-eq : (k : Text) (s : State) → (get_service k s).0 ≡ ok (live_entry s k)
  unfolding get_service purge_if_expired is_key_expired now delete_key delete ◌>>=◌
  get_service-eq k s = elim (Option-cases (Dict.get s.ttl k)) [
    | inl free ↦ rw free refl
    | inr (t, found) ↦ rw found (elim (Bool-cases (is_expired (s.readings s.reads) t)) [
      | inl past ↦ rw (past, get-remove_self s.store k) refl
      | inr later ↦ rw later refl
    ])
  ]

  -- What follows an action that returns.
  bind-ok :
      {A B : Type 0} (m : Exec A) (f : A → Exec B) (s : State) {a : A}
      → (m s).0 ≡ ok a
      → (m >>= f) s ≡ f a (m s).1
  unfolding ◌>>=◌
  bind-ok m f s e = rw e refl

  execute_get-bind :
      (k : Text) (s : State)
      → execute (request_of "GET" (k ∷ [])) s ≡ (get_service k >>= get_reply k) s
  unfolding execute execute_keys execute_get text_eq argument ◌>>=◌
  execute_get-bind k s = refl

  -- GET of any key in any state replies with the string stored under it, with null if nothing is
  -- stored or its expiration time has come, and refuses an entry of another type.
  pub execute_get-eq :
      (k : Text) (s : State)
      → (execute (request_of "GET" (k ∷ [])) s).0 ≡ string_reply (live_entry s k)
  execute_get-eq k s =
      rw (execute_get-bind k s, bind-ok (get_service k) (get_reply k) s (get_service-eq k s))
        (get_reply-eq k (live_entry s k) (get_service k s).1)

  after_set-live :
      (k v : Text) (s : State) → string_reply (live_entry (after_set k v s) k) ≡ ok (blob_string v)
  unfolding mark_access
  after_set-live k v s = rw (get-remove_self s.ttl k, get-set_self s.store k (string_entry v)) refl

  -- Without a memory limit, SET of a key in any state replies OK. Afterwards GET of the key
  -- replies with the value, the key has no expiration time, and the entries and the expiration
  -- times of all other keys are as before.
  pub execute_set-get :
      (k v j : Text) (s : State)
      → s.max_memory_bytes ≡ none
      → ((execute (request_of "SET" (k ∷ v ∷ [])) s).0 ≡ ok (simple_string (codes resp_ok)))
        × ((execute (request_of "GET" (k ∷ [])) (execute (request_of "SET" (k ∷ v ∷ [])) s).1).0
            ≡ ok (blob_string v))
        × (Dict.get (execute (request_of "SET" (k ∷ v ∷ [])) s).1.ttl k ≡ none)
        × ((k ≡ j)
            ⊎ (Dict.get (execute (request_of "SET" (k ∷ v ∷ [])) s).1.store j ≡ Dict.get s.store j))
        × ((k ≡ j)
            ⊎ (Dict.get (execute (request_of "SET" (k ∷ v ∷ [])) s).1.ttl j ≡ Dict.get s.ttl j))
  unfolding mark_access
  execute_set-get k v j s unlimited =
      rw (execute_set-eq k v s unlimited, execute_get-eq k (after_set k v s))
        (
          refl,
          after_set-live k v s,
          get-remove_self s.ttl k,
          ground (arith, get-set s.store k j (string_entry v), text_eq_iff k j),
          ground (arith, get-remove s.ttl k j, text_eq_iff k j),
        )

  -- How many keys DEL counts for what it finds.
  abbrev pub count_live : Option ValueEntry → ℕ
  count_live none = 0
  count_live (some e) = 1

  -- The store has lost this key's entry and no other.
  abbrev HasLost : Text → Text → State → State → Type 0
  HasLost k j s s' =
      (Dict.get s'.store k ≡ none) × ((k ≡ j) ⊎ (Dict.get s'.store j ≡ Dict.get s.store j))

  HasLost_removed :
      (k j : Text) (d : Dict ValueEntry)
      → (Dict.get (Dict.remove d k) k ≡ none)
        × ((k ≡ j) ⊎ (Dict.get (Dict.remove d k) j ≡ Dict.get d j))
  HasLost_removed k j d = (get-remove_self d k, ground (arith, get-remove d k j, text_eq_iff k j))

  -- The part of DEL behind the purge.
  delete_and_count : Text → Exec ℕ
  delete_and_count k = delete_stored k >>= λ deleted.
      if deleted
      then (modify (λ s. record s { ttl = Dict.remove s.ttl k }) >>= λ _. pure 1)
      else pure 0

  delete_and_count-eq :
      (k j : Text) (s : State)
      → ((delete_and_count k s).0 ≡ ok (count_live (Dict.get s.store k)))
        × HasLost k j s (delete_and_count k s).1
  unfolding delete_and_count delete_stored delete ◌>>=◌
  delete_and_count-eq k j s = elim (Option-cases (Dict.get s.store k)) [
    | inl missing ↦
        rw (delete_and_count, if◌then◌else◌, missing) (refl, HasLost_removed k j s.store)
    | inr (v, found) ↦
        rw (delete_and_count, if◌then◌else◌, found) (refl, HasLost_removed k j s.store)
  ]

  del_service-eq :
      (k j : Text) (s : State)
      → ((del_service k s).0 ≡ ok (count_live (live_entry s k))) × HasLost k j s (del_service k s).1
  unfolding del_service delete_and_count purge_if_expired is_key_expired now delete_key delete
      delete_stored ◌>>=◌
  del_service-eq k j s = elim (Option-cases (Dict.get s.ttl k)) [
    | inl free ↦ rw free (delete_and_count-eq k j s)
    | inr (t, found) ↦ rw found (elim (Bool-cases (is_expired (s.readings s.reads) t)) [
      | inl past ↦ rw past (refl, HasLost_removed k j s.store)
      | inr later ↦ rw later (delete_and_count-eq k j (record s { reads = s.reads + 1 }))
    ])
  ]

  execute_del-bind :
      (k : Text) (s : State)
      → execute (request_of "DEL" (k ∷ [])) s
        ≡ (del_service k >>= λ n. forget_key k >>= λ _. pure (number (pos n))) s
  unfolding execute execute_keys execute_del text_eq argument ◌>>=◌
  execute_del-bind k s = refl

  live_entry_lost : (k : Text) (s : State) → Dict.get s.store k ≡ none → live_entry s k ≡ none
  live_entry_lost k s gone = ground arith

  -- DEL of any key in any state replies with the number of entries it took away, which is 1 if the
  -- key has an entry whose expiration time has not come, else 0. Afterwards GET of the key replies
  -- with null, and the entries of all other keys are as before.
  pub execute_del-get :
      (k j : Text) (s : State)
      → ((execute (request_of "DEL" (k ∷ [])) s).0
          ≡ ok (number (pos (count_live (live_entry s k)))))
        × ((execute (request_of "GET" (k ∷ [])) (execute (request_of "DEL" (k ∷ [])) s).1).0
            ≡ ok null)
        × ((k ≡ j)
            ⊎ (Dict.get (execute (request_of "DEL" (k ∷ [])) s).1.store j ≡ Dict.get s.store j))
  unfolding forget_key ◌>>=◌
  execute_del-get k j s =
      let (e, (gone, others)) = del_service-eq k j s in
      let s' = record (del_service k s).1 {
        access_order = Dict.remove (del_service k s).1.access_order k;
      } in
      rw
        (
          execute_get-eq k (execute (request_of "DEL" (k ∷ [])) s).1,
          execute_del-bind k s,
          e,
          live_entry_lost k s' gone,
        )
        (refl, refl, others)
