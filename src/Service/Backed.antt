-- ===== src/Service/Backed.antt =====
-- Expiration times belong to stored keys: every method, with or without an error, keeps it so.
use mini_redis_test_app.Prelude.{◌≡◌, Option-cases, inl, inr, none, arith}
use mini_redis_test_app.Dict
use mini_redis_test_app.Dict.{get-set, get-remove}
use mini_redis_test_app.Platform.{Platform}
use mini_redis_test_app.Repository.{ValueEntry, string_entry, delete}
use mini_redis_test_app.Service.{State, modify, ◌>>=◌}
use mini_redis_test_app.Service.Basic.{set_service, del_service, expire_service}
use mini_redis_test_app.Service.Expiration.{now, delete_key, is_key_expired, purge_if_expired}
use mini_redis_test_app.Service.Keeps.{Keeps, keeps_rules, Keeps-bind, Keeps-modify, Keeps-if}
use mini_redis_test_app.Command.{Command}
use mini_redis_test_app.Service.Entries.{put_entry}
use mini_redis_test_app.Service.Execute.{execute}
use mini_redis_test_app.Service.Invariant.{execute-Keeps}
use mini_redis_test_app.Service.Memory.{forget_key, mark_access}
use mini_redis_test_app.Service.Stable.{IsStable}
use mini_redis_test_app.Text.{Text, text_eq_iff}

module _ ⦃P : Platform⦄ where
  pub record IsBacked (s : State) : Type 0 where
    pub at_key : (k : Text) → Dict.get s.store k ≡ none → Dict.get s.ttl k ≡ none

  now-IsBacked : Keeps IsBacked now
  unfolding now
  now-IsBacked = record { at = λ s h. record { at_key = h.at_key } }

  pub delete_key-IsBacked : (key : Text) → Keeps IsBacked (delete_key key)
  unfolding delete_key modify delete
  delete_key-IsBacked key = record {
    at = λ s h. record {
      at_key = λ k e. ground (arith, get-remove s.store key k, get-remove s.ttl key k, h.at_key k);
    };
  }

  -- Forgetting the expiration time of a key keeps the invariant, and so does storing an entry.
  drop_ttl :
      (key : Text) (s : State) → IsBacked s → IsBacked (record s { ttl = Dict.remove s.ttl key })
  drop_ttl key s h = record { at_key = λ k e. ground (arith, get-remove s.ttl key k, h.at_key k) }

  pub put-IsBacked :
      (key : Text) (e : ValueEntry) (s : State)
      → IsBacked s
      → IsBacked (record s { store = Dict.set s.store key e })
  put-IsBacked key e s h = record {
    at_key = λ k none. ground (arith, get-set s.store key k e, h.at_key k);
  }

  pub set_service-IsBacked : (key value : Text) → Keeps IsBacked (set_service key value)
  unfolding set_service
  set_service-IsBacked key value =
      Keeps-bind _ _
        (Keeps-modify _ λ s h. drop_ttl key _ (put-IsBacked key (string_entry value) s h))
        (λ _. search keeps_rules)

  is_key_expired-IsBacked : (key : Text) → Keeps IsBacked (is_key_expired key)
  unfolding is_key_expired
  is_key_expired-IsBacked key = search (keeps_rules, now-IsBacked)

  purge_if_expired-IsBacked : (key : Text) → Keeps IsBacked (purge_if_expired key)
  unfolding purge_if_expired
  purge_if_expired-IsBacked key = search (keeps_rules, is_key_expired-IsBacked, delete_key-IsBacked)

  -- DEL takes the entry first: in between, the key may have a time and no entry.
  pub del_service-IsBacked : (key : Text) → Keeps IsBacked (del_service key)
  unfolding del_service ◌>>=◌
  del_service-IsBacked key = Keeps-bind _ _ (purge_if_expired-IsBacked key) λ purged.
      Keeps-if purged _ _ (search keeps_rules) (record {
        at = λ s h. record {
          at_key = λ k e. ground (
            arith,
            get-remove s.store key k,
            get-remove s.ttl key k,
            h.at_key k,
            text_eq_iff key k,
          );
        };
      })

  -- EXPIRE sets the time of a key that it has just seen stored.
  pub expire_service-IsBacked :
      (key : Text) (ttl_seconds : P.Float) → Keeps IsBacked (expire_service key ttl_seconds)
  unfolding expire_service ◌>>=◌
  expire_service-IsBacked key ttl_seconds = Keeps-bind _ _ (purge_if_expired-IsBacked key) λ purged.
      Keeps-if purged _ _ (search keeps_rules) (record {
        at = λ s h. elim (Option-cases (Dict.get s.store key)) [
          | inl missing ↦ rw missing h
          | inr (e, found) ↦ rw found (record {
            at_key = λ k absent. ground (
              arith,
              get-set s.ttl key k (P.float_add (s.readings s.reads) ttl_seconds),
              h.at_key k,
              text_eq_iff key k,
            );
          })
        ];
      })

  -- The primitive writes keep the invariant.
  IsBacked-IsStable : IsStable IsBacked
  unfolding put_entry forget_key mark_access
  IsBacked-IsStable = record {
    kept_by_now = now-IsBacked;
    kept_by_delete = delete_key-IsBacked;
    kept_by_put = λ key e. Keeps-modify _ (put-IsBacked key e);
    kept_by_set = set_service-IsBacked;
    kept_by_del = del_service-IsBacked;
    kept_by_expire = expire_service-IsBacked;
    kept_by_forget = λ key. Keeps-modify _ λ s h. record { at_key = h.at_key };
    kept_by_mark = λ key. Keeps-modify _ λ s h. record { at_key = h.at_key };
    kept_by_count = Keeps-modify _ λ s h. record { at_key = h.at_key };
    kept_by_limit = λ limit. Keeps-modify _ λ s h. record { at_key = h.at_key };
    kept_by_reset = Keeps-modify _ λ s h. record { at_key = h.at_key };
  }

  -- Every command, whatever its name and arguments and whether it raises or not, leaves a state in
  -- which each key with an expiration time is stored, if it finds one.
  pub execute-IsBacked : (c : Command) (s : State) → IsBacked s → IsBacked (execute c s).1
  execute-IsBacked c s h = (execute-Keeps IsBacked-IsStable c).at s h
