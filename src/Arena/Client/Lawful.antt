-- ===== src/Arena/Client/Lawful.antt =====
-- internal/arena/lane/redis_client.py: the in-memory client as a cache.
use mini_redis_test_app.Prelude.{
  ◌≡◌, inl, inr, refl, sym, ap, ◌∙◌, Option, none, some, List, [], ◌∷◌, ◌+◌, arith, Option-cases,
}
use mini_redis_test_app.Arena.Client.{
  Kind, is_string, is_hash, RedisEntry, Client, purge_expired, touch, enforcing,
}
use mini_redis_test_app.Arena.Client.Losses.{
  IsPart, enforcing-raises, purge_expired-IsPart, touch-entries,
}
use mini_redis_test_app.Arena.Client.Methods
use mini_redis_test_app.Arena.Client.Methods.{
  live, new_string, new_hash, put, read_string, read_field, read_fields, write_field,
}
use mini_redis_test_app.Arena.Interfaces.{MiniRedisClient, in_memory_client}
use mini_redis_test_app.Arena.Lawful.{
  hash_shape, update, IsWithin, IsWithin-trans, IsNoString, same_shape, IsLawful,
}
use mini_redis_test_app.Dict
use mini_redis_test_app.Dict.{Dict, get-set, get-remove}
use mini_redis_test_app.Platform.{Platform}
use mini_redis_test_app.Result.{Result, ok, raise, unicode_encode_error}
use mini_redis_test_app.Text.{Text}
use mini_redis_test_app.Arena.Client.Shapes.{
  shape_of_entry, Kind-cases, sees, IsPart-IsWithin, put-sees, write_entry-IsWithin, set-IsWithin,
  delete-IsWithin, delete-is_there, entry_of, get-read_shape, read_string-IsPart, read_field-IsPart,
  read_fields-IsPart, after_live,
}

module _ ⦃P : Platform⦄ where
  shape_of_entry-expires_at :
      (e : RedisEntry) (t : Option P.Float)
      → shape_of_entry (some (record e { expires_at = t })) ≡ shape_of_entry (some e)
  shape_of_entry-expires_at e t = elim (Kind-cases e.kind) [ inl h ↦ rw h refl | inr h ↦ rw h refl ]

  expire-IsWithin :
      (key : Text) (ttl_seconds : P.Float) (c : Client)
      → IsWithin (sees (Methods.expire key ttl_seconds c).1) (sees c)
  unfolding Methods.expire
  expire-IsWithin key ttl_seconds c = elim (Option-cases (Dict.get c.entries key)) [
    | inl missing ↦ rw (Methods.expire, missing) (λ j. inr refl)
    | inr (e, found) ↦
        let t = some (P.float_add (c.readings c.reads) ttl_seconds) in
        let e' = record e { expires_at = t } in
        let c1 = record c { reads = c.reads + 1 } in
        let shape = ap shape_of_entry found ∙ sym (shape_of_entry-expires_at e t) in
        let within =
          IsWithin-trans (sees (touch key (put key e' c1)))
            (update key (shape_of_entry (some e')) (sees c)) (sees c)
            (λ j. inr (rw (touch-entries key (put key e' c1)) (put-sees key e' c1 j)))
            (same_shape key (shape_of_entry (some e')) (sees c) shape) in
        rw (Methods.expire, found) within
  ]

  -- The result without the UnicodeEncodeError of the sizes.
  abbrev pub caught : Result (Unit {0}) → Result (Unit {0})
  caught (raise unicode_encode_error) = ok tt
  caught r = r

  -- The in-memory client, behind a caller that catches that error of a write.
  abbrev pub catching_client : MiniRedisClient
  catching_client = record in_memory_client {
    set = λ key value c. let (r, c') = Methods.set key value c in (caught r, c');
    hset = λ key field value c. let (r, c') = Methods.hset key field value c in (caught r, c');
  }

  caught-enforcing : (protected : List Text) (c : Client) → caught (enforcing protected c).0 ≡ ok tt
  caught-enforcing protected c = elim (enforcing-raises protected c) [
    | inl done ↦ rw done refl
    | inr raised ↦ rw raised refl
  ]

  abbrev IsWritten : Text → Client → Result (Unit {0}) × Client → Type 0
  IsWritten key d (r, c) =
      (caught r ≡ ok tt) × IsWithin (sees c) (update key (some hash_shape) (sees d))

  write_entry_field-IsWritten :
      (key field value : Text) (c d : Client) (kind : Kind) (v : Option Text) (fields : Dict Text)
      (t : Option P.Float)
      → IsNoString (shape_of_entry (some (entry_of kind v fields t)))
      → IsPart c d
      → IsWritten key d (write_field key field value (some (entry_of kind v fields t)) c)
  write_entry_field-IsWritten key field value c d is_string v fields t h part =
      absurd (ground arith)
  write_entry_field-IsWritten key field value c d is_hash v fields t h part =
      let e = entry_of is_hash v (Dict.set fields field value) t in
      (caught-enforcing (key ∷ []) (touch key (put key e c)), write_entry-IsWithin key e c d part)

  write_field-IsWritten :
      (key field value : Text) (found : Option RedisEntry) (c d : Client)
      → IsNoString (shape_of_entry found)
      → IsPart c d
      → IsWritten key d (write_field key field value found c)
  write_field-IsWritten key field value none c d h part =
      let e = new_hash field value in
      (caught-enforcing (key ∷ []) (touch key (put key e c)), write_entry-IsWithin key e c d part)
  write_field-IsWritten key field value (some e) c d h part =
      write_entry_field-IsWritten key field value c d e.kind e.value e.fields e.expires_at h part

  hset-IsWritten :
      (key field value : Text) (c : Client)
      → IsNoString (sees c key)
      → IsWritten key c (Methods.hset key field value c)
  unfolding Methods.hset
  hset-IsWritten key field value c h =
      let c1 = purge_expired c in
      let part = purge_expired-IsPart c in
      let no_string : IsNoString (sees c1 key) = elim (IsPart-IsWithin c1 c part key) [
        | inl gone ↦ inl gone
        | inr same ↦ rw same h
      ] in
      write_field-IsWritten key field value (Dict.get c1.entries key) c1 c no_string part

  -- So caught, it is a lawful cache.
  pub catching_client-IsLawful : IsLawful catching_client sees
  unfolding Methods.set Methods.get Methods.hget Methods.hgetall
  catching_client-IsLawful = record {
    set-ok = λ key value c.
        caught-enforcing (key ∷ []) (touch key (put key (new_string value) (purge_expired c)));
    set-IsWithin = set-IsWithin;
    get-read_shape = get-read_shape;
    get-IsWithin = λ key c.
        after_live key c (Methods.get key c).1
          (read_string-IsPart key (live key c).0 (live key c).1);
    hset-ok = λ key field value c h. (hset-IsWritten key field value c h).0;
    hset-IsWithin = λ key field value c h. (hset-IsWritten key field value c h).1;
    hget-IsWithin = λ key field c.
        after_live key c (Methods.hget key field c).1
          (read_field-IsPart key field (live key c).0 (live key c).1);
    hgetall-IsWithin = λ key c.
        after_live key c (Methods.hgetall key c).1
          (read_fields-IsPart key (live key c).0 (live key c).1);
    expire-ok = λ key ttl_seconds c. ((Methods.expire key ttl_seconds c).0, refl);
    expire-IsWithin = expire-IsWithin;
    delete-is_there = λ key c. ap ok (delete-is_there key c);
    delete-IsWithin = delete-IsWithin;
  }
