-- ===== src/Arena/Client/Shapes.antt =====
-- internal/arena/lane/redis_client.py: what the calls of the in-memory client leave of its entries.
use mini_redis_test_app.Prelude.{
  ◌≡◌, ◌⊎◌, inl, inr, refl, ap, ◌∙◌, Option, none, some, [], ◌∷◌, ◌+◌, Bool-cases, Option-cases,
}
use mini_redis_test_app.Arena.Client.{
  Kind, is_string, is_hash, RedisEntry, Client, delete, purge_expired, touch, enforcing,
}
use mini_redis_test_app.Arena.Client.Losses.{
  IsPart, IsPart-refl, IsPart-trans, delete-get, delete-IsPart, purge_expired-IsPart, touch-entries,
  enforcing-IsPart,
}
use mini_redis_test_app.Arena.Client.Methods
use mini_redis_test_app.Arena.Client.Methods.{
  live, new_string, new_hash, put, read_string, read_field, read_fields, write_field,
}
use mini_redis_test_app.Arena.Lawful.{
  Shape, View, string_shape, hash_shape, update, IsWithin, IsWithin-trans, IsWithin-update,
  read_shape,
}
use mini_redis_test_app.Arena.Mongo.{is_there}
use mini_redis_test_app.Dict
use mini_redis_test_app.Dict.{Dict, get-set, get-remove}
use mini_redis_test_app.Platform.{Platform}
use mini_redis_test_app.Result.{ok}
use mini_redis_test_app.Text.{Text, text_eq}

module _ ⦃P : Platform⦄ where
  abbrev pub shape_of_entry : Option RedisEntry → Option Shape
  shape_of_entry none = none
  shape_of_entry (some e) = elim e.kind [
    | is_string ↦ some (string_shape e.value)
    | is_hash ↦ some hash_shape
  ]

  pub Kind-cases : (kind : Kind) → (kind ≡ is_string) ⊎ (kind ≡ is_hash)
  Kind-cases is_string = inl refl
  Kind-cases is_hash = inr refl

  -- What a key of the client holds, expired entries included.
  abbrev pub sees : Client → View
  sees c j = shape_of_entry (Dict.get c.entries j)

  pub IsPart-IsWithin : (c d : Client) → IsPart c d → IsWithin (sees c) (sees d)
  IsPart-IsWithin c d part j = elim (part j) [
    | inl gone ↦ inl (ap shape_of_entry gone)
    | inr same ↦ inr (ap shape_of_entry same)
  ]

  pub put-sees :
      (key : Text) (e : RedisEntry) (c : Client) (j : Text)
      → sees (put key e c) j ≡ update key (shape_of_entry (some e)) (sees c) j
  put-sees key e c j = elim (Bool-cases (text_eq key j)) [
    | inl same ↦ rw (get-set c.entries key j e, same) refl
    | inr other ↦ rw (get-set c.entries key j e, other) refl
  ]

  -- Every write ends so.
  pub write_entry-IsWithin :
      (key : Text) (e : RedisEntry) (c d : Client)
      → IsPart c d
      → IsWithin
          (sees (enforcing (key ∷ []) (touch key (put key e c))).1)
          (update key (shape_of_entry (some e)) (sees d))
  write_entry-IsWithin key e c d part =
      let shape = shape_of_entry (some e) in
      let written = touch key (put key e c) in
      IsWithin-trans (sees (enforcing (key ∷ []) written).1) (update key shape (sees c))
        (update key shape (sees d))
        (IsWithin-trans (sees (enforcing (key ∷ []) written).1) (sees written)
          (update key shape (sees c))
          (IsPart-IsWithin (enforcing (key ∷ []) written).1 written
            (enforcing-IsPart (key ∷ []) written))
          (λ j. inr (rw (touch-entries key (put key e c)) (put-sees key e c j))))
        (IsWithin-update key shape (sees c) (sees d) (IsPart-IsWithin c d part))

  pub set-IsWithin :
      (key value : Text) (c : Client)
      → IsWithin
          (sees (Methods.set key value c).1)
          (update key (some (string_shape (some value))) (sees c))
  unfolding Methods.set
  set-IsWithin key value c =
      write_entry-IsWithin key (new_string value) (purge_expired c) c (purge_expired-IsPart c)

  pub delete-IsWithin :
      (key : Text) (c : Client) → IsWithin (sees (delete key c).1) (update key none (sees c))
  delete-IsWithin key c j = elim (Bool-cases (text_eq key j)) [
    | inl same ↦ inl (rw (delete-get key c j, get-remove c.entries key j, same) refl)
    | inr other ↦ inr (rw (delete-get key c j, get-remove c.entries key j, other) refl)
  ]

  pub delete-is_there : (key : Text) (c : Client) → (delete key c).0 ≡ is_there (sees c key)
  unfolding delete
  delete-is_there key c = elim (Option-cases (Dict.get c.entries key)) [
    | inl missing ↦ rw (delete, missing) refl
    | inr (e, found) ↦
        rw (delete, found) (elim (Kind-cases e.kind) [ inl h ↦ rw h refl | inr h ↦ rw h refl ])
  ]

  abbrev pub entry_of : Kind → Option Text → Dict Text → Option P.Float → RedisEntry
  entry_of kind value fields t = record {
    kind = kind;
    value = value;
    fields = fields;
    expires_at = t;
  }

  -- What a read finds: nothing, or the entry of the key; and it loses that entry at most.
  abbrev IsFound : Text → Client → Option RedisEntry × Client → Type 0
  IsFound key c (found, c') = ((found ≡ none) ⊎ (found ≡ Dict.get c.entries key)) × IsPart c' c

  live_entry-IsFound :
      (key : Text) (c : Client) (kind : Kind) (value : Option Text) (fields : Dict Text)
      (t : Option P.Float)
      → Dict.get c.entries key ≡ some (entry_of kind value fields t)
      → IsFound key c (live key c)
  unfolding live
  live_entry-IsFound key c kind value fields none found = rw (live, found) (inr refl, IsPart-refl c)
  live_entry-IsFound key c kind value fields (some t) found =
      let c1 = record c { reads = c.reads + 1 } in
      rw (live, found)
        (elim (Bool-cases (P.float_le t (c.readings c.reads))) [
          | inl past ↦ rw past (inl refl, delete-IsPart key c1)
          | inr future ↦ rw future (inr refl, IsPart-refl c)
        ])

  live-IsFound : (key : Text) (c : Client) → IsFound key c (live key c)
  unfolding live
  live-IsFound key c = elim (Option-cases (Dict.get c.entries key)) [
    | inl missing ↦ rw (live, missing) (inl refl, IsPart-refl c)
    | inr (e, found) ↦ live_entry-IsFound key c e.kind e.value e.fields e.expires_at found
  ]

  touch-IsPart : (key : Text) (c : Client) → IsPart (touch key c) c
  touch-IsPart key c j = inr (rw (touch-entries key c) refl)

  read_string-read_shape :
      (key : Text) (found : Option RedisEntry) (c : Client)
      → (read_string key found c).0 ≡ read_shape (shape_of_entry found)
  read_string-read_shape key none c = refl
  read_string-read_shape key (some e) c = elim (Kind-cases e.kind) [
    | inl h ↦ rw h refl
    | inr h ↦ rw h refl
  ]

  pub get-read_shape :
      (key : Text) (c : Client)
      → ((Methods.get key c).0 ≡ ok none) ⊎ ((Methods.get key c).0 ≡ read_shape (sees c key))
  unfolding Methods.get
  get-read_shape key c =
      let read = read_string-read_shape key (live key c).0 (live key c).1 in
      elim (live-IsFound key c).0 [
        | inl gone ↦ inl (read ∙ ap (λ o. read_shape (shape_of_entry o)) gone)
        | inr same ↦ inr (read ∙ ap (λ o. read_shape (shape_of_entry o)) same)
      ]

  pub read_string-IsPart :
      (key : Text) (found : Option RedisEntry) (c : Client) → IsPart (read_string key found c).1 c
  read_string-IsPart key none c = IsPart-refl c
  read_string-IsPart key (some e) c = elim (Kind-cases e.kind) [
    | inl h ↦ rw h (touch-IsPart key c)
    | inr h ↦ rw h (IsPart-refl c)
  ]

  pub read_field-IsPart :
      (key field : Text) (found : Option RedisEntry) (c : Client)
      → IsPart (read_field key field found c).1 c
  read_field-IsPart key field none c = IsPart-refl c
  read_field-IsPart key field (some e) c = elim (Kind-cases e.kind) [
    | inl h ↦ rw h (IsPart-refl c)
    | inr h ↦ rw h (touch-IsPart key c)
  ]

  pub read_fields-IsPart :
      (key : Text) (found : Option RedisEntry) (c : Client) → IsPart (read_fields key found c).1 c
  read_fields-IsPart key none c = IsPart-refl c
  read_fields-IsPart key (some e) c = elim (Kind-cases e.kind) [
    | inl h ↦ rw h (IsPart-refl c)
    | inr h ↦ rw h (touch-IsPart key c)
  ]

  pub after_live :
      (key : Text) (c d : Client) → IsPart d (live key c).1 → IsWithin (sees d) (sees c)
  after_live key c d part =
      IsPart-IsWithin d c (IsPart-trans d (live key c).1 c part (live-IsFound key c).1)
