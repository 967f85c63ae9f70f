-- ===== src/Service/Raises.antt =====
-- Which errors the service's methods raise: one rule for each way to build an action.
use mini_redis_test_app.Prelude.{
  ◌≡◌, refl, ap, Bool, true, false, Option, none, some, List, [], ◌∷◌, ℕ, arith, if◌then◌else◌,
}
use mathlib.Core.Path.{subst}
use mini_redis_test_app.Platform.{Platform}
use mini_redis_test_app.Repository.{ValueEntry}
use mini_redis_test_app.Result.{Result, Error, ok, raise}
use mini_redis_test_app.Service.{State, Exec, pure, throw, lift, gets, modify, maybe, ◌>>=◌}
use mini_redis_test_app.Service.Entries.{
  get_live_entry, get_typed_entry, typed, put_entry, store_entry, get_or_create, wrong_type,
}
use mini_redis_test_app.Service.Expiration.{now, delete_key, is_key_expired, purge_if_expired}
use mini_redis_test_app.Service.Hashes.{drop_if_empty}
use mini_redis_test_app.Service.Memory.{
  forget_key, touch_key, delete_entry_and_ttl, forget_if_missing, purge_keys,
  purge_all_expired_keys, sum_entries, current_memory_bytes,
}
use mini_redis_test_app.Text.{Text}

module _ ⦃P : Platform⦄ where
  -- In every state, what `m` raises has the property `Q`.
  pub record Raises {A : Type 0} (Q : Error → Type 0) (m : Exec A) : Type 0 where
    pub at : (s : State) (e : Error) → (m s).0 ≡ raise e → Q e

  module _ {A : Type 0} {Q : Error → Type 0} where
    pub Raises-pure : (a : A) → Raises Q (pure a)
    unfolding pure
    Raises-pure a = record { at = λ s e h. absurd (ground arith) }

    pub Raises-throw : (e : Error) → Q e → Raises Q (throw {A = A} e)
    unfolding throw
    Raises-throw e q = record { at = λ s e' h. subst Q (ground arith) q }

    pub Raises-gets : (f : State → A) → Raises Q (gets f)
    unfolding gets
    Raises-gets f = record { at = λ s e h. absurd (ground arith) }

    pub Raises-lift : (r : Result A) → ((e : Error) → r ≡ raise e → Q e) → Raises Q (lift r)
    unfolding lift
    Raises-lift r q = record { at = λ s e h. q e h }

    pub Raises-if :
        (b : Bool) (m n : Exec A) → Raises Q m → Raises Q n → Raises Q (if b then m else n)
    Raises-if true m n km kn = km
    Raises-if false m n km kn = kn

  pub Raises-modify : {Q : Error → Type 0} (f : State → State) → Raises Q (modify f)
  unfolding modify
  Raises-modify f = record { at = λ s e h. absurd (ground arith) }

  module _ {A B : Type 0} {Q : Error → Type 0} where
    pub Raises-bind :
        (m : Exec A) (f : A → Exec B) → Raises Q m → ((a : A) → Raises Q (f a)) → Raises Q (m >>= f)
    unfolding ◌>>=◌
    Raises-bind m f km kf = record { at = λ s e h. go (m s).0 (m s).1 (λ e' h'. km.at s e' h') e h }
      where
        go :
            (r : Result A) (s : State)
            → ((e : Error) → r ≡ raise e → Q e)
            → (e : Error) → (((λ t. (r, t)) >>= f) s).0 ≡ raise e
            → Q e
        go (ok a) s k e h = (kf a).at s e h
        go (raise e') s k e h = let same : e' ≡ e = ground arith in k e (ap raise same)

    pub Raises-maybe :
        (o : Option A) (m : Exec B) (f : A → Exec B)
        → Raises Q m
        → ((a : A) → Raises Q (f a))
        → Raises Q (maybe o m f)
    unfolding maybe
    Raises-maybe none m f km kf = km
    Raises-maybe (some a) m f km kf = kf a

  -- An action that raises nothing returns.
  pub returns :
      {A : Type 0} (m : Exec A)
      → Raises (λ e. ⊥) m
      → (s : State) → (a : A) × (m s ≡ (ok a, (m s).1))
  returns {A} m k s = go (m s) (k.at s)
    where
      go : (r : Result A × State) → ((e : Error) → r.0 ≡ raise e → ⊥) → (a : A) × (r ≡ (ok a, r.1))
      go (ok a, t) n = (a, refl)
      go (raise e, t) n = absurd (n e refl)

pub ruleset raises_rules =
    (Raises-pure, Raises-gets, Raises-modify, Raises-if, Raises-bind, Raises-maybe)

module _ ⦃P : Platform⦄ {Q : Error → Type 0} where
  now-Raises : Raises Q now
  unfolding now
  now-Raises = record { at = λ s e h. absurd (ground arith) }

  is_key_expired-Raises : (key : Text) → Raises Q (is_key_expired key)
  unfolding is_key_expired
  is_key_expired-Raises key = search (raises_rules, now-Raises)

  pub purge_if_expired-Raises : (key : Text) → Raises Q (purge_if_expired key)
  unfolding purge_if_expired delete_key
  purge_if_expired-Raises key = search (raises_rules, is_key_expired-Raises)

  pub forget_key-Raises : (key : Text) → Raises Q (forget_key key)
  unfolding forget_key
  forget_key-Raises key = search raises_rules

  pub touch_key-Raises : (key : Text) → Raises Q (touch_key key)
  unfolding touch_key
  touch_key-Raises key = search raises_rules

  pub put_entry-Raises : (key : Text) (e : ValueEntry) → Raises Q (put_entry key e)
  unfolding put_entry
  put_entry-Raises key e = search raises_rules

  pub delete_entry_and_ttl-Raises : (key : Text) → Raises Q (delete_entry_and_ttl key)
  unfolding delete_entry_and_ttl delete_key
  delete_entry_and_ttl-Raises key = search raises_rules

  pub drop_if_empty-Raises : {A : Type 0} (l : List A) (key : Text) → Raises Q (drop_if_empty l key)
  unfolding drop_if_empty
  drop_if_empty-Raises [] key = delete_entry_and_ttl-Raises key
  drop_if_empty-Raises (x ∷ l) key = search raises_rules

  forget_if_missing-Raises : (key : Text) → Raises Q (forget_if_missing key)
  unfolding forget_if_missing
  forget_if_missing-Raises key = search raises_rules

  purge_keys-Raises : (l : List Text) → Raises Q (purge_keys l)
  unfolding purge_keys
  purge_keys-Raises [] = search raises_rules
  purge_keys-Raises (key ∷ rest) =
      Raises-bind _ _ (purge_if_expired-Raises key)
        λ _. Raises-bind _ _ (forget_if_missing-Raises key) λ _. purge_keys-Raises rest

  pub purge_all-Raises : Raises Q purge_all_expired_keys
  unfolding purge_all_expired_keys
  purge_all-Raises = search (raises_rules, purge_keys-Raises)

  sum_entries-Raises : (l : List Text) (total : ℕ) → Raises Q (sum_entries l total)
  unfolding sum_entries
  sum_entries-Raises [] total = search raises_rules
  sum_entries-Raises (key ∷ rest) total =
      let tail = sum_entries-Raises rest in search (raises_rules, tail) depth 8

  pub current_memory_bytes-Raises : Raises Q current_memory_bytes
  unfolding current_memory_bytes
  current_memory_bytes-Raises = search (raises_rules, sum_entries-Raises)

  -- A typed entry can be refused for its type only.
  module _ (wrong : Q wrong_type) where
    typed-Raises :
        {A : Type 0} (view : ValueEntry → Option A) (o : Option ValueEntry)
        → Raises Q (typed view o)
    unfolding typed
    typed-Raises view none = search raises_rules
    typed-Raises view (some e) =
        Raises-maybe (view e) _ _ (Raises-throw wrong_type wrong) (λ a. search raises_rules)

    get_live_entry-Raises : (key : Text) → Raises Q (get_live_entry key)
    unfolding get_live_entry
    get_live_entry-Raises key =
        search (raises_rules, purge_if_expired-Raises, touch_key-Raises) depth 8

    pub get_typed_entry-Raises :
        {A : Type 0} (view : ValueEntry → Option A) (key : Text)
        → Raises Q (get_typed_entry view key)
    unfolding get_typed_entry
    get_typed_entry-Raises view key = search (raises_rules, get_live_entry-Raises, typed-Raises)

    pub get_or_create-Raises :
        {A : Type 0} (view : ValueEntry → Option A) (fresh : ValueEntry) (empty : A) (key : Text)
        → Raises Q (get_or_create view fresh empty key)
    unfolding get_or_create store_entry
    get_or_create-Raises view fresh empty key =
        search (raises_rules, get_typed_entry-Raises, touch_key-Raises) depth 8
