-- ===== src/Arena/Client/Losses.antt =====
-- internal/arena/lane/redis_client.py: what the purge and the memory limit do to the entries.
use mini_redis_test_app.Prelude.{
  ℕ, zero, suc, ◌≡◌, ◌⊎◌, inl, inr, refl, none, List, [], ◌∷◌, arith, sym, ap, ◌+◌, ◌&&◌, leb, ltb,
  length, if_intro, Bool-cases, Option-cases,
}
use mini_redis_test_app.Arena.Client.{
  RedisEntry, Client, delete, is_past, purge_entries, purge_expired, touch, used_memory_bytes,
  candidate, evict_key, enforce_while, delete_protected, enforce_protected, enforce_limit,
  enforce_max_memory, enforcing, is_limited, is_unsized,
}
use mini_redis_test_app.Dict
use mini_redis_test_app.Dict.{Dict, get-remove, remove_absent}
use mini_redis_test_app.Platform.{Platform}
use mini_redis_test_app.Result.{Result, ok, raise, unicode_encode_error}
use mini_redis_test_app.Text.{Text, text_eq}

module _ ⦃P : Platform⦄ where
  -- Every entry of the first client is one of the second.
  abbrev pub IsPart : Client → Client → Type 0
  IsPart c d =
      (j : Text) → (Dict.get c.entries j ≡ none) ⊎ (Dict.get c.entries j ≡ Dict.get d.entries j)

  pub IsPart-refl : (c : Client) → IsPart c c
  IsPart-refl c j = inr refl

  pub IsPart-trans : (c d e : Client) → IsPart c d → IsPart d e → IsPart c e
  IsPart-trans c d e cd de j = ground (arith, cd j, de j)

  pub delete-get :
      (key : Text) (c : Client) (j : Text)
      → Dict.get (delete key c).1.entries j ≡ Dict.get (Dict.remove c.entries key) j
  unfolding delete
  delete-get key c j = elim (Option-cases (Dict.get c.entries key)) [
    | inl missing ↦
        rw (delete, missing) (sym (ap (λ d. Dict.get d j) (remove_absent c.entries key missing)))
    | inr (e, found) ↦ rw (delete, found) refl
  ]

  pub delete-IsPart : (key : Text) (c : Client) → IsPart (delete key c).1 c
  delete-IsPart key c j = elim (Bool-cases (text_eq key j)) [
    | inl same ↦ inl (rw (delete-get key c j, get-remove c.entries key j, same) refl)
    | inr other ↦ inr (rw (delete-get key c j, get-remove c.entries key j, other) refl)
  ]

  purge_entries-IsPart :
      (now : P.Float) (d : Dict RedisEntry) (c : Client) → IsPart (purge_entries now d c) c
  unfolding purge_entries
  purge_entries-IsPart now [] c = IsPart-refl c
  purge_entries-IsPart now ((key, e) ∷ rest) c =
      if_intro (λ c'. IsPart (purge_entries now rest c') c) (is_past now e)
        (λ _.
          IsPart-trans (purge_entries now rest (delete key c).1) (delete key c).1 c
            (purge_entries-IsPart now rest (delete key c).1) (delete-IsPart key c))
        (λ _. purge_entries-IsPart now rest c)

  pub purge_expired-IsPart : (c : Client) → IsPart (purge_expired c) c
  unfolding purge_expired
  purge_expired-IsPart c =
      purge_entries-IsPart (c.readings c.reads) c.entries (record c { reads = c.reads + 1 })

  pub touch-entries : (key : Text) (c : Client) → (touch key c).entries ≡ c.entries
  unfolding touch
  touch-entries key c = elim (Option-cases (Dict.get c.entries key)) [
    | inl missing ↦ rw (touch, missing) refl
    | inr (e, found) ↦ rw (touch, found) refl
  ]

  evict_key-IsPart : (key : Text) (c : Client) → IsPart (evict_key key c) c
  unfolding evict_key
  evict_key-IsPart key c = delete-IsPart key c

  enforce_while-IsPart :
      (fuel limit : ℕ) (protected : List Text) (c : Client)
      → IsPart (enforce_while fuel limit protected c) c
  unfolding enforce_while
  enforce_while-IsPart zero limit protected c = IsPart-refl c
  enforce_while-IsPart (suc fuel) limit protected c =
      elim (Bool-cases (ltb limit (used_memory_bytes c))) [
        | inr fits ↦ rw (enforce_while, fits) (IsPart-refl c)
        | inl large ↦ elim (Option-cases (candidate protected c)) [
          | inl none' ↦ rw (enforce_while, large, none') (IsPart-refl c)
          | inr (key, chosen) ↦
              rw (enforce_while, large, chosen)
                (IsPart-trans (enforce_while fuel limit protected (evict_key key c))
                  (evict_key key c) c (enforce_while-IsPart fuel limit protected (evict_key key c))
                  (evict_key-IsPart key c))
        ]
      ]

  delete_protected-IsPart : (key : Text) (c : Client) → IsPart (delete_protected key c) c
  unfolding delete_protected
  delete_protected-IsPart key c = elim (Option-cases (Dict.get c.entries key)) [
    | inl missing ↦ rw (delete_protected, missing) (IsPart-refl c)
    | inr (e, found) ↦ rw (delete_protected, found) (evict_key-IsPart key c)
  ]

  enforce_protected-IsPart :
      (limit : ℕ) (protected : List Text) (c : Client)
      → IsPart (enforce_protected limit protected c) c
  unfolding enforce_protected
  enforce_protected-IsPart limit [] c = IsPart-refl c
  enforce_protected-IsPart limit (key ∷ rest) c =
      elim (Bool-cases (leb (used_memory_bytes c) limit)) [
        | inl fits ↦ rw (enforce_protected, fits) (IsPart-refl c)
        | inr large ↦
            rw (enforce_protected, large)
              (IsPart-trans (enforce_protected limit rest (delete_protected key c))
                (delete_protected key c) c
                (enforce_protected-IsPart limit rest (delete_protected key c))
                (delete_protected-IsPart key c))
      ]

  enforce_limit-IsPart :
      (limit : ℕ) (protected : List Text) (c : Client) → IsPart (enforce_limit limit protected c) c
  unfolding enforce_limit
  enforce_limit-IsPart limit protected c =
      let c1 = purge_expired c in
      let c2 = enforce_while (suc (length c1.entries)) limit protected c1 in
      let part =
        IsPart-trans c2 c1 c (enforce_while-IsPart (suc (length c1.entries)) limit protected c1)
          (purge_expired-IsPart c) in
      if_intro (λ c'. IsPart c' c) (leb (used_memory_bytes c2) limit) (λ _. part)
        (λ _.
          IsPart-trans (enforce_protected limit protected c2) c2 c
            (enforce_protected-IsPart limit protected c2) part)

  pub enforce_max_memory-IsPart :
      (protected : List Text) (c : Client) → IsPart (enforce_max_memory protected c) c
  unfolding enforce_max_memory
  enforce_max_memory-IsPart protected c = elim (Option-cases c.max_memory_bytes) [
    | inl none' ↦ rw (enforce_max_memory, none') (IsPart-refl c)
    | inr (limit, h) ↦ rw (enforce_max_memory, h) (enforce_limit-IsPart limit protected c)
  ]

  pub enforcing-IsPart : (protected : List Text) (c : Client) → IsPart (enforcing protected c).1 c
  unfolding enforcing
  enforcing-IsPart protected c =
      if_intro (λ (x : Result (Unit {0}) × Client). IsPart x.1 c)
        (is_limited c && is_unsized (purge_expired c).entries) (λ _. purge_expired-IsPart c)
        (λ _. enforce_max_memory-IsPart protected c)

  -- It succeeds, or the sizes cannot be added up.
  pub enforcing-raises :
      (protected : List Text) (c : Client)
      → ((enforcing protected c).0 ≡ ok tt)
        ⊎ ((enforcing protected c).0 ≡ raise unicode_encode_error)
  unfolding enforcing
  enforcing-raises protected c =
      if_intro
        (λ (x : Result (Unit {0}) × Client). (x.0 ≡ ok tt) ⊎ (x.0 ≡ raise unicode_encode_error))
        (is_limited c && is_unsized (purge_expired c).entries) (λ _. inr refl) (λ _. inl refl)
