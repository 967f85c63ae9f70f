-- ===== src/Arena/Client/Room.antt =====
-- The memory limit of the in-memory client: redis_client.py, `_enforce_max_memory`.
use mini_redis_test_app.Prelude.{
  ℕ, zero, suc, ◌≤◌, ◌<◌, ◌≡◌, ◌⊎◌, inl, inr, refl, true, Option, none, some, List, [], ◌∷◌, All,
  All-weaken, length, arith, leb, ltb, if_intro, Bool-cases, Option-cases,
}
use mini_redis_test_app.Arena.Client.{
  RedisEntry, Client, delete, purge_expired, sum_sizes, used_memory_bytes, oldest_of, candidate,
  evict_key, enforce_while, delete_protected, enforce_protected, enforce_limit, enforce_max_memory,
}
use mini_redis_test_app.Dict
use mini_redis_test_app.Dict.{Dict, contains, keys, length-remove_lt, remove_absent}
use mini_redis_test_app.Platform.{Platform}
use mini_redis_test_app.Result.{ok}
use mini_redis_test_app.Service.{State}
use mini_redis_test_app.Service.Eviction.{oldest-none, oldest-mem}
use mini_redis_test_app.Service.Measure.{oldest, better, eviction_candidate-eq}
use mini_redis_test_app.Service.Memory.{eviction_candidate}
use mini_redis_test_app.Text.{Text, text_eq, text_eq_iff, text_eq_refl}

module _ ⦃P : Platform⦄ where
  oldest_of-oldest :
      (protected : List Text) (order : Dict ℕ) (ks : List Text) (best : Option (Text × ℕ))
      → oldest_of protected order ks best ≡ oldest protected order ks best
  unfolding oldest_of oldest better
  oldest_of-oldest protected order [] none = refl
  oldest_of-oldest protected order [] (some (key, n)) = refl
  oldest_of-oldest protected order (k ∷ ks) best = oldest_of-oldest protected order ks _

  -- For every list of protected keys: an in-memory client and a server that list the same keys and
  -- remember the same accesses choose the same key to evict.
  pub eviction_candidate-candidate :
      (protected : List Text) (c : Client) (s : State)
      → keys s.store ≡ keys c.entries
      → s.access_order ≡ c.access_order
      → (eviction_candidate protected s).0 ≡ ok (candidate protected c)
  unfolding candidate
  eviction_candidate-candidate protected c s same_keys same_order =
      rw
        (
          eviction_candidate-eq protected s,
          same_keys,
          same_order,
          oldest_of-oldest protected c.access_order (keys c.entries) none,
        )
        refl

  -- Every listed key has an entry.
  abbrev IsEntry : Dict RedisEntry → Text → Type 0
  IsEntry d k = (e : RedisEntry) × (Dict.get d k ≡ some e)

  IsEntry-cons :
      (j : Text) (v : RedisEntry) (d : Dict RedisEntry) (k : Text)
      → IsEntry d k
      → IsEntry ((j, v) ∷ d) k
  unfolding Dict.get
  IsEntry-cons j v d k (e, h) = elim (Bool-cases (text_eq j k)) [
    | inl same ↦ (v, rw same)
    | inr other ↦ (e, rw other h)
  ]

  keys-IsEntry : (d : Dict RedisEntry) → All (IsEntry d) (keys d)
  unfolding keys
  keys-IsEntry [] = tt
  keys-IsEntry ((j, v) ∷ d) = (
    (v, unfold Dict.get in rw (text_eq_refl j)),
    All-weaken (IsEntry-cons j v d) (keys d) (keys-IsEntry d),
  )

  -- The keys of the dictionary are all protected.
  abbrev Covers : List Text → Dict RedisEntry → Type 0
  Covers protected d = All (λ k. contains protected k ≡ true) (keys d)

  candidate-none :
      (protected : List Text) (c : Client)
      → candidate protected c ≡ none
      → Covers protected c.entries
  unfolding candidate
  candidate-none protected c h =
      let e = rw (oldest_of-oldest protected c.access_order (keys c.entries) none) at h in
      (oldest-none protected c.access_order (keys c.entries) none e).1

  candidate-some :
      (protected : List Text) (c : Client) (k : Text)
      → candidate protected c ≡ some k
      → IsEntry c.entries k
  unfolding candidate
  candidate-some protected c k h =
      let e = rw (oldest_of-oldest protected c.access_order (keys c.entries) none) at h in
      oldest-mem (IsEntry c.entries) protected c.access_order (keys c.entries) none k
        (keys-IsEntry c.entries) (λ j n h'. absurd (ground arith)) e

  evict_key-entries : (k : Text) (c : Client) → (evict_key k c).entries ≡ Dict.remove c.entries k
  unfolding evict_key delete
  evict_key-entries k c = elim (Option-cases (Dict.get c.entries k)) [
    | inl missing ↦ rw (evict_key, delete, missing, remove_absent c.entries k missing) refl
    | inr (e, found) ↦ rw (evict_key, delete, found) refl
  ]

  evict_key-shorter :
      (k : Text) (c : Client)
      → IsEntry c.entries k
      → length (evict_key k c).entries < length c.entries
  evict_key-shorter k c (e, found) =
      rw (evict_key-entries k c) (length-remove_lt c.entries k e found)

  -- The data fit, or everything that is left is protected.
  abbrev IsReduced : ℕ → List Text → Client → Type 0
  IsReduced limit protected c = (used_memory_bytes c ≤ limit) ⊎ Covers protected c.entries

  enforce_while-IsReduced :
      (fuel limit : ℕ) (protected : List Text) (c : Client)
      → length c.entries < fuel
      → IsReduced limit protected (enforce_while fuel limit protected c)
  unfolding enforce_while
  enforce_while-IsReduced zero limit protected c h = absurd (omega arith)
  enforce_while-IsReduced (suc fuel) limit protected c h =
      elim (Bool-cases (ltb limit (used_memory_bytes c))) [
        | inr fits ↦ rw (enforce_while, fits) (inl (ground arith))
        | inl large ↦ elim (Option-cases (candidate protected c)) [
          | inl none' ↦ rw (enforce_while, large, none') (inr (candidate-none protected c none'))
          | inr (k, chosen) ↦
              rw (enforce_while, large, chosen)
                (let shorter = evict_key-shorter k c (candidate-some protected c k chosen) in
                  enforce_while-IsReduced fuel limit protected (evict_key k c) (omega arith))
        ]
      ]

  Covers-remove :
      (key : Text) (rest : List Text) (d : Dict RedisEntry)
      → Covers (key ∷ rest) d
      → Covers rest (Dict.remove d key)
  unfolding keys Dict.remove contains
  Covers-remove key rest [] h = tt
  Covers-remove key rest ((j, v) ∷ d) (hj, h) = elim (Bool-cases (text_eq j key)) [
    | inl same ↦ rw same (Covers-remove key rest d h)
    | inr other ↦
        rw other (ground (arith, text_eq_iff j key, text_eq_iff key j), Covers-remove key rest d h)
  ]

  delete_protected-entries :
      (key : Text) (c : Client) → (delete_protected key c).entries ≡ Dict.remove c.entries key
  unfolding delete_protected
  delete_protected-entries key c = elim (Option-cases (Dict.get c.entries key)) [
    | inl missing ↦ rw (delete_protected, missing, remove_absent c.entries key missing) refl
    | inr (e, found) ↦ rw (delete_protected, found) (evict_key-entries key c)
  ]

  nothing_left : (limit : ℕ) (d : Dict RedisEntry) → Covers [] d → sum_sizes d ≤ limit
  unfolding sum_sizes keys contains
  nothing_left limit [] h = omega arith
  nothing_left limit ((k, e) ∷ d) (h, _) = absurd (ground arith)

  enforce_protected-le :
      (limit : ℕ) (protected : List Text) (c : Client)
      → Covers protected c.entries
      → used_memory_bytes (enforce_protected limit protected c) ≤ limit
  unfolding enforce_protected used_memory_bytes
  enforce_protected-le limit [] c h = nothing_left limit c.entries h
  enforce_protected-le limit (key ∷ rest) c h =
      elim (Bool-cases (leb (used_memory_bytes c) limit)) [
        | inl fits ↦ rw (enforce_protected, fits) (ground arith)
        | inr large ↦
            rw (enforce_protected, large)
              (enforce_protected-le limit rest (delete_protected key c)
                (rw (delete_protected-entries key c) (Covers-remove key rest c.entries h)))
      ]

  enforce_limit-le :
      (limit : ℕ) (protected : List Text) (c : Client)
      → used_memory_bytes (enforce_limit limit protected c) ≤ limit
  unfolding enforce_limit
  enforce_limit-le limit protected c =
      let c1 = purge_expired c in
      let c2 = enforce_while (suc (length c1.entries)) limit protected c1 in
      if_intro (λ c'. used_memory_bytes c' ≤ limit) (leb (used_memory_bytes c2) limit)
        (λ fits. ground arith)
        (λ large.
          elim (enforce_while-IsReduced (suc (length c1.entries)) limit protected c1
            (omega arith)) [
              | inl fits ↦ absurd (ground arith)
              | inr covered ↦ enforce_protected-le limit protected c2 covered
            ])

  -- For every limit, list of protected keys and state of the in-memory client: after
  -- `_enforce_max_memory` the entries have at most the size allowed, even if that costs the
  -- protected ones.
  pub enforce_max_memory-le :
      (protected : List Text) (c : Client) (limit : ℕ)
      → c.max_memory_bytes ≡ some limit
      → used_memory_bytes (enforce_max_memory protected c) ≤ limit
  unfolding enforce_max_memory
  enforce_max_memory-le protected c limit h =
      rw (enforce_max_memory, h) (enforce_limit-le limit protected c)
