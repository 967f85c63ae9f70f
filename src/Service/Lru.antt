-- ===== src/Service/Lru.antt =====
-- command_service.py, `_eviction_candidate`: the key that is evicted is the least recently used.
use mini_redis_test_app.Prelude.{
  ◌≤◌, ◌≡◌, ◌⊎◌, refl, true, false, Option, none, some, List, All, All-weaken, arith, Bool-cases,
  Option-cases, inl, inr,
}
use mini_redis_test_app.Dict.{contains, keys}
use mini_redis_test_app.Platform.{Platform}
use mini_redis_test_app.Result.{Result, ok, raise}
use mini_redis_test_app.Service.{State}
use mini_redis_test_app.Service.Eviction.{oldest-none, oldest-some, oldest-mem}
use mini_redis_test_app.Service.Measure.{Stored, keys-Stored, oldest, eviction_candidate-eq}
use mini_redis_test_app.Service.Memory.{access_of, eviction_candidate}
use mini_redis_test_app.Text.{Text}

module _ ⦃P : Platform⦄ where
  -- What a search for a candidate may answer: a key of the store that is not protected, such that
  -- every other key is protected or was accessed no earlier; or no key, all being protected.
  abbrev pub IsLru : List Text → State → Result (Option Text) → Type 0
  IsLru protected s (raise e) = ⊥
  IsLru protected s (ok none) = All (λ k. contains protected k ≡ true) (keys s.store)
  IsLru protected s (ok (some key)) =
      Stored s.store key
      × (contains protected key ≡ false)
      × All
          (λ k.
            (contains protected k ≡ true)
            ⊎ (access_of s.access_order key ≤ access_of s.access_order k))
          (keys s.store)

  oldest-IsLru :
      (protected : List Text) (s : State)
      → IsLru protected s (ok (oldest protected s.access_order (keys s.store) none))
  oldest-IsLru protected s =
      elim (Option-cases (oldest protected s.access_order (keys s.store) none)) [
        | inl e ↦ rw e (oldest-none protected s.access_order (keys s.store) none e).1
        | inr (key, e) ↦
            let (free, _, older) =
              oldest-some protected s.access_order (keys s.store) none key tt e in
            let here =
              oldest-mem (Stored s.store) protected s.access_order (keys s.store) none key
                (keys-Stored s.store) (λ j n h. absurd (ground arith)) e in
            rw e (
              here,
              free,
              All-weaken
                  (λ k f. elim (Bool-cases (contains protected k)) [
                    | inl safe ↦ inl safe
                    | inr open' ↦ inr (f open')
                  ])
                  (keys s.store) older,
            )
      ]

  -- The search for a key to evict changes nothing and raises nothing. It answers a stored key that
  -- is not protected, and every stored key is protected or was accessed no earlier than it; it
  -- answers no key only if every stored key is protected.
  pub eviction_candidate-IsLru :
      (protected : List Text) (s : State)
      → ((eviction_candidate protected s).1 ≡ s)
        × IsLru protected s (eviction_candidate protected s).0
  eviction_candidate-IsLru protected s =
      rw (eviction_candidate-eq protected s) (refl, oldest-IsLru protected s)
