-- ===== src/Service/Ttl.antt =====
-- The reply to TTL: internal/service/ttl_service.py and internal/expiration.
use mini_redis_test_app.Prelude.{
  ◌+◌, ◌≡◌, refl, none, some, [], ◌∷◌, arith, Bool-cases, Option-cases, inl, inr,
}
use mini_redis_test_app.Prelude.Int.{ℤ, pos, negsuc}
use mini_redis_test_app.Command.{argument}
use mini_redis_test_app.Dict
use mini_redis_test_app.Dict.{get-remove_self}
use mini_redis_test_app.Platform.{Platform}
use mini_redis_test_app.Repository.{delete}
use mini_redis_test_app.Resp.{RespValue, number}
use mini_redis_test_app.Result.{Result, Result-either, ok, raise}
use mini_redis_test_app.Service.{State, Exec, pure, continue, ◌>>=◌}
use mini_redis_test_app.Service.Basic.{ttl_service}
use mini_redis_test_app.Service.Execute.{execute, execute_keys}
use mini_redis_test_app.Service.Expiration.{
  purge_if_expired, is_key_expired, now, is_expired, delete_key, remaining_seconds,
  calculate_remaining_seconds, at_least_zero,
}
use mini_redis_test_app.Service.Strings.{request_of, live_entry}
use mini_redis_test_app.Text.{Text, text_eq}

module _ ⦃P : Platform⦄ where
  -- What remains, at least 0.
  abbrev pub seconds_left : Result ℤ → Result ℤ
  seconds_left (ok (pos n)) = ok (pos n)
  seconds_left (ok (negsuc n)) = ok (pos 0)
  seconds_left (raise e) = raise e

  calculate_remaining_seconds-seconds_left :
      (current t : P.Float)
      → calculate_remaining_seconds current t ≡ seconds_left (P.ceil (P.float_sub t current))
  unfolding calculate_remaining_seconds at_least_zero
  calculate_remaining_seconds-seconds_left current t =
      elim (Result-either (P.ceil (P.float_sub t current))) [
        | inl (pos n, h) ↦ rw (calculate_remaining_seconds, h) (ground arith)
        | inl (negsuc n, h) ↦ rw (calculate_remaining_seconds, h) (ground arith)
        | inr (e, h) ↦ rw (calculate_remaining_seconds, h) refl
      ]

  -- -2 without a live entry, -1 without an expiration time, else the seconds that remain at the next
  -- reading of the clock but one, rounded up.
  abbrev pub ttl_reply : State → Text → Result ℤ
  ttl_reply s k = elim (live_entry s k) [
    | none ↦ ok (negsuc 1)
    | some _ ↦ elim (Dict.get s.ttl k) [
      | none ↦ ok (negsuc 0)
      | some t ↦ seconds_left (P.ceil (P.float_sub t (s.readings (s.reads + 1))))
    ]
  ]

  remaining_seconds-eq :
      (k : Text) (s : State) (t : P.Float)
      → Dict.get s.ttl k ≡ some t
      → (remaining_seconds k s).0 ≡ elim (calculate_remaining_seconds (s.readings s.reads) t) [
        | ok n ↦ ok (some n)
        | raise e ↦ raise e
      ]
  unfolding remaining_seconds now ◌>>=◌
  remaining_seconds-eq k s t found = rw (remaining_seconds, found) (ground arith)

  ttl_service-eq : (k : Text) (s : State) → (ttl_service k s).0 ≡ ttl_reply s k
  unfolding ttl_service purge_if_expired is_key_expired now delete_key delete ◌>>=◌
  ttl_service-eq k s = elim (Option-cases (Dict.get s.ttl k)) [
    | inl free ↦ elim (Option-cases (Dict.get s.store k)) [
      | inl missing ↦ rw (free, missing, ttl_reply) refl
      | inr (e, here) ↦ rw (free, here, ttl_reply, free) refl
    ]
    | inr (t, found) ↦ elim (Bool-cases (is_expired (s.readings s.reads) t)) [
      | inl past ↦ rw (found, past, ttl_reply) refl
      | inr later ↦ elim (Option-cases (Dict.get s.store k)) [
        | inl missing ↦ rw (found, later, missing, ttl_reply) refl
        | inr (e, here) ↦
            let s' = record s { reads = s.reads + 1 } in
            let left = calculate_remaining_seconds-seconds_left (s.readings (s.reads + 1)) t in
            rw (found, later, here, found, remaining_seconds-eq k s' t found, left, ttl_reply)
              (ground arith)
      ]
    ]
  ]

  abbrev pub number_reply : Result ℤ → Result RespValue
  number_reply (ok n) = ok (number n)
  number_reply (raise e) = raise e

  result_of :
      (r : Result ℤ × State) → (continue r.0 (λ n. pure (number n)) r.1).0 ≡ number_reply r.0
  unfolding pure
  result_of (ok n, s) = refl
  result_of (raise e, s) = refl

  -- An action followed by the reply.
  number_of : (m : Exec ℤ) (s : State) → ((m >>= λ n. pure (number n)) s).0 ≡ number_reply (m s).0
  unfolding ◌>>=◌
  number_of m s = result_of (m s)

  -- TTL of any key in any state replies -2 if the key has no live entry, -1 if it has no
  -- expiration time, and else with the remaining seconds, rounded up and at least 0. It raises
  -- exactly where the rounding does.
  pub execute_ttl-eq :
      (k : Text) (s : State)
      → (execute (request_of "TTL" (k ∷ [])) s).0 ≡ number_reply (ttl_reply s k)
  unfolding execute execute_keys text_eq argument ◌>>=◌
  execute_ttl-eq k s = rw (← ttl_service-eq k s) (number_of (ttl_service k) s)
