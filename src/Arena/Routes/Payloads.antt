-- ===== src/Arena/Routes/Payloads.antt =====
-- internal/arena/lane_a/api/routes.py: the payloads that are accepted.
use mini_redis_test_app.Prelude.{
  ℕ, ◌≡◌, ◌⊎◌, inl, inr, refl, true, false, ◌&&◌, Option, none, some, [], ◌∷◌, arith, if◌then◌else◌,
}
use mini_redis_test_app.Arena.Models.{
  CommandName, set_command, hset_command, hget_command, ArenaRequest,
}
use mini_redis_test_app.Arena.Routes.{
  requires_field, requires_value, is_blank, is_none, validate_payload,
}
use mini_redis_test_app.Platform.{Platform}
use mini_redis_test_app.Result.{ok, raise, value_error}
use mini_redis_test_app.Text.{Text}

module _ ⦃P : Platform⦄ where
  -- The commands that want a field, and those that want a value.
  abbrev pub IsFielded : CommandName → Type 0
  IsFielded c = (c ≡ hset_command) ⊎ (c ≡ hget_command)

  abbrev pub IsValued : CommandName → Type 0
  IsValued c = (c ≡ set_command) ⊎ (c ≡ hset_command)

  -- A text of one character at least.
  abbrev pub IsNamed : Option Text → Type 0
  IsNamed o = (c : ℕ) × (s : Text) × (o ≡ some (c ∷ s))

  -- The payload lacks what its command wants.
  abbrev pub IsIncomplete : ArenaRequest → Type 0
  IsIncomplete p =
      (IsFielded p.command × ((p.field ≡ none) ⊎ (p.field ≡ some [])))
      ⊎ (IsValued p.command × (p.value ≡ none))

  -- The field is the one given, and named, if the command wants one, else none.
  abbrev pub KeepsField : CommandName → Option Text → Option Text → Type 0
  KeepsField c given kept =
      (IsFielded c × (kept ≡ given) × IsNamed given) ⊎ (¬ IsFielded c × (kept ≡ none))

  abbrev pub KeepsValue : CommandName → Option Text → Option Text → Type 0
  KeepsValue c given kept =
      (IsValued c × (kept ≡ given) × ((v : Text) × (given ≡ some v)))
      ⊎ (¬ IsValued c × (kept ≡ none))

  abbrev pub IsAccepted : ArenaRequest → ArenaRequest → Type 0
  IsAccepted p r =
      KeepsField p.command p.field r.field
      × KeepsValue p.command p.value r.value
      × (r.request_id ≡ p.request_id)
      × (r.mode ≡ p.mode)
      × (r.command ≡ p.command)
      × (r.key ≡ p.key)
      × (r.ttl_enabled ≡ p.ttl_enabled)
      × (r.ttl_seconds ≡ p.ttl_seconds)

  requires_field-IsFielded :
      (c : CommandName)
      → (IsFielded c × (requires_field c ≡ true)) ⊎ (¬ IsFielded c × (requires_field c ≡ false))
  unfolding requires_field
  requires_field-IsFielded c = ground arith

  requires_value-IsValued :
      (c : CommandName)
      → (IsValued c × (requires_value c ≡ true)) ⊎ (¬ IsValued c × (requires_value c ≡ false))
  unfolding requires_value
  requires_value-IsValued c = ground arith

  -- What the test on a field that is wanted, or not, comes to.
  field_lem :
      (c : CommandName) (o : Option Text)
      → (((requires_field c && is_blank o) ≡ true) × IsFielded c × ((o ≡ none) ⊎ (o ≡ some [])))
        ⊎ (((requires_field c && is_blank o) ≡ false)
            × KeepsField c o (if requires_field c then o else none))
  field_lem c none = elim (requires_field-IsFielded c) [
    | inl (wanted, h) ↦ rw h (inl (refl, wanted, inl refl))
    | inr (other, h) ↦ rw h (inr (refl, inr (other, refl)))
  ]
  field_lem c (some []) = elim (requires_field-IsFielded c) [
    | inl (wanted, h) ↦ rw h (inl (refl, wanted, inr refl))
    | inr (other, h) ↦ rw h (inr (refl, inr (other, refl)))
  ]
  field_lem c (some (x ∷ s)) = elim (requires_field-IsFielded c) [
    | inl (wanted, h) ↦ rw h (inr (refl, inl (wanted, refl, (x, s, refl))))
    | inr (other, h) ↦ rw h (inr (refl, inr (other, refl)))
  ]

  value_lem :
      (c : CommandName) (o : Option Text)
      → (((requires_value c && is_none o) ≡ true) × IsValued c × (o ≡ none))
        ⊎ (((requires_value c && is_none o) ≡ false)
            × KeepsValue c o (if requires_value c then o else none))
  value_lem c none = elim (requires_value-IsValued c) [
    | inl (wanted, h) ↦ rw h (inl (refl, wanted, refl))
    | inr (other, h) ↦ rw h (inr (refl, inr (other, refl)))
  ]
  value_lem c (some v) = elim (requires_value-IsValued c) [
    | inl (wanted, h) ↦ rw h (inr (refl, inl (wanted, refl, (v, refl))))
    | inr (other, h) ↦ rw h (inr (refl, inr (other, refl)))
  ]

  -- A payload is refused with a ValueError, and then it is an HSET or HGET whose field is missing
  -- or empty or an SET or HSET without a value, or it is accepted: then HSET and HGET keep the
  -- field given, which is not empty, SET and HSET keep the value given, the others have no field
  -- or no value, and all else is as it was.
  pub validate_payload-IsAccepted :
      (p : ArenaRequest)
      → ((validate_payload p ≡ raise value_error) × IsIncomplete p)
        ⊎ ((r : ArenaRequest) × (validate_payload p ≡ ok r) × IsAccepted p r)
  unfolding validate_payload
  validate_payload-IsAccepted p = elim (field_lem p.command p.field) [
    | inl (blank, fielded, lacks) ↦ inl (rw (validate_payload, blank) refl, inl (fielded, lacks))
    | inr (given, keeps) ↦ elim (value_lem p.command p.value) [
      | inl (missing, valued, lacks) ↦
          inl (rw (validate_payload, given, missing) refl, inr (valued, lacks))
      | inr (there, keeps') ↦
          let r = record p {
            field = if requires_field p.command then p.field else none;
            value = if requires_value p.command then p.value else none;
          } in
          inr (
            r,
            simp (validate_payload, given, there),
            (keeps, keeps', refl, refl, refl, refl, refl, refl),
          )
    ]
  ]
