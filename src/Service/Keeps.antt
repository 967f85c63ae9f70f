-- ===== src/Service/Keeps.antt =====
-- Invariants of the service's methods: one rule for each way to build an action.
use mini_redis_test_app.Prelude.{◌≡◌, refl, Bool, true, false, Option, none, some, if◌then◌else◌}
use mini_redis_test_app.Platform.{Platform}
use mini_redis_test_app.Result.{Result, Error, ok, raise}
use mini_redis_test_app.Service.{State, Exec, pure, throw, lift, gets, modify, maybe, ◌>>=◌}

module _ ⦃P : Platform⦄ where
  -- `m` keeps `I`, whether it returns or raises.
  pub record Keeps {A : Type 0} (I : State → Type 0) (m : Exec A) : Type 0 where
    pub at : (s : State) → I s → I (m s).1

  module _ {A : Type 0} {I : State → Type 0} where
    pub Keeps-pure : (a : A) → Keeps I (pure a)
    unfolding pure
    Keeps-pure a = record { at = λ s h. h }

    pub Keeps-throw : (e : Error) → Keeps I (throw {A = A} e)
    unfolding throw
    Keeps-throw e = record { at = λ s h. h }

    pub Keeps-lift : (r : Result A) → Keeps I (lift r)
    unfolding lift
    Keeps-lift r = record { at = λ s h. h }

    pub Keeps-gets : (f : State → A) → Keeps I (gets f)
    unfolding gets
    Keeps-gets f = record { at = λ s h. h }

    pub Keeps-if : (b : Bool) (m n : Exec A) → Keeps I m → Keeps I n → Keeps I (if b then m else n)
    Keeps-if true m n km kn = km
    Keeps-if false m n km kn = kn

  pub Keeps-modify :
      {I : State → Type 0} (f : State → State) → ((s : State) → I s → I (f s)) → Keeps I (modify f)
  unfolding modify
  Keeps-modify f k = record { at = k }

  module _ {A B : Type 0} {I : State → Type 0} where
    pub Keeps-bind :
        (m : Exec A) (f : A → Exec B) → Keeps I m → ((a : A) → Keeps I (f a)) → Keeps I (m >>= f)
    unfolding ◌>>=◌
    Keeps-bind m f km kf = record { at = λ s h. go (m s).0 (m s).1 (km.at s h) }
      where
        go : (r : Result A) (s : State) → I s → I (((λ t. (r, t)) >>= f) s).1
        go (ok a) s h = (kf a).at s h
        go (raise e) s h = h

    pub Keeps-maybe :
        (o : Option A) (m : Exec B) (f : A → Exec B)
        → Keeps I m
        → ((a : A) → Keeps I (f a))
        → Keeps I (maybe o m f)
    unfolding maybe
    Keeps-maybe none m f km kf = km
    Keeps-maybe (some a) m f km kf = kf a

  module _ {A B : Type 0} where
    -- How a bind runs, when its first action returns and when it raises.
    pub run-bind :
        (m : Exec A) (f : A → Exec B) (s : State) {a : A} {s' : State}
        → m s ≡ (ok a, s')
        → (m >>= f) s ≡ f a s'
    unfolding ◌>>=◌
    run-bind m f s h = rw h

    pub run-gets : (g : State → A) (f : A → Exec B) (s : State) → (gets g >>= f) s ≡ f (g s) s
    unfolding ◌>>=◌
    run-gets g f s = refl

    pub run-bind_raise :
        (m : Exec A) (f : A → Exec B) (s : State) {e : Error} {s' : State}
        → m s ≡ (raise e, s')
        → (m >>= f) s ≡ (raise e, s')
    unfolding ◌>>=◌
    run-bind_raise m f s h = rw h

pub ruleset keeps_rules =
    (Keeps-pure, Keeps-throw, Keeps-lift, Keeps-gets, Keeps-if, Keeps-bind, Keeps-maybe)
