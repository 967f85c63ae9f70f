-- ===== src/Arena/Profiles.antt =====
-- internal/arena/control_profiles.py
use mini_redis_test_app.Prelude.{ℕ, [], ◌∷◌}
use mini_redis_test_app.Dict.{Dict}
use mini_redis_test_app.Platform.{Platform}
use mini_redis_test_app.Text.{Text, codes}

pub record MemoryProfile : Type 0 where
  pub key : Text
  pub label : Text
  pub max_memory_bytes : ℕ

abbrev memory_profile : Text → Text → ℕ → Text × MemoryProfile
memory_profile key label bytes =
    (key, record { key = key; label = label; max_memory_bytes = bytes })

unfoldable pub memory_profiles : Dict MemoryProfile
memory_profiles =
    memory_profile (codes "small") (codes "256B") 256
    ∷ memory_profile (codes "medium") (codes "512B") 512
    ∷ memory_profile (codes "large") (codes "1024B") 1024
    ∷ memory_profile (codes "xlarge") (codes "2048B") 2048
    ∷ []

abbrev pub default_memory_profile : Text
default_memory_profile = codes "medium"

abbrev pub default_ttl_profile : Text
default_ttl_profile = codes "medium"

module _ ⦃P : Platform⦄ where
  pub record TtlProfile : Type 0 where
    pub key : Text
    pub label : Text
    pub ttl_seconds : P.Float

  -- `literal` gives the float of a decimal literal of the source.
  module _ (literal : Text → P.Float) where
    abbrev ttl_profile : Text → Text → Text → Text × TtlProfile
    ttl_profile key label seconds =
        (key, record { key = key; label = label; ttl_seconds = literal seconds })

    unfoldable pub ttl_profiles : Dict TtlProfile
    ttl_profiles =
        ttl_profile (codes "shortest") (codes "0.5s") (codes "0.5")
        ∷ ttl_profile (codes "short") (codes "1s") (codes "1.0")
        ∷ ttl_profile (codes "medium") (codes "2s") (codes "2.0")
        ∷ ttl_profile (codes "steady") (codes "3s") (codes "3.0")
        ∷ ttl_profile (codes "long") (codes "5s") (codes "5.0")
        ∷ ttl_profile (codes "xlong") (codes "10s") (codes "10.0")
        ∷ []
