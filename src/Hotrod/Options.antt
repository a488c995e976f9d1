-- ===== src/Hotrod/Options.antt =====
-- hotrod/options.go: the options of the calls on a cache, and the flags of an operation. A duration is an
-- int64 of nanoseconds, flags are an int32, each by its bit pattern.
use go_client.Prelude.{ℕ, List, [], ◌∷◌, bit_or}

abbrev pub flag_force_return_value : ℕ
flag_force_return_value = 0x0001

pub record PutConfig : Type 0 where
  pub lifespan : ℕ
  pub max_idle : ℕ
  pub flags : ℕ

-- A `PutOption`; the other kinds of option are functions on their configurations, too.
abbrev pub PutOption : Type 0
PutOption = PutConfig → PutConfig

abbrev pub empty_put : PutConfig
empty_put = record { lifespan = 0; max_idle = 0; flags = 0 }

-- `for _, o := range opts { o(cfg) }`
unfoldable pub configure : {C : Type 0} → List (C → C) → C → C
configure [] cfg = cfg
configure (o ∷ opts) cfg = configure opts (o cfg)

unfoldable pub with_lifespan : ℕ → PutOption
with_lifespan d cfg = record cfg { lifespan = d }

unfoldable pub with_max_idle : ℕ → PutOption
with_max_idle d cfg = record cfg { max_idle = d }

-- `for _, f := range flags { cfg.flags |= int32(f) }`
unfoldable pub add_flags : List ℕ → ℕ → ℕ
add_flags [] flags = flags
add_flags (f ∷ fs) flags = add_flags fs (bit_or flags f)

unfoldable pub with_put_flag : List ℕ → PutOption
with_put_flag fs cfg = record cfg { flags = add_flags fs cfg.flags }

-- The configurations of Get and Remove are their flags.
unfoldable pub with_get_flag : List ℕ → ℕ → ℕ
with_get_flag fs flags = add_flags fs flags

unfoldable pub with_remove_flag : List ℕ → ℕ → ℕ
with_remove_flag fs flags = add_flags fs flags
