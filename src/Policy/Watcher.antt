-- ===== src/Policy/Watcher.antt =====
-- `PolicyState` and the watcher of lib/rust/policy/src/watcher.rs, with the validation of
-- lib/rust/config/src/lib.rs. Reading a file and its YAML are parameters; logging is left out.
pub mod Live
use Prim.Native.String.{String}
use radixip.Base.{
  ℕ, Bool, true, false, not, ◌&&◌, ◌||◌, Option, none, some, List, [], ◌∷◌, Result, ok, err, Key,
  fold_left, ◌==◌, if◌then◌else◌,
}
use radixip.Policy.Limiter.{RateLimitConfig}
use radixip.Policy.AutoBan
use radixip.Policy.AutoBan.{AutoBanConfig, AutoBanTracker}
use radixip.Policy.RouteTrie
use radixip.Policy.RouteTrie.{RouteTrie}

pub record RouteConfig : Type 0 where
  pub path : String
  pub methods : List String
  pub rate_limit : RateLimitConfig

pub record RateLimitRoutesConfig : Type 0 where
  pub enabled : Bool
  pub routes : List RouteConfig

-- The sections of `RootConfig` that the live state is built from.
pub record RootConfig : Type 0 where
  pub rate_limit : RateLimitConfig
  pub auto_ban_enabled : Bool
  pub auto_ban : AutoBanConfig
  pub rate_limit_routes : RateLimitRoutesConfig

pub data ConfigError : Type 0 where
  io yaml : ConfigError
  validation : String → ConfigError

-- `validate` on the section of the rate limit.
unfoldable pub validate_rate : RateLimitConfig → Result (Unit {0}) ConfigError
validate_rate rl =
    if rl.enabled
    then (if rl.capacity == 0
        then err (validation "rate_limit.capacity must be > 0")
        else if rl.refill_rate == 0
        then err (validation "rate_limit.refill_rate must be > 0")
        else ok tt)
    else ok tt

unfoldable pub checked : RootConfig → Result (Unit {0}) ConfigError → Result RootConfig ConfigError
checked config (ok _) = ok config
checked config (err e) = err e

-- `from_config`
unfoldable pub from_config : RootConfig → Result RootConfig ConfigError
from_config config = checked config (validate_rate config.rate_limit)

-- `from_file`, with what `read_to_string` answers.
unfoldable pub from_file :
    (from_str : String → Option RootConfig) → (raw : Option String) → Result RootConfig ConfigError
from_file from_str none = err io
from_file from_str (some raw) = elim (from_str raw) [
  | none ↦ err yaml
  | some config ↦ from_config config
]

-- `TokenBucketLimiter`; the empty cache of a configuration is a parameter.
pub record TokenBucketLimiter (C : Type 0) : Type 0 where
  pub cache : C
  pub config : RateLimitConfig

pub record PolicyState (C E : Type 0) : Type 0 where
  pub limiter : TokenBucketLimiter C
  pub route_trie : Option (RouteTrie RateLimitConfig)
  pub auto_ban : Option (AutoBanTracker E)
  pub config : RootConfig

-- `EventKind`, as far as the watcher tells them apart.
pub data EventKind : Type 0 where
  modify_data modify_name_to create other_kind : EventKind

pub record Event (P : Type 0) : Type 0 where
  pub paths : List P
  pub kind : EventKind

abbrev pub interesting : EventKind → Bool
interesting modify_data = true
interesting modify_name_to = true
interesting create = true
interesting other_kind = false

-- `event.paths.iter().any(|p| p == path)`
unfoldable pub any_path : {P : Type 0} ⦃k : Key P⦄ → (path : P) → List P → Bool
any_path path [] = false
any_path ⦃k⦄ path (p ∷ paths) = k.same p path || any_path path paths

module _ (to_uppercase : String → String) where
  -- The loop that fills the route trie.
  unfoldable pub fill : List RouteConfig → RouteTrie RateLimitConfig → RouteTrie RateLimitConfig
  fill [] trie = trie
  fill (route ∷ routes) trie =
      fill routes (RouteTrie.insert to_uppercase trie route.path route.methods route.rate_limit)

  unfoldable pub route_trie_of : RateLimitRoutesConfig → Option (RouteTrie RateLimitConfig)
  route_trie_of config = if config.enabled then some (fill config.routes RouteTrie.new) else none

  module _ {C E : Type 0} (empty_cache : RateLimitConfig → C) where
    -- `PolicyState::from_config_with_engine`, and `from_config` without an engine.
    unfoldable pub state_of : (engine : Option E) → RootConfig → PolicyState C E
    state_of (some engine) cfg = record {
      limiter = record { cache = empty_cache cfg.rate_limit; config = cfg.rate_limit };
      route_trie = route_trie_of cfg.rate_limit_routes;
      auto_ban = if cfg.auto_ban_enabled then some (AutoBan.new engine) else none;
      config = cfg;
    }
    state_of none cfg = record {
      limiter = record { cache = empty_cache cfg.rate_limit; config = cfg.rate_limit };
      route_trie = route_trie_of cfg.rate_limit_routes;
      auto_ban = none;
      config = cfg;
    }

    -- The reload: an error keeps the state.
    unfoldable pub reload :
        (engine : Option E) → Result RootConfig ConfigError → PolicyState C E → PolicyState C E
    reload engine (ok new_cfg) state = state_of engine new_cfg
    reload engine (err _) state = state

    module _ {P : Type 0} ⦃k : Key P⦄ (from_str : String → Option RootConfig) (engine : Option E)
        (path : P) where
      unfoldable pub handle_event :
          (res : Option (Event P)) (raw : Option String) → PolicyState C E → PolicyState C E
      handle_event none raw state = state
      handle_event (some event) raw state =
          if not (any_path path event.paths)
          then state
          else if not (interesting event.kind)
          then state
          else reload engine (from_file from_str raw) state

      -- `new_with_engine`, up to the watching.
      unfoldable pub new_with_engine : (raw : Option String) → Result (PolicyState C E) ConfigError
      new_with_engine raw = elim (from_file from_str raw) [
        | ok cfg ↦ ok (state_of engine cfg)
        | err e ↦ err e
      ]
