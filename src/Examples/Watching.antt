-- ===== src/Examples/Watching.antt =====
-- A watcher whose file becomes invalid and valid again.
use Prim.Native.String.{String}
use radixip.Base.{
  ℕ, ◌≡◌, refl, true, Option, none, some, List, [], ◌∷◌, ok, if◌then◌else◌, string_key,
}
use radixip.Policy.Limiter.{RateLimitConfig, BucketKeyMode}
use radixip.Policy.AutoBan
use radixip.Policy.Watcher.{
  RootConfig, PolicyState, Event, EventKind, from_file, from_config, checked, validate_rate,
  state_of, new_with_engine,
}
use radixip.Policy.Watcher.Live.{
  Step, event_step, request_step, steps, last_loaded, last_buckets, last_tracker, new_tracker,
  IsLive, new_with_engine-IsLive,
}

abbrev limit : (capacity : ℕ) → RateLimitConfig
limit capacity = record {
  enabled = true;
  bucket_mode = BucketKeyMode.ip;
  capacity = capacity;
  refill_rate = 10;
}

abbrev root_config : (capacity : ℕ) → RootConfig
root_config capacity = record {
  rate_limit = limit capacity;
  auto_ban_enabled = true;
  auto_ban = record { threshold_violations = 3; window_seconds = 60; ban_duration_seconds = 600 };
  rate_limit_routes = record {
    enabled = true;
    routes = record { path = "/api"; methods = []; rate_limit = limit 5 } ∷ [];
  };
}

-- Three texts, in place of a parser.
abbrev parse_yaml : String → Option RootConfig
parse_yaml s =
    if string_key.same s "capacity: 100"
    then some (root_config 100)
    else if string_key.same s "capacity: 0"
    then some (root_config 0)
    else if string_key.same s "capacity: 7"
    then some (root_config 7)
    else none

abbrev same_text : String → String
same_text s = s

abbrev no_cache : RateLimitConfig → ℕ
no_cache _ = 0

abbrev file : String
file = "/etc/radixip.yaml"

abbrev changed : Option (Event String)
changed = some (record { paths = file ∷ []; kind = EventKind.modify_data })

abbrev file_steps : List (Step String ℕ ℕ)
file_steps =
    event_step changed (some "capacity: 0")
    ∷ request_step 1 (AutoBan.new 4)
    ∷ event_step changed (some "capacity: 7")
    ∷ event_step changed (some "capacity:")
    ∷ []

abbrev first_state : PolicyState ℕ ℕ
first_state = state_of same_text no_cache (some 4) (root_config 100)

starts :
    new_with_engine same_text no_cache parse_yaml (some 4) file (some "capacity: 100")
    ≡ ok first_state
unfolding new_with_engine from_file from_config checked validate_rate
starts = refl

new_with_engine-IsLive_example :
    (cfg : RootConfig) × (from_file parse_yaml (some "capacity: 100") ≡ ok cfg)
    × IsLive same_text no_cache parse_yaml
        (some 4)
        file
        (last_loaded same_text no_cache parse_yaml (some 4) file file_steps cfg)
        (last_buckets same_text no_cache parse_yaml
          (some 4)
          file
          file_steps
          (no_cache cfg.rate_limit))
        (last_tracker same_text no_cache parse_yaml
          (some 4)
          file
          file_steps
          (new_tracker same_text no_cache parse_yaml (some 4) file cfg))
        (steps same_text no_cache parse_yaml (some 4) file file_steps first_state)
new_with_engine-IsLive_example =
    new_with_engine-IsLive same_text no_cache parse_yaml (some 4) file (some "capacity: 100")
      first_state file_steps starts
