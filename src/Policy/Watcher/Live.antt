-- ===== src/Policy/Watcher/Live.antt =====
-- The live state of the watcher, over events of the file system and the requests between them.
use Prim.Native.String.{String}
use radixip.Base.{
  ◌≡◌, inl, inr, refl, subst, ap, Bool, false, ◌&&◌, Bool-cases, Option, Option-cases, none, some,
  map_option, List, [], ◌∷◌, Result, ok, err, Key, if◌then◌else◌,
}
use radixip.Policy.Limiter.{RateLimitConfig}
use radixip.Policy.AutoBan
use radixip.Policy.AutoBan.{AutoBanTracker}
use radixip.Policy.Watcher.{
  RootConfig, ConfigError, yaml, validate_rate, checked, from_config, from_file, PolicyState, Event,
  interesting, route_trie_of, state_of, reload, any_path, handle_event, new_with_engine,
}

-- An event with what the file holds when it is handled, or requests, which leave any buckets and
-- any tracker behind.
pub data Step (P C E : Type 0) : Type 0 where
  event_step : (res : Option (Event P)) (raw : Option String) → Step P C E
  request_step : (cache : C) (tracker : AutoBanTracker E) → Step P C E

of_ok : {A E : Type 0} → A → Result A E → A
of_ok a (ok x) = x
of_ok a (err _) = a

ok_injective : {A E : Type 0} {x y : A} → ◌≡◌ {A = Result A E} (ok x) (ok y) → x ≡ y
unfolding of_ok
ok_injective {x = x} p = ap (of_ok x) p

checked-ok :
    (config cfg : RootConfig) (r : Result (Unit {0}) ConfigError)
    → checked config r ≡ ok cfg
    → (config ≡ cfg) × (r ≡ ok tt)
unfolding checked
checked-ok config cfg (ok u) h = (ok_injective h, refl)
checked-ok config cfg (err e) h = absurd (cc)

-- A configuration that a file gives is a valid one.
from_file-ok :
    (from_str : String → Option RootConfig) (raw : Option String) (cfg : RootConfig)
    → from_file from_str raw ≡ ok cfg
    → validate_rate cfg.rate_limit ≡ ok tt
unfolding from_file from_config
from_file-ok from_str none cfg h = absurd (cc)
from_file-ok from_str (some raw) cfg h = elim (Option-cases (from_str raw)) [
  | inl p ↦ let q : err yaml ≡ ok cfg = rw (from_file, p) at h in absurd (cc)
  | inr (config, p) ↦
      (let q : checked config (validate_rate config.rate_limit) ≡ ok cfg = rw (from_file, p) at h in
        let (same, valid) = checked-ok config cfg (validate_rate config.rate_limit) q in
        subst (λ c. validate_rate c.rate_limit ≡ ok tt) same valid)
]

module _ {P C E : Type 0} ⦃k : Key P⦄ (to_uppercase : String → String)
    (empty_cache : RateLimitConfig → C) (from_str : String → Option RootConfig) (engine : Option E)
    (path : P) where
  unfoldable pub step : Step P C E → PolicyState C E → PolicyState C E
  step (event_step res raw) s = handle_event to_uppercase empty_cache from_str engine path res raw s
  step (request_step cache tracker) s = record s {
    limiter = record { cache = cache; config = s.limiter.config };
    auto_ban = map_option (λ _. tracker) s.auto_ban;
  }

  unfoldable pub steps : List (Step P C E) → PolicyState C E → PolicyState C E
  steps [] s = s
  steps (x ∷ xs) s = steps xs (step x s)

  -- The event is a change of the watched file.
  abbrev pub concerns : Option (Event P) → Bool
  concerns none = false
  concerns (some event) = any_path path event.paths && interesting event.kind

  abbrev pub or_kept : RootConfig → Result RootConfig ConfigError → RootConfig
  or_kept cfg (ok new_cfg) = new_cfg
  or_kept cfg (err _) = cfg

  -- The configuration that was loaded last.
  abbrev pub last_loaded : List (Step P C E) → RootConfig → RootConfig
  last_loaded [] cfg = cfg
  last_loaded (event_step res raw ∷ xs) cfg =
      last_loaded xs (if concerns res then or_kept cfg (from_file from_str raw) else cfg)
  last_loaded (request_step _ _ ∷ xs) cfg = last_loaded xs cfg

  abbrev pub or_spent : C → Result RootConfig ConfigError → C
  or_spent cache (ok new_cfg) = empty_cache new_cfg.rate_limit
  or_spent cache (err _) = cache

  -- The buckets: those the last requests left, or none since a later load.
  abbrev pub last_buckets : List (Step P C E) → C → C
  last_buckets [] cache = cache
  last_buckets (event_step res raw ∷ xs) cache =
      last_buckets xs (if concerns res then or_spent cache (from_file from_str raw) else cache)
  last_buckets (request_step left _ ∷ xs) cache = last_buckets xs left

  -- The tracker that a load makes, if bans are enabled and there is an engine.
  abbrev pub new_tracker : RootConfig → Option (AutoBanTracker E)
  new_tracker cfg = if cfg.auto_ban_enabled then map_option AutoBan.new engine else none

  abbrev pub or_banned :
      Option (AutoBanTracker E) → Result RootConfig ConfigError → Option (AutoBanTracker E)
  or_banned tracker (ok new_cfg) = new_tracker new_cfg
  or_banned tracker (err _) = tracker

  -- The tracker: what the last requests left of it, or a new one since a later load.
  abbrev pub last_tracker :
      List (Step P C E) → Option (AutoBanTracker E) → Option (AutoBanTracker E)
  last_tracker [] tracker = tracker
  last_tracker (event_step res raw ∷ xs) tracker =
      last_tracker xs (if concerns res then or_banned tracker (from_file from_str raw) else tracker)
  last_tracker (request_step _ left ∷ xs) tracker = last_tracker xs (map_option (λ _. left) tracker)

  -- The state is that of a valid configuration, with these buckets and this tracker.
  abbrev pub IsLive : RootConfig → C → Option (AutoBanTracker E) → PolicyState C E → Type 0
  IsLive cfg cache tracker s =
      (s.config ≡ cfg)
      × (validate_rate cfg.rate_limit ≡ ok tt)
      × (s.limiter.config ≡ cfg.rate_limit)
      × (s.limiter.cache ≡ cache)
      × (s.route_trie ≡ route_trie_of to_uppercase cfg.rate_limit_routes)
      × (s.auto_ban ≡ tracker)

  state_of-IsLive :
      (cfg : RootConfig)
      → validate_rate cfg.rate_limit ≡ ok tt
      → IsLive cfg
          (empty_cache cfg.rate_limit)
          (new_tracker cfg)
          (state_of to_uppercase empty_cache engine cfg)
  unfolding state_of
  state_of-IsLive cfg h = elim (Option-cases engine) [
    | inl p ↦ elim (Bool-cases cfg.auto_ban_enabled) [
      | inl q ↦ rw (p, state_of, q) (refl, h, refl, refl, refl, refl)
      | inr q ↦ rw (p, state_of, q) (refl, h, refl, refl, refl, refl)
    ]
    | inr (e, p) ↦ elim (Bool-cases cfg.auto_ban_enabled) [
      | inl q ↦ rw (p, state_of, q) (refl, h, refl, refl, refl, refl)
      | inr q ↦ rw (p, state_of, q) (refl, h, refl, refl, refl, refl)
    ]
  ]

  reload-IsLive :
      (r : Result RootConfig ConfigError) (cfg : RootConfig) (cache : C)
      (tracker : Option (AutoBanTracker E)) (s : PolicyState C E)
      → ((new_cfg : RootConfig) → r ≡ ok new_cfg → validate_rate new_cfg.rate_limit ≡ ok tt)
      → IsLive cfg cache tracker s
      → IsLive
          (or_kept cfg r)
          (or_spent cache r)
          (or_banned tracker r)
          (reload to_uppercase empty_cache engine r s)
  unfolding reload
  reload-IsLive (ok new_cfg) cfg cache tracker s valid h =
      state_of-IsLive new_cfg (valid new_cfg refl)
  reload-IsLive (err e) cfg cache tracker s valid h = h

  handle_event-IsLive :
      (res : Option (Event P)) (raw : Option String) (cfg : RootConfig) (cache : C)
      (tracker : Option (AutoBanTracker E)) (s : PolicyState C E)
      → IsLive cfg cache tracker s
      → IsLive
          (if concerns res then or_kept cfg (from_file from_str raw) else cfg)
          (if concerns res then or_spent cache (from_file from_str raw) else cache)
          (if concerns res then or_banned tracker (from_file from_str raw) else tracker)
          (handle_event to_uppercase empty_cache from_str engine path res raw s)
  unfolding handle_event
  handle_event-IsLive none raw cfg cache tracker s h = h
  handle_event-IsLive (some event) raw cfg cache tracker s h =
      elim (Bool-cases (any_path path event.paths)) [
        | inr p ↦ rw (handle_event, p) h
        | inl p ↦ elim (Bool-cases (interesting event.kind)) [
          | inr q ↦ rw (handle_event, p, q) h
          | inl q ↦
              rw (handle_event, p, q)
                (reload-IsLive (from_file from_str raw) cfg cache tracker s
                  (from_file-ok from_str raw) h)
        ]
      ]

  steps-IsLive :
      (xs : List (Step P C E)) (cfg : RootConfig) (cache : C) (tracker : Option (AutoBanTracker E))
      (s : PolicyState C E)
      → IsLive cfg cache tracker s
      → IsLive (last_loaded xs cfg) (last_buckets xs cache) (last_tracker xs tracker) (steps xs s)
  unfolding steps step
  steps-IsLive [] cfg cache tracker s h = h
  steps-IsLive (event_step res raw ∷ xs) cfg cache tracker s h =
      steps-IsLive xs _ _ _ _ (handle_event-IsLive res raw cfg cache tracker s h)
  steps-IsLive (request_step left after ∷ xs) cfg cache tracker s (c, v, l, b, t, a) =
      steps-IsLive xs cfg left (map_option (λ _. after) tracker) (step (request_step left after) s)
        (c, v, l, refl, t, ap (map_option (λ _. after)) a)

  -- A watcher that starts has read a valid configuration. After any events and requests its state
  -- is that of the configuration that was loaded last from a change of the file, and this
  -- configuration is valid. The buckets and the tracker are what the requests since that load left
  -- of new ones: an event that loads nothing, a failing load among them, changes nothing.
  pub new_with_engine-IsLive :
      (raw : Option String) (s : PolicyState C E) (xs : List (Step P C E))
      → new_with_engine to_uppercase empty_cache from_str engine path raw ≡ ok s
      → (cfg : RootConfig) × (from_file from_str raw ≡ ok cfg)
        × IsLive
            (last_loaded xs cfg)
            (last_buckets xs (empty_cache cfg.rate_limit))
            (last_tracker xs (new_tracker cfg))
            (steps xs s)
  unfolding new_with_engine
  new_with_engine-IsLive raw s xs h = by_load (from_file from_str raw) refl
    where
      by_load :
          (r : Result RootConfig ConfigError)
          → from_file from_str raw ≡ r
          → (cfg : RootConfig) × (from_file from_str raw ≡ ok cfg)
            × IsLive
                (last_loaded xs cfg)
                (last_buckets xs (empty_cache cfg.rate_limit))
                (last_tracker xs (new_tracker cfg))
                (steps xs s)
      by_load (ok cfg) p =
          let q : ok (state_of to_uppercase empty_cache engine cfg) ≡ ok s =
            rw (new_with_engine, p) at h in
          let same : state_of to_uppercase empty_cache engine cfg ≡ s = ok_injective q in
          (
            cfg,
            p,
            steps-IsLive xs cfg (empty_cache cfg.rate_limit) (new_tracker cfg) s (
                subst (IsLive cfg (empty_cache cfg.rate_limit) (new_tracker cfg)) same
                  (state_of-IsLive cfg (from_file-ok from_str raw cfg p))),
          )
      by_load (err e) p = let q : err e ≡ ok s = rw (new_with_engine, p) at h in absurd (cc)
