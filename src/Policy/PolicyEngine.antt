-- ===== src/Policy/PolicyEngine.antt =====
-- `PolicyEngine` of lib/rust/policy/src/lib.rs: the blocklist, the limiter and the ban tracker
-- behind one call. The tracker shares the engine, so the state keeps the engine once.
-- `none` stands for a panic. Each clock is read once for each call, as the argument `now`.
pub mod Decisions
use Prim.Native.String.{String}
use radixip.Base.{
  ℕ, Bool, true, false, not, ◌&&◌, Option, none, some, List, is_some, Key, Result, ok, err, ◌>>=◌,
  if◌then◌else◌,
}
use radixip.Net.{IpAddr, Network, IpNetwork}
use radixip.RadixEngine.{RadixEngine, Metadata}
use radixip.Policy.AutoBan.{AutoBanConfig, AutoBanTracker, record_violation}
use radixip.Policy.IpExtractor.{ExtractError, extract_ip}
use radixip.Policy.Limiter
use radixip.Policy.Limiter.{RateLimitConfig, BucketKey, Cache}

-- The seconds of the system's clock, which the limiter reads, and the nanoseconds of the monotonic
-- clock, which the tracker reads.
pub record Clock : Type 0 where
  pub seconds : ℕ
  pub instant : ℕ

pub data PolicyDecision : Type 0 where
  allow block limit auto_banned : PolicyDecision
  bad_request : ExtractError → PolicyDecision

-- The maps of an `AutoBanTracker`, without the engine that it shares.
pub record BanMaps : Type 0 where
  pub violations : List (IpAddr × List ℕ)
  pub banned : List (IpAddr × ℕ)

-- The fields that a call changes: the engine, the limiter's cache, and the tracker if there is one.
pub record PolicyEngine (E C : Type 0) : Type 0 where
  pub engine : E
  pub limiter : C
  pub auto_ban : Option BanMaps

-- The fields that stay.
pub record PolicyConfig (N4 N6 : Type 0) : Type 0 where
  pub trusted_proxies : List (IpNetwork N4 N6)
  pub rate_limit : RateLimitConfig
  pub auto_ban : AutoBanConfig
  pub blocklist_enabled : Bool

abbrev pub tracker : {E : Type 0} → BanMaps → E → AutoBanTracker E
tracker m engine = record { violations = m.violations; banned = m.banned; engine = engine }

module _ {N4 N6 : Type 0} ⦃a : Network 4 N4⦄ ⦃b : Network 16 N6⦄ {E C : Type 0} ⦃k : Key IpAddr⦄
    (t : RadixEngine E (IpNetwork N4 N6) IpAddr Metadata) (cache : Cache C (BucketKey N4 N6))
    (cfg : PolicyConfig N4 N6) where
  -- A request over its limit: the tracker, if any, is told.
  unfoldable pub violate :
      PolicyEngine E C
      → IpAddr
      → (now : Clock) → Option BanMaps
      → Option (PolicyEngine E C × PolicyDecision)
  violate s ip now none = some (s, limit)
  violate s ip now (some m) = do
    r ← record_violation t cfg.auto_ban (tracker m s.engine) ip now.instant
    let after = record s {
      engine = r.0.engine;
      auto_ban = some (record { violations = r.0.violations; banned = r.0.banned });
    }
    some (after, if r.1 then auto_banned else limit)

  -- Step 2: `blocklist_enabled && lookup(..).is_some()`; the lookup is made only if enabled.
  unfoldable pub blocked_if : Bool → E → IpAddr → E × Bool
  blocked_if true engine ip = let (after, found) = t.lookup engine ip in (after, is_some found)
  blocked_if false engine ip = (engine, false)

  unfoldable pub blocked : E → IpAddr → E × Bool
  blocked engine ip = blocked_if cfg.blocklist_enabled engine ip

  -- The answer of the limiter in `check`.
  unfoldable pub answered :
      PolicyEngine E C → IpAddr → (now : Clock) → Bool → Option (PolicyEngine E C × PolicyDecision)
  answered s ip now true = some (s, allow)
  answered s ip now false = violate s ip now s.auto_ban

  -- Step 3 of `check`: the limiter is asked only if rate limiting is enabled.
  unfoldable pub rate_check :
      PolicyEngine E C → IpAddr → (now : Clock) → Bool → Option (PolicyEngine E C × PolicyDecision)
  rate_check s ip now false = some (s, allow)
  rate_check s ip now true = do
    r ← Limiter.allow t cache cfg.rate_limit s.limiter s.engine ip now.seconds
    answered (record s { limiter = r.0; engine = r.1 }) ip now r.2

  -- Steps 2 and 3 of `check`, by the answer of the blocklist and whether limiting is enabled.
  unfoldable pub decide_from :
      PolicyEngine E C
      → IpAddr
      → (now : Clock) → (enabled : Bool) → E × Bool
      → Option (PolicyEngine E C × PolicyDecision)
  decide_from s ip now enabled (engine, true) = some (record s { engine = engine }, block)
  decide_from s ip now enabled (engine, false) =
      rate_check (record s { engine = engine }) ip now enabled

  -- `check`, from the extracted address on.
  unfoldable pub decide :
      PolicyEngine E C → IpAddr → (now : Clock) → Option (PolicyEngine E C × PolicyDecision)
  decide s ip now = decide_from s ip now cfg.rate_limit.enabled (blocked s.engine ip)

  unfoldable pub check :
      (parse : String → Option IpAddr)
      → PolicyEngine E C
      → (xff x_real_ip : Option String) (remote_addr : Option IpAddr) → (now : Clock)
      → Option (PolicyEngine E C × PolicyDecision)
  check parse s xff x_real_ip remote_addr now =
      elim (extract_ip parse xff x_real_ip remote_addr cfg.trusted_proxies) [
        | ok ip ↦ decide s ip now
        | err e ↦ some (s, bad_request e)
      ]

  -- The end of `check_ip`: `rate_limit_enabled && !allowed`.
  unfoldable pub settle :
      PolicyEngine E C → IpAddr → (now : Clock) → Bool → Option (PolicyEngine E C × PolicyDecision)
  settle s ip now true = violate s ip now s.auto_ban
  settle s ip now false = some (s, allow)

  -- `check_ip`, by the same answers: the limiter is asked whether or not limiting is enabled.
  unfoldable pub check_ip_from :
      PolicyEngine E C
      → IpAddr
      → (now : Clock) → (enabled : Bool) → E × Bool
      → Option (PolicyEngine E C × PolicyDecision)
  check_ip_from s ip now enabled (engine, true) = some (record s { engine = engine }, block)
  check_ip_from s ip now enabled (engine, false) = do
    r ← Limiter.allow t cache cfg.rate_limit s.limiter engine ip now.seconds
    settle (record s { limiter = r.0; engine = r.1 }) ip now (enabled && not r.2)

  -- `check_ip`, which has no route limiter.
  unfoldable pub check_ip :
      PolicyEngine E C → IpAddr → (now : Clock) → Option (PolicyEngine E C × PolicyDecision)
  check_ip s ip now = check_ip_from s ip now cfg.rate_limit.enabled (blocked s.engine ip)
