-- ===== src/Policy/AutoBan.antt =====
-- lib/rust/policy/src/auto_ban.rs: violations per address in a sliding window, and bans.
-- Instants and durations are numbers of nanoseconds, and the clock is an argument. A method
-- answers `none` where the code panics.
pub mod Threshold
pub mod Sweep
pub mod Valid
use radixip.Base.{
  ℕ, ◌+◌, ◌-◌, ◌*◌, ◌^◌, Bool, true, false, Option, none, some, List, [], ◌∷◌, ◌++◌, length, ltb,
  leb, if◌then◌else◌, Key, find, put, erase, retain, map_option, ◌>>=◌,
}
use radixip.Net.{IpAddr, Network, IpNetwork}
use radixip.RadixEngine.{RadixEngine, Metadata, attributed}

-- The fields of `AutoBanConfig` that the tracker keeps, in seconds.
pub record AutoBanConfig : Type 0 where
  pub threshold_violations : ℕ
  pub window_seconds : ℕ
  pub ban_duration_seconds : ℕ

-- `Duration::from_secs`
abbrev pub from_secs : ℕ → ℕ
from_secs s = s * 10 ^ 9

-- The fields that change, with the shared engine.
pub record AutoBanTracker (E : Type 0) : Type 0 where
  pub violations : List (IpAddr × List ℕ)
  pub banned : List (IpAddr × ℕ)
  pub engine : E

unfoldable pub new : {E : Type 0} → E → AutoBanTracker E
new engine = record { violations = []; banned = []; engine = engine }

abbrev pub or_empty : Option (List ℕ) → List ℕ
or_empty none = []
or_empty (some ts) = ts

-- An `Instant` of Unix has signed 64-bit seconds, which count from the boot of the machine.
abbrev pub max_instant : ℕ
max_instant = 2 ^ 63 * 10 ^ 9

-- `now + duration`, which panics on an overflow.
unfoldable pub checked_add : (now duration : ℕ) → Option ℕ
checked_add now duration = if ltb (now + duration) max_instant then some (now + duration) else none

-- `now.checked_sub(window).unwrap_or(now)`; an instant before the boot stands at 0, since no
-- timestamp is before it.
abbrev pub cutoff : (now window : ℕ) → ℕ
cutoff now window =
    if leb window now then now - window else if leb window (now + max_instant) then 0 else now

-- `Metadata::new("auto-banned").with_attribute("reason", "exceeded_threshold")`
abbrev pub ban_metadata : Metadata
ban_metadata = attributed "auto-banned" "reason" "exceeded_threshold"

-- `.map(|expiry| now < *expiry).unwrap_or(false)`
abbrev pub runs : ℕ → Option ℕ → Bool
runs now none = false
runs now (some expiry) = ltb now expiry

module _ {E : Type 0} ⦃k : Key IpAddr⦄ where
  -- What is recorded for an address; a missing entry is made empty.
  abbrev pub timestamps_of : AutoBanTracker E → IpAddr → List ℕ
  timestamps_of s ip = or_empty (find ip s.violations)

  unfoldable pub is_banned : AutoBanTracker E → IpAddr → (now : ℕ) → Bool
  is_banned s ip now = runs now (find ip s.banned)

module _ ⦃k : Key IpAddr⦄ where
  -- The entries that the sweeper collects, by their keys.
  unfoldable pub expired : (now : ℕ) → List (IpAddr × ℕ) → List IpAddr
  expired now [] = []
  expired now (e ∷ banned) =
      let rest = expired now banned in if leb e.1 now then e.0 ∷ rest else rest

  -- The sweeper's removals from the ban map.
  unfoldable pub unban : List IpAddr → List (IpAddr × ℕ) → List (IpAddr × ℕ)
  unban [] banned = banned
  unban (ip ∷ ips) banned = unban ips (erase ip banned)

module _ {N4 N6 : Type 0} ⦃a : Network 4 N4⦄ ⦃b : Network 16 N6⦄ where
  unfoldable pub host_prefix : IpAddr → Option (IpNetwork N4 N6)
  host_prefix (IpAddr.v4 o) = map_option IpNetwork.v4 (a.new o 32)
  host_prefix (IpAddr.v6 o) = map_option IpNetwork.v6 (b.new o 128)

  module _ {E : Type 0} ⦃k : Key IpAddr⦄ (t : RadixEngine E (IpNetwork N4 N6) IpAddr Metadata) where
    unfoldable pub insert_ban : AutoBanTracker E → IpAddr → Option (AutoBanTracker E)
    insert_ban s ip = do
      prefix ← host_prefix ip
      some (record s { engine = (t.insert s.engine prefix ban_metadata).0 })

    -- After the push, by the test of the threshold.
    unfoldable pub settle :
        AutoBanConfig
        → AutoBanTracker E
        → IpAddr
        → (now : ℕ) → (timestamps : List ℕ) → Bool
        → Option (AutoBanTracker E × Bool)
    settle cfg s ip now timestamps true =
        some (record s { violations = put ip timestamps s.violations }, false)
    settle cfg s ip now timestamps false = do
      expiry ← checked_add now (from_secs cfg.ban_duration_seconds)
      banned ←
          insert_ban
            (record s { violations = put ip [] s.violations; banned = put ip expiry s.banned }) ip
      some (banned, true)

    unfoldable pub record_violation :
        AutoBanConfig → AutoBanTracker E → IpAddr → (now : ℕ) → Option (AutoBanTracker E × Bool)
    record_violation cfg s ip now =
        let since = cutoff now (from_secs cfg.window_seconds) in
        let timestamps = retain (leb since) (timestamps_of s ip) ++ (now ∷ []) in
        settle cfg s ip now timestamps (ltb (length timestamps) cfg.threshold_violations)

    -- The sweeper's removals from the engine.
    unfoldable pub release : List IpAddr → E → Option E
    release [] engine = some engine
    release (ip ∷ ips) engine = do prefix ← host_prefix ip; release ips (t.remove engine prefix).0

    -- One round of the sweeper that no other thread interrupts.
    unfoldable pub sweep : AutoBanTracker E → (now : ℕ) → Option (AutoBanTracker E)
    sweep s now = do
      let ips = expired now s.banned
      engine ← release ips s.engine
      some (record s { banned = unban ips s.banned; engine = engine })
