-- ===== src/Policy/AutoBan/Valid.antt =====
-- What every call of `record_violation` (lib/rust/policy/src/auto_ban.rs) keeps.
use radixip.Base.{
  ℕ, ◌+◌, ◌≤◌, ◌<◌, ◌≡◌, ◌≢◌, refl, ap, inl, inr, Bool, true, false, Bool-cases, ltb→lt, ltb→ge,
  some, List, [], ◌∷◌, length, ltb, Key, find, put, erase, IsMap, find-put_other, put-IsMap, All,
}
use radixip.Net.{IpAddr, IsAddress, Network, IpNetwork}
use radixip.RadixEngine.{RadixEngine, Metadata}
use radixip.Policy.AutoBan.{
  AutoBanConfig, AutoBanTracker, from_secs, or_empty, max_instant, ban_metadata, timestamps_of,
  record_violation,
}
use radixip.Policy.AutoBan.Threshold.{host_prefix-some, recent, below, reached}

-- Both maps have each key once, keys are addresses, and fewer violations are recorded for an
-- address than the threshold.
pub record IsValid {E : Type 0} ⦃k : Key IpAddr⦄ (threshold : ℕ) (s : AutoBanTracker E)
    : Type 0 where
  pub violations_once : IsMap s.violations
  pub banned_once : IsMap s.banned
  pub banned_keys : All (λ e. IsAddress e.0) s.banned
  pub few : All (λ e. length e.1 < threshold) s.violations

All-erase {κ} :
    {V : Type 0} ⦃k : Key IpAddr⦄ (P : IpAddr × V → Type κ) (x : IpAddr) (m : List (IpAddr × V))
    → All P m
    → All P (erase x m)
All-erase P x [] h = tt
All-erase ⦃k⦄ P x (e ∷ m) (h, hs) = elim (Bool-cases (k.same x e.0)) [
  | inl p ↦ rw p (All-erase P x m hs)
  | inr p ↦ rw p (h, All-erase P x m hs)
]

module _ {N4 N6 : Type 0} ⦃a : Network 4 N4⦄ ⦃b : Network 16 N6⦄ {E : Type 0} ⦃k : Key IpAddr⦄
    (t : RadixEngine E (IpNetwork N4 N6) IpAddr Metadata) (cfg : AutoBanConfig) where
  -- A violation of an address, on a tracker whose maps have each key once, whose bans are of
  -- addresses and that records fewer violations than the threshold for each address, does not
  -- panic and leaves such a tracker, if the threshold is positive and the end of a ban that starts
  -- now is an instant; what is recorded for every other address, and its ban, stay.
  pub record_violation-IsValid :
      (s : AutoBanTracker E) (ip : IpAddr) (now : ℕ)
      → 0 < cfg.threshold_violations
      → now + from_secs cfg.ban_duration_seconds < max_instant
      → IsAddress ip
      → IsValid cfg.threshold_violations s
      → (r : AutoBanTracker E) × (answer : Bool) × (record_violation t cfg s ip now
          ≡ some (r, answer))
        × IsValid cfg.threshold_violations r
        × ((other : IpAddr)
            → other ≢ ip
            → (timestamps_of r other ≡ timestamps_of s other)
              × (find other r.banned ≡ find other s.banned))
  record_violation-IsValid s ip now pos room ha v =
      elim (Bool-cases (ltb (length (recent t cfg s ip now)) cfg.threshold_violations)) [
        | inl p ↦
            let few : length (recent t cfg s ip now) < cfg.threshold_violations = ltb→lt _ _ p in
            (
              record s { violations = put ip (recent t cfg s ip now) s.violations },
              false,
              below t cfg s ip now few,
              record {
                violations_once =
                    put-IsMap ip (recent t cfg s ip now) s.violations v.violations_once;
                banned_once = v.banned_once;
                banned_keys = v.banned_keys;
                few = (
                  few,
                  All-erase (λ e. length e.1 < cfg.threshold_violations) ip s.violations v.few,
                );
              },
              λ other ne. (
                ap or_empty (find-put_other other ip (recent t cfg s ip now) s.violations ne),
                refl,
              ),
            )
        | inr p ↦
            let (prefix, ep) = host_prefix-some ip ha in
            let full : cfg.threshold_violations ≤ length (recent t cfg s ip now) = ltb→ge _ _ p in
            let expiry : ℕ = now + from_secs cfg.ban_duration_seconds in
            (
              record {
                violations = put ip [] s.violations;
                banned = put ip expiry s.banned;
                engine = (t.insert s.engine prefix ban_metadata).0;
              },
              true,
              reached t cfg s ip now prefix ep full room,
              record {
                violations_once = put-IsMap ip [] s.violations v.violations_once;
                banned_once = put-IsMap ip expiry s.banned v.banned_once;
                banned_keys = (ha, All-erase (λ e. IsAddress e.0) ip s.banned v.banned_keys);
                few = (
                  pos,
                  All-erase (λ e. length e.1 < cfg.threshold_violations) ip s.violations v.few,
                );
              },
              λ other ne. (
                ap or_empty (find-put_other other ip [] s.violations ne),
                find-put_other other ip expiry s.banned ne,
              ),
            )
      ]
