-- ===== src/Examples/Bans.antt =====
-- The ban tracker and the extraction of addresses (lib/rust/policy/src/auto_ban.rs,
-- ip_extractor.rs) at concrete inputs.
use Prim.Native.String.{String}
use radixip.Base.{
  ℕ, ◌+◌, ◌^◌, ◌≤◌, ◌≡◌, ◌≢◌, refl, Bool, true, false, Option, none, some, [], ◌∷◌, arith, ltb,
  find, ok, string_key, if◌then◌else◌,
}
use radixip.Net.{IpAddr}
use radixip.Net.Equality.{ip_key}
use radixip.RadixEngine.{RadixEngine, Metadata, standard}
use radixip.Engine
use radixip.Engine.{StandardEngine}
use radixip.Engine.Trie.{uncompressed}
use radixip.Uncompressed
use radixip.Uncompressed.{UncompressedTree}
use radixip.Policy.AutoBan.{
  AutoBanConfig, AutoBanTracker, from_secs, ban_metadata, timestamps_of, is_banned, expired,
  host_prefix, record_violation, release, sweep,
}
use radixip.Policy.AutoBan.Threshold.{violate_all, burst_bans}
use radixip.Policy.AutoBan.Sweep.{surviving, sweep_exact}
use radixip.Policy.AutoBan.Valid.{IsValid, record_violation-IsValid}
use radixip.Policy.IpExtractor.{extract_ip, is_trusted, extract_ip_rightmost}
use radixip.Examples.Networks.{Cidr, Net, agree, pad, cidr_v4, cidr_v6, client, ten}

abbrev E : Type 0
E = StandardEngine (UncompressedTree Net Metadata)

abbrev engine : RadixEngine E Net IpAddr Metadata
engine = standard (uncompressed Cidr Cidr Metadata)

abbrev fresh : AutoBanTracker E
fresh = record { violations = []; banned = []; engine = Engine.new Uncompressed.new }

-- Three violations in a minute ban for ten minutes.
abbrev cfg : AutoBanConfig
cfg = record { threshold_violations = 3; window_seconds = 60; ban_duration_seconds = 600 }

burst_bans_example :
    (r : AutoBanTracker E) × (p : Net) × (violate_all engine cfg fresh client
        ((10 ^ 11) ∷ (10 ^ 11 + 1) ∷ (10 ^ 11 + 5) ∷ [])
      ≡ some (r, false ∷ false ∷ true ∷ []))
    × (timestamps_of r client ≡ [])
    × ((now : ℕ) → is_banned r client now ≡ ltb now (10 ^ 11 + 5 + from_secs 600))
    × (host_prefix client ≡ some p)
    × (r.engine ≡ (engine.insert fresh.engine p ban_metadata).0)
burst_bans_example =
    burst_bans engine cfg ((10 ^ 11) ∷ (10 ^ 11 + 1) ∷ []) (10 ^ 11 + 5) fresh client (10 ^ 11) refl
      refl (omega arith) ((omega arith, omega arith), ((omega arith, omega arith), tt))
      (omega arith, omega arith) (omega arith) refl

-- One ban that runs out at 500, and one at 900.
abbrev two_bans : AutoBanTracker E
two_bans = record fresh { banned = (client, 500) ∷ (IpAddr.v4 (10 ∷ 0 ∷ 0 ∷ 1 ∷ []), 900) ∷ [] }

sweep_exact_example :
    (r : AutoBanTracker E) × (sweep engine two_bans 600 ≡ some r)
    × ((ip : IpAddr) → find ip r.banned ≡ surviving 600 (find ip two_bans.banned))
    × (r.violations ≡ two_bans.violations)
    × (release engine (expired 600 two_bans.banned) two_bans.engine ≡ some r.engine)
    × ((ip : IpAddr) (later : ℕ) → 600 ≤ later → is_banned r ip later ≡ is_banned two_bans ip later)
sweep_exact_example = sweep_exact engine two_bans 600 (refl, (refl, tt)) (refl, (refl, tt))

record_violation-IsValid_example :
    (r : AutoBanTracker E) × (answer : Bool) × (record_violation engine cfg two_bans client 1000
      ≡ some (r, answer))
    × IsValid 3 r
    × ((other : IpAddr)
        → other ≢ client
        → (timestamps_of r other ≡ timestamps_of two_bans other)
          × (find other r.banned ≡ find other two_bans.banned))
record_violation-IsValid_example =
    record_violation-IsValid engine cfg two_bans client 1000 (omega arith) (omega arith) refl
      (record {
        violations_once = tt;
        banned_once = (refl, (refl, tt));
        banned_keys = (refl, (refl, tt));
        few = tt;
      })

-- A parser that knows three addresses.
abbrev parse : String → Option IpAddr
parse s =
    if string_key.same s "10.0.0.7"
    then some (IpAddr.v4 (10 ∷ 0 ∷ 0 ∷ 7 ∷ []))
    else if string_key.same s "203.0.113.5"
    then some (IpAddr.v4 (203 ∷ 0 ∷ 113 ∷ 5 ∷ []))
    else if string_key.same s "10.1.2.3"
    then some client
    else none

extract_ip_rightmost_example :
    extract_ip parse (some "forged, 203.0.113.5 , 10.1.2.3,10.0.0.7") none none (ten ∷ [])
    ≡ ok (IpAddr.v4 (203 ∷ 0 ∷ 113 ∷ 5 ∷ []))
unfolding is_trusted agree pad
extract_ip_rightmost_example =
    extract_ip_rightmost parse "forged, 203.0.113.5 , 10.1.2.3,10.0.0.7" none none (ten ∷ [])
      ("forged" ∷ []) "203.0.113.5" ("10.1.2.3" ∷ "10.0.0.7" ∷ [])
      (IpAddr.v4 (203 ∷ 0 ∷ 113 ∷ 5 ∷ [])) refl
      ((client, refl, refl), ((IpAddr.v4 (10 ∷ 0 ∷ 0 ∷ 7 ∷ []), refl, refl), tt)) refl refl
