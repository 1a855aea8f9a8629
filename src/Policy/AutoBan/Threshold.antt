-- ===== src/Policy/AutoBan/Threshold.antt =====
-- Bursts of violations against `AutoBanTracker` (lib/rust/policy/src/auto_ban.rs).
use radixip.Base.{
  ℕ, ◌+◌, ◌≤◌, ◌<◌, ◌≡◌, refl, sym, subst, ap, ◌∙◌, Bool, true, false, Option, some, List, [], ◌∷◌,
  ◌++◌, length, length-append, All-append, leb, ltb, lt→ltb, ge→ltb, Key, put, find-put_self, All,
  retain, ◌>>=◌, arith,
}
use radixip.Net.{IpAddr, IsAddress, Network, IpNetwork}
use radixip.RadixEngine.{RadixEngine, Metadata}
use radixip.Policy.AutoBan.{
  AutoBanConfig, AutoBanTracker, from_secs, or_empty, max_instant, checked_add, cutoff,
  ban_metadata, timestamps_of, runs, is_banned, host_prefix, insert_ban, settle, record_violation,
}

-- Within a window that opens at `a`.
abbrev pub During : (a w t : ℕ) → Type 0
During a w t = (a ≤ t) × (t ≤ a + w)

retain-During :
    (a w now : ℕ) (ts : List ℕ)
    → w ≤ a + max_instant
    → During a w now
    → All (During a w) ts
    → retain (leb (cutoff now w)) ts ≡ ts
retain-During a w now [] h hn hs = refl
retain-During a w now (t ∷ ts) h (l, u) ((lt, ut), hs) =
    ground (arith, retain-During a w now ts h (l, u) hs)

checked_add-some :
    (now duration : ℕ)
    → now + duration < max_instant
    → checked_add now duration ≡ some (now + duration)
unfolding checked_add
checked_add-some now duration h = rw (lt→ltb _ _ h) refl

abbrev pub falses : List ℕ → List Bool
falses [] = []
falses (_ ∷ ts) = false ∷ falses ts

module _ {N4 N6 : Type 0} ⦃a : Network 4 N4⦄ ⦃b : Network 16 N6⦄ where
  pub host_prefix-some :
      (ip : IpAddr) → IsAddress ip → (p : IpNetwork N4 N6) × (host_prefix ip ≡ some p)
  unfolding host_prefix
  host_prefix-some (IpAddr.v4 o) h =
      let (n, e, _, _) = a.new_some o 32 h (omega arith) in (IpNetwork.v4 n, rw e)
  host_prefix-some (IpAddr.v6 o) h =
      let (n, e, _, _) = b.new_some o 128 h (omega arith) in (IpNetwork.v6 n, rw e)

  module _ {E : Type 0} ⦃k : Key IpAddr⦄ (t : RadixEngine E (IpNetwork N4 N6) IpAddr Metadata)
      (cfg : AutoBanConfig) where
    -- Violations of one address, at the given times.
    unfoldable pub violate_all :
        AutoBanTracker E → IpAddr → List ℕ → Option (AutoBanTracker E × List Bool)
    violate_all s ip [] = some (s, [])
    violate_all s ip (now ∷ times) = do
      one ← record_violation t cfg s ip now
      rest ← violate_all one.0 ip times
      some (rest.0, one.1 ∷ rest.1)

    -- The timestamps after one more violation, before the threshold is tested.
    abbrev pub recent : AutoBanTracker E → IpAddr → ℕ → List ℕ
    recent s ip now =
        retain (leb (cutoff now (from_secs cfg.window_seconds))) (timestamps_of s ip) ++ (now ∷ [])

    pub below :
        (s : AutoBanTracker E) (ip : IpAddr) (now : ℕ)
        → length (recent s ip now) < cfg.threshold_violations
        → record_violation t cfg s ip now
          ≡ some (record s { violations = put ip (recent s ip now) s.violations }, false)
    unfolding record_violation settle
    below s ip now h = ap (settle t cfg s ip now (recent s ip now)) (lt→ltb _ _ h)

    pub reached :
        (s : AutoBanTracker E) (ip : IpAddr) (now : ℕ) (p : IpNetwork N4 N6)
        → host_prefix ip ≡ some p
        → cfg.threshold_violations ≤ length (recent s ip now)
        → now + from_secs cfg.ban_duration_seconds < max_instant
        → record_violation t cfg s ip now
          ≡ some (
            record {
              violations = put ip [] s.violations;
              banned = put ip (now + from_secs cfg.ban_duration_seconds) s.banned;
              engine = (t.insert s.engine p ban_metadata).0;
            },
            true,
          )
    unfolding record_violation settle insert_ban
    reached s ip now p e h room =
        ap (settle t cfg s ip now (recent s ip now)) (ge→ltb _ _ h)
        ∙ rw (settle, checked_add-some now (from_secs cfg.ban_duration_seconds) room, e) refl

    pub recent-During :
        (s : AutoBanTracker E) (ip : IpAddr) (now start : ℕ) (seen : List ℕ)
        → timestamps_of s ip ≡ seen
        → from_secs cfg.window_seconds ≤ start + max_instant
        → All (During start (from_secs cfg.window_seconds)) seen
        → During start (from_secs cfg.window_seconds) now
        → recent s ip now ≡ seen ++ (now ∷ [])
    recent-During s ip now start seen e w hs h =
        rw (e, retain-During start (from_secs cfg.window_seconds) now seen w h hs)

    burst_from :
        (times : List ℕ) (last : ℕ) (s : AutoBanTracker E) (ip : IpAddr) (start : ℕ) (seen : List ℕ)
        → IsAddress ip
        → timestamps_of s ip ≡ seen
        → from_secs cfg.window_seconds ≤ start + max_instant
        → All (During start (from_secs cfg.window_seconds)) seen
        → All (During start (from_secs cfg.window_seconds)) times
        → During start (from_secs cfg.window_seconds) last
        → last + from_secs cfg.ban_duration_seconds < max_instant
        → length seen + length times + 1 ≡ cfg.threshold_violations
        → (r : AutoBanTracker E) × (p : IpNetwork N4 N6) × (violate_all s ip (times ++ (last ∷ []))
            ≡ some (r, falses times ++ (true ∷ [])))
          × (timestamps_of r ip ≡ [])
          × ((now : ℕ) → is_banned r ip now ≡ ltb now (last + from_secs cfg.ban_duration_seconds))
          × (host_prefix ip ≡ some p)
          × (r.engine ≡ (t.insert s.engine p ban_metadata).0)
    unfolding violate_all is_banned
    burst_from [] last s ip start seen ha e w hs ht h room l =
        let (p, ep) = host_prefix-some ip ha in
        let e1 = recent-During s ip last start seen e w hs h in
        let len : length (seen ++ (last ∷ [])) ≡ length seen + 1 = length-append seen (last ∷ []) in
        let full : cfg.threshold_violations ≤ length (recent s ip last) =
          subst (λ l. cfg.threshold_violations ≤ length l) (sym e1) (omega (arith, len, l)) in
        let expiry : ℕ = last + from_secs cfg.ban_duration_seconds in
        let after : AutoBanTracker E = record {
          violations = put ip [] s.violations;
          banned = put ip expiry s.banned;
          engine = (t.insert s.engine p ban_metadata).0;
        } in
        (
          after,
          p,
          rw (reached s ip last p ep full room) refl,
          ap or_empty (find-put_self ip [] s.violations),
          λ now. ap (runs now) (find-put_self ip expiry s.banned),
          ep,
          refl,
        )
    burst_from (now ∷ times) last s ip start seen ha e w hs (h, ht) hl room l =
        let e1 = recent-During s ip now start seen e w hs h in
        let len : length (seen ++ (now ∷ [])) ≡ length seen + 1 = length-append seen (now ∷ []) in
        let small : length (recent s ip now) < cfg.threshold_violations =
          subst (λ l. length l < cfg.threshold_violations) (sym e1) (omega (arith, len, l)) in
        let s1 : AutoBanTracker E = record s {
          violations = put ip (recent s ip now) s.violations;
        } in
        let one : record_violation t cfg s ip now ≡ some (s1, false) = below s ip now small in
        let (r, p, er, et, eb, ep, ee) =
          burst_from times last s1 ip start (seen ++ (now ∷ [])) ha
            (ap or_empty (find-put_self ip (recent s ip now) s.violations) ∙ e1) w
            (All-append (During start (from_secs cfg.window_seconds)) seen (now ∷ []) hs (h, tt)) ht
            hl room (omega (arith, len, l)) in
        (r, p, rw (one, er), et, eb, ep, ee)

    -- An address without recorded violations that violates threshold times within one window, of at
    -- most 2 ^ 63 seconds more than the instant at which it opens: if the end of the ban is an
    -- instant, the last call alone answers true, records the ban until its duration is over, inserts
    -- the host prefix and forgets the violations.
    pub burst_bans :
        (times : List ℕ) (last : ℕ) (s : AutoBanTracker E) (ip : IpAddr) (start : ℕ)
        → IsAddress ip
        → timestamps_of s ip ≡ []
        → from_secs cfg.window_seconds ≤ start + max_instant
        → All (During start (from_secs cfg.window_seconds)) times
        → During start (from_secs cfg.window_seconds) last
        → last + from_secs cfg.ban_duration_seconds < max_instant
        → length times + 1 ≡ cfg.threshold_violations
        → (r : AutoBanTracker E) × (p : IpNetwork N4 N6) × (violate_all s ip (times ++ (last ∷ []))
            ≡ some (r, falses times ++ (true ∷ [])))
          × (timestamps_of r ip ≡ [])
          × ((now : ℕ) → is_banned r ip now ≡ ltb now (last + from_secs cfg.ban_duration_seconds))
          × (host_prefix ip ≡ some p)
          × (r.engine ≡ (t.insert s.engine p ban_metadata).0)
    burst_bans times last s ip start ha e w hs h room l =
        burst_from times last s ip start [] ha e w tt hs h room (omega (arith, l))
