-- ===== src/Policy/AutoBan/Sweep.antt =====
-- Bans that end, and what one address's calls leave of another's, in
-- lib/rust/policy/src/auto_ban.rs.
use radixip.Base.{
  ℕ, ◌≤◌, ◌≡◌, refl, sym, subst, ap, ◌∙◌, inl, inr, Bool-cases, Option, none, some, List, [], ◌∷◌,
  leb, Key, find, erase, IsMap, same_false, find-erase_self, find-erase_other, All, arith,
  if◌then◌else◌,
}
use radixip.Net.{IpAddr, IsAddress, Network, IpNetwork}
use radixip.RadixEngine.{RadixEngine, Metadata}
use radixip.Policy.AutoBan.{AutoBanTracker, runs, is_banned, expired, unban, release, sweep}
use radixip.Policy.AutoBan.Threshold.{host_prefix-some}

module _ ⦃k : Key IpAddr⦄ where
  -- The ban that a sweep leaves.
  abbrev pub surviving : ℕ → Option ℕ → Option ℕ
  surviving now none = none
  surviving now (some expiry) = if leb expiry now then none else some expiry

  find-unban_absent :
      (ip : IpAddr) (ips : List IpAddr) (m : List (IpAddr × ℕ))
      → find ip m ≡ none
      → find ip (unban ips m) ≡ none
  unfolding unban
  find-unban_absent ip [] m h = h
  find-unban_absent ip (x ∷ ips) m h =
      find-unban_absent ip ips (erase x m) (elim (Bool-cases (k.same ip x)) [
        | inl p ↦
            subst (λ y. find ip (erase y m) ≡ none) ((k.same_iff ip x).0 p) (find-erase_self ip m)
        | inr p ↦ find-erase_other ip x m (same_false ip x p) ∙ h
      ])

  find-unban_kept :
      (now : ℕ) (ip : IpAddr) (banned m : List (IpAddr × ℕ))
      → find ip banned ≡ none
      → find ip (unban (expired now banned) m) ≡ find ip m
  unfolding unban expired
  find-unban_kept now ip [] m h = refl
  find-unban_kept now ip (x ∷ banned) m h = elim (Bool-cases (k.same ip x.0)) [
    | inl p ↦ let q : some x.1 ≡ none = rw p at h in cc
    | inr p ↦
        let q : find ip banned ≡ none = rw p at h in
        elim (Bool-cases (leb x.1 now)) [
          | inl d ↦
              rw (d, find-unban_kept now ip banned (erase x.0 m) q)
                (find-erase_other ip x.0 m (same_false ip x.0 p))
          | inr d ↦ rw (d, find-unban_kept now ip banned m q)
        ]
  ]

  find-unban :
      (now : ℕ) (ip : IpAddr) (banned m : List (IpAddr × ℕ))
      → IsMap banned
      → find ip m ≡ find ip banned
      → find ip (unban (expired now banned) m) ≡ surviving now (find ip banned)
  unfolding unban expired
  find-unban now ip [] m h e = e
  find-unban now ip (x ∷ banned) m (h, hs) e = elim (Bool-cases (k.same ip x.0)) [
    | inl p ↦
        let q : ip ≡ x.0 = (k.same_iff ip x.0).0 p in
        let stored : find ip m ≡ some x.1 = rw p at e in
        let alone : find ip banned ≡ none = subst (λ y. find y banned ≡ none) (sym q) h in
        elim (Bool-cases (leb x.1 now)) [
          | inl d ↦
              rw (p, d)
                (find-unban_absent ip (expired now banned) (erase x.0 m)
                  (subst (λ y. find ip (erase y m) ≡ none) q (find-erase_self ip m)))
          | inr d ↦ rw (p, d, find-unban_kept now ip banned m alone, stored)
        ]
    | inr p ↦
        let same : find ip m ≡ find ip banned = rw p at e in
        elim (Bool-cases (leb x.1 now)) [
          | inl d ↦
              rw (p, d)
                (find-unban now ip banned (erase x.0 m) hs
                  (find-erase_other ip x.0 m (same_false ip x.0 p) ∙ same))
          | inr d ↦ rw (p, d) (find-unban now ip banned m hs same)
        ]
  ]

  runs-surviving : (now t : ℕ) (o : Option ℕ) → now ≤ t → runs t (surviving now o) ≡ runs t o
  runs-surviving now t none h = refl
  runs-surviving now t (some expiry) h = ground arith

  AllKeys-expired :
      (now : ℕ) (m : List (IpAddr × ℕ)) → All (λ e. IsAddress e.0) m → All IsAddress (expired now m)
  unfolding expired
  AllKeys-expired now [] h = tt
  AllKeys-expired now (x ∷ m) (h, hs) = elim (Bool-cases (leb x.1 now)) [
    | inl d ↦ rw d (h, AllKeys-expired now m hs)
    | inr d ↦ rw d (AllKeys-expired now m hs)
  ]

module _ {N4 N6 : Type 0} ⦃a : Network 4 N4⦄ ⦃b : Network 16 N6⦄ {E : Type 0} ⦃k : Key IpAddr⦄
    (t : RadixEngine E (IpNetwork N4 N6) IpAddr Metadata) where
  release_total :
      (ips : List IpAddr) (engine : E)
      → All IsAddress ips
      → (r : E) × (release t ips engine ≡ some r)
  unfolding release
  release_total [] engine h = (engine, refl)
  release_total (ip ∷ ips) engine (h, hs) =
      let (p, ep) = host_prefix-some ip h in
      let (r, er) = release_total ips (t.remove engine p).0 hs in (r, rw ep er)

  -- A sweep of a ban map whose keys are addresses, each standing once, does not panic; it drops
  -- exactly the bans that have run out, keeps the violations, removes the same addresses from the
  -- engine, and is_banned answers at every later instant as it would have without the sweep.
  pub sweep_exact :
      (s : AutoBanTracker E) (now : ℕ)
      → IsMap s.banned
      → All (λ e. IsAddress e.0) s.banned
      → (r : AutoBanTracker E) × (sweep t s now ≡ some r)
        × ((ip : IpAddr) → find ip r.banned ≡ surviving now (find ip s.banned))
        × (r.violations ≡ s.violations)
        × (release t (expired now s.banned) s.engine ≡ some r.engine)
        × ((ip : IpAddr) (later : ℕ) → now ≤ later → is_banned r ip later ≡ is_banned s ip later)
  unfolding sweep is_banned
  sweep_exact s now h ha =
      let (engine, ee) =
        release_total (expired now s.banned) s.engine (AllKeys-expired now s.banned ha) in
      let banned : List (IpAddr × ℕ) = unban (expired now s.banned) s.banned in
      let r : AutoBanTracker E = record s { banned = banned; engine = engine } in
      let found : (ip : IpAddr) → find ip banned ≡ surviving now (find ip s.banned) =
        λ ip. find-unban now ip s.banned s.banned h refl in
      (
        r,
        rw ee,
        found,
        refl,
        ee,
        λ ip later l. ap (runs later) (found ip) ∙ runs-surviving now later (find ip s.banned) l,
      )
