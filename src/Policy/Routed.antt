-- ===== src/Policy/Routed.antt =====
-- Requests with the limiter of their route: `check_ip_with_limiter` of lib/rust/policy/src/lib.rs and
-- `PolicyHandle` of lib/rust/policy/src/handle.rs.
-- The route trie stores the number of a limiter; the caches of the limiters are kept by number.
use Prim.Native.String.{String}
use radixip.Base.{
  ℕ, ◌≡◌, ◌⊎◌, inl, inr, Bool-cases, refl, sym, subst, Bool, true, false, not, ◌&&◌, Option, none,
  some, Key, ◌>>=◌, if◌then◌else◌, ◌==◌, arith,
}
use radixip.Net.{IpAddr, Network, IpNetwork}
use radixip.RadixEngine.{RadixEngine, Metadata}
use radixip.Policy.AutoBan.{AutoBanTracker, record_violation}
use radixip.Policy.Limiter
use radixip.Policy.Limiter.{RateLimitConfig, BucketKey, Cache}
use radixip.Policy.RouteTrie.{RouteTrie, match_route}
use radixip.Policy.PolicyEngine.{
  PolicyEngine, PolicyConfig, Clock, PolicyDecision, allow, block, limit, auto_banned, BanMaps,
  blocked, violate, settle, check_ip, tracker,
}
use radixip.Policy.Handle.{PackedIp, PolicyResult, into_ip_addr, from_decision}

-- A property of the result, if there is one.
abbrev pub Holds {ℓ κ} : {A : Type ℓ} → (A → Type κ) → Option A → Type κ
Holds Q none = Unit
Holds Q (some x) = Q x

pub trivial-Holds {ℓ} : {A : Type ℓ} (o : Option A) → Holds (λ _. Unit {0}) o
trivial-Holds none = tt
trivial-Holds (some x) = tt

pub itself-Holds {ℓ} : {A : Type ℓ} (o : Option A) → Holds (λ x. o ≡ some x) o
itself-Holds none = tt
itself-Holds (some x) = refl

at_own {ℓ} : {A : Type ℓ} (i : ℕ) (x y : A) → x ≡ (if i == i then x else y)
at_own i x y = ground arith

pub bind-Holds {ℓ ℓ₂ κ μ} :
    {A : Type ℓ} {B : Type ℓ₂} (P : A → Type κ) (Q : B → Type μ) (o : Option A) (f : A → Option B)
    → Holds P o
    → ((x : A) → P x → Holds Q (f x))
    → Holds Q (o >>= f)
bind-Holds P Q none f h k = tt
bind-Holds P Q (some x) f h k = k x h

-- `PolicyHandle`
pub record PolicyHandle (E C : Type 0) : Type 0 where
  pub policy : PolicyEngine E C
  pub route_trie : Option (RouteTrie ℕ)
  pub routes : ℕ → C

-- The limiter of a request, if there are routes and one matches.
unfoldable pub route_of :
    {E C : Type 0} → (String → String) → PolicyHandle E C → (method path : String) → Option ℕ
route_of to_uppercase h method path =
    h.route_trie >>= λ trie. match_route to_uppercase trie method path

module _ {N4 N6 : Type 0} ⦃a : Network 4 N4⦄ ⦃b : Network 16 N6⦄ {E C : Type 0} ⦃k : Key IpAddr⦄
    (t : RadixEngine E (IpNetwork N4 N6) IpAddr Metadata) (cache : Cache C (BucketKey N4 N6))
    (cfg : PolicyConfig N4 N6) where
  -- `check_ip_with_limiter` with a route limiter, by the answer of the blocklist.
  unfoldable pub check_routed :
      PolicyEngine E C
      → (limits : RateLimitConfig) (c : C) → IpAddr
      → (now : Clock) → E × Bool
      → Option (PolicyEngine E C × C × PolicyDecision)
  check_routed s limits c ip now (engine, true) = some (record s { engine = engine }, c, block)
  check_routed s limits c ip now (engine, false) = do
    r ← Limiter.allow t cache limits c engine ip now.seconds
    d ← settle t cache cfg (record s { engine = r.1 }) ip now (cfg.rate_limit.enabled && not r.2)
    some (d.0, r.0, d.1)

  unfoldable pub check_ip_with_limiter :
      PolicyEngine E C
      → IpAddr
      → (now : Clock) → (limits : RateLimitConfig) (c : C)
      → Option (PolicyEngine E C × C × PolicyDecision)
  check_ip_with_limiter s ip now limits c =
      check_routed s limits c ip now (blocked t cache cfg s.engine ip)

  module _ (to_uppercase : String → String) (limits : ℕ → RateLimitConfig) where
    unfoldable pub check_address :
        PolicyHandle E C
        → IpAddr
        → (now : Clock) → Option ℕ
        → Option (PolicyHandle E C × PolicyDecision)
    check_address h ip now none = do
      r ← check_ip t cache cfg h.policy ip now
      some (record h { policy = r.0 }, r.1)
    check_address h ip now (some i) = do
      r ← check_ip_with_limiter h.policy ip now (limits i) (h.routes i)
      some (record h { policy = r.0; routes = λ j. if j == i then r.1 else h.routes j }, r.2)

    -- `check_request`, by the address that the packed bytes hold.
    unfoldable pub check_unpacked :
        PolicyHandle E C
        → (method path : String) → (now : Clock) → Option IpAddr
        → Option (PolicyHandle E C × Option PolicyResult)
    check_unpacked h method path now none = some (h, none)
    check_unpacked h method path now (some ip) = do
      r ← check_address h ip now (route_of to_uppercase h method path)
      some (r.0, some (from_decision r.1))

    unfoldable pub check_request :
        PolicyHandle E C
        → PackedIp
        → (method path : String) → (now : Clock) → Option (PolicyHandle E C × Option PolicyResult)
    check_request h packed method path now = check_unpacked h method path now (into_ip_addr packed)

  abbrev pub IsOver : PolicyDecision → Type 0
  IsOver d = (d ≡ limit) ⊎ (d ≡ auto_banned)

  -- A request over its limit is not allowed, and one within it is.
  abbrev pub IsSettled : (over : Bool) → PolicyDecision → Type 0
  IsSettled true d = IsOver d
  IsSettled false d = d ≡ allow

  -- What is left of a limiter's cache, and the decision, by the answer of the blocklist: a blocked
  -- address is not charged; otherwise it is what this limiter leaves when it is asked once.
  abbrev pub IsCharge :
      RateLimitConfig → C → IpAddr → (now : Clock) → E × Bool → (left : C) → PolicyDecision → Type 0
  IsCharge limits c ip now (engine, true) left d = (left ≡ c) × (d ≡ block)
  IsCharge limits c ip now (engine, false) left d =
      (answer : C × E × Bool) × (Limiter.allow t cache limits c engine ip now.seconds ≡ some answer)
      × (left ≡ answer.0)
      × IsSettled (cfg.rate_limit.enabled && not answer.2) d

  violate-Holds :
      (s : PolicyEngine E C) (ip : IpAddr) (now : Clock) (m : Option BanMaps)
      → Holds (λ r. (r.0.limiter ≡ s.limiter) × IsOver r.1) (violate t cache cfg s ip now m)
  unfolding violate
  violate-Holds s ip now none = (refl, inl refl)
  violate-Holds s ip now (some m) =
      let told = record_violation t cfg.auto_ban (tracker m s.engine) ip now.instant in
      bind-Holds (λ (_ : AutoBanTracker E × Bool). Unit {0})
        (λ (r : PolicyEngine E C × PolicyDecision). (r.0.limiter ≡ s.limiter) × IsOver r.1) told
        (λ (r : AutoBanTracker E × Bool). some (
          record s {
            engine = r.0.engine;
            auto_ban = some (record { violations = r.0.violations; banned = r.0.banned });
          },
          if r.1 then auto_banned else limit,
        ))
        (trivial-Holds told)
        (λ (r : AutoBanTracker E × Bool) _.
          (refl, elim (Bool-cases r.1) [ inl p ↦ inr (rw p refl) | inr p ↦ inl (rw p refl) ]))

  settle-Holds :
      (s : PolicyEngine E C) (ip : IpAddr) (now : Clock) (f : Bool)
      → Holds (λ r. (r.0.limiter ≡ s.limiter) × IsSettled f r.1) (settle t cache cfg s ip now f)
  unfolding settle
  settle-Holds s ip now true = violate-Holds s ip now s.auto_ban
  settle-Holds s ip now false = (refl, refl)

  check_routed-Holds :
      (s : PolicyEngine E C) (limits : RateLimitConfig) (c : C) (ip : IpAddr) (now : Clock)
      (found : E × Bool)
      → Holds
          (λ r. (r.0.limiter ≡ s.limiter) × IsCharge limits c ip now found r.1 r.2)
          (check_routed s limits c ip now found)
  unfolding check_routed
  check_routed-Holds s limits c ip now (engine, true) = (refl, (refl, refl))
  check_routed-Holds s limits c ip now (engine, false) =
      bind-Holds
        (λ (r : C × E × Bool). Limiter.allow t cache limits c engine ip now.seconds ≡ some r)
        (λ (r : PolicyEngine E C × C × PolicyDecision).
          (r.0.limiter ≡ s.limiter) × IsCharge limits c ip now (engine, false) r.1 r.2)
        (Limiter.allow t cache limits c engine ip now.seconds) _ (itself-Holds _)
        (λ (r : C × E × Bool) asked.
          bind-Holds
            (λ (d : PolicyEngine E C × PolicyDecision).
              (d.0.limiter ≡ s.limiter) × IsSettled (cfg.rate_limit.enabled && not r.2) d.1)
            (λ (r : PolicyEngine E C × C × PolicyDecision).
              (r.0.limiter ≡ s.limiter) × IsCharge limits c ip now (engine, false) r.1 r.2)
            (settle t cache cfg (record s { engine = r.1 }) ip now
              (cfg.rate_limit.enabled && not r.2))
            (λ (d : PolicyEngine E C × PolicyDecision). some (d.0, r.0, d.1))
            (settle-Holds (record s { engine = r.1 }) ip now (cfg.rate_limit.enabled && not r.2))
            (λ d h. (h.0, (r, asked, refl, h.1))))

  -- The general limiter and the limiters of other routes are as before, and that of the route `i`
  -- is charged.
  abbrev pub IsCharged :
      RateLimitConfig
      → (h : PolicyHandle E C) (i : ℕ) → IpAddr
      → (now : Clock) → PolicyHandle E C
      → PolicyDecision
      → Type 0
  IsCharged limits h i ip now after d =
      (after.policy.limiter ≡ h.policy.limiter)
      × ((j : ℕ) → j == i ≡ false → after.routes j ≡ h.routes j)
      × IsCharge limits (h.routes i) ip now (blocked t cache cfg h.policy.engine ip)
          (after.routes i) d

  check_address-Holds :
      (to_uppercase : String → String) (limits : ℕ → RateLimitConfig) (h : PolicyHandle E C)
      (ip : IpAddr) (now : Clock) (i : ℕ)
      → Holds
          (λ r. IsCharged (limits i) h i ip now r.0 r.1)
          (check_address to_uppercase limits h ip now (some i))
  unfolding check_address check_ip_with_limiter
  check_address-Holds to_uppercase limits h ip now i =
      let found = blocked t cache cfg h.policy.engine ip in
      bind-Holds
        (λ (r : PolicyEngine E C × C × PolicyDecision).
          (r.0.limiter ≡ h.policy.limiter) × IsCharge (limits i) (h.routes i) ip now found r.1 r.2)
        (λ (r : PolicyHandle E C × PolicyDecision). IsCharged (limits i) h i ip now r.0 r.1)
        (check_ip_with_limiter h.policy ip now (limits i) (h.routes i))
        (λ (r : PolicyEngine E C × C × PolicyDecision).
          some (record h { policy = r.0; routes = λ j. if j == i then r.1 else h.routes j }, r.2))
        (check_routed-Holds h.policy (limits i) (h.routes i) ip now found)
        (λ r kept. (
          kept.0,
          λ j other. ground (arith, other),
          subst (λ left. IsCharge (limits i) (h.routes i) ip now found left r.2)
              (at_own i r.1 (h.routes i)) kept.1,
        ))

  check_unpacked-Holds :
      (to_uppercase : String → String) (limits : ℕ → RateLimitConfig) (h : PolicyHandle E C)
      (method path : String) (now : Clock) (i : ℕ) (ip : IpAddr)
      → route_of to_uppercase h method path ≡ some i
      → Holds
          (λ r.
            (d : PolicyDecision) × (r.1 ≡ some (from_decision d))
            × IsCharged (limits i) h i ip now r.0 d)
          (check_unpacked to_uppercase limits h method path now (some ip))
  unfolding check_unpacked
  check_unpacked-Holds to_uppercase limits h method path now i ip route =
      bind-Holds
        (λ (r : PolicyHandle E C × PolicyDecision). IsCharged (limits i) h i ip now r.0 r.1)
        (λ (r : PolicyHandle E C × Option PolicyResult).
          (d : PolicyDecision) × (r.1 ≡ some (from_decision d))
          × IsCharged (limits i) h i ip now r.0 d)
        (check_address to_uppercase limits h ip now (route_of to_uppercase h method path))
        (λ (r : PolicyHandle E C × PolicyDecision). some (r.0, some (from_decision r.1)))
        (subst
          (λ o.
            Holds
              (λ (r : PolicyHandle E C × PolicyDecision). IsCharged (limits i) h i ip now r.0 r.1)
              (check_address to_uppercase limits h ip now o))
          (sym route) (check_address-Holds to_uppercase limits h ip now i))
        (λ r charged. (r.1, refl, charged))

  -- A request of an address with a route is charged to the limiter of that route alone: the general
  -- limiter and those of the other routes stay. If the blocklist matches the address, that of the
  -- route stays too and the answer is block; otherwise it is left as it is when it is asked once,
  -- and the answer is allow exactly if rate limiting is disabled or it allows the request.
  pub check_request-only_route :
      (to_uppercase : String → String) (limits : ℕ → RateLimitConfig) (h after : PolicyHandle E C)
      (packed : PackedIp) (ip : IpAddr) (method path : String) (now : Clock) (i : ℕ)
      (result : Option PolicyResult)
      → into_ip_addr packed ≡ some ip
      → route_of to_uppercase h method path ≡ some i
      → check_request to_uppercase limits h packed method path now ≡ some (after, result)
      → (d : PolicyDecision) × (result ≡ some (from_decision d))
        × IsCharged (limits i) h i ip now after d
  unfolding check_request
  check_request-only_route to_uppercase limits h after packed ip method path now i result address
        route e =
      let run : check_unpacked to_uppercase limits h method path now (some ip)
          ≡ some (after, result) =
        subst (λ o. check_unpacked to_uppercase limits h method path now o ≡ some (after, result))
          address e in
      subst
        (Holds (λ (r : PolicyHandle E C × Option PolicyResult).
          (d : PolicyDecision) × (r.1 ≡ some (from_decision d))
          × IsCharged (limits i) h i ip now r.0 d))
        run (check_unpacked-Holds to_uppercase limits h method path now i ip route)
