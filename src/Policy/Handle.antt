-- ===== src/Policy/Handle.antt =====
-- lib/rust/policy/src/handle.rs: packed addresses and result codes for bindings.
use radixip.Base.{
  ℕ, ◌≡◌, zero, suc, refl, sym, ap, ◌∙◌, Option, none, some, List, [], ◌∷◌, ◌++◌, length, take,
  ◌==◌, if◌then◌else◌,
}
use radixip.Net.{IpAddr, IsAddress}
use radixip.Policy.PolicyEngine.{PolicyDecision}

-- Bytes: sixteen octets.
pub record PackedIp : Type 0 where
  pub family : ℕ
  pub bytes : List ℕ

-- An IPv4 address is made of the first four bytes.
unfoldable pub into_ip_addr : PackedIp → Option IpAddr
into_ip_addr p =
    if p.family == 4
    then some (IpAddr.v4 (take 4 p.bytes))
    else if p.family == 6
    then some (IpAddr.v6 p.bytes)
    else none

abbrev pub zeros : ℕ → List ℕ
zeros zero = []
zeros (suc n) = 0 ∷ zeros n

-- `impl From<IpAddr> for PackedIp`
unfoldable pub from : IpAddr → PackedIp
from (IpAddr.v4 o) = record { family = 4; bytes = o ++ zeros 12 }
from (IpAddr.v6 o) = record { family = 6; bytes = o }

pub data PolicyDecisionCode : Type 0 where
  allow block limit bad_request : PolicyDecisionCode

-- The discriminants of `#[repr(u8)]`.
abbrev pub code : PolicyDecisionCode → ℕ
code PolicyDecisionCode.allow = 0
code PolicyDecisionCode.block = 1
code PolicyDecisionCode.limit = 2
code PolicyDecisionCode.bad_request = 3

pub record PolicyResult : Type 0 where
  pub decision : PolicyDecisionCode
  pub retry_after_seconds : ℕ

unfoldable pub decision_code : PolicyDecision → PolicyDecisionCode
decision_code PolicyDecision.allow = PolicyDecisionCode.allow
decision_code PolicyDecision.block = PolicyDecisionCode.block
decision_code PolicyDecision.auto_banned = PolicyDecisionCode.block
decision_code PolicyDecision.limit = PolicyDecisionCode.limit
decision_code (PolicyDecision.bad_request _) = PolicyDecisionCode.bad_request

unfoldable pub from_decision : PolicyDecision → PolicyResult
from_decision d =
    let c = decision_code d in
    record { decision = c; retry_after_seconds = if code c == 2 then 1 else 0 }

take-append : (o rest : List ℕ) → take (length o) (o ++ rest) ≡ o
take-append [] rest = refl
take-append (x ∷ o) rest = ap (λ l. x ∷ l) (take-append o rest)

-- Packing an address and unpacking it gives it back.
pub into_ip_addr-from : (ip : IpAddr) → IsAddress ip → into_ip_addr (from ip) ≡ some ip
unfolding into_ip_addr from
into_ip_addr-from (IpAddr.v4 o) h =
    ap (λ l. some (IpAddr.v4 l))
      (ap (λ n. take n (o ++ zeros 12)) (sym h) ∙ take-append o (zeros 12))
into_ip_addr-from (IpAddr.v6 o) h = refl
