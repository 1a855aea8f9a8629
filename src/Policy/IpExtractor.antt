-- ===== src/Policy/IpExtractor.antt =====
-- lib/rust/policy/src/ip_extractor.rs: the address of the client, from headers and the socket.
-- `parse` is the parser of `IpAddr`; the theorems hold of any.
use Prim.Native.String.{String}
use radixip.Base.{
  ◌≡◌, refl, sym, ap, ◌∙◌, Bool, true, false, Option, none, some, List, [], ◌∷◌, ◌++◌, All, map,
  reverse, reverse-append, append_assoc, append_nil, All-reverse, split, trim, Result, ok, err,
  if◌then◌else◌,
}
use radixip.Net.{IpAddr, Network, IpNetwork, contains}

pub data ExtractError : Type 0 where
  not_found : ExtractError
  invalid : String → ExtractError

-- The hops of `X-Forwarded-For`, left to right: `split(',')`, each trimmed.
abbrev pub hops : String → List String
hops xff_val = map trim (split b',' xff_val)

module _ (parse : String → Option IpAddr) where
  -- `str::parse` with its error mapped.
  abbrev pub parse_or_invalid : String → Result IpAddr ExtractError
  parse_or_invalid rip = elim (parse rip) [ none ↦ err (invalid rip) | some ip ↦ ok ip ]

  -- Steps 2 and 3.
  unfoldable pub fallback :
      (x_real_ip : Option String) (remote_addr : Option IpAddr) → Result IpAddr ExtractError
  fallback (some rip) remote_addr = parse_or_invalid rip
  fallback none (some addr) = ok addr
  fallback none none = err not_found

  abbrev pub or_fall_back :
      Option (Result IpAddr ExtractError)
      → (x_real_ip : Option String) (remote_addr : Option IpAddr) → Result IpAddr ExtractError
  or_fall_back (some r) x_real_ip remote_addr = r
  or_fall_back none x_real_ip remote_addr = fallback x_real_ip remote_addr

module _ {N4 N6 : Type 0} ⦃a : Network 4 N4⦄ ⦃b : Network 16 N6⦄ where
  unfoldable pub is_trusted : IpAddr → List (IpNetwork N4 N6) → Bool
  is_trusted ip [] = false
  is_trusted ip (net ∷ nets) = if contains net ip then true else is_trusted ip nets

  module _ (parse : String → Option IpAddr) where
    -- The loop over the hops, right to left; `none` is a loop that runs to its end.
    unfoldable pub walk : List (IpNetwork N4 N6) → List String → Option (Result IpAddr ExtractError)
    walk trusted [] = none
    walk trusted (raw ∷ ips) = elim (parse raw) [
      | none ↦ some (err (invalid raw))
      | some ip ↦ elim (is_trusted ip trusted) [ true ↦ walk trusted ips | false ↦ some (ok ip) ]
    ]

    unfoldable pub extract_ip :
        (xff x_real_ip : Option String) (remote_addr : Option IpAddr)
        → List (IpNetwork N4 N6)
        → Result IpAddr ExtractError
    extract_ip none x_real_ip remote_addr trusted_proxies = fallback parse x_real_ip remote_addr
    extract_ip (some xff_val) x_real_ip remote_addr trusted_proxies =
        or_fall_back parse (walk trusted_proxies (reverse (hops xff_val))) x_real_ip remote_addr

    -- A hop that parses to a trusted proxy.
    abbrev pub IsProxy : List (IpNetwork N4 N6) → String → Type 0
    IsProxy trusted raw = (ip : IpAddr) × (parse raw ≡ some ip) × (is_trusted ip trusted ≡ true)

    walk-proxies :
        (trusted : List (IpNetwork N4 N6)) (proxies rest : List String)
        → All (IsProxy trusted) proxies
        → walk trusted (proxies ++ rest) ≡ walk trusted rest
    unfolding walk
    walk-proxies trusted [] rest h = refl
    walk-proxies trusted (x ∷ proxies) rest ((ip, ep, et), hs) =
        rw (ep, et) (walk-proxies trusted proxies rest hs)

    walk-client :
        (trusted : List (IpNetwork N4 N6)) (raw : String) (ips : List String) (ip : IpAddr)
        → parse raw ≡ some ip
        → is_trusted ip trusted ≡ false
        → walk trusted (raw ∷ ips) ≡ some (ok ip)
    unfolding walk
    walk-client trusted raw ips ip ep et = rw (ep, et, walk)

    -- The hops to the right of one that parses to an untrusted address are trusted proxies: that
    -- address is the answer, whatever stands to its left and in the other arguments.
    pub extract_ip_rightmost :
        (xff_val : String) (x_real_ip : Option String) (remote_addr : Option IpAddr)
        (trusted : List (IpNetwork N4 N6)) (front : List String) (raw : String)
        (proxies : List String) (ip : IpAddr)
        → hops xff_val ≡ front ++ (raw ∷ proxies)
        → All (IsProxy trusted) proxies
        → parse raw ≡ some ip
        → is_trusted ip trusted ≡ false
        → extract_ip (some xff_val) x_real_ip remote_addr trusted ≡ ok ip
    unfolding extract_ip walk
    extract_ip_rightmost xff_val x_real_ip remote_addr trusted front raw proxies ip e h ep et =
        let order : reverse (hops xff_val) ≡ reverse proxies ++ (raw ∷ reverse front) =
          ap reverse e
          ∙ reverse-append front (raw ∷ proxies)
          ∙ append_assoc (reverse proxies) (raw ∷ []) (reverse front) in
        ap (λ r. or_fall_back parse r x_real_ip remote_addr)
          (ap (walk trusted) order
            ∙ walk-proxies trusted (reverse proxies) (raw ∷ reverse front)
                (All-reverse (IsProxy trusted) proxies h)
            ∙ walk-client trusted raw (reverse front) ip ep et)

    -- A header whose hops are all trusted proxies is as good as none.
    pub extract_ip_only_proxies :
        (xff_val : String) (x_real_ip : Option String) (remote_addr : Option IpAddr)
        (trusted : List (IpNetwork N4 N6))
        → All (IsProxy trusted) (hops xff_val)
        → extract_ip (some xff_val) x_real_ip remote_addr trusted
          ≡ extract_ip none x_real_ip remote_addr trusted
    unfolding extract_ip walk
    extract_ip_only_proxies xff_val x_real_ip remote_addr trusted h =
        ap (λ r. or_fall_back parse r x_real_ip remote_addr)
          (ap (walk trusted) (sym (append_nil (reverse (hops xff_val))))
            ∙ walk-proxies trusted (reverse (hops xff_val)) []
                (All-reverse (IsProxy trusted) (hops xff_val) h))
