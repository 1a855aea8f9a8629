-- ===== src/Xdp/Loader.antt =====
-- The loader of the XDP program, ebpf/xdp-loader/src/lib.rs: the seeding of the maps and the events
-- that change them. Errors keep no text. Parsing a network and an address is a parameter.
pub mod Sets
pub mod Families
pub mod Normal
pub mod Synced
pub mod Events
pub mod Protected
use Prim.Native.String.{String}
use radixip.Base.{
  ℕ, ◌+◌, ◌-◌, ◌≤◌, Bool, true, false, not, ◌&&◌, ◌||◌, Option, none, some, List, [], ◌∷◌, length,
  drop, take, get_or, ltb, leb, ◌==◌, if◌then◌else◌, ◌>>=◌, or_else, trim, words, has_char,
  string_key,
}
use radixip.Net.{IpAddr}
use radixip.Xdp.{LpmTrie, PrefixNet}

-- `ipnet::IpNet`
pub data IpNet (N4 N6 : Type 0) : Type 0 where
  v4 : N4 → IpNet N4 N6
  v6 : N6 → IpNet N4 N6

-- The fields of `Config` that the maps depend on.
pub record Config (N4 N6 : Type 0) : Type 0 where
  pub fail_closed : Bool
  pub min_v4 : ℕ
  pub min_v6 : ℕ
  pub never_block : List (IpNet N4 N6)

-- `Maps`; the set of entries is a list without repetitions.
pub record Maps (T4 T6 N4 N6 : Type 0) : Type 0 where
  pub v4 : T4
  pub v6 : T6
  pub entries : List (IpNet N4 N6)

-- `Ipv6Addr::to_ipv4_mapped`: ten zeros, two bytes 255, and the IPv4 address.
unfoldable pub to_ipv4_mapped : List ℕ → Option (List ℕ)
to_ipv4_mapped o =
    if (get_or o 0 0 == 0)
      && (get_or o 1 0 == 0)
      && (get_or o 2 0 == 0)
      && (get_or o 3 0 == 0)
      && (get_or o 4 0 == 0)
      && (get_or o 5 0 == 0)
      && (get_or o 6 0 == 0)
      && (get_or o 7 0 == 0)
      && (get_or o 8 0 == 0)
      && (get_or o 9 0 == 0)
      && (get_or o 10 0 == 255)
      && (get_or o 11 0 == 255)
    then some (drop 12 o)
    else none

module _ {N4 N6 : Type 0} ⦃a : PrefixNet 4 N4⦄ ⦃b : PrefixNet 16 N6⦄ where
  abbrev pub same_net : IpNet N4 N6 → IpNet N4 N6 → Bool
  same_net (v4 n) (v4 m) = a.same n m
  same_net (v4 n) (v6 m) = false
  same_net (v6 n) (v4 m) = false
  same_net (v6 n) (v6 m) = b.same n m

  abbrev pub trunc : IpNet N4 N6 → IpNet N4 N6
  trunc (v4 n) = v4 (a.trunc n)
  trunc (v6 n) = v6 (b.trunc n)

  -- `HashSet::insert`, `HashSet::remove` and `HashSet::contains`
  unfoldable pub has : IpNet N4 N6 → List (IpNet N4 N6) → Bool
  has n [] = false
  has n (m ∷ set) = if same_net n m then true else has n set

  unfoldable pub add : IpNet N4 N6 → List (IpNet N4 N6) → List (IpNet N4 N6)
  add n set = if has n set then set else n ∷ set

  unfoldable pub discard : IpNet N4 N6 → List (IpNet N4 N6) → List (IpNet N4 N6)
  discard n [] = []
  discard n (m ∷ set) = if same_net n m then discard n set else m ∷ discard n set

  -- `normalize`, an IPv6 network that maps IPv4 addresses.
  unfoldable pub unmap : N6 → Option (IpNet N4 N6)
  unmap prefix =
      if leb 96 (b.prefix_len prefix)
      then elim (to_ipv4_mapped (b.addr (b.trunc prefix))) [
        | some address ↦ a.new address (b.prefix_len prefix - 96) >>= λ net. some (v4 net)
        | none ↦ some (v6 prefix)
      ]
      else some (v6 prefix)

  unfoldable pub unmapped : IpNet N4 N6 → Option (IpNet N4 N6)
  unmapped (v4 n) = some (v4 n)
  unmapped (v6 n) = unmap n

  unfoldable pub long_enough : Config N4 N6 → IpNet N4 N6 → Bool
  long_enough config (v4 n) = not (ltb (a.prefix_len n) config.min_v4)
  long_enough config (v6 n) = not (ltb (b.prefix_len n) config.min_v6)

  -- One round of the loop over `never_block`.
  unfoldable pub overlaps : IpNet N4 N6 → IpNet N4 N6 → Bool
  overlaps (v4 candidate) (v4 protected) =
      a.contains candidate protected || a.contains protected candidate
  overlaps (v4 _) (v6 _) = false
  overlaps (v6 _) (v4 _) = false
  overlaps (v6 candidate) (v6 protected) =
      b.contains candidate protected || b.contains protected candidate

  unfoldable pub free_of : IpNet N4 N6 → List (IpNet N4 N6) → Bool
  free_of net [] = true
  free_of net (protected ∷ never_block) =
      if overlaps net protected then false else free_of net never_block

  unfoldable pub normalize : Config N4 N6 → IpNet N4 N6 → Option (IpNet N4 N6)
  normalize config net = do
    net ← unmapped (trunc net)
    if long_enough config net && free_of net config.never_block then some net else none

  module _ (parse_cidr : String → Option (IpNet N4 N6))
      (parse_host : String → Option (IpNet N4 N6)) where
    -- `parse_net`; `parse_host` is the network of one parsed address.
    unfoldable pub parse_net : String → Option (IpNet N4 N6)
    parse_net value =
        let value = trim value in if has_char 47 value then parse_cidr value else parse_host value

    -- The network of a seed or an event, if it is accepted.
    unfoldable pub accepted : Config N4 N6 → String → Option (IpNet N4 N6)
    accepted config value = parse_net value >>= normalize config

  module _ {T4 T6 : Type 0} (maps4 : LpmTrie T4) (maps6 : LpmTrie T6) where
    -- `Maps::put`; after an error the maps are as they were left.
    unfoldable pub put : Maps T4 T6 N4 N6 → IpNet N4 N6 → Maps T4 T6 N4 N6 × Bool
    put m (v4 n) =
        let (t, ok) = maps4.insert m.v4 (a.prefix_len n) (a.addr (a.trunc n)) 1 in
        (record m { v4 = t; entries = if ok then add (v4 n) m.entries else m.entries }, ok)
    put m (v6 n) =
        let (t, ok) = maps6.insert m.v6 (b.prefix_len n) (b.addr (b.trunc n)) 1 in
        (record m { v6 = t; entries = if ok then add (v6 n) m.entries else m.entries }, ok)

    -- `Maps::delete`; the outcome of the removal is dropped.
    unfoldable pub delete : Maps T4 T6 N4 N6 → IpNet N4 N6 → Maps T4 T6 N4 N6
    delete m (v4 n) = record m {
      v4 = (maps4.remove m.v4 (a.prefix_len n) (a.addr (a.trunc n))).0;
      entries = discard (v4 n) m.entries;
    }
    delete m (v6 n) = record m {
      v6 = (maps6.remove m.v6 (b.prefix_len n) (b.addr (b.trunc n))).0;
      entries = discard (v6 n) m.entries;
    }

    module _ (parse_cidr : String → Option (IpNet N4 N6))
        (parse_host : String → Option (IpNet N4 N6)) where
      -- The seeding loop.
      unfoldable pub seed : Config N4 N6 → List String → Maps T4 T6 N4 N6 → Maps T4 T6 N4 N6
      seed config [] m = m
      seed config (item ∷ items) m = elim (accepted parse_cidr parse_host config item) [
        | none ↦ seed config items m
        | some net ↦ seed config items (put m net).0
      ]

      -- `apply_event`, from the operation and the network on.
      unfoldable pub apply_to :
          Config N4 N6 → (adds : Bool) (cidr : String) → Maps T4 T6 N4 N6 → Maps T4 T6 N4 N6
      apply_to config adds cidr m = elim (accepted parse_cidr parse_host config cidr) [
        | none ↦ m
        | some net ↦ if adds then (put m net).0 else delete m net
      ]

      unfoldable pub apply_fields : Config N4 N6 → List String → Maps T4 T6 N4 N6 → Maps T4 T6 N4 N6
      apply_fields config [] m = m
      apply_fields config (first ∷ []) m =
          if string_key.same first "add" || string_key.same first "del"
          then m
          else apply_to config true first m
      apply_fields config (first ∷ second ∷ _) m =
          if string_key.same first "add"
          then apply_to config true second m
          else if string_key.same first "del"
          then apply_to config false second m
          else apply_to config true first m

      unfoldable pub apply_event :
          Config N4 N6 → (payload : String) → Maps T4 T6 N4 N6 → Maps T4 T6 N4 N6
      apply_event config payload m = apply_fields config (words payload) m

      -- `start`, from the loaded maps to the first event: `snapshot` is what Redis answers, `none`
      -- if it cannot be read. The answer is `none` where the program is not attached.
      unfoldable pub start :
          Config N4 N6
          → (snapshot : Option (List String)) → Maps T4 T6 N4 N6
          → Option (Maps T4 T6 N4 N6)
      start config none m = if config.fail_closed then none else some m
      start config (some items) m = some (seed config items m)

      -- The messages of the loop of the task, one after the other.
      unfoldable pub apply_events : Config N4 N6 → List String → Maps T4 T6 N4 N6 → Maps T4 T6 N4 N6
      apply_events config [] m = m
      apply_events config (payload ∷ payloads) m =
          apply_events config payloads (apply_event config payload m)
