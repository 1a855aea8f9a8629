-- ===== src/Xdp/Kernel.antt =====
-- The program in the kernel, ebpf/xdp-kernel/src/main.rs. A frame is the list of its bytes, from
-- `data` to `data_end`.
pub mod Frames
use radixip.Base.{
  ℕ, zero, suc, ◌+◌, ◌*◌, ◌%◌, ◌^◌, Bool, true, false, not, ◌||◌, Option, none, some, List, [], ◌∷◌,
  length, take, drop, get_or, ltb, ◌==◌, if◌then◌else◌, ◌>>=◌, map_option,
}
use radixip.Xdp.{LpmTrie}

-- `ptr_at`, and the read behind it: `size` bytes at an offset, if they are all in the frame.
unfoldable pub ptr_at : List ℕ → (offset size : ℕ) → Option (List ℕ)
ptr_at ctx offset size =
    if ltb (length ctx) (offset + size) then none else some (take size (drop offset ctx))

-- `u16::from_be_bytes`
abbrev pub be16 : List ℕ → ℕ
be16 bytes = get_or bytes 0 0 * 256 + get_or bytes 1 0

abbrev pub eth_hlen : ℕ
eth_hlen = 14

abbrev pub vlan_hlen : ℕ
vlan_hlen = 4

abbrev pub eth_p_ip : ℕ
eth_p_ip = 0x0800

abbrev pub eth_p_ipv6 : ℕ
eth_p_ipv6 = 0x86dd

abbrev pub eth_p_8021q : ℕ
eth_p_8021q = 0x8100

abbrev pub eth_p_8021ad : ℕ
eth_p_8021ad = 0x88a8

pub data Action : Type 0 where
  xdp_pass xdp_drop : Action

-- The counters of one CPU.
abbrev pub Stats : Type 0
Stats = ℕ → ℕ

abbrev pub stat_v4_drop : ℕ
stat_v4_drop = 0

abbrev pub stat_v4_pass : ℕ
stat_v4_pass = 1

abbrev pub stat_v6_drop : ℕ
stat_v6_drop = 2

abbrev pub stat_v6_pass : ℕ
stat_v6_pass = 3

abbrev pub stat_parse_err : ℕ
stat_parse_err = 4

unfoldable pub bump : ℕ → Stats → Stats
bump idx stats i = if i == idx then (stats i + 1) % 2 ^ 64 else stats i

-- Whether a trie has a value for an address that is not 0.
unfoldable pub hit : {T : Type 0} → LpmTrie T → T → (len : ℕ) (src : List ℕ) → Bool
hit maps t len src = elim (maps.get t len src) [ none ↦ false | some v ↦ not (v == 0) ]

-- The two ends of an arm of the match: count and drop, or count and pass.
unfoldable pub judge : Bool → (dropped passed : ℕ) → Stats → Stats × Action
judge true dropped passed stats = (bump dropped stats, xdp_drop)
judge false dropped passed stats = (bump passed stats, xdp_pass)

module _ {T4 T6 : Type 0} (maps4 : LpmTrie T4) (maps6 : LpmTrie T6) where
  -- The match on the protocol.
  unfoldable pub by_proto : T4 → T6 → List ℕ → (proto l3 : ℕ) → Stats → Option (Stats × Action)
  by_proto v4 v6 ctx proto l3 stats =
      if proto == eth_p_ip
      then map_option (λ src. judge (hit maps4 v4 32 src) stat_v4_drop stat_v4_pass stats)
          (ptr_at ctx (l3 + 12) 4)
      else if proto == eth_p_ipv6
      then map_option (λ src. judge (hit maps6 v6 128 src) stat_v6_drop stat_v6_pass stats)
          (ptr_at ctx (l3 + 8) 16)
      else some (stats, xdp_pass)

  -- With the EtherType read: at most one VLAN tag.
  unfoldable pub by_ether_type : T4 → T6 → List ℕ → (proto : ℕ) → Stats → Option (Stats × Action)
  by_ether_type v4 v6 ctx proto stats =
      if proto == eth_p_8021q || proto == eth_p_8021ad
      then (ptr_at ctx (eth_hlen + 2) 2 >>= λ inner.
          by_proto v4 v6 ctx (be16 inner) (eth_hlen + vlan_hlen) stats)
      else by_proto v4 v6 ctx proto eth_hlen stats

  unfoldable pub try_xdp : T4 → T6 → List ℕ → Stats → Option (Stats × Action)
  try_xdp v4 v6 ctx stats = ptr_at ctx 12 2 >>= λ et. by_ether_type v4 v6 ctx (be16 et) stats

  -- What `radixip_xdp` makes of the result.
  unfoldable pub finish : Stats → Option (Stats × Action) → Stats × Action
  finish stats (some r) = r
  finish stats none = (bump stat_parse_err stats, xdp_pass)

  unfoldable pub radixip_xdp : T4 → T6 → List ℕ → Stats → Stats × Action
  radixip_xdp v4 v6 ctx stats = finish stats (try_xdp v4 v6 ctx stats)
