-- ===== src/Examples/Frames.antt =====
-- The XDP blocklist on concrete frames, seeds and messages.
use Prim.Native.String.{String}
use radixip.Base.{
  ℕ, ◌≡◌, ◌↔◌, inl, refl, true, false, Option, none, some, List, [], ◌∷◌, if◌then◌else◌, string_key,
}
use radixip.Net.{IpAddr}
use radixip.Xdp.Kernel.{Stats, xdp_pass, hit, radixip_xdp}
use radixip.Xdp.Kernel.Frames.{Packet, ipv4, untagged, dot1q, frame, IsJudged, radixip_xdp-frame}
use radixip.Xdp.Loader.{
  IpNet, v4, v6, Config, Maps, seed, start, apply_events, apply_event, apply_fields, apply_to,
  accepted, parse_net, normalize, unmapped, unmap, to_ipv4_mapped, long_enough, free_of, overlaps,
  put, delete, has, add, discard,
}
use radixip.Xdp.Loader.Sets.{In, has-cons}
use radixip.Xdp.Loader.Synced.{Covers, blocks}
use radixip.Xdp.Loader.Events.{IsFresh, Runs, blocks-entries}
use radixip.Xdp.Loader.Protected.{never_block-passes}
use radixip.Examples.Tries.{Trie, tries}
use radixip.Examples.Networks.{agree, agree_sound}
use radixip.Examples.Blocks.{Block, ten, host, blocks4, blocks16}

abbrev no_entries : Trie
no_entries _ = none

abbrev fresh : Maps Trie Trie Block Block
fresh = record { v4 = no_entries; v6 = no_entries; entries = [] }

abbrev zero_stats : Stats
zero_stats _ = 0

-- Three names of networks, in place of a parser.
abbrev parse : String → Option (IpNet Block Block)
parse s =
    if string_key.same s "10.0.0.0/8"
    then some (v4 ten)
    else if string_key.same s "10.1.0.0"
    then some (v4 host)
    else if string_key.same s "a01::"
    then some (v6 host)
    else none

abbrev open_config : Config Block Block
open_config = record { fail_closed = true; min_v4 = 8; min_v6 = 16; never_block = [] }

abbrev ten_config : Config Block Block
ten_config = record { fail_closed = true; min_v4 = 8; min_v6 = 16; never_block = v4 ten ∷ [] }

abbrev seeds : List String
seeds = "10.0.0.0/8" ∷ "a01::" ∷ []

abbrev messages : List String
messages = "add 10.1.0.0" ∷ "del 10.0.0.0/8" ∷ "" ∷ []

abbrev seeded : Config Block Block → Maps Trie Trie Block Block
seeded config = seed tries tries parse parse config seeds fresh

abbrev after : Config Block Block → Maps Trie Trie Block Block
after config = apply_events tries tries parse parse config messages (seeded config)

fresh-IsFresh : (config : Config Block Block) → IsFresh tries tries parse parse config fresh
fresh-IsFresh config = (refl, λ len key w h. absurd (cc), λ len key w h. absurd (cc))

after-Runs :
    (config : Config Block Block)
    → Runs tries tries parse parse config (some seeds) messages (after config)
unfolding start
after-Runs config = (fresh, seeded config, (fresh-IsFresh config), refl, refl)

-- The host is added, and then the network around it removed.
added_is_found : blocks tries tries (after open_config) (IpAddr.v4 (10 ∷ 1 ∷ 0 ∷ 0 ∷ [])) ≡ true
unfolding seed apply_events apply_event apply_fields apply_to accepted parse_net normalize unmapped
    unmap to_ipv4_mapped long_enough free_of put delete has add discard hit
added_is_found = refl

removed_is_not : blocks tries tries (after open_config) (IpAddr.v4 (10 ∷ 2 ∷ 0 ∷ 0 ∷ [])) ≡ false
unfolding seed apply_events apply_event apply_fields apply_to accepted parse_net normalize unmapped
    unmap to_ipv4_mapped long_enough free_of put delete has add discard hit
removed_is_not = refl

protected_is_not : blocks tries tries (after ten_config) (IpAddr.v4 (10 ∷ 1 ∷ 0 ∷ 0 ∷ [])) ≡ false
unfolding seed apply_events apply_event apply_fields apply_to accepted parse_net normalize unmapped
    unmap to_ipv4_mapped long_enough free_of put delete has add discard hit overlaps agree
protected_is_not = refl

blocks-entries_example :
    (blocks tries tries (after open_config) (IpAddr.v4 (10 ∷ 1 ∷ 0 ∷ 0 ∷ [])) ≡ true) ↔ (
      (net : IpNet Block Block) × In (after open_config).entries net
      × Covers net (IpAddr.v4 (10 ∷ 1 ∷ 0 ∷ 0 ∷ [])))
blocks-entries_example =
    blocks-entries tries tries parse parse open_config (some seeds) messages (after open_config)
      (after-Runs open_config) (IpAddr.v4 (10 ∷ 1 ∷ 0 ∷ 0 ∷ []))

abbrev macs : List ℕ
macs = 1 ∷ 2 ∷ 3 ∷ 4 ∷ 5 ∷ 6 ∷ 7 ∷ 8 ∷ 9 ∷ 10 ∷ 11 ∷ 12 ∷ []

abbrev packet : Packet
packet =
    ipv4 (0x45 ∷ 0 ∷ 0 ∷ 40 ∷ 0 ∷ 0 ∷ 0 ∷ 0 ∷ 64 ∷ 6 ∷ 0 ∷ 0 ∷ []) (10 ∷ 1 ∷ 0 ∷ 0 ∷ [])
      (192 ∷ 0 ∷ 2 ∷ 1 ∷ [])

radixip_xdp-frame_example :
    IsJudged (tries.get (after open_config).v4 32 (10 ∷ 1 ∷ 0 ∷ 0 ∷ [])) 0 1 zero_stats (
      radixip_xdp tries tries
        (after open_config).v4
        (after open_config).v6
        (frame macs (dot1q (0 ∷ 7 ∷ [])) packet)
        zero_stats)
radixip_xdp-frame_example =
    radixip_xdp-frame tries tries (after open_config).v4 (after open_config).v6 macs
      (dot1q (0 ∷ 7 ∷ [])) packet zero_stats refl refl (refl, refl)

protected-In : In ten_config.never_block (v4 ten)
protected-In = (has-cons (v4 ten) (v4 ten) []).1 (inl refl)

agreed : agree 8 (10 ∷ 1 ∷ 0 ∷ 0 ∷ []) (10 ∷ 0 ∷ 0 ∷ 0 ∷ []) ≡ true
unfolding agree
agreed = refl

covered : Covers {N4 = Block} {N6 = Block} (v4 ten) (IpAddr.v4 (10 ∷ 1 ∷ 0 ∷ 0 ∷ []))
covered = agree_sound 8 (10 ∷ 1 ∷ 0 ∷ 0 ∷ []) (10 ∷ 0 ∷ 0 ∷ 0 ∷ []) agreed

never_block-passes_example :
    (radixip_xdp tries tries
      (after ten_config).v4
      (after ten_config).v6
      (frame macs untagged packet)
      zero_stats).1
    ≡ xdp_pass
never_block-passes_example =
    never_block-passes tries tries parse parse ten_config (some seeds) messages (after ten_config)
      (v4 ten) macs untagged packet zero_stats (after-Runs ten_config) protected-In covered refl tt
      (refl, refl)
