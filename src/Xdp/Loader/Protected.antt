-- ===== src/Xdp/Loader/Protected.antt =====
-- What the networks of `never_block` are worth to a packet.
use Prim.Native.String.{String}
use radixip.Base.{
  ℕ, ◌≤◌, ◌≡◌, ◌⊎◌, inl, inr, refl, ap, sym, subst, ◌∙◌, Bool, true, false, ◌||◌, Option, List, [],
  ◌∷◌, length, Bool-cases, arith,
}
use radixip.Net.{IpAddr}
use radixip.Xdp.{LpmTrie, PrefixNet, Agree}
use radixip.Xdp.Kernel.{Stats, xdp_pass, judge, radixip_xdp}
use radixip.Xdp.Kernel.Frames.{
  Packet, ipv4, ipv6, Tag, IsTag, IsPacket, frame, verdict, radixip_xdp-verdict,
}
use radixip.Xdp.Loader.{IpNet, v4, v6, Config, Maps, overlaps, free_of}
use radixip.Xdp.Loader.Sets.{In, has-cons, has_nothing}
use radixip.Xdp.Loader.Synced.{Covers, blocks, blocks-Covers}
use radixip.Xdp.Loader.Events.{Runs, Runs-IsSynced}

-- Two networks that cover one address are nested.
covers_both :
    {size : ℕ} {N : Type 0} (a : PrefixNet size N) (n m : N) (o : List ℕ)
    → Agree (a.prefix_len n) o (a.addr n)
    → Agree (a.prefix_len m) o (a.addr m)
    → (a.contains n m || a.contains m n) ≡ true
covers_both a n m o p q =
    let nested : (a.prefix_len n ≤ a.prefix_len m) ⊎ (a.prefix_len m ≤ a.prefix_len n) =
      le_total _ _ in
    elim nested [
      | inl l ↦
          (let c : a.contains n m ≡ true =
              (a.contains_iff n m).1 (l, λ i h. sym (q i (ground (arith, l, h))) ∙ p i h) in
            ground (arith, c))
      | inr l ↦
          (let c : a.contains m n ≡ true =
              (a.contains_iff m n).1 (l, λ i h. sym (p i (ground (arith, l, h))) ∙ q i h) in
            or_true (a.contains n m) (a.contains m n) c)
    ]
  where
    le_total : (x y : ℕ) → (x ≤ y) ⊎ (y ≤ x)
    le_total x y = ground arith

    or_true : (x y : Bool) → y ≡ true → (x || y) ≡ true
    or_true x y h = ground (arith, h)

module _ {N4 N6 : Type 0} ⦃a : PrefixNet 4 N4⦄ ⦃b : PrefixNet 16 N6⦄ where
  overlaps-Covers :
      (net protected : IpNet N4 N6) (ip : IpAddr)
      → Covers net ip
      → Covers protected ip
      → overlaps net protected ≡ true
  unfolding overlaps
  overlaps-Covers (v4 n) (v4 m) (IpAddr.v4 o) p q = covers_both a n m o p q
  overlaps-Covers (v6 n) (v6 m) (IpAddr.v6 o) p q = covers_both b n m o p q
  overlaps-Covers (v4 n) (v6 m) (IpAddr.v4 o) p q = absurd (cc)
  overlaps-Covers (v4 n) m (IpAddr.v6 o) p q = absurd (cc)
  overlaps-Covers (v6 n) (v4 m) (IpAddr.v6 o) p q = absurd (cc)
  overlaps-Covers (v6 n) m (IpAddr.v4 o) p q = absurd (cc)

  free_of-Covers :
      (net protected : IpNet N4 N6) (never_block : List (IpNet N4 N6)) (ip : IpAddr)
      → free_of net never_block ≡ true
      → In never_block protected
      → Covers protected ip
      → ¬ Covers net ip
  unfolding free_of
  free_of-Covers net protected [] ip h i p q = absurd (has_nothing protected i)
  free_of-Covers net protected (other ∷ never_block) ip h i p q =
      elim (Bool-cases (overlaps net other)) [
        | inl l ↦ absurd (ground (arith, l, h))
        | inr l ↦ elim ((has-cons protected other never_block).0 i) [
          | inl e ↦
              absurd
                (ground (arith, l, overlaps-Covers net other ip q (subst (λ x. Covers x ip) e p)))
          | inr j ↦ free_of-Covers net protected never_block ip (ground (arith, l, h)) j p q
        ]
      ]

-- The source address of a packet.
abbrev pub source : Packet → IpAddr
source (ipv4 header src rest) = IpAddr.v4 src
source (ipv6 header src rest) = IpAddr.v6 src

module _ {N4 N6 T4 T6 : Type 0} ⦃a : PrefixNet 4 N4⦄ ⦃b : PrefixNet 16 N6⦄ (maps4 : LpmTrie T4)
    (maps6 : LpmTrie T6) where
  verdict-blocks :
      (m : Maps T4 T6 N4 N6) (p : Packet) (stats : Stats)
      → blocks maps4 maps6 m (source p) ≡ false
      → (verdict maps4 maps6 m.v4 m.v6 p stats).1 ≡ xdp_pass
  unfolding judge
  verdict-blocks m (ipv4 header src rest) stats h = rw h refl
  verdict-blocks m (ipv6 header src rest) stats h = rw h refl

  -- A frame whose source address a network of `never_block` covers is passed, whatever the seeds
  -- and the messages were.
  pub never_block-passes :
      (parse_cidr : String → Option (IpNet N4 N6)) (parse_host : String → Option (IpNet N4 N6))
      (config : Config N4 N6) (snapshot : Option (List String)) (payloads : List String)
      (now : Maps T4 T6 N4 N6) (protected : IpNet N4 N6) (macs : List ℕ) (tag : Tag) (p : Packet)
      (stats : Stats)
      → Runs maps4 maps6 parse_cidr parse_host config snapshot payloads now
      → In config.never_block protected
      → Covers protected (source p)
      → length macs ≡ 12
      → IsTag tag
      → IsPacket p
      → (radixip_xdp maps4 maps6 now.v4 now.v6 (frame macs tag p) stats).1 ≡ xdp_pass
  never_block-passes parse_cidr parse_host config snapshot payloads now protected macs tag p stats
        runs i c h ht hp =
      let synced =
        Runs-IsSynced maps4 maps6 parse_cidr parse_host config snapshot payloads now runs in
      let ip = source p in
      ap (λ r. r.1) (radixip_xdp-verdict maps4 maps6 now.v4 now.v6 macs tag p stats h ht hp)
      ∙ verdict-blocks now p stats (elim (Bool-cases (blocks maps4 maps6 now ip)) [
        | inl hitting ↦
            (let (net, j, covers) = (blocks-Covers maps4 maps6 config now ip synced).0 hitting in
              absurd
                (free_of-Covers net protected config.never_block ip (synced.2 net j).2 i c covers))
        | inr missing ↦ missing
      ])
