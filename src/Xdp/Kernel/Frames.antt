-- ===== src/Xdp/Kernel/Frames.antt =====
-- Ethernet frames around IP packets, and the verdict of the program of ebpf/xdp-kernel on them.
use radixip.Base.{
  ℕ, zero, suc, ◌+◌, ◌*◌, ◌%◌, ◌^◌, ◌≡◌, ◌≢◌, ◌⊎◌, inl, inr, refl, sym, ap, subst, ◌∙◌, false,
  Option, none, some, List, [], ◌∷◌, ◌++◌, length, length-append, append_assoc, append_nil, take,
  drop, ltb, ◌==◌, arith,
}
use radixip.Xdp.{LpmTrie}
use radixip.Xdp.Kernel.{
  ptr_at, be16, Stats, Action, xdp_pass, xdp_drop, bump, hit, judge, by_proto, by_ether_type,
  try_xdp, finish, radixip_xdp,
}

-- A source address, the bytes before it in its header, and what follows.
pub data Packet : Type 0 where
  ipv4 : (head src rest : List ℕ) → Packet
  ipv6 : (head src rest : List ℕ) → Packet

abbrev pub IsPacket : Packet → Type 0
IsPacket (ipv4 head src rest) = (length head ≡ 12) × (length src ≡ 4)
IsPacket (ipv6 head src rest) = (length head ≡ 8) × (length src ≡ 16)

abbrev pub bytes_of : Packet → List ℕ
bytes_of (ipv4 head src rest) = head ++ (src ++ rest)
bytes_of (ipv6 head src rest) = head ++ (src ++ rest)

abbrev pub ether_type : Packet → List ℕ
ether_type (ipv4 _ _ _) = 0x08 ∷ 0x00 ∷ []
ether_type (ipv6 _ _ _) = 0x86 ∷ 0xdd ∷ []

-- No tag, an 802.1Q tag, or an 802.1ad tag.
pub data Tag : Type 0 where
  untagged : Tag
  dot1q dot1ad : (tci : List ℕ) → Tag

abbrev pub IsTag : Tag → Type 0
IsTag untagged = Unit
IsTag (dot1q tci) = length tci ≡ 2
IsTag (dot1ad tci) = length tci ≡ 2

abbrev pub tag_bytes : Tag → List ℕ
tag_bytes untagged = []
tag_bytes (dot1q tci) = 0x81 ∷ 0x00 ∷ tci
tag_bytes (dot1ad tci) = 0x88 ∷ 0xa8 ∷ tci

-- The two addresses of the link layer, the tag, the EtherType and the packet.
unfoldable pub frame : (macs : List ℕ) → Tag → Packet → List ℕ
frame macs tag p = macs ++ (tag_bytes tag ++ (ether_type p ++ bytes_of p))

abbrev IsIn : (bytes : List ℕ) (offset : ℕ) (part : List ℕ) → Type 0
IsIn bytes offset part =
    (before after : List ℕ) × (bytes ≡ before ++ (part ++ after)) × (length before ≡ offset)

take-append : (xs ys : List ℕ) → take (length xs) (xs ++ ys) ≡ xs
take-append [] ys = refl
take-append (x ∷ xs) ys = ap (λ l. x ∷ l) (take-append xs ys)

drop-append : (xs ys : List ℕ) → drop (length xs) (xs ++ ys) ≡ ys
drop-append [] ys = refl
drop-append (x ∷ xs) ys = drop-append xs ys

ptr_at-part :
    (before part after : List ℕ)
    → ptr_at (before ++ (part ++ after)) (length before) (length part) ≡ some part
unfolding ptr_at
ptr_at-part before part after =
    let room : ltb (length (before ++ (part ++ after))) (length before + length part) ≡ false =
      ground (arith, length-append before (part ++ after), length-append part after) in
    rw (room, drop-append before (part ++ after), take-append part after) refl

-- Reading at an offset where a part stands.
ptr_at-IsIn :
    (bytes : List ℕ) (offset size : ℕ) (part : List ℕ)
    → IsIn bytes offset part
    → length part ≡ size
    → ptr_at bytes offset size ≡ some part
ptr_at-IsIn bytes offset size part (before, after, e, at) sized =
    rw (e, ← at, ← sized) (ptr_at-part before part after)

-- A part of a part.
IsIn-within :
    (bytes : List ℕ) (offset : ℕ) (head part rest : List ℕ)
    → IsIn bytes offset (head ++ (part ++ rest))
    → IsIn bytes (offset + length head) part
IsIn-within bytes offset head part rest (before, after, e, at) = (
  before ++ head,
  rest ++ after,
  e
      ∙ ap (λ l. before ++ l) (append_assoc head (part ++ rest) after)
      ∙ ap (λ l. before ++ (head ++ l)) (append_assoc part rest after)
      ∙ sym (append_assoc before head (part ++ (rest ++ after))),
  ground (arith, length-append before head, at),
)

-- One counter goes up by one, modulo 2 ^ 64, and the others stay.
abbrev pub IsCounted : (counter : ℕ) → (before after : Stats) → Type 0
IsCounted counter before after =
    (after counter ≡ (before counter + 1) % 2 ^ 64) × ((i : ℕ) → i ≢ counter → after i ≡ before i)

-- What a frame must get whose source address has a value in the trie of its family, or none.
abbrev pub IsJudged :
    (value : Option ℕ) (dropped passed : ℕ) (before : Stats) → Stats × Action → Type 0
IsJudged value dropped passed before (after, action) =
    ((v : ℕ) × (value ≡ some v) × (v ≢ 0) × (action ≡ xdp_drop) × IsCounted dropped before after)
    ⊎ (((value ≡ none) ⊎ (value ≡ some 0)) × (action ≡ xdp_pass) × IsCounted passed before after)

bump-IsCounted : (counter : ℕ) (stats : Stats) → IsCounted counter stats (bump counter stats)
unfolding bump
bump-IsCounted counter stats = (ground arith, λ i h. ground (arith, h))

module _ {T : Type 0} (maps : LpmTrie T) (t : T) (len : ℕ) (src : List ℕ) where
  judge-IsJudged :
      (dropped passed : ℕ) (stats : Stats) (value : Option ℕ)
      → maps.get t len src ≡ value
      → IsJudged value dropped passed stats (judge (hit maps t len src) dropped passed stats)
  unfolding hit judge
  judge-IsJudged dropped passed stats none e =
      rw (hit, e) (inr (inl refl, refl, bump-IsCounted passed stats))
  judge-IsJudged dropped passed stats (some zero) e =
      rw (hit, e) (inr (inr refl, refl, bump-IsCounted passed stats))
  judge-IsJudged dropped passed stats (some (suc v)) e =
      let nonzero : (suc v == 0) ≡ false = ground arith in
      rw (hit, e, nonzero)
        (inl (suc v, refl, λ h. absurd (ground (arith, h)), refl, bump-IsCounted dropped stats))

module _ {T4 T6 : Type 0} (maps4 : LpmTrie T4) (maps6 : LpmTrie T6) (v4 : T4) (v6 : T6) where
  -- The verdict on a packet by its source address alone.
  abbrev pub verdict : Packet → Stats → Stats × Action
  verdict (ipv4 _ src _) stats = judge (hit maps4 v4 32 src) 0 1 stats
  verdict (ipv6 _ src _) stats = judge (hit maps6 v6 128 src) 2 3 stats

  by_proto-packet :
      (bytes : List ℕ) (l3 : ℕ) (p : Packet) (stats : Stats)
      → IsPacket p
      → IsIn bytes l3 (bytes_of p)
      → by_proto maps4 maps6 v4 v6 bytes (be16 (ether_type p)) l3 stats ≡ some (verdict p stats)
  unfolding by_proto
  by_proto-packet bytes l3 (ipv4 head src rest) stats (hh, hs) at =
      let found : ptr_at bytes (l3 + 12) 4 ≡ some src =
        ptr_at-IsIn bytes (l3 + 12) 4 src
          (subst (λ (n : ℕ). IsIn bytes (l3 + n) src) hh (IsIn-within bytes l3 head src rest at))
          hs in
      rw found refl
  by_proto-packet bytes l3 (ipv6 head src rest) stats (hh, hs) at =
      let found : ptr_at bytes (l3 + 8) 16 ≡ some src =
        ptr_at-IsIn bytes (l3 + 8) 16 src
          (subst (λ (n : ℕ). IsIn bytes (l3 + n) src) hh (IsIn-within bytes l3 head src rest at))
          hs in
      rw found refl

  radixip_xdp-typed :
      (bytes et : List ℕ) (stats : Stats) (r : Stats × Action)
      → ptr_at bytes 12 2 ≡ some et
      → by_ether_type maps4 maps6 v4 v6 bytes (be16 et) stats ≡ some r
      → radixip_xdp maps4 maps6 v4 v6 bytes stats ≡ r
  unfolding radixip_xdp try_xdp finish
  radixip_xdp-typed bytes et stats r e f = rw (e, f) refl

  plain :
      (p : Packet) (bytes : List ℕ) (stats : Stats)
      → by_ether_type maps4 maps6 v4 v6 bytes (be16 (ether_type p)) stats
        ≡ by_proto maps4 maps6 v4 v6 bytes (be16 (ether_type p)) 14 stats
  unfolding by_ether_type
  plain (ipv4 _ _ _) bytes stats = refl
  plain (ipv6 _ _ _) bytes stats = refl

  tagged :
      (bytes inner : List ℕ) (proto : ℕ) (stats : Stats)
      → (proto ≡ 0x8100) ⊎ (proto ≡ 0x88a8)
      → ptr_at bytes 16 2 ≡ some inner
      → by_ether_type maps4 maps6 v4 v6 bytes proto stats
        ≡ by_proto maps4 maps6 v4 v6 bytes (be16 inner) 18 stats
  unfolding by_ether_type
  tagged bytes inner proto stats (inl e) f = rw (e, by_ether_type, f) refl
  tagged bytes inner proto stats (inr e) f = rw (e, by_ether_type, f) refl

  ether_type-length : (p : Packet) → length (ether_type p) ≡ 2
  ether_type-length (ipv4 _ _ _) = refl
  ether_type-length (ipv6 _ _ _) = refl

  plain_frame :
      (macs : List ℕ) (p : Packet) (stats : Stats)
      → length macs ≡ 12
      → IsPacket p
      → radixip_xdp maps4 maps6 v4 v6 (frame macs untagged p) stats ≡ verdict p stats
  unfolding frame
  plain_frame macs p stats h hp =
      let bytes = macs ++ (ether_type p ++ bytes_of p) in
      radixip_xdp-typed bytes (ether_type p) stats (verdict p stats)
        (ptr_at-IsIn bytes 12 2 (ether_type p) (macs, bytes_of p, refl, h) (ether_type-length p))
        (plain p bytes stats
          ∙ by_proto-packet bytes 14 p stats hp (
            macs ++ ether_type p,
            [],
            sym (append_assoc macs (ether_type p) (bytes_of p))
                ∙ ap (λ l. (macs ++ ether_type p) ++ l) (sym (append_nil (bytes_of p))),
            ground (arith, length-append macs (ether_type p), h, ether_type-length p),
          ))

  tagged_frame :
      (macs tci : List ℕ) (x y : ℕ) (p : Packet) (stats : Stats)
      → (x * 256 + y ≡ 0x8100) ⊎ (x * 256 + y ≡ 0x88a8)
      → length macs ≡ 12
      → length tci ≡ 2
      → IsPacket p
      → radixip_xdp maps4 maps6 v4 v6
          (macs ++ (x ∷ y ∷ (tci ++ (ether_type p ++ bytes_of p))))
          stats
        ≡ verdict p stats
  tagged_frame macs tci x y p stats which h ht hp =
      let bytes = macs ++ (x ∷ y ∷ (tci ++ (ether_type p ++ bytes_of p))) in
      let here = macs ++ (x ∷ y ∷ tci) in
      let split : bytes ≡ here ++ (ether_type p ++ bytes_of p) =
        sym (append_assoc macs (x ∷ y ∷ tci) (ether_type p ++ bytes_of p)) in
      let at : length here ≡ 16 = ground (arith, length-append macs (x ∷ y ∷ tci), h, ht) in
      radixip_xdp-typed bytes (x ∷ y ∷ []) stats (verdict p stats)
        (ptr_at-IsIn bytes 12 2 (x ∷ y ∷ []) (macs, tci ++ (ether_type p ++ bytes_of p), refl, h)
          refl)
        (tagged bytes (ether_type p) (x * 256 + y) stats which (
            ptr_at-IsIn bytes 16 2 (ether_type p) (here, bytes_of p, split, at)
              (ether_type-length p))
          ∙ by_proto-packet bytes 18 p stats hp (
            here ++ ether_type p,
            [],
            split
                ∙ sym (append_assoc here (ether_type p) (bytes_of p))
                ∙ ap (λ l. (here ++ ether_type p) ++ l) (sym (append_nil (bytes_of p))),
            ground (arith, length-append here (ether_type p), at, ether_type-length p),
          ))

  pub radixip_xdp-verdict :
      (macs : List ℕ) (tag : Tag) (p : Packet) (stats : Stats)
      → length macs ≡ 12
      → IsTag tag
      → IsPacket p
      → radixip_xdp maps4 maps6 v4 v6 (frame macs tag p) stats ≡ verdict p stats
  unfolding frame
  radixip_xdp-verdict macs untagged p stats h ht hp = plain_frame macs p stats h hp
  radixip_xdp-verdict macs (dot1q tci) p stats h ht hp =
      tagged_frame macs tci 0x81 0x00 p stats (inl refl) h ht hp
  radixip_xdp-verdict macs (dot1ad tci) p stats h ht hp =
      tagged_frame macs tci 0x88 0xa8 p stats (inr refl) h ht hp

  -- The value that the trie of the packet's family has for its source address.
  abbrev pub source_value : Packet → Option ℕ
  source_value (ipv4 _ src _) = maps4.get v4 32 src
  source_value (ipv6 _ src _) = maps6.get v6 128 src

  abbrev pub dropped_counter : Packet → ℕ
  dropped_counter (ipv4 _ _ _) = 0
  dropped_counter (ipv6 _ _ _) = 2

  abbrev pub passed_counter : Packet → ℕ
  passed_counter (ipv4 _ _ _) = 1
  passed_counter (ipv6 _ _ _) = 3

  verdict-IsJudged :
      (p : Packet) (stats : Stats)
      → IsJudged (source_value p) (dropped_counter p) (passed_counter p) stats (verdict p stats)
  verdict-IsJudged (ipv4 _ src _) stats = judge-IsJudged maps4 v4 32 src 0 1 stats _ refl
  verdict-IsJudged (ipv6 _ src _) stats = judge-IsJudged maps6 v6 128 src 2 3 stats _ refl

  -- A frame around an IP packet, with at most one tag, is dropped if the trie of its family has a
  -- value other than 0 for the source address, and passed if it has none or 0. The counter of the
  -- drops or of the passed frames of that family goes up by one, modulo 2 ^ 64, and no other.
  pub radixip_xdp-frame :
      (macs : List ℕ) (tag : Tag) (p : Packet) (stats : Stats)
      → length macs ≡ 12
      → IsTag tag
      → IsPacket p
      → IsJudged
          (source_value p)
          (dropped_counter p)
          (passed_counter p)
          stats
          (radixip_xdp maps4 maps6 v4 v6 (frame macs tag p) stats)
  radixip_xdp-frame macs tag p stats h ht hp =
      subst (IsJudged (source_value p) (dropped_counter p) (passed_counter p) stats)
        (sym (radixip_xdp-verdict macs tag p stats h ht hp)) (verdict-IsJudged p stats)
