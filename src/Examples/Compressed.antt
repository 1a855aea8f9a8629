-- ===== src/Examples/Compressed.antt =====
-- The Patricia trie of lib/rust/engine/src/tree.rs at concrete inputs.
use radixip.Base.{ℕ, ◌≡◌, refl, Bool, true, false, none, some, List, [], ◌∷◌, ◌++◌, is_some}
use radixip.Net.{IpAddr, IpNetwork}
use radixip.Compressed
use radixip.Compressed.{
  Node, nil, node, lookup_inner, insert_inner, bits_from, get_bit_from_bytes, ip_to_bytes, key_of,
  common_prefix_len, split,
}
use radixip.Compressed.Below.{at}
use radixip.Compressed.Longest.{IsJoined, longest, lookup_inner-longest, lookup_inner_sound}
use radixip.Compressed.Routes.{Op, run, replay, run-replay_compressed, ipv4_answers_all}
use radixip.Examples.Networks.{Net, cidr_v4, cidr_v6, pad, ten, ten_one}

-- 2001::/16, 2001:d00::/24 and an address in both
abbrev global : Net
global = IpNetwork.v6 (record {
  octets = 32 ∷ 1 ∷ 0 ∷ 0 ∷ 0 ∷ 0 ∷ 0 ∷ 0 ∷ 0 ∷ 0 ∷ 0 ∷ 0 ∷ 0 ∷ 0 ∷ 0 ∷ 0 ∷ [];
  len = 16;
})

abbrev longer : Net
longer = IpNetwork.v6 (record {
  octets = 32 ∷ 1 ∷ 13 ∷ 0 ∷ 0 ∷ 0 ∷ 0 ∷ 0 ∷ 0 ∷ 0 ∷ 0 ∷ 0 ∷ 0 ∷ 0 ∷ 0 ∷ 0 ∷ [];
  len = 24;
})

-- 8000::/1
abbrev upper : Net
upper = IpNetwork.v6 (record {
  octets = 128 ∷ 0 ∷ 0 ∷ 0 ∷ 0 ∷ 0 ∷ 0 ∷ 0 ∷ 0 ∷ 0 ∷ 0 ∷ 0 ∷ 0 ∷ 0 ∷ 0 ∷ 0 ∷ [];
  len = 1;
})

abbrev host : IpAddr
host = IpAddr.v6 (32 ∷ 1 ∷ 13 ∷ 7 ∷ 0 ∷ 0 ∷ 0 ∷ 0 ∷ 0 ∷ 0 ∷ 0 ∷ 0 ∷ 0 ∷ 0 ∷ 0 ∷ 1 ∷ [])

abbrev calls : List (Op Net ℕ)
calls = Op.inserts longer 24 ∷ Op.inserts global 16 ∷ []

lookup_test : Compressed.lookup (run calls Compressed.new) host ≡ some 24
unfolding run Compressed.new Compressed.insert Compressed.lookup lookup_inner insert_inner bits_from
    get_bit_from_bytes ip_to_bytes key_of Compressed.address_bits common_prefix_len split pad
lookup_test = refl

run-replay_compressed_example :
    let t = run calls Compressed.new in
    let stored = replay calls (λ _. none) in
    ((bits : List Bool) → at t.root bits ≡ stored bits)
    × (Compressed.contains t global ≡ is_some (stored (key_of global)))
    × ((Compressed.remove t global).1 ≡ stored (key_of global))
run-replay_compressed_example = run-replay_compressed calls global

-- 0 and 01 below a root with one bit less than both.
abbrev small : Node Net ℕ
small = node (false ∷ []) (some 1) (some ten) nil (node [] (some 2) (some ten_one) nil nil)

small-IsJoined : IsJoined small
unfolding IsJoined
small-IsJoined = ((λ b. absurd (cc)), tt, ((λ b. (refl, refl)), tt, tt))

lookup_inner-longest_example :
    lookup_inner (false ∷ true ∷ true ∷ []) small ≡ longest (at small) (false ∷ true ∷ true ∷ [])
lookup_inner-longest_example = lookup_inner-longest small (false ∷ true ∷ true ∷ []) small-IsJoined

small_finds : lookup_inner (false ∷ true ∷ true ∷ []) small ≡ some 2
unfolding lookup_inner common_prefix_len
small_finds = refl

lookup_inner_sound_example :
    (p rest : List Bool) × (false ∷ true ∷ true ∷ [] ≡ p ++ rest) × (at small p ≡ some 2)
lookup_inner_sound_example = lookup_inner_sound small (false ∷ true ∷ true ∷ []) 2 small_finds

ipv4_answers_all_example :
    Compressed.lookup
      (Compressed.insert (Compressed.new {R = Net} {M = ℕ}) ten 8).0
      (IpAddr.v4 (192 ∷ 168 ∷ 0 ∷ 1 ∷ []))
    ≡ some 8
ipv4_answers_all_example =
    ipv4_answers_all ten (record { octets = 10 ∷ 0 ∷ 0 ∷ 0 ∷ []; len = 8 }) 8
      (192 ∷ 168 ∷ 0 ∷ 1 ∷ []) refl refl

upper_key : key_of upper ≡ true ∷ []
unfolding key_of bits_from get_bit_from_bytes ip_to_bytes pad
upper_key = refl

abbrev rest_bits : List Bool
rest_bits =
    false ∷ true ∷ false ∷ false ∷ false ∷ false ∷ false ∷ false ∷ false ∷ false ∷ false ∷ false
    ∷ false ∷ false ∷ true ∷ []

global_key : key_of global ≡ false ∷ rest_bits
unfolding key_of bits_from get_bit_from_bytes ip_to_bytes pad
global_key = refl
