-- ===== src/Examples/Art.antt =====
-- The adaptive radix tree of lib/rust/engine/src/art at concrete inputs.
use radixip.Base.{
  ℕ, ◌<◌, ◌≡◌, ◌↔◌, refl, none, some, List, [], ◌∷◌, ◌++◌, arith, ◌==◌, if◌then◌else◌, All,
}
use radixip.Net.{bit_at}
use radixip.Art.{
  NodeBox, Inner, leaf, unused, slot, n4, find_child, add_child, find_slot, matches,
  full_bytes_match, remove_child, drop_slot,
}
use radixip.Art.Tree.{
  new, insert_prefix, match_ip, insert_node, insert_into, search_node, make_leaf, mask_key,
  index_byte, delete_prefix, delete_node, deleted_below,
}
use radixip.Art.Matches.{AreBytes}
use radixip.Art.Sound.{Op, inserts, deletes, IsCall, run, run-match_ip_sound}
use radixip.Art.Layouts.{AreSlots, IsFit, add_child-find_child}
use radixip.Art.Losses.{insert_prefix-match_ip}

-- 10.0.0.0/8 and 192.168.0.0/16
abbrev ten_key : List ℕ
ten_key = 10 ∷ 0 ∷ 0 ∷ 0 ∷ []

abbrev private_key : List ℕ
private_key = 192 ∷ 168 ∷ 0 ∷ 0 ∷ []

abbrev host : List ℕ
host = 192 ∷ 168 ∷ 7 ∷ 1 ∷ []

abbrev calls : List (Op ℕ)
calls = inserts ten_key 8 1 ∷ inserts private_key 16 2 ∷ deletes ten_key 8 ∷ []

host_found : match_ip (run calls new) host ≡ some 2
unfolding match_ip run new insert_prefix insert_node insert_into search_node make_leaf mask_key
    index_byte find_child find_slot add_child matches full_bytes_match delete_prefix delete_node
    deleted_below remove_child drop_slot
host_found = refl

key_bytes : AreBytes private_key
key_bytes = (omega arith, (omega arith, (omega arith, (omega arith, tt))))

ten_bytes : AreBytes ten_key
ten_bytes = (omega arith, (omega arith, (omega arith, (omega arith, tt))))

host_bytes : AreBytes host
host_bytes = (omega arith, (omega arith, (omega arith, (omega arith, tt))))

calls_valid : All (IsCall 4) calls
calls_valid = (
  (refl, ten_bytes, omega arith),
  ((refl, key_bytes, omega arith), ((refl, ten_bytes, omega arith), tt)),
)

run-match_ip_sound_example :
    (key : List ℕ) × (len : ℕ) × (before after : List (Op ℕ)) × (calls
      ≡ before ++ (inserts key len 2 ∷ after))
    × ((i : ℕ) → i < len → bit_at host i ≡ bit_at key i)
run-match_ip_sound_example =
    run-match_ip_sound 4 calls host 2 (omega arith) calls_valid tt refl host_bytes host_found

abbrev child : NodeBox ℕ
child = leaf 7 8 ten_key

-- A `Node4` that is full.
abbrev full : Inner ℕ
full = n4 (slot 1 child (slot 2 child (slot 3 child (slot 4 child unused))))

full-IsFit : IsFit full
unfolding IsFit AreSlots find_slot
full-IsFit = ((refl, refl, (refl, refl, (refl, refl, (refl, refl, tt)))), omega arith)

five_free : find_child full 5 ≡ none
unfolding find_child find_slot
five_free = refl

add_child-find_child_example :
    IsFit (add_child full 5 child)
    × ((x : ℕ)
        → find_child (add_child full 5 child) x
          ≡ (if x == 5 then some child else find_child full x))
add_child-find_child_example = add_child-find_child full 5 child full-IsFit five_free refl

insert_prefix-match_ip_example :
    (match_ip {M = ℕ} (insert_prefix new private_key 16 2) host ≡ some 2)
    ↔ ((i : ℕ) → i < 16 → bit_at host i ≡ bit_at private_key i)
insert_prefix-match_ip_example =
    insert_prefix-match_ip private_key host 16 2 key_bytes host_bytes refl (omega arith)
      (omega arith) (omega arith)
