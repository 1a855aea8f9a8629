-- ===== src/Compressed/Routes.antt =====
-- Sequences of calls on `CompressedTree` (lib/rust/engine/src/tree.rs), and two ways in which its
-- lookup goes wrong.
use native.Mathlib.Nat.{zero-div}
use radixip.Base.{
  ℕ, zero, suc, ◌+◌, ◌-◌, ◌/◌, ◌%◌, ◌^◌, ◌≤◌, ◌<◌, ◌≡◌, refl, sym, ap, ap₂, ◌∙◌, Bool, true, false,
  not, Option, none, some, List, [], ◌∷◌, ◌++◌, length, get_or, is_some, or_else, ◌&&◌, ◌==◌, arith,
  if◌then◌else◌,
}
use radixip.Net.{IpAddr, Network, IpNetwork}
use radixip.Compressed.{
  Node, nil, node, CompressedTree, new, insert, lookup, remove, contains, clear, clear_inner,
  insert_inner, lookup_inner, key_of, address_bits, bits_from, ip_to_bytes, zeros,
  get_bit_from_bytes,
}
use radixip.Compressed.Bits.{same_bits, strip}
use radixip.Compressed.Below.{at}
use radixip.Compressed.Insert.{insert-parts}
use radixip.Compressed.Map.{at-insert_inner, below_nothing}
use radixip.Compressed.Remove.{at-remove_inner, side}
use radixip.Compressed.Lookup.{lookup-longer}

pub data Op (R M : Type 0) : Type 0 where
  inserts : R → M → Op R M
  removes : R → Op R M
  clears : Op R M

-- A map from bit strings with one value changed.
abbrev pub update :
    {M : Type 0} → List Bool → Option M → (List Bool → Option M) → List Bool → Option M
update key value f bits = if same_bits key bits then value else f bits

get_or-zeros : (n j : ℕ) (o : List ℕ) → j < n → get_or (zeros n ++ o) j 0 ≡ 0
get_or-zeros zero j o h = elim h [ ]
get_or-zeros (suc n) zero o h = refl
get_or-zeros (suc n) (suc j) o h = get_or-zeros n j o (omega arith)

abbrev falses : ℕ → List Bool
falses zero = []
falses (suc n) = false ∷ falses n

zero_bit : (k : ℕ) → 0 / 2 ^ k % 2 ≡ 0
zero_bit k = rw zero-div

-- The bits of the twelve bytes before an IPv4 address.
bits_from-zeros :
    (o : List ℕ) (start len : ℕ)
    → start + len ≤ 96
    → bits_from (zeros 12 ++ o) start len ≡ falses len
unfolding bits_from get_bit_from_bytes
bits_from-zeros o start zero h = refl
bits_from-zeros o start (suc len) h =
    let zero_byte : get_or (zeros 12 ++ o) (start / 8) 0 ≡ 0 =
      get_or-zeros 12 (start / 8) o (omega arith) in
    let here : get_bit_from_bytes (zeros 12 ++ o) start ≡ 0 =
      ground (arith, zero_bit (7 - start % 8), zero_byte) in
    rw here (ap (λ l. false ∷ l) (bits_from-zeros o (suc start) len (omega arith)))

bits_from-add :
    (bytes : List ℕ) (start n k : ℕ)
    → bits_from bytes start (n + k) ≡ bits_from bytes start n ++ bits_from bytes (start + n) k
unfolding bits_from
bits_from-add bytes start zero k =
    let e : start ≡ start + 0 = omega arith in
    let f : 0 + k ≡ k = omega arith in ap₂ (bits_from bytes) e f
bits_from-add bytes start (suc n) k =
    let e : suc n + k ≡ suc (n + k) = omega arith in
    let f : suc start + n ≡ start + suc n = omega arith in
    ap (bits_from bytes start) e
    ∙ ap (λ l. (get_bit_from_bytes bytes start == 1) ∷ l)
        (bits_from-add bytes (suc start) n k
          ∙ ap (λ s. bits_from bytes (suc start) n ++ bits_from bytes s k) f)

and_false : (c : Bool) → c && false ≡ false
and_false true = refl
and_false false = refl

lookup-nothing :
    (R M : Type 0) (c : Bool) (key : List Bool)
    → let none_there : Node R M = nil in lookup_inner key (side c none_there none_there) ≡ none
unfolding lookup_inner
lookup-nothing R M true key = refl
lookup-nothing R M false key = refl

module _ {N4 N6 : Type 0} ⦃a : Network 4 N4⦄ ⦃b : Network 16 N6⦄ {M : Type 0} where
  unfoldable pub run :
      List (Op (IpNetwork N4 N6) M)
      → CompressedTree (IpNetwork N4 N6) M
      → CompressedTree (IpNetwork N4 N6) M
  run [] t = t
  run (inserts p m ∷ ops) t = run ops (insert t p m).0
  run (removes p ∷ ops) t = run ops (remove t p).0
  run (clears ∷ ops) t = run ops (clear t)

  -- The same calls on a map from bit strings.
  unfoldable pub replay :
      List (Op (IpNetwork N4 N6) M) → (List Bool → Option M) → List Bool → Option M
  replay [] f = f
  replay (inserts p m ∷ ops) f = replay ops (update (key_of p) (some m) f)
  replay (removes p ∷ ops) f = replay ops (update (key_of p) none f)
  replay (clears ∷ ops) f = replay ops (λ _. none)

  -- Maps that agree are replayed to maps that agree.
  replay_agrees :
      (ops : List (Op (IpNetwork N4 N6) M)) (f g : List Bool → Option M)
      → ((bits : List Bool) → f bits ≡ g bits)
      → (bits : List Bool) → replay ops f bits ≡ replay ops g bits
  unfolding replay
  replay_agrees [] f g h bits = h bits
  replay_agrees (inserts p m ∷ ops) f g h bits =
      replay_agrees ops _ _ (λ x. ap (λ o. if same_bits (key_of p) x then some m else o) (h x)) bits
  replay_agrees (removes p ∷ ops) f g h bits =
      replay_agrees ops _ _ (λ x. ap (λ o. if same_bits (key_of p) x then none else o) (h x)) bits
  replay_agrees (clears ∷ ops) f g h bits = refl

  at-clear : (n : Node (IpNetwork N4 N6) M) (bits : List Bool) → at (clear_inner n) bits ≡ none
  unfolding clear_inner at strip
  at-clear nil bits = refl
  at-clear (node edge meta pre l r) bits = below_nothing bits

  run-at_from :
      (ops : List (Op (IpNetwork N4 N6) M)) (t : CompressedTree (IpNetwork N4 N6) M)
      (bits : List Bool)
      → at (run ops t).root bits ≡ replay ops (at t.root) bits
  unfolding run replay insert remove clear
  run-at_from [] t bits = refl
  run-at_from (inserts p m ∷ ops) t bits =
      run-at_from ops (insert t p m).0 bits
      ∙ replay_agrees ops _ _ (at-insert_inner p m t.root (key_of p)).0 bits
  run-at_from (removes p ∷ ops) t bits =
      run-at_from ops (remove t p).0 bits
      ∙ replay_agrees ops _ _ (at-remove_inner t.root (key_of p)).0 bits
  run-at_from (clears ∷ ops) t bits =
      run-at_from ops (clear t) bits ∙ replay_agrees ops _ _ (at-clear t.root) bits

  -- After any calls on a new compressed tree: it stores what the same calls leave in a map from bit
  -- strings that starts empty, contains tells whether the map has the key of the network, and a
  -- removal answers what the map has there.
  pub run-replay_compressed :
      (ops : List (Op (IpNetwork N4 N6) M)) (p : IpNetwork N4 N6)
      → let t = run ops new in
        let stored = replay ops (λ _. none) in
        ((bits : List Bool) → at t.root bits ≡ stored bits)
        × (contains t p ≡ is_some (stored (key_of p)))
        × ((remove t p).1 ≡ stored (key_of p))
  unfolding new contains remove at strip
  run-replay_compressed ops p =
      let t : CompressedTree (IpNetwork N4 N6) M = run ops new in
      let same : (bits : List Bool) → at t.root bits ≡ replay ops (λ _. none) bits =
        λ bits. run-at_from ops new bits ∙ replay_agrees ops _ _ below_nothing bits in
      let (_, answer, held) = at-remove_inner t.root (key_of p) in
      (same, held ∙ ap is_some (same (key_of p)), answer ∙ same (key_of p))

  -- An IPv4 network, alone in a tree, answers every IPv4 address, inside the network or not.
  pub ipv4_answers_all :
      (p : IpNetwork N4 N6) (net : N4) (m : M) (o : List ℕ)
      → p ≡ IpNetwork.v4 net
      → length o ≡ 4
      → lookup (insert new p m).0 (IpAddr.v4 o) ≡ some m
  unfolding lookup insert new insert_inner address_bits key_of ip_to_bytes bits_from
  ipv4_answers_all p net m o e h =
      let len = a.prefix net in
      let short : len ≤ 32 = a.prefix-le net in
      let k : ℕ = 127 - len in
      let all : len + suc k ≡ 128 = omega arith in
      let bytes : List ℕ = zeros 12 ++ o in
      let key : key_of p ≡ falses len =
        ap key_of e ∙ bits_from-zeros (a.network net) 0 len (omega arith) in
      let address : bits_from bytes 0 128 ≡ falses len ++ bits_from bytes (0 + len) (suc k) =
        ap (bits_from bytes 0) (sym all)
        ∙ bits_from-add bytes 0 len (suc k)
        ∙ ap (λ l. l ++ bits_from bytes (0 + len) (suc k))
            (bits_from-zeros o 0 len (omega arith)) in
      let c = get_bit_from_bytes bytes (0 + len) == 1 in
      let rest = bits_from bytes (suc (0 + len)) k in
      let alone : List Bool → Node (IpNetwork N4 N6) M = λ x. node x (some m) (some p) nil nil in
      ap (λ x. lookup_inner (bits_from bytes 0 128) (alone x)) key
      ∙ ap (λ x. lookup_inner x (alone (falses len))) address
      ∙ lookup-longer (falses len) c rest (some m) (some p) nil nil
          (and_false (length (falses len) == 0))
      ∙ ap (λ r. or_else r (some m)) (lookup-nothing (IpNetwork N4 N6) M c rest)

  -- Two networks whose keys differ in their first bit, inserted into a new tree: every lookup fails.
  pub first_bits_hide_all :
      (p q : IpNetwork N4 N6) (m n : M) (c : Bool) (x y : List Bool) (ip : IpAddr)
      → key_of p ≡ c ∷ x
      → key_of q ≡ not c ∷ y
      → lookup (insert (insert new p m).0 q n).0 ip ≡ none
  unfolding lookup insert new insert_inner lookup_inner
  first_bits_hide_all p q m n c x y ip ep eq =
      let bits = address_bits ip in
      let root : Node (IpNetwork N4 N6) M = node [] none none nil nil in
      ap (λ k. lookup_inner bits (insert_inner (key_of q) q n (insert_inner k p m root).0).0) ep
      ∙ ap (λ k. lookup_inner bits (insert_inner k q n (node (c ∷ x) (some m) (some p) nil nil)).0)
          eq
      ∙ ap (λ r. lookup_inner bits r.0) (insert-parts [] c x y q n (some m) (some p) nil nil)
