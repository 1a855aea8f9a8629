-- ===== src/Art/Adapter.antt =====
-- `ARTEngineAdapter` of lib/rust/engine/src/engine_art.rs: an engine over the adaptive radix tree,
-- whose leaves hold pointers to boxed metadata.
-- A network is given by the octets of its `ip()` and its `prefix()`, an address by its octets. The
-- heap gives new pointers and takes none twice; reading or freeing a pointer that is freed is the
-- outcome `none`.
use radixip.Base.{
  ℕ, suc, ◌-◌, ◌%◌, ◌/◌, ◌≤◌, ◌<◌, ◌≡◌, refl, sym, ap, ◌∙◌, Bool, true, false, Bool-cases, Option,
  Option-cases, none, some, is_some, List, [], ◌∷◌, ◌==◌, arith, inl, inr, Result, ok,
}
use Prim.Native.String.{String}
use radixip.Art.{NodeBox, inner, leaf, n4, slot, unused, matches, put, find_child, find_slot}
use radixip.Art.Tree
use radixip.Art.Tree.{
  Tree, insert_prefix, match_ip, delete_prefix, delete_node, deleted_below, search_node, mask_key,
  index_byte, max_depth, insert_node,
}
use radixip.Art.Leaves.{
  Leaves, LeavesIn, LeavesOf, insert_node-Leaves, search_node-Leaves, weaken-Leaves,
}
use radixip.Art.Losses.{root-alone, aligned_byte, search-alone}

-- `ARTEngineAdapter`, with the boxes that its pointers lead to.
pub record ArtEngineAdapter (M : Type 0) : Type 0 where
  pub tree : Tree ℕ
  pub heap : ℕ → Option M
  pub next : ℕ

module _ {M : Type 0} where
  unfoldable pub new : ArtEngineAdapter M
  new = record { tree = Tree.new; heap = λ _. none; next = 0 }

  unfoldable pub insert :
      ArtEngineAdapter M
      → (ip : List ℕ) (prefix : ℕ) → M
      → ArtEngineAdapter M × Result (Unit {0}) String
  insert a ip prefix metadata = (
    record {
      tree = insert_prefix a.tree ip prefix a.next;
      heap = put a.heap a.next (some metadata);
      next = suc a.next;
    },
    ok tt,
  )

  -- `none` if the pointer is freed.
  unfoldable pub lookup : ArtEngineAdapter M → (ip : List ℕ) → Option (Option M)
  lookup a ip = elim (match_ip a.tree ip) [
    | none ↦ some none
    | some pointer ↦ elim (a.heap pointer) [ none ↦ none | some metadata ↦ some (some metadata) ]
  ]

  -- `none` if the pointer is freed already.
  unfoldable pub remove :
      ArtEngineAdapter M → (ip : List ℕ) (prefix : ℕ) → Option (ArtEngineAdapter M × Option M)
  remove a ip prefix =
      let tree = (delete_prefix a.tree ip prefix).0 in
      elim (match_ip a.tree ip) [
        | none ↦ some (record { tree = tree; heap = a.heap; next = a.next }, none)
        | some pointer ↦ elim (a.heap pointer) [
          | none ↦ none
          | some metadata ↦
              some (
                record { tree = tree; heap = put a.heap pointer none; next = a.next },
                some metadata,
              )
        ]
      ]

  unfoldable pub contains : ArtEngineAdapter M → (ip : List ℕ) → Bool
  contains a ip = is_some (match_ip a.tree ip)

  unfoldable pub clear : ArtEngineAdapter M → ArtEngineAdapter M
  clear a = record { tree = Tree.new; heap = a.heap; next = a.next }

  unfoldable pub size : ArtEngineAdapter M → ℕ
  size a = a.tree.size

delete-alone :
    (a : ℕ) (key : List ℕ) (len other p : ℕ) (masked_key : List ℕ)
    → 8 ≤ other
    → len == other ≡ false
    → (let root : NodeBox ℕ = inner (n4 (slot a (leaf p len masked_key) unused)) in
        (delete_node (a ∷ key) other (max_depth other) 0 root).0 ≡ root)
unfolding delete_node deleted_below find_child find_slot
delete-alone a key len other p masked_key h differ =
    let left : max_depth other ≡ suc (max_depth other - 1) = omega arith in
    let itself : a == a ≡ true = ground arith in
    rw (left, aligned_byte (a ∷ key) 0 other h, itself, delete_node, differ) refl

match-alone :
    (a : ℕ) (key other_key : List ℕ) (len p : ℕ)
    → 8 ≤ len
    → is_some (match_ip (insert_prefix Tree.new (a ∷ key) len p) (a ∷ other_key)) ≡ true
    → match_ip (insert_prefix Tree.new (a ∷ key) len p) (a ∷ other_key) ≡ some p
match-alone a key other_key len p h held =
    let found = search-alone a a key other_key len p h in
    elim (Bool-cases (matches len (mask_key (a ∷ key) (len / 8) (len % 8) 16) (a ∷ other_key))) [
      | inl m ↦ found ∙ ground (arith, m)
      | inr no_match ↦ absurd (ground (arith, found, held, no_match))
    ]

match-deleted :
    (a : ℕ) (key other_key : List ℕ) (len other p : ℕ)
    → 8 ≤ len
    → 8 ≤ other
    → len == other ≡ false
    → (let t = insert_prefix Tree.new (a ∷ key) len p in
        match_ip (delete_prefix t (a ∷ other_key) other).0 (a ∷ other_key)
        ≡ match_ip t (a ∷ other_key))
unfolding match_ip delete_prefix
match-deleted a key other_key len other p h k differ =
    let ip = a ∷ other_key in
    let alone = root-alone a key len p h in
    ap (λ r. search_node ip ip (delete_node ip other (max_depth other) 0 r).0) alone
    ∙ ap (search_node ip ip) (
        delete-alone a other_key len other p (mask_key (a ∷ key) (len / 8) (len % 8) 16) k differ
        ∙ sym alone)

-- Calls that free nothing.
pub data Call (M : Type 0) : Type 0 where
  inserts : (ip : List ℕ) (prefix : ℕ) → M → Call M
  clears : Call M

module _ {M : Type 0} where
  unfoldable pub run : List (Call M) → ArtEngineAdapter M → ArtEngineAdapter M
  run [] a = a
  run (inserts ip prefix m ∷ calls) a = run calls (insert a ip prefix m).0
  run (clears ∷ calls) a = run calls (clear a)

  -- Metadata stands behind a pointer that was given out.
  IsBoxed : ArtEngineAdapter M → ℕ → ℕ → List ℕ → Type 0
  IsBoxed a pointer len masked_key = (pointer < a.next) × ((m : M) × (a.heap pointer ≡ some m))

  insert-Leaves :
      (a : ArtEngineAdapter M) (ip : List ℕ) (prefix : ℕ) (m : M)
      → Leaves (IsBoxed a) a.tree.root
      → Leaves (IsBoxed (insert a ip prefix m).0) (insert a ip prefix m).0.tree.root
  unfolding insert insert_prefix IsBoxed
  insert-Leaves a ip prefix m h =
      let after = (insert a ip prefix m).0 in
      insert_node-Leaves (IsBoxed after) ip prefix a.next (max_depth prefix) 0 a.tree.root
        (omega arith, (m, ground arith))
        (weaken-Leaves (IsBoxed a) (IsBoxed after)
          (λ p _ _ (old, (x, e)). (omega arith, (x, ground (arith, e, old)))) a.tree.root h)

  run-Leaves :
      (calls : List (Call M)) (a : ArtEngineAdapter M)
      → Leaves (IsBoxed a) a.tree.root
      → Leaves (IsBoxed (run calls a)) (run calls a).tree.root
  unfolding run clear Tree.new Leaves LeavesIn LeavesOf
  run-Leaves [] a h = h
  run-Leaves (inserts ip prefix m ∷ calls) a h =
      run-Leaves calls (insert a ip prefix m).0 (insert-Leaves a ip prefix m h)
  run-Leaves (clears ∷ calls) a h = run-Leaves calls (clear a) tt

  lookup-absent :
      (a : ArtEngineAdapter M) (ip : List ℕ) → match_ip a.tree ip ≡ none → lookup a ip ≡ some none
  unfolding lookup
  lookup-absent a ip absent = rw (lookup, absent) refl

  lookup-held :
      (a : ArtEngineAdapter M) (ip : List ℕ) (p : ℕ) (m : M)
      → match_ip a.tree ip ≡ some p
      → a.heap p ≡ some m
      → lookup a ip ≡ some (some m)
  unfolding lookup
  lookup-held a ip p m found held = rw (lookup, found, held) refl

  lookup-freed :
      (a : ArtEngineAdapter M) (ip : List ℕ) (p : ℕ)
      → match_ip a.tree ip ≡ some p
      → a.heap p ≡ none
      → lookup a ip ≡ none
  unfolding lookup
  lookup-freed a ip p found freed = rw (lookup, found, freed) refl

  remove-held :
      (a : ArtEngineAdapter M) (ip : List ℕ) (prefix p : ℕ) (m : M)
      → match_ip a.tree ip ≡ some p
      → a.heap p ≡ some m
      → remove a ip prefix
        ≡ some (
          record {
            tree = (delete_prefix a.tree ip prefix).0;
            heap = put a.heap p none;
            next = a.next;
          },
          some m,
        )
  unfolding remove
  remove-held a ip prefix p m found held = rw (remove, found, held) refl

  -- After any insertions and clears of a new adapter, no lookup reads freed memory, and it answers
  -- metadata exactly where contains, asked for the address, answers true.
  pub run-lookup_safe :
      (calls : List (Call M)) (ip : List ℕ)
      → (answer : Option M) × (lookup (run calls new) ip ≡ some answer)
        × (contains (run calls new) ip ≡ is_some answer)
  unfolding contains match_ip new Tree.new IsBoxed Leaves LeavesIn LeavesOf
  run-lookup_safe calls ip =
      let a : ArtEngineAdapter M = run calls new in
      elim (Option-cases (match_ip a.tree ip)) [
        | inl absent ↦ (none, lookup-absent a ip absent, ap is_some absent)
        | inr (p, found) ↦
            let (_, _, (_, (m, e)), _) =
              search_node-Leaves (IsBoxed a) ip ip a.tree.root p (run-Leaves calls new tt) found in
            (some m, lookup-held a ip p m found e, ap is_some found)
      ]

  -- A network of at least 8 bits that is alone in an adapter and matches the address of another
  -- network of at least 8 bits and another length, which is not stored: removing the other answers
  -- the metadata of the first, and a lookup of the address then reads freed memory.
  pub remove_frees_other :
      (a : ℕ) (key other_key : List ℕ) (len other : ℕ) (m : M)
      → 8 ≤ len
      → 8 ≤ other
      → len == other ≡ false
      → (let stored = (insert new (a ∷ key) len m).0 in
          contains stored (a ∷ other_key) ≡ true
          → (after : ArtEngineAdapter M) × (remove stored (a ∷ other_key) other
              ≡ some (after, some m))
            × (lookup after (a ∷ other_key) ≡ none))
  unfolding contains insert new
  remove_frees_other a key other_key len other m h k differ held =
      let stored : ArtEngineAdapter M = (insert new (a ∷ key) len m).0 in
      let ip = a ∷ other_key in
      let found : match_ip stored.tree ip ≡ some 0 = match-alone a key other_key len 0 h held in
      let kept : match_ip (delete_prefix stored.tree ip other).0 ip ≡ some 0 =
        match-deleted a key other_key len other 0 h k differ ∙ found in
      let after : ArtEngineAdapter M = record {
        tree = (delete_prefix stored.tree ip other).0;
        heap = put stored.heap 0 none;
        next = stored.next;
      } in
      (after, remove-held stored ip other 0 m found refl, lookup-freed after ip 0 kept refl)
