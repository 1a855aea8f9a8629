-- ===== src/Uncompressed/Fits.antt =====
-- The shape invariant of the bit trie of lib/rust/engine/src/tree.rs: a stored network has the
-- length of its node's depth and the bits of the way to it. Every operation keeps it.
use radixip.Base.{
  ℕ, zero, suc, ◌+◌, ◌<◌, ◌≡◌, refl, ap, inl, inr, Bool, true, false, Option, none, some, arith,
  ◌==◌, is_some, if◌then◌else◌, Bool-cases,
}
use radixip.Net.{IpAddr, Network, IpNetwork, network, prefix}
use radixip.Uncompressed.{
  Node, nil, node, goes_left, child, set_child, or_build, insert_at, remove_at, UncompressedTree,
  new, insert, remove, clear,
}

-- The way `way`, with one more step at `depth`.
abbrev pub extend : (ℕ → Bool) → ℕ → Bool → ℕ → Bool
extend way depth left i = if i == depth then left else way i

-- The first `depth` bits of the address go along `way`.
abbrev pub Follows : (ℕ → Bool) → ℕ → IpAddr → Type 0
Follows way depth ip = (i : ℕ) → i < depth → goes_left ip i ≡ way i

pub Follows-on :
    (way : ℕ → Bool) (depth : ℕ) (ip : IpAddr)
    → Follows way depth ip
    → Follows (extend way depth (goes_left ip depth)) (suc depth) ip
Follows-on way depth ip h i lt = elim (Bool-cases (i == depth)) [
  | inl same ↦ let e : i ≡ depth = ground arith in rw same (ap (goes_left ip) e)
  | inr other ↦ rw other (h i (ground arith))
]

module _ {N4 N6 : Type 0} ⦃a : Network 4 N4⦄ ⦃b : Network 16 N6⦄ where
  abbrev pub OnRoute : (ℕ → Bool) → ℕ → Option (IpNetwork N4 N6) → Type 0
  OnRoute way depth none = Unit
  OnRoute way depth (some p) = (prefix p ≡ depth) × Follows way depth (network p)

  module _ {M : Type 0} where
    -- The subtree reached along `way` at `depth`; metadata stands only where a network does.
    abbrev pub Fits : (ℕ → Bool) → ℕ → Node (IpNetwork N4 N6) M → Type 0
    Fits way depth nil = Unit
    Fits way depth (node m p l r) =
        OnRoute way depth p
        × (is_some m ≡ true → is_some p ≡ true)
        × Fits (extend way depth true) (suc depth) l
        × Fits (extend way depth false) (suc depth) r

    or_build-Fits :
        (way : ℕ → Bool) (depth : ℕ) (t : Node (IpNetwork N4 N6) M)
        → Fits way depth t
        → Fits way depth (or_build t)
    or_build-Fits way depth nil h = (tt, (λ c. cc), tt, tt)
    or_build-Fits way depth (node m p l r) h = h

    child-Fits :
        (way : ℕ → Bool) (depth : ℕ) (left : Bool) (t : Node (IpNetwork N4 N6) M)
        → Fits way depth t
        → Fits (extend way depth left) (suc depth) (child left t)
    child-Fits way depth left nil h = tt
    child-Fits way depth true (node m p l r) h = h.2
    child-Fits way depth false (node m p l r) h = h.3

    set_child-Fits :
        (way : ℕ → Bool) (depth : ℕ) (left : Bool) (c t : Node (IpNetwork N4 N6) M)
        → Fits (extend way depth left) (suc depth) c
        → Fits way depth t
        → Fits way depth (set_child left c t)
    set_child-Fits way depth left c nil k h = tt
    set_child-Fits way depth true c (node m p l r) k h = (h.0, h.1, k, h.3)
    set_child-Fits way depth false c (node m p l r) k h = (h.0, h.1, h.2, k)

    insert_at-Fits :
        (rounds depth : ℕ) (way : ℕ → Bool) (p : IpNetwork N4 N6) (meta : M)
        (t : Node (IpNetwork N4 N6) M)
        → depth + rounds ≡ prefix p
        → Follows way depth (network p)
        → Fits way depth t
        → Fits way depth (insert_at rounds depth (network p) p meta t).0
    unfolding insert_at
    insert_at-Fits zero depth way p meta nil e k h = tt
    insert_at-Fits zero depth way p meta (node m q l r) e k h =
        ((omega arith, k), (λ _. refl), h.2, h.3)
    insert_at-Fits (suc rounds) depth way p meta t e k h =
        set_child-Fits way depth (goes_left (network p) depth) _ t
          (insert_at-Fits rounds (suc depth) (extend way depth (goes_left (network p) depth)) p meta
            (or_build (child (goes_left (network p) depth) t)) (omega arith)
            (Follows-on way depth (network p) k)
            (or_build-Fits _ _ (child (goes_left (network p) depth) t)
              (child-Fits way depth (goes_left (network p) depth) t h)))
          h

    remove_at-Fits :
        (rounds depth : ℕ) (way : ℕ → Bool) (ip : IpAddr) (t : Node (IpNetwork N4 N6) M)
        → Fits way depth t
        → Fits way depth (remove_at rounds depth ip t).0
    unfolding remove_at
    remove_at-Fits rounds depth way ip nil h = tt
    remove_at-Fits zero depth way ip (node m q l r) h = (h.0, (λ c. cc), h.2, h.3)
    remove_at-Fits (suc rounds) depth way ip (node m q l r) h =
        set_child-Fits way depth (goes_left ip depth) _ (node m q l r)
          (remove_at-Fits rounds (suc depth) (extend way depth (goes_left ip depth)) ip
            (child (goes_left ip depth) (node m q l r))
            (child-Fits way depth (goes_left ip depth) (node m q l r) h))
          h

    -- The invariant of a tree; the way to the root has no bits.
    abbrev pub IsTrie : UncompressedTree (IpNetwork N4 N6) M → Type 0
    IsTrie t = Fits (λ _. true) 0 t.root

    pub insert-IsTrie :
        (t : UncompressedTree (IpNetwork N4 N6) M) (p : IpNetwork N4 N6) (meta : M)
        → IsTrie t
        → IsTrie (insert t p meta).0
    unfolding insert
    insert-IsTrie t p meta h =
        insert_at-Fits (prefix p) 0 _ p meta t.root (omega arith) (λ i lt. elim lt [ ]) h

    pub remove-IsTrie :
        (t : UncompressedTree (IpNetwork N4 N6) M) (p : IpNetwork N4 N6)
        → IsTrie t
        → IsTrie (remove t p).0
    unfolding remove
    remove-IsTrie t p h = remove_at-Fits (prefix p) 0 _ (network p) t.root h

    pub clear-IsTrie : (t : UncompressedTree (IpNetwork N4 N6) M) → IsTrie t → IsTrie (clear t)
    unfolding clear
    clear-IsTrie t h =
        set_child-Fits _ 0 false nil (set_child true nil t.root) tt
          (set_child-Fits _ 0 true nil t.root tt h)

pub new-IsTrie :
    (N4 N6 M : Type 0) ⦃a : Network 4 N4⦄ ⦃b : Network 16 N6⦄
    → IsTrie (new {R = IpNetwork N4 N6} {M = M})
unfolding new
new-IsTrie N4 N6 M = (tt, (λ c. cc), tt, tt)
