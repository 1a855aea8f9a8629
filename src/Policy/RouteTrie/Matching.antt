-- ===== src/Policy/RouteTrie/Matching.antt =====
-- Which limiter a route of lib/rust/policy/src/route_trie.rs gets.
use Prim.Native.String.{String}
use radixip.Base.{
  ◌≡◌, refl, subst, ap, ◌∙◌, ◌⊎◌, inl, inr, Bool-cases, Option, Option-cases, none, some, List, [],
  ◌∷◌, or_else, find, put, find-put_self, find-put_other, same_self, same_false, string_key, ◌>>=◌,
  map,
}
use radixip.Policy.RouteTrie.{
  split_path, RouteTrieNode, node, Children, empty, more, get, set, or_default, children, lookup,
  put_methods, store, insert_at, wildcard_lookup, match_from, RouteTrie, insert, match_route,
}

abbrev pub Has : String → List String → Type 0
Has m [] = ⊥
Has m (x ∷ xs) = (m ≡ x) ⊎ Has m xs

module _ {L : Type 0} where
  get-set_self :
      (seg : String) (n : RouteTrieNode L) (c : Children L) → get seg (set seg n c) ≡ some n
  get-set_self seg n empty = rw (same_self seg)
  get-set_self seg n (more key child rest) = elim (Bool-cases (string_key.same seg key)) [
    | inl p ↦ rw (p, p)
    | inr p ↦ rw (p, p, get-set_self seg n rest)
  ]

  find-put_methods_kept :
      (m : String) (methods : List String) (limiter : L) (limiters : List (String × L))
      → find m limiters ≡ some limiter
      → find m (put_methods methods limiter limiters) ≡ some limiter
  unfolding put_methods
  find-put_methods_kept m [] limiter limiters h = h
  find-put_methods_kept m (x ∷ methods) limiter limiters h =
      find-put_methods_kept m methods limiter (put x limiter limiters)
        (elim (Bool-cases (string_key.same m x)) [
          | inl p ↦
              subst (λ y. find m (put y limiter limiters) ≡ some limiter)
                ((string_key.same_iff m x).0 p) (find-put_self m limiter limiters)
          | inr p ↦ find-put_other m x limiter limiters (same_false m x p) ∙ h
        ])

  find-put_methods :
      (m : String) (methods : List String) (limiter : L) (limiters : List (String × L))
      → Has m methods
      → find m (put_methods methods limiter limiters) ≡ some limiter
  unfolding put_methods
  find-put_methods m [] limiter limiters h = elim h [ ]
  find-put_methods m (x ∷ methods) limiter limiters (inl p) =
      find-put_methods_kept m methods limiter (put x limiter limiters) (
        subst (λ y. find m (put y limiter limiters) ≡ some limiter) p
          (find-put_self m limiter limiters))
  find-put_methods m (x ∷ methods) limiter limiters (inr h) =
      find-put_methods m methods limiter (put x limiter limiters) h

  lookup-store :
      (m : String) (methods : List String) (limiter : L) (n : RouteTrieNode L)
      → Has m methods
      → lookup (store methods limiter n) m ≡ some limiter
  unfolding lookup store
  lookup-store m [] limiter n h = elim h [ ]
  lookup-store m (x ∷ methods) limiter (node c limiters) h =
      rw (find-put_methods m (x ∷ methods) limiter limiters h)

  match_from-insert_at :
      (segments methods : List String) (m : String) (limiter : L) (n : RouteTrieNode L)
      (last : Option (RouteTrieNode L))
      → Has m methods
      → match_from segments (insert_at segments methods limiter n) last m ≡ some limiter
  unfolding match_from insert_at
  match_from-insert_at [] methods m limiter n last h = rw (lookup-store m methods limiter n h)
  match_from-insert_at (seg ∷ segments) methods m limiter (node c limiters) last h =
      rw
        (
          get-set_self seg (insert_at segments methods limiter (or_default (get seg c))) c,
          match_from,
        )
        (match_from-insert_at segments methods m limiter (or_default (get seg c)) _ h)

-- A pattern covers a path if each of its segments is `*` or that of the path, and it is as long as
-- the path or ends in `*` before the path does.
pub data Covers : (pattern path : List String) → Type 0 where
  whole : Covers [] []
  wildcard_end : (seg : String) (rest : List String) → Covers ("*" ∷ []) (seg ∷ rest)
  exact : (seg : String) {p q : List String} → Covers p q → Covers (seg ∷ p) (seg ∷ q)
  wildcard : (seg : String) {p q : List String} → Covers p q → Covers ("*" ∷ p) (seg ∷ q)

module _ {L : Type 0} where
  -- The node that a pattern names.
  abbrev pub at : List String → RouteTrieNode L → Option (RouteTrieNode L)
  at [] n = some n
  at (seg ∷ pattern) n = get seg (children n) >>= at pattern

  abbrev pub limiters_of : RouteTrieNode L → List (String × L)
  limiters_of (node c limiters) = limiters

  -- What the node stores for the method, or for all methods if it has nothing for that one.
  abbrev pub IsStored : RouteTrieNode L → (method : String) → L → Type 0
  IsStored n method limiter =
      (find method (limiters_of n) ≡ some limiter)
      ⊎ ((find method (limiters_of n) ≡ none) × (find "" (limiters_of n) ≡ some limiter))

  lookup-IsStored :
      (n : RouteTrieNode L) (m : String) (limiter : L)
      → lookup n m ≡ some limiter
      → IsStored n m limiter
  unfolding lookup
  lookup-IsStored (node c limiters) m limiter h = elim (Option-cases (find m limiters)) [
    | inl p ↦ inr (p, (rw (p, lookup) at h))
    | inr (l, p) ↦ inl (p ∙ (rw (p, lookup) at h))
  ]

  wildcard_lookup-IsStored :
      (o : Option (RouteTrieNode L)) (m : String) (limiter : L)
      → wildcard_lookup o m ≡ some limiter
      → (n : RouteTrieNode L) × (o ≡ some n) × IsStored n m limiter
  wildcard_lookup-IsStored none m limiter h = absurd (cc)
  wildcard_lookup-IsStored (some n) m limiter h = (n, refl, lookup-IsStored n m limiter h)

  -- What the walk answers is stored under a pattern that covers the path, or is the answer of the
  -- wildcard that it came with.
  match_from_sound :
      (segments : List String) (n : RouteTrieNode L) (last : Option (RouteTrieNode L)) (m : String)
      (limiter : L)
      → match_from segments n last m ≡ some limiter
      → ((pattern : List String) × Covers pattern segments
          × (wildcard_lookup (at pattern n) m ≡ some limiter))
        ⊎ (wildcard_lookup last m ≡ some limiter)
  unfolding match_from
  match_from_sound [] n last m limiter h = elim (Option-cases (lookup n m)) [
    | inl e ↦ inr (rw e at h)
    | inr (l, e) ↦ inl ([], whole, (rw e) ∙ (rw e at h))
  ]
  match_from_sound (seg ∷ segments) n last m limiter h =
      elim (Option-cases (get seg (children n))) [
        | inr (child, e) ↦
            elim (match_from_sound segments child (or_else (get "*" (children n)) last) m limiter
              (rw (e, match_from) at h)) [
                | inl (p, c, q) ↦ inl (seg ∷ p, exact seg c, rw e q)
                | inr w ↦ elim (Option-cases (get "*" (children n))) [
                  | inl g ↦ inr (rw g at w)
                  | inr (wc, g) ↦ inl ("*" ∷ [], wildcard_end seg segments, rw g (rw g at w))
                ]
              ]
        | inl e ↦ elim (Option-cases (get "*" (children n))) [
          | inl g ↦ inr (rw (e, g, match_from) at h)
          | inr (wc, g) ↦
              elim (match_from_sound segments wc (some wc) m limiter (rw (e, g, match_from) at h)) [
                | inl (p, c, q) ↦ inl ("*" ∷ p, wildcard seg c, rw g q)
                | inr w ↦ inl ("*" ∷ [], wildcard_end seg segments, rw g w)
              ]
        ]
      ]

Has-map :
    (f : String → String) (m : String) (methods : List String)
    → Has m methods
    → Has (f m) (map f methods)
Has-map f m [] h = h
Has-map f m (x ∷ methods) (inl p) = inl (ap f p)
Has-map f m (x ∷ methods) (inr h) = inr (Has-map f m methods h)

module _ {L : Type 0} (to_uppercase : String → String) where
  -- In any trie, the path of a route that was inserted last, with one of its methods, gets the
  -- limiter of that route.
  pub match_route-insert :
      (trie : RouteTrie L) (path : String) (methods : List String) (method : String) (limiter : L)
      → Has method methods
      → match_route to_uppercase (insert to_uppercase trie path methods limiter) method path
        ≡ some limiter
  unfolding match_route insert
  match_route-insert trie path methods method limiter h =
      match_from-insert_at (split_path path) (map to_uppercase methods) (to_uppercase method)
        limiter trie.root none (Has-map to_uppercase method methods h)

  -- A limiter that a request gets stands in the table of the node that some pattern names which
  -- covers the path, segment by segment or up to a wildcard at the pattern's end: for the upper-case
  -- method of the request, or for all methods if the node has none for that one.
  pub match_route_sound :
      (trie : RouteTrie L) (method path : String) (limiter : L)
      → match_route to_uppercase trie method path ≡ some limiter
      → (pattern : List String) × Covers pattern (split_path path)
        × (n : RouteTrieNode L) × (at pattern trie.root ≡ some n)
        × IsStored n (to_uppercase method) limiter
  unfolding match_route
  match_route_sound trie method path limiter h =
      elim (match_from_sound (split_path path) trie.root none (to_uppercase method) limiter h) [
        | inl (pattern, c, e) ↦
            let (n, found, stored) =
              wildcard_lookup-IsStored (at pattern trie.root) (to_uppercase method) limiter e in
            (pattern, c, n, found, stored)
        | inr e ↦ cc
      ]
