-- ===== src/Policy/RouteTrie.antt =====
-- lib/rust/policy/src/route_trie.rs: limiters by method and path, with wildcard segments.
-- `L` is the limiter; `to_uppercase` is that of `str`, and the theorems hold of any function.
pub mod Matching
use Prim.Native.String.{String}
use radixip.Base.{
  ℕ, Bool, true, false, not, Option, none, some, List, [], ◌∷◌, or_else, find, put, split,
  string_key, Key, ◌>>=◌, retain, map, if◌then◌else◌,
}

-- The parts of `path.split('/')` that are not empty.
abbrev pub split_path : String → List String
split_path path = retain (λ s. not (string_key.same s "")) (split b'/' path)

mutual
  pub data RouteTrieNode (L : Type 0) : Type 0 where
    node : (children : Children L) (limiters : List (String × L)) → RouteTrieNode L

  -- `HashMap<String, RouteTrieNode>`
  pub data Children (L : Type 0) : Type 0 where
    empty : Children L
    more : (key : String) (child : RouteTrieNode L) (rest : Children L) → Children L

module _ {L : Type 0} where
  abbrev pub get : String → Children L → Option (RouteTrieNode L)
  get seg empty = none
  get seg (more key child rest) = if string_key.same seg key then some child else get seg rest

  -- `insert` on the map: the value at a key is replaced.
  abbrev pub set : String → RouteTrieNode L → Children L → Children L
  set seg n empty = more seg n empty
  set seg n (more key child rest) =
      if string_key.same seg key then more key n rest else more key child (set seg n rest)

  -- `unwrap_or_default` on a child
  abbrev pub or_default : Option (RouteTrieNode L) → RouteTrieNode L
  or_default none = node empty []
  or_default (some n) = n

  abbrev pub children : RouteTrieNode L → Children L
  children (node c l) = c

  -- `RouteTrieNode::lookup`
  unfoldable pub lookup : RouteTrieNode L → (method : String) → Option L
  lookup (node c limiters) method = or_else (find method limiters) (find "" limiters)

  -- `for m in methods`, on the upper-case methods
  unfoldable pub put_methods : List String → L → List (String × L) → List (String × L)
  put_methods [] limiter limiters = limiters
  put_methods (m ∷ methods) limiter limiters = put_methods methods limiter (put m limiter limiters)

  -- The end of `insert`, at the terminal node.
  unfoldable pub store : List String → L → RouteTrieNode L → RouteTrieNode L
  store [] limiter (node c limiters) = node c (put "" limiter limiters)
  store (m ∷ methods) limiter (node c limiters) =
      node c (put_methods (m ∷ methods) limiter limiters)

  -- The loop of `insert`: `entry(seg).or_default()`.
  unfoldable pub insert_at : List String → List String → L → RouteTrieNode L → RouteTrieNode L
  insert_at [] methods limiter n = store methods limiter n
  insert_at (seg ∷ segments) methods limiter (node c limiters) =
      node (set seg (insert_at segments methods limiter (or_default (get seg c))) c) limiters

  -- `last_wildcard.and_then(|wc| wc.lookup(method))`
  abbrev pub wildcard_lookup : Option (RouteTrieNode L) → String → Option L
  wildcard_lookup wildcard method = wildcard >>= λ wc. lookup wc method

  -- The loop of `match_route`.
  unfoldable pub match_from :
      List String
      → (n : RouteTrieNode L) (last_wildcard : Option (RouteTrieNode L)) (method : String)
      → Option L
  match_from [] n last_wildcard method =
      or_else (lookup n method) (wildcard_lookup last_wildcard method)
  match_from (seg ∷ segments) n last_wildcard method = elim (get seg (children n)) [
    | some child ↦ match_from segments child (or_else (get "*" (children n)) last_wildcard) method
    | none ↦ elim (get "*" (children n)) [
      | some wc ↦ match_from segments wc (some wc) method
      | none ↦ wildcard_lookup last_wildcard method
    ]
  ]

-- `RouteTrie`
pub record RouteTrie (L : Type 0) : Type 0 where
  pub root : RouteTrieNode L

unfoldable pub new : {L : Type 0} → RouteTrie L
new = record { root = node empty [] }

module _ {L : Type 0} (to_uppercase : String → String) where
  unfoldable pub insert : RouteTrie L → String → List String → L → RouteTrie L
  insert trie path methods limiter = record {
    root = insert_at (split_path path) (map to_uppercase methods) limiter trie.root;
  }

  unfoldable pub match_route : RouteTrie L → (method path : String) → Option L
  match_route trie method path = match_from (split_path path) trie.root none (to_uppercase method)
