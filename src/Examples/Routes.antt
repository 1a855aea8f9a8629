-- ===== src/Examples/Routes.antt =====
-- The route trie of lib/rust/policy/src/route_trie.rs at concrete inputs; the methods are upper
-- case already.
use Prim.Native.String.{String}
use radixip.Base.{ℕ, ◌≡◌, refl, inl, inr, none, some, List, [], ◌∷◌}
use radixip.Policy.RouteTrie.{
  RouteTrie, RouteTrieNode, split_path, lookup, put_methods, store, insert_at, match_from, new,
  insert, match_route,
}
use radixip.Policy.RouteTrie.Matching.{Covers, at, IsStored, match_route-insert, match_route_sound}

abbrev pub same_case : String → String
same_case s = s

-- One route with a wildcard in the middle, and one that shares its first segments otherwise.
abbrev pub two_routes : RouteTrie ℕ
two_routes = insert same_case (insert same_case new "/a/*/c" ("GET" ∷ []) 1) "/a/b/d" ("GET" ∷ []) 2

-- The walk does not come back from `b` to `*`: a path that a route matches gets no limiter.
no_backtracking :
    (match_route same_case two_routes "GET" "/a/b/c" ≡ none)
    × (match_route same_case two_routes "GET" "/a/x/c" ≡ some 1)
unfolding match_route match_from lookup insert insert_at store put_methods new
no_backtracking = (refl, refl)

match_route-insert_example :
    match_route same_case
      (insert same_case two_routes "/a/b/c" ("GET" ∷ "POST" ∷ []) 3)
      "POST"
      "/a/b/c"
    ≡ some 3
match_route-insert_example =
    match_route-insert same_case two_routes "/a/b/c" ("GET" ∷ "POST" ∷ []) "POST" 3 (inr (inl refl))

match_route_sound_example :
    (pattern : List String) × Covers pattern (split_path "/a/x/c")
    × (n : RouteTrieNode ℕ) × (at pattern two_routes.root ≡ some n)
    × IsStored n "GET" 1
match_route_sound_example =
    match_route_sound same_case two_routes "GET" "/a/x/c" 1 (no_backtracking.1)
