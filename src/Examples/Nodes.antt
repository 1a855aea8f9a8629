-- ===== src/Examples/Nodes.antt =====
-- Calls on concrete nodes.
use radixip.Base.{ℕ, ◌≡◌, none, some, List, [], ◌∷◌, map_option, arith}
use radixip.Nodes.{
  Setter, left_call, metadata_call, bit_call, edge_call, calls, view, radix, blank, expects, zeros,
}
use radixip.Nodes.Wrapper.{NodeVariant, wrapper, build}
use radixip.Nodes.Wrapper.Views.{calls-build}

-- An edge of a length that no byte holds, and one that does.
abbrev edge_calls : List (Setter ℕ ℕ ℕ)
edge_calls =
    edge_call zeros 300
    ∷ left_call (some 4)
    ∷ bit_call 7
    ∷ edge_call zeros 12
    ∷ left_call none
    ∷ metadata_call 5
    ∷ []

calls-build_example :
    map_option (view wrapper) (calls wrapper edge_calls (build NodeVariant.atomic_radix_node))
    ≡ expects radix edge_calls (blank radix)
calls-build_example =
    calls-build NodeVariant.atomic_radix_node edge_calls
      (tt, (tt, (omega arith, (tt, (tt, (tt, tt))))))
