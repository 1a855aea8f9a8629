-- ===== src/RouteTree.antt =====
-- The trait `RouteTree` of lib/rust/engine/src/traits.rs, and what its clients rely on.
use Prim.Native.String.{String}
use radixip.Base.{ℕ, ◌+◌, ◌≡◌, Bool, true, false, Option, none, Result, ok, is_some}

abbrev pub one_if : Bool → ℕ
one_if true = 1
one_if false = 0

-- `RouteTree` over networks `R`, addresses `I` and metadata `M`. A method that changes the tree
-- returns it.
pub record RouteTree (T R I M : Type 0) : Type 0 where
  pub insert : T → R → M → T × Result Bool String
  pub lookup : T → I → Option M
  pub remove : T → R → T × Option M
  pub contains : T → R → Bool
  pub clear : T → T

-- A tree that counts its prefixes: `insert` answers whether it added one, `remove` answers a
-- value exactly when it takes one away, and a call made twice changes nothing the second time.
pub record IsCounted {T R I M : Type 0} (tree : RouteTree T R I M) (count : T → ℕ)
    (IsValid : T → Type 0) : Type 0 where
  pub insert_result :
      (t : T) (p : R) (m : M)
      → IsValid t
      → (b : Bool) × ((tree.insert t p m).1 ≡ ok b)
        × (count (tree.insert t p m).0 ≡ count t + one_if b)
  pub insert_valid : (t : T) (p : R) (m : M) → IsValid t → IsValid (tree.insert t p m).0
  pub insert_again :
      (t : T) (p : R) (m : M)
      → IsValid t
      → tree.insert (tree.insert t p m).0 p m ≡ ((tree.insert t p m).0, ok false)
  pub remove_count :
      (t : T) (p : R)
      → IsValid t
      → count (tree.remove t p).0 + one_if (is_some (tree.remove t p).1) ≡ count t
  pub remove_valid : (t : T) (p : R) → IsValid t → IsValid (tree.remove t p).0
  pub remove_again :
      (t : T) (p : R) → IsValid t → tree.remove (tree.remove t p).0 p ≡ ((tree.remove t p).0, none)
  pub clear_valid : (t : T) → IsValid t → IsValid (tree.clear t)
