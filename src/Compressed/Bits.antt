-- ===== src/Compressed/Bits.antt =====
-- How an edge meets the bits of a key, in `CompressedTree` of lib/rust/engine/src/tree.rs.
use radixip.Base.{
  drop, suc, ◌≡◌, refl, ap, Bool, true, false, not, Option, none, some, List, [], ◌∷◌, ◌++◌, length,
  take, if◌then◌else◌,
}
use radixip.Compressed.{same_bit, common_prefix_len, bit}

-- The bits that are left after an edge.
unfoldable pub strip : List Bool → List Bool → Option (List Bool)
strip [] bits = some bits
strip (x ∷ edge) [] = none
strip (x ∷ edge) (y ∷ bits) = if same_bit x y then strip edge bits else none

abbrev pub same_bits : List Bool → List Bool → Bool
same_bits [] [] = true
same_bits [] (_ ∷ _) = false
same_bits (_ ∷ _) [] = false
same_bits (x ∷ xs) (y ∷ ys) = if same_bit x y then same_bits xs ys else false

-- The ways an edge meets a key: they are the same, the edge ends first, the key ends first, or they
-- part inside both.
pub data Meets : (edge key : List Bool) → Type 0 where
  exact : (edge : List Bool) → Meets edge edge
  longer : (edge : List Bool) (b : Bool) (rest : List Bool) → Meets edge (edge ++ (b ∷ rest))
  ends : (key : List Bool) (b : Bool) (rest : List Bool) → Meets (key ++ (b ∷ rest)) key
  parts :
      (shared : List Bool) (b : Bool) (edge key : List Bool)
      → Meets (shared ++ (b ∷ edge)) (shared ++ (not b ∷ key))

extend : (b : Bool) {edge key : List Bool} → Meets edge key → Meets (b ∷ edge) (b ∷ key)
extend b (exact edge) = exact (b ∷ edge)
extend b (longer edge c rest) = longer (b ∷ edge) c rest
extend b (ends key c rest) = ends (b ∷ key) c rest
extend b (parts shared c edge key) = parts (b ∷ shared) c edge key

pub meets : (edge key : List Bool) → Meets edge key
meets [] [] = exact []
meets [] (b ∷ key) = longer [] b key
meets (x ∷ edge) [] = ends [] x edge
meets (true ∷ edge) (true ∷ key) = extend true (meets edge key)
meets (false ∷ edge) (false ∷ key) = extend false (meets edge key)
meets (true ∷ edge) (false ∷ key) = parts [] true edge key
meets (false ∷ edge) (true ∷ key) = parts [] false edge key

pub same_bit_refl : (b : Bool) → same_bit b b ≡ true
same_bit_refl true = refl
same_bit_refl false = refl

pub same_bit-not : (b : Bool) → same_bit b (not b) ≡ false
same_bit-not true = refl
same_bit-not false = refl

pub common-exact : (edge : List Bool) → common_prefix_len edge edge ≡ length edge
unfolding common_prefix_len
common-exact [] = refl
common-exact (x ∷ edge) = rw (same_bit_refl x) (ap suc (common-exact edge))

pub common-longer : (edge rest : List Bool) → common_prefix_len edge (edge ++ rest) ≡ length edge
unfolding common_prefix_len
common-longer [] rest = refl
common-longer (x ∷ edge) rest = rw (same_bit_refl x) (ap suc (common-longer edge rest))

pub common-ends :
    (key : List Bool) (b : Bool) (rest : List Bool)
    → common_prefix_len (key ++ (b ∷ rest)) key ≡ length key
unfolding common_prefix_len
common-ends [] b rest = refl
common-ends (x ∷ key) b rest = rw (same_bit_refl x) (ap suc (common-ends key b rest))

pub common-parts :
    (shared : List Bool) (b : Bool) (edge key : List Bool)
    → common_prefix_len (shared ++ (b ∷ edge)) (shared ++ (not b ∷ key)) ≡ length shared
unfolding common_prefix_len
common-parts [] b edge key = rw (same_bit-not b)
common-parts (x ∷ shared) b edge key =
    rw (same_bit_refl x) (ap suc (common-parts shared b edge key))

pub bit-append : (xs : List Bool) (b : Bool) (ys : List Bool) → bit (xs ++ (b ∷ ys)) (length xs) ≡ b
bit-append [] b ys = refl
bit-append (x ∷ xs) b ys = bit-append xs b ys

pub drop-append :
    (xs : List Bool) (b : Bool) (ys : List Bool) → drop (suc (length xs)) (xs ++ (b ∷ ys)) ≡ ys
drop-append [] b ys = refl
drop-append (x ∷ xs) b ys = drop-append xs b ys

pub take-append : (xs ys : List Bool) → take (length xs) (xs ++ ys) ≡ xs
take-append [] ys = refl
take-append (x ∷ xs) ys = ap (λ l. x ∷ l) (take-append xs ys)

pub strip-append : (edge rest : List Bool) → strip edge (edge ++ rest) ≡ some rest
unfolding strip
strip-append [] rest = refl
strip-append (x ∷ edge) rest = rw (same_bit_refl x) (strip-append edge rest)

pub strip_self : (edge : List Bool) → strip edge edge ≡ some []
unfolding strip
strip_self [] = refl
strip_self (x ∷ edge) = rw (same_bit_refl x) (strip_self edge)

pub strip-ends :
    (key : List Bool) (b : Bool) (rest : List Bool) → strip (key ++ (b ∷ rest)) key ≡ none
unfolding strip
strip-ends [] b rest = refl
strip-ends (x ∷ key) b rest = rw (same_bit_refl x) (strip-ends key b rest)

pub strip-parts :
    (shared : List Bool) (b : Bool) (edge key : List Bool)
    → strip (shared ++ (b ∷ edge)) (shared ++ (not b ∷ key)) ≡ none
unfolding strip
strip-parts [] b edge key = rw (same_bit-not b) refl
strip-parts (x ∷ shared) b edge key = rw (same_bit_refl x) (strip-parts shared b edge key)

pub same_bits→eq : (xs ys : List Bool) → same_bits xs ys ≡ true → xs ≡ ys
same_bits→eq [] [] h = refl
same_bits→eq [] (y ∷ ys) h = cc
same_bits→eq (x ∷ xs) [] h = cc
same_bits→eq (true ∷ xs) (true ∷ ys) h = ap (λ l. true ∷ l) (same_bits→eq xs ys h)
same_bits→eq (false ∷ xs) (false ∷ ys) h = ap (λ l. false ∷ l) (same_bits→eq xs ys h)
same_bits→eq (true ∷ xs) (false ∷ ys) h = cc
same_bits→eq (false ∷ xs) (true ∷ ys) h = cc
