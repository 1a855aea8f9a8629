-- ===== src/Examples/Networks.antt =====
-- A concrete network type, on which the hypotheses about the `ipnetwork` crate hold.
use native.Mathlib.Decide.{ℕ_discrete}
use radixip.Base.{
  ℕ, zero, suc, ◌*◌, ◌≤◌, ◌<◌, ◌≡◌, refl, ap, Bool, true, ◌&&◌, none, some, List, [], ◌∷◌, length,
  min, arith, leb, ◌==◌, if◌then◌else◌,
}
use radixip.Net.{bit_at, Network, IpNetwork, IpAddr}

pub record Cidr : Type 0 where
  pub octets : List ℕ
  pub len : ℕ

unfoldable pub pad : ℕ → List ℕ → List ℕ
pad zero _ = []
pad (suc n) [] = 0 ∷ pad n []
pad (suc n) (x ∷ xs) = x ∷ pad n xs

unfoldable pub agree : ℕ → List ℕ → List ℕ → Bool
agree zero x y = true
agree (suc n) x y = (bit_at x n == bit_at y n) && agree n x y

pub length-pad : (n : ℕ) (xs : List ℕ) → length (pad n xs) ≡ n
unfolding pad
length-pad zero xs = refl
length-pad (suc n) [] = ap suc (length-pad n [])
length-pad (suc n) (x ∷ xs) = ap suc (length-pad n xs)

pad_exact : (n : ℕ) (xs : List ℕ) → length xs ≡ n → pad n xs ≡ xs
unfolding pad
pad_exact zero [] h = refl
pad_exact zero (x ∷ xs) h = absurd (omega arith)
pad_exact (suc n) [] h = absurd (omega arith)
pad_exact (suc n) (x ∷ xs) h = ap (λ ys. x ∷ ys) (pad_exact n xs (omega arith))

pub agree_sound :
    (n : ℕ) (x y : List ℕ) → agree n x y ≡ true → (i : ℕ) → i < n → bit_at x i ≡ bit_at y i
unfolding agree
agree_sound zero x y h i lt = elim lt [ ]
agree_sound (suc n) x y h i lt = elim (ℕ_discrete i n) [
  | yes e ↦ rw e (ground arith)
  | no e ↦ agree_sound n x y (ground arith) i (omega arith)
]

pub agree_complete :
    (n : ℕ) (x y : List ℕ) → ((i : ℕ) → i < n → bit_at x i ≡ bit_at y i) → agree n x y ≡ true
unfolding agree
agree_complete zero x y h = refl
agree_complete (suc n) x y h =
    ground (arith, h n (omega arith), agree_complete n x y (λ i lt. h i (omega arith)))

pub prefix_le : (len size : ℕ) → min len (8 * size) ≤ 8 * size
prefix_le len size = omega arith

pub new_cidr :
    (size : ℕ) (o : List ℕ) (len : ℕ)
    → length o ≡ size
    → len ≤ 8 * size
    → (n : Cidr) × ((if leb len (8 * size) then some (record { octets = o; len = len }) else none)
        ≡ some n)
      × (min n.len (8 * size) ≡ len)
      × ((i : ℕ) → i < len → bit_at (pad size n.octets) i ≡ bit_at o i)
new_cidr size o len h k =
    (record { octets = o; len = len }, ground arith, omega arith, λ i lt. rw (pad_exact size o h))

abbrev pub cidr_network : (size : ℕ) → Network size Cidr
cidr_network size = record {
  network = λ n. pad size n.octets;
  prefix = λ n. min n.len (8 * size);
  contains = λ n o. agree (min n.len (8 * size)) o (pad size n.octets);
  new = λ o len. if leb len (8 * size) then some (record { octets = o; len = len }) else none;
  length-network = λ n. length-pad size n.octets;
  prefix-le = λ n. prefix_le n.len size;
  contains_iff = λ n o _. (
    agree_sound (min n.len (8 * size)) o (pad size n.octets),
    agree_complete (min n.len (8 * size)) o (pad size n.octets),
  );
  new_some = λ o len h k. new_cidr size o len h k;
}

instance abbrev pub cidr_v4 : Network 4 Cidr
cidr_v4 = cidr_network 4

instance abbrev pub cidr_v6 : Network 16 Cidr
cidr_v6 = cidr_network 16

abbrev pub Net : Type 0
Net = IpNetwork Cidr Cidr

-- 10.0.0.0/8, 10.1.0.0/16, 0.0.0.0/0 and 10.1.2.3
abbrev pub ten : Net
ten = IpNetwork.v4 (record { octets = 10 ∷ 0 ∷ 0 ∷ 0 ∷ []; len = 8 })

abbrev pub ten_one : Net
ten_one = IpNetwork.v4 (record { octets = 10 ∷ 1 ∷ 0 ∷ 0 ∷ []; len = 16 })

abbrev pub default_route : Net
default_route = IpNetwork.v4 (record { octets = 0 ∷ 0 ∷ 0 ∷ 0 ∷ []; len = 0 })

abbrev pub client : IpAddr
client = IpAddr.v4 (10 ∷ 1 ∷ 2 ∷ 3 ∷ [])
