-- ===== src/Examples/Blocks.antt =====
-- Three concrete networks of each family, on which the hypotheses about the crate `ipnet` hold:
-- all addresses, the addresses that start with the octet 10, and one host.
use radixip.Base.{
  ◌≢◌, some, ℕ, zero, suc, ◌+◌, ◌-◌, ◌*◌, ◌/◌, ◌%◌, ◌≤◌, ◌<◌, ◌≡◌, ◌↔◌, ◌⊎◌, ◌^◌, inl, inr, refl,
  ap, Bool, true, ◌&&◌, none, List, [], ◌∷◌, length, get_or, leb, ◌==◌, arith,
}
use radixip.Net.{bit_at}
use radixip.Xdp.{Agree, PrefixNet}
use radixip.Examples.Networks.{agree, agree_sound, agree_complete}

pub data Block : Type 0 where
  whole ten host : Block

abbrev pub zeros : ℕ → List ℕ
zeros zero = []
zeros (suc n) = 0 ∷ zeros n

abbrev pub block_addr : ℕ → Block → List ℕ
block_addr n whole = 0 ∷ 0 ∷ zeros n
block_addr n ten = 10 ∷ 0 ∷ zeros n
block_addr n host = 10 ∷ 1 ∷ zeros n

abbrev pub block_len : ℕ → Block → ℕ
block_len n whole = 0
block_len n ten = 8
block_len n host = 8 * (n + 2)

pub length-zeros : (n : ℕ) → length (zeros n) ≡ n
length-zeros zero = refl
length-zeros (suc n) = ap suc (length-zeros n)

get_or-zeros : (n i : ℕ) → get_or (zeros n) i 0 ≡ 0
get_or-zeros zero i = refl
get_or-zeros (suc n) zero = refl
get_or-zeros (suc n) (suc i) = get_or-zeros n i

get_or-two : (x n j : ℕ) → 0 < j → get_or (x ∷ 0 ∷ zeros n) j 0 ≡ 0
get_or-two x n zero h = absurd (omega arith)
get_or-two x n (suc zero) h = refl
get_or-two x n (suc (suc j)) h = get_or-zeros n j

zero_bit : (e : ℕ) → 0 / 2 ^ e % 2 ≡ 0
zero_bit e = omega arith

pub block_clear :
    (n : ℕ) (k : Block) (i : ℕ)
    → block_len n k ≤ i
    → i < 8 * (n + 2)
    → bit_at (block_addr n k) i ≡ 0
block_clear n whole i h l = elim (first (i / 8)) [
  | inl e ↦ rw e (zero_bit (7 - i % 8))
  | inr p ↦ rw (get_or-two 0 n (i / 8) p) (zero_bit (7 - i % 8))
]
  where
    first : (j : ℕ) → (j ≡ 0) ⊎ (0 < j)
    first j = ground arith
block_clear n ten i h l = rw (get_or-two 10 n (i / 8) (omega arith)) (zero_bit (7 - i % 8))
block_clear n host i h l = absurd (omega arith)

pub block_new : (n m : Block) (k : ℕ) → block_len k n ≡ block_len k m → n ≡ m
block_new whole whole k h = refl
block_new whole ten k h = absurd (omega arith)
block_new whole host k h = absurd (omega arith)
block_new ten whole k h = absurd (omega arith)
block_new ten ten k h = refl
block_new ten host k h = absurd (omega arith)
block_new host whole k h = absurd (omega arith)
block_new host ten k h = absurd (omega arith)
block_new host host k h = refl

pub no_network : {n : Block} → none ≢ some n
no_network h = cc

module _ (k : ℕ) where
  abbrev pub holds_all : Block → Block → Bool
  holds_all n m =
      leb (block_len k n) (block_len k m) && agree (block_len k n) (block_addr k m) (block_addr k n)

  pub holds_all_iff :
      (n m : Block)
      → (holds_all n m ≡ true) ↔ (
          (block_len k n ≤ block_len k m) × Agree (block_len k n) (block_addr k m) (block_addr k n))
  holds_all_iff n m = (
    λ h. (
      ground (arith, h),
      agree_sound (block_len k n) (block_addr k m) (block_addr k n) (ground (arith, h)),
    ),
    λ (l, g). ground (arith, l, agree_complete (block_len k n) (block_addr k m) (block_addr k n) g),
  )

  pub length-block_addr : (n : Block) → length (block_addr k n) ≡ k + 2
  length-block_addr whole = omega (arith, length-zeros k)
  length-block_addr ten = omega (arith, length-zeros k)
  length-block_addr host = omega (arith, length-zeros k)

  pub block_len-le : (n : Block) → block_len k n ≤ 8 * (k + 2)
  block_len-le whole = omega arith
  block_len-le ten = omega arith
  block_len-le host = omega arith

  pub same_len_iff : (n m : Block) → ((block_len k n == block_len k m) ≡ true) ↔ (n ≡ m)
  same_len_iff n m = (
    λ h. block_new n m k (ground (arith, h)),
    λ e. (let l : block_len k n ≡ block_len k m = ap (block_len k) e in ground (arith, l)),
  )

  -- The three networks of an address size.
  abbrev pub blocks_of : PrefixNet (k + 2) Block
  blocks_of = record {
    addr = block_addr k;
    prefix_len = block_len k;
    trunc = λ n. n;
    contains = holds_all;
    new = λ _ _. none;
    same = λ n m. block_len k n == block_len k m;
    same_iff = same_len_iff;
    length-addr = length-block_addr;
    prefix_len-le = block_len-le;
    prefix_len-trunc = λ n. refl;
    trunc_bits = λ n i l. refl;
    trunc_clear = block_clear k;
    trunc_fixed = λ n h. refl;
    trunc_same = λ n m h g. block_new n m k h;
    contains_iff = holds_all_iff;
    new_some = λ o len n h. (absurd (no_network h), absurd (no_network h));
  }

instance abbrev pub blocks4 : PrefixNet 4 Block
blocks4 = blocks_of 2

instance abbrev pub blocks16 : PrefixNet 16 Block
blocks16 = blocks_of 14
