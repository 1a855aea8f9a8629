-- ===== src/Base/Bits.antt =====
-- `|` of a shifted word and a word that fits below it is their sum.
use Prim.Native.Nat.{
  ℕ, zero, suc, ◌+◌, ◌*◌, ◌/◌, ◌%◌, ◌^◌, ◌≤◌, ◌<◌, max, bit_or, digits, bit_or-bitwise,
}
use mathlib.Core.Path.{◌≡◌, refl, ap}
use native.Mathlib.Nat.{pow-suc}
use native.Mathlib.Omega.{arith}

-- The digit recursion behind `bit_or`, whose fuel only has to reach the left operand.
abbrev or_upto : ℕ → ℕ → ℕ → ℕ
or_upto fuel a b = digits (λ y. y) max fuel a b

or_upto_fuel : (f g a b : ℕ) → a ≤ f → a ≤ g → or_upto f a b ≡ or_upto g a b
or_upto_fuel zero zero a b p q = refl
or_upto_fuel zero (suc g) zero b p q = refl
or_upto_fuel zero (suc g) (suc a) b p q = absurd (omega arith)
or_upto_fuel (suc f) g zero b p q = helper g
  where
    helper : (k : ℕ) → or_upto (suc f) zero b ≡ or_upto k zero b
    helper zero = refl
    helper (suc k) = refl
or_upto_fuel (suc f) zero (suc a) b p q = absurd (omega arith)
or_upto_fuel (suc f) (suc g) (suc a) b p q =
    omega (arith, or_upto_fuel f g (suc a / 2) (b / 2) (omega arith) (omega arith))

zero-bit_or : (b : ℕ) → bit_or 0 b ≡ b
zero-bit_or b = bit_or-bitwise 0 b

-- One binary digit of `|`.
bit_or-halves : (a b : ℕ) → bit_or a b ≡ bit_or (a / 2) (b / 2) * 2 + max (a % 2) (b % 2)
bit_or-halves zero b = omega (arith, zero-bit_or b, zero-bit_or (b / 2))
bit_or-halves (suc a) b = omega (
  arith,
  bit_or-bitwise (suc a) b,
  bit_or-bitwise (suc a / 2) (b / 2),
  or_upto_fuel a (suc a / 2) (suc a / 2) (b / 2) (omega arith) (omega arith),
)

bit_or-zero_upto : (fuel a : ℕ) → a ≤ fuel → bit_or a 0 ≡ a
bit_or-zero_upto fuel zero h = refl
bit_or-zero_upto zero (suc a) h = absurd (omega arith)
bit_or-zero_upto (suc fuel) (suc a) h =
    omega (arith, bit_or-halves (suc a) 0, bit_or-zero_upto fuel (suc a / 2) (omega arith))

pub bit_or-add : (k hi lo : ℕ) → lo < 2 ^ k → bit_or (hi * 2 ^ k) lo ≡ hi * 2 ^ k + lo
bit_or-add zero hi lo h = ground (arith, bit_or-zero_upto hi hi)
bit_or-add (suc k) hi lo h =
    let doubled : hi * 2 ^ suc k ≡ 2 * (hi * 2 ^ k) =
      omega (arith, ap (λ (t : ℕ). hi * t) (pow-suc 2 k)) in
    let halved : lo / 2 < 2 ^ k = omega (arith, pow-suc 2 k) in
    ground (arith, doubled, bit_or-halves (hi * 2 ^ suc k) lo, bit_or-add k hi (lo / 2) halved)
