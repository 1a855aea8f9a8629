-- ===== src/Policy/TokenBucket/Word.antt =====
-- The packed word of lib/rust/policy/src/token_bucket.rs, and what one call does to it.
use native.Mathlib.Decide.{dec_lt}
use radixip.Base.{
  ℕ, ◌+◌, ◌-◌, ◌*◌, ◌%◌, ◌^◌, ◌≤◌, ◌<◌, ◌≡◌, ap, ◌∙◌, ◌⊎◌, inl, inr, true, false, arith, ltb,
  bit_or-add,
}
use radixip.Policy.TokenBucket.{pack, unpack, cap_fp, refilled, attempt, allow}

pub pack-eq-add : (ts fp : ℕ) → fp < 2 ^ 32 → pack ts fp ≡ ts * 2 ^ 32 + fp
unfolding pack
pack-eq-add ts fp h = bit_or-add 32 ts fp h

-- Packing and unpacking give back both halves of 32 bits.
pub unpack-pack : (ts fp : ℕ) → ts < 2 ^ 32 → fp < 2 ^ 32 → unpack (pack ts fp) ≡ (ts, fp)
unfolding unpack
unpack-pack ts fp h k = rw (pack-eq-add ts fp k) (ground arith)

pub cap_fp-le : (capacity : ℕ) → cap_fp capacity ≤ 2 ^ 32 - 1
unfolding cap_fp
cap_fp-le capacity = omega arith

-- A refill never goes above the capacity, nor above what the elapsed seconds are worth.
pub refilled_bounds :
    (capacity rate now ts raw : ℕ)
    → (refilled capacity rate now ts raw ≤ cap_fp capacity)
      × (refilled capacity rate now ts raw ≤ raw + (now - ts) * (rate * 1000 % 2 ^ 64))
unfolding refilled
refilled_bounds capacity rate now ts raw = (omega arith, omega arith)

module _ (capacity rate now state : ℕ) where
  -- The tokens that a call finds.
  abbrev pub found : ℕ
  found = refilled capacity rate now (unpack state).0 (unpack state).1

  pub allow_few : found < 1000 → allow capacity rate now state ≡ (state, false)
  unfolding allow attempt
  allow_few h = let few : ltb found 1000 ≡ true = ground arith in rw (few, allow, attempt)

  pub allow_enough : 1000 ≤ found → allow capacity rate now state ≡ (pack now (found - 1000), true)
  unfolding allow attempt
  allow_enough h = let enough : ltb found 1000 ≡ false = ground arith in rw (enough, allow, attempt)

  pub unpack_stored : now < 2 ^ 32 → unpack (pack now (found - 1000)) ≡ (now, found - 1000)
  unpack_stored h = unpack-pack now (found - 1000) h (
      omega (
        arith,
        (refilled_bounds capacity rate now (unpack state).0 (unpack state).1).0,
        cap_fp-le capacity,
      ))

  -- A call is allowed exactly if the refilled bucket holds a whole token. Then the word holds the
  -- time of the call, below 2 ^ 32, and the refilled tokens less one; otherwise the word stays.
  pub allow_cases :
      now < 2 ^ 32
      → ((found < 1000) × (allow capacity rate now state ≡ (state, false)))
        ⊎ ((1000 ≤ found)
            × ((allow capacity rate now state).1 ≡ true)
            × (unpack (allow capacity rate now state).0 ≡ (now, found - 1000)))
  allow_cases h = elim (dec_lt found 1000) [
    | yes few ↦ inl (few, allow_few few)
    | no enough ↦
        let whole : 1000 ≤ found = omega arith in
        let result = allow_enough whole in
        inr (whole, ap (λ r. r.1) result, ap (λ r. unpack r.0) result ∙ unpack_stored h)
  ]
