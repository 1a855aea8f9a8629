-- ===== src/Policy/TokenBucket/Rate.antt =====
-- The rate that a bucket of lib/rust/policy/src/token_bucket.rs enforces over time.
use radixip.Base.{ℕ, ◌+◌, ◌-◌, ◌*◌, ◌%◌, ◌^◌, ◌≤◌, ◌<◌, ◌≡◌, ap, inl, inr, List, [], ◌∷◌, arith}
use radixip.Policy.TokenBucket.{pack, unpack, cap_fp, new, allow, allow_all, one_if}
use radixip.Policy.TokenBucket.Word.{unpack-pack, refilled_bounds, allow_cases, cap_fp-le}

-- The times never go back, and stay between `from` and `to`.
abbrev pub IsOrdered : ℕ → ℕ → List ℕ → Type 0
IsOrdered from to [] = from ≤ to
IsOrdered from to (now ∷ times) = (from ≤ now) × IsOrdered now to times

IsOrdered-le : (from to : ℕ) (times : List ℕ) → IsOrdered from to times → from ≤ to
IsOrdered-le from to [] h = h
IsOrdered-le from to (now ∷ times) h = omega (arith, h.0, IsOrdered-le now to times h.1)

IsOrdered-from :
    (start from to : ℕ) (times : List ℕ)
    → start ≤ from
    → IsOrdered from to times
    → IsOrdered start to times
IsOrdered-from start from to [] k h = omega arith
IsOrdered-from start from to (now ∷ times) k h = (omega (arith, h.0), h.1)

elapsed_mul : (now ts r : ℕ) → ts ≤ now → ts * r + (now - ts) * r ≡ now * r
elapsed_mul now ts r h = grind arith

module _ (capacity rate : ℕ) where
  abbrev per_second : ℕ
  per_second = rate * 1000 % 2 ^ 64

  -- From `state` to `last` the grants come out of the tokens held and of the seconds between.
  record Spends (state granted last : ℕ) : Type 0 where
    spent :
        1000 * granted + (unpack last).1 + (unpack state).0 * per_second
        ≤ (unpack state).1 + (unpack last).0 * per_second

  call_Spends :
      (now state : ℕ)
      → now < 2 ^ 32
      → (unpack state).0 ≤ now
      → Spends state (one_if (allow capacity rate now state).1) (allow capacity rate now state).0
        × ((unpack (allow capacity rate now state).0).0 ≤ now)
  call_Spends now state h k =
      let (ts, raw) = unpack state in
      elim (allow_cases capacity rate now state h) [
        | inl (few, kept) ↦ rw kept (record { spent = omega arith }, k)
        | inr (whole, granted, stored) ↦ rw granted (
          record {
            spent = rw stored (
                omega (
                  arith,
                  (refilled_bounds capacity rate now ts raw).1,
                  elapsed_mul now ts per_second k,
                ));
          },
          rw stored (omega arith),
        )
      ]

  calls_Spend :
      (times : List ℕ) (from to state : ℕ)
      → to < 2 ^ 32
      → (unpack state).0 ≤ from
      → IsOrdered from to times
      → Spends state (allow_all capacity rate times state).1 (allow_all capacity rate times state).0
        × ((unpack (allow_all capacity rate times state).0).0 ≤ to)
  unfolding allow_all
  calls_Spend [] from to state h k ordered = (record { spent = omega arith }, omega arith)
  calls_Spend (now ∷ times) from to state h k ordered =
      let below : now ≤ to = IsOrdered-le now to times ordered.1 in
      let (one, at) = call_Spends now state (omega arith) (omega (arith, ordered.0)) in
      let (rest, last) =
        calls_Spend times now to (allow capacity rate now state).0 h at ordered.1 in
      (record { spent = omega (arith, one.spent, rest.spent) }, last)

mul_mono : (a b r : ℕ) → a ≤ b → a * r ≤ b * r
mul_mono a b r h = grind arith

mul_mono_right : (e a b : ℕ) → a ≤ b → e * a ≤ e * b
mul_mono_right e a b h = grind arith

mul_scaled : (e rate : ℕ) → e * (rate * 1000 % 2 ^ 64) ≤ 1000 * (e * rate)
mul_scaled e rate =
    omega (arith, mul_mono_right e (rate * 1000 % 2 ^ 64) (rate * 1000) (omega arith))

cap_fp-le_tokens : (capacity : ℕ) → cap_fp capacity ≤ capacity * 1000
unfolding cap_fp
cap_fp-le_tokens capacity = omega arith

-- A new bucket, called at times that never go back and stay below 2 ^ 32, allows at most
-- `capacity` calls and `rate` more for each second since it was made.
pub allow_all_bound :
    (capacity rate start to : ℕ) (times : List ℕ)
    → to < 2 ^ 32
    → IsOrdered start to times
    → (allow_all capacity rate times (new start capacity)).1 ≤ capacity + (to - start) * rate
unfolding new
allow_all_bound capacity rate start to times h ordered =
    let began : unpack (pack start (cap_fp capacity)) ≡ (start, cap_fp capacity) =
      unpack-pack start (cap_fp capacity) (omega (arith, IsOrdered-le start to times ordered))
        (omega (arith, cap_fp-le capacity)) in
    let (total, last) =
      calls_Spend capacity rate times start to (new start capacity) h
        (omega (arith, ap (λ u. u.0) began)) ordered in
    let r = per_second capacity rate in
    let ended = (unpack (allow_all capacity rate times (new start capacity)).0).0 in
    omega (
      arith,
      total.spent,
      ap (λ u. u.0) began,
      ap (λ u. u.0 * r) began,
      ap (λ u. u.1) began,
      cap_fp-le_tokens capacity,
      mul_mono ended to r last,
      elapsed_mul to start r (IsOrdered-le start to times ordered),
      mul_scaled (to - start) rate,
    )
