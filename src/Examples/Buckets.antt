-- ===== src/Examples/Buckets.antt =====
-- The token bucket of lib/rust/policy/src/token_bucket.rs at concrete inputs.
use radixip.Base.{◌+◌, ◌-◌, ◌*◌, ◌≤◌, ◌≡◌, refl, [], ◌∷◌, length, arith}
use radixip.Policy.TokenBucket.{pack, unpack, cap_fp, new, refilled, attempt, allow, allow_all}
use radixip.Policy.TokenBucket.Rate.{allow_all_bound}
use radixip.Policy.TokenBucket.Progress.{retries, retries-le, Finishes, runs_alone-Finishes}
use radixip.Policy.TokenBucket.Threads.{
  System, Reach, here, next, call, load, exchange, lose, Reach_serial, Reach_bound,
}

-- Two tokens, one more each second: three calls at once, then one a second later.
three_then_one : (allow_all 2 1 (100 ∷ 100 ∷ 100 ∷ 101 ∷ []) (new 100 2)).1 ≡ 3
unfolding allow_all allow attempt refilled cap_fp new pack unpack
three_then_one = refl

allow_all_bound_example :
    (allow_all 2 1 (100 ∷ 100 ∷ 100 ∷ 101 ∷ []) (new 100 2)).1 ≤ 2 + (101 - 100) * 1
allow_all_bound_example =
    allow_all_bound 2 1 100 101 (100 ∷ 100 ∷ 100 ∷ 101 ∷ []) (omega arith) (omega arith)

-- Threads 0 and 1 load the same word; thread 0 wins the exchange, thread 1 loses and tries again.
raced :
    (s : System) × Reach 2 1 (new 100 2) s
    × (s.wins ≡ 100 ∷ [])
    × (s.word ≡ (allow 2 1 100 (new 100 2)).0)
unfolding allow attempt refilled cap_fp new pack unpack
raced = (
  _,
  next
      (next
        (next (next (next (next here (call 0 100 refl)) (load 0 100 refl)) (call 1 100 refl))
          (load 1 100 refl))
        (exchange 0 100 _ _ refl refl refl))
      (lose 1 100 _ _ refl refl (omega arith)),
  refl,
  refl,
)

Reach_serial_example : allow_all 2 1 raced.0.wins (new 100 2) ≡ (raced.0.word, length raced.0.wins)
Reach_serial_example = Reach_serial 2 1 raced.1

Reach_bound_example : length raced.0.wins ≤ 2 + (100 - 100) * 1
Reach_bound_example = Reach_bound 2 1 100 100 raced.1 (omega arith) (rw raced.2 (omega arith))

retries-le_example : retries 2 1 1 raced.1 ≤ length raced.0.wins
retries-le_example = retries-le 2 1 1 raced.1

runs_alone-Finishes_example : Finishes 2 1 1 3 raced.0
runs_alone-Finishes_example = runs_alone-Finishes 2 1 1 raced.0
