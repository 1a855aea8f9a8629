-- ===== src/Policy/TokenBucket.antt =====
-- lib/rust/policy/src/token_bucket.rs: a bucket in one 64-bit word, seconds above thousandths of
-- a token. `u64` and `u32` arithmetic wraps where the code says so; the clock is an argument.
pub mod Word
pub mod Rate
pub mod Threads
pub mod Progress
use Prim.Native.Nat.{bit_or}
use radixip.Base.{
  ℕ, ◌+◌, ◌-◌, ◌*◌, ◌/◌, ◌%◌, ◌^◌, Bool, true, false, Option, none, some, List, [], ◌∷◌, min, ltb,
  if◌then◌else◌,
}

abbrev pub u32_max : ℕ
u32_max = 2 ^ 32 - 1

-- `((ts as u64) << 32) | (tokens_fp as u64)`
unfoldable pub pack : ℕ → ℕ → ℕ
pack ts tokens_fp = bit_or (ts * 2 ^ 32) tokens_fp

-- `((v >> 32) as u32, v as u32)`
unfoldable pub unpack : ℕ → ℕ × ℕ
unpack v = (v / 2 ^ 32 % 2 ^ 32, v % 2 ^ 32)

-- `(capacity * 1000).min(u32::MAX as u64) as u32`; the product wraps in a release build.
unfoldable pub cap_fp : ℕ → ℕ
cap_fp capacity = min (capacity * 1000 % 2 ^ 64) u32_max

-- `TokenBucket::new`, at a clock of `now`.
unfoldable pub new : ℕ → ℕ → ℕ
new now capacity = pack now (cap_fp capacity)

-- The tokens after the refill; on ℕ `now - ts` saturates at 0.
unfoldable pub refilled : (capacity tokens_per_sec now ts raw_fp : ℕ) → ℕ
refilled capacity tokens_per_sec now ts raw_fp =
    let elapsed = now - ts in
    let refill_fp = min (min (elapsed * (tokens_per_sec * 1000 % 2 ^ 64)) (2 ^ 64 - 1)) u32_max in
    min (min (raw_fp + refill_fp) u32_max) (cap_fp capacity)

-- What one round of the loop makes of the word it has loaded: `None` rejects, a new word is what
-- `compare_exchange` would store.
unfoldable pub attempt : (capacity tokens_per_sec now old : ℕ) → Option ℕ
attempt capacity tokens_per_sec now old =
    let (ts, raw_fp) = unpack old in
    let tokens_fp = refilled capacity tokens_per_sec now ts raw_fp in
    if ltb tokens_fp 1000 then none else some (pack now (tokens_fp - 1000))

-- `allow` with no other thread in the way: the exchange succeeds at once.
unfoldable pub allow : (capacity tokens_per_sec now state : ℕ) → ℕ × Bool
allow capacity tokens_per_sec now state = elim (attempt capacity tokens_per_sec now state) [
  | none ↦ (state, false)
  | some new_state ↦ (new_state, true)
]

abbrev pub one_if : Bool → ℕ
one_if true = 1
one_if false = 0

-- Calls one after the other, at the given times: the last word and the number allowed.
unfoldable pub allow_all : (capacity tokens_per_sec : ℕ) → List ℕ → ℕ → ℕ × ℕ
allow_all capacity tokens_per_sec [] state = (state, 0)
allow_all capacity tokens_per_sec (now ∷ times) state =
    let (next, allowed) = allow capacity tokens_per_sec now state in
    let (last, granted) = allow_all capacity tokens_per_sec times next in
    (last, one_if allowed + granted)
