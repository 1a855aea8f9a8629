-- ===== src/Policy/TokenBucket/Progress.antt =====
-- Progress in the compare-exchange loop of `TokenBucket::allow`
-- (lib/rust/policy/src/token_bucket.rs): who makes a thread try again, and how a call ends.
use native.Mathlib.Decide.{ℕ_discrete}
use radixip.Base.{
  ℕ, suc, ◌+◌, ◌≤◌, ◌<◌, ◌≡◌, refl, sym, ap, ◌∙◌, false, Bool-cases, none, Option-cases, [], ◌∷◌,
  ◌++◌, length, length-append, arith, ◌==◌, ◌⊎◌, inl, inr,
}
use radixip.Policy.TokenBucket.{attempt, one_if}
use radixip.Policy.TokenBucket.Threads.{
  Pc, outside, trying, loaded, System, move, Step, call, load, reject, exchange, lose, Reach, here,
  next,
}

word_of : Pc → ℕ
word_of outside = 0
word_of (trying now) = 0
word_of (loaded now old) = old

moved : (pc : ℕ → Pc) (i j : ℕ) (p q : Pc) → move pc j p i ≡ q → ((j ≡ i) × (p ≡ q)) ⊎ (pc i ≡ q)
moved pc i j p q h = elim (Bool-cases (j == i)) [
  | inl same ↦ inl (ground (arith, same), ground (arith, same, h))
  | inr other ↦ inr (ground (arith, other, h))
]

Pc-cases :
    (p : Pc)
    → (p ≡ outside)
      ⊎ (((now : ℕ) × (p ≡ trying now)) ⊎ ((now : ℕ) × ((old : ℕ) × (p ≡ loaded now old))))
Pc-cases outside = inl refl
Pc-cases (trying now) = inr (inl (now, refl))
Pc-cases (loaded now old) = inr (inr (now, (old, refl)))

moved_self : (pc : ℕ → Pc) (i : ℕ) (p : Pc) → move pc i p i ≡ p
moved_self pc i p = ground arith

moved_other : (pc : ℕ → Pc) (i : ℕ) (p : Pc) (j : ℕ) → i == j ≡ false → move pc i p j ≡ pc j
moved_other pc i p j h = ground (arith, h)

module _ (capacity rate : ℕ) where
  abbrev Moves : System → System → Type 0
  Moves = Step capacity rate

  -- The retries of thread `i`, `n` before a step: an exchange that fails sends it round its loop.
  unfoldable pub retry_of : (i : ℕ) {s t : System} → Moves s t → (n : ℕ) → ℕ
  retry_of i (call j now h) n = n
  retry_of i (load j now h) n = n
  retry_of i (reject j now old h e) n = n
  retry_of i (exchange j now old new h e same) n = n
  retry_of i (lose j now old new h e differs) n = n + one_if (j == i)

  unfoldable pub retries : (i : ℕ) {word : ℕ} {s : System} → Reach capacity rate word s → ℕ
  retries i here = 0
  retries i (next r st) = retry_of i st (retries i r)

  -- Every retry so far has been paid for by a granted call, and the next one is too.
  IsPaid : (i n : ℕ) → System → Type 0
  IsPaid i n s =
      (n ≤ length s.wins)
      × ((now old : ℕ) → s.pc i ≡ loaded now old → (s.word ≡ old) ⊎ (n < length s.wins))

  step-IsPaid :
      (i n : ℕ) {s t : System} (st : Moves s t) → IsPaid i n s → IsPaid i (retry_of i st n) t
  unfolding retry_of IsPaid word_of
  step-IsPaid i n {s} (call j now h) (le, paid) = (
    le,
    λ now' old e. elim (moved s.pc i j (trying now) (loaded now' old) e) [
      | inl (_, q) ↦ absurd (cc)
      | inr q ↦ paid now' old q
    ],
  )
  step-IsPaid i n {s} (load j now h) (le, paid) = (
    le,
    λ now' old e. elim (moved s.pc i j (loaded now s.word) (loaded now' old) e) [
      | inl (_, q) ↦ inl (ap word_of q)
      | inr q ↦ paid now' old q
    ],
  )
  step-IsPaid i n {s} (reject j now old h e) (le, paid) = (
    le,
    λ now' old' e'. elim (moved s.pc i j outside (loaded now' old') e') [
      | inl (_, q) ↦ absurd (cc)
      | inr q ↦ paid now' old' q
    ],
  )
  step-IsPaid i n {s} (exchange j now old new h e same) (le, paid) =
      let more : length (s.wins ++ (now ∷ [])) ≡ length s.wins + 1 =
        length-append s.wins (now ∷ []) in
      (omega (arith, more), λ now' old' e'. inr (omega (arith, more)))
  step-IsPaid i n {s} (lose j now old new h e differs) (le, paid) = elim (Bool-cases (j == i)) [
    | inl same ↦
        let ji : j ≡ i = ground (arith, same) in
        let behind : n < length s.wins = elim (paid now old (ap s.pc (sym ji) ∙ h)) [
          | inl word_same ↦ absurd (differs word_same)
          | inr less ↦ less
        ] in
        (
          ground (arith, same, behind),
          λ now' old' e'. elim (moved s.pc i j (trying now) (loaded now' old') e') [
            | inl (_, q) ↦ absurd (cc)
            | inr q ↦ absurd (ground (arith, same, e'))
          ],
        )
    | inr other ↦ (
      ground (arith, other),
      λ now' old' e'. elim (moved s.pc i j (trying now) (loaded now' old') e') [
        | inl (_, q) ↦ absurd (cc)
        | inr q ↦ elim (paid now' old' q) [
          | inl word_same ↦ inl word_same
          | inr less ↦ inr (ground (arith, other, less))
        ]
      ],
    )
  ]

  run-IsPaid :
      (i : ℕ) {word : ℕ} {s : System} (r : Reach capacity rate word s) → IsPaid i (retries i r) s
  unfolding retries IsPaid
  run-IsPaid i here = (omega arith, λ now old e. absurd (cc))
  run-IsPaid i (next r st) = step-IsPaid i (retries i r) st (run-IsPaid i r)

  -- However the threads interleave, a thread tries again at most as often as calls were granted.
  pub retries-le :
      (i : ℕ) {word : ℕ} {s : System} (r : Reach capacity rate word s) → retries i r ≤ length s.wins
  unfolding IsPaid
  retries-le i r = (run-IsPaid i r).0

  -- A number of steps.
  pub data Steps : System → ℕ → System → Type 0 where
    done : {s : System} → Steps s 0 s
    more : {s : System} {n : ℕ} {t u : System} → Moves s t → Steps t n u → Steps s (suc n) u

  -- Thread `i` is outside after at most `bound` steps in which no other thread moves.
  pub Finishes : (i bound : ℕ) → System → Type 0
  Finishes i bound s =
      (n : ℕ) × (t : System) × Steps s n t
      × (n ≤ bound)
      × (t.pc i ≡ outside)
      × ((j : ℕ) → i == j ≡ false → t.pc j ≡ s.pc j)

  Finishes-step :
      (i bound : ℕ) {s t : System}
      → Moves s t
      → ((j : ℕ) → i == j ≡ false → t.pc j ≡ s.pc j)
      → Finishes i bound t
      → Finishes i (suc bound) s
  unfolding Finishes
  Finishes-step i bound st alone (n, t, steps, le, out, others) =
      (suc n, t, more st steps, omega (arith, le), out, λ j h. others j h ∙ alone j h)

  within : (i a b : ℕ) (s : System) → a ≤ b → Finishes i a s → Finishes i b s
  unfolding Finishes
  within i a b s h (n, t, steps, le, out, others) = (n, t, steps, omega (arith, le, h), out, others)

  outside-Finishes : (i bound : ℕ) (s : System) → s.pc i ≡ outside → Finishes i bound s
  unfolding Finishes
  outside-Finishes i bound s out = (0, s, done, omega arith, out, λ j h. refl)

  rejected-Finishes :
      (i now old : ℕ) (s : System)
      → s.pc i ≡ loaded now old
      → attempt capacity rate now old ≡ none
      → Finishes i 1 s
  rejected-Finishes i now old s at no_token =
      Finishes-step i 0 (reject i now old at no_token) (moved_other s.pc i outside)
        (outside-Finishes i 0 _ (moved_self s.pc i outside))

  fresh-Finishes :
      (i now old : ℕ) (s : System) → s.pc i ≡ loaded now old → s.word ≡ old → Finishes i 1 s
  fresh-Finishes i now old s at same = elim (Option-cases (attempt capacity rate now old)) [
    | inl no_token ↦ rejected-Finishes i now old s at no_token
    | inr (new, granted) ↦
        Finishes-step i 0 (exchange i now old new at granted same) (moved_other s.pc i outside)
          (outside-Finishes i 0 _ (moved_self s.pc i outside))
  ]

  trying-Finishes : (i now : ℕ) (s : System) → s.pc i ≡ trying now → Finishes i 2 s
  trying-Finishes i now s at =
      Finishes-step i 1 (load i now at) (moved_other s.pc i (loaded now s.word))
        (fresh-Finishes i now s.word _ (moved_self s.pc i (loaded now s.word)) refl)

  loaded-Finishes : (i now old : ℕ) (s : System) → s.pc i ≡ loaded now old → Finishes i 3 s
  loaded-Finishes i now old s at = elim (Option-cases (attempt capacity rate now old)) [
    | inl no_token ↦ within i 1 3 s (omega arith) (rejected-Finishes i now old s at no_token)
    | inr (new, granted) ↦ elim (ℕ_discrete s.word old) [
      | yes same ↦ within i 1 3 s (omega arith) (fresh-Finishes i now old s at same)
      | no differs ↦
          Finishes-step i 2 (lose i now old new at granted differs)
            (moved_other s.pc i (trying now))
            (trying-Finishes i now _ (moved_self s.pc i (trying now)))
    ]
  ]

  -- From any state, a thread that runs alone is outside its call after at most three steps.
  pub runs_alone-Finishes : (i : ℕ) (s : System) → Finishes i 3 s
  runs_alone-Finishes i s = elim (Pc-cases (s.pc i)) [
    | inl out ↦ outside-Finishes i 3 s out
    | inr (inl (now, at)) ↦ within i 2 3 s (omega arith) (trying-Finishes i now s at)
    | inr (inr (now, (old, at))) ↦ loaded-Finishes i now old s at
  ]
