-- ===== src/Policy/TokenBucket/Threads.antt =====
-- The compare-exchange loop of `TokenBucket::allow` (lib/rust/policy/src/token_bucket.rs), run by
-- any number of threads, one access to the shared word at a time.
use radixip.Base.{
  ℕ, ◌+◌, ◌-◌, ◌*◌, ◌^◌, ◌≤◌, ◌<◌, ◌≡◌, ◌≢◌, refl, ap, true, none, some, List, [], ◌∷◌, ◌++◌,
  length, length-append, arith, ◌==◌, if◌then◌else◌,
}
use radixip.Policy.TokenBucket.{attempt, allow, allow_all, one_if, new}
use radixip.Policy.TokenBucket.Rate.{IsOrdered, allow_all_bound}

-- Where a thread stands: outside `allow`, at the head of the loop, or with a loaded word.
pub data Pc : Type 0 where
  outside : Pc
  trying : (now : ℕ) → Pc
  loaded : (now old : ℕ) → Pc

-- The shared word, and each thread. `wins` records the times of the calls that returned `true`,
-- oldest first; the code has no such list.
pub record System : Type 0 where
  pub word : ℕ
  pub wins : List ℕ
  pub pc : ℕ → Pc

abbrev pub move : (ℕ → Pc) → ℕ → Pc → ℕ → Pc
move pc i p j = if i == j then p else pc j

module _ (capacity rate : ℕ) where
  -- One access by thread `i`: read the clock, load, reject, or exchange with either outcome.
  pub data Step (s : System) : System → Type 0 where
    call : (i now : ℕ) → s.pc i ≡ outside → Step s (record s { pc = move s.pc i (trying now) })
    load :
        (i now : ℕ)
        → s.pc i ≡ trying now
        → Step s (record s { pc = move s.pc i (loaded now s.word) })
    reject :
        (i now old : ℕ)
        → s.pc i ≡ loaded now old
        → attempt capacity rate now old ≡ none
        → Step s (record s { pc = move s.pc i outside })
    exchange :
        (i now old new : ℕ)
        → s.pc i ≡ loaded now old
        → attempt capacity rate now old ≡ some new
        → s.word ≡ old
        → Step s (record { word = new; wins = s.wins ++ (now ∷ []); pc = move s.pc i outside })
    lose :
        (i now old new : ℕ)
        → s.pc i ≡ loaded now old
        → attempt capacity rate now old ≡ some new
        → s.word ≢ old
        → Step s (record s { pc = move s.pc i (trying now) })

  -- All threads start outside.
  abbrev pub start : ℕ → System
  start word = record { word = word; wins = []; pc = λ _. outside }

  pub data Reach (word : ℕ) : System → Type 0 where
    here : Reach word (start word)
    next : {s t : System} → Reach word s → Step s t → Reach word t

  allow_all-snoc :
      (times : List ℕ) (now state : ℕ)
      → let (last, granted) = allow_all capacity rate times state in
        let (after, allowed) = allow capacity rate now last in
        allow_all capacity rate (times ++ (now ∷ [])) state ≡ (after, granted + one_if allowed)
  unfolding allow_all
  allow_all-snoc [] now state = ground arith
  allow_all-snoc (t ∷ times) now state =
      ground (arith, allow_all-snoc times now (allow capacity rate t state).0)

  allow_won :
      (now old new : ℕ)
      → attempt capacity rate now old ≡ some new
      → allow capacity rate now old ≡ (new, true)
  unfolding allow
  allow_won now old new h = rw (h, allow)

  abbrev Serial : ℕ → System → Type 0
  Serial word s = allow_all capacity rate s.wins word ≡ (s.word, length s.wins)

  Step-Serial : (word : ℕ) {s t : System} → Step s t → Serial word s → Serial word t
  Step-Serial word (call i now h) k = k
  Step-Serial word (load i now h) k = k
  Step-Serial word (reject i now old h e) k = k
  Step-Serial word (lose i now old new h e n) k = k
  Step-Serial word {s} (exchange i now old new h e same) k = ground (
    arith,
    allow_all-snoc s.wins now word,
    allow_won now old new e,
    length-append s.wins (now ∷ []),
  )

  -- However the threads interleave, the word and the grants are those of the granted calls made
  -- one after the other, each of them granted there too.
  pub Reach_serial :
      {word : ℕ} {s : System}
      → Reach word s
      → allow_all capacity rate s.wins word ≡ (s.word, length s.wins)
  Reach_serial here = unfold allow_all in refl
  Reach_serial {word} (next r st) = Step-Serial word st (Reach_serial r)

-- However the threads interleave on a new bucket: where the granted calls read times that never
-- go back, between its making and `to` below 2 ^ 32, they are at most `capacity` and `rate` more
-- for each second.
pub Reach_bound :
    (capacity rate began to : ℕ) {s : System}
    → Reach capacity rate (new began capacity) s
    → to < 2 ^ 32
    → IsOrdered began to s.wins
    → length s.wins ≤ capacity + (to - began) * rate
Reach_bound capacity rate began to {s} r h ordered = omega (
  arith,
  ap (λ x. x.1) (Reach_serial capacity rate r),
  allow_all_bound capacity rate began to s.wins h ordered,
)
