-- ===== src/MemoryCache/Recent.antt =====
-- What a cache answers.
use mathlib.Core.Option.{some-injective}
use radixip.Base.{
  ℕ, ◌≡◌, sym, subst, ◌∙◌, inl, inr, false, not, Bool-cases, Option, Option-cases, none, some, List,
  [], ◌∷◌, length, leb, Key, find, put, find-put_self, find-put_other, same_false, find-erase_found,
  find-retain_found, if◌then◌else◌, arith,
}
use radixip.Net.{IpAddr}
use radixip.MemoryCache.{
  CacheConfig, CacheEntry, Entries, has_expired, deadline, read_entry, get, evict, insert,
  invalidate_prefix, clear, Call, gets, inserts, invalidates, clears, after, run, new,
}

module _ ⦃k : Key IpAddr⦄ {V : Type 0} (victim : Entries V → Option IpAddr)
    (config : CacheConfig) where
  -- The last insertion for each address that no later invalidation or clear covers.
  abbrev Last : Type 0
  Last = IpAddr → Option (CacheEntry V)

  abbrev pub record_call : Call V → Last → Last
  record_call (gets now ip) last x = last x
  record_call (inserts now ip v) last x =
      if k.same x ip then some (record { value = v; expires_at = deadline config now }) else last x
  record_call (invalidates matches) last x = if matches x then none else last x
  record_call clears last x = none

  abbrev pub record_calls : List (Call V) → Last → Last
  record_calls [] last = last
  record_calls (c ∷ cs) last = record_calls cs (record_call c last)

  -- Every entry is that of the last insertion.
  abbrev IsRecent : Entries V → Last → Type 0
  IsRecent m last = (x : IpAddr) (e : CacheEntry V) → find x m ≡ some e → last x ≡ some e

  find-evict :
      (x : IpAddr) (m : Entries V) (e : CacheEntry V)
      → find x (evict victim config m) ≡ some e
      → find x m ≡ some e
  unfolding evict
  find-evict x m e h = elim (Bool-cases (leb config.max_entries (length m))) [
    | inl p ↦ elim (Option-cases (victim m)) [
      | inl q ↦ rw (p, q, evict) at h
      | inr (key, q) ↦ find-erase_found x key m e (rw (p, q, evict) at h)
    ]
    | inr p ↦ rw (p, evict) at h
  ]

  find-get :
      (now : ℕ) (ip x : IpAddr) (m : Entries V) (e : CacheEntry V)
      → find x (get now ip m).0 ≡ some e
      → find x m ≡ some e
  unfolding get read_entry
  find-get now ip x m e h = elim (Option-cases (find ip m)) [
    | inl p ↦ rw (p, get) at h
    | inr (f, p) ↦ elim (Bool-cases (has_expired now f)) [
      | inl q ↦ find-erase_found x ip m e (rw (get, p, read_entry, q) at h)
      | inr q ↦ rw (get, p, read_entry, q) at h
    ]
  ]

  after-IsRecent :
      (c : Call V) (m : Entries V) (last : Last)
      → IsRecent m last
      → IsRecent (after victim config c m) (record_call c last)
  unfolding after insert invalidate_prefix clear
  after-IsRecent (gets now ip) m last h x e found = h x e (find-get now ip x m e found)
  after-IsRecent (inserts now ip v) m last h x e found =
      let entry : CacheEntry V = record { value = v; expires_at = deadline config now } in
      elim (Bool-cases (k.same x ip)) [
        | inl p ↦
            (let same : x ≡ ip = (k.same_iff x ip).0 p in
              rw p (
                sym (
                  subst (λ y. find y (put ip entry (evict victim config m)) ≡ some entry) (sym same)
                    (find-put_self ip entry (evict victim config m)))
                ∙ found))
        | inr p ↦ rw p (
            h x e (
              find-evict x m e (
                sym (find-put_other x ip entry (evict victim config m) (same_false x ip p))
                ∙ found)))
      ]
  after-IsRecent (invalidates matches) m last h x e found =
      let (was, kept) = find-retain_found (λ y. not (matches y)) x m e found in
      elim (Bool-cases (matches x)) [
        | inl p ↦ absurd (ground (arith, p, kept))
        | inr p ↦ rw p (h x e was)
      ]
  after-IsRecent clears m last h x e found = absurd (cc)

  run-IsRecent :
      (cs : List (Call V)) (m : Entries V) (last : Last)
      → IsRecent m last
      → IsRecent (run victim config cs m) (record_calls cs last)
  unfolding run
  run-IsRecent [] m last h = h
  run-IsRecent (c ∷ cs) m last h =
      run-IsRecent cs (after victim config c m) (record_call c last) (after-IsRecent c m last h)

  -- A value that get answers after any calls on a new cache is that of the last insertion for the
  -- address, which no invalidation or clear has covered since, and it has not run out.
  pub run-get :
      (cs : List (Call V)) (now : ℕ) (ip : IpAddr) (v : V)
      → (get now ip (run victim config cs new)).1 ≡ some v
      → (e : CacheEntry V) × (record_calls cs (λ _. none) ip ≡ some e)
        × (e.value ≡ v)
        × (has_expired now e ≡ false)
  unfolding get read_entry
  run-get cs now ip v h =
      let m = run victim config cs new in
      elim (Option-cases (find ip m)) [
        | inl p ↦ let q : none ≡ some v = rw (get, p) at h in absurd (cc)
        | inr (e, p) ↦ elim (Bool-cases (has_expired now e)) [
          | inl q ↦ let r : none ≡ some v = rw (get, p, read_entry, q) at h in absurd (cc)
          | inr q ↦
              (let r : some e.value ≡ some v = rw (get, p, read_entry, q, p) at h in
                (
                  e,
                  run-IsRecent cs new (λ _. none) (λ x f found. absurd (cc)) ip e p,
                  some-injective _ _ r,
                  q,
                ))
        ]
      ]
