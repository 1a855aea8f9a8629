-- ===== src/CachedEngine/Coherence.antt =====
-- When the cache of lib/rust/engine/src/cache.rs answers as the engine behind it.
use Prim.Native.String.{String}
use radixip.Base.{
  ℕ, ◌≡◌, refl, sym, ap, ◌∙◌, inl, inr, true, false, Bool-cases, not, Option, Option-cases, some,
  List, [], ◌∷◌, All, Key, find, Result, ok, err,
}
use radixip.Net.{IpAddr, IsAddress, Network, IpNetwork}
use radixip.Lpm.{network_contains_ip}
use radixip.RadixEngine.{RadixEngine}
use radixip.CachedEngine.{
  CachedEngine, Entries, new, evict, invalidate, fetch, lookup, inserted, insert, remove, clear,
}
use radixip.CachedEngine.Eviction.{find-evict_found}
use radixip.Base.{find-erase_found, find-retain_found}

pub data Family : Type 0 where
  four six : Family

abbrev pub family : IpAddr → Family
family (IpAddr.v4 _) = four
family (IpAddr.v6 _) = six

abbrev pub family_of : {N4 N6 : Type 0} → IpNetwork N4 N6 → Family
family_of (IpNetwork.v4 _) = four
family_of (IpNetwork.v6 _) = six

-- An address of the family.
abbrev pub IsOf : Family → IpAddr → Type 0
IsOf f ip = (family ip ≡ f) × IsAddress ip

module _ {N4 N6 : Type 0} ⦃a : Network 4 N4⦄ ⦃b : Network 16 N6⦄ {E M : Type 0}
    (t : RadixEngine E (IpNetwork N4 N6) IpAddr M) where
  abbrev pub answer : E → IpAddr → Option M
  answer e ip = (t.lookup e ip).1

  -- What the cache relies on: a lookup changes no answer, an insertion or a removal of a network of
  -- the family changes answers to its addresses inside that network alone, and an insertion that
  -- fails changes none.
  pub record IsLocal (f : Family) : Type 0 where
    pub lookup_keeps : (e : E) (ip other : IpAddr) → answer (t.lookup e ip).0 other ≡ answer e other
    pub insert_local :
        (e : E) (p : IpNetwork N4 N6) (m : M) (ip : IpAddr)
        → family_of p ≡ f
        → IsOf f ip
        → network_contains_ip p ip ≡ false
        → answer (t.insert e p m).0 ip ≡ answer e ip
    pub insert_failed :
        (e : E) (p : IpNetwork N4 N6) (m : M) (ip : IpAddr) (x : String)
        → (t.insert e p m).1 ≡ err x
        → answer (t.insert e p m).0 ip ≡ answer e ip
    pub remove_local :
        (e : E) (p : IpNetwork N4 N6) (ip : IpAddr)
        → family_of p ≡ f
        → IsOf f ip
        → network_contains_ip p ip ≡ false
        → answer (t.remove e p).0 ip ≡ answer e ip

  pub data Op : Type 0 where
    inserts : IpNetwork N4 N6 → M → Op
    lookups : IpAddr → Op
    removes : IpNetwork N4 N6 → Op
    clears : Op

  -- Insertions and removals are of networks of the family; lookups are of any addresses.
  abbrev pub IsCall : Family → Op → Type 0
  IsCall f (inserts p m) = family_of p ≡ f
  IsCall f (removes p) = family_of p ≡ f
  IsCall f (lookups _) = Unit
  IsCall f clears = Unit

  module _ ⦃k : Key IpAddr⦄ where
    -- Calls one after the other.
    unfoldable pub step :
        (victim : Entries M → Option IpAddr) (max_entries : ℕ)
        → CachedEngine E M
        → Op
        → CachedEngine E M
    step victim max_entries s (inserts p m) = (insert t victim max_entries s p m).0
    step victim max_entries s (lookups ip) = (lookup t victim max_entries s ip).0
    step victim max_entries s (removes p) = (remove t victim max_entries s p).0
    step victim max_entries s clears = clear t victim max_entries s

    unfoldable pub run :
        (victim : Entries M → Option IpAddr) (max_entries : ℕ)
        → List Op
        → CachedEngine E M
        → CachedEngine E M
    run victim max_entries [] s = s
    run victim max_entries (op ∷ ops) s = run victim max_entries ops (step victim max_entries s op)

    module _ (victim : Entries M → Option IpAddr) (max_entries : ℕ) (f : Family)
        (local : IsLocal f) where
      -- Every entry of an address of the family is what the engine would answer.
      abbrev IsCoherent : CachedEngine E M → Type 0
      IsCoherent s =
          (ip : IpAddr) (r : Option M)
          → IsOf f ip
          → find ip s.cache ≡ some r
          → answer s.inner ip ≡ r

      invalidate-IsCoherent :
          (s : CachedEngine E M) (p : IpNetwork N4 N6) (after : E)
          → IsCoherent s
          → ((ip : IpAddr)
              → IsOf f ip
              → network_contains_ip p ip ≡ false
              → answer after ip ≡ answer s.inner ip)
          → IsCoherent (record { cache = invalidate p s.cache; inner = after })
      unfolding invalidate
      invalidate-IsCoherent s p after h keeps ip r of e =
          let (was, kept) = find-retain_found (λ x. not (network_contains_ip p x)) ip s.cache r e in
          elim (Bool-cases (network_contains_ip p ip)) [
            | inl d ↦ let no : false ≡ true = rw d at kept in cc
            | inr d ↦ keeps ip of d ∙ h ip r of was
          ]

      fetch-IsCoherent :
          (s : CachedEngine E M) (ip : IpAddr)
          → IsCoherent s
          → IsCoherent (fetch t victim max_entries s ip).0
      unfolding fetch
      fetch-IsCoherent s ip h other r of e =
          let cache : Entries M = evict victim max_entries s.cache in
          elim (Bool-cases (k.same other ip)) [
            | inl p ↦
                let q : other ≡ ip = (k.same_iff other ip).0 p in
                let stored : some (answer s.inner ip) ≡ some r = rw p at e in
                let res : answer s.inner ip ≡ r = cc in
                local.lookup_keeps s.inner ip other ∙ ap (answer s.inner) q ∙ res
            | inr p ↦
                local.lookup_keeps s.inner ip other
                ∙ h other r of (
                    find-evict_found victim max_entries other s.cache r
                      (find-erase_found other ip cache r (rw p at e)))
          ]

      lookup-IsCoherent :
          (s : CachedEngine E M) (ip : IpAddr)
          → IsCoherent s
          → IsCoherent (lookup t victim max_entries s ip).0
      unfolding lookup
      lookup-IsCoherent s ip h = elim (Option-cases (find ip s.cache)) [
        | inl e ↦ rw (e, lookup) (fetch-IsCoherent s ip h)
        | inr (r, e) ↦ rw (e, lookup) h
      ]

      lookup-eq-answer :
          (s : CachedEngine E M) (ip : IpAddr)
          → IsOf f ip
          → IsCoherent s
          → (lookup t victim max_entries s ip).1 ≡ answer s.inner ip
      unfolding lookup fetch
      lookup-eq-answer s ip of h = elim (Option-cases (find ip s.cache)) [
        | inl e ↦ rw (e, lookup) refl
        | inr (r, e) ↦ rw (e, lookup) (sym (h ip r of e))
      ]

      inserted-IsCoherent :
          (s : CachedEngine E M) (p : IpNetwork N4 N6) (m : M) (result : Result (Unit {0}) String)
          → family_of p ≡ f
          → (t.insert s.inner p m).1 ≡ result
          → IsCoherent s
          → IsCoherent
              (inserted t victim max_entries
                (record s { inner = (t.insert s.inner p m).0 })
                p
                result).0
      unfolding inserted
      inserted-IsCoherent s p m (ok u) same e h =
          invalidate-IsCoherent s p (t.insert s.inner p m).0 h
            (λ ip of out. local.insert_local s.inner p m ip same of out)
      inserted-IsCoherent s p m (err x) same e h =
          λ ip r of found. local.insert_failed s.inner p m ip x e ∙ h ip r of found

      step-IsCoherent :
          (s : CachedEngine E M) (op : Op)
          → IsCall f op
          → IsCoherent s
          → IsCoherent (step victim max_entries s op)
      unfolding step clear insert remove
      step-IsCoherent s (inserts p m) same h =
          inserted-IsCoherent s p m (t.insert s.inner p m).1 same refl h
      step-IsCoherent s (lookups ip) same h = lookup-IsCoherent s ip h
      step-IsCoherent s (removes p) same h =
          invalidate-IsCoherent s p (t.remove s.inner p).0 h
            (λ ip of out. local.remove_local s.inner p ip same of out)
      step-IsCoherent s clears same h = λ ip r of found. cc

      run-IsCoherent :
          (ops : List Op) (s : CachedEngine E M)
          → All (IsCall f) ops
          → IsCoherent s
          → IsCoherent (run victim max_entries ops s)
      unfolding run
      run-IsCoherent [] s calls h = h
      run-IsCoherent (op ∷ ops) s (call, calls) h =
          run-IsCoherent ops (step victim max_entries s op) calls (step-IsCoherent s op call h)

      -- A lookup after such calls.
      pub run-lookup-eq-answer :
          (ops : List Op) (e : E) (ip : IpAddr)
          → All (IsCall f) ops
          → IsOf f ip
          → let s = run victim max_entries ops (new e) in
            (lookup t victim max_entries s ip).1 ≡ answer s.inner ip
      unfolding new
      run-lookup-eq-answer ops e ip calls of =
          lookup-eq-answer (run victim max_entries ops (new e)) ip of
            (run-IsCoherent ops (new e) calls (λ x r o found. cc))
