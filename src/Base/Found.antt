-- ===== src/Base/Found.antt =====
-- What is found in a map after a removal or `retain`, and how many entries are left.
use Prim.Native.Nat.{◌≤◌, ◌<◌}
use mathlib.Core.Path.{◌≡◌, sym, subst, ap, ◌∙◌}
use mathlib.Core.Logic.{inl, inr}
use mathlib.Core.Bool.{Bool, true, false}
use mathlib.Core.Option.{none, some}
use mathlib.Core.List.{List, [], ◌∷◌}
use native.Mathlib.Omega.{arith}
use radixip.Base.Tests.{Bool-cases}
use radixip.Base.Lists.{length, retain}
use radixip.Base.Maps.{Key, find, erase, same_false, find-erase_self, find-erase_other}

module _ {K V : Type 0} ⦃k : Key K⦄ where
  pub find-erase_found :
      (ip key : K) (m : List (K × V)) (r : V) → find ip (erase key m) ≡ some r → find ip m ≡ some r
  find-erase_found ip key m r h = elim (Bool-cases (k.same ip key)) [
    | inl p ↦
        let gone : find ip (erase key m) ≡ none =
          subst (λ y. find ip (erase y m) ≡ none) ((k.same_iff ip key).0 p)
            (find-erase_self ip m) in
        cc
    | inr p ↦ sym (find-erase_other ip key m (same_false ip key p)) ∙ h
  ]

  pub find-retain_found :
      (keep : K → Bool) (ip : K) (m : List (K × V)) (r : V)
      → find ip (retain (λ e. keep e.0) m) ≡ some r
      → (find ip m ≡ some r) × (keep ip ≡ true)
  find-retain_found keep ip [] r h = cc
  find-retain_found keep ip (x ∷ m) r h = elim (Bool-cases (k.same ip x.0)) [
    | inl p ↦
        let q : ip ≡ x.0 = (k.same_iff ip x.0).0 p in
        elim (Bool-cases (keep x.0)) [
          | inl d ↦ (rw p (rw (d, p) at h), ap keep q ∙ d)
          | inr d ↦
              let (_, kept) = find-retain_found keep ip m r (rw d at h) in
              let no : false ≡ true = sym d ∙ ap keep (sym q) ∙ kept in cc
        ]
    | inr p ↦ elim (Bool-cases (keep x.0)) [
      | inl d ↦ rw p (find-retain_found keep ip m r (rw (d, p) at h))
      | inr d ↦ rw p (find-retain_found keep ip m r (rw d at h))
    ]
  ]

  pub length-erase_le : (x : K) (m : List (K × V)) → length (erase x m) ≤ length m
  length-erase_le x [] = omega arith
  length-erase_le x (e ∷ m) = elim (Bool-cases (k.same x e.0)) [
    | inl p ↦ rw p (omega (arith, length-erase_le x m))
    | inr p ↦ rw p (omega (arith, length-erase_le x m))
  ]

  pub length-erase_lt :
      (x : K) (m : List (K × V)) (v : V) → find x m ≡ some v → length (erase x m) < length m
  length-erase_lt x [] v h = cc
  length-erase_lt x (e ∷ m) v h = elim (Bool-cases (k.same x e.0)) [
    | inl p ↦ rw p (omega (arith, length-erase_le x m))
    | inr p ↦ rw p (omega (arith, length-erase_lt x m v (rw p at h)))
  ]

  pub length-retain_le :
      (keep : K × V → Bool) (m : List (K × V)) → length (retain keep m) ≤ length m
  length-retain_le keep [] = omega arith
  length-retain_le keep (e ∷ m) = elim (Bool-cases (keep e)) [
    | inl p ↦ rw p (omega (arith, length-retain_le keep m))
    | inr p ↦ rw p (omega (arith, length-retain_le keep m))
  ]
