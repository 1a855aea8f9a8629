-- ===== src/Base/Maps.antt =====
-- Maps as association lists, for `HashMap` and `DashMap`: a key stands at most once.
use mathlib.Core.Path.{◌≡◌, refl, sym, ◌∙◌}
use mathlib.Core.Logic.{◌≢◌, ◌↔◌, inl, inr}
use mathlib.Core.Bool.{Bool, true, false}
use mathlib.Core.Option.{Option, none, some}
use mathlib.Core.List.{List, [], ◌∷◌}
use native.Mathlib.Omega.{arith}
use radixip.Base.Tests.{if◌then◌else◌, Bool-cases}

-- Keys with their equality test, `K: Eq + Hash`.
pub record Key (K : Type 0) : Type 0 where
  pub same : K → K → Bool
  pub same_iff : (x y : K) → (same x y ≡ true) ↔ (x ≡ y)

module _ {K : Type 0} ⦃k : Key K⦄ where
  pub same_self : (x : K) → k.same x x ≡ true
  same_self x = (k.same_iff x x).1 refl

  pub same_other : (x y : K) → x ≢ y → k.same x y ≡ false
  same_other x y h = elim (Bool-cases (k.same x y)) [
    | inl p ↦ absurd (h ((k.same_iff x y).0 p))
    | inr p ↦ p
  ]

  pub same_false : (x y : K) → k.same x y ≡ false → x ≢ y
  same_false x y h p = ground (arith, (k.same_iff x y).1 p)

  module _ {V : Type 0} where
    -- `get`
    abbrev pub find : K → List (K × V) → Option V
    find x [] = none
    find x (e ∷ m) = if k.same x e.0 then some e.1 else find x m

    -- `remove`
    abbrev pub erase : K → List (K × V) → List (K × V)
    erase x [] = []
    erase x (e ∷ m) = if k.same x e.0 then erase x m else e ∷ erase x m

    -- `insert`
    abbrev pub put : K → V → List (K × V) → List (K × V)
    put x v m = (x, v) ∷ erase x m

    -- No key stands twice.
    abbrev pub IsMap : List (K × V) → Type 0
    IsMap [] = Unit
    IsMap (e ∷ m) = (find e.0 m ≡ none) × IsMap m

    pub find-erase_self : (x : K) (m : List (K × V)) → find x (erase x m) ≡ none
    find-erase_self x [] = refl
    find-erase_self x (e ∷ m) = ground (arith, find-erase_self x m)

    pub find-erase_other : (x y : K) (m : List (K × V)) → x ≢ y → find x (erase y m) ≡ find x m
    find-erase_other x y [] h = refl
    find-erase_other x y (e ∷ m) h = elim (Bool-cases (k.same y e.0)) [
      | inl p ↦ rw (
        p,
        same_other x e.0 (λ q. h (q ∙ sym ((k.same_iff y e.0).0 p))),
        find-erase_other x y m h,
      )
      | inr p ↦ rw (p, find-erase_other x y m h)
    ]

    pub find-put_self : (x : K) (v : V) (m : List (K × V)) → find x (put x v m) ≡ some v
    find-put_self x v m = rw (same_self x)

    pub find-put_other :
        (x y : K) (v : V) (m : List (K × V)) → x ≢ y → find x (put y v m) ≡ find x m
    find-put_other x y v m h = rw (same_other x y h, find-erase_other x y m h)

    pub erase-IsMap : (x : K) (m : List (K × V)) → IsMap m → IsMap (erase x m)
    erase-IsMap x [] h = tt
    erase-IsMap x (e ∷ m) (h, hs) = elim (Bool-cases (k.same x e.0)) [
      | inl p ↦ rw p (erase-IsMap x m hs)
      | inr p ↦
          rw p (find-erase_other e.0 x m (λ q. same_false x e.0 p (sym q)) ∙ h, erase-IsMap x m hs)
    ]

    pub put-IsMap : (x : K) (v : V) (m : List (K × V)) → IsMap m → IsMap (put x v m)
    put-IsMap x v m h = (find-erase_self x m, erase-IsMap x m h)
