-- ===== src/Xdp/Loader/Sets.antt =====
-- The set of entries of `Maps`, as the list that stands for it.
use radixip.Base.{
  ◌≡◌, ◌≢◌, ◌↔◌, ◌⊎◌, inl, inr, refl, ap, sym, subst, ◌∙◌, true, List, [], ◌∷◌, Bool-cases, arith,
}
use radixip.Xdp.{PrefixNet}
use radixip.Xdp.Loader.{IpNet, v4, v6, same_net, has, add, discard}

module _ {N4 N6 : Type 0} where
  abbrev get_v4 : N4 → IpNet N4 N6 → N4
  get_v4 d (v4 n) = n
  get_v4 d (v6 n) = d

  abbrev get_v6 : N6 → IpNet N4 N6 → N6
  get_v6 d (v4 n) = d
  get_v6 d (v6 n) = n

  pub v4_injective : (n m : N4) → ◌≡◌ {A = IpNet N4 N6} (v4 n) (v4 m) → n ≡ m
  v4_injective n m p = ap (get_v4 n) p

  pub v6_injective : (n m : N6) → ◌≡◌ {A = IpNet N4 N6} (v6 n) (v6 m) → n ≡ m
  v6_injective n m p = ap (get_v6 n) p

module _ {N4 N6 : Type 0} ⦃a : PrefixNet 4 N4⦄ ⦃b : PrefixNet 16 N6⦄ where
  pub same_net_iff : (x y : IpNet N4 N6) → (same_net x y ≡ true) ↔ (x ≡ y)
  same_net_iff (v4 n) (v4 m) =
      (λ p. ap v4 ((a.same_iff n m).0 p), λ p. (a.same_iff n m).1 (v4_injective n m p))
  same_net_iff (v4 n) (v6 m) = (λ p. absurd (ground (arith, p)), λ p. absurd (cc))
  same_net_iff (v6 n) (v4 m) = (λ p. absurd (ground (arith, p)), λ p. absurd (cc))
  same_net_iff (v6 n) (v6 m) =
      (λ p. ap v6 ((b.same_iff n m).0 p), λ p. (b.same_iff n m).1 (v6_injective n m p))

  abbrev pub In : List (IpNet N4 N6) → IpNet N4 N6 → Type 0
  In set x = has x set ≡ true

  pub has-cons :
      (x y : IpNet N4 N6) (set : List (IpNet N4 N6)) → In (y ∷ set) x ↔ ((x ≡ y) ⊎ In set x)
  unfolding has
  has-cons x y set = elim (Bool-cases (same_net x y)) [
    | inl p ↦ (λ _. inl ((same_net_iff x y).0 p), λ _. rw p refl)
    | inr p ↦ (
      λ h. inr (ground (arith, p, h)),
      λ h. elim h [
        | inl e ↦ absurd (ground (arith, p, (same_net_iff x y).1 e))
        | inr i ↦ ground (arith, p, i)
      ],
    )
  ]

  pub has-add :
      (x y : IpNet N4 N6) (set : List (IpNet N4 N6)) → In (add y set) x ↔ ((x ≡ y) ⊎ In set x)
  unfolding add
  has-add x y set = elim (Bool-cases (has y set)) [
    | inl p ↦ rw p (inr, λ h. elim h [ inl e ↦ subst (In set) (sym e) p | inr i ↦ i ])
    | inr p ↦ rw p (has-cons x y set)
  ]

  pub has-discard :
      (x y : IpNet N4 N6) (set : List (IpNet N4 N6)) → In (discard y set) x ↔ (In set x × (x ≢ y))
  unfolding discard has
  has-discard x y [] = (λ h. absurd (ground (arith, h)), λ (h, _). h)
  has-discard x y (z ∷ set) = elim (Bool-cases (same_net y z)) [
    | inl p ↦
        (let e : y ≡ z = (same_net_iff y z).0 p in
          let rest = has-discard x y set in
          rw p (
            λ h. ((has-cons x z set).1 (inr (rest.0 h).0), (rest.0 h).1),
            λ (h, d).
                rest.1
                  (elim ((has-cons x z set).0 h) [ inl q ↦ absurd (d (q ∙ sym e)) | inr i ↦ i ], d),
          ))
    | inr p ↦
        (let rest = has-discard x y set in
          rw p (
            λ h. elim ((has-cons x z (discard y set)).0 h) [
              | inl q ↦ (
                (has-cons x z set).1 (inl q),
                λ e. ground (arith, p, (same_net_iff y z).1 (sym e ∙ q)),
              )
              | inr i ↦ ((has-cons x z set).1 (inr (rest.0 i).0), (rest.0 i).1)
            ],
            λ (h, d).
                (has-cons x z (discard y set)).1
                  (elim ((has-cons x z set).0 h) [ inl q ↦ inl q | inr i ↦ inr (rest.1 (i, d)) ]),
          ))
  ]

  pub has_nothing : (x : IpNet N4 N6) → ¬ In [] x
  unfolding has
  has_nothing x h = ground (arith, h)
