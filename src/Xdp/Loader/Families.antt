-- ===== src/Xdp/Loader/Families.antt =====
-- The entries of one family, and what an addition and a removal make of them.
use radixip.Base.{◌≡◌, ◌≢◌, ◌↔◌, ◌⊎◌, inl, inr, ap, List}
use radixip.Xdp.{PrefixNet}
use radixip.Xdp.Loader.{IpNet, v4, v6, add, discard}
use radixip.Xdp.Loader.Sets.{In, v4_injective, v6_injective, has-add, has-discard}

module _ {N4 N6 : Type 0} ⦃a : PrefixNet 4 N4⦄ ⦃b : PrefixNet 16 N6⦄ where
  abbrev pub Only4 : List (IpNet N4 N6) → N4 → Type 0
  Only4 set n = In set (v4 n)

  abbrev pub Only6 : List (IpNet N4 N6) → N6 → Type 0
  Only6 set n = In set (v6 n)

  -- What an addition does to the networks of one family.
  pub add4 :
      (n m : N4) (set : List (IpNet N4 N6)) → Only4 (add (v4 n) set) m ↔ ((m ≡ n) ⊎ Only4 set m)
  add4 n m set =
      let law = has-add (v4 m) (v4 n) set in
      (
        λ h. elim (law.0 h) [ inl e ↦ inl (v4_injective m n e) | inr i ↦ inr i ],
        λ h. law.1 (elim h [ inl e ↦ inl (ap v4 e) | inr i ↦ inr i ]),
      )

  pub add6 :
      (n m : N6) (set : List (IpNet N4 N6)) → Only6 (add (v6 n) set) m ↔ ((m ≡ n) ⊎ Only6 set m)
  add6 n m set =
      let law = has-add (v6 m) (v6 n) set in
      (
        λ h. elim (law.0 h) [ inl e ↦ inl (v6_injective m n e) | inr i ↦ inr i ],
        λ h. law.1 (elim h [ inl e ↦ inl (ap v6 e) | inr i ↦ inr i ]),
      )

  pub add46 : (n : N4) (m : N6) (set : List (IpNet N4 N6)) → Only6 (add (v4 n) set) m ↔ Only6 set m
  add46 n m set =
      let law = has-add (v6 m) (v4 n) set in
      (λ h. elim (law.0 h) [ inl e ↦ absurd (cc) | inr i ↦ i ], λ h. law.1 (inr h))

  pub add64 : (n : N6) (m : N4) (set : List (IpNet N4 N6)) → Only4 (add (v6 n) set) m ↔ Only4 set m
  add64 n m set =
      let law = has-add (v4 m) (v6 n) set in
      (λ h. elim (law.0 h) [ inl e ↦ absurd (cc) | inr i ↦ i ], λ h. law.1 (inr h))

  pub discard4 :
      (n m : N4) (set : List (IpNet N4 N6)) → Only4 (discard (v4 n) set) m ↔ (Only4 set m × (m ≢ n))
  discard4 n m set =
      let law = has-discard (v4 m) (v4 n) set in
      (
        λ h. ((law.0 h).0, λ e. (law.0 h).1 (ap v4 e)),
        λ (h, d). law.1 (h, λ e. d (v4_injective m n e)),
      )

  pub discard6 :
      (n m : N6) (set : List (IpNet N4 N6)) → Only6 (discard (v6 n) set) m ↔ (Only6 set m × (m ≢ n))
  discard6 n m set =
      let law = has-discard (v6 m) (v6 n) set in
      (
        λ h. ((law.0 h).0, λ e. (law.0 h).1 (ap v6 e)),
        λ (h, d). law.1 (h, λ e. d (v6_injective m n e)),
      )

  pub discard46 :
      (n : N4) (m : N6) (set : List (IpNet N4 N6)) → Only6 (discard (v4 n) set) m ↔ Only6 set m
  discard46 n m set =
      let law = has-discard (v6 m) (v4 n) set in
      (λ h. (law.0 h).0, λ h. law.1 (h, λ e. absurd (cc)))

  pub discard64 :
      (n : N6) (m : N4) (set : List (IpNet N4 N6)) → Only4 (discard (v6 n) set) m ↔ Only4 set m
  discard64 n m set =
      let law = has-discard (v4 m) (v6 n) set in
      (λ h. (law.0 h).0, λ h. law.1 (h, λ e. absurd (cc)))
