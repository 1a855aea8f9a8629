-- ===== src/Xdp/Loader/Normal.antt =====
-- What `normalize` accepts: networks in their canonical form that the configuration admits.
use mathlib.Core.Option.{some-injective}
use radixip.Base.{
  ℕ, zero, suc, ◌+◌, ◌-◌, ◌/◌, ◌%◌, ◌≡◌, inl, inr, refl, ap, sym, subst, ◌∙◌, Bool, true, ◌&&◌,
  none, some, List, [], ◌∷◌, drop, get_or, leb, if◌then◌else◌, ◌>>=◌, Bool-cases, Option-cases,
  arith, leb→le,
}
use radixip.Net.{bit_at}
use radixip.Xdp.{PrefixNet}
use radixip.Xdp.Loader.{
  IpNet, v4, v6, Config, to_ipv4_mapped, trunc, unmap, unmapped, long_enough, free_of, normalize,
}

trunc-trunc :
    {size : ℕ} {N : Type 0} (a : PrefixNet size N) (n : N) → a.trunc (a.trunc n) ≡ a.trunc n
trunc-trunc a n =
    a.trunc_fixed (a.trunc n)
      (λ i p q. a.trunc_clear n i (ground (arith, p, a.prefix_len-trunc n)) q)

get_or-drop : (k : ℕ) (o : List ℕ) (j : ℕ) → get_or (drop k o) j 0 ≡ get_or o (k + j) 0
get_or-drop zero o j = let e : j ≡ 0 + j = omega arith in ap (λ (n : ℕ). get_or o n 0) e
get_or-drop (suc k) [] j = refl
get_or-drop (suc k) (x ∷ o) j =
    let e : suc (k + j) ≡ suc k + j = omega arith in
    get_or-drop k o j ∙ ap (λ (n : ℕ). get_or (x ∷ o) n 0) e

bit_at-drop : (o : List ℕ) (i : ℕ) → bit_at (drop 12 o) i ≡ bit_at o (96 + i)
bit_at-drop o i =
    let quotient : (96 + i) / 8 ≡ 12 + i / 8 = omega arith in
    let remainder : (96 + i) % 8 ≡ i % 8 = omega arith in
    rw (quotient, remainder, get_or-drop 12 o (i / 8)) refl

if_some :
    {A : Type 0} (c : Bool) (x y : A) → (if c then some x else none) ≡ some y → (c ≡ true) × (x ≡ y)
if_some c x y h = ground (arith, h)

to_ipv4_mapped_lem : (o q : List ℕ) → to_ipv4_mapped o ≡ some q → drop 12 o ≡ q
unfolding to_ipv4_mapped
to_ipv4_mapped_lem o q h = (if_some _ (drop 12 o) q h).1

module _ {N4 N6 : Type 0} ⦃a : PrefixNet 4 N4⦄ ⦃b : PrefixNet 16 N6⦄ where
  abbrev pub IsCanonical : IpNet N4 N6 → Type 0
  IsCanonical net = trunc net ≡ net

  -- What the configuration admits to the maps.
  abbrev pub IsAdmitted : Config N4 N6 → IpNet N4 N6 → Type 0
  IsAdmitted config net =
      IsCanonical net × (long_enough config net ≡ true) × (free_of net config.never_block ≡ true)

  mapped-IsCanonical :
      (n : N6) (o : List ℕ) (m : N4)
      → b.trunc n ≡ n
      → leb 96 (b.prefix_len n) ≡ true
      → to_ipv4_mapped (b.addr (b.trunc n)) ≡ some o
      → a.new o (b.prefix_len n - 96) ≡ some m
      → a.trunc m ≡ m
  mapped-IsCanonical n o m hn long mapped new =
      let (p, q) = a.new_some o (b.prefix_len n - 96) m new in
      let tail = to_ipv4_mapped_lem (b.addr (b.trunc n)) o mapped in
      a.trunc_fixed m (λ i low high.
        ap (λ l. bit_at l i) (p ∙ sym tail)
        ∙ bit_at-drop (b.addr (b.trunc n)) i
        ∙ b.trunc_clear n (96 + i) (ground (arith, low, q, leb→le 96 (b.prefix_len n) long))
            (ground (arith, high)))

  unmap-IsCanonical :
      (n : N6) (net : IpNet N4 N6) → b.trunc n ≡ n → unmap n ≡ some net → IsCanonical net
  unfolding unmap
  unmap-IsCanonical n net hn = elim (Bool-cases (leb 96 (b.prefix_len n))) [
    | inl long ↦ elim (Option-cases (to_ipv4_mapped (b.addr (b.trunc n)))) [
      | inl p ↦ rw (long, p) (λ h. subst IsCanonical (some-injective _ _ h) (ap v6 hn))
      | inr (o, p) ↦ elim (Option-cases (a.new o (b.prefix_len n - 96))) [
        | inl q ↦ rw (long, p, q) (λ h. absurd (cc))
        | inr (m, q) ↦
            rw (long, p, q)
              (λ h.
                subst IsCanonical (some-injective _ _ h)
                  (ap v4 (mapped-IsCanonical n o m hn long p q)))
      ]
    ]
    | inr short ↦ rw short (λ h. subst IsCanonical (some-injective _ _ h) (ap v6 hn))
  ]

  unmapped-IsCanonical : (x net : IpNet N4 N6) → unmapped (trunc x) ≡ some net → IsCanonical net
  unfolding unmapped
  unmapped-IsCanonical (v4 n) net h =
      subst IsCanonical (some-injective _ _ h) (ap v4 (trunc-trunc a n))
  unmapped-IsCanonical (v6 n) net h = unmap-IsCanonical (b.trunc n) net (trunc-trunc b n) h

  pub normalize-IsAdmitted :
      (config : Config N4 N6) (x net : IpNet N4 N6)
      → normalize config x ≡ some net
      → IsAdmitted config net
  unfolding normalize
  normalize-IsAdmitted config x net h = elim (Option-cases (unmapped (trunc x))) [
    | inl p ↦ absurd (ground (arith, p, h))
    | inr (y, p) ↦
        (let (c, e) = if_some (long_enough config y && free_of y config.never_block) y net (
            subst
              (λ o.
                (o >>= λ net.
                if long_enough config net && free_of net config.never_block then some net else none)
                ≡ some net)
              p h) in
          subst (IsAdmitted config) e
            (unmapped-IsCanonical x y p, ground (arith, c), ground (arith, c)))
  ]
