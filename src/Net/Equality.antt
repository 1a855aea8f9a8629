-- ===== src/Net/Equality.antt =====
-- Equality of addresses, `impl Eq for IpAddr`.
use radixip.Base.{
  ℕ, ◌≡◌, refl, subst, ap, ap₂, Bool, true, false, List, [], ◌∷◌, ◌==◌, Key, arith, if◌then◌else◌,
  Bool-cases, inl, inr,
}
use radixip.Net.{IpAddr}

abbrev pub same_octets : List ℕ → List ℕ → Bool
same_octets [] [] = true
same_octets [] (_ ∷ _) = false
same_octets (_ ∷ _) [] = false
same_octets (x ∷ xs) (y ∷ ys) = if x == y then same_octets xs ys else false

abbrev same_ip : IpAddr → IpAddr → Bool
same_ip (IpAddr.v4 x) (IpAddr.v4 y) = same_octets x y
same_ip (IpAddr.v4 _) (IpAddr.v6 _) = false
same_ip (IpAddr.v6 _) (IpAddr.v4 _) = false
same_ip (IpAddr.v6 x) (IpAddr.v6 y) = same_octets x y

pub same_octets→eq : (xs ys : List ℕ) → same_octets xs ys ≡ true → xs ≡ ys
same_octets→eq [] [] h = refl
same_octets→eq [] (y ∷ ys) h = cc
same_octets→eq (x ∷ xs) [] h = cc
same_octets→eq (x ∷ xs) (y ∷ ys) h = elim (Bool-cases (x == y)) [
  | inl p ↦ let e : x ≡ y = ground arith in ap₂ (λ a b. a ∷ b) e (same_octets→eq xs ys (rw p at h))
  | inr p ↦ let q : false ≡ true = rw p at h in cc
]

pub same_octets_refl : (xs : List ℕ) → same_octets xs xs ≡ true
same_octets_refl [] = refl
same_octets_refl (x ∷ xs) = ground (arith, same_octets_refl xs)

pub same_ip→eq : (x y : IpAddr) → same_ip x y ≡ true → x ≡ y
same_ip→eq (IpAddr.v4 x) (IpAddr.v4 y) h = ap IpAddr.v4 (same_octets→eq x y h)
same_ip→eq (IpAddr.v4 _) (IpAddr.v6 _) h = cc
same_ip→eq (IpAddr.v6 _) (IpAddr.v4 _) h = cc
same_ip→eq (IpAddr.v6 x) (IpAddr.v6 y) h = ap IpAddr.v6 (same_octets→eq x y h)

pub same_ip_refl : (x : IpAddr) → same_ip x x ≡ true
same_ip_refl (IpAddr.v4 x) = same_octets_refl x
same_ip_refl (IpAddr.v6 x) = same_octets_refl x

instance abbrev pub ip_key : Key IpAddr
ip_key = record {
  same = same_ip;
  same_iff = λ x y. (same_ip→eq x y, λ e. subst (λ z. same_ip x z ≡ true) e (same_ip_refl x));
}
