-- ===== src/Examples/Caches.antt =====
-- A cache that never evicts, as a list of its entries.
use radixip.Base.{
  ℕ, ◌≡◌, refl, sym, subst, ap, ap₂, inl, inr, Bool, true, false, Bool-cases, Option, none, some,
  List, ◌==◌, Key, find, put, find-put_self, if◌then◌else◌, arith,
}
use radixip.Net.{IpAddr, IpNetwork}
use radixip.Net.Equality.{ip_key}
use radixip.Policy.Limiter.{BucketKey, Cache}
use radixip.Examples.Networks.{Cidr}

module _ {K : Type 0} ⦃k : Key K⦄ where
  abbrev got : List (K × ℕ) → K → ℕ → Option ℕ → List (K × ℕ) × ℕ
  got c x init none = (put x init c, init)
  got c x init (some w) = (c, w)

  pub got_present :
      (c : List (K × ℕ)) (x : K) (init w : ℕ)
      → find x c ≡ some w
      → ((got c x init (find x c)).1 ≡ w) × (find x (got c x init (find x c)).0 ≡ some w)
  got_present c x init w e =
      subst (λ o. ((got c x init o).1 ≡ w) × (find x (got c x init o).0 ≡ some w)) (sym e) (refl, e)

  pub got_absent :
      (c : List (K × ℕ)) (x : K) (init : ℕ)
      → find x c ≡ none
      → ((got c x init (find x c)).1 ≡ init) × (find x (got c x init (find x c)).0 ≡ some init)
  got_absent c x init e =
      subst (λ o. ((got c x init o).1 ≡ init) × (find x (got c x init o).0 ≡ some init)) (sym e)
        (refl, find-put_self x init c)

  unfoldable pub list_cache : Cache (List (K × ℕ)) K
  list_cache = record {
    bucket = λ c x. find x c;
    get_with = λ c x init. got c x init (find x c);
    stored = λ c x w. put x w c;
    get_with_present = λ c x init w e. got_present c x init w e;
    get_with_absent = λ c x init e. got_absent c x init e;
    stored_bucket = λ c x v w e. find-put_self x w c;
  }

abbrev same_cidr : Cidr → Cidr → Bool
same_cidr n m =
    if ip_key.same (IpAddr.v4 n.octets) (IpAddr.v4 m.octets) then n.len == m.len else false

abbrev same_key : BucketKey Cidr Cidr → BucketKey Cidr Cidr → Bool
same_key (BucketKey.exact x) (BucketKey.exact y) = ip_key.same x y
same_key (BucketKey.subnet (IpNetwork.v4 n)) (BucketKey.subnet (IpNetwork.v4 m)) = same_cidr n m
same_key (BucketKey.subnet (IpNetwork.v6 n)) (BucketKey.subnet (IpNetwork.v6 m)) = same_cidr n m
same_key (BucketKey.exact _) (BucketKey.subnet _) = false
same_key (BucketKey.subnet _) (BucketKey.exact _) = false
same_key (BucketKey.subnet (IpNetwork.v4 _)) (BucketKey.subnet (IpNetwork.v6 _)) = false
same_key (BucketKey.subnet (IpNetwork.v6 _)) (BucketKey.subnet (IpNetwork.v4 _)) = false

abbrev octets_of : IpAddr → List ℕ
octets_of (IpAddr.v4 o) = o
octets_of (IpAddr.v6 o) = o

pub same_cidr→eq : (n m : Cidr) → same_cidr n m ≡ true → n ≡ m
same_cidr→eq n m h = elim (Bool-cases (ip_key.same (IpAddr.v4 n.octets) (IpAddr.v4 m.octets))) [
  | inl p ↦
      let o : n.octets ≡ m.octets =
        ap octets_of {x = IpAddr.v4 n.octets} {y = IpAddr.v4 m.octets}
          ((ip_key.same_iff _ _).0 p) in
      let q : (n.len == m.len) ≡ true = rw p at h in
      let l : n.len ≡ m.len = ground arith in ap₂ (λ x y. record { octets = x; len = y }) o l
  | inr p ↦ let q : false ≡ true = rw p at h in cc
]

pub same_cidr_refl : (n : Cidr) → same_cidr n n ≡ true
same_cidr_refl n =
    rw ((ip_key.same_iff (IpAddr.v4 n.octets) (IpAddr.v4 n.octets)).1 refl) (ground arith)

pub same_key→eq : (x y : BucketKey Cidr Cidr) → same_key x y ≡ true → x ≡ y
same_key→eq (BucketKey.exact x) (BucketKey.exact y) h =
    ap BucketKey.exact ((ip_key.same_iff x y).0 h)
same_key→eq (BucketKey.exact _) (BucketKey.subnet _) h = cc
same_key→eq (BucketKey.subnet _) (BucketKey.exact _) h = cc
same_key→eq (BucketKey.subnet (IpNetwork.v4 n)) (BucketKey.subnet (IpNetwork.v4 m)) h =
    ap (λ c. BucketKey.subnet (IpNetwork.v4 c)) (same_cidr→eq n m h)
same_key→eq (BucketKey.subnet (IpNetwork.v4 _)) (BucketKey.subnet (IpNetwork.v6 _)) h = cc
same_key→eq (BucketKey.subnet (IpNetwork.v6 _)) (BucketKey.subnet (IpNetwork.v4 _)) h = cc
same_key→eq (BucketKey.subnet (IpNetwork.v6 n)) (BucketKey.subnet (IpNetwork.v6 m)) h =
    ap (λ c. BucketKey.subnet (IpNetwork.v6 c)) (same_cidr→eq n m h)

pub same_key_refl : (x : BucketKey Cidr Cidr) → same_key x x ≡ true
same_key_refl (BucketKey.exact x) = (ip_key.same_iff x x).1 refl
same_key_refl (BucketKey.subnet (IpNetwork.v4 n)) = same_cidr_refl n
same_key_refl (BucketKey.subnet (IpNetwork.v6 n)) = same_cidr_refl n

instance abbrev pub bucket_key : Key (BucketKey Cidr Cidr)
bucket_key = record {
  same = same_key;
  same_iff = λ x y. (same_key→eq x y, λ e. subst (λ z. same_key x z ≡ true) e (same_key_refl x));
}
