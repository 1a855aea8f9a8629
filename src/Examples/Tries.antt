-- ===== src/Examples/Tries.antt =====
-- A concrete trie of the kernel, on which the hypotheses about the crate `aya` hold.
use radixip.Base.{
  false, ℕ, zero, suc, ◌≤◌, ◌<◌, ◌≡◌, ◌≢◌, ◌↔◌, ◌⊎◌, inl, inr, refl, ap, ap₂, sym, subst, ◌∙◌, true,
  Option, none, some, List, [], ◌∷◌, length, get_or, ◌==◌, if◌then◌else◌, Bool-cases, Option-cases,
  arith,
}
use radixip.Net.{bit_at}
use radixip.Net.Equality.{same_octets, same_octets→eq, same_octets_refl}
use radixip.Xdp.{Agree, IsSameKey, LpmTrie}

-- The first bits of an address, the last one first.
abbrev pub bits : ℕ → List ℕ → List ℕ
bits zero x = []
bits (suc n) x = bit_at x n ∷ bits n x

length-bits : (n : ℕ) (x : List ℕ) → length (bits n x) ≡ n
length-bits zero x = refl
length-bits (suc n) x = omega (arith, length-bits n x)

pub bits_same : (n : ℕ) (x y : List ℕ) → Agree n x y → bits n x ≡ bits n y
bits_same zero x y h = refl
bits_same (suc n) x y h =
    ap₂ (λ b l. b ∷ l) (h n (omega arith)) (bits_same n x y (λ i l. h i (omega arith)))

bits-Agree : (n : ℕ) (x y : List ℕ) → bits n x ≡ bits n y → Agree n x y
bits-Agree zero x y h i l = absurd (omega arith)
bits-Agree (suc n) x y h i l = elim (near i n l) [
  | inl e ↦ subst (λ j. bit_at x j ≡ bit_at y j) (sym e) (ap (λ b. get_or b 0 0) h)
  | inr less ↦ bits-Agree n x y (ap tail h) i less
]
  where
    near : (i n : ℕ) → i < suc n → (i ≡ n) ⊎ (i < n)
    near i n l = ground arith

    tail : List ℕ → List ℕ
    tail [] = []
    tail (_ ∷ l) = l

pub bits-IsSameKey :
    (len len' : ℕ) (key key' : List ℕ)
    → IsSameKey len len' key key' ↔ (bits len' key' ≡ bits len key)
bits-IsSameKey len len' key key' = (
  λ (e, h). bits_same len' key' key (λ i l. h i (subst (λ n. i < n) e l)) ∙ ap (λ n. bits n key) e,
  λ h.
      (let e : len' ≡ len =
          sym (length-bits len' key') ∙ ap (λ l. length l) h ∙ length-bits len key in
        (e, bits-Agree len key' key (ap (λ n. bits n key') (sym e) ∙ h))),
)

-- A trie: the value under each sequence of bits.
abbrev pub Trie : Type 0
Trie = List ℕ → Option ℕ

abbrev pub set_value : Trie → List ℕ → Option ℕ → Trie
set_value t k v b = if same_octets b k then v else t b

-- The longest entry of at most `n` bits.
abbrev pub longest : Trie → (n : ℕ) (addr : List ℕ) → Option ℕ
longest t zero addr = t []
longest t (suc n) addr =
    let rest = longest t n addr in elim (t (bits (suc n) addr)) [ some v ↦ some v | none ↦ rest ]

pub longest-some :
    (t : Trie) (n : ℕ) (addr : List ℕ) (v : ℕ)
    → longest t n addr ≡ some v
    → (len : ℕ) × (t (bits len addr) ≡ some v) × (len ≤ n)
longest-some t zero addr v h = (0, h, omega arith)
longest-some t (suc n) addr v h = elim (Option-cases (t (bits (suc n) addr))) [
  | inl p ↦
      (let (len, e, l) = longest-some t n addr v (ground (arith, p, h)) in (len, e, omega arith))
  | inr (w, p) ↦ (suc n, ground (arith, p, h), omega arith)
]

pub longest-none :
    (t : Trie) (n : ℕ) (addr : List ℕ) (len : ℕ) (v : ℕ)
    → longest t n addr ≡ none
    → len ≤ n
    → t (bits len addr) ≢ some v
longest-none t zero addr zero v h l p = ground (arith, h, p)
longest-none t zero addr (suc len) v h l p = absurd (omega arith)
longest-none t (suc n) addr len v h l p = elim (Option-cases (t (bits (suc n) addr))) [
  | inr (w, q) ↦ absurd (ground (arith, q, h))
  | inl q ↦ elim (Bool-cases (len == suc n)) [
    | inl e ↦
        (let same : len ≡ suc n = ground (arith, e) in
          absurd (ground (arith, q, subst (λ m. t (bits m addr) ≡ some v) same p)))
    | inr e ↦ longest-none t n addr len v (ground (arith, q, h)) (ground (arith, e, l)) p
  ]
]

pub set_value_iff :
    (t : Trie) (k b : List ℕ) (v w : ℕ)
    → (set_value t k (some v) b ≡ some w) ↔ (((b ≡ k) × (w ≡ v)) ⊎ ((t b ≡ some w) × (b ≢ k)))
set_value_iff t k b v w = elim (Bool-cases (same_octets b k)) [
  | inl p ↦
      (let e = same_octets→eq b k p in
        (
          λ h. inl (e, ground (arith, p, h)),
          λ h. elim h [ inl (_, q) ↦ ground (arith, p, q) | inr (_, d) ↦ absurd (d e) ],
        ))
  | inr p ↦
      (let d : b ≢ k =
          λ e. ground (arith, p, subst (λ x. same_octets b x ≡ true) e (same_octets_refl b)) in
        (
          λ h. inr (ground (arith, p, h), d),
          λ h. elim h [ inl (e, _) ↦ absurd (d e) | inr (q, _) ↦ ground (arith, p, q) ],
        ))
]

pub set_none_iff :
    (t : Trie) (k b : List ℕ) (w : ℕ) → (set_value t k none b ≡ some w) ↔ ((t b ≡ some w) × (b ≢ k))
set_none_iff t k b w = elim (Bool-cases (same_octets b k)) [
  | inl p ↦ (λ h. absurd (ground (arith, p, h)), λ (_, d). absurd (d (same_octets→eq b k p)))
  | inr p ↦ (
    λ h. (
      ground (arith, p, h),
      λ e. ground (arith, p, subst (λ x. same_octets b x ≡ true) e (same_octets_refl b)),
    ),
    λ (q, _). ground (arith, p, q),
  )
]

pub never : ¬ (true ≡ false)
never h = cc

abbrev pub tries : LpmTrie Trie
tries = record {
  get = longest;
  insert = λ t len key v. (set_value t (bits len key) (some v), true);
  remove = λ t len key. (set_value t (bits len key) none, true);
  Stored = λ t len key w. t (bits len key) ≡ some w;
  get_some = λ t n addr v h.
      (let (len, e, l) = longest-some t n addr v h in (len, addr, e, l, λ i _. refl));
  get_none = λ t n addr len key v h s l g.
      longest-none t n addr len v h l (ap t (bits_same len addr key g) ∙ s);
  insert_ok = λ t len key v len' key' w _.
      (let law = set_value_iff t (bits len key) (bits len' key') v w in
        let key = bits-IsSameKey len len' key key' in
        (
          λ h. elim (law.0 h) [
            | inl (e, q) ↦ inl (key.1 e, q)
            | inr (s, d) ↦ inr (s, λ k. d (key.0 k))
          ],
          λ h.
              law.1
                (elim h [ inl (k, q) ↦ inl (key.0 k, q) | inr (s, d) ↦ inr (s, λ e. d (key.1 e)) ]),
        ));
  insert_err = λ t len key v h. absurd (never h);
  remove_iff = λ t len key len' key' w.
      (let law = set_none_iff t (bits len key) (bits len' key') w in
        let key = bits-IsSameKey len len' key key' in
        (λ h. ((law.0 h).0, λ k. (law.0 h).1 (key.0 k)), λ (s, d). law.1 (s, λ e. d (key.1 e))));
}
