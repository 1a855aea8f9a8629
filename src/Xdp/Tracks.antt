-- ===== src/Xdp/Tracks.antt =====
-- A trie of the kernel that holds the networks of a set: what an insertion, a removal and a lookup
-- make of it.
use radixip.Base.{
  ℕ, ◌*◌, ◌<◌, ◌≡◌, ◌≢◌, ◌↔◌, ◌⊎◌, inl, inr, sym, ◌∙◌, subst, ap, refl, true, List, Bool-cases,
  Option-cases, arith,
}
use radixip.Xdp.{Agree, IsSameKey, LpmTrie, PrefixNet}
use radixip.Xdp.Kernel.{hit}

Agree-refl : (n : ℕ) (x : List ℕ) → Agree n x x
Agree-refl n x i h = refl

Agree-sym : (n : ℕ) (x y : List ℕ) → Agree n x y → Agree n y x
Agree-sym n x y p i h = sym (p i h)

Agree-trans : (n : ℕ) (x y z : List ℕ) → Agree n x y → Agree n y z → Agree n x z
Agree-trans n x y z p q i h = p i h ∙ q i h

module _ {T N : Type 0} (maps : LpmTrie T) (size : ℕ) (a : PrefixNet size N) where
  -- The entry of a network, as `Maps::put` makes it.
  abbrev pub IsKeyOf : (len : ℕ) (key : List ℕ) → N → Type 0
  IsKeyOf len key n = (len ≡ a.prefix_len n) × Agree len key (a.addr n)

  -- The networks of the set, each with the value 1, are the entries of the trie.
  abbrev pub Tracks : T → (N → Type 0) → Type 0
  Tracks t In =
      (len : ℕ) (key : List ℕ) (w : ℕ)
      → maps.Stored t len key w ↔ ((w ≡ 1) × (n : N) × In n × IsKeyOf len key n)

  abbrev pub AllCanonical : (N → Type 0) → Type 0
  AllCanonical In = (n : N) → In n → a.trunc n ≡ n

  same_key_unique :
      (n m : N) (len : ℕ) (key : List ℕ)
      → a.trunc n ≡ n
      → a.trunc m ≡ m
      → IsKeyOf len key m
      → IsSameKey (a.prefix_len n) len (a.addr n) key
      → m ≡ n
  same_key_unique n m len key hn hm (p, q) (p2, q2) =
      sym hm
      ∙ a.trunc_same m n (sym p ∙ p2) (λ i l.
        let small : i < len = ground (arith, p, l) in
        sym (q i small) ∙ q2 i (ground (arith, p, p2, l)))
      ∙ hn

  pub Tracks-same :
      (t : T) (In Now : N → Type 0) → ((m : N) → Now m ↔ In m) → Tracks t In → Tracks t Now
  Tracks-same t In Now same h len key w = (
    λ s. (let (p, n, i, k) = (h len key w).0 s in (p, n, (same n).1 i, k)),
    λ (p, n, i, k). (h len key w).1 (p, n, (same n).0 i, k),
  )

  insert_canonical :
      (t : T) (In Now : N → Type 0) (n : N)
      → ((m : N) → Now m ↔ ((m ≡ n) ⊎ In m))
      → AllCanonical In
      → a.trunc n ≡ n
      → (maps.insert t (a.prefix_len n) (a.addr n) 1).1 ≡ true
      → Tracks t In
      → Tracks (maps.insert t (a.prefix_len n) (a.addr n) 1).0 Now
  insert_canonical t In Now n now canon hn done h len key w =
      let law = maps.insert_ok t (a.prefix_len n) (a.addr n) 1 len key w done in
      (
        λ s. elim (law.0 s) [
          | inl ((p, q), one) ↦
              (one, n, (now n).1 (inl refl), (p, subst (λ l. Agree l key (a.addr n)) (sym p) q))
          | inr (old, _) ↦
              (let (one, m, i, k) = (h len key w).0 old in (one, m, (now m).1 (inr i), k))
        ],
        λ (one, m, i, k). law.1 (elim (Bool-cases (a.same m n)) [
          | inl eq ↦
              (let here = (a.same_iff m n).0 eq in
                let k2 = subst (IsKeyOf len key) here k in
                inl ((k2.0, subst (λ l. Agree l key (a.addr n)) k2.0 k2.1), one))
          | inr neq ↦
              (let other : m ≢ n = λ e. ground (arith, neq, (a.same_iff m n).1 e) in
                elim ((now m).0 i) [
                  | inl e ↦ absurd (other e)
                  | inr j ↦ inr (
                    (h len key w).1 (one, m, j, k),
                    λ same. other (same_key_unique n m len key hn (canon m j) k same),
                  )
                ])
        ]),
      )

  remove_canonical :
      (t : T) (In Now : N → Type 0) (n : N)
      → ((m : N) → Now m ↔ (In m × (m ≢ n)))
      → AllCanonical In
      → a.trunc n ≡ n
      → Tracks t In
      → Tracks (maps.remove t (a.prefix_len n) (a.addr n)).0 Now
  remove_canonical t In Now n now canon hn h len key w =
      let law = maps.remove_iff t (a.prefix_len n) (a.addr n) len key w in
      (
        λ s.
            (let (old, other) = law.0 s in
              let (one, m, i, k) = (h len key w).0 old in
              (
                one,
                m,
                (now m).1 (
                  i,
                  λ e.
                      (let k2 = subst (IsKeyOf len key) e k in
                        other (k2.0, subst (λ l. Agree l key (a.addr n)) k2.0 k2.1)),
                ),
                k,
              )),
        λ (one, m, i, k).
            (let (j, other) = (now m).0 i in
              law.1 (
                (h len key w).1 (one, m, j, k),
                λ same. other (same_key_unique n m len key hn (canon m j) k same),
              )),
      )

  pub Tracks-insert :
      (t : T) (In Now : N → Type 0) (n : N)
      → ((m : N) → Now m ↔ ((m ≡ n) ⊎ In m))
      → AllCanonical In
      → a.trunc n ≡ n
      → (maps.insert t (a.prefix_len n) (a.addr (a.trunc n)) 1).1 ≡ true
      → Tracks t In
      → Tracks (maps.insert t (a.prefix_len n) (a.addr (a.trunc n)) 1).0 Now
  Tracks-insert t In Now n now canon hn =
      subst
        (λ k.
          (maps.insert t (a.prefix_len n) k 1).1 ≡ true
          → Tracks t In
          → Tracks (maps.insert t (a.prefix_len n) k 1).0 Now)
        (ap (λ m. a.addr m) (sym hn)) (insert_canonical t In Now n now canon hn)

  pub Tracks-remove :
      (t : T) (In Now : N → Type 0) (n : N)
      → ((m : N) → Now m ↔ (In m × (m ≢ n)))
      → AllCanonical In
      → a.trunc n ≡ n
      → Tracks t In
      → Tracks (maps.remove t (a.prefix_len n) (a.addr (a.trunc n))).0 Now
  Tracks-remove t In Now n now canon hn =
      subst (λ k. Tracks t In → Tracks (maps.remove t (a.prefix_len n) k).0 Now)
        (ap (λ m. a.addr m) (sym hn)) (remove_canonical t In Now n now canon hn)

  -- The program in the kernel finds an address if a network of the set covers it.
  pub hit-Tracks :
      (t : T) (In : N → Type 0) (o : List ℕ)
      → Tracks t In
      → (hit maps t (8 * size) o ≡ true) ↔ ((n : N) × In n × Agree (a.prefix_len n) o (a.addr n))
  unfolding hit
  hit-Tracks t In o h = elim (Option-cases (maps.get t (8 * size) o)) [
    | inl p ↦ (
      λ q. absurd (ground (arith, p, q)),
      λ (n, i, c). absurd (
          maps.get_none t (8 * size) o (a.prefix_len n) (a.addr n) 1 p
            ((h (a.prefix_len n) (a.addr n) 1).1
              (refl, n, i, (refl, Agree-refl (a.prefix_len n) (a.addr n))))
            (a.prefix_len-le n) c),
    )
    | inr (v, p) ↦
        (let (len, key, s, _, g) = maps.get_some t (8 * size) o v p in
          let (one, n, i, (l, k)) = (h len key v).0 s in
          (
            λ _. (n, i, subst (λ x. Agree x o (a.addr n)) l (Agree-trans len o key (a.addr n) g k)),
            λ _. ground (arith, p, one),
          ))
  ]
