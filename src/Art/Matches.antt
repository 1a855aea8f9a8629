-- ===== src/Art/Matches.antt =====
-- `LeafNode::matches` of lib/rust/engine/src/art/mod.rs against the bits of the address.
use native.Mathlib.Nat.{pow-suc, div-div-eq-div-mul, mul-div_cancel, one-le-pow, div-one}
use native.Mathlib.Decide.{ℕ_discrete}
use radixip.Base.{
  ℕ, zero, suc, ◌+◌, ◌-◌, ◌*◌, ◌/◌, ◌%◌, ◌^◌, ◌≤◌, ◌<◌, ◌≡◌, ◌↔◌, refl, sym, ap, subst, ◌∙◌, true,
  Bool-cases, List, [], ◌∷◌, length, get_or, ltb, min, arith, inl, inr, ltb→lt, ltb→ge, ◌⊎◌, All,
}
use radixip.Net.{bit_at}
use radixip.Art.{masked, full_bytes_match, matches}
use radixip.Art.Tree.{mask_key, zeros}

get_or-zeros : (n j : ℕ) → get_or (zeros n) j 0 ≡ 0
get_or-zeros zero j = refl
get_or-zeros (suc n) zero = refl
get_or-zeros (suc n) (suc j) = get_or-zeros n j

less_or_not : (m n : ℕ) → (m < n) ⊎ (n ≤ m)
less_or_not m n = elim (Bool-cases (ltb m n)) [
  | inl h ↦ inl (ltb→lt m n h)
  | inr h ↦ inr (ltb→ge m n h)
]

-- The octets of an address.
abbrev pub AreBytes : List ℕ → Type 0
AreBytes o = All (λ (b : ℕ). b < 256) o

byte_of : (o : List ℕ) (i : ℕ) → AreBytes o → get_or o i 0 < 256
byte_of [] i h = omega arith
byte_of (x ∷ o) zero (h, hs) = h
byte_of (x ∷ o) (suc i) (h, hs) = byte_of o i hs

-- The first `r` bits of two bytes.
bits_agree :
    (r a b : ℕ)
    → r ≤ 8
    → a < 256
    → b < 256
    → ((t : ℕ) → t < r → a / 2 ^ (7 - t) % 2 ≡ b / 2 ^ (7 - t) % 2)
    → a / 2 ^ (8 - r) ≡ b / 2 ^ (8 - r)
bits_agree zero a b h ha hb bits = omega arith
bits_agree (suc r) a b h ha hb bits =
    let k = 7 - r in
    let e : 8 - r ≡ suc k = omega arith in
    let f : 8 - suc r ≡ k = omega arith in
    let halved : (x : ℕ) → x / 2 ^ k / 2 ≡ x / 2 ^ suc k =
      λ x. div-div-eq-div-mul x (2 ^ k) 2 ∙ ap (λ (d : ℕ). x / d) (sym (pow-suc 2 k)) in
    let above : a / 2 ^ suc k ≡ b / 2 ^ suc k =
      subst (λ (s : ℕ). a / 2 ^ s ≡ b / 2 ^ s) e
        (bits_agree r a b (omega arith) ha hb (λ t l. bits t (omega arith))) in
    let here = bits r (omega arith) in rw f (omega (arith, above, halved a, halved b, here))

shifted : (x m d : ℕ) → x / 2 ^ (m + d) ≡ x / 2 ^ m / 2 ^ d
shifted x m zero = let e : m + 0 ≡ m = omega arith in rw e (sym (div-one (x / 2 ^ m)))
shifted x m (suc d) =
    let e : m + suc d ≡ suc (m + d) = omega arith in
    rw (e, pow-suc, pow-suc)
      (sym (div-div-eq-div-mul x (2 ^ (m + d)) 2)
        ∙ ap (λ (q : ℕ). q / 2) (shifted x m d)
        ∙ div-div-eq-div-mul (x / 2 ^ m) (2 ^ d) 2)

bits_of_same :
    (r a b t : ℕ)
    → r ≤ 8
    → t < r
    → a / 2 ^ (8 - r) ≡ b / 2 ^ (8 - r)
    → a / 2 ^ (7 - t) % 2 ≡ b / 2 ^ (7 - t) % 2
bits_of_same r a b t h l e =
    let s : 7 - t ≡ (8 - r) + (r - suc t) = omega arith in
    rw (s, shifted a (8 - r) (r - suc t), shifted b (8 - r) (r - suc t), e) refl

masked-div : (r x : ℕ) → masked r x / 2 ^ (8 - r) ≡ x / 2 ^ (8 - r)
masked-div r x = mul-div_cancel (x / 2 ^ (8 - r)) (one-le-pow (8 - r) 2 (omega arith))

full_bytes_match_sound :
    (n i : ℕ) (ip k : List ℕ)
    → full_bytes_match n i ip k ≡ true
    → (j : ℕ) → i ≤ j
    → j < i + n
    → get_or ip j 0 ≡ get_or k j 0
unfolding full_bytes_match
full_bytes_match_sound zero i ip k h j l m = absurd (omega arith)
full_bytes_match_sound (suc n) i ip k h j l m = elim (ℕ_discrete i j) [
  | yes e ↦ subst (λ (x : ℕ). get_or ip x 0 ≡ get_or k x 0) e (ground (arith, h))
  | no ne ↦ full_bytes_match_sound n (suc i) ip k (ground (arith, h)) j (omega arith) (omega arith)
]

full_bytes_match_complete :
    (n i : ℕ) (ip k : List ℕ)
    → ((j : ℕ) → i ≤ j → j < i + n → get_or ip j 0 ≡ get_or k j 0)
    → full_bytes_match n i ip k ≡ true
unfolding full_bytes_match
full_bytes_match_complete zero i ip k h = refl
full_bytes_match_complete (suc n) i ip k h = ground (
  arith,
  h i (omega arith) (omega arith),
  full_bytes_match_complete n (suc i) ip k (λ j l m. h j (omega arith) (omega arith)),
)

pub mask_key_byte :
    (key : List ℕ) (full r room j : ℕ)
    → j < full
    → j < room
    → get_or (mask_key key full r room) j 0 ≡ get_or key j 0
unfolding mask_key
mask_key_byte [] full r room j h l = get_or-zeros room j
mask_key_byte (b ∷ key) full r zero j h l = absurd (omega arith)
mask_key_byte (b ∷ key) zero r (suc room) j h l = absurd (omega arith)
mask_key_byte (b ∷ key) (suc full) r (suc room) zero h l = refl
mask_key_byte (b ∷ key) (suc full) r (suc room) (suc j) h l =
    mask_key_byte key full r room j (omega arith) (omega arith)

mask_key-boundary :
    (key : List ℕ) (full r room : ℕ)
    → 0 < r
    → full < length key
    → full < room
    → get_or (mask_key key full r room) full 0 ≡ masked r (get_or key full 0)
unfolding mask_key
mask_key-boundary [] full r room p h l = absurd (omega arith)
mask_key-boundary (b ∷ key) full r zero p h l = absurd (omega arith)
mask_key-boundary (b ∷ key) zero r (suc room) p h l = ground arith
mask_key-boundary (b ∷ key) (suc full) r (suc room) p h l =
    mask_key-boundary key full r room p (omega arith) (omega arith)

module _ (key ip : List ℕ) (len : ℕ) (bytes : AreBytes key) (bytes' : AreBytes ip)
    (same_family : length ip ≡ length key) (fits : length key ≤ 16)
    (le : len ≤ 8 * length key) where
  abbrev stored_key : List ℕ
  stored_key = mask_key key (len / 8) (len % 8) 16

  loop_bound : min (len / 8) (length ip) ≡ len / 8
  loop_bound = omega arith

  -- What a match says of the boundary byte.
  boundary :
      matches len stored_key ip ≡ true
      → 0 < len % 8
      → get_or ip (len / 8) 0 / 2 ^ (8 - len % 8) ≡ get_or key (len / 8) 0 / 2 ^ (8 - len % 8)
  unfolding matches
  boundary m p =
      let r = len % 8 in
      let full = len / 8 in
      let same : masked r (get_or ip full 0) ≡ masked r (get_or stored_key full 0) =
        ground (arith, m) in
      let cut = λ (x : ℕ). x / 2 ^ (8 - r) in
      sym (masked-div r (get_or ip full 0))
      ∙ ap cut same
      ∙ masked-div r (get_or stored_key full 0)
      ∙ ap cut (mask_key-boundary key full r 16 p (omega arith) (omega arith))
      ∙ masked-div r (get_or key full 0)

  loop_true : matches len stored_key ip ≡ true → full_bytes_match (len / 8) 0 ip stored_key ≡ true
  unfolding matches
  loop_true m =
      subst (λ (n : ℕ). full_bytes_match n 0 ip stored_key ≡ true) loop_bound (ground (arith, m))

  matches_sound : matches len stored_key ip ≡ true → (i : ℕ) → i < len → bit_at ip i ≡ bit_at key i
  matches_sound m i l = elim (less_or_not (i / 8) (len / 8)) [
    | inl below ↦
        ap (λ (x : ℕ). x / 2 ^ (7 - i % 8) % 2)
          (full_bytes_match_sound (len / 8) 0 ip stored_key (loop_true m) (i / 8) (omega arith)
              (omega arith)
            ∙ mask_key_byte key (len / 8) (len % 8) 16 (i / 8) below (omega arith))
    | inr above ↦
        let e : len / 8 ≡ i / 8 = omega arith in
        bits_of_same (len % 8) (get_or ip (i / 8) 0) (get_or key (i / 8) 0) (i % 8) (omega arith)
          (omega arith)
          (subst (λ (f : ℕ). get_or ip f 0 / 2 ^ (8 - len % 8) ≡ get_or key f 0 / 2 ^ (8 - len % 8))
            e (boundary m (omega arith)))
  ]

  bytes_agree :
      (j r : ℕ)
      → r ≤ 8
      → 8 * j + r ≤ len
      → ((i : ℕ) → i < len → bit_at ip i ≡ bit_at key i)
      → get_or ip j 0 / 2 ^ (8 - r) ≡ get_or key j 0 / 2 ^ (8 - r)
  bytes_agree j r h l bits =
      bits_agree r (get_or ip j 0) (get_or key j 0) h (byte_of ip j bytes') (byte_of key j bytes)
        (λ t lt.
          let q : (8 * j + t) / 8 ≡ j = omega arith in
          let m : (8 * j + t) % 8 ≡ t = omega arith in
          subst (λ (k : ℕ). get_or ip k 0 / 2 ^ (7 - t) % 2 ≡ get_or key k 0 / 2 ^ (7 - t) % 2) q
            (subst
              (λ (u : ℕ).
                get_or ip ((8 * j + t) / 8) 0 / 2 ^ (7 - u) % 2
                ≡ get_or key ((8 * j + t) / 8) 0 / 2 ^ (7 - u) % 2)
              m (bits (8 * j + t) (omega arith))))

  matches_complete :
      ((i : ℕ) → i < len → bit_at ip i ≡ bit_at key i) → matches len stored_key ip ≡ true
  unfolding matches
  matches_complete bits =
      let r = len % 8 in
      let full = len / 8 in
      let loop : full_bytes_match (min full (length ip)) 0 ip stored_key ≡ true =
        subst (λ (n : ℕ). full_bytes_match n 0 ip stored_key ≡ true) (sym loop_bound)
          (full_bytes_match_complete full 0 ip stored_key (λ j _ l.
            let e = bytes_agree j 8 (omega arith) (omega arith) bits in
            sym (div-one (get_or ip j 0))
            ∙ e
            ∙ div-one (get_or key j 0)
            ∙ sym (mask_key_byte key full r 16 j (omega arith) (omega arith)))) in
      let cut : 0 < r → masked r (get_or ip full 0) ≡ masked r (get_or stored_key full 0) = λ p.
        let e = bytes_agree full r (omega arith) (omega arith) bits in
        let f =
          ap (λ (x : ℕ). masked r x)
            (mask_key-boundary key full r 16 p (omega arith) (omega arith)) in
        let g : masked r (masked r (get_or key full 0)) ≡ masked r (get_or key full 0) =
          ap (λ (x : ℕ). x * 2 ^ (8 - r)) (masked-div r (get_or key full 0)) in
        ap (λ (x : ℕ). x * 2 ^ (8 - r)) e ∙ sym g ∙ sym f in
      elim (less_or_not 0 r) [ inl p ↦ ground (arith, loop, cut p) | inr n ↦ ground (arith, loop) ]

  -- A leaf matches an address of its family exactly if the first bits, as many as its prefix is
  -- long, agree.
  pub matches_iff :
      (matches len stored_key ip ≡ true) ↔ ((i : ℕ) → i < len → bit_at ip i ≡ bit_at key i)
  matches_iff = (matches_sound, matches_complete)
