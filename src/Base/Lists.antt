-- ===== src/Base/Lists.antt =====
-- Lists measured by native numbers, and folds.
use Prim.Native.Nat.{ℕ, zero, suc, ◌+◌}
use mathlib.Core.Path.{◌≡◌, refl, sym, ap, ◌∙◌}
use mathlib.Core.List.{List, [], ◌∷◌, ◌++◌}
use mathlib.Core.Bool.{Bool}
use radixip.Base.Tests.{if◌then◌else◌}
use native.Mathlib.Omega.{arith}

module _ {ℓ} {A : Type ℓ} where
  abbrev pub length : List A → ℕ
  length [] = 0
  length (x ∷ xs) = suc (length xs)

  abbrev pub get_or : List A → ℕ → A → A
  get_or [] i d = d
  get_or (x ∷ xs) zero d = x
  get_or (x ∷ xs) (suc i) d = get_or xs i d

  abbrev pub take : ℕ → List A → List A
  take zero xs = []
  take (suc n) [] = []
  take (suc n) (x ∷ xs) = x ∷ take n xs

  abbrev pub drop : ℕ → List A → List A
  drop zero xs = xs
  drop (suc n) [] = []
  drop (suc n) (x ∷ xs) = drop n xs

  pub length-append : (xs ys : List A) → length (xs ++ ys) ≡ length xs + length ys
  length-append [] ys = omega arith
  length-append (x ∷ xs) ys = omega (arith, length-append xs ys)

  -- Every element satisfies a predicate.
  abbrev pub All {κ} : (A → Type κ) → List A → Type κ
  All P [] = Unit
  All P (x ∷ xs) = P x × All P xs

module _ {ℓ κ} {A : Type ℓ} {B : Type κ} where
  abbrev pub fold_left : (B → A → B) → B → List A → B
  fold_left f b [] = b
  fold_left f b (x ∷ xs) = fold_left f (f b x) xs

  pub fold_left-append :
      (f : B → A → B) (b : B) (xs ys : List A)
      → fold_left f b (xs ++ ys) ≡ fold_left f (fold_left f b xs) ys
  fold_left-append f b [] ys = refl
  fold_left-append f b (x ∷ xs) ys = fold_left-append f (f b x) xs ys

-- `Vec::retain`
abbrev pub retain {ℓ} : {A : Type ℓ} → (A → Bool) → List A → List A
retain keep [] = []
retain keep (x ∷ xs) = if keep x then x ∷ retain keep xs else retain keep xs

-- `rev`
abbrev pub reverse {ℓ} : {A : Type ℓ} → List A → List A
reverse [] = []
reverse (x ∷ xs) = reverse xs ++ (x ∷ [])

-- `map`
abbrev pub map {ℓ κ} : {A : Type ℓ} {B : Type κ} → (A → B) → List A → List B
map f [] = []
map f (x ∷ xs) = f x ∷ map f xs

module _ {ℓ} {A : Type ℓ} where
  pub append_nil : (xs : List A) → xs ++ [] ≡ xs
  append_nil [] = refl
  append_nil (x ∷ xs) = ap (λ l. x ∷ l) (append_nil xs)

  pub append_assoc : (xs ys zs : List A) → (xs ++ ys) ++ zs ≡ xs ++ (ys ++ zs)
  append_assoc [] ys zs = refl
  append_assoc (x ∷ xs) ys zs = ap (λ l. x ∷ l) (append_assoc xs ys zs)

  pub reverse-append : (xs ys : List A) → reverse (xs ++ ys) ≡ reverse ys ++ reverse xs
  reverse-append [] ys = sym (append_nil (reverse ys))
  reverse-append (x ∷ xs) ys =
      ap (λ l. l ++ (x ∷ [])) (reverse-append xs ys)
      ∙ append_assoc (reverse ys) (reverse xs) (x ∷ [])

  pub All-append {κ} : (P : A → Type κ) (xs ys : List A) → All P xs → All P ys → All P (xs ++ ys)
  All-append P [] ys h k = k
  All-append P (x ∷ xs) ys (h, hs) k = (h, All-append P xs ys hs k)

  pub All-reverse {κ} : (P : A → Type κ) (xs : List A) → All P xs → All P (reverse xs)
  All-reverse P [] h = tt
  All-reverse P (x ∷ xs) (h, hs) = All-append P (reverse xs) (x ∷ []) (All-reverse P xs hs) (h, tt)
