-- ===== src/Base/Lists.antt =====
-- Arrays and vectors as lists, measured and indexed by native numbers.
use Prim.Native.Nat.{ℕ, zero, suc, ◌+◌, ◌-◌, ◌<◌, min}
use mathlib.Core.Path.{◌≡◌, refl, ap, ap₂, sym, ◌∙◌}
use mathlib.Core.List.{List, [], ◌∷◌, ◌++◌}
use native.Mathlib.Omega.{arith}

module _ {ℓ} {A : Type ℓ} where
  abbrev pub length : List A → ℕ
  length [] = 0
  length (x ∷ xs) = suc (length xs)

  abbrev pub get_or : List A → ℕ → A → A
  get_or [] i d = d
  get_or (x ∷ xs) zero d = x
  get_or (x ∷ xs) (suc i) d = get_or xs i d

  -- A write out of bounds changes nothing.
  abbrev pub set : List A → ℕ → A → List A
  set [] i v = []
  set (x ∷ xs) zero v = v ∷ xs
  set (x ∷ xs) (suc i) v = x ∷ set xs i v

  abbrev pub take : ℕ → List A → List A
  take zero xs = []
  take (suc n) [] = []
  take (suc n) (x ∷ xs) = x ∷ take n xs

  abbrev pub drop : ℕ → List A → List A
  drop zero xs = xs
  drop (suc n) [] = []
  drop (suc n) (x ∷ xs) = drop n xs

  abbrev pub replicate : ℕ → A → List A
  replicate zero a = []
  replicate (suc n) a = a ∷ replicate n a

  -- An array made of its elements' indices, and an array changed in place, each element by its
  -- index and its value.
  abbrev pub tabulate_from : ℕ → ℕ → (ℕ → A) → List A
  tabulate_from i zero f = []
  tabulate_from i (suc n) f = f i ∷ tabulate_from (suc i) n f

  abbrev pub update_from : ℕ → (ℕ → A → A) → List A → List A
  update_from i f [] = []
  update_from i f (x ∷ xs) = f i x ∷ update_from (suc i) f xs

  pub length-append : (xs ys : List A) → length (xs ++ ys) ≡ length xs + length ys
  length-append [] ys = omega arith
  length-append (x ∷ xs) ys = omega (arith, length-append xs ys)

  pub length-set : (xs : List A) (i : ℕ) (v : A) → length (set xs i v) ≡ length xs
  length-set [] i v = refl
  length-set (x ∷ xs) zero v = refl
  length-set (x ∷ xs) (suc i) v = ap suc (length-set xs i v)

  -- A predicate on every element, which the tactics read as a tuple.
  abbrev pub All {κ} : (A → Type κ) → List A → Type κ
  All P [] = Unit
  All P (x ∷ xs) = P x × All P xs

  pub All-append {κ} : (P : A → Type κ) (xs ys : List A) → All P xs → All P ys → All P (xs ++ ys)
  All-append P [] ys hx hy = hy
  All-append P (x ∷ xs) ys hx hy = (hx.0, All-append P xs ys hx.1 hy)

  pub All-set {κ} :
      (P : A → Type κ) (xs : List A) (i : ℕ) (v : A) → All P xs → P v → All P (set xs i v)
  All-set P [] i v h p = h
  All-set P (x ∷ xs) zero v h p = (p, h.1)
  All-set P (x ∷ xs) (suc i) v h p = (h.0, All-set P xs i v h.1 p)

  pub get_or-All {κ} :
      (P : A → Type κ) (xs : List A) (i : ℕ) (d : A) → All P xs → P d → P (get_or xs i d)
  get_or-All P [] i d h p = p
  get_or-All P (x ∷ xs) zero d h p = h.0
  get_or-All P (x ∷ xs) (suc i) d h p = get_or-All P xs i d h.1 p

  pub length-tabulate_from : (i n : ℕ) (f : ℕ → A) → length (tabulate_from i n f) ≡ n
  length-tabulate_from i zero f = refl
  length-tabulate_from i (suc n) f = ap suc (length-tabulate_from (suc i) n f)

  pub length-update_from :
      (i : ℕ) (f : ℕ → A → A) (xs : List A) → length (update_from i f xs) ≡ length xs
  length-update_from i f [] = refl
  length-update_from i f (x ∷ xs) = ap suc (length-update_from (suc i) f xs)

  pub tabulate_from-All {κ} :
      (P : A → Type κ) (i n : ℕ) (f : ℕ → A) → ((j : ℕ) → P (f j)) → All P (tabulate_from i n f)
  tabulate_from-All P i zero f h = tt
  tabulate_from-All P i (suc n) f h = (h i, tabulate_from-All P (suc i) n f h)

  pub update_from-All {κ} :
      (P : A → Type κ) (i : ℕ) (f : ℕ → A → A) (xs : List A)
      → All P xs
      → ((j : ℕ) (x : A) → P x → P (f j x))
      → All P (update_from i f xs)
  update_from-All P i f [] a h = tt
  update_from-All P i f (x ∷ xs) a h = (h i x a.0, update_from-All P (suc i) f xs a.1 h)

module _ {ℓ} {A : Type ℓ} where
  pub tabulate_from-eq :
      (i n : ℕ) (f g : ℕ → A)
      → ((j : ℕ) → j < i + n → f j ≡ g j)
      → tabulate_from i n f ≡ tabulate_from i n g
  tabulate_from-eq i zero f g h = refl
  tabulate_from-eq i (suc n) f g h =
      ap₂ (λ (x : A) (xs : List A). x ∷ xs) (h i (omega arith))
        (tabulate_from-eq (suc i) n f g (λ j lt. h j (omega arith)))

module _ {ℓ} {A : Type ℓ} where
  pub take-append-drop : (n : ℕ) (xs : List A) → take n xs ++ drop n xs ≡ xs
  take-append-drop zero xs = refl
  take-append-drop (suc n) [] = refl
  take-append-drop (suc n) (x ∷ xs) = ap (λ (t : List A). x ∷ t) (take-append-drop n xs)

  drop-nil : (n : ℕ) → drop {A = A} n [] ≡ []
  drop-nil zero = refl
  drop-nil (suc n) = refl

  pub drop-drop : (m n : ℕ) (xs : List A) → drop m (drop n xs) ≡ drop (n + m) xs
  drop-drop m zero xs = ap (λ (t : ℕ). drop t xs) (omega arith)
  drop-drop m (suc n) [] = drop-nil m ∙ sym (drop-nil (suc n + m))
  drop-drop m (suc n) (x ∷ xs) = drop-drop m n xs ∙ ap (λ (t : ℕ). drop t (x ∷ xs)) step
    where
      step : suc (n + m) ≡ suc n + m
      step = omega arith

  pub length-take : (n : ℕ) (xs : List A) → length (take n xs) ≡ min n (length xs)
  length-take zero xs = omega arith
  length-take (suc n) [] = omega arith
  length-take (suc n) (x ∷ xs) = omega (arith, length-take n xs)

  pub length-drop : (n : ℕ) (xs : List A) → length (drop n xs) ≡ length xs - n
  length-drop zero xs = omega arith
  length-drop (suc n) [] = omega arith
  length-drop (suc n) (x ∷ xs) = omega (arith, length-drop n xs)

  pub length-replicate : (n : ℕ) (a : A) → length (replicate n a) ≡ n
  length-replicate zero a = refl
  length-replicate (suc n) a = ap suc (length-replicate n a)
