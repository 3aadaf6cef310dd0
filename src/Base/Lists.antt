-- ===== src/Base/Lists.antt =====
-- Lists measured and indexed by native numbers, and sums over them.
use Prim.Native.Nat.{ℕ, zero, suc, ◌+◌, ◌<◌, ◌≤◌}
use mathlib.Core.Path.{◌≡◌, refl, ap, ◌∙◌}
use mathlib.Core.Logic.{◌≢◌, ◌⊎◌, inl, inr}
use mathlib.Core.List.{List, [], ◌∷◌, ◌++◌, map}
use mathlib.Core.Option.{Option, none, some}
use native.Mathlib.Omega.{arith}

module _ {ℓ} {A : Type ℓ} where
  abbrev pub length : List A → ℕ
  length [] = 0
  length (x ∷ xs) = suc (length xs)

  abbrev pub get_elem? : List A → ℕ → Option A
  get_elem? [] i = none
  get_elem? (x ∷ xs) zero = some x
  get_elem? (x ∷ xs) (suc i) = get_elem? xs i

  -- A write out of bounds changes nothing.
  abbrev pub set : List A → ℕ → A → List A
  set [] i v = []
  set (x ∷ xs) zero v = v ∷ xs
  set (x ∷ xs) (suc i) v = x ∷ set xs i v

  abbrev pub take : ℕ → List A → List A
  take zero xs = []
  take (suc n) [] = []
  take (suc n) (x ∷ xs) = x ∷ take n xs

  abbrev pub drop : ℕ → List A → List A
  drop zero xs = xs
  drop (suc n) [] = []
  drop (suc n) (x ∷ xs) = drop n xs

  pub length-take : (n : ℕ) (xs : List A) → length (take n xs) ≤ n
  length-take zero xs = omega arith
  length-take (suc n) [] = omega arith
  length-take (suc n) (x ∷ xs) = omega (arith, length-take n xs)

  -- `f` summed over the list.
  abbrev pub sum_of : (A → ℕ) → List A → ℕ
  sum_of f [] = 0
  sum_of f (x ∷ xs) = f x + sum_of f xs

  pub drop-append : (xs ys : List A) (n : ℕ) → drop (length xs + n) (xs ++ ys) ≡ drop n ys
  drop-append [] ys n = ap (λ m. drop m ys) (omega arith)
  drop-append (x ∷ xs) ys n =
      let next : length (x ∷ xs) + n ≡ suc (length xs + n) = omega arith in
      ap (λ m. drop m (x ∷ xs ++ ys)) next ∙ drop-append xs ys n

  pub drop-length : (xs ys : List A) → drop (length xs) (xs ++ ys) ≡ ys
  drop-length [] ys = refl
  drop-length (x ∷ xs) ys = drop-length xs ys

  pub length-append : (xs ys : List A) → length (xs ++ ys) ≡ length xs + length ys
  length-append [] ys = omega arith
  length-append (x ∷ xs) ys = omega (arith, length-append xs ys)

  pub length-set : (xs : List A) (i : ℕ) (v : A) → length (set xs i v) ≡ length xs
  length-set [] i v = refl
  length-set (x ∷ xs) zero v = refl
  length-set (x ∷ xs) (suc i) v = ap suc (length-set xs i v)

  pub get_elem?-set_self :
      (xs : List A) (i : ℕ) (v a : A) → get_elem? xs i ≡ some a → get_elem? (set xs i v) i ≡ some v
  get_elem?-set_self [] i v a h = cc
  get_elem?-set_self (x ∷ xs) zero v a h = refl
  get_elem?-set_self (x ∷ xs) (suc i) v a h = get_elem?-set_self xs i v a h

  pub get_elem?-set_ne :
      (xs : List A) (i j : ℕ) (v : A) → i ≢ j → get_elem? (set xs i v) j ≡ get_elem? xs j
  get_elem?-set_ne [] i j v h = refl
  get_elem?-set_ne (x ∷ xs) zero zero v h = absurd (h refl)
  get_elem?-set_ne (x ∷ xs) zero (suc j) v h = refl
  get_elem?-set_ne (x ∷ xs) (suc i) zero v h = refl
  get_elem?-set_ne (x ∷ xs) (suc i) (suc j) v h = get_elem?-set_ne xs i j v (λ e. h (ap suc e))

  pub get_elem?-append_left :
      (xs ys : List A) (i : ℕ) (a : A) → get_elem? xs i ≡ some a → get_elem? (xs ++ ys) i ≡ some a
  get_elem?-append_left [] ys i a h = cc
  get_elem?-append_left (x ∷ xs) ys zero a h = h
  get_elem?-append_left (x ∷ xs) ys (suc i) a h = get_elem?-append_left xs ys i a h

  pub get_elem?-append_last : (xs : List A) (a : A) → get_elem? (xs ++ a ∷ []) (length xs) ≡ some a
  get_elem?-append_last [] a = refl
  get_elem?-append_last (x ∷ xs) a = get_elem?-append_last xs a

  pub lt-length : (xs : List A) (i : ℕ) (a : A) → get_elem? xs i ≡ some a → i < length xs
  lt-length [] i a h = cc
  lt-length (x ∷ xs) zero a h = omega arith
  lt-length (x ∷ xs) (suc i) a h = omega (arith, lt-length xs i a h)

  pub sum_of-set :
      (f : A → ℕ) (xs : List A) (i : ℕ) (v a : A)
      → get_elem? xs i ≡ some a
      → sum_of f (set xs i v) + f a ≡ sum_of f xs + f v
  sum_of-set f [] i v a h = cc
  sum_of-set f (x ∷ xs) zero v a h = ground arith
  sum_of-set f (x ∷ xs) (suc i) v a h = omega (arith, sum_of-set f xs i v a h)

  pub sum_of-append : (f : A → ℕ) (xs ys : List A) → sum_of f (xs ++ ys) ≡ sum_of f xs + sum_of f ys
  sum_of-append f [] ys = omega arith
  sum_of-append f (x ∷ xs) ys = omega (arith, sum_of-append f xs ys)

  pub le-sum_of :
      (f : A → ℕ) (xs : List A) (i : ℕ) (a : A) → get_elem? xs i ≡ some a → f a ≤ sum_of f xs
  le-sum_of f [] i a h = cc
  le-sum_of f (x ∷ xs) zero a h = ground arith
  le-sum_of f (x ∷ xs) (suc i) a h = omega (arith, le-sum_of f xs i a h)

  pub get_elem?-length : (xs : List A) → get_elem? xs (length xs) ≡ none
  get_elem?-length [] = refl
  get_elem?-length (x ∷ xs) = get_elem?-length xs

  pub get_elem?-append_cases :
      (xs : List A) (a d : A) (j : ℕ)
      → get_elem? (xs ++ a ∷ []) j ≡ some d
      → (get_elem? xs j ≡ some d) ⊎ ((j ≡ length xs) × (d ≡ a))
  get_elem?-append_cases [] a d zero h = inr (refl, cc)
  get_elem?-append_cases [] a d (suc j) h = cc
  get_elem?-append_cases (x ∷ xs) a d zero h = inl h
  get_elem?-append_cases (x ∷ xs) a d (suc j) h = elim (get_elem?-append_cases xs a d j h) [
    | inl e ↦ inl e
    | inr (e, k) ↦ inr (ap suc e, k)
  ]

  pub get_elem?-append_none :
      (xs ys : List A) (j : ℕ) → get_elem? (xs ++ ys) j ≡ none → get_elem? xs j ≡ none
  get_elem?-append_none [] ys j h = refl
  get_elem?-append_none (x ∷ xs) ys zero h = cc
  get_elem?-append_none (x ∷ xs) ys (suc j) h = get_elem?-append_none xs ys j h

module _ {ℓ κ} {A : Type ℓ} {B : Type κ} (f : A → B) where
  pub get_elem?-map_cases :
      (xs : List A) (i : ℕ) (b : B)
      → get_elem? (map f xs) i ≡ some b
      → (a : A) × (get_elem? xs i ≡ some a) × (b ≡ f a)
  get_elem?-map_cases [] i b h = cc
  get_elem?-map_cases (x ∷ xs) zero b h = (x, refl, cc)
  get_elem?-map_cases (x ∷ xs) (suc i) b h = get_elem?-map_cases xs i b h

  pub get_elem?-map :
      (xs : List A) (i : ℕ) (a : A) → get_elem? xs i ≡ some a → get_elem? (map f xs) i ≡ some (f a)
  get_elem?-map [] i a h = cc
  get_elem?-map (x ∷ xs) zero a h = cc
  get_elem?-map (x ∷ xs) (suc i) a h = get_elem?-map xs i a h

  pub get_elem?-map-none :
      (xs : List A) (i : ℕ) → get_elem? (map f xs) i ≡ none → get_elem? xs i ≡ none
  get_elem?-map-none [] i h = refl
  get_elem?-map-none (x ∷ xs) zero h = cc
  get_elem?-map-none (x ∷ xs) (suc i) h = get_elem?-map-none xs i h

  pub sum_of-map :
      (g : B → ℕ) (k : A → ℕ)
      → ((a : A) → g (f a) ≡ k a)
      → (xs : List A) → sum_of g (map f xs) ≡ sum_of k xs
  sum_of-map g k h [] = refl
  sum_of-map g k h (x ∷ xs) = omega (arith, h x, sum_of-map g k h xs)
