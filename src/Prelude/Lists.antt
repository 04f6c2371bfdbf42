-- ===== src/Prelude/Lists.antt =====
-- Lists measured and indexed by native numbers, under the library's names.
use Prim.Native.Nat.{ℕ, zero, suc, ◌+◌, ◌-◌, ◌≤◌, ◌<◌, min}
use mathlib.Core.Path.{◌≡◌, refl}
use mathlib.Core.Logic.{◌≢◌}
use mathlib.Core.Bool.{Bool, true, ◌&&◌}
use mathlib.Core.List.{List, [], ◌∷◌, ◌++◌}
use mathlib.Core.Option.{Option, none, some}
use native.Mathlib.Omega.{arith}

module _ {ℓ} {A : Type ℓ} where
  abbrev pub length : List A → ℕ
  length [] = 0
  length (x ∷ xs) = suc (length xs)

  abbrev pub get_elem? : List A → ℕ → Option A
  get_elem? [] i = none
  get_elem? (x ∷ xs) zero = some x
  get_elem? (x ∷ xs) (suc i) = get_elem? xs i

  abbrev pub take : ℕ → List A → List A
  take zero xs = []
  take (suc n) [] = []
  take (suc n) (x ∷ xs) = x ∷ take n xs

  abbrev pub drop : ℕ → List A → List A
  drop zero xs = xs
  drop (suc n) [] = []
  drop (suc n) (x ∷ xs) = drop n xs

  pub length-append : (xs ys : List A) → length (xs ++ ys) ≡ length xs + length ys
  length-append [] ys = omega arith
  length-append (x ∷ xs) ys = omega (arith, length-append xs ys)

  pub length-take : (n : ℕ) (xs : List A) → length (take n xs) ≡ min n (length xs)
  length-take zero xs = omega arith
  length-take (suc n) [] = omega arith
  length-take (suc n) (x ∷ xs) = omega (arith, length-take n xs)

  pub length-drop : (n : ℕ) (xs : List A) → length (drop n xs) ≡ length xs - n
  length-drop zero xs = omega arith
  length-drop (suc n) [] = omega arith
  length-drop (suc n) (x ∷ xs) = omega (arith, length-drop n xs)

  -- An index in range reads an element.
  pub get_elem?-eq-some :
      (xs : List A) (i : ℕ) → i < length xs → (x : A) × (get_elem? xs i ≡ some x)
  get_elem?-eq-some [] i h = absurd (omega arith)
  get_elem?-eq-some (x ∷ xs) zero h = (x, refl)
  get_elem?-eq-some (x ∷ xs) (suc i) h = get_elem?-eq-some xs i (omega arith)

  pub lt-length_of_get_elem? :
      (xs : List A) (i : ℕ) (x : A) → get_elem? xs i ≡ some x → i < length xs
  lt-length_of_get_elem? [] i x h = cc
  lt-length_of_get_elem? (y ∷ ys) zero x h = omega arith
  lt-length_of_get_elem? (y ∷ ys) (suc i) x h = omega (arith, lt-length_of_get_elem? ys i x h)

  pub drop-at_elem :
      (xs : List A) (i : ℕ) (x : A) → get_elem? xs i ≡ some x → drop i xs ≡ x ∷ drop (suc i) xs
  drop-at_elem [] i x h = cc
  drop-at_elem (y ∷ ys) zero x h = ground arith
  drop-at_elem (y ∷ ys) (suc i) x h = drop-at_elem ys i x h

  pub length-le_of_none : (xs : List A) (i : ℕ) → get_elem? xs i ≡ none → length xs ≤ i
  length-le_of_none [] i h = omega arith
  length-le_of_none (y ∷ ys) zero h = cc
  length-le_of_none (y ∷ ys) (suc i) h = omega (arith, length-le_of_none ys i h)

  -- The Boolean `all` of an iterator.
  abbrev pub all : (A → Bool) → List A → Bool
  all p [] = true
  all p (x ∷ xs) = p x && all p xs

  pub all-get_elem? :
      (p : A → Bool) (xs : List A) (i : ℕ) (x : A)
      → all p xs ≡ true
      → get_elem? xs i ≡ some x
      → p x ≡ true
  all-get_elem? p [] i x h e = cc
  all-get_elem? p (y ∷ ys) zero x h e = ground arith
  all-get_elem? p (y ∷ ys) (suc i) x h e = ground (arith, all-get_elem? p ys i x)

  -- `xs[i] = v` in range; out of range the list is unchanged, and the callers test the index.
  abbrev pub set_elem : List A → ℕ → A → List A
  set_elem [] i v = []
  set_elem (x ∷ xs) zero v = v ∷ xs
  set_elem (x ∷ xs) (suc i) v = x ∷ set_elem xs i v

  pub length-set_elem : (xs : List A) (i : ℕ) (v : A) → length (set_elem xs i v) ≡ length xs
  length-set_elem [] i v = refl
  length-set_elem (x ∷ xs) zero v = refl
  length-set_elem (x ∷ xs) (suc i) v = omega (arith, length-set_elem xs i v)

  pub get_elem?-set_elem :
      (xs : List A) (i : ℕ) (v : A) → i < length xs → get_elem? (set_elem xs i v) i ≡ some v
  get_elem?-set_elem [] i v h = absurd (omega arith)
  get_elem?-set_elem (x ∷ xs) zero v h = refl
  get_elem?-set_elem (x ∷ xs) (suc i) v h = get_elem?-set_elem xs i v (omega arith)

  pub get_elem?-set_elem_ne :
      (xs : List A) (i j : ℕ) (v : A) → i ≢ j → get_elem? (set_elem xs i v) j ≡ get_elem? xs j
  get_elem?-set_elem_ne [] i j v h = refl
  get_elem?-set_elem_ne (x ∷ xs) zero zero v h = absurd (h refl)
  get_elem?-set_elem_ne (x ∷ xs) zero (suc j) v h = refl
  get_elem?-set_elem_ne (x ∷ xs) (suc i) zero v h = refl
  get_elem?-set_elem_ne (x ∷ xs) (suc i) (suc j) v h = get_elem?-set_elem_ne xs i j v (omega arith)

  pub get_elem?-append :
      (xs ys : List A) (i : ℕ) → i < length xs → get_elem? (xs ++ ys) i ≡ get_elem? xs i
  get_elem?-append [] ys i h = absurd (omega arith)
  get_elem?-append (x ∷ xs) ys zero h = refl
  get_elem?-append (x ∷ xs) ys (suc i) h = get_elem?-append xs ys i (omega arith)

  pub get_elem?-append_length :
      (xs : List A) (v : A) → get_elem? (xs ++ v ∷ []) (length xs) ≡ some v
  get_elem?-append_length [] v = refl
  get_elem?-append_length (x ∷ xs) v = get_elem?-append_length xs v
