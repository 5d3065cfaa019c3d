-- ===== src/Lru/Neighbours.antt =====
-- How removal and insertion change the neighbours of an element in a list without repetition.
use meitte.Base.{
  ℕ, ◌≡◌, refl, ◌≢◌, ◌||◌, Bool, true, false, List, [], ◌∷◌, ◌++◌, Option, none, some, arith, elem,
  Distinct, remove, first, last_or, is, pred_of, succ_of, if◌then◌else◌, ◌==◌,
}

elem_of_pred :
    (p : Option ℕ) (x j : ℕ) (xs : List ℕ)
    → is (pred_of p x xs) j ≡ true
    → ((is p j || elem j xs) ≡ true)
elem_of_pred p x j [] h = ground arith
elem_of_pred p x j (y ∷ ys) h = ground (arith, elem_of_pred (some y) x j ys)

elem_of_succ : (x j : ℕ) (xs : List ℕ) → is (succ_of x xs) j ≡ true → elem j xs ≡ true
elem_of_succ x j [] h = absurd (ground arith)
elem_of_succ x j (y ∷ []) h = ground arith
elem_of_succ x j (y ∷ z ∷ zs) h = ground (arith, elem_of_succ x j (z ∷ zs))

pub elem_of_last :
    (p : Option ℕ) (j : ℕ) (xs : List ℕ)
    → is (last_or p xs) j ≡ true
    → ((is p j || elem j xs) ≡ true)
elem_of_last p j [] h = ground arith
elem_of_last p j (y ∷ ys) h = ground (arith, elem_of_last (some y) j ys)

pred_of-first :
    (y x : ℕ) (ys : List ℕ)
    → elem y ys ≡ false
    → elem x ys ≡ true
    → is (pred_of (some y) x ys) y ≡ is (first ys) x
pred_of-first y x [] d h = absurd (ground arith)
pred_of-first y x (z ∷ zs) d h = ground (arith, elem_of_pred (some z) x y zs)

pub first-remove :
    (x : ℕ) (xs : List ℕ)
    → first (remove x xs) ≡ (if is (first xs) x then succ_of x xs else first xs)
first-remove x [] = refl
first-remove x (y ∷ ys) = ground arith

-- The one element whose successor changes is the one before `x`.
pub succ_of-remove :
    (p : Option ℕ) (x j : ℕ) (xs : List ℕ)
    → Distinct xs
    → is p j ≡ false
    → j ≢ x
    → elem j xs ≡ true
    → elem x xs ≡ true
    → succ_of j (remove x xs) ≡ (if is (pred_of p x xs) j then succ_of x xs else succ_of j xs)
succ_of-remove p x j [] d hp ne hj hx = absurd (ground arith)
succ_of-remove p x j (y ∷ ys) d hp ne hj hx =
    ground (arith, succ_of-remove (some y) x j ys d.1, pred_of-first y x ys, first-remove x ys)

pub pred_of-remove :
    (p : Option ℕ) (x j : ℕ) (xs : List ℕ)
    → Distinct xs
    → is p x ≡ false
    → j ≢ x
    → elem j xs ≡ true
    → pred_of p j (remove x xs) ≡ (if is (succ_of x xs) j then pred_of p x xs else pred_of p j xs)
pred_of-remove p x j [] d hp ne hj = absurd (ground arith)
pred_of-remove p x j (y ∷ []) d hp ne hj = ground arith
pred_of-remove p x j (y ∷ z ∷ zs) d hp ne hj =
    ground (arith, pred_of-remove (some y) x j (z ∷ zs) d.1, elem_of_succ x y (z ∷ zs))

pub last_or-remove :
    (p : Option ℕ) (x : ℕ) (xs : List ℕ)
    → Distinct xs
    → elem x xs ≡ true
    → last_or p (remove x xs) ≡ (if is (last_or p xs) x then pred_of p x xs else last_or p xs)
last_or-remove p x [] d h = absurd (ground arith)
last_or-remove p x (y ∷ []) d h = ground arith
last_or-remove p x (y ∷ z ∷ zs) d h =
    ground (arith, last_or-remove (some y) x (z ∷ zs) d.1, elem_of_last (some z) x zs)

-- Insertion at the front.
pub pred_of-cons :
    (x j : ℕ) (xs : List ℕ)
    → pred_of (some x) j xs ≡ (if is (first xs) j then some x else pred_of none j xs)
pred_of-cons x j [] = refl
pred_of-cons x j (y ∷ ys) = ground arith

-- Insertion at the back.
pub succ_of-snoc :
    (p : Option ℕ) (x j : ℕ) (xs : List ℕ)
    → Distinct xs
    → elem j xs ≡ true
    → succ_of j (xs ++ x ∷ []) ≡ (if is (last_or p xs) j then some x else succ_of j xs)
succ_of-snoc p x j [] d h = absurd (ground arith)
succ_of-snoc p x j (y ∷ []) d h = ground arith
succ_of-snoc p x j (y ∷ z ∷ zs) d h =
    ground (arith, succ_of-snoc (some y) x j (z ∷ zs) d.1, elem_of_last (some z) j zs)

pub succ_of-snoc_self : (x : ℕ) (xs : List ℕ) → elem x xs ≡ false → succ_of x (xs ++ x ∷ []) ≡ none
succ_of-snoc_self x [] h = ground arith
succ_of-snoc_self x (y ∷ ys) h = ground (arith, succ_of-snoc_self x ys)

pub pred_of-snoc :
    (p : Option ℕ) (x j : ℕ) (xs : List ℕ)
    → elem x xs ≡ false
    → pred_of p j (xs ++ x ∷ [])
      ≡ (if elem j xs then pred_of p j xs else if x == j then last_or p xs else none)
pred_of-snoc p x j [] h = ground arith
pred_of-snoc p x j (y ∷ ys) h = ground (arith, pred_of-snoc (some y) x j ys)

pub last_or-snoc : (p : Option ℕ) (x : ℕ) (xs : List ℕ) → last_or p (xs ++ x ∷ []) ≡ some x
last_or-snoc p x [] = refl
last_or-snoc p x (y ∷ ys) = last_or-snoc (some y) x ys

pub elem-snoc : (x j : ℕ) (xs : List ℕ) → elem j (xs ++ x ∷ []) ≡ (elem j xs || (x == j))
elem-snoc x j [] = ground arith
elem-snoc x j (y ∷ ys) = ground (arith, elem-snoc x j ys)

pub snoc-Distinct :
    (x : ℕ) (xs : List ℕ) → elem x xs ≡ false → Distinct xs → Distinct (xs ++ x ∷ [])
snoc-Distinct x [] h d = (refl, tt)
snoc-Distinct x (y ∷ ys) h d = ground (arith, snoc-Distinct x ys, elem-snoc x y ys)

pub last_or-some : (y : ℕ) (ys : List ℕ) → (z : ℕ) × (last_or (some y) ys ≡ some z)
last_or-some y [] = (y, refl)
last_or-some y (z ∷ zs) = last_or-some z zs

abbrev pub is_none : Option ℕ → Bool
is_none none = true
is_none (some x) = false

pred_of-some : (y x : ℕ) (ys : List ℕ) → elem x ys ≡ true → is_none (pred_of (some y) x ys) ≡ false
pred_of-some y x [] h = absurd (ground arith)
pred_of-some y x (z ∷ zs) h = ground (arith, pred_of-some z x zs)

-- Only the first element has nothing before it, and only the last one nothing behind it.
pub pred_of-none :
    (x : ℕ) (xs : List ℕ) → elem x xs ≡ true → is_none (pred_of none x xs) ≡ is (first xs) x
pred_of-none x [] h = absurd (ground arith)
pred_of-none x (y ∷ ys) h = ground (arith, pred_of-some y x ys)

pub succ_of-none :
    (p : Option ℕ) (x : ℕ) (xs : List ℕ)
    → Distinct xs
    → elem x xs ≡ true
    → is_none (succ_of x xs) ≡ is (last_or p xs) x
succ_of-none p x [] d h = absurd (ground arith)
succ_of-none p x (y ∷ []) d h = ground arith
succ_of-none p x (y ∷ z ∷ zs) d h =
    ground (arith, succ_of-none (some y) x (z ∷ zs) d.1, elem_of_last (some z) x zs)
