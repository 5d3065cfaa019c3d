-- ===== src/Base/Ids.antt =====
-- Lists of indices: membership as a test, repetition, removal, neighbours and weights.
use Prim.Native.Nat.{ℕ, zero, suc, ◌+◌, ◌<◌}
use mathlib.Core.Path.{◌≡◌, refl}
use mathlib.Core.Logic.{◌≢◌}
use mathlib.Core.Bool.{Bool, true, false, ◌||◌}
use mathlib.Core.List.{List, [], ◌∷◌, ◌++◌}
use mathlib.Core.Option.{Option, none, some}
use native.Mathlib.Omega.{arith}
use meitte.Base.Tests.{◌==◌, if◌then◌else◌}

-- An array as a function of the index, and a write to it.
abbrev pub update {ℓ} : {A : Type ℓ} → (ℕ → A) → ℕ → A → ℕ → A
update f i v j = if i == j then v else f j

abbrev pub elem : ℕ → List ℕ → Bool
elem x [] = false
elem x (y ∷ ys) = (y == x) || elem x ys

abbrev pub Distinct : List ℕ → Type 0
Distinct [] = Unit {0}
Distinct (x ∷ xs) = (elem x xs ≡ false) × Distinct xs

-- The list without the first occurrence of `x`.
abbrev pub remove : ℕ → List ℕ → List ℕ
remove x [] = []
remove x (y ∷ ys) = if y == x then ys else y ∷ remove x ys

abbrev pub first : List ℕ → Option ℕ
first [] = none
first (x ∷ xs) = some x

-- The last element, or `p` when there is none.
abbrev pub last_or : Option ℕ → List ℕ → Option ℕ
last_or p [] = p
last_or p (x ∷ xs) = last_or (some x) xs

abbrev pub is : Option ℕ → ℕ → Bool
is none j = false
is (some i) j = i == j

-- The element before `x` (`p` before the first one), and the element behind it.
abbrev pub pred_of : Option ℕ → ℕ → List ℕ → Option ℕ
pred_of p x [] = none
pred_of p x (y ∷ ys) = if y == x then p else pred_of (some y) x ys

abbrev pub succ_of : ℕ → List ℕ → Option ℕ
succ_of x [] = none
succ_of x (y ∷ ys) = if y == x then first ys else succ_of x ys

abbrev pub weight : (ℕ → ℕ) → List ℕ → ℕ
weight w [] = 0
weight w (x ∷ xs) = w x + weight w xs

abbrev pub total : (ℕ → ℕ) → ℕ → ℕ
total w zero = 0
total w (suc n) = w n + total w n

abbrev pub AllBelow : ℕ → List ℕ → Type 0
AllBelow n [] = Unit {0}
AllBelow n (x ∷ xs) = (x < n) × AllBelow n xs

pub elem-remove_self : (x : ℕ) (xs : List ℕ) → Distinct xs → elem x (remove x xs) ≡ false
elem-remove_self x [] d = refl
elem-remove_self x (y ∷ ys) d = ground (arith, elem-remove_self x ys)

pub elem-remove_ne : (x j : ℕ) (xs : List ℕ) → j ≢ x → elem j (remove x xs) ≡ elem j xs
elem-remove_ne x j [] h = refl
elem-remove_ne x j (y ∷ ys) h = ground (arith, elem-remove_ne x j ys)

pub remove-Distinct : (x : ℕ) (xs : List ℕ) → Distinct xs → Distinct (remove x xs)
remove-Distinct x [] d = tt
remove-Distinct x (y ∷ ys) d = ground (arith, remove-Distinct x ys d.1, elem-remove_ne x y ys)

pub weight-remove :
    (w : ℕ → ℕ) (x : ℕ) (xs : List ℕ)
    → elem x xs ≡ true
    → weight w (remove x xs) + w x ≡ weight w xs
weight-remove w x [] h = absurd (ground arith)
weight-remove w x (y ∷ ys) h = ground (arith, weight-remove w x ys)

pub elem-append : (i : ℕ) (xs ys : List ℕ) → elem i (xs ++ ys) ≡ (elem i xs || elem i ys)
elem-append i [] ys = refl
elem-append i (x ∷ xs) ys = ground (arith, elem-append i xs ys)
