-- ===== src/Rows/Keys.antt =====
-- Lists of keys: membership, repetition, removal and weights.
use meitte.Base.{ℕ, ◌+◌, ◌≡◌, refl, Bool, true, false, ◌||◌, List, [], ◌∷◌, ◌++◌, arith}
use meitte.Rows.Slabs.{Key, same_key, remove_key}

abbrev pub elem_key : Key → List Key → Bool
elem_key k [] = false
elem_key k (q ∷ qs) = same_key q k || elem_key k qs

abbrev pub DistinctKeys : List Key → Type 0
DistinctKeys [] = Unit {0}
DistinctKeys (q ∷ qs) = (elem_key q qs ≡ false) × DistinctKeys qs

abbrev pub key_weight : (ℕ → ℕ → ℕ) → List Key → ℕ
key_weight f [] = 0
key_weight f ((t, s) ∷ qs) = f t s + key_weight f qs

pub remove_key_self :
    (k : Key) (qs : List Key) → DistinctKeys qs → elem_key k (remove_key k qs) ≡ false
remove_key_self k [] d = refl
remove_key_self (t, s) ((u, r) ∷ qs) d = ground (arith, remove_key_self (t, s) qs)

pub remove_key_ne :
    (k j : Key) (qs : List Key)
    → same_key k j ≡ false
    → elem_key j (remove_key k qs) ≡ elem_key j qs
remove_key_ne k j [] h = refl
remove_key_ne (t, s) (a, b) ((u, r) ∷ qs) h = ground (arith, remove_key_ne (t, s) (a, b) qs)

same_key-sym : (k j : Key) → same_key k j ≡ same_key j k
same_key-sym (t, s) (u, r) = ground arith

pub remove_key-DistinctKeys :
    (k : Key) (qs : List Key) → DistinctKeys qs → DistinctKeys (remove_key k qs)
remove_key-DistinctKeys k [] d = tt
remove_key-DistinctKeys (t, s) ((u, r) ∷ qs) d = ground (
  arith,
  remove_key-DistinctKeys (t, s) qs d.1,
  remove_key_ne (t, s) (u, r) qs,
  same_key-sym (t, s) (u, r),
)

pub remove_key_absent : (k : Key) (qs : List Key) → elem_key k qs ≡ false → remove_key k qs ≡ qs
remove_key_absent k [] h = refl
remove_key_absent (t, s) ((u, r) ∷ qs) h = ground (arith, remove_key_absent (t, s) qs)

pub remove_key-weight :
    (f : ℕ → ℕ → ℕ) (k : Key) (qs : List Key)
    → elem_key k qs ≡ true
    → key_weight f (remove_key k qs) + f k.0 k.1 ≡ key_weight f qs
remove_key-weight f k [] h = absurd (ground arith)
remove_key-weight f (t, s) ((u, r) ∷ qs) h = ground (arith, remove_key-weight f (t, s) qs)

pub snoc-elem_key :
    (k j : Key) (qs : List Key) → elem_key j (qs ++ k ∷ []) ≡ (same_key k j || elem_key j qs)
snoc-elem_key (t, s) (a, b) [] = ground arith
snoc-elem_key (t, s) (a, b) ((u, r) ∷ qs) = ground (arith, snoc-elem_key (t, s) (a, b) qs)

pub snoc-DistinctKeys :
    (k : Key) (qs : List Key)
    → DistinctKeys qs
    → elem_key k qs ≡ false
    → DistinctKeys (qs ++ k ∷ [])
snoc-DistinctKeys k [] d h = (refl, tt)
snoc-DistinctKeys (t, s) ((u, r) ∷ qs) d h = ground (
  arith,
  snoc-DistinctKeys (t, s) qs d.1,
  snoc-elem_key (t, s) (u, r) qs,
  same_key-sym (t, s) (u, r),
)

pub snoc-weight :
    (f : ℕ → ℕ → ℕ) (k : Key) (qs : List Key)
    → key_weight f (qs ++ k ∷ []) ≡ key_weight f qs + f k.0 k.1
snoc-weight f (t, s) [] = omega arith
snoc-weight f (t, s) ((u, r) ∷ qs) = omega (arith, snoc-weight f (t, s) qs)
