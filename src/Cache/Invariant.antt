-- ===== src/Cache/Invariant.antt =====
-- The invariant of the cache: the linked list holds exactly the resident entries, and `cresident_` is
-- the sum of their bytes.
use meitte.Base.{
  ℕ, zero, suc, ◌≤◌, ◌<◌, ◌≡◌, ◌∙◌, false, List, [], ◌∷◌, arith, elem, Distinct, remove, weight,
  total, AllBelow, word, weight-remove, elem-remove_self, remove-Distinct,
}
use meitte.Lru.Refine.{Holds}
use meitte.Cache.Defs.{Shape, Cache, n_entry, entry_weight}

-- `xs` are the resident entries, hottest first.
pub record Keeps (s : Shape) (c : Cache) (xs : List ℕ) : Type 0 where
  pub holds : Holds c.links xs
  pub valid : (i : ℕ) → c.cvalid i ≡ elem i xs
  pub counted : c.cresident ≡ weight (entry_weight s) xs
  pub below : AllBelow (n_entry s) xs

-- All experts together fit the address space.
abbrev pub Fits : Shape → Type 0
Fits s = total (entry_weight s) (n_entry s) < word

pub remove-AllBelow : (n x : ℕ) (xs : List ℕ) → AllBelow n xs → AllBelow n (remove x xs)
remove-AllBelow n x [] h = tt
remove-AllBelow n x (y ∷ ys) h = ground (arith, remove-AllBelow n x ys h.1)

shrink-AllBelow : (n : ℕ) (xs : List ℕ) → AllBelow (suc n) xs → elem n xs ≡ false → AllBelow n xs
shrink-AllBelow n [] h e = tt
shrink-AllBelow n (y ∷ ys) h e = ground (arith, shrink-AllBelow n ys h.1)

-- Distinct entries weigh at most what all of them weigh.
pub weight-le-total :
    (w : ℕ → ℕ) (n : ℕ) (xs : List ℕ) → Distinct xs → AllBelow n xs → weight w xs ≤ total w n
weight-le-total w zero [] d b = omega arith
weight-le-total w zero (x ∷ xs) d b = absurd (omega arith)
weight-le-total w (suc n) xs d b = ground (
  arith,
  weight-le-total w n xs d,
  weight-le-total w n (remove n xs) (remove-Distinct n xs d),
  shrink-AllBelow n xs b,
  shrink-AllBelow n (remove n xs) (remove-AllBelow (suc n) n xs b) (elem-remove_self n xs d),
  weight-remove w n xs,
)

module _ (s : Shape) (fits : Fits s) {c : Cache} {xs : List ℕ} (k : Keeps s c xs) where
  pub cresident-lt : c.cresident < word
  cresident-lt =
      omega
        (arith, k.counted, weight-le-total (entry_weight s) (n_entry s) xs k.holds.distinct k.below)

-- The invariant reads three fields of the state.
pub same-Keeps :
    (s : Shape) (c d : Cache) (xs : List ℕ)
    → d.links ≡ c.links
    → d.cvalid ≡ c.cvalid
    → d.cresident ≡ c.cresident
    → Keeps s c xs
    → Keeps s d xs
same-Keeps s c d xs l v r k = record {
  holds = rw l k.holds;
  valid = rw v k.valid;
  counted = r ∙ k.counted;
  below = k.below;
}
