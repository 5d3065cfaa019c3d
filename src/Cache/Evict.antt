-- ===== src/Cache/Evict.antt =====
-- The eviction loop: it takes entries from the cold end only, and its fuel is enough.
use mathlib.Core.List.{append_assoc, append-nil}
use meitte.Base.{
  ℕ, zero, suc, ◌+◌, ◌≤◌, ◌≡◌, refl, ◌⊎◌, inl, inr, true, false, List, [], ◌∷◌, ◌++◌, none, some,
  arith, elem, Distinct, remove, weight, total, AllBelow, length, length-append, Bool-cases,
  Option-cases, sym, ◌∙◌, ap, last_or,
}
use meitte.Lru.Neighbours.{elem_of_last, last_or-some, elem-snoc}
use meitte.Cache.Defs.{Shape, Cache, n_entry}
use meitte.Cache.Entry.{evict_entry}
use meitte.Cache.Budget.{Guard, may_evict, evict_choice, evict_loop, evict_to_budget}
use meitte.Cache.Invariant.{Keeps, Fits, weight-le-total}
use meitte.Cache.Touch.{evict_entry-Keeps}

-- The coldest entry split off.
pub remove-last :
    (id : ℕ) (xs : List ℕ)
    → Distinct xs
    → last_or none xs ≡ some id
    → (elem id xs ≡ true) × (xs ≡ remove id xs ++ id ∷ [])
remove-last id [] d h = absurd (ground arith)
remove-last id (x ∷ []) d h = ground arith
remove-last id (x ∷ y ∷ ys) d h = ground (
  arith,
  remove-last id (y ∷ ys) d.1,
  elem_of_last none x (y ∷ ys),
  elem_of_last none id (y ∷ ys),
)

length-weight : (xs : List ℕ) → weight (λ _. 1) xs ≡ length xs
length-weight [] = refl
length-weight (x ∷ xs) = omega (arith, length-weight xs)

total-one : (n : ℕ) → total (λ _. 1) n ≡ n
total-one zero = refl
total-one (suc n) = omega (arith, total-one n)

-- There are no more resident entries than entries.
pub length-le-n_entry : (n : ℕ) (xs : List ℕ) → Distinct xs → AllBelow n xs → length xs ≤ n
length-le-n_entry n xs d b =
    omega (arith, weight-le-total (λ _. 1) n xs d b, length-weight xs, total-one n)

-- Why the loop stopped: the cache is within its budget, or the coldest entry is protected.
abbrev pub Settled : Guard → Cache → Type 0
Settled g c =
    (c.cresident ≤ c.cache_max) ⊎ ((id : ℕ) × (c.links.tail ≡ some id) × (may_evict g c id ≡ false))

-- What the loop does to a cache that holds `xs`: a prefix stays, the rest was evicted.
pub record Evicted (s : Shape) (g : Guard) (c d : Cache) (xs ys : List ℕ) : Type 0 where
  pub cold : List ℕ
  pub keeps : Keeps s d ys
  pub split : xs ≡ ys ++ cold
  pub stamps : d.cstamp ≡ c.cstamp
  pub same_gen : d.cgen ≡ c.cgen
  pub same_max : d.cache_max ≡ c.cache_max
  pub settled : Settled g d
  pub allowed : (id : ℕ) → elem id cold ≡ true → may_evict g c id ≡ true

evict_entry-fields :
    (s : Shape) (id : ℕ) (c : Cache)
    → ((evict_entry s id c).cstamp ≡ c.cstamp)
      × ((evict_entry s id c).cgen ≡ c.cgen)
      × ((evict_entry s id c).cache_max ≡ c.cache_max)
unfolding evict_entry
evict_entry-fields s id c = (refl, refl, refl)

stopped :
    (s : Shape) (g : Guard) (c : Cache) (xs : List ℕ)
    → Keeps s c xs
    → Settled g c
    → (ys : List ℕ) × Evicted s g c c xs ys
stopped s g c xs k h = (
  xs,
  record {
    cold = [];
    keeps = k;
    split = sym (append-nil xs);
    stamps = refl;
    same_gen = refl;
    same_max = refl;
    settled = h;
    allowed = λ id e. absurd (ground arith);
  },
)

module _ (s : Shape) (fits : Fits s) (g : Guard) where
  may_evict-evict_entry :
      (c : Cache) (x id : ℕ) → may_evict g (evict_entry s x c) id ≡ may_evict g c id
  unfolding evict_entry
  may_evict-evict_entry c x id = ground arith

  step_Evicted :
      (c d : Cache) (xs : List ℕ) (id : ℕ) (ys : List ℕ)
      → xs ≡ remove id xs ++ id ∷ []
      → may_evict g c id ≡ true
      → Evicted s g (evict_entry s id c) d (remove id xs) ys
      → Evicted s g c d xs ys
  step_Evicted c d xs id ys e m v =
      let (st, ge, ma) = evict_entry-fields s id c in
      record {
        cold = v.cold ++ id ∷ [];
        keeps = v.keeps;
        split = e ∙ ap (λ z. z ++ id ∷ []) v.split ∙ append_assoc ys v.cold (id ∷ []);
        stamps = v.stamps ∙ st;
        same_gen = v.same_gen ∙ ge;
        same_max = v.same_max ∙ ma;
        settled = v.settled;
        allowed =
            λ i h. ground (arith, v.allowed i, may_evict-evict_entry c id i, elem-snoc id i v.cold);
      }

  -- Without a next entry the loop is settled; with one, it is the tail.
  no_choice : (c : Cache) (xs : List ℕ) → Keeps s c xs → evict_choice g c ≡ none → Settled g c
  unfolding evict_choice
  no_choice c [] k h = inl (omega (arith, k.counted))
  no_choice c (x ∷ xs) k h = no_choice_tail (last_or-some x xs)
    where
      no_choice_tail : (z : ℕ) × (last_or (some x) xs ≡ some z) → Settled g c
      no_choice_tail (z, e) = elim (Bool-cases (may_evict g c z)) [
        | inr kept ↦ inr (z, k.holds.at_tail ∙ e, kept)
        | inl taken ↦ inl (ground (arith, k.holds.at_tail ∙ e))
      ]

  choice :
      (c : Cache) (id : ℕ)
      → evict_choice g c ≡ some id
      → (c.links.tail ≡ some id) × (may_evict g c id ≡ true)
  unfolding evict_choice
  choice c id h = ground arith

  pub evict_loop-Evicted :
      (fuel : ℕ) (c : Cache) (xs : List ℕ)
      → Keeps s c xs
      → length xs ≤ fuel
      → (ys : List ℕ) × Evicted s g c (evict_loop fuel g s c) xs ys
  unfolding evict_loop
  evict_loop-Evicted zero c [] k h = stopped s g c [] k (inl (omega (arith, k.counted)))
  evict_loop-Evicted zero c (x ∷ xs) k h = absurd (omega arith)
  evict_loop-Evicted (suc fuel) c xs k h = elim (Option-cases (evict_choice g c)) [
    | inl stop ↦ rw (stop, evict_loop) (stopped s g c xs k (no_choice c xs k stop))
    | inr (id, next) ↦
        let (at, taken) = choice c id next in
        let (m, e) = remove-last id xs k.holds.distinct (sym k.holds.at_tail ∙ at) in
        let l : length xs ≡ length (remove id xs) + 1 =
          ap length e ∙ length-append (remove id xs) (id ∷ []) in
        let (ys, v) =
          evict_loop-Evicted fuel (evict_entry s id c) (remove id xs)
            (evict_entry-Keeps s fits c xs k id m) (omega arith) in
        rw (next, evict_loop) (ys, step_Evicted c _ xs id ys e taken v)
  ]

  -- From a state that keeps the invariant, where all experts have fewer than 2^64 bytes, the
  -- eviction loop ends for its own reason, never for want of fuel: the budget is met or the cold
  -- end may not be evicted. It takes entries from the cold end only, each one that may be evicted,
  -- and keeps the invariant, the stamps, the generation and the budget.
  pub evict_to_budget-Evicted :
      (c : Cache) (xs : List ℕ)
      → Keeps s c xs
      → (ys : List ℕ) × Evicted s g c (evict_to_budget g s c) xs ys
  unfolding evict_to_budget
  evict_to_budget-Evicted c xs k =
      evict_loop-Evicted (n_entry s) c xs k
        (length-le-n_entry (n_entry s) xs k.holds.distinct k.below)
