-- ===== src/Router/Ranked.antt =====
-- About `rank_top_k`: the choice among the free experts, and the ranking as a whole.
use mathlib.Core.Path.{subst}
use meitte.Base.{
  ℕ, zero, suc, ◌+◌, ◌≤◌, ◌<◌, ◌≡◌, refl, inl, inr, ◌⊎◌, true, false, min, List, [], ◌∷◌, ◌++◌,
  Option, none, some, ◌==◌, arith, elem, elem-append, elem-remove_ne, remove, Distinct, AllBelow,
  length, length-append, Bool-cases, Option-cases, sym, ◌∙◌, ap,
}
use meitte.Lru.Neighbours.{snoc-Distinct}
use meitte.Cache.Quiesce.{snoc-AllBelow}
use meitte.Router.Defs.{Floats, IsOrdered}
use meitte.Router.Rank.{consider, best_below, rank_from, rank_top_k}

length-remove : (x : ℕ) (xs : List ℕ) → elem x xs ≡ true → length xs ≡ suc (length (remove x xs))
length-remove x [] h = absurd (ground (arith, h))
length-remove x (y ∷ ys) h = elim (Bool-cases (y == x)) [
  | inl same ↦ rw same refl
  | inr other ↦ rw other (ap suc (length-remove x ys (ground (arith, h, other))))
]

-- A list that has every number below `n` is at least that long.
le-length : (n : ℕ) (xs : List ℕ) → ((e : ℕ) → e < n → elem e xs ≡ true) → n ≤ length xs
le-length zero xs h = omega arith
le-length (suc n) xs h = omega (
  arith,
  length-remove n xs (h n (omega arith)),
  le-length n (remove n xs)
      (λ e lt. elem-remove_ne n e xs (omega (arith, lt)) ∙ h e (omega (arith, lt))),
)

-- Whatever `<` answers, a choice is a free expert.
module _ (fl : Floats) (scores : ℕ → fl.Float) where
  abbrev Free : List ℕ → ℕ → ℕ → Type 0
  Free out n b = (b < n) × (elem b out ≡ false)

  consider-Free :
      (out : List ℕ) (n b : ℕ) (o : Option ℕ)
      → ((c : ℕ) → o ≡ some c → Free out n c)
      → consider fl scores out n o ≡ some b
      → Free out (suc n) b
  unfolding consider
  consider-Free out n b none h e = elim (Bool-cases (elem n out)) [
    | inl used ↦ absurd (ground (arith, rw used at e))
    | inr free ↦
        let eq : n ≡ b = ground (arith, rw free at e) in
        subst (Free out (suc n)) eq (omega arith, free)
  ]
  consider-Free out n b (some c) h e = elim (Bool-cases (elem n out)) [
    | inl used ↦
        let eq : c ≡ b = ground (arith, rw used at e) in
        let (lt_n, free) = h c refl in subst (Free out (suc n)) eq (omega (arith, lt_n), free)
    | inr free ↦ elim (Bool-cases (fl.lt (scores c) (scores n))) [
      | inl beaten ↦
          let eq : n ≡ b = ground (arith, rw (free, beaten) at e) in
          subst (Free out (suc n)) eq (omega arith, free)
      | inr kept ↦
          let eq : c ≡ b = ground (arith, rw (free, kept) at e) in
          let (lt_n, open_one) = h c refl in
          subst (Free out (suc n)) eq (omega (arith, lt_n), open_one)
    ]
  ]

  best_below-Free : (out : List ℕ) (n b : ℕ) → best_below fl scores out n ≡ some b → Free out n b
  unfolding best_below
  best_below-Free out zero b h = absurd (ground (arith, h))
  best_below-Free out (suc n) b h =
      consider-Free out n b (best_below fl scores out n) (λ c e. best_below-Free out n c e) h

  rank_from-once :
      (n want : ℕ) (out : List ℕ)
      → Distinct out
      → AllBelow n out
      → Distinct (rank_from fl scores n want out) × AllBelow n (rank_from fl scores n want out)
  unfolding rank_from
  rank_from-once n zero out d b = (d, b)
  rank_from-once n (suc want) out d b = elim (Option-cases (best_below fl scores out n)) [
    | inl nobody ↦ rw (nobody, rank_from) (d, b)
    | inr (c, found) ↦
        let (lt_n, free) = best_below-Free out n c found in
        rw (found, rank_from)
          (rank_from-once n want (out ++ c ∷ []) (snoc-Distinct c out free d)
            (snoc-AllBelow n c out b lt_n))
  ]

  pub rank_top_k-once :
      (n k : ℕ) → Distinct (rank_top_k fl scores n k) × AllBelow n (rank_top_k fl scores n k)
  unfolding rank_top_k
  rank_top_k-once n k = rank_from-once n (min k n) [] tt tt

module _ (fl : Floats) (laws : IsOrdered fl) (scores : ℕ → fl.Float) where
  open fl use {lt}

  -- The choice among the experts below `n`: a free one that no free one beats, if any is free.
  abbrev Choice : List ℕ → ℕ → Option ℕ → Type 0
  Choice out n none = (e : ℕ) → e < n → elem e out ≡ true
  Choice out n (some b) =
      (b < n)
      × (elem b out ≡ false)
      × ((e : ℕ) → e < n → elem e out ≡ false → lt (scores b) (scores e) ≡ false)

  consider-Choice :
      (out : List ℕ) (n : ℕ) (o : Option ℕ)
      → Choice out n o
      → Choice out (suc n) (consider fl scores out n o)
  unfolding consider
  consider-Choice out n none h = elim (Bool-cases (elem n out)) [
    | inl used ↦ rw used (λ e below. at_most e below used)
    | inr free ↦ rw free (omega arith, free, λ e below g. only e below free g)
  ]
    where
      at_most : (e : ℕ) → e < suc n → elem n out ≡ true → elem e out ≡ true
      at_most e below used = elim (Bool-cases (e == n)) [
        | inl same ↦ let eq : e ≡ n = ground arith in rw eq used
        | inr other ↦ h e (ground (arith, below, other))
      ]

      only :
          (e : ℕ)
          → e < suc n
          → elem n out ≡ false
          → elem e out ≡ false
          → lt (scores n) (scores e) ≡ false
      only e below free g = elim (Bool-cases (e == n)) [
        | inl same ↦
            let eq : e ≡ n = ground arith in
            ap (λ z. lt (scores n) (scores z)) eq ∙ laws.irrefl (scores n)
        | inr other ↦ absurd (ground (arith, h e (ground (arith, below, other)), g))
      ]
  consider-Choice out n (some b) h = elim (Bool-cases (elem n out)) [
    | inl used ↦ rw used (omega (arith, h.0), h.1, λ e below g. stays e below g (inl used))
    | inr free ↦ elim (Bool-cases (lt (scores b) (scores n))) [
      | inr kept ↦
          rw (free, kept) (omega (arith, h.0), h.1, λ e below g. stays e below g (inr kept))
      | inl beaten ↦ rw (free, beaten) (omega arith, free, λ e below g. wins e below g beaten)
    ]
  ]
    where
      stays :
          (e : ℕ)
          → e < suc n
          → elem e out ≡ false
          → (elem n out ≡ true) ⊎ (lt (scores b) (scores n) ≡ false)
          → lt (scores b) (scores e) ≡ false
      stays e below g why = elim (Bool-cases (e == n)) [
        | inr other ↦ h.2 e (ground (arith, below, other)) g
        | inl same ↦
            let eq : e ≡ n = ground arith in
            elim why [
              | inl used ↦ absurd (ground (arith, used, g, eq))
              | inr kept ↦ ap (λ z. lt (scores b) (scores z)) eq ∙ kept
            ]
      ]

      wins :
          (e : ℕ)
          → e < suc n
          → elem e out ≡ false
          → lt (scores b) (scores n) ≡ true
          → lt (scores n) (scores e) ≡ false
      wins e below g beaten = elim (Bool-cases (e == n)) [
        | inl same ↦
            let eq : e ≡ n = ground arith in
            ap (λ z. lt (scores n) (scores z)) eq ∙ laws.irrefl (scores n)
        | inr other ↦
            laws.weak (scores n) (scores b) (scores e) (laws.asym (scores b) (scores n) beaten)
              (h.2 e (ground (arith, below, other)) g)
      ]

  pub best_below-Choice : (out : List ℕ) (n : ℕ) → Choice out n (best_below fl scores out n)
  unfolding best_below
  best_below-Choice out zero = λ e h. absurd (omega (arith, h))
  best_below-Choice out (suc n) =
      consider-Choice out n (best_below fl scores out n) (best_below-Choice out n)

  -- The list names experts below `n`, each once, and none that is left out beats one of them.
  pub record Ranked (n : ℕ) (out : List ℕ) : Type 0 where
    pub once : Distinct out
    pub below : AllBelow n out
    pub best :
        (b e : ℕ)
        → elem b out ≡ true
        → e < n
        → elem e out ≡ false
        → lt (scores b) (scores e) ≡ false

  snoc-Ranked :
      (n b : ℕ) (out : List ℕ) → Ranked n out → Choice out n (some b) → Ranked n (out ++ b ∷ [])
  snoc-Ranked n b out r c = record {
    once = snoc-Distinct b out c.1 r.once;
    below = snoc-AllBelow n b out r.below c.0;
    best = λ d e m lt_n left.
        let free : elem e out ≡ false = ground (arith, left, elem-append e out (b ∷ [])) in
        elim (Bool-cases (elem d out)) [
          | inl old ↦ r.best d e old lt_n free
          | inr new ↦
              let eq : b ≡ d = ground (arith, m, new, elem-append d out (b ∷ [])) in
              ap (λ z. lt (scores z) (scores e)) (sym eq) ∙ c.2 e lt_n free
        ];
  }

  rank_from-Ranked :
      (n want : ℕ) (out : List ℕ)
      → Ranked n out
      → length out + want ≤ n
      → Ranked n (rank_from fl scores n want out)
        × (length (rank_from fl scores n want out) ≡ length out + want)
  unfolding rank_from
  rank_from-Ranked n zero out r h = (r, omega arith)
  rank_from-Ranked n (suc want) out r h = elim (Option-cases (best_below fl scores out n)) [
    | inl nobody ↦
        let c : Choice out n none = subst (Choice out n) nobody (best_below-Choice out n) in
        absurd (omega (arith, h, le-length n out c))
    | inr (b, found) ↦
        let c : Choice out n (some b) = subst (Choice out n) found (best_below-Choice out n) in
        let (ranked, size) =
          rank_from-Ranked n want (out ++ b ∷ []) (snoc-Ranked n b out r c)
            (omega (arith, h, length-append out (b ∷ []))) in
        rw (found, rank_from) (ranked, omega (arith, size, length-append out (b ∷ [])))
  ]

  -- The ranking of the scores of n experts names k of them, or all if there are fewer, each once,
  -- and none that it leaves out has a higher score than one that it names: where comparisons order
  -- the numbers up to ties.
  pub rank_top_k-Ranked :
      (n k : ℕ)
      → Ranked n (rank_top_k fl scores n k) × (length (rank_top_k fl scores n k) ≡ min k n)
  unfolding rank_top_k
  rank_top_k-Ranked n k =
      let (ranked, size) =
        rank_from-Ranked n (min k n) []
          (record { once = tt; below = tt; best = λ b e m. absurd (ground (arith, m)) })
          (omega arith) in
      (ranked, omega (arith, size))
