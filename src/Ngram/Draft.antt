-- ===== src/Ngram/Draft.antt =====
-- What the n-gram source drafts, from the corpus alone.
use meitte.Base.{
  ℕ, zero, suc, ◌+◌, ◌-◌, ◌≤◌, ◌<◌, ◌≡◌, ◌⊎◌, inl, inr, refl, ap, ◌∙◌, false, List, [], some, ltb,
  leb, arith, min, Bool-cases, length, get_elem?, pos, ltb_ℤ, leb_ℤ,
}
use meitte.Ngram.{Best, scan, token_at, match_len, tokens_from, draft_within, ngram_draft}
use meitte.Ngram.Suffix.{Suffix, match_len-Suffix}
use meitte.Ngram.Scan.{Scanned, scan-Scanned}

-- `out` is what followed the match of length `m` at `j`, up to `n` tokens; no position has a longer
-- match (up to the high), and no later one an equally long match.
pub record DraftOf (at : ℕ → ℕ) (end n high : ℕ) (out : List ℕ) (j m : ℕ) : Type 0 where
  pub position : j < end
  pub matches : Suffix at end m j
  pub longest : (i k : ℕ) → i < end → k ≤ high → Suffix at end k i → k ≤ m
  pub recent : (i k : ℕ) → j < i → i < end → k ≤ high → Suffix at end k i → k < m
  pub count : length out ≡ min n (end - j)
  pub tokens : (i : ℕ) → i < length out → get_elem? out i ≡ some (at (j + 1 + i))

tokens_from-length : (at : ℕ → ℕ) (start n : ℕ) → length (tokens_from at start n) ≡ n
unfolding tokens_from
tokens_from-length at start zero = refl
tokens_from-length at start (suc n) = omega (arith, tokens_from-length at (start + 1) n)

tokens_from-at :
    (at : ℕ → ℕ) (start n i : ℕ)
    → i < n
    → get_elem? (tokens_from at start n) i ≡ some (at (start + i))
unfolding tokens_from
tokens_from-at at start zero i h = absurd (omega arith)
tokens_from-at at start (suc n) zero h = ap (λ x. some (at x)) (omega arith)
tokens_from-at at start (suc n) (suc i) h =
    tokens_from-at at (start + 1) n i (omega arith) ∙ ap (λ x. some (at x)) (omega arith)

-- Nothing is drafted and no position matches enough, or a draft.
abbrev pub Drafted : (ℕ → ℕ) → ℕ → ℕ → ℕ → ℕ → List ℕ → Type 0
Drafted at end n low high out =
    ((out ≡ []) × ((i : ℕ) → i < end → ¬ Suffix at end low i))
    ⊎ ((j : ℕ) × (m : ℕ) × (low ≤ m) × (m ≤ high) × DraftOf at end n high out j m)

module _ (at : ℕ → ℕ) (end n low high : ℕ) (some_low : 0 < low) (le : low ≤ high) where
  abbrev len : ℕ → ℕ
  len = match_len at end high

  abbrev best : Best
  best = scan len high (low - 1) (end - 1) (0, 0)

  len-Suffix :
      (i : ℕ)
      → Suffix at end (len i) i
        × (len i ≤ high)
        × ((k : ℕ) → k ≤ high → Suffix at end k i → k ≤ len i)
  len-Suffix i = match_len-Suffix at end high i (omega arith)

  found : Scanned len (low - 1) (end - 1) (0, 0) best
  found = scan-Scanned len high (low - 1) (λ i. (len-Suffix i).1) (end - 1) (0, 0)

  -- A suffix that is long enough lies where the scan looks.
  seen : (i k : ℕ) → i < end → k ≤ high → low ≤ k → Suffix at end k i → k ≤ best.0
  seen i k lt kc lk s =
      let a : k ≤ len i = (len-Suffix i).2 k kc s in
      let b : len i ≤ best.0 = found.longest i (omega (arith, s.0)) (omega arith) in omega arith

  nothing : best.0 < low → (i : ℕ) → i < end → ¬ Suffix at end low i
  nothing h i lt s = omega (arith, seen i low lt le (omega arith) s)

  something :
      1 ≤ end
      → low ≤ best.0
      → (best.0 ≤ high)
        × DraftOf at end n high (tokens_from at (best.1 + 1) (min n (end - best.1))) best.1 best.0
  something e h = elim found.place [
    | inl same ↦ absurd (let z : best.0 ≡ 0 = ap (λ (p : Best). p.0) same in omega arith)
    | inr (lt, eq, pos_m, recent) ↦ (
      omega (arith, (len-Suffix best.1).1),
      record {
        position = omega arith;
        matches = rw (← eq) (len-Suffix best.1).0;
        longest = λ i k hi hk s. elim (Bool-cases (leb low k)) [
          | inl big ↦ seen i k hi hk (ground arith) s
          | inr small ↦ ground arith
        ];
        recent = λ i k after hi hk s.
            let a : k ≤ len i = (len-Suffix i).2 k hk s in
            omega (arith, recent i after (omega arith));
        count = tokens_from-length at (best.1 + 1) (min n (end - best.1));
        tokens = λ i hi.
            tokens_from-at at (best.1 + 1) (min n (end - best.1)) i
              (omega (arith, tokens_from-length at (best.1 + 1) (min n (end - best.1))));
      },
    )
  ]

draft_within-Drafted :
    (ctx : List ℕ) (last n low high : ℕ)
    → 0 < low
    → low ≤ high
    → Drafted (token_at ctx last) (length ctx) n low high (draft_within ctx last n low high)
unfolding draft_within
draft_within-Drafted ctx last n low high some_low le =
    let at = token_at ctx last in
    let end = length ctx in
    let b = best at end n low high some_low le in
    elim (Bool-cases (ltb (end + 1) (low + 1))) [
      | inl short ↦ rw short (inl (refl, λ i lt s. ground (arith, s.0)))
      | inr long ↦ elim (Bool-cases (ltb b.0 low)) [
        | inl weak ↦
            rw (long, weak) (inl (refl, nothing at end n low high some_low le (ground arith)))
        | inr strong ↦
            rw (long, strong)
              (let v = something at end n low high some_low le (ground arith) (ground arith) in
                inr (b.1, b.0, ground arith, v.0, v.1))
      ]
    ]

-- For a positive draft length n and match bounds 1 ≤ low ≤ high: nothing is drafted exactly where
-- no earlier position repeats the last low tokens; otherwise the draft is what followed the longest
-- repetition (up to high tokens), of equally long ones the most recent, cut at n tokens and the
-- corpus's end.
pub ngram_draft-Drafted :
    (ctx : List ℕ) (last n low high : ℕ)
    → 0 < n
    → 0 < low
    → low ≤ high
    → Drafted
        (token_at ctx last)
        (length ctx)
        n
        low
        high
        (ngram_draft ctx last (pos n) (pos low) (pos high))
unfolding ngram_draft
ngram_draft-Drafted ctx last n low high some_n some_low le =
    let a : leb_ℤ (pos n) (pos 0) ≡ false = ground arith in
    let b : ltb_ℤ (pos low) (pos 1) ≡ false = ground arith in
    let c : ltb_ℤ (pos high) (pos low) ≡ false = ground arith in
    rw (a, b, c) (draft_within-Drafted ctx last n low high some_low le)
