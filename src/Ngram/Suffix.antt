-- ===== src/Ngram/Suffix.antt =====
-- What `match_len` measures: the longest common suffix, capped.
use meitte.Base.{ℕ, zero, suc, ◌+◌, ◌-◌, ◌≤◌, ◌<◌, ◌≡◌, ◌==◌, arith, min, Bool-cases, inl, inr, ◌⊎◌}
use meitte.Ngram.{extend, match_len}

-- The `k` tokens up to `j` are the `k` tokens up to `end`.
abbrev pub Suffix : (ℕ → ℕ) → ℕ → ℕ → ℕ → Type 0
Suffix at end k j = (k ≤ j + 1) × ((i : ℕ) → i < k → at (j - i) ≡ at (end - i))

module _ (at : ℕ → ℕ) (end : ℕ) where
  Suffix-more :
      (k j : ℕ)
      → Suffix at end k j
      → k < j + 1
      → at (j - k) ≡ at (end - k)
      → Suffix at end (k + 1) j
  Suffix-more k j (h, f) lt e = (
    omega arith,
    λ i below. elim (split i k below) [ inl less ↦ f i less | inr same ↦ rw same e ],
  )
    where
      split : (i k : ℕ) → i < k + 1 → (i < k) ⊎ (i ≡ k)
      split i k h = ground arith

  extend-Suffix :
      (room m j : ℕ)
      → Suffix at end m j
      → m + room ≤ j + 1
      → let r = extend at j end room m in
        Suffix at end r j × (r ≤ m + room) × ((k : ℕ) → k ≤ m + room → Suffix at end k j → k ≤ r)
  unfolding extend
  extend-Suffix zero m j s h = (s, omega arith, λ k le _. omega arith)
  extend-Suffix (suc room) m j s h = elim (Bool-cases (at (j - m) == at (end - m))) [
    | inl same ↦
        let (t, le, most) =
          extend-Suffix room (m + 1) j (Suffix-more m j s (omega arith) (ground arith))
            (omega arith) in
        rw (same, extend) (t, omega arith, λ k below u. most k (omega arith) u)
    | inr differ ↦ rw (differ, extend) (s, omega arith, λ k below u. ground (arith, u.1 m))
  ]

  -- The length is one of a common suffix, within the cap, and no common suffix within it is longer.
  pub match_len-Suffix :
      (cap j : ℕ)
      → 0 < cap
      → let r = match_len at end cap j in
        Suffix at end r j × (r ≤ cap) × ((k : ℕ) → k ≤ cap → Suffix at end k j → k ≤ r)
  unfolding match_len
  match_len-Suffix cap j h = elim (Bool-cases (at j == at end)) [
    | inl same ↦
        let (t, le, most) =
          extend-Suffix (min cap (j + 1) - 1) 1 j (omega arith, λ i below. ground arith)
            (ground arith) in
        rw same (t, ground arith, λ k below u. most k (ground (arith, u.0)) u)
    | inr differ ↦ rw differ (
      (omega arith, λ i below. absurd (omega arith)),
      omega arith,
      λ k below u. ground (arith, u.1 0),
    )
  ]
