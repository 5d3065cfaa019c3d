-- ===== src/Ngram/Scan.antt =====
-- The backward scan finds the longest match, and of those the most recent.
use meitte.Base.{
  ℕ, zero, suc, ◌≤◌, ◌<◌, ◌≡◌, refl, true, false, ◌==◌, ◌&&◌, ◌||◌, ltb, leb, arith, Bool-cases,
  inl, inr, ◌⊎◌,
}
use mathlib.Core.Path.{subst}
use meitte.Ngram.{Best, better, scan}

-- What a scan from `j` down to `j_min` makes of `b`.
pub record Scanned (len : ℕ → ℕ) (j_min j : ℕ) (b r : Best) : Type 0 where
  pub no_less : b.0 ≤ r.0
  pub longest : (i : ℕ) → j_min ≤ i → i ≤ j → len i ≤ r.0
  pub place :
      (r ≡ b)
      ⊎ ((r.1 ≤ j) × (len r.1 ≡ r.0) × (b.0 < r.0) × ((i : ℕ) → r.1 < i → i ≤ j → len i < r.0))

module _ (len : ℕ → ℕ) (cap j_min : ℕ) (capped : (i : ℕ) → len i ≤ cap) where
  at_once :
      (j : ℕ) (b : Best)
      → (((ltb b.0 (len j) && (len j == cap)) || leb j j_min) ≡ true)
      → Scanned len j_min j b (better len j b)
  at_once j b stop = elim (Bool-cases (ltb b.0 (len j))) [
    | inl up ↦ rw up record {
      no_less = ground arith;
      longest = λ i lo hi. ground (arith, capped i);
      place = inr (omega arith, refl, ground arith, λ i lo hi. absurd (omega arith));
    }
    | inr same ↦
        rw same
          record { no_less = omega arith; longest = λ i lo hi. ground arith; place = inl refl }
  ]

  later :
      (j : ℕ) (b r : Best)
      → Scanned len j_min j (better len (suc j) b) r
      → Scanned len j_min (suc j) b r
  later j b r v = elim (Bool-cases (ltb b.0 (len (suc j)))) [
    | inl up ↦ later_up up (subst (λ x. Scanned len j_min j x r) (rw up refl) v)
    | inr same ↦ later_same same (subst (λ x. Scanned len j_min j x r) (rw same refl) v)
  ]
    where
      later_up :
          ltb b.0 (len (suc j)) ≡ true
          → Scanned len j_min j (len (suc j), suc j) r
          → Scanned len j_min (suc j) b r
      later_up up w = record {
        no_less = ground (arith, w.no_less);
        longest = λ i lo hi. ground (arith, w.no_less, w.longest i);
        place = elim w.place [
          | inl e ↦ rw e (inr (omega arith, refl, ground arith, λ i a c. absurd (omega arith)))
          | inr (le, eq, lt, recent) ↦
              inr (omega arith, eq, ground arith, λ i a c. ground (arith, recent i))
        ];
      }

      later_same :
          ltb b.0 (len (suc j)) ≡ false → Scanned len j_min j b r → Scanned len j_min (suc j) b r
      later_same same w = record {
        no_less = w.no_less;
        longest = λ i lo hi. ground (arith, w.no_less, w.longest i);
        place = elim w.place [
          | inl e ↦ inl e
          | inr (le, eq, lt, recent) ↦ inr (omega arith, eq, lt, λ i a c. ground (arith, recent i))
        ];
      }

  pub scan-Scanned : (j : ℕ) (b : Best) → Scanned len j_min j b (scan len cap j_min j b)
  unfolding scan
  scan-Scanned zero b = at_once 0 b (ground arith)
  scan-Scanned (suc j) b =
      elim (Bool-cases ((ltb b.0 (len (suc j)) && (len (suc j) == cap)) || leb (suc j) j_min)) [
        | inl stop ↦ rw (stop, scan) (at_once (suc j) b stop)
        | inr go ↦ rw (go, scan) (later j b _ (scan-Scanned j (better len (suc j) b)))
      ]
