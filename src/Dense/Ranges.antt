-- ===== src/Dense/Ranges.antt =====
-- The dense ranges are the complement of the expert ranges in the file.
use meitte.Base.{
  ℕ, ◌≤◌, ◌<◌, ◌≡◌, refl, ap, ◌∙◌, Bool, false, ◌&&◌, ◌||◌, not, List, [], ◌∷◌, ltb, leb, arith,
  max, Bool-cases, inl, inr,
}
use meitte.Dense.{Range, range_le, insert, sort, gaps, byte_ranges}

abbrev pub inside : ℕ → Range → Bool
inside b (first, second) = leb first b && ltb b second

pub covered : ℕ → List Range → Bool
covered b [] = false
covered b (r ∷ rs) = inside b r || covered b rs

-- The starts ascend from `lo` on.
abbrev Ascending : ℕ → List Range → Type 0
Ascending lo [] = Unit {0}
Ascending lo ((first, second) ∷ rs) = (lo ≤ first) × Ascending first rs

insert-covered :
    (b : ℕ) (r : Range) (rs : List Range) → covered b (insert r rs) ≡ covered b (r ∷ rs)
unfolding insert covered
insert-covered b r [] = refl
insert-covered b r (q ∷ qs) = ground (arith, insert-covered b r qs)

sort-covered : (b : ℕ) (rs : List Range) → covered b (sort rs) ≡ covered b rs
unfolding sort covered
sort-covered b [] = refl
sort-covered b (r ∷ rs) =
    insert-covered b r (sort rs) ∙ ap (λ (x : Bool). inside b r || x) (sort-covered b rs)

insert-Ascending :
    (lo : ℕ) (r : Range) (rs : List Range) → lo ≤ r.0 → Ascending lo rs → Ascending lo (insert r rs)
unfolding insert
insert-Ascending lo r [] h k = (h, tt)
insert-Ascending lo r (q ∷ qs) h k = elim (Bool-cases (range_le r q)) [
  | inl before ↦ rw (before, insert) (h, (ground arith, k.1))
  | inr after ↦ rw (after, insert) (k.0, insert-Ascending q.0 r qs (ground arith) k.1)
]

sort-Ascending : (rs : List Range) → Ascending 0 (sort rs)
unfolding sort
sort-Ascending [] = tt
sort-Ascending (r ∷ rs) = insert-Ascending 0 r (sort rs) (omega arith) (sort-Ascending rs)

not_yet_covered : (b lo : ℕ) (rs : List Range) → b < lo → Ascending lo rs → covered b rs ≡ false
unfolding covered
not_yet_covered b lo [] h k = refl
not_yet_covered b lo ((first, second) ∷ rs) h k =
    ground (arith, not_yet_covered b first rs (omega (arith, k.0)) k.1)

gaps-covered :
    (file_size b at lo : ℕ) (rs : List Range)
    → b < file_size
    → Ascending lo rs
    → covered b (gaps file_size at rs) ≡ leb at b && not (covered b rs)
unfolding gaps covered
gaps-covered file_size b at lo [] h k = ground arith
gaps-covered file_size b at lo ((first, second) ∷ rs) h k = ground (
  arith,
  gaps-covered file_size b (max at second) first rs h k.1,
  λ (early : b < first). not_yet_covered b first rs early k.1,
)

-- A byte of the file lies in a dense range exactly when it lies in no expert range, whatever the
-- order of the expert ranges and however they overlap.
pub byte_ranges-covered :
    (expert_ranges : List Range) (file_size b : ℕ)
    → b < file_size
    → covered b (byte_ranges expert_ranges file_size) ≡ not (covered b expert_ranges)
unfolding byte_ranges
byte_ranges-covered expert_ranges file_size b h =
    let whole =
      gaps-covered file_size b 0 0 (sort expert_ranges) h (sort-Ascending expert_ranges) in
    ground (arith, whole, sort-covered b expert_ranges)
