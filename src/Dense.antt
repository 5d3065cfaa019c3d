-- ===== src/Dense.antt =====
-- core/src/moe/dense_weights.cpp, `DenseWeights::byte_ranges`: the parts of a shard that hold dense
-- weights, as what the ranges of the experts leave over.
pub mod Ranges
mod Examples
use meitte.Base.{ℕ, List, [], ◌∷◌, ◌++◌, if◌then◌else◌, ltb, leb, ◌==◌, ◌&&◌, ◌||◌, Bool, max}

-- From the first byte up to, not including, the second.
abbrev pub Range : Type 0
Range = ℕ × ℕ

-- `operator<` on pairs, negated with its arguments swapped.
abbrev pub range_le : Range → Range → Bool
range_le (a, b) (c, d) = ltb a c || ((a == c) && leb b d)

unfoldable pub insert : Range → List Range → List Range
insert r [] = r ∷ []
insert r (q ∷ qs) = let rest = insert r qs in if range_le r q then r ∷ q ∷ qs else q ∷ rest

-- `std::sort` on the pairs, whose result the order fixes.
unfoldable pub sort : List Range → List Range
unfolding insert
sort [] = []
sort (r ∷ rs) = insert r (sort rs)

-- The loop, from the position that everything before is done, and the tail after it.
unfoldable pub gaps : ℕ → ℕ → List Range → List Range
gaps file_size at [] = if ltb at file_size then (at, file_size) ∷ [] else []
gaps file_size at ((first, second) ∷ rs) =
    let rest = gaps file_size (max at second) rs in
    if ltb at first then (at, first) ∷ rest else rest

unfoldable pub byte_ranges : List Range → ℕ → List Range
unfolding sort gaps
byte_ranges expert_ranges file_size = gaps file_size 0 (sort expert_ranges)
