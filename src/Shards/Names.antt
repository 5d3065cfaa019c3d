-- ===== src/Shards/Names.antt =====
-- `split_count_from_path` and `make_shard_path`. A path is the list of its characters' codes.
use meitte.Base.{
  ℕ, ◌+◌, ◌-◌, ◌*◌, ◌/◌, ◌%◌, Bool, ◌&&◌, List, [], ◌∷◌, ◌++◌, Option, none, some, if◌then◌else◌,
  ◌==◌, leb, ltb, length, take, drop,
}

-- Between '0' and '9'.
abbrev pub is_digit : ℕ → Bool
is_digit c = leb 48 c && leb c 57

-- `std::stoi` of five digits.
abbrev pub five_value : ℕ → ℕ → ℕ → ℕ → ℕ → ℕ
five_value a b c d e =
    10000 * (a - 48) + 1000 * (b - 48) + 100 * (c - 48) + 10 * (d - 48) + (e - 48)

abbrev pub five_digits : ℕ → ℕ → ℕ → ℕ → ℕ → Bool
five_digits a b c d e = is_digit a && is_digit b && is_digit c && is_digit d && is_digit e

-- "-DDDDD-of-DDDDD.gguf": the two numbers of the last twenty characters.
unfoldable pub shard_tail : List ℕ → Option (ℕ × ℕ)
shard_tail (h ∷ a ∷ b ∷ c ∷ d ∷ e ∷ i ∷ o ∷ f ∷ j ∷ p ∷ q ∷ r ∷ s ∷ t ∷ k ∷ l ∷ m ∷ n ∷ u ∷ []) =
    if h == 45
      && five_digits a b c d e
      && (i == 45 && o == 111 && f == 102 && j == 45)
      && five_digits p q r s t
      && (k == 46 && l == 103 && m == 103 && n == 117 && u == 102)
    then some (five_value a b c d e, five_value p q r s t)
    else none
shard_tail cs = none

-- What the name of a file says: a single file, a shard that is not the first one, or the first of
-- `count` with what stands before the number.
pub data Split : Type 0 where
  single : Split
  not_first : ℕ → Split
  first_of : ℕ → List ℕ → Split

abbrev pub classify : List ℕ → Option (ℕ × ℕ) → Split
classify prefix none = single
classify prefix (some (shard, count)) =
    if leb count 1 then single else if shard == 1 then first_of count prefix else not_first shard

abbrev pub tail_len : ℕ
tail_len = 19

unfoldable pub split_count_from_path : List ℕ → Split
unfolding shard_tail
split_count_from_path path =
    if ltb (length path) (tail_len + 1)
    then single
    else let tail = length path - tail_len in
      classify (take (tail - 1) path) (shard_tail (drop (tail - 1) path))

-- `%05d` of a number of at most five digits.
abbrev pub print_five : ℕ → List ℕ → List ℕ
print_five n rest =
    (48 + n / 10000 % 10)
    ∷ (48 + n / 1000 % 10)
    ∷ (48 + n / 100 % 10)
    ∷ (48 + n / 10 % 10)
    ∷ (48 + n % 10)
    ∷ rest

abbrev pub shard_suffix : ℕ → ℕ → List ℕ
shard_suffix shard count =
    45 ∷ print_five shard (45 ∷ 111 ∷ 102 ∷ 45 ∷ print_five count (46 ∷ 103 ∷ 103 ∷ 117 ∷ 102 ∷ []))

unfoldable pub make_shard_path : List ℕ → ℕ → ℕ → List ℕ
make_shard_path prefix shard count = prefix ++ shard_suffix shard count
