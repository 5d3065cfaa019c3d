-- ===== src/Shards/Examples.antt =====
-- A model of two files; the theorems at it.
use meitte.Base.{ℕ, ◌≡◌, ◌⊎◌, refl, arith, List, [], ◌∷◌, some, length, add64}
use meitte.Shards.Names.{first_of, classify, split_count_from_path, shard_tail, make_shard_path}
use meitte.Shards.Offsets.{
  Parse, no_offsets, read_gguf_offsets, fill_all_offsets, fill_shards, fill_offsets, fill_tensors,
}
use meitte.Shards.RoundTrip.{split_count_from_path-make_shard_path}
use meitte.Shards.Whole.{Whole, Missing, split_siblings, read_gguf_offsets-Whole}

-- "m-00001-of-00002.gguf"
abbrev path : List ℕ
path =
    109 ∷ 45 ∷ 48 ∷ 48 ∷ 48 ∷ 48 ∷ 49 ∷ 45 ∷ 111 ∷ 102 ∷ 45 ∷ 48 ∷ 48 ∷ 48 ∷ 48 ∷ 50 ∷ 46 ∷ 103
    ∷ 103 ∷ 117 ∷ 102 ∷ []

-- Every file has one tensor, named by the length of its path.
abbrev parse : Parse
parse p = some (record {
  data_offset = 512;
  tensors = record { name = length p; offset = 64; size = 32; dtype = 1 } ∷ [];
})

program : Unit {0}
unfolding read_gguf_offsets fill_all_offsets fill_shards fill_offsets fill_tensors
    split_count_from_path shard_tail make_shard_path add64
program = tt

path_split : split_count_from_path path ≡ first_of 2 (109 ∷ [])
unfolding program
path_split = refl

path_made : make_shard_path (109 ∷ []) 1 2 ≡ path
unfolding program
path_made = refl

path_read : length (read_gguf_offsets parse path).shard_paths ≡ 2
unfolding program
path_read = refl

split_count_from_path-make_shard_path_example :
    split_count_from_path (make_shard_path (109 ∷ []) 2 3) ≡ classify (109 ∷ []) (some (2, 3))
split_count_from_path-make_shard_path_example =
    split_count_from_path-make_shard_path (109 ∷ []) 2 3 (omega arith) (omega arith)

read_gguf_offsets-Whole_example :
    ((read_gguf_offsets parse path ≡ no_offsets) × Missing parse path)
    ⊎ Whole parse
        (path ∷ split_siblings (split_count_from_path path))
        (read_gguf_offsets parse path)
read_gguf_offsets-Whole_example = read_gguf_offsets-Whole parse path
