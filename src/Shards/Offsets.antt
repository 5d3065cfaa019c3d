-- ===== src/Shards/Offsets.antt =====
-- `fill_offsets`, `fill_all_offsets` and `read_gguf_offsets`. The four maps by name have the same keys
-- and are one here; a tensor's name is a number.
use meitte.Base.{
  ℕ, zero, suc, ◌+◌, ◌-◌, Bool, true, false, List, [], ◌∷◌, ◌++◌, Option, none, some, add64, update,
}
use meitte.Shards.Names.{Split, single, not_first, first_of, split_count_from_path, make_shard_path}

pub record Tensor : Type 0 where
  pub name : ℕ
  pub offset : ℕ
  pub size : ℕ
  pub dtype : ℕ

-- What a parsed file tells.
pub record Gguf : Type 0 where
  pub data_offset : ℕ
  pub tensors : List Tensor

-- `open_meta`: the file's parse, or none.
abbrev pub Parse : Type 0
Parse = List ℕ → Option Gguf

pub record Place : Type 0 where
  pub off : ℕ
  pub size : ℕ
  pub dtype : ℕ
  pub file : ℕ

pub record GgufOffsets : Type 0 where
  pub by_name : ℕ → Option Place
  pub shard_paths : List (List ℕ)
  pub good : Bool

abbrev pub no_offsets : GgufOffsets
no_offsets = record { by_name = λ n. none; shard_paths = []; good = false }

-- What the maps have for a tensor of the file.
abbrev pub place_of : ℕ → ℕ → Tensor → Place
place_of data_off file t = record {
  off = add64 data_off t.offset;
  size = t.size;
  dtype = t.dtype;
  file = file;
}

unfoldable pub fill_tensors : ℕ → ℕ → List Tensor → (ℕ → Option Place) → ℕ → Option Place
fill_tensors data_off file [] by_name = by_name
fill_tensors data_off file (t ∷ ts) by_name =
    fill_tensors data_off file ts (update by_name t.name (some (place_of data_off file t)))

-- One file's tensors and its path.
unfoldable pub fill_offsets : Gguf → ℕ → List ℕ → GgufOffsets → GgufOffsets
unfolding fill_tensors
fill_offsets g file path out = record out {
  by_name = fill_tensors g.data_offset file g.tensors out.by_name;
  shard_paths = out.shard_paths ++ path ∷ [];
}

abbrev pub with_shard :
    Option Gguf → ℕ → List ℕ → GgufOffsets → (GgufOffsets → GgufOffsets × Bool) → GgufOffsets × Bool
with_shard none file path out f = (no_offsets, false)
with_shard (some g) file path out f = f (fill_offsets g file path out)

-- `for (no = 2; no <= count; ++no)`: `n` shards from `no` on.
unfoldable pub fill_shards : Parse → List ℕ → ℕ → ℕ → ℕ → GgufOffsets → GgufOffsets × Bool
unfolding fill_offsets
fill_shards parse prefix count shard zero out = (record out { good = true }, true)
fill_shards parse prefix count shard (suc n) out =
    let path = make_shard_path prefix shard count in
    with_shard (parse path) (shard - 1) path out
      (λ q. fill_shards parse prefix count (shard + 1) n q)

abbrev pub fill_split : Parse → List ℕ → Gguf → Split → GgufOffsets → GgufOffsets × Bool
fill_split parse path g (not_first shard) out = (out, false)
fill_split parse path g single out = fill_shards parse [] 0 2 0 (fill_offsets g 0 path out)
fill_split parse path g (first_of count prefix) out =
    fill_shards parse prefix count 2 (count - 1) (fill_offsets g 0 path out)

unfoldable pub fill_all_offsets : Parse → List ℕ → Gguf → GgufOffsets → GgufOffsets × Bool
unfolding fill_shards split_count_from_path
fill_all_offsets parse path g out = fill_split parse path g (split_count_from_path path) out

abbrev pub after_open : Parse → List ℕ → Option Gguf → GgufOffsets
after_open parse path none = no_offsets
after_open parse path (some g) = (fill_all_offsets parse path g no_offsets).0

unfoldable pub read_gguf_offsets : Parse → List ℕ → GgufOffsets
unfolding fill_all_offsets
read_gguf_offsets parse path = after_open parse path (parse path)
