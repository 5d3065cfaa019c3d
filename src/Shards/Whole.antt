-- ===== src/Shards/Whole.antt =====
-- The offsets of a split model are those of all its files, or none.
use mathlib.Core.Path.{subst}
use mathlib.Core.List.{append_assoc, append-nil}
use meitte.Base.{
  ℕ, zero, suc, ◌+◌, ◌-◌, ◌≡◌, refl, ◌⊎◌, inl, inr, true, List, [], ◌∷◌, ◌++◌, Option, none, some,
  arith, Option-cases, ◌∙◌, ap, sym, length, length-append,
}
use meitte.Shards.Names.{Split, single, not_first, first_of, split_count_from_path, make_shard_path}
use meitte.Shards.Places.{Origin, Complete, fill_offsets-Origin, fill_offsets-Complete}
use meitte.Shards.Offsets.{
  Gguf, Parse, Place, GgufOffsets, no_offsets, fill_offsets, fill_shards, fill_split,
  fill_all_offsets, after_open, read_gguf_offsets,
}

-- The names of `n` shards from `shard` on.
abbrev pub siblings : List ℕ → ℕ → ℕ → ℕ → List (List ℕ)
siblings prefix count shard zero = []
siblings prefix count shard (suc n) =
    make_shard_path prefix shard count ∷ siblings prefix count (shard + 1) n

abbrev pub split_siblings : Split → List (List ℕ)
split_siblings single = []
split_siblings (not_first shard) = []
split_siblings (first_of count prefix) = siblings prefix count 2 (count - 1)

abbrev pub AllParse : Parse → List (List ℕ) → Type 0
AllParse parse [] = Unit {0}
AllParse parse (p ∷ ps) = ((g : Gguf) × (parse p ≡ some g)) × AllParse parse ps

AllParse-append :
    (parse : Parse) (ps qs : List (List ℕ))
    → AllParse parse ps
    → AllParse parse qs
    → AllParse parse (ps ++ qs)
AllParse-append parse [] qs a b = b
AllParse-append parse (p ∷ ps) qs a b = (a.0, AllParse-append parse ps qs a.1 b)

AllParse-behind :
    (parse : Parse) (ps qs : List (List ℕ)) → AllParse parse (ps ++ qs) → AllParse parse qs
AllParse-behind parse [] qs a = a
AllParse-behind parse (p ∷ ps) qs a = AllParse-behind parse ps qs a.1

no_parse_twice : (g : Gguf) → ¬ (◌≡◌ {A = Option Gguf} none (some g))
no_parse_twice g e = cc

-- The table has the tensors of these files only, and each file could be parsed.
record Filled (parse : Parse) (ps : List (List ℕ)) (out : GgufOffsets) : Type 0 where
  paths : out.shard_paths ≡ ps
  parsed : AllParse parse ps
  placed : (name : ℕ) (p : Place) → out.by_name name ≡ some p → Origin parse ps name p
  complete : Complete parse ps out

fill_offsets-Filled :
    (parse : Parse) (ps : List (List ℕ)) (out : GgufOffsets) (g : Gguf) (path : List ℕ) (file : ℕ)
    → file ≡ length ps
    → parse path ≡ some g
    → Filled parse ps out
    → Filled parse (ps ++ path ∷ []) (fill_offsets g file path out)
unfolding fill_offsets
fill_offsets-Filled parse ps out g path file h e v = record {
  paths = ap (λ qs. qs ++ path ∷ []) v.paths;
  parsed = AllParse-append parse ps (path ∷ []) v.parsed ((g, e), tt);
  placed = fill_offsets-Origin parse ps out g path file h e v.placed;
  complete = fill_offsets-Complete parse ps out g path file e v.complete;
}

-- What the reading of a model gives: nothing, or the tensors of all of these files.
pub record Whole (parse : Parse) (ps : List (List ℕ)) (out : GgufOffsets) : Type 0 where
  pub good : out.good ≡ true
  pub paths : out.shard_paths ≡ ps
  pub parsed : AllParse parse ps
  pub placed : (name : ℕ) (p : Place) → out.by_name name ≡ some p → Origin parse ps name p
  pub complete : Complete parse ps out

fill_shards-Whole :
    (parse : Parse) (prefix : List ℕ) (count shard n : ℕ) (ps : List (List ℕ)) (out : GgufOffsets)
    → shard ≡ length ps + 1
    → Filled parse ps out
    → let r = (fill_shards parse prefix count shard n out).0 in
      ((r ≡ no_offsets) × ¬ AllParse parse (ps ++ siblings prefix count shard n))
      ⊎ Whole parse (ps ++ siblings prefix count shard n) r
unfolding fill_shards
fill_shards-Whole parse prefix count shard zero ps out h v = inr (
    rw append-nil (record {
      good = refl;
      paths = v.paths;
      parsed = v.parsed;
      placed = v.placed;
      complete = v.complete;
    }))
fill_shards-Whole parse prefix count shard (suc n) ps out h v = elim (Option-cases (parse path)) [
  | inl missing ↦
      rw (missing, fill_shards) (inl (refl, λ a. missed missing (AllParse-behind parse ps _ a)))
  | inr (g, e) ↦
      rw (e, fill_shards, ← append_assoc ps (path ∷ []) (siblings prefix count (shard + 1) n))
        (fill_shards-Whole parse prefix count (shard + 1) n (ps ++ path ∷ [])
          (fill_offsets g (shard - 1) path out) (omega (arith, h, length-append ps (path ∷ [])))
          (fill_offsets-Filled parse ps out g path (shard - 1) (omega (arith, h)) e v))
]
  where
    path : List ℕ
    path = make_shard_path prefix shard count

    missed : parse path ≡ none → ¬ AllParse parse (path ∷ siblings prefix count (shard + 1) n)
    missed e a = no_parse_twice a.0.0 (sym e ∙ a.0.1)

-- Why there are no offsets: a file of the model does not parse, or the path is of a later shard.
abbrev pub Missing : Parse → List ℕ → Type 0
Missing parse path =
    (¬ AllParse parse (path ∷ split_siblings (split_count_from_path path)))
    ⊎ ((shard : ℕ) × (split_count_from_path path ≡ not_first shard))

-- The reading of a model's offsets gives either nothing at all, and then some file of the model
-- does not parse or the path is that of a later shard, or a table that is marked good, lists the
-- path and all its sibling shards in order, each of which parses, has a place for every tensor of
-- every one of these files, and has for a name only the place of a tensor with that name in the
-- listed file that the place tells: its offset behind the start of that file's data, its size and
-- its type.
pub read_gguf_offsets-Whole :
    (parse : Parse) (path : List ℕ)
    → ((read_gguf_offsets parse path ≡ no_offsets) × Missing parse path)
      ⊎ Whole parse
          (path ∷ split_siblings (split_count_from_path path))
          (read_gguf_offsets parse path)
unfolding read_gguf_offsets fill_all_offsets
read_gguf_offsets-Whole parse path = by_open (parse path) refl
  where
    start :
        (g : Gguf)
        → parse path ≡ some g
        → Filled parse (path ∷ []) (fill_offsets g 0 path no_offsets)
    start g e = fill_offsets-Filled parse [] no_offsets g path 0 refl e (record {
      paths = refl;
      parsed = tt;
      placed = λ name p k. absurd (ground arith);
      complete = λ i q u k t at. absurd (ground (arith, at));
    })

    named :
        (sp : Split) {r : GgufOffsets}
        → split_count_from_path path ≡ sp
        → ((r ≡ no_offsets) × ¬ AllParse parse (path ∷ split_siblings sp))
          ⊎ Whole parse (path ∷ split_siblings sp) r
        → ((r ≡ no_offsets) × Missing parse path) ⊎ Whole parse (path ∷ split_siblings sp) r
    named sp q (inr w) = inr w
    named sp q (inl (a, b)) =
        inl (a, inl (λ h. b (subst (λ sp. AllParse parse (path ∷ split_siblings sp)) q h)))

    by_split :
        (sp : Split)
        → split_count_from_path path ≡ sp
        → (g : Gguf) → parse path ≡ some g
        → (((fill_split parse path g sp no_offsets).0 ≡ no_offsets) × Missing parse path)
          ⊎ Whole parse (path ∷ split_siblings sp) (fill_split parse path g sp no_offsets).0
    by_split (not_first shard) q g e = inl (refl, inr (shard, q))
    by_split single q g e = named single q (
        fill_shards-Whole parse [] 0 2 0 (path ∷ []) (fill_offsets g 0 path no_offsets) refl
          (start g e))
    by_split (first_of count prefix) q g e = named (first_of count prefix) q (
        fill_shards-Whole parse prefix count 2 (count - 1) (path ∷ [])
          (fill_offsets g 0 path no_offsets) refl (start g e))

    by_open :
        (o : Option Gguf)
        → parse path ≡ o
        → ((after_open parse path o ≡ no_offsets) × Missing parse path)
          ⊎ Whole parse
              (path ∷ split_siblings (split_count_from_path path))
              (after_open parse path o)
    by_open none e = inl (refl, inl (λ a. no_parse_twice a.0.0 (sym e ∙ a.0.1)))
    by_open (some g) e = by_split (split_count_from_path path) refl g e
