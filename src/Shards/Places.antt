-- ===== src/Shards/Places.antt =====
-- About `fill_offsets`: where the places of the table come from, and what has one.
use mathlib.Core.Path.{subst}
use mathlib.Core.Option.{some-injective}
use meitte.Base.{
  ℕ, zero, suc, ◌≡◌, refl, ◌⊎◌, inl, inr, true, List, [], ◌∷◌, ◌++◌, Option, some, arith,
  Bool-cases, ◌∙◌, ap, sym, ◌==◌, length, get_elem?,
}
use meitte.Shards.Offsets.{
  Tensor, Gguf, Parse, Place, GgufOffsets, place_of, fill_tensors, fill_offsets,
}

get_elem?-append :
    {A : Type 0} (xs ys : List A) (i : ℕ) (x : A)
    → get_elem? xs i ≡ some x
    → get_elem? (xs ++ ys) i ≡ some x
get_elem?-append [] ys i x h = absurd (ground (arith, h))
get_elem?-append (y ∷ xs) ys zero x h = h
get_elem?-append (y ∷ xs) ys (suc i) x h = get_elem?-append xs ys i x h

get_elem?-last : {A : Type 0} (xs : List A) (y : A) → get_elem? (xs ++ y ∷ []) (length xs) ≡ some y
get_elem?-last [] y = refl
get_elem?-last (x ∷ xs) y = get_elem?-last xs y

-- An element of a list that has grown by one is of the list, or the new one.
get_elem?-snoc :
    {A : Type 0} (xs : List A) (y : A) (i : ℕ) (x : A)
    → get_elem? (xs ++ y ∷ []) i ≡ some x
    → (get_elem? xs i ≡ some x) ⊎ (y ≡ x)
get_elem?-snoc [] y zero x h = inr (some-injective y x h)
get_elem?-snoc [] y (suc i) x h = inl h
get_elem?-snoc (z ∷ xs) y zero x h = inl h
get_elem?-snoc (z ∷ xs) y (suc i) x h = get_elem?-snoc xs y i x h

-- The place of a name is that of a tensor with the name in the listed file that the place tells.
pub record Origin (parse : Parse) (ps : List (List ℕ)) (name : ℕ) (p : Place) : Type 0 where
  pub path : List ℕ
  pub gguf : Gguf
  pub index : ℕ
  pub tensor : Tensor
  pub listed : get_elem? ps p.file ≡ some path
  pub parsed : parse path ≡ some gguf
  pub found : get_elem? gguf.tensors index ≡ some tensor
  pub named : tensor.name ≡ name
  pub placed : p ≡ place_of gguf.data_offset p.file tensor

-- Every tensor of the listed files has a place.
abbrev pub Complete : Parse → List (List ℕ) → GgufOffsets → Type 0
Complete parse ps out =
    (i : ℕ) (path : List ℕ) (g : Gguf) (k : ℕ) (t : Tensor)
    → get_elem? ps i ≡ some path
    → parse path ≡ some g
    → get_elem? g.tensors k ≡ some t
    → (p : Place) × (out.by_name t.name ≡ some p)

-- What holds of the places before and of those of the file's tensors holds of all.
fill_tensors_each :
    (data_off file : ℕ) (R : ℕ → Place → Type 0) (ts : List Tensor) (by_name : ℕ → Option Place)
    → ((k : ℕ) (t : Tensor) → get_elem? ts k ≡ some t → R t.name (place_of data_off file t))
    → ((name : ℕ) (p : Place) → by_name name ≡ some p → R name p)
    → (name : ℕ) (p : Place) → fill_tensors data_off file ts by_name name ≡ some p
    → R name p
unfolding fill_tensors
fill_tensors_each data_off file R [] by_name new old name p e = old name p e
fill_tensors_each data_off file R (t ∷ ts) by_name new old name p e =
    fill_tensors_each data_off file R ts _ (λ k u h. new (suc k) u h)
      (λ name p e. elim (Bool-cases (t.name == name)) [
        | inl same ↦
            let eq : place_of data_off file t ≡ p =
              some-injective (place_of data_off file t) p (ground arith) in
            let q : t.name ≡ name = ground arith in
            subst (λ z. R z p) q (subst (R t.name) eq (new 0 t refl))
        | inr other ↦ old name p (ground arith)
      ])
      name p e

-- A name that has a place keeps one.
fill_tensors_keeps :
    (data_off file : ℕ) (ts : List Tensor) (by_name : ℕ → Option Place) (name : ℕ)
    → (p : Place) × (by_name name ≡ some p)
    → (p : Place) × (fill_tensors data_off file ts by_name name ≡ some p)
unfolding fill_tensors
fill_tensors_keeps data_off file [] by_name name h = h
fill_tensors_keeps data_off file (t ∷ ts) by_name name h =
    fill_tensors_keeps data_off file ts _ name (elim (Bool-cases (t.name == name)) [
      | inl same ↦ rw same (place_of data_off file t, refl)
      | inr other ↦ rw other h
    ])

fill_tensors_complete :
    (data_off file : ℕ) (ts : List Tensor) (by_name : ℕ → Option Place) (k : ℕ) (t : Tensor)
    → get_elem? ts k ≡ some t
    → (p : Place) × (fill_tensors data_off file ts by_name t.name ≡ some p)
unfolding fill_tensors
fill_tensors_complete data_off file [] by_name k t h = absurd (ground (arith, h))
fill_tensors_complete data_off file (u ∷ ts) by_name zero t h =
    let same : (u.name == t.name) ≡ true = rw (some-injective u t h) (ground arith) in
    fill_tensors_keeps data_off file ts _ t.name (rw same (place_of data_off file u, refl))
fill_tensors_complete data_off file (u ∷ ts) by_name (suc k) t h =
    fill_tensors_complete data_off file ts _ k t h

pub fill_offsets-Origin :
    (parse : Parse) (ps : List (List ℕ)) (out : GgufOffsets) (g : Gguf) (path : List ℕ) (file : ℕ)
    → file ≡ length ps
    → parse path ≡ some g
    → ((name : ℕ) (p : Place) → out.by_name name ≡ some p → Origin parse ps name p)
    → (name : ℕ) (p : Place) → (fill_offsets g file path out).by_name name ≡ some p
    → Origin parse (ps ++ path ∷ []) name p
unfolding fill_offsets
fill_offsets-Origin parse ps out g path file h e old =
    fill_tensors_each g.data_offset file (Origin parse (ps ++ path ∷ [])) g.tensors out.by_name
      (λ k t at. record {
        path = path;
        gguf = g;
        index = k;
        tensor = t;
        listed = rw h (get_elem?-last ps path);
        parsed = e;
        found = at;
        named = refl;
        placed = refl;
      })
      (λ name p at.
        let o = old name p at in
        record {
          path = o.path;
          gguf = o.gguf;
          index = o.index;
          tensor = o.tensor;
          listed = get_elem?-append ps (path ∷ []) p.file o.path o.listed;
          parsed = o.parsed;
          found = o.found;
          named = o.named;
          placed = o.placed;
        })

pub fill_offsets-Complete :
    (parse : Parse) (ps : List (List ℕ)) (out : GgufOffsets) (g : Gguf) (path : List ℕ) (file : ℕ)
    → parse path ≡ some g
    → Complete parse ps out
    → Complete parse (ps ++ path ∷ []) (fill_offsets g file path out)
unfolding fill_offsets
fill_offsets-Complete parse ps out g path file e old i q u k t at parsed found =
    elim (get_elem?-snoc ps path i q at) [
      | inl before ↦
          fill_tensors_keeps g.data_offset file g.tensors out.by_name t.name
            (old i q u k t before parsed found)
      | inr same ↦
          let eq : u ≡ g = some-injective u g (sym parsed ∙ ap parse (sym same) ∙ e) in
          fill_tensors_complete g.data_offset file g.tensors out.by_name k t
            (subst (λ (z : Gguf). get_elem? z.tensors k ≡ some t) eq found)
    ]
