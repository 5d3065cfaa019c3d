-- ===== src/Router/Listed.antt =====
-- About `build_spec_lists`: what the two lists hold, and the candidates of an issue of the first.
use mathlib.Core.Path.{subst}
use meitte.Base.{
  ℕ, suc, ◌≤◌, ◌≡◌, refl, inl, inr, Bool, true, false, ◌&&◌, ◌||◌, not, List, [], ◌∷◌, ◌++◌,
  if◌then◌else◌, ◌==◌, ltb, length, length-append, arith, elem, elem-append, Distinct, Bool-cases,
  map, pos,
}
use meitte.Lru.Neighbours.{snoc-Distinct}
use meitte.Cache.{Shape, Cache}
use meitte.Prefetch.Issue.{candidates}
use meitte.Router.Defs.{Floats}
use meitte.Router.Rank.{rank_top_k}
use meitte.Router.Ranked.{rank_top_k-once}
use meitte.Router.Lists.{SpecLists, push_id, split_ids, build_spec_lists, too_cold}

-- The residency snapshot has the expert.
abbrev pub is_resident : (ℕ → ℕ) → ℕ → ℕ → Bool
is_resident resident size e = ltb e size && not (resident e == 0)

-- What the lists hold while `es` are still to be split from `pred`.
pub record Listed (fl : Floats) (resident : ℕ → ℕ) (size spec_max : ℕ) (pred es : List ℕ)
    (t : SpecLists fl) : Type 0 where
  pub spec_once : Distinct t.spec
  pub keep_once : Distinct t.keep
  pub few : length t.spec ≤ spec_max
  pub absent : (e : ℕ) → elem e t.spec ≡ true → is_resident resident size e ≡ false
  pub there : (e : ℕ) → elem e t.keep ≡ true → is_resident resident size e ≡ true
  pub spec_among : (e : ℕ) → elem e t.spec ≡ true → elem e pred ≡ true
  pub keep_among : (e : ℕ) → elem e t.keep ≡ true → elem e pred ≡ true
  pub spec_new : (e : ℕ) → elem e es ≡ true → elem e t.spec ≡ false
  pub keep_new : (e : ℕ) → elem e es ≡ true → elem e t.keep ≡ false

module _ (fl : Floats) (resident : ℕ → ℕ) (size spec_max : ℕ) (pred : List ℕ) where
  rest-Listed :
      (e : ℕ) (es : List ℕ) (t : SpecLists fl)
      → Listed fl resident size spec_max pred (e ∷ es) t
      → Listed fl resident size spec_max pred es t
  rest-Listed e es t h = record {
    spec_once = h.spec_once;
    keep_once = h.keep_once;
    few = h.few;
    absent = h.absent;
    there = h.there;
    spec_among = h.spec_among;
    keep_among = h.keep_among;
    spec_new = λ i m. h.spec_new i (ground (arith, m));
    keep_new = λ i m. h.keep_new i (ground (arith, m));
  }

  -- An element of a list that has grown by one.
  grown : (i e : ℕ) (xs : List ℕ) → elem i (xs ++ e ∷ []) ≡ (elem i xs || (e == i))
  grown i e xs = ground (arith, elem-append i xs (e ∷ []))

  push_id-Listed :
      (e : ℕ) (es : List ℕ) (t : SpecLists fl)
      → elem e es ≡ false
      → elem e pred ≡ true
      → Listed fl resident size spec_max pred (e ∷ es) t
      → Listed fl resident size spec_max pred es (push_id fl resident size spec_max e t)
  unfolding push_id
  push_id-Listed e es t last known h = elim (Bool-cases (is_resident resident size e)) [
    | inl hot ↦ rw hot (record {
      spec_once = h.spec_once;
      keep_once = snoc-Distinct e t.keep (h.keep_new e (ground arith)) h.keep_once;
      few = h.few;
      absent = h.absent;
      there = λ i m. pushed i (λ z. is_resident resident size z ≡ true) t.keep m (h.there i) hot;
      spec_among = h.spec_among;
      keep_among = λ i m. pushed i (λ z. elem z pred ≡ true) t.keep m (h.keep_among i) known;
      spec_new = λ i m. h.spec_new i (ground (arith, m));
      keep_new = λ i m. fresh i t.keep m (h.keep_new i (ground (arith, m)));
    })
    | inr cold ↦ elim (Bool-cases (ltb (length t.spec) spec_max)) [
      | inr full ↦ rw (cold, full) (rest-Listed e es t h)
      | inl room ↦
          rw (cold, room)
            (record {
              spec_once = snoc-Distinct e t.spec (h.spec_new e (ground arith)) h.spec_once;
              keep_once = h.keep_once;
              few = ground (arith, room, length-append t.spec (e ∷ []));
              absent = λ i m.
                  pushed i (λ z. is_resident resident size z ≡ false) t.spec m (h.absent i) cold;
              there = h.there;
              spec_among =
                  λ i m. pushed i (λ z. elem z pred ≡ true) t.spec m (h.spec_among i) known;
              keep_among = h.keep_among;
              spec_new = λ i m. fresh i t.spec m (h.spec_new i (ground (arith, m)));
              keep_new = λ i m. h.keep_new i (ground (arith, m));
            })
    ]
  ]
    where
      pushed :
          (i : ℕ) (P : ℕ → Type 0) (xs : List ℕ)
          → elem i (xs ++ e ∷ []) ≡ true
          → (elem i xs ≡ true → P i)
          → P e
          → P i
      pushed i P xs m old new = elim (Bool-cases (elem i xs)) [
        | inl before ↦ old before
        | inr other ↦ let eq : e ≡ i = ground (arith, grown i e xs, m, other) in subst P eq new
      ]

      fresh :
          (i : ℕ) (xs : List ℕ)
          → elem i es ≡ true
          → elem i xs ≡ false
          → elem i (xs ++ e ∷ []) ≡ false
      fresh i xs m free = elim (Bool-cases (e == i)) [
        | inr other ↦ ground (arith, grown i e xs, free, other)
        | inl same ↦ let eq : e ≡ i = ground arith in absurd (ground (arith, rw (← eq) at m, last))
      ]

  split_ids-Listed :
      (scores : ℕ → fl.Float) (mx sum drop_frac thr : fl.Float) (k : ℕ) (es : List ℕ)
      (t : SpecLists fl)
      → Distinct es
      → ((e : ℕ) → elem e es ≡ true → elem e pred ≡ true)
      → Listed fl resident size spec_max pred es t
      → Listed fl resident size spec_max pred []
          (split_ids fl scores mx sum drop_frac thr resident size spec_max k es t)
  unfolding split_ids
  split_ids-Listed scores mx sum drop_frac thr k [] t d known h = h
  split_ids-Listed scores mx sum drop_frac thr k (e ∷ es) t d known h =
      split_ids-Listed scores mx sum drop_frac thr (suc k) es _ d.1
        (λ i m. known i (ground (arith, m)))
        (step (too_cold fl drop_frac thr sum (fl.exp (fl.sub (scores e) mx)) k))
    where
      step :
          (cold : Bool)
          → Listed fl resident size spec_max pred es
              (if cold then t else push_id fl resident size spec_max e t)
      step true = rest-Listed e es t h
      step false = push_id-Listed e es t d.0 (known e (ground arith)) h

module _ (fl : Floats) (scores : ℕ → fl.Float) (n nu : ℕ) (drop_frac : fl.Float) (spec_max : ℕ)
    (resident : ℕ → ℕ) (size : ℕ) where
  -- Of the experts that the ranking of a layer's scores gives, the list to prefetch names each at
  -- most once, none that the snapshot has as resident and no more than its limit, and the list to
  -- retain each at most once and only ones that the snapshot has as resident, whatever the
  -- comparisons of scores answer.
  pub build_spec_lists-Listed :
      Listed fl resident size spec_max
        (rank_top_k fl scores n nu)
        []
        (build_spec_lists fl scores n nu drop_frac spec_max resident size)
  unfolding build_spec_lists
  build_spec_lists-Listed =
      let pred = rank_top_k fl scores n nu in
      let start : Listed fl resident size spec_max pred pred (record { spec = []; keep = [] }) =
        record {
          spec_once = tt;
          keep_once = tt;
          few = omega arith;
          absent = λ e m. absurd (ground (arith, m));
          there = λ e m. absurd (ground (arith, m));
          spec_among = λ e m. absurd (ground (arith, m));
          keep_among = λ e m. absurd (ground (arith, m));
          spec_new = λ e m. refl;
          keep_new = λ e m. refl;
        } in
      elim (Bool-cases (ltb (length pred) nu)) [
        | inl narrow ↦ rw narrow (record {
          spec_once = tt;
          keep_once = tt;
          few = omega arith;
          absent = λ e m. absurd (ground (arith, m));
          there = λ e m. absurd (ground (arith, m));
          spec_among = λ e m. absurd (ground (arith, m));
          keep_among = λ e m. absurd (ground (arith, m));
          spec_new = λ e m. refl;
          keep_new = λ e m. refl;
        })
        | inr wide ↦ rw wide (
            split_ids-Listed fl resident size spec_max pred scores _ _ drop_frac _ 0 pred _
              (rank_top_k-once fl scores n nu).0 (λ e m. m) start)
      ]

candidates-among :
    (s : Shape) (c : Cache) (il : ℕ) (es : List ℕ) (i : ℕ)
    → elem i (candidates s c il (map pos es)) ≡ true
    → elem i es ≡ true
unfolding candidates
candidates-among s c il [] i m = m
candidates-among s c il (e ∷ es) i m = ground (arith, m, candidates-among s c il es i)

absent_there :
    (xs ys : List ℕ) (i : ℕ)
    → (elem i xs ≡ true → elem i ys ≡ true)
    → elem i ys ≡ false
    → elem i xs ≡ false
absent_there xs ys i h a = elim (Bool-cases (elem i xs)) [
  | inr absent ↦ absent
  | inl here ↦ absurd (ground (arith, h here, a))
]

-- The candidates among experts named once are named once.
candidates-once :
    (s : Shape) (c : Cache) (il : ℕ) (es : List ℕ)
    → Distinct es
    → Distinct (candidates s c il (map pos es))
unfolding candidates
candidates-once s c il [] d = tt
candidates-once s c il (e ∷ es) d =
    let rest = candidates s c il (map pos es) in
    let absent : elem e rest ≡ false = absent_there rest es e (candidates-among s c il es e) d.0 in
    ground (arith, absent, candidates-once s c il es d.1)

-- An issue of the list of experts to prefetch has candidates without repetition.
pub build_spec_lists-issued :
    (fl : Floats) (scores : ℕ → fl.Float) (n nu : ℕ) (drop_frac : fl.Float) (spec_max : ℕ)
    (resident : ℕ → ℕ) (size : ℕ) (s : Shape) (c : Cache) (il : ℕ)
    → let t = build_spec_lists fl scores n nu drop_frac spec_max resident size in
      Distinct (candidates s c il (map pos t.spec))
build_spec_lists-issued fl scores n nu drop_frac spec_max resident size s c il =
    candidates-once s c il _
      (build_spec_lists-Listed fl scores n nu drop_frac spec_max resident size).spec_once
