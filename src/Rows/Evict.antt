-- ===== src/Rows/Evict.antt =====
-- Making room: the eviction keeps the invariant and spares the slabs of the gather in flight.
use meitte.Base.{
  ℕ, ◌≡◌, refl, sym, ap, ◌∙◌, true, false, List, [], ◌∷◌, ◌==◌, arith, Bool-cases, Option-cases,
  inl, inr, get_elem?, if◌then◌else◌,
}
use meitte.Rows.Slabs.{Window, Key, same_key, remove_key, RowStream, drop_slab}
use meitte.Rows.Stream.{drop_at, within, evict_from, evict_to_budget}
use meitte.Rows.Keys.{elem_key, DistinctKeys, remove_key_ne}
use meitte.Rows.Invariant.{Keeps, drop_slab-Keeps, same_key-elem_key}

pub record Spares (w : Window) (st u : RowStream) : Type 0 where
  pub keeps : Keeps w u
  pub same_stamp : u.stamp ≡ st.stamp
  pub same_gen : u.gen ≡ st.gen
  pub spared :
      (j : Key) → st.stamp j.0 j.1 ≡ st.gen → st.resident j.0 j.1 ≡ true → u.resident j.0 j.1 ≡ true

-- The keys that the loop still has to visit are resident.
abbrev AllIn : List Key → List Key → Type 0
AllIn ks qs = (j : Key) → elem_key j ks ≡ true → elem_key j qs ≡ true

module _ (w : Window) where
  same_Spares : (st : RowStream) → Keeps w st → Spares w st st
  same_Spares st v = record { keeps = v; same_stamp = refl; same_gen = refl; spared = λ j h k. k }

  trans-Spares : (a b c : RowStream) → Spares w a b → Spares w b c → Spares w a c
  trans-Spares a b c u v = record {
    keeps = v.keeps;
    same_stamp = v.same_stamp ∙ u.same_stamp;
    same_gen = v.same_gen ∙ u.same_gen;
    spared = λ j h k.
        v.spared j (ap (λ f. f j.0 j.1) u.same_stamp ∙ h ∙ sym u.same_gen) (u.spared j h k);
  }

  same_key-swap : (k j : Key) → same_key k j ≡ same_key j k
  same_key-swap (t, s) (u, r) = ground arith

  not_same :
      (st : RowStream) (k j : Key)
      → (st.stamp k.0 k.1 == st.gen) ≡ false
      → st.stamp j.0 j.1 ≡ st.gen
      → same_key k j ≡ false
  not_same st k j h e = ground arith

  drop_at-Spares :
      (k : Key) (ks : List Key) (st : RowStream)
      → Keeps w st
      → elem_key k st.lru ≡ true
      → (st.stamp k.0 k.1 == st.gen) ≡ false
      → elem_key k ks ≡ false
      → AllIn ks st.lru
      → Spares w st (drop_at w k st) × AllIn ks (drop_at w k st).lru
  unfolding drop_slab
  drop_at-Spares k ks st v here old fresh into = elim (Option-cases (get_elem? w.tables k.0)) [
    | inl gone ↦ rw (gone, drop_at) (same_Spares st v, into)
    | inr (t, at) ↦
        rw (at, drop_at)
          (
            record {
              keeps = drop_slab-Keeps w t k at st v here;
              same_stamp = refl;
              same_gen = refl;
              spared = λ j h m. ground (arith, not_same st k j old h);
            },
            λ j m. remains j m,
          )
  ]
    where
      remains : (j : Key) → elem_key j ks ≡ true → elem_key j (remove_key k st.lru) ≡ true
      remains j m = elim (Bool-cases (same_key k j)) [
        | inl same ↦ absurd (differs j m same)
        | inr apart ↦ remove_key_ne k j st.lru apart ∙ into j m
      ]
        where
          differs : (i : Key) → elem_key i ks ≡ true → same_key k i ≡ true → ⊥
          differs i m same = ground (arith, same_key-elem_key i k ks, same_key-swap k i)

  evict_from-Spares :
      (headroom : ℕ) (ks : List Key) (st : RowStream)
      → Keeps w st
      → DistinctKeys ks
      → AllIn ks st.lru
      → Spares w st (evict_from w headroom ks st)
  unfolding evict_from
  evict_from-Spares headroom [] st v d into = same_Spares st v
  evict_from-Spares headroom (k ∷ ks) st v d into =
      let next = if st.stamp k.0 k.1 == st.gen then st else drop_at w k st in
      let (one, more) = step in
      let rest =
        trans-Spares st next _ one (evict_from-Spares headroom ks next one.keeps d.1 more) in
      elim (Bool-cases (within w headroom st)) [
        | inl fits ↦ rw fits (same_Spares st v)
        | inr over ↦ rw over rest
      ]
    where
      step :
          let next = if st.stamp k.0 k.1 == st.gen then st else drop_at w k st in
          Spares w st next × AllIn ks next.lru
      step = elim (Bool-cases (st.stamp k.0 k.1 == st.gen)) [
        | inl now ↦ rw now (same_Spares st v, λ j m. into j (ground arith))
        | inr old ↦ rw old (
            drop_at-Spares k ks st v (into k (ground arith)) old d.0 (λ j m. into j (ground arith)))
      ]

  -- The slabs stamped by the gather in flight stay resident.
  pub evict_to_budget-Spares :
      (headroom : ℕ) (st : RowStream) → Keeps w st → Spares w st (evict_to_budget w headroom st)
  unfolding evict_to_budget
  evict_to_budget-Spares headroom st v =
      evict_from-Spares headroom st.lru st v v.distinct (λ j m. m)
