-- ===== src/Overlap/Lookup.antt =====
-- The lookups of an overlapped load: every expert that was looked up is resident and of this
-- generation, and either missed or marked ready for every projection.
use meitte.Base.{
  ℕ, ◌<◌, ◌≡◌, refl, inl, inr, ◌⊎◌, Bool, true, false, List, [], ◌∷◌, Option, arith, elem,
  Bool-cases, ◌==◌, ◌∙◌, ap, update, sym,
}
use meitte.Cache.{Shape, Vm, Cache, entry_id}
use meitte.Cache.Entry.{Touch, refused, hit, miss, touch_entry, projections, after_commit}
use meitte.Cache.Invariant.{Keeps, Fits}
use meitte.Cache.Touch.{order_after, touch_entry-Keeps}
use meitte.Cache.Staged.{Stamps, touch_entry-Stamps}
use meitte.Overlap.Defs.{flag_of}
use meitte.Overlap.Start.{Looked, mark_projs, after_lookup, and_next, lookup_all}

-- Every present projection among `ps` carries the generation.
abbrev pub Marked : Shape → ℕ → ℕ → (ℕ → ℕ) → ℕ → List ℕ → Type 0
Marked s il gen ready e ps =
    (p : ℕ) → elem p ps ≡ true → (s.nb2 il p == 0) ≡ false → ready (flag_of s p e) ≡ gen

mark_projs-stays :
    (s : Shape) (il gen e : ℕ) (ps : List ℕ) (ready : ℕ → ℕ) (f : ℕ)
    → ready f ≡ gen
    → mark_projs s il gen e ps ready f ≡ gen
unfolding mark_projs
mark_projs-stays s il gen e [] ready f h = h
mark_projs-stays s il gen e (p ∷ ps) ready f h = elim (Bool-cases (s.nb2 il p == 0)) [
  | inl absent ↦ rw absent (mark_projs-stays s il gen e ps ready f h)
  | inr present ↦
      rw present
        (mark_projs-stays s il gen e ps (update ready (flag_of s p e) gen) f (ground arith))
]

mark_projs-Marked :
    (s : Shape) (il gen e : ℕ) (ps : List ℕ) (ready : ℕ → ℕ)
    → Marked s il gen (mark_projs s il gen e ps ready) e ps
unfolding mark_projs
mark_projs-Marked s il gen e [] ready p m h = absurd (ground arith)
mark_projs-Marked s il gen e (q ∷ ps) ready p m h = elim (Bool-cases (q == p)) [
  | inl same ↦
      let eq : q ≡ p = ground arith in
      let present : (s.nb2 il q == 0) ≡ false = rw eq h in
      rw present (
        mark_projs-stays s il gen e ps (update ready (flag_of s q e) gen) (flag_of s p e)
          (rw eq (ground arith)))
  | inr other ↦ mark_projs-Marked s il gen e ps _ p (ground arith) h
]

-- One expert after its lookup.
pub record Served (s : Shape) (il cg gen : ℕ) (l : Looked) (xs : List ℕ) (e : ℕ) : Type 0 where
  pub here : elem (entry_id s il e) xs ≡ true
  pub stamp : l.cache.cstamp (entry_id s il e) ≡ cg
  pub served : (l.missed e ≡ true) ⊎ Marked s il gen l.ready e projections

-- A step of the lookups: on success it keeps what was served.
pub record Looks (s : Shape) (il cg gen m : ℕ) (l : Looked) (xs : List ℕ) (r : Looked × Bool)
    : Type 0 where
  pub order : List ℕ
  pub keeps : Keeps s r.0.cache order
  pub same_gen : r.0.cache.cgen ≡ cg
  pub same_max : r.0.cache.cache_max ≡ m
  pub kept : r.1 ≡ true → (i : ℕ) → Served s il cg gen l xs i → Served s il cg gen r.0 order i

module _ (s : Shape) (fits : Fits s) (vm : Vm) (il : ℕ) (hl : il < s.n_layer) (cg gen m : ℕ) where
  Served-stays :
      (l : Looked) (xs : List ℕ) (u : Looked) (ys : List ℕ) (id i : ℕ)
      → ((j : ℕ) → elem j xs ≡ true → elem j ys ≡ true)
      → u.cache.cstamp ≡ update l.cache.cstamp id cg
      → (l.missed i ≡ true → u.missed i ≡ true)
      → ((f : ℕ) → l.ready f ≡ gen → u.ready f ≡ gen)
      → Served s il cg gen l xs i
      → Served s il cg gen u ys i
  Served-stays l xs u ys id i sub st ms rd v = record {
    here = sub (entry_id s il i) v.here;
    stamp = rw st (ground (arith, v.stamp));
    served = elim v.served [
      | inl a ↦ inl (ms a)
      | inr b ↦ inr (λ p q h. rd (flag_of s p i) (b p q h))
    ];
  }

  elem-grows :
      (u : Touch) (id j : ℕ) (xs : List ℕ)
      → elem j xs ≡ true
      → elem j (order_after u false id xs) ≡ true
  elem-grows refused id j xs h = h
  elem-grows hit id j xs h = h
  elem-grows miss id j xs h = ground arith

  after_lookup-Looks :
      (e : ℕ) (l : Looked) (xs : List ℕ) (r : Cache × Touch)
      → e < s.n_expert
      → l.cache.cgen ≡ cg
      → l.cache.cache_max ≡ m
      → Keeps s r.0 (order_after r.1 false (entry_id s il e) xs)
      → (r.1 ≡ hit → elem (entry_id s il e) xs ≡ true)
      → Stamps l.cache r.0 (entry_id s il e)
      → let q = after_lookup s il gen e l r in
        (v : Looks s il cg gen m l xs q) × (q.1 ≡ true → Served s il cg gen q.0 v.order e)
  after_lookup-Looks e l xs (d, refused) he hg hm k there st = (
    record {
      order = xs;
      keeps = k;
      same_gen = st.same_gen ∙ hg;
      same_max = st.same_max ∙ hm;
      kept = λ ok. cc;
    },
    λ ok. cc,
  )
  after_lookup-Looks e l xs (d, hit) he hg hm k there st = (
    record {
      order = xs;
      keeps = k;
      same_gen = st.same_gen ∙ hg;
      same_max = st.same_max ∙ hm;
      kept = λ ok i v.
          Served-stays l xs _ xs (entry_id s il e) i (λ j h. h)
            (st.stamped ∙ ap (update l.cache.cstamp (entry_id s il e)) hg) (λ h. h)
            (λ f h. mark_projs-stays s il gen e projections l.ready f h) v;
    },
    λ ok. record {
      here = there refl;
      stamp = rw st.stamped (ground (arith, hg));
      served = inr (mark_projs-Marked s il gen e projections l.ready);
    },
  )
  after_lookup-Looks e l xs (d, miss) he hg hm k there st = (
    record {
      order = entry_id s il e ∷ xs;
      keeps = k;
      same_gen = st.same_gen ∙ hg;
      same_max = st.same_max ∙ hm;
      kept = λ ok i v.
          Served-stays l xs _ (entry_id s il e ∷ xs) (entry_id s il e) i (λ j h. ground arith)
            (st.stamped ∙ ap (update l.cache.cstamp (entry_id s il e)) hg) (λ h. ground arith)
            (λ f h. h) v;
    },
    λ ok. record {
      here = ground arith;
      stamp = rw st.stamped (ground (arith, hg));
      served = inl (ground arith);
    },
  )

  -- A hit was resident before.
  pub touch_entry_hit :
      (e : ℕ) (only : Option ℕ) (c : Cache)
      → (touch_entry vm s il e false only c).1 ≡ hit
      → c.cvalid (entry_id s il e) ≡ true
  unfolding touch_entry
  touch_entry_hit e only c h = elim (Bool-cases (c.cvalid (entry_id s il e))) [
    | inl there ↦ there
    | inr absent ↦ absurd (not_hit _ (rw (absent, touch_entry) at h))
  ]
    where
      not_hit : (r : Cache × Bool) → ¬ ((after_commit s il (entry_id s il e) r).1 ≡ hit)
      not_hit (d, true) = cc
      not_hit (d, false) = cc

  pub lookup_all-Looks :
      (only : Option ℕ) (es : List ℕ) (l : Looked) (xs : List ℕ)
      → ((e : ℕ) → elem e es ≡ true → e < s.n_expert)
      → l.cache.cgen ≡ cg
      → l.cache.cache_max ≡ m
      → Keeps s l.cache xs
      → let r = lookup_all vm s il gen only es l in
        (v : Looks s il cg gen m l xs r) × (r.1 ≡ true
          → (e : ℕ) → elem e es ≡ true
          → Served s il cg gen r.0 v.order e)
  unfolding lookup_all
  lookup_all-Looks only [] l xs below hg hm k = (
    record { order = xs; keeps = k; same_gen = hg; same_max = hm; kept = λ ok i v. v },
    λ ok e h. absurd (ground arith),
  )
  lookup_all-Looks only (e ∷ es) l xs below hg hm k =
      let he : e < s.n_expert = below e (ground arith) in
      next _
        (after_lookup-Looks e l xs (touch_entry vm s il e false only l.cache) he hg hm
          (touch_entry-Keeps s fits vm il e hl he false only l.cache xs k)
          (λ h. sym (k.valid (entry_id s il e)) ∙ touch_entry_hit e only l.cache h)
          (touch_entry-Stamps vm s il e false only l.cache))
        (λ u ys. lookup_all-Looks only es u ys (λ i h. below i (ground arith)))
    where
      next :
          (r : Looked × Bool)
          → (v : Looks s il cg gen m l xs r) × (r.1 ≡ true → Served s il cg gen r.0 v.order e)
          → ((u : Looked) (ys : List ℕ)
              → u.cache.cgen ≡ cg
              → u.cache.cache_max ≡ m
              → Keeps s u.cache ys
              → let q = lookup_all vm s il gen only es u in
                (v : Looks s il cg gen m u ys q) × (q.1 ≡ true
                  → (i : ℕ) → elem i es ≡ true
                  → Served s il cg gen q.0 v.order i))
          → let q = and_next r (λ u. lookup_all vm s il gen only es u) in
            (v : Looks s il cg gen m l xs q) × (q.1 ≡ true
              → (i : ℕ) → elem i (e ∷ es) ≡ true
              → Served s il cg gen q.0 v.order i)
      next (u, false) (v, saw) rest = (v, λ ok. cc)
      next (u, true) (v, saw) rest =
          let (w, all) = rest u v.order v.same_gen v.same_max v.keeps in
          (
            record {
              order = w.order;
              keeps = w.keeps;
              same_gen = w.same_gen;
              same_max = w.same_max;
              kept = λ ok i h. w.kept ok i (v.kept refl i h);
            },
            λ ok i h. elim (Bool-cases (e == i)) [
              | inl same ↦ let eq : e ≡ i = ground arith in rw (← eq) (w.kept ok e (saw refl))
              | inr other ↦ all ok i (ground arith)
            ],
          )
