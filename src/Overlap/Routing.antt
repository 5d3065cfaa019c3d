-- ===== src/Overlap/Routing.antt =====
-- The routed set: what the ids name, each expert once, all of them experts of the layer.
use meitte.Base.{
  ℕ, zero, suc, ◌+◌, ◌≤◌, ◌<◌, ◌≡◌, refl, ◌∙◌, Bool, true, false, List, [], ◌∷◌, Option, none, some,
  arith, elem, Bool-cases, inl, inr, ℤ, index_below, Routed, AtSome, AtSome-mono, Routed-mono,
  sort_ids-elem, sort_ids-Distinct, Distinct, sym, if◌then◌else◌,
}
use meitte.Lru.Neighbours.{elem-snoc, snoc-Distinct}
use meitte.Cache.{Shape}
use meitte.Cache.Load.{wanted}
use meitte.Cache.Loaded.{all_wanted, index_below-lt}
use meitte.Overlap.Start.{Routing, collect, collect_found, collect_ids, collect_rest, routed_set}

record Collected (n : ℕ) (r : Routing) : Type 0 where
  agrees : (i : ℕ) → r.seen i ≡ elem i r.staged
  below : (i : ℕ) → elem i r.staged ≡ true → i < n
  distinct : Distinct r.staged

-- A step of the collection: it forgets no expert.
record Collects (n : ℕ) (r u : Routing) : Type 0 where
  collected : Collected n u
  grows : (i : ℕ) → elem i r.staged ≡ true → elem i u.staged ≡ true

trans-Collects : {n : ℕ} {r u v : Routing} → Collects n r u → Collects n u v → Collects n r v
trans-Collects a b = record { collected = b.collected; grows = λ i h. b.grows i (a.grows i h) }

collect-Collects :
    (n e : ℕ) (r : Routing)
    → e < n
    → Collected n r
    → Collects n r (collect e r) × (elem e (collect e r).staged ≡ true)
unfolding collect
collect-Collects n e r lt c = elim (Bool-cases (r.seen e)) [
  | inl again ↦ rw again (record { collected = c; grows = λ i h. h }, sym (c.agrees e) ∙ again)
  | inr new ↦ rw new (
    record {
      collected = record {
        agrees = λ i. ground (arith, c.agrees i, elem-snoc e i r.staged);
        below = λ i h. ground (arith, c.below i, elem-snoc e i r.staged);
        distinct = snoc-Distinct e r.staged (sym (c.agrees e) ∙ new) c.distinct;
      };
      grows = λ i h. ground (arith, elem-snoc e i r.staged);
    },
    ground (arith, elem-snoc e e r.staged),
  )
]

collect_found-Collects :
    (n : ℕ) (o : Option ℕ) (r : Routing)
    → ((e : ℕ) → o ≡ some e → e < n)
    → Collected n r
    → Collects n r (collect_found o r) × AtSome (λ e. elem e (collect_found o r).staged ≡ true) o
collect_found-Collects n none r lt c = (record { collected = c; grows = λ i h. h }, tt)
collect_found-Collects n (some e) r lt c = collect-Collects n e r (lt e refl) c

collect_ids-Collects :
    (s : Shape) (i : ℕ) (zs : List ℤ) (r : Routing)
    → Collected s.n_expert r
    → Collects s.n_expert r (collect_ids s i zs r)
      × Routed s.n_expert (λ e. elem e (collect_ids s i zs r).staged ≡ true) (all_wanted s i zs)
unfolding collect_ids
collect_ids-Collects s i [] r c = (record { collected = c; grows = λ j h. h }, tt)
collect_ids-Collects s i (z ∷ zs) r c =
    let o = index_below s.n_expert (wanted s i z) in
    let (v, saw) =
      collect_found-Collects s.n_expert o r (index_below-lt s.n_expert (wanted s i z)) c in
    let (w, all) = collect_ids-Collects s (i + 1) zs (collect_found o r) v.collected in
    (trans-Collects v w, (AtSome-mono _ _ o w.grows saw, all))

collect_rest-Collects :
    (n k e : ℕ) (r : Routing) → e + k ≤ n → Collected n r → Collects n r (collect_rest e k r)
unfolding collect_rest
collect_rest-Collects n zero e r h c = record { collected = c; grows = λ j g. g }
collect_rest-Collects n (suc k) e r h c =
    let v = (collect-Collects n e r (omega arith) c).0 in
    trans-Collects v (collect_rest-Collects n k (e + 1) (collect e r) (omega arith) v.collected)

-- The collection before the sort.
all-Collected :
    (s : Shape) (ids : List ℤ)
    → let r = collect_ids s 0 ids (record { seen = λ _. false; staged = [] }) in
      (b : Bool) → Collected s.n_expert (if b then collect_rest 0 s.n_expert r else r)
all-Collected s ids b =
    after b _
      (collect_ids-Collects s 0 ids (record { seen = λ _. false; staged = [] })
        (record {
          agrees = λ i. refl;
          below = λ i h. absurd (ground arith);
          distinct = tt;
        })).0.collected
  where
    after :
        (b : Bool) (r : Routing)
        → Collected s.n_expert r
        → Collected s.n_expert (if b then collect_rest 0 s.n_expert r else r)
    after true r c = (collect_rest-Collects s.n_expert s.n_expert 0 r (omega arith) c).collected
    after false r c = c

pub routed_set-Distinct : (s : Shape) (ids : List ℤ) → Distinct (routed_set s ids)
unfolding routed_set
routed_set-Distinct s ids = sort_ids-Distinct _ (all-Collected s ids s.load_all).distinct

-- The set holds every expert that the ids name, and experts of the layer only.
pub routed_set-Routed :
    (s : Shape) (ids : List ℤ)
    → Routed s.n_expert (λ e. elem e (routed_set s ids) ≡ true) (all_wanted s 0 ids)
      × ((e : ℕ) → elem e (routed_set s ids) ≡ true → e < s.n_expert)
unfolding routed_set
routed_set-Routed s ids =
    let (v, all) =
      collect_ids-Collects s 0 ids (record { seen = λ _. false; staged = [] })
        (record { agrees = λ i. refl; below = λ i h. absurd (ground arith); distinct = tt }) in
    let w = rest s.load_all _ v.collected in
    (
      Routed-mono s.n_expert _ _ (all_wanted s 0 ids) (λ e h. sort_ids-elem e _ ∙ w.grows e h) all,
      λ e h. w.collected.below e (sym (sort_ids-elem e _) ∙ h),
    )
  where
    rest :
        (b : Bool) (r : Routing)
        → Collected s.n_expert r
        → Collects s.n_expert r (if b then collect_rest 0 s.n_expert r else r)
    rest true r c = collect_rest-Collects s.n_expert s.n_expert 0 r (omega arith) c
    rest false r c = record { collected = c; grows = λ i h. h }
