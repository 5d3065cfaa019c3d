-- ===== src/Cache/Touch.antt =====
-- The operations on one entry keep the invariant, and what they do to the order of the entries.
use meitte.Base.{
  ℕ, ◌+◌, ◌/◌, ◌<◌, ◌≡◌, refl, inl, inr, Bool, true, false, List, [], ◌∷◌, Option, arith, elem,
  remove, AllBelow, weight-remove, elem-remove_ne, elem-remove_self, add64-eq, sub64-eq, Bool-cases,
  update, if◌then◌else◌, ◌==◌, sym, ◌∙◌, ap,
}
use meitte.Lru.{lru_unlink}
use meitte.Lru.Refine.{lru_unlink-Holds, lru_push_front-Holds}
use meitte.Cache.Defs.{Shape, Vm, Cache, n_entry, entry_id, entry_weight, entry_bytes}
use meitte.Cache.Entry.{
  evict_entry, commit_proj_pages, commit_projs, Touch, refused, hit, miss, count_hit, promote_entry,
  enter_entry, after_commit, touch_entry, and_then, projections, skips,
}
use meitte.Cache.Invariant.{Keeps, Fits, cresident-lt, remove-AllBelow, weight-le-total, same-Keeps}

pub entry_id-div : (s : Shape) (il e : ℕ) → e < s.n_expert → entry_id s il e / s.n_expert ≡ il
entry_id-div s il e h = grind arith

pub entry_id-lt :
    (s : Shape) (il e : ℕ) → il < s.n_layer → e < s.n_expert → entry_id s il e < n_entry s
entry_id-lt s il e h k = grind arith

below_of_elem : (n x : ℕ) (xs : List ℕ) → AllBelow n xs → elem x xs ≡ true → x < n
below_of_elem n x [] b h = absurd (ground arith)
below_of_elem n x (y ∷ ys) b h = ground (arith, below_of_elem n x ys b.1)

module _ (s : Shape) (fits : Fits s) (c : Cache) (xs : List ℕ) (k : Keeps s c xs) where
  -- Eviction takes one entry out, wherever it stands.
  pub evict_entry-Keeps : (id : ℕ) → elem id xs ≡ true → Keeps s (evict_entry s id c) (remove id xs)
  unfolding evict_entry
  evict_entry-Keeps id m = record {
    holds = lru_unlink-Holds c.links xs id k.holds m;
    valid = λ i.
        ground (arith, k.valid i, elem-remove_self id xs k.holds.distinct, elem-remove_ne id i xs);
    counted = omega (
      arith,
      k.counted,
      weight-remove (entry_weight s) id xs m,
      sub64-eq c.cresident (entry_weight s id) (cresident-lt s fits k),
    );
    below = remove-AllBelow (n_entry s) id xs k.below;
  }

  pub promote_entry-Keeps :
      (id : ℕ) → elem id xs ≡ true → Keeps s (promote_entry id c) (id ∷ remove id xs)
  unfolding promote_entry
  promote_entry-Keeps id m = record {
    holds =
        lru_push_front-Holds (lru_unlink id c.links) (remove id xs) id
          (lru_unlink-Holds c.links xs id k.holds m) (elem-remove_self id xs k.holds.distinct);
    valid = λ i. ground (arith, k.valid i, elem-remove_ne id i xs);
    counted = omega (arith, k.counted, weight-remove (entry_weight s) id xs m);
    below = (below_of_elem (n_entry s) id xs k.below m, remove-AllBelow (n_entry s) id xs k.below);
  }

  pub enter_entry-Keeps :
      (il e : ℕ)
      → il < s.n_layer
      → e < s.n_expert
      → elem (entry_id s il e) xs ≡ false
      → Keeps s (enter_entry s il (entry_id s il e) c) (entry_id s il e ∷ xs)
  unfolding enter_entry
  enter_entry-Keeps il e hl he m =
      let id = entry_id s il e in
      let lt : id < n_entry s = entry_id-lt s il e hl he in
      let w : entry_weight s id ≡ entry_bytes s il = ap (entry_bytes s) (entry_id-div s il e he) in
      record {
        holds = lru_push_front-Holds c.links xs id k.holds m;
        valid = λ i. ground (arith, k.valid i);
        counted = omega (
          arith,
          w,
          k.counted,
          add64-eq c.cresident (entry_bytes s il),
          weight-le-total (entry_weight s) (n_entry s) (id ∷ xs) (m, k.holds.distinct)
              (lt, k.below),
        );
        below = (lt, k.below);
      }

-- Committing pages changes nothing but the record of the calls.
abbrev pub OnlyOs : Cache → Cache → Type 0
OnlyOs c d = d ≡ record c { os = d.os }

pub OnlyOs-Keeps :
    (s : Shape) (c d : Cache) (xs : List ℕ) → OnlyOs c d → Keeps s c xs → Keeps s d xs
OnlyOs-Keeps s c d xs h =
    same-Keeps s c d xs (ap (λ (z : Cache). z.links) h) (ap (λ (z : Cache). z.cvalid) h)
      (ap (λ (z : Cache). z.cresident) h)

pub and_then-OnlyOs :
    (c : Cache) (r : Cache × Bool) (f : Cache → Cache × Bool)
    → OnlyOs c r.0
    → ((d : Cache) → OnlyOs d (f d).0)
    → OnlyOs c (and_then r f).0
and_then-OnlyOs c (d, true) f h k = k d ∙ ap (λ (z : Cache). record z { os = (f d).0.os }) h
and_then-OnlyOs c (d, false) f h k = h

pub commit_proj_pages-OnlyOs :
    (vm : Vm) (s : Shape) (il e : ℕ) (skip : Bool) (p : ℕ) (c : Cache)
    → OnlyOs c (if skip then (c, true) else commit_proj_pages vm s il e p c).0
unfolding commit_proj_pages
commit_proj_pages-OnlyOs vm s il e true p c = refl
commit_proj_pages-OnlyOs vm s il e false p c = elim (Bool-cases (s.nb2 il p == 0)) [
  | inl absent ↦ rw absent
  | inr present ↦ rw present
]

pub commit_projs-OnlyOs :
    (vm : Vm) (s : Shape) (il e : ℕ) (only : Option ℕ) (ps : List ℕ) (c : Cache)
    → OnlyOs c (commit_projs vm s il e only ps c).0
unfolding commit_projs
commit_projs-OnlyOs vm s il e only [] c = refl
commit_projs-OnlyOs vm s il e only (p ∷ ps) c =
    and_then-OnlyOs c _ (λ d. commit_projs vm s il e only ps d)
      (commit_proj_pages-OnlyOs vm s il e (skips only p) p c)
      (λ d. commit_projs-OnlyOs vm s il e only ps d)

-- The entries after a lookup, hottest first.
abbrev pub order_after : Touch → Bool → ℕ → List ℕ → List ℕ
order_after refused promote id xs = xs
order_after hit promote id xs = if promote then id ∷ remove id xs else xs
order_after miss promote id xs = id ∷ xs

module _ (s : Shape) (fits : Fits s) (vm : Vm) (il e : ℕ) (hl : il < s.n_layer)
    (he : e < s.n_expert) where
  count_hit-Keeps : (c : Cache) (xs : List ℕ) (id : ℕ) → Keeps s c xs → Keeps s (count_hit id c) xs
  unfolding count_hit
  count_hit-Keeps c xs id k =
      same-Keeps s c (count_hit id c) xs (ground arith) (ground arith) (ground arith) k

  after_commit-Keeps :
      (c : Cache) (r : Cache × Bool) (xs : List ℕ) (promote : Bool)
      → OnlyOs c r.0
      → Keeps s c xs
      → elem (entry_id s il e) xs ≡ false
      → Keeps s
          (after_commit s il (entry_id s il e) r).0
          (order_after (after_commit s il (entry_id s il e) r).1 promote (entry_id s il e) xs)
  after_commit-Keeps c (d, true) xs promote h k m =
      enter_entry-Keeps s fits d xs (OnlyOs-Keeps s c d xs h k) il e hl he m
  after_commit-Keeps c (d, false) xs promote h k m = OnlyOs-Keeps s c d xs h k

  -- Where all experts have fewer than 2^64 bytes, a lookup of an expert of a layer keeps the
  -- invariant (list, residency flags and byte count agree) on each branch: a hit leaves the order
  -- or moves the entry to the hot end, a miss enters it there, and a refused commit leaves the
  -- entries as they were.
  pub touch_entry-Keeps :
      (promote : Bool) (only : Option ℕ) (c : Cache) (xs : List ℕ)
      → Keeps s c xs
      → let r = touch_entry vm s il e promote only c in
        Keeps s r.0 (order_after r.1 promote (entry_id s il e) xs)
  unfolding touch_entry
  touch_entry-Keeps promote only c xs k =
      let id = entry_id s il e in
      let looked : Cache = record c {
        clookups = c.clookups + 1;
        cstamp = update c.cstamp id c.cgen;
      } in
      let kl : Keeps s looked xs = same-Keeps s c looked xs refl refl refl k in
      let kh : Keeps s (count_hit id looked) xs = count_hit-Keeps looked xs id kl in
      elim (Bool-cases (c.cvalid id)) [
        | inl there ↦ rw (there, touch_entry) (promoted promote id kh (sym (k.valid id) ∙ there))
        | inr absent ↦
            rw (absent, touch_entry)
              (after_commit-Keeps looked (commit_projs vm s il e only projections looked) xs promote
                (commit_projs-OnlyOs vm s il e only projections looked) kl
                (sym (k.valid id) ∙ absent))
      ]
    where
      promoted :
          (b : Bool) (id : ℕ) {d : Cache}
          → Keeps s d xs
          → elem id xs ≡ true
          → Keeps s (if b then promote_entry id d else d) (if b then id ∷ remove id xs else xs)
      promoted true id {d} h m = promote_entry-Keeps s fits d xs h id m
      promoted false id {d} h m = h
