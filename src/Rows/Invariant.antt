-- ===== src/Rows/Invariant.antt =====
-- What every operation keeps: the list orders exactly the resident slabs, each once, and the resident
-- bytes are those of their pages.
use meitte.Base.{
  ℕ, ◌^◌, ◌<◌, ◌+◌, ◌%◌, ◌≤◌, ◌≡◌, refl, sym, ap, ◌∙◌, true, false, ◌||◌, List, [], ◌∷◌, ◌++◌,
  Option, none, some, arith, Bool-cases, inl, inr, add64, sub64, word, get_elem?, ◌*◌,
  if◌then◌else◌,
}
use meitte.Cache.{Vm, vm_commit}
use meitte.Rows.Slabs.{
  Table, Window, Key, same_key, remove_key, write, RowStream, SlabReads, slab_bytes, slab_commit,
  touch, land, count_error, fetch_slab, drop_slab,
}
use meitte.Rows.Keys.{
  elem_key, DistinctKeys, key_weight, remove_key_self, remove_key_ne, remove_key-DistinctKeys,
  remove_key-weight, remove_key_absent, snoc-elem_key, snoc-DistinctKeys, snoc-weight,
}

-- The page bytes of a slab, by its table's index.
abbrev pub commit_of : Window → ℕ → ℕ → ℕ
commit_of w ti s = elim (get_elem? w.tables ti) [ none ↦ 0 | some t ↦ slab_commit w t s ]

pub record Keeps (w : Window) (st : RowStream) : Type 0 where
  pub distinct : DistinctKeys st.lru
  pub spots : (k : Key) → st.spot k.0 k.1 ≡ elem_key k st.lru
  pub flags : (k : Key) → st.resident k.0 k.1 ≡ elem_key k st.lru
  pub counted : st.resident_bytes ≡ key_weight (commit_of w) st.lru % word
  pub stamped : (k : Key) → st.stamp k.0 k.1 ≤ st.gen
  pub gen_lt : st.gen < 2 ^ 32

commit_of-table :
    (w : Window) (t : Table) (k : Key)
    → get_elem? w.tables k.0 ≡ some t
    → commit_of w k.0 k.1 ≡ slab_commit w t k.1
commit_of-table w t k h = rw (h, commit_of) refl

sub64-total : (a b c : ℕ) → a + b ≡ c → sub64 (c % word) b ≡ a % word
unfolding sub64
sub64-total a b c h = omega arith

add64-total : (a b c : ℕ) → a + b ≡ c → add64 (a % word) b ≡ c % word
unfolding add64
add64-total a b c h = omega arith

pub same_key-elem_key :
    (k j : Key) (qs : List Key) → same_key k j ≡ true → elem_key k qs ≡ true → elem_key j qs ≡ true
same_key-elem_key k j [] h m = cc
same_key-elem_key (t, s) (u, r) ((a, b) ∷ qs) h m =
    ground (arith, same_key-elem_key (t, s) (u, r) qs)

module _ (w : Window) (t : Table) (k : Key) (at : get_elem? w.tables k.0 ≡ some t) where
  pub drop_slab-Keeps :
      (st : RowStream) → Keeps w st → elem_key k st.lru ≡ true → Keeps w (drop_slab w t k st)
  unfolding drop_slab
  drop_slab-Keeps st v here = record {
    distinct = remove_key-DistinctKeys k st.lru v.distinct;
    spots = λ j.
        ground (arith, v.spots j, remove_key_self k st.lru v.distinct, remove_key_ne k j st.lru);
    flags = λ j.
        ground (arith, v.flags j, remove_key_self k st.lru v.distinct, remove_key_ne k j st.lru);
    counted =
        ap (λ n. sub64 n (slab_commit w t k.1)) v.counted
        ∙ sub64-total _ _ _ (
            ap (λ n. key_weight (commit_of w) (remove_key k st.lru) + n)
              (sym (commit_of-table w t k at))
            ∙ remove_key-weight (commit_of w) k st.lru here);
    stamped = v.stamped;
    gen_lt = v.gen_lt;
  }

  -- A touch moves the slab to the recent end; the flag of a slab that joins is already set.
  touch_lru :
      (st : RowStream)
      → DistinctKeys st.lru
      → st.spot k.0 k.1 ≡ elem_key k st.lru
      → (touch k st).lru ≡ remove_key k st.lru ++ k ∷ []
  unfolding touch
  touch_lru st d spot = elim (Bool-cases (st.spot k.0 k.1)) [
    | inl on ↦ rw on refl
    | inr off ↦ rw off (ap (λ qs. qs ++ k ∷ []) (sym (remove_key_absent k st.lru (sym spot ∙ off))))
  ]

  moved_elem :
      (qs : List Key) (j : Key)
      → DistinctKeys qs
      → elem_key j (remove_key k qs ++ k ∷ []) ≡ (same_key k j || elem_key j qs)
  moved_elem qs j d = ground (arith, snoc-elem_key k j (remove_key k qs), remove_key_ne k j qs)

  moved_distinct : (qs : List Key) → DistinctKeys qs → DistinctKeys (remove_key k qs ++ k ∷ [])
  moved_distinct qs d =
      snoc-DistinctKeys k (remove_key k qs) (remove_key-DistinctKeys k qs d)
        (remove_key_self k qs d)

  moved_weight :
      (qs : List Key)
      → elem_key k qs ≡ true
      → key_weight (commit_of w) (remove_key k qs ++ k ∷ []) ≡ key_weight (commit_of w) qs
  moved_weight qs here =
      snoc-weight (commit_of w) k (remove_key k qs) ∙ remove_key-weight (commit_of w) k qs here

  touched_elem :
      (st : RowStream)
      → Keeps w st
      → (j : Key) → elem_key j (touch k st).lru ≡ (same_key k j || elem_key j st.lru)
  touched_elem st v j =
      ap (elem_key j) (touch_lru st v.distinct (v.spots k)) ∙ moved_elem st.lru j v.distinct

  touch-resident : (st : RowStream) (j : Key) → (touch k st).resident j.0 j.1 ≡ st.resident j.0 j.1
  unfolding touch
  touch-resident st j = refl

  touch-Keeps : (st : RowStream) → Keeps w st → elem_key k st.lru ≡ true → Keeps w (touch k st)
  unfolding touch
  touch-Keeps st v here =
      let e = touch_lru st v.distinct (v.spots k) in
      record {
        distinct = rw e (moved_distinct st.lru v.distinct);
        spots = λ j. ground (arith, v.spots j, touched_elem st v j);
        flags = λ j. ground (arith, v.flags j, touched_elem st v j, same_key-elem_key k j st.lru);
        counted =
            v.counted
            ∙ ap (λ n. n % word) (sym (ap (key_weight (commit_of w)) e ∙ moved_weight st.lru here));
        stamped = v.stamped;
        gen_lt = v.gen_lt;
      }

  -- The state that `land` touches, with the flag already set.
  abbrev flagged : RowStream → RowStream
  flagged st = record st { resident = write st.resident k true }

  landed_weight :
      (st : RowStream)
      → Keeps w st
      → elem_key k st.lru ≡ false
      → key_weight (commit_of w) st.lru + slab_commit w t k.1
        ≡ key_weight (commit_of w) (touch k (flagged st)).lru
  landed_weight st v absent =
      let e : (touch k (flagged st)).lru ≡ st.lru ++ k ∷ [] =
        touch_lru (flagged st) v.distinct (v.spots k)
        ∙ ap (λ qs. qs ++ k ∷ []) (remove_key_absent k st.lru absent) in
      ap (λ n. key_weight (commit_of w) st.lru + n) (sym (commit_of-table w t k at))
      ∙ sym (ap (key_weight (commit_of w)) e ∙ snoc-weight (commit_of w) k st.lru)

  land-Keeps :
      (got : Option ℕ) (st : RowStream)
      → Keeps w st
      → elem_key k st.lru ≡ false
      → Keeps w (land w t k got st).0
  unfolding land touch count_error
  land-Keeps none st v absent = record {
    distinct = v.distinct;
    spots = v.spots;
    flags = v.flags;
    counted = v.counted;
    stamped = v.stamped;
    gen_lt = v.gen_lt;
  }
  land-Keeps (some got) st v absent =
      let e = touch_lru (flagged st) v.distinct (v.spots k) in
      record {
        distinct = rw e (moved_distinct st.lru v.distinct);
        spots = λ j. ground (arith, v.spots j, touched_elem st v j);
        flags = λ j. ground (arith, v.flags j, touched_elem st v j);
        counted =
            ap (λ n. add64 n (slab_commit w t k.1)) v.counted
            ∙ add64-total _ _ _ (landed_weight st v absent);
        stamped = v.stamped;
        gen_lt = v.gen_lt;
      }

  land-resident :
      (got : Option ℕ) (st : RowStream)
      → let r = land w t k got st in
        (r.1 ≡ true → r.0.resident k.0 k.1 ≡ true)
        × ((j : Key) → st.resident j.0 j.1 ≡ true → r.0.resident j.0 j.1 ≡ true)
  unfolding land touch count_error
  land-resident none st = ((λ ok. cc), λ j h. h)
  land-resident (some got) st = ((λ ok. ground arith), λ j h. ground arith)

  asked-Keeps :
      (vm : Vm) (reads : SlabReads) (st : RowStream)
      → Keeps w st
      → elem_key k st.lru ≡ false
      → let addr = t.base + k.1 * slab_bytes in
        let commit = slab_commit w t k.1 in
        let asked = record st { os = vm_commit addr commit ∷ st.os } in
        let r =
          if vm st.os addr commit
          then land w t k (reads asked.os k) asked
          else (count_error asked, false) in
        Keeps w r.0
        × (r.1 ≡ true → r.0.resident k.0 k.1 ≡ true)
        × ((j : Key) → st.resident j.0 j.1 ≡ true → r.0.resident j.0 j.1 ≡ true)
  unfolding count_error land
  asked-Keeps vm reads st v absent =
      let addr = t.base + k.1 * slab_bytes in
      let commit = slab_commit w t k.1 in
      let asked : RowStream = record st { os = vm_commit addr commit ∷ st.os } in
      let va : Keeps w asked = record {
        distinct = v.distinct;
        spots = v.spots;
        flags = v.flags;
        counted = v.counted;
        stamped = v.stamped;
        gen_lt = v.gen_lt;
      } in
      elim (Bool-cases (vm st.os addr commit)) [
        | inl given ↦
            let (loaded, grows) = land-resident (reads asked.os k) asked in
            rw given (land-Keeps (reads asked.os k) asked va absent, loaded, grows)
        | inr refused ↦ rw refused (land-Keeps none asked va absent, (λ ok. cc), λ j h. h)
      ]

  -- A fetch keeps the invariant, and what was resident; where it succeeds, the slab is resident.
  pub fetch_slab-Keeps :
      (vm : Vm) (reads : SlabReads) (st : RowStream)
      → Keeps w st
      → let r = fetch_slab vm reads w t k st in
        Keeps w r.0
        × (r.1 ≡ true → r.0.resident k.0 k.1 ≡ true)
        × ((j : Key) → st.resident j.0 j.1 ≡ true → r.0.resident j.0 j.1 ≡ true)
  unfolding fetch_slab
  fetch_slab-Keeps vm reads st v = elim (Bool-cases (st.resident k.0 k.1)) [
    | inl here ↦
        rw (here, fetch_slab)
          (
            touch-Keeps st v (sym (v.flags k) ∙ here),
            (λ ok. touch-resident st k ∙ here),
            λ j h. touch-resident st j ∙ h,
          )
    | inr absent ↦ rw (absent, fetch_slab) (asked-Keeps vm reads st v (sym (v.flags k) ∙ absent))
  ]
