-- ===== src/Cache/Entry.antt =====
-- The operations on one entry: page ranges, eviction, lookup, retention and the residency query.
use meitte.Base.{
  ℕ, ◌+◌, ◌-◌, ◌*◌, ◌/◌, ◌%◌, Bool, true, false, List, [], ◌∷◌, Option, none, some, if◌then◌else◌,
  ◌==◌, ltb, update, add64, sub64, align_up, align_down, ℤ, index_below, map,
}
use meitte.Lru.{lru_unlink, lru_push_front}
use meitte.Cache.Defs.{
  Shape, OsCall, vm_commit, vm_evict, Vm, Cache, entry_id, entry_bytes, entry_weight,
}

abbrev pub projections : List ℕ
projections = 0 ∷ 1 ∷ 2 ∷ []

-- The address of an expert's slice in its layer's buffer.
abbrev pub slice_address : Shape → ℕ → ℕ → ℕ → ℕ
slice_address s il e p = s.lbuf p il + e * s.nb2 il p

-- The pages that a slice touches: its first page and the end of its last one.
unfoldable pub commit_range : Shape → ℕ → ℕ → ℕ → ℕ × ℕ
commit_range s il e p = (
  align_down (slice_address s il e p) s.page,
  align_up (slice_address s il e p + s.nb2 il p) s.page,
)

-- The pages that lie inside a slice.
unfoldable pub release_range : Shape → ℕ → ℕ → ℕ → ℕ × ℕ
release_range s il e p = (
  align_up (slice_address s il e p) s.page,
  align_down (slice_address s il e p + s.nb2 il p) s.page,
)

unfoldable pub release_proj : Shape → ℕ → ℕ → ℕ → List OsCall → List OsCall
unfolding release_range
release_proj s il e p os =
    if s.nb2 il p == 0
    then os
    else let (a0, a1) = release_range s il e p in
      if ltb a0 a1 then vm_evict a0 (a1 - a0) ∷ os else os

unfoldable pub release_entry_pages : Shape → ℕ → Cache → Cache
unfolding release_proj
release_entry_pages s id c =
    let il = id / s.n_expert in
    let e = id % s.n_expert in
    record c { os = release_proj s il e 2 (release_proj s il e 1 (release_proj s il e 0 c.os)) }

-- `evict_tail()` with `ctail_ == id`.
unfoldable pub evict_entry : Shape → ℕ → Cache → Cache
unfolding release_entry_pages
evict_entry s id c =
    let r =
      release_entry_pages s id
        (record c { evictions = c.evictions + 1; ever_evicted = update c.ever_evicted id true }) in
    record r {
      cvalid = update r.cvalid id false;
      cspec = update r.cspec id false;
      cresident = sub64 r.cresident (entry_weight s id);
      links = lru_unlink id r.links;
    }

-- A step that may fail keeps the state that it has reached.
abbrev pub and_then : Cache × Bool → (Cache → Cache × Bool) → Cache × Bool
and_then (c, true) f = f c
and_then (c, false) f = (c, false)

unfoldable pub commit_proj_pages : Vm → Shape → ℕ → ℕ → ℕ → Cache → Cache × Bool
unfolding commit_range
commit_proj_pages vm s il e p c =
    if s.nb2 il p == 0
    then (c, true)
    else let (a0, a1) = commit_range s il e p in
      (record c { os = vm_commit a0 (a1 - a0) ∷ c.os }, vm c.os a0 (a1 - a0))

-- `commit_only_proj >= 0 && p != commit_only_proj`; `none` stands for -1.
abbrev pub skips : Option ℕ → ℕ → Bool
skips none p = false
skips (some q) p = if q == p then false else true

unfoldable pub commit_projs : Vm → Shape → ℕ → ℕ → Option ℕ → List ℕ → Cache → Cache × Bool
commit_projs vm s il e only [] c = (c, true)
commit_projs vm s il e only (p ∷ ps) c =
    and_then (if skips only p then (c, true) else commit_proj_pages vm s il e p c)
      (λ d. commit_projs vm s il e only ps d)

-- What `touch_entry` tells its caller: it returned false, or `hit`.
pub data Touch : Type 0 where
  refused hit miss : Touch

unfoldable pub count_hit : ℕ → Cache → Cache
count_hit id c =
    if c.cspec id
    then record c {
      chits = c.chits + 1;
      spec_useful = c.spec_useful + 1;
      cspec = update c.cspec id false;
    }
    else record c { chits = c.chits + 1 }

unfoldable pub promote_entry : ℕ → Cache → Cache
promote_entry id c = record c { links = lru_push_front id (lru_unlink id c.links) }

unfoldable pub enter_entry : Shape → ℕ → ℕ → Cache → Cache
enter_entry s il id c = record c {
  rereads = if c.ever_evicted id then c.rereads + 1 else c.rereads;
  cvalid = update c.cvalid id true;
  cspec = update c.cspec id false;
  cresident = add64 c.cresident (entry_bytes s il);
  links = lru_push_front id c.links;
}

abbrev pub after_commit : Shape → ℕ → ℕ → Cache × Bool → Cache × Touch
after_commit s il id (c, true) = (enter_entry s il id c, miss)
after_commit s il id (c, false) = (c, refused)

unfoldable pub touch_entry : Vm → Shape → ℕ → ℕ → Bool → Option ℕ → Cache → Cache × Touch
touch_entry vm s il e promote only c =
    let id = entry_id s il e in
    let looked = record c { clookups = c.clookups + 1; cstamp = update c.cstamp id c.cgen } in
    if c.cvalid id
    then (if promote then promote_entry id (count_hit id looked) else count_hit id looked, hit)
    else after_commit s il id (commit_projs vm s il e only projections looked)

unfoldable pub retain_id : ℕ → Cache → Cache
retain_id id c = if c.cvalid id then promote_entry id c else c

unfoldable pub retain_ids : Shape → ℕ → List ℤ → Cache → Cache
retain_ids s il [] c = c
retain_ids s il (z ∷ zs) c =
    retain_ids s il zs
      (elim (index_below s.n_expert z) [ none ↦ c | some e ↦ retain_id (entry_id s il e) c ])

-- The layer that a call names, if it exists and is bound.
unfoldable pub bound_layer : Shape → ℤ → Option ℕ
bound_layer s il = elim (index_below s.n_layer il) [
  | none ↦ none
  | some l ↦ if s.bound l then some l else none
]

-- The same with the LRU cache on.
abbrev pub cached_layer : Shape → ℤ → Cache → Option ℕ
cached_layer s il c = if c.cache_max == 0 then none else bound_layer s il

-- `retain(il, ids)` on an active source.
unfoldable pub retain : Shape → ℤ → List ℤ → Cache → Cache
unfolding retain_ids retain_id
retain s il ids c = elim (cached_layer s il c) [ none ↦ c | some l ↦ retain_ids s l ids c ]

unfoldable pub residency : Shape → Cache → ℕ → ℤ → ℕ
residency s c il z = elim (index_below s.n_expert z) [
  | none ↦ 0
  | some e ↦ if c.cvalid (entry_id s il e) then (if c.cspec (entry_id s il e) then 2 else 1) else 0
]

-- `query_residency(il, ids)` on an active source: 0 absent, 1 resident, 2 resident by speculation.
unfoldable pub query_residency : Shape → Cache → ℤ → List ℤ → List ℕ
unfolding residency
query_residency s c il ids = elim (cached_layer s il c) [
  | none ↦ map (λ _. 0) ids
  | some l ↦ map (residency s c l) ids
]
