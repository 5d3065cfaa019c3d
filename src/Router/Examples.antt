-- ===== src/Router/Examples.antt =====
-- A layer of two experts under whole numbers; the theorems at it.
use meitte.Base.{
  ℕ, ◌+◌, ◌*◌, ◌-◌, ◌/◌, ◌≡◌, refl, true, false, List, [], ◌∷◌, some, arith, if◌then◌else◌, ◌==◌,
  ltb, leb, pos, Routed, not,
}
use meitte.Cache.{Cache, entry_bytes, entry_id}
use meitte.Cache.Entry.{bound_layer}
use meitte.Prefetch.Settle.{
  settle_spec, spec_integrate_done, eligible, integrate_done, integrate_done_entry,
}
use meitte.Cache.Sample.{tiny, warm, vm, reads, tiny-Fits, warm-Keeps}
use meitte.Cache.Speculation.{
  quiesce_spec, integrate_all, integrate_entry, release_all, release_unfinished,
}
use meitte.Cache.Entry.{
  release_entry_pages, release_proj, release_range, query_residency, residency,
}
use meitte.Cache.Progress.{load_layer_succeeds}
use meitte.Lru.{lru_unlink, lru_push_front, lru_push_back}
use meitte.Cache.Progress.{finish_load_granted, stage_all_granted}
use meitte.Cache.Invariant.{same-Keeps}
use meitte.Prefetch.{Spec}
use meitte.Prefetch.Reached.{start_spec, start_spec-Sound}
use meitte.Prefetch.Steps.{idle}
use meitte.Prefetch.Whole.{Whole}
use meitte.Prefetch.Join.{end_join}
use meitte.Router.Joined.{begin_drop, end_drop, end_drop-Resident}
use meitte.Router.Drop.{Edited}
use meitte.Router.Defs.{Floats, IsOrdered}
use meitte.Router.Rank.{rank_top_k, rank_from, best_below, consider}
use meitte.Router.Lists.{build_spec_lists}
use meitte.Router.Listed.{Listed, build_spec_lists-Listed}
use meitte.Router.Drop.{
  Row, all_ids, apply_drop, edit_row, slot_of, slots_of, drop_row, best_slot, total_weight,
  drop_slots, is_dropped, kept_weight, scale_kept,
}
use meitte.Router.Substitute.{
  Routing, Sorted, apply_substitute, sub_at, sub_rows, substitute_row, sub_score, score_range,
  widen, boost_of, boosted, take_pick, newcomers, resident_code,
}
use meitte.Router.Substituted.{Substituted}
use meitte.Router.Applied.{RowsFate, apply_drop-Applied}

abbrev whole : Floats
whole = record {
  Float = ℕ;
  zero = 0;
  of_nat = λ n. n;
  add = λ a b. a + b;
  sub = λ a b. a - b;
  mul = λ a b. a * b;
  div = λ a b. if b == 0 then 0 else a / b;
  exp = λ a. a + 1;
  log = λ a. a;
  minus_infinity = 0;
  is_finite = λ a. not (a == 0);
  lt = ltb;
  le = leb;
}

whole-IsOrdered : IsOrdered whole
whole-IsOrdered = record {
  irrefl = λ a. ground arith;
  asym = λ a b h. ground (arith, h);
  weak = λ a b c h g. ground (arith, h, g);
}

abbrev scores : ℕ → ℕ
scores e = if e == 1 then 7 else if e == 3 then 7 else e

ranked_run : rank_top_k whole scores 4 3 ≡ 1 ∷ 3 ∷ 2 ∷ []
unfolding rank_top_k rank_from best_below consider
ranked_run = refl

abbrev snapshot : ℕ → ℕ
snapshot e = if e == 3 then 1 else 0

build_spec_lists-Listed_example :
    Listed whole snapshot 4 1
      (rank_top_k whole scores 4 3)
      []
      (build_spec_lists whole scores 4 3 0 1 snapshot 4)
build_spec_lists-Listed_example = build_spec_lists-Listed whole scores 4 3 0 1 snapshot 4

-- Expert 1 of layer 0 is resident with the weight 9, expert 0 is not and has the weight 1.
abbrev light : List (Row whole)
light = record { first = (pos 1, 9); rest = (pos 0, 1) ∷ [] } ∷ []

drops : Unit {0}
unfolding apply_drop edit_row slot_of slots_of drop_row best_slot total_weight drop_slots is_dropped
    kept_weight scale_kept query_residency residency settle_spec spec_integrate_done eligible
    integrate_done integrate_done_entry quiesce_spec integrate_all integrate_entry release_all
    release_unfinished release_entry_pages release_proj release_range bound_layer lru_push_front
    lru_push_back lru_unlink entry_bytes
drops = tt

drop_run :
    all_ids whole (apply_drop whole vm reads tiny (pos 0) 4 true light warm).rows
    ≡ pos 1 ∷ pos 1 ∷ []
unfolding drops
drop_run = refl

drop_succeeds : (apply_drop whole vm reads tiny (pos 0) 4 true light warm).loaded.success ≡ true
unfolding drops
drop_succeeds =
    load_layer_succeeds vm reads tiny (pos 0) 0 (pos 1) (pos 1 ∷ []) (settle_spec false tiny warm)
      (λ calls a n. refl) (λ done j. refl) refl

apply_drop-Applied_example :
    let a = apply_drop whole vm reads tiny (pos 0) 4 true light warm in
    RowsFate whole tiny (settle_spec false tiny warm) (pos 0) 4 light a.rows
    × ((l : ℕ) × (bound_layer tiny (pos 0) ≡ some l)
        × Routed 2 (λ e. a.loaded.cache.cvalid (entry_id tiny l e) ≡ true) (all_ids whole a.rows))
apply_drop-Applied_example =
    apply_drop-Applied whole whole-IsOrdered vm reads tiny (pos 0) 4 true light warm (1 ∷ 2 ∷ [])
      tiny-Fits warm-Keeps (omega arith) (omega arith) refl drop_succeeds

-- The same on a source that adopts, with nothing speculated yet.
abbrev calm : Cache
calm = record warm { spec_done = []; spec_touched = [] }

abbrev adopting : Spec
adopting = start_spec true calm

adopting-Whole : Whole tiny adopting
adopting-Whole = record {
  sound = start_spec-Sound tiny true calm (record {
    no_jobs = refl;
    none_taken = refl;
    none_left = λ i. refl;
    none_done = refl;
    no_guess = λ i. refl;
  });
  ordered = record { once = tt; below = tt; queued = tt; flying = tt };
  order = 1 ∷ 2 ∷ [];
  keeps = same-Keeps tiny warm calm (1 ∷ 2 ∷ []) refl refl refl warm-Keeps;
}

abbrev begun : List (List (Edited whole)) × Cache
begun = begin_drop whole tiny (pos 0) 0 4 true light calm

abbrev waiting : Spec
waiting = record adopting { cache = begun.1 }

join_succeeds : (end_drop whole vm reads tiny 0 begun.0 waiting.cache).success ≡ true
unfolding end_drop end_join
join_succeeds =
    finish_load_granted vm (λ calls a n. refl) tiny 0 reads (λ done j. refl) _
      (stage_all_granted vm (λ calls a n. refl) tiny 0 (all_ids whole begun.0) _)

end_drop-Resident_example :
    let r = end_drop whole vm reads tiny 0 begun.0 waiting.cache in
    RowsFate whole tiny (settle_spec true tiny calm) (pos 0) 4 light begun.0
    × Routed 2 (λ e. r.cache.cvalid (entry_id tiny 0 e) ≡ true) (all_ids whole begun.0)
unfolding bound_layer
end_drop-Resident_example =
    end_drop-Resident whole whole-IsOrdered vm reads tiny (pos 0) 0 4 true light adopting waiting
      tiny-Fits adopting-Whole refl refl (omega arith) refl refl idle refl join_succeeds

-- One of two experts is routed: expert 0 by 5 over 4, and only expert 1 is resident.
abbrev tensor : Sorted whole
tensor = record { ne = 2; log_space = false }

abbrev close_call : List (Routing whole)
close_call = record { scores = λ e. if e == 0 then 5 else 4; ids = 0 ∷ [] } ∷ []

substitutions : Unit {0}
unfolding drops apply_substitute sub_at sub_rows substitute_row sub_score score_range widen boost_of
    boosted take_pick newcomers resident_code rank_top_k rank_from best_below consider
substitutions = tt

-- A margin of twice the range moves the routing, a margin of the range does not.
substitute_run :
    ((apply_substitute whole 2 true 2 tiny (pos 0) 1 (some tensor) close_call warm).1
      ≡ record { ids = 1 ∷ []; reranked = 1; substituted = 1 } ∷ [])
    × ((apply_substitute whole 1 false 2 tiny (pos 0) 1 (some tensor) close_call warm).1
        ≡ record { ids = 0 ∷ []; reranked = 1; substituted = 0 } ∷ [])
unfolding substitutions
substitute_run = (refl, refl)
