-- ===== src/Cache/Budget.antt =====
-- What moves bytes out of the cache: the eviction loops, and the explicit change of the budget.
use meitte.Base.{
  ℕ, zero, suc, ◌+◌, ◌*◌, Bool, true, not, Option, none, some, if◌then◌else◌, ◌==◌, ltb, min, max,
}
use meitte.Cache.Defs.{Shape, Cache, n_entry, entry_bytes}
use meitte.Cache.Entry.{evict_entry}
use meitte.Cache.Speculation.{quiesce_spec}

-- Whether the loop may take the tail: any entry, or (in a load) one of an older generation.
pub data Guard : Type 0 where
  any_entry older_entry : Guard

abbrev pub may_evict : Guard → Cache → ℕ → Bool
may_evict any_entry c id = true
may_evict older_entry c id = not (c.cstamp id == c.cgen)

-- The loop's condition: the entry that the next round takes, if there is one.
unfoldable pub evict_choice : Guard → Cache → Option ℕ
evict_choice g c =
    if ltb c.cache_max c.cresident
    then elim c.links.tail [ none ↦ none | some id ↦ if may_evict g c id then some id else none ]
    else none

-- `while (cresident_ > cache_max_ && ctail_ != -1 [&& cstamp_[ctail_] != cgen_]) evict_tail();`
-- on fuel; a round removes one entry, so the number of entries is enough.
unfoldable pub evict_loop : ℕ → Guard → Shape → Cache → Cache
unfolding evict_choice
evict_loop zero g s c = c
evict_loop (suc fuel) g s c = elim (evict_choice g c) [
  | none ↦ c
  | some id ↦ evict_loop fuel g s (evict_entry s id c)
]

abbrev pub evict_fuel : Shape → ℕ
evict_fuel s = n_entry s

unfoldable pub evict_to_budget : Guard → Shape → Cache → Cache
unfolding evict_loop
evict_to_budget g s c = evict_loop (evict_fuel s) g s c

-- `total_expert_bytes_`: every expert of every bound layer.
unfoldable pub layers_bytes : Shape → ℕ → ℕ
layers_bytes s zero = 0
layers_bytes s (suc n) = (if s.bound n then entry_bytes s n * s.n_expert else 0) + layers_bytes s n

abbrev pub total_expert_bytes : Shape → ℕ
total_expert_bytes s = layers_bytes s s.n_layer

unfoldable pub set_cache_budget : Shape → ℕ → Cache → Cache
unfolding evict_to_budget
set_cache_budget s bytes c =
    if c.cache_max == 0
    then c
    else if ltb c.cache_max bytes
    then record c {
      cache_max = min bytes (total_expert_bytes s);
      cache_resizes = c.cache_resizes + 1;
    }
    else if bytes == c.cache_max
    then c
    else let q = quiesce_spec s c in
      evict_to_budget any_entry s
        (record q { cache_max = max 1 bytes; cache_resizes = q.cache_resizes + 1 })

unfoldable pub worst_layers : Shape → ℕ → ℕ → ℕ
worst_layers s k zero = 0
worst_layers s k (suc n) =
    (if s.bound n then entry_bytes s n * min k s.n_expert else 0) + worst_layers s k n

-- `worst_cycle_bytes(top_k)`; a `top_k <= 0` is 0 here.
unfoldable pub worst_cycle_bytes : Shape → ℕ → ℕ
unfolding worst_layers
worst_cycle_bytes s top_k = if top_k == 0 then 0 else worst_layers s top_k s.n_layer
