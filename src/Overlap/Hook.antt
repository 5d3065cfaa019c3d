-- ===== src/Overlap/Hook.antt =====
-- `on_expert_ready`: what a compute thread that asks for an expert's slice finds.
use meitte.Base.{
  ℕ, ◌/◌, ◌%◌, Bool, true, false, List, [], ◌∷◌, Option, none, some, if◌then◌else◌, ◌==◌, ltb, ℤ,
  index_below,
}
use meitte.Cache.{Shape}
use meitte.Overlap.Defs.{Overlap, flag_of}

-- `texp_`: the streamed tensors in the order of their addresses, each with `il << 8 | p`.
abbrev pub Texp : Type 0
Texp = List (ℕ × ℕ)

-- `std::lower_bound`: the first element whose key is not less.
abbrev pub lower_bound : ℕ → Texp → Option (ℕ × ℕ)
lower_bound key [] = none
lower_bound key (t ∷ ts) = if ltb t.0 key then lower_bound key ts else some t

-- Not one of the streamed tensors; not a slice of the layer in flight; the slice is there; the run
-- has failed; or the thread has to wait.
pub data Answer : Type 0 where
  unstreamed mismatch resident aborted blocked : Answer

abbrev pub answer_flag : Shape → Overlap → ℕ → ℕ → Answer
answer_flag s st p e =
    if st.ready (flag_of s p e) == st.async_gen
    then resident
    else if st.fatal
    then aborted
    else blocked

abbrev pub is_current : Option ℕ → ℕ → Bool
is_current none il = false
is_current (some l) il = l == il

abbrev pub answer_slice : Shape → ℕ → ℕ → Option ℕ → Overlap → Overlap × Answer
answer_slice s il p none st = (record st { fatal = true }, mismatch)
answer_slice s il p (some e) st =
    if is_current st.cur_il il
    then (st, answer_flag s st p e)
    else (record st { fatal = true }, mismatch)

abbrev pub answer_packed : Shape → ℤ → ℕ → Overlap → Overlap × Answer
answer_packed s e packed st =
    answer_slice s (packed / 256) (packed % 256) (index_below s.n_expert e) st

unfoldable pub on_expert_ready : Shape → Texp → ℕ → ℤ → Overlap → Overlap × Answer
on_expert_ready s texp src0 e st = elim (lower_bound src0 texp) [
  | none ↦ (st, unstreamed)
  | some t ↦ if t.0 == src0 then answer_packed s e t.1 st else (st, unstreamed)
]
