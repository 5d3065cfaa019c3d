-- ===== src/Ngram.antt =====
-- core/src/engine/ngram_draft.cpp: the draft source that proposes what followed the longest, most
-- recent repetition of the corpus's end. Tokens are only compared with each other. The `int` casts of
-- positions are exact, since a corpus is shorter than 2^31.
pub mod Suffix
pub mod Scan
pub mod Draft
mod Examples
use meitte.Base.{
  ℕ, zero, suc, ◌+◌, ◌-◌, Bool, true, false, ◌&&◌, ◌||◌, List, [], ◌∷◌, Option, none, some,
  if◌then◌else◌, ◌==◌, ltb, leb, min, length, get_elem?, ℤ, pos, ltb_ℤ, leb_ℤ, pos_part,
}

-- The corpus is `ctx` with `last` behind it.
unfoldable pub token_at : List ℕ → ℕ → ℕ → ℕ
token_at ctx last i = elim (get_elem? ctx i) [ none ↦ last | some t ↦ t ]

-- `while (m < lim && at(j - m) == at(end - m)) ++m`, where `room` is `lim - m`.
unfoldable pub extend : (ℕ → ℕ) → ℕ → ℕ → ℕ → ℕ → ℕ
extend at j end zero m = m
extend at j end (suc room) m =
    let longer = extend at j end room (m + 1) in if at (j - m) == at (end - m) then longer else m

-- How many tokens up to `j` repeat the end, at most `max_match`; 0 where not even one does.
unfoldable pub match_len : (ℕ → ℕ) → ℕ → ℕ → ℕ → ℕ
unfolding extend
match_len at end max_match j =
    if at j == at end then extend at j end (min max_match (j + 1) - 1) 1 else 0

-- The best length and its position.
abbrev pub Best : Type 0
Best = ℕ × ℕ

abbrev pub better : (ℕ → ℕ) → ℕ → Best → Best
better len j (best_m, best_j) = if ltb best_m (len j) then (len j, j) else (best_m, best_j)

-- The loop from position `j` downwards, for the length `len` of the match at each position.
unfoldable pub scan : (ℕ → ℕ) → ℕ → ℕ → ℕ → Best → Best
scan len max_match j_min zero best = better len 0 best
scan len max_match j_min (suc j) best =
    let next = better len (suc j) best in
    let rest = scan len max_match j_min j next in
    if (ltb best.0 (len (suc j)) && (len (suc j) == max_match)) || leb (suc j) j_min
    then next
    else rest

-- `n` tokens from position `start` on.
unfoldable pub tokens_from : (ℕ → ℕ) → ℕ → ℕ → List ℕ
tokens_from at start zero = []
tokens_from at start (suc n) = at start ∷ tokens_from at (start + 1) n

-- The part behind the checks of the arguments.
unfoldable pub draft_within : List ℕ → ℕ → ℕ → ℕ → ℕ → List ℕ
unfolding scan tokens_from match_len token_at
draft_within ctx last n_max min_match max_match =
    let at = token_at ctx last in
    let end = length ctx in
    if ltb (end + 1) (min_match + 1)
    then []
    else let best = scan (match_len at end max_match) max_match (min_match - 1) (end - 1) (0, 0) in
      if ltb best.0 min_match then [] else tokens_from at (best.1 + 1) (min n_max (end - best.1))

-- The result is `out`; the returned count is its length.
unfoldable pub ngram_draft : List ℕ → ℕ → ℤ → ℤ → ℤ → List ℕ
unfolding draft_within
ngram_draft ctx last n_max min_match max_match =
    let low = if ltb_ℤ min_match (pos 1) then pos 1 else min_match in
    if leb_ℤ n_max (pos 0) || ltb_ℤ max_match low
    then []
    else draft_within ctx last (pos_part n_max) (pos_part low) (pos_part max_match)
