-- ===== src/Lru/Examples.antt =====
-- Runs of the plumbing on three entries, and the theorems at them.
use meitte.Base.{◌≡◌, refl, [], ◌∷◌, none, some, arith, if◌then◌else◌, ◌==◌}
use meitte.Lru.{Links, lru_unlink}
use meitte.Lru.Refine.{Holds, lru_unlink-Holds}

abbrev three : Links
three = record {
  head = some 4;
  tail = some 9;
  prev = λ i. if i == 9 then some 7 else if i == 7 then some 4 else none;
  next = λ i. if i == 4 then some 7 else if i == 7 then some 9 else none;
}

three-Holds : Holds three (4 ∷ 7 ∷ 9 ∷ [])
three-Holds = record {
  distinct = (refl, (refl, (refl, tt)));
  at_head = refl;
  at_tail = refl;
  prevs = λ i e. ground arith;
  nexts = λ i e. ground arith;
}

unlinked_middle : (lru_unlink 7 three).next 4 ≡ some 9
unfolding lru_unlink
unlinked_middle = refl

lru_unlink-Holds_example : Holds (lru_unlink 7 three) (4 ∷ 9 ∷ [])
lru_unlink-Holds_example = lru_unlink-Holds three (4 ∷ 7 ∷ 9 ∷ []) 7 three-Holds refl
