-- ===== src/Base/Sort.antt =====
-- `std::sort` on numbers.
use Prim.Native.Nat.{ℕ}
use mathlib.Core.Path.{◌≡◌, refl}
use mathlib.Core.Bool.{false}
use mathlib.Core.List.{List, [], ◌∷◌}
use native.Mathlib.Omega.{arith}
use meitte.Base.Tests.{leb, if◌then◌else◌}
use meitte.Base.Ids.{elem, Distinct}

unfoldable pub insert_id : ℕ → List ℕ → List ℕ
insert_id s [] = s ∷ []
insert_id s (r ∷ rs) = let rest = insert_id s rs in if leb s r then s ∷ r ∷ rs else r ∷ rest

unfoldable pub sort_ids : List ℕ → List ℕ
unfolding insert_id
sort_ids [] = []
sort_ids (s ∷ ss) = insert_id s (sort_ids ss)

insert_id-elem : (x s : ℕ) (ss : List ℕ) → elem x (insert_id s ss) ≡ elem x (s ∷ ss)
unfolding insert_id
insert_id-elem x s [] = refl
insert_id-elem x s (r ∷ rs) = ground (arith, insert_id-elem x s rs)

pub sort_ids-elem : (x : ℕ) (ss : List ℕ) → elem x (sort_ids ss) ≡ elem x ss
unfolding sort_ids
sort_ids-elem x [] = refl
sort_ids-elem x (s ∷ ss) = ground (arith, insert_id-elem x s (sort_ids ss), sort_ids-elem x ss)

insert_id-Distinct :
    (s : ℕ) (ss : List ℕ) → elem s ss ≡ false → Distinct ss → Distinct (insert_id s ss)
unfolding insert_id
insert_id-Distinct s [] h d = (h, tt)
insert_id-Distinct s (r ∷ rs) h d = ground (arith, insert_id-Distinct s rs, insert_id-elem r s rs)

pub sort_ids-Distinct : (ss : List ℕ) → Distinct ss → Distinct (sort_ids ss)
unfolding sort_ids
sort_ids-Distinct [] d = d
sort_ids-Distinct (s ∷ ss) d =
    insert_id-Distinct s (sort_ids ss) (ground (arith, sort_ids-elem s ss))
      (sort_ids-Distinct ss d.1)
