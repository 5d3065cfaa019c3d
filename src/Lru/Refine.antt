-- ===== src/Lru/Refine.antt =====
-- The linked arrays hold a list: what they represent, and that each operation of the plumbing is
-- the operation on that list.
use meitte.Base.{
  ℕ, ◌≡◌, refl, true, false, List, [], ◌∷◌, ◌++◌, none, arith, elem, Distinct, remove, first,
  last_or, pred_of, succ_of, remove-Distinct, elem-remove_self, elem-remove_ne,
}
use meitte.Lru.Neighbours
use meitte.Lru.{Links, lru_unlink, lru_push_front, lru_push_back}

-- The list holds `xs`, hottest first: both ends and both links of every element.
pub record Holds (l : Links) (xs : List ℕ) : Type 0 where
  pub distinct : Distinct xs
  pub at_head : l.head ≡ first xs
  pub at_tail : l.tail ≡ last_or none xs
  pub prevs : (i : ℕ) → elem i xs ≡ true → l.prev i ≡ pred_of none i xs
  pub nexts : (i : ℕ) → elem i xs ≡ true → l.next i ≡ succ_of i xs

-- On index arrays that hold a list, unlinking an element of it holds the list without that element:
-- both ends and both links of every element are right.
pub lru_unlink-Holds :
    (l : Links) (xs : List ℕ) (x : ℕ)
    → Holds l xs
    → elem x xs ≡ true
    → Holds (lru_unlink x l) (remove x xs)
unfolding lru_unlink
lru_unlink-Holds l xs x h m = record {
  distinct = remove-Distinct x xs h.distinct;
  at_head =
      ground
        (arith, h.prevs x, h.nexts x, Neighbours.first-remove x xs, Neighbours.pred_of-none x xs);
  at_tail = ground (
    arith,
    h.prevs x,
    h.nexts x,
    Neighbours.last_or-remove none x xs,
    Neighbours.succ_of-none none x xs,
  );
  prevs = λ i e. ground (
    arith,
    h.prevs x,
    h.prevs i,
    h.nexts x,
    elem-remove_self x xs,
    elem-remove_ne x i xs,
    Neighbours.pred_of-remove none x i xs,
  );
  nexts = λ i e. ground (
    arith,
    h.nexts x,
    h.nexts i,
    h.prevs x,
    elem-remove_self x xs,
    elem-remove_ne x i xs,
    Neighbours.succ_of-remove none x i xs,
  );
}

-- Pushing an absent entry at the front of arrays that hold a list holds the list with the entry
-- before it.
pub lru_push_front-Holds :
    (l : Links) (xs : List ℕ) (x : ℕ)
    → Holds l xs
    → elem x xs ≡ false
    → Holds (lru_push_front x l) (x ∷ xs)
unfolding lru_push_front
lru_push_front-Holds l [] x h m = record {
  distinct = (refl, tt);
  at_head = refl;
  at_tail = ground arith;
  prevs = λ i e. ground arith;
  nexts = λ i e. ground arith;
}
lru_push_front-Holds l (y ∷ ys) x h m = record {
  distinct = (m, h.distinct);
  at_head = refl;
  at_tail = ground (arith);
  prevs = λ i e. ground (arith, h.prevs i, Neighbours.pred_of-cons x i (y ∷ ys));
  nexts = λ i e. ground (arith, h.nexts i);
}

-- Pushing an absent entry at the back of arrays that hold a list holds the list with the entry
-- behind it.
pub lru_push_back-Holds :
    (l : Links) (xs : List ℕ) (x : ℕ)
    → Holds l xs
    → elem x xs ≡ false
    → Holds (lru_push_back x l) (xs ++ x ∷ [])
unfolding lru_push_back
lru_push_back-Holds l [] x h m = record {
  distinct = (refl, tt);
  at_head = ground arith;
  at_tail = ground arith;
  prevs = λ i e. ground arith;
  nexts = λ i e. ground arith;
}
lru_push_back-Holds l (y ∷ ys) x h m = record {
  distinct = Neighbours.snoc-Distinct x (y ∷ ys) m h.distinct;
  at_head = ground (arith, Neighbours.last_or-some y ys);
  at_tail = ground (arith, Neighbours.last_or-snoc none x (y ∷ ys));
  prevs = λ i e. ground (
    arith,
    h.prevs i,
    Neighbours.elem-snoc x i (y ∷ ys),
    Neighbours.pred_of-snoc none x i (y ∷ ys),
    Neighbours.last_or-some y ys,
  );
  nexts = λ i e. ground (
    arith,
    h.nexts i,
    Neighbours.elem-snoc x i (y ∷ ys),
    Neighbours.succ_of-snoc none x i (y ∷ ys),
    Neighbours.succ_of-snoc_self x (y ∷ ys),
    Neighbours.elem_of_last none x (y ∷ ys),
    Neighbours.last_or-some y ys,
  );
}
