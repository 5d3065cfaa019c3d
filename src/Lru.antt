-- ===== src/Lru.antt =====
-- core/src/moe/expert_stream_source.{h,cpp}, "LRU plumbing": the intrusive doubly linked list that
-- orders the resident entries, hottest first. The source keeps it in two index arrays and two ends
-- with -1 for "no entry", which is `none` here. The arrays are functions of the entry's id.
pub mod Neighbours
pub mod Refine
mod Examples
use meitte.Base.{ℕ, Option, none, some, update}

pub record Links : Type 0 where
  pub head : Option ℕ
  pub tail : Option ℕ
  pub prev : ℕ → Option ℕ
  pub next : ℕ → Option ℕ

-- A write through a link: the array's cell, or the end of the list where the link is -1.
abbrev pub write_next : Option ℕ → Option ℕ → Links → Links
write_next none nx l = record l { head = nx }
write_next (some p) nx l = record l { next = update l.next p nx }

abbrev pub write_prev : Option ℕ → Option ℕ → Links → Links
write_prev none pv l = record l { tail = pv }
write_prev (some n) pv l = record l { prev = update l.prev n pv }

abbrev pub clear_links : ℕ → Links → Links
clear_links id l = record l { prev = update l.prev id none; next = update l.next id none }

unfoldable pub lru_unlink : ℕ → Links → Links
lru_unlink id l =
    clear_links id (write_prev (l.next id) (l.prev id) (write_next (l.prev id) (l.next id) l))

unfoldable pub lru_push_front : ℕ → Links → Links
lru_push_front id l =
    let m = record l { prev = update l.prev id none; next = update l.next id l.head } in
    record (write_prev l.head (some id) m) { head = some id }

unfoldable pub lru_push_back : ℕ → Links → Links
lru_push_back id l =
    let m = record l { next = update l.next id none; prev = update l.prev id l.tail } in
    record (write_next l.tail (some id) m) { tail = some id }
