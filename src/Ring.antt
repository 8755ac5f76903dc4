-- ===== src/Ring.antt =====
-- kernel/include/common/list.h: rings of nodes. A node is its address.
mod Tests
pub mod Sequence
use chcore_lab_v.Base.{ℕ, Bool, ◌==◌, update}

-- The fields of `struct list_head` of every node.
pub record Links : Type 0 where
  pub prev : ℕ → ℕ
  pub next : ℕ → ℕ

abbrev pub set_prev : ℕ → ℕ → Links → Links
set_prev node p s = record s { prev = update s.prev node p }

abbrev pub set_next : ℕ → ℕ → Links → Links
set_next node n s = record s { next = update s.next node n }

unfoldable pub init_list_head : ℕ → Links → Links
init_list_head list s = set_prev list list (set_next list list s)

-- The four assignments, each on the links that the ones before it leave.
unfoldable pub list_add : ℕ → ℕ → Links → Links
list_add new head s =
    let s1 = set_next new (s.next head) s in
    let s2 = set_prev new head s1 in let s3 = set_prev (s2.next head) new s2 in set_next head new s3

unfoldable pub list_append : ℕ → ℕ → Links → Links
unfolding list_add
list_append new head s = list_add new (s.prev head) s

unfoldable pub list_del : ℕ → Links → Links
list_del node s =
    let s1 = set_next (s.prev node) (s.next node) s in set_prev (s1.next node) (s1.prev node) s1

abbrev pub list_empty : ℕ → Links → Bool
list_empty head s = s.next head == head
