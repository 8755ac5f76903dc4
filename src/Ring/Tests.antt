-- ===== src/Ring/Tests.antt =====
-- A ring of three nodes with the head at 100.
use chcore_lab_v.Base.{refl, [], ◌∷◌, erase, arith}
use chcore_lab_v.Ring.{Links, init_list_head, list_add, list_del}
use chcore_lab_v.Ring.Sequence.{IsRing, IsLinked, list_add-IsRing, list_del-IsRing}

abbrev blank : Links
blank = record { prev = λ _. 0; next = λ _. 0 }

abbrev two : Links
two = list_add 20 100 (list_add 10 100 (init_list_head 100 blank))

two-IsRing : IsRing two 100 (20 ∷ 10 ∷ [])
unfolding init_list_head list_add IsLinked
two-IsRing = record {
  linked = (refl, refl, (refl, refl, (refl, refl)));
  apart = refl;
  distinct = (refl, (refl, tt));
}

list_add-IsRing_example : IsRing (list_add 30 100 two) 100 (30 ∷ 20 ∷ 10 ∷ [])
list_add-IsRing_example = list_add-IsRing two 30 100 (20 ∷ 10 ∷ []) two-IsRing (omega arith) refl

list_del-IsRing_example : IsRing (list_del 20 two) 100 (erase 20 (20 ∷ 10 ∷ []))
list_del-IsRing_example = list_del-IsRing two 20 100 (20 ∷ 10 ∷ []) two-IsRing refl
