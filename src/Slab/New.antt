-- ===== src/Slab/New.antt =====
-- init_slab_cache of kernel/mm/slab.c: the slab that it makes as a chain of one.
use chcore_lab_v.Base.{
  ℕ, zero, suc, ◌+◌, ◌-◌, ◌/◌, ◌^◌, ◌≤◌, ◌<◌, ◌≡◌, refl, ◌∙◌, List, [], ◌∷◌, Result, ok, arith,
}
use chcore_lab_v.Base.Pow.{two-pow_mono}
use chcore_lab_v.Machine.{Machine, store}
use chcore_lab_v.Slab.{init_slab_cache, alloc_slab_memory, link_slots, init_header}
use chcore_lab_v.Slab.Chain.{slots_from, link_slots_below, link_slots-HasSlots}
use chcore_lab_v.Slab.Slabs.{IsSlabs}
use chcore_lab_v.Slab.Words.{count_of, weight}

-- The slots lie one after the other.
slots_above :
    (rounds obj_size slot a : ℕ) → a < slot → count_of a (slots_from rounds obj_size slot) ≡ 0
unfolding count_of slots_from
slots_above zero obj_size slot a h = ground arith
slots_above (suc rounds) obj_size slot a h =
    ground (arith, slots_above rounds obj_size (slot + obj_size) a (omega arith))

slots_once :
    (rounds obj_size slot a : ℕ) → 0 < obj_size → count_of a (slots_from rounds obj_size slot) ≤ 1
unfolding count_of slots_from
slots_once zero obj_size slot a h = ground arith
slots_once (suc rounds) obj_size slot a h =
    let rest = slots_once rounds obj_size (slot + obj_size) a h in
    let above = slots_above rounds obj_size (slot + obj_size) slot (omega arith) in
    ground (arith, rest, above)

abbrev fresh_slab : ℕ → ℕ → ℕ → List (ℕ × List ℕ)
fresh_slab rounds obj_size slab = (slab, slots_from rounds obj_size (slab + obj_size)) ∷ []

once_fresh :
    (rounds obj_size slab a : ℕ) → 24 ≤ obj_size → weight a (fresh_slab rounds obj_size slab) ≤ 1
unfolding weight
once_fresh rounds obj_size slab a h =
    let once = slots_once rounds obj_size (slab + obj_size) a (omega arith) in
    let head = slots_above rounds obj_size (slab + obj_size) slab (omega arith) in
    let link = slots_above rounds obj_size (slab + obj_size) (slab + 8) (omega arith) in
    ground (arith, once, head, link)

link_slots-pool :
    (rounds obj_size slot : ℕ) (m : Machine) → (link_slots rounds obj_size slot m).pool ≡ m.pool
unfolding link_slots
link_slots-pool zero obj_size slot m = refl
link_slots-pool (suc rounds) obj_size slot m =
    link_slots-pool rounds obj_size (slot + obj_size) (store slot (slot + obj_size) m)

header_next :
    (slab slot order : ℕ) (m : Machine) → (init_header slab slot order m).mem (slab + 8) ≡ 0
header_next slab slot order m = ground arith

-- What init_slab_cache leaves behind.
pub record NewSlab (m : Machine) (slab : ℕ) (slots : List ℕ) (r : Result (Machine × ℕ))
    : Type 0 where
  pub after : Machine
  pub returns : r ≡ ok (after, slab)
  pub slabs : IsSlabs after.mem slab ((slab, slots) ∷ [])
  pub once : (a : ℕ) → weight a ((slab, slots) ∷ []) ≤ 1
  pub same_pool : after.pool ≡ m.pool

pub init_slab_cache-NewSlab :
    (order size slab : ℕ) (m m' : Machine)
    → alloc_slab_memory m size ≡ ok (m', slab)
    → 0 < slab
    → 5 ≤ order
    → NewSlab m' slab
        (slots_from (size / 2 ^ order - 1 - 1) (2 ^ order) (slab + 2 ^ order))
        (init_slab_cache m order size)
unfolding init_slab_cache IsSlabs
init_slab_cache-NewSlab order size slab m m' got pos enough =
    let obj_size = 2 ^ order in
    let big : 32 ≤ obj_size = two-pow_mono {j = 5} {k = order} enough in
    let rounds = size / obj_size - 1 - 1 in
    let before = init_header slab (slab + obj_size) order m' in
    let has = link_slots-HasSlots rounds obj_size slab order m' pos (omega (arith, big)) in
    let link : (link_slots rounds obj_size (slab + obj_size) before).mem (slab + 8) ≡ 0 =
      link_slots_below rounds obj_size (slab + obj_size) (slab + 8) before (omega (arith, big))
      ∙ header_next slab (slab + obj_size) order m' in
    record {
      after = link_slots rounds obj_size (slab + obj_size) before;
      returns = rw got refl;
      slabs = (refl, has.there, has.chain, link);
      once = λ a. once_fresh rounds obj_size slab a (omega (arith, big));
      same_pool = link_slots-pool rounds obj_size (slab + obj_size) before;
    }
