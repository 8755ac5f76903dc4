-- ===== src/Kmalloc/Small.antt =====
-- kmalloc and kfree of kernel/mm/kmalloc.c for sizes that the slabs serve, where a slab of the
-- order has a free slot.
use chcore_lab_v.Base.{
  ℕ, suc, ◌≤◌, ◌≡◌, ◌≢◌, refl, ap, ◌∙◌, fun_ext, List, true, false, some, length, ltb, leb, ◌==◌,
  update, ok, ◌>>=◌, arith, ℕ_discrete, ==-false_of_ne,
}
use chcore_lab_v.Buddy.{virt_to_page}
use chcore_lab_v.Machine.{Machine, store}
use chcore_lab_v.Slab.{alloc_in_slab, free_in_slab, slab_order, take_slot, _alloc_in_slab_nolock}
use chcore_lab_v.Slab.Slabs.{IsSlabs, apart, first_slot}
use chcore_lab_v.Slab.Request.{
  SlotTaken, find_slab-first_slot, _alloc_in_slab_nolock-SlotTaken, slot_apart,
}
use chcore_lab_v.Kmalloc.{kmalloc, kfree}

kmalloc_slab :
    (fuel size : ℕ) (m : Machine)
    → size ≤ 2048
    → kmalloc fuel m size
      ≡ _alloc_in_slab_nolock fuel m (m.slabs (slab_order size)) (slab_order size)
unfolding kmalloc alloc_in_slab
kmalloc_slab fuel size m small =
    let e : leb size 2048 ≡ true = ground arith in
    let e' : ltb 2048 size ≡ false = ground arith in rw (e, e') refl

-- For a size of at most 2048 of whose order some slab has a free slot, kmalloc returns the first
-- slot of the first such slab, and writes the header of that slab only: the slabs of the order
-- are then those without the slot, and lie apart as before.
pub kmalloc-SlotTaken :
    (fuel size s x : ℕ) (m : Machine) (ss : List (ℕ × List ℕ))
    → size ≤ 2048
    → IsSlabs m.mem (m.slabs (slab_order size)) ss
    → apart ss ≡ true
    → first_slot ss ≡ some (s, x)
    → length ss ≤ fuel
    → SlotTaken m (m.slabs (slab_order size)) s x ss (kmalloc (suc fuel) m size)
kmalloc-SlotTaken fuel size s x m ss small c h e enough =
    let t =
      _alloc_in_slab_nolock-SlotTaken fuel (m.slabs (slab_order size)) (slab_order size) s x m ss c
        h e enough in
    record {
      returns = kmalloc_slab (suc fuel) size m small ∙ t.returns;
      slabs = t.slabs;
      still = t.still;
    }

pub kfree_slab :
    (addr page : ℕ) (m : Machine)
    → virt_to_page m.pool addr ≡ ok page
    → ((m.pool.pages page).slab == 0) ≡ false
    → kfree m addr
      ≡ ok (store (m.pool.pages page).slab addr (store addr (m.mem (m.pool.pages page).slab) m))
unfolding kfree free_in_slab
kfree_slab addr page m found there = rw (found, there) refl

-- Putting the slot back writes what was there before.
put_back :
    (s x : ℕ) (mem : ℕ → ℕ)
    → mem s ≡ x
    → x ≢ s
    → update (update (update mem s (mem x)) x (update mem s (mem x) s)) s x ≡ mem
put_back s x mem holds ne = fun_ext (λ a. elim (ℕ_discrete a s) [
  | yes at ↦ ground (arith, ap mem at)
  | no other ↦ elim (ℕ_discrete a x) [
    | yes at ↦ ground (arith, ap mem at)
    | no another ↦ ground arith
  ]
])

kfree_taken :
    (s x page : ℕ) (m : Machine)
    → virt_to_page m.pool x ≡ ok page
    → (m.pool.pages page).slab ≡ s
    → m.mem s ≡ x
    → s ≢ 0
    → x ≢ s
    → kfree (take_slot s x m) x ≡ ok m
kfree_taken s x page m found owner holds there ne =
    kfree_slab x page (take_slot s x m) found
      (ap (λ (a : ℕ). a == 0) owner ∙ ==-false_of_ne s 0 there)
    ∙ ap (λ (a : ℕ). ok (store a x (store x ((take_slot s x m).mem a) (take_slot s x m)))) owner
    ∙ ap (λ mem'. ok (record m { mem = mem' })) (put_back s x m.mem holds ne)

-- For a size of at most 2048 of whose order some slab has a free slot, where the first free slot
-- of the first such slab is in a page that belongs to that slab, kfree of the address that
-- kmalloc returns gives the machine back as it was: the memory, the pages and the lists of slabs.
pub kfree-kmalloc :
    (fuel size s x page : ℕ) (m : Machine) (ss : List (ℕ × List ℕ))
    → size ≤ 2048
    → IsSlabs m.mem (m.slabs (slab_order size)) ss
    → apart ss ≡ true
    → first_slot ss ≡ some (s, x)
    → length ss ≤ fuel
    → virt_to_page m.pool x ≡ ok page
    → (m.pool.pages page).slab ≡ s
    → (kmalloc (suc fuel) m size >>= λ (r : Machine × ℕ). kfree r.0 r.1) ≡ ok m
kfree-kmalloc fuel size s x page m ss small c h e enough found owner =
    let t = kmalloc-SlotTaken fuel size s x m ss small c h e enough in
    let (_, holds, there) =
      find_slab-first_slot (suc (length ss)) (m.slabs (slab_order size)) s x m ss c e
        (omega arith) in
    ap (λ r. r >>= λ (r : Machine × ℕ). kfree r.0 r.1) t.returns
    ∙ kfree_taken s x page m found owner holds there (slot_apart s x ss h e)
