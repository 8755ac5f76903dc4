-- ===== src/Slab/Chain.antt =====
-- The free list of a slab as the sequence of its slots: what the slab's operations do to it.
use chcore_lab_v.Base.{
  ℕ, zero, suc, ◌+◌, ◌*◌, ◌%◌, ◌^◌, ◌≤◌, ◌<◌, ◌≡◌, ◌≢◌, refl, sym, subst, ap, ◌∙◌, List, [], ◌∷◌,
  false, length, contains, ◌==◌, update, Result, ok, add64, arith, ==-false_of_ne,
}
use chcore_lab_v.Machine.{Machine, store}
use chcore_lab_v.Buddy.{virt_to_page}
use chcore_lab_v.Slab.{
  link_slots, take_slot, free_list_head, add_slots, init_header, _alloc_in_slab_nolock,
  free_in_slab,
}

-- The list from `head` on is that of the slots `xs`.
unfoldable pub IsChain : (ℕ → ℕ) → ℕ → List ℕ → Type 0
IsChain mem head [] = head ≡ 0
IsChain mem head (x ∷ xs) = (head ≡ x) × (x ≢ 0) × IsChain mem (mem x) xs

-- A write to a word that is no slot of the list changes nothing.
pub IsChain-update :
    (mem : ℕ → ℕ) (a w head : ℕ) (xs : List ℕ)
    → contains a xs ≡ false
    → IsChain mem head xs
    → IsChain (update mem a w) head xs
unfolding IsChain
IsChain-update mem a w head [] out c = c
IsChain-update mem a w head (x ∷ xs) out (at, pos, rest) =
    let other : update mem a w x ≡ mem x = ground arith in
    (
      at,
      pos,
      subst (λ (h : ℕ). IsChain (update mem a w) h xs) (sym other)
          (IsChain-update mem a w (mem x) xs (ground arith) rest),
    )

-- The slots of a new slab.
unfoldable pub slots_from : ℕ → ℕ → ℕ → List ℕ
slots_from zero obj_size slot = slot ∷ []
slots_from (suc rounds) obj_size slot = slot ∷ slots_from rounds obj_size (slot + obj_size)

pub link_slots_below :
    (rounds obj_size slot a : ℕ) (m : Machine)
    → a < slot
    → (link_slots rounds obj_size slot m).mem a ≡ m.mem a
unfolding link_slots
link_slots_below zero obj_size slot a m h = ground arith
link_slots_below (suc rounds) obj_size slot a m h =
    link_slots_below rounds obj_size (slot + obj_size) a (store slot (slot + obj_size) m)
      (omega arith)
    ∙ ground arith

-- The loop of init_slab_cache links every slot to the next one, and the last to none.
pub link_slots-IsChain :
    (rounds obj_size slot : ℕ) (m : Machine)
    → 0 < slot
    → 0 < obj_size
    → IsChain (link_slots rounds obj_size slot m).mem slot (slots_from rounds obj_size slot)
unfolding IsChain slots_from link_slots
link_slots-IsChain zero obj_size slot m pos step = (refl, omega arith, ground arith)
link_slots-IsChain (suc rounds) obj_size slot m pos step =
    let m' = store slot (slot + obj_size) m in
    let here : (link_slots rounds obj_size (slot + obj_size) m').mem slot ≡ slot + obj_size =
      link_slots_below rounds obj_size (slot + obj_size) slot m' (omega arith) ∙ ground arith in
    (
      refl,
      omega arith,
      subst
          (λ (h : ℕ).
            IsChain (link_slots rounds obj_size (slot + obj_size) m').mem h
              (slots_from rounds obj_size (slot + obj_size)))
          (sym here) (link_slots-IsChain rounds obj_size (slot + obj_size) m' (omega arith) step),
    )

add_sum :
    (total size n : ℕ)
    → (((total + size) % 2 ^ 64) + n * size) % 2 ^ 64 ≡ (total + suc n * size) % 2 ^ 64
add_sum total size n = omega arith

-- With more fuel than the list has slots and a total below 2^64, the walk that adds the free
-- slots up ends at the end of the list, and has added each slot once.
pub add_slots-IsChain :
    (fuel size head total : ℕ) (xs : List ℕ) (m : Machine)
    → IsChain m.mem head xs
    → length xs < fuel
    → total < 2 ^ 64
    → add_slots fuel m size head total ≡ ok ((total + length xs * size) % 2 ^ 64)
unfolding IsChain add_slots
add_slots-IsChain zero size head total xs m c enough small = absurd (omega arith)
add_slots-IsChain (suc fuel) size head total [] m c enough small =
    let e : total ≡ (total + 0 * size) % 2 ^ 64 = omega arith in rw c (ap (λ (t : ℕ). ok t) e)
add_slots-IsChain (suc fuel) size head total (x ∷ xs) m (at, pos, rest) enough small =
    let rec =
      add_slots-IsChain fuel size (m.mem x) (add64 total size) xs m rest (omega arith)
        (omega arith) in
    let go : (head == 0) ≡ false = ground arith in
    rw (go, at, rec) (ap (λ (t : ℕ). ok t) (add_sum total size (length xs)))

-- The slab with the header at `slab` has the free slots `xs`, none of which is the header.
pub record HasSlots (m : Machine) (slab : ℕ) (xs : List ℕ) : Type 0 where
  pub there : slab ≢ 0
  pub chain : IsChain m.mem (free_list_head m slab) xs
  pub apart : contains slab xs ≡ false

not_above :
    (rounds obj_size slot a : ℕ) → a < slot → contains a (slots_from rounds obj_size slot) ≡ false
unfolding slots_from
not_above zero obj_size slot a h = ground arith
not_above (suc rounds) obj_size slot a h =
    let rest = not_above rounds obj_size (slot + obj_size) a (omega arith) in ground arith

-- A new slab at an address other than NULL, with slots of at least 24 bytes, has all its slots
-- free: the first follows the header, at a distance of one slot.
pub link_slots-HasSlots :
    (rounds obj_size slab order : ℕ) (m : Machine)
    → 0 < slab
    → 24 ≤ obj_size
    → HasSlots
        (link_slots rounds obj_size (slab + obj_size) (init_header slab (slab + obj_size) order m))
        slab
        (slots_from rounds obj_size (slab + obj_size))
link_slots-HasSlots rounds obj_size slab order m pos step =
    let m' = init_header slab (slab + obj_size) order m in
    let head : (link_slots rounds obj_size (slab + obj_size) m').mem slab ≡ slab + obj_size =
      link_slots_below rounds obj_size (slab + obj_size) slab m' (omega arith) ∙ ground arith in
    record {
      there = ground arith;
      chain =
          subst
            (λ (h : ℕ).
              IsChain (link_slots rounds obj_size (slab + obj_size) m').mem h
                (slots_from rounds obj_size (slab + obj_size)))
            (sym head)
            (link_slots-IsChain rounds obj_size (slab + obj_size) m' (omega arith) (omega arith));
      apart = not_above rounds obj_size (slab + obj_size) slab (omega arith);
    }

-- What a request leaves behind that the slab `slab` serves with the slot `x`.
pub record Served (m : Machine) (slab x : ℕ) (xs : List ℕ) (r : Result (Machine × ℕ)) : Type 0 where
  pub after : Machine
  pub returns : r ≡ ok (after, x)
  pub slots : HasSlots after slab xs
  pub others : (a : ℕ) → a ≢ slab → after.mem a ≡ m.mem a
  pub pool : after.pool ≡ m.pool
  pub slabs : after.slabs ≡ m.slabs

-- A slab with a free slot serves a request with its first one and keeps the rest; no other word
-- of memory changes.
pub _alloc_in_slab_nolock-Served :
    (fuel slab order x : ℕ) (xs : List ℕ) (m : Machine)
    → HasSlots m slab (x ∷ xs)
    → Served m slab x xs (_alloc_in_slab_nolock (suc fuel) m slab order)
unfolding _alloc_in_slab_nolock IsChain
_alloc_in_slab_nolock-Served fuel slab order x xs m v =
    let (at, pos, rest) = v.chain in
    let here : (slab == 0) ≡ false = ==-false_of_ne slab 0 v.there in
    let full : (m.mem slab == 0) ≡ false = ground arith in
    let after = take_slot slab (m.mem slab) m in
    let head : after.mem slab ≡ m.mem x = ground arith in
    record {
      after = after;
      returns = rw (here, full) (ap (λ (t : ℕ). ok (after, t)) at);
      slots = record {
        there = v.there;
        chain =
            subst (λ (h : ℕ). IsChain after.mem h xs) (sym head)
              (IsChain-update m.mem slab (m.mem (m.mem slab)) (m.mem x) xs (ground (arith, v.apart))
                rest);
        apart = ground (arith, v.apart);
      };
      others = λ a ne. ground arith;
      pool = refl;
      slabs = refl;
    }

-- What free_in_slab leaves behind.
pub record Returned (m : Machine) (slab addr : ℕ) (xs : List ℕ) (r : Result Machine) : Type 0 where
  pub after : Machine
  pub returns : r ≡ ok after
  pub slots : HasSlots after slab (addr ∷ xs)
  pub others : (a : ℕ) → a ≢ slab → a ≢ addr → after.mem a ≡ m.mem a
  pub pool : after.pool ≡ m.pool
  pub slabs : after.slabs ≡ m.slabs

-- A slot that is freed, of a page that belongs to the slab, that is neither NULL nor the header
-- nor free already, becomes the first free one; no other word of memory changes.
pub free_in_slab-Returned :
    (slab addr page : ℕ) (xs : List ℕ) (m : Machine)
    → HasSlots m slab xs
    → virt_to_page m.pool addr ≡ ok page
    → (m.pool.pages page).slab ≡ slab
    → addr ≢ 0
    → addr ≢ slab
    → contains addr xs ≡ false
    → Returned m slab addr xs (free_in_slab m addr)
unfolding free_in_slab IsChain
free_in_slab-Returned slab addr page xs m v found owner pos ne fresh =
    let here : (slab == 0) ≡ false = ==-false_of_ne slab 0 v.there in
    let mid = store addr (m.mem slab) m in
    let after = store slab addr mid in
    let kept : after.mem addr ≡ m.mem slab = ground arith in
    record {
      after = after;
      returns = rw (found, owner, here) refl;
      slots = record {
        there = v.there;
        chain = (
          ground arith,
          pos,
          subst (λ (h : ℕ). IsChain after.mem h xs) (sym kept)
              (IsChain-update mid.mem slab addr (m.mem slab) xs v.apart
                (IsChain-update m.mem addr (m.mem slab) (m.mem slab) xs fresh v.chain)),
        );
        apart = ground (arith, v.apart);
      };
      others = λ a other another. ground arith;
      pool = refl;
      slabs = refl;
    }
