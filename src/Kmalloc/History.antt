-- ===== src/Kmalloc/History.antt =====
-- Sequences of calls of kmalloc and kfree of kernel/mm/kmalloc.c for sizes of one order of slots,
-- as long as its slabs have free slots.
use chcore_lab_v.Base.{
  ℕ, suc, ◌+◌, ◌≤◌, ◌≡◌, ◌≢◌, refl, sym, subst, ap, ◌∙◌, List, [], ◌∷◌, true, false, Bool, ◌&&◌,
  some, length, contains, erase, ◌==◌, Result, ok, arith, inl, inr, Bool-cases, eq_of_==,
  ==-false_of_ne,
}
use chcore_lab_v.Buddy.{Pool, virt_to_page}
use chcore_lab_v.Machine.{Machine, store}
use chcore_lab_v.Slab.{slab_order, take_slot}
use chcore_lab_v.Slab.Chain.{IsChain}
use chcore_lab_v.Slab.Slabs.{IsSlabs, first_slot, without_first, slot_of}
use chcore_lab_v.Slab.Words.{
  count_of, count-erase, weight, headers, give_back, weight-without_first, weight-give_back,
  headers-without_first, headers-give_back, apart_of_weight,
}
use chcore_lab_v.Slab.Home.{home, homed_slots, homed}
use chcore_lab_v.Slab.Give.{given, IsSlabs-give_back}
use chcore_lab_v.Kmalloc.{kmalloc, kfree}
use chcore_lab_v.Kmalloc.Small.{kmalloc-SlotTaken, kfree_slab}

-- The calls, with the slabs as they are after them and the addresses that the callers hold.
pub data Uses (order : ℕ) (m0 : Machine) (ss0 : List (ℕ × List ℕ))
    : Machine → List (ℕ × List ℕ) → List ℕ → Type 0 where
  start : Uses order m0 ss0 m0 ss0 []
  take :
      {m m' : Machine} {ss : List (ℕ × List ℕ)} {held : List ℕ} (fuel size s x y : ℕ)
      → Uses order m0 ss0 m ss held
      → size ≤ 2048
      → slab_order size ≡ order
      → first_slot ss ≡ some (s, y)
      → length ss ≤ fuel
      → kmalloc (suc fuel) m size ≡ ok (m', x)
      → Uses order m0 ss0 m' (without_first ss) (x ∷ held)
  give :
      {m m' : Machine} {ss : List (ℕ × List ℕ)} {held : List ℕ} (x : ℕ)
      → Uses order m0 ss0 m ss held
      → contains x held ≡ true
      → kfree m x ≡ ok m'
      → Uses order m0 ss0 m' (give_back (home m0.pool x) x ss) (erase x held)

-- What holds between the calls.
pub record Keeps (order : ℕ) (m0 : Machine) (ss0 : List (ℕ × List ℕ)) (m : Machine)
    (ss : List (ℕ × List ℕ)) (held : List ℕ) : Type 0 where
  pub slabs : IsSlabs m.mem (m.slabs order) ss
  -- Every word that was a free slot is one still or is held, once.
  pub conserved : (a : ℕ) → weight a ss + count_of a held ≡ weight a ss0
  pub same_pool : m.pool ≡ m0.pool
  pub same_headers : headers ss ≡ headers ss0
  pub home_free : homed m0.pool ss ≡ true
  pub home_held :
      (x : ℕ)
      → contains x held ≡ true
      → (contains (home m0.pool x) (headers ss0) ≡ true) × (home m0.pool x ≢ 0) × (x ≢ 0)

both_true : (a b : Bool) → a && b ≡ true → (a ≡ true) × (b ≡ true)
both_true true b h = (refl, h)
both_true false b h = absurd (cc)

homed-without_first :
    (pool : Pool) (ss : List (ℕ × List ℕ))
    → homed pool ss ≡ true
    → homed pool (without_first ss) ≡ true
unfolding homed homed_slots without_first
homed-without_first pool [] h = refl
homed-without_first pool ((t, []) ∷ ss) h = homed-without_first pool ss h
homed-without_first pool ((t, y ∷ ys) ∷ ss) h = ground (arith, h)

homed-give_back :
    (pool : Pool) (x : ℕ) (ss : List (ℕ × List ℕ))
    → homed pool ss ≡ true
    → homed pool (give_back (home pool x) x ss) ≡ true
unfolding homed homed_slots give_back
homed-give_back pool x [] h = refl
homed-give_back pool x ((t, ys) ∷ ss) h =
    let (a, b) = both_true (homed_slots pool t ys) (homed pool ss) h in
    elim (Bool-cases (home pool x == t)) [
      | inl same ↦ rw (same, same, a, b) refl
      | inr other ↦ rw (other, a) (homed-give_back pool x ss b)
    ]

first_slot_facts :
    (pool : Pool) (mem : ℕ → ℕ) (head s x : ℕ) (ss : List (ℕ × List ℕ))
    → IsSlabs mem head ss
    → homed pool ss ≡ true
    → first_slot ss ≡ some (s, x)
    → (home pool x ≡ s) × (contains s (headers ss) ≡ true) × (s ≢ 0) × (x ≢ 0)
unfolding IsSlabs IsChain homed homed_slots first_slot headers
first_slot_facts pool mem head s x [] c h e = absurd (cc)
first_slot_facts pool mem head s x ((t, []) ∷ ss) (at, there, chain, rest) h e =
    let f = first_slot_facts pool mem (mem (t + 8)) s x ss rest h e in
    (f.0, ground (arith, f.1), f.2, f.3)
first_slot_facts pool mem head s x ((t, y ∷ ys) ∷ ss) (at, there, (first, pos, chain), rest) h e =
    let same = slot_of (t, y) (s, x) e in
    let (a, b) = both_true (home pool y == t && homed_slots pool t ys) (homed pool ss) h in
    let (own, more) = both_true (home pool y == t) (homed_slots pool t ys) a in
    (
      ap (home pool) (sym same.1) ∙ eq_of_== (home pool y) t own ∙ same.0,
      ground (arith, same.0),
      λ (z : s ≡ 0). there (same.0 ∙ z),
      λ (z : x ≡ 0). pos (same.1 ∙ z),
    )

home_page :
    (pool : Pool) (x : ℕ)
    → home pool x ≢ 0
    → (p : ℕ) × (virt_to_page pool x ≡ ok p) × ((pool.pages p).slab ≡ home pool x)
unfolding home
home_page pool x ne = cases (virt_to_page pool x) refl ne
  where
    cases :
        (r : Result ℕ)
        → virt_to_page pool x ≡ r
        → (elim r [ Result.ok p ↦ (pool.pages p).slab | _ ↦ 0 ]) ≢ 0
        → (p : ℕ) × (virt_to_page pool x ≡ ok p)
          × ((pool.pages p).slab
              ≡ (elim (virt_to_page pool x) [ Result.ok p ↦ (pool.pages p).slab | _ ↦ 0 ]))
    cases (Result.ok p) e ne = (p, e, rw e refl)
    cases Result.bug e ne = absurd (ne refl)
    cases Result.fault e ne = absurd (ne refl)
    cases Result.out_of_fuel e ne = absurd (ne refl)

contains_of_erase : (y x : ℕ) (xs : List ℕ) → contains y (erase x xs) ≡ true → contains y xs ≡ true
contains_of_erase y x [] h = h
contains_of_erase y x (z ∷ zs) h = ground (arith, contains_of_erase y x zs)

module _ {order : ℕ} {m0 : Machine} {ss0 : List (ℕ × List ℕ)} (once : (a : ℕ) → weight a ss0 ≤ 1)
    {m : Machine} {ss : List (ℕ × List ℕ)} {held : List ℕ} (k : Keeps order m0 ss0 m ss held) where
  take-Keeps :
      (s x : ℕ)
      → first_slot ss ≡ some (s, x)
      → IsSlabs (take_slot s x m).mem (m.slabs order) (without_first ss)
      → Keeps order m0 ss0 (take_slot s x m) (without_first ss) (x ∷ held)
  unfolding count_of
  take-Keeps s x e after =
      let f = first_slot_facts m0.pool m.mem (m.slabs order) s x ss k.slabs k.home_free e in
      record {
        slabs = after;
        conserved = λ a. omega (arith, k.conserved a, weight-without_first a s x ss e);
        same_pool = k.same_pool;
        same_headers = headers-without_first ss ∙ k.same_headers;
        home_free = homed-without_first m0.pool ss k.home_free;
        home_held = λ y h. elim (Bool-cases (y == x)) [
          | inl same ↦
              subst
                (λ (b : ℕ).
                  (contains (home m0.pool b) (headers ss0) ≡ true) × (home m0.pool b ≢ 0) × (b ≢ 0))
                (sym (eq_of_== y x same))
                (
                  ap (λ (b : ℕ). contains b (headers ss0)) f.0
                      ∙ ap (λ hs. contains s hs) (sym k.same_headers)
                      ∙ f.1,
                  λ z. f.2 (sym f.0 ∙ z),
                  f.3,
                )
          | inr other ↦ k.home_held y (ground (arith, h, other))
        ];
      }

  -- A slot that is held can be given back.
  pub kfree_held :
      (x : ℕ)
      → contains x held ≡ true
      → kfree m x ≡ ok (record m { mem = given m.mem (home m0.pool x) x })
  kfree_held x h =
      let (inside, ne, pos) = k.home_held x h in
      let (p, found, owner) = home_page m0.pool x ne in
      let found' : virt_to_page m.pool x ≡ ok p =
        ap (λ pool. virt_to_page pool x) k.same_pool ∙ found in
      let owner' : (m.pool.pages p).slab ≡ home m0.pool x =
        ap (λ (pool : Pool). (pool.pages p).slab) k.same_pool ∙ owner in
      kfree_slab x p m found' (ap (λ (a : ℕ). a == 0) owner' ∙ ==-false_of_ne (home m0.pool x) 0 ne)
      ∙ ap (λ (a : ℕ). ok (store a x (store x (m.mem a) m))) owner'

  give-Keeps :
      (x : ℕ)
      → contains x held ≡ true
      → Keeps order m0 ss0
          (record m { mem = given m.mem (home m0.pool x) x })
          (give_back (home m0.pool x) x ss)
          (erase x held)
  give-Keeps x h =
      let (inside, ne, pos) = k.home_held x h in
      let s = home m0.pool x in
      let there : contains s (headers ss) ≡ true =
        ap (λ hs. contains s hs) k.same_headers ∙ inside in
      record {
        slabs =
            IsSlabs-give_back m.mem s x (m.slabs order) ss k.slabs there
              (λ a. omega (arith, once a, k.conserved a, count-erase a x held h)) pos;
        conserved = λ a.
            omega (arith, k.conserved a, weight-give_back a s x ss there, count-erase a x held h);
        same_pool = k.same_pool;
        same_headers = headers-give_back s x ss ∙ k.same_headers;
        home_free = homed-give_back m0.pool x ss k.home_free;
        home_held = λ y h'. k.home_held y (contains_of_erase y x held h');
      }

  -- A size of the order takes the first free slot.
  pub kmalloc_free :
      (fuel size s x : ℕ)
      → size ≤ 2048
      → slab_order size ≡ order
      → first_slot ss ≡ some (s, x)
      → length ss ≤ fuel
      → (kmalloc (suc fuel) m size ≡ ok (take_slot s x m, x))
        × IsSlabs (take_slot s x m).mem (m.slabs order) (without_first ss)
  kmalloc_free fuel size s x small same e enough =
      let head = ap m.slabs (sym same) in
      let t =
        kmalloc-SlotTaken fuel size s x m ss small
          (subst (λ (a : ℕ). IsSlabs m.mem a ss) head k.slabs)
          (apart_of_weight ss (λ a. omega (arith, once a, k.conserved a))) e enough in
      (
        t.returns,
        subst (λ (a : ℕ). IsSlabs (take_slot s x m).mem a (without_first ss)) (sym head) t.slabs,
      )

value_of : {A : Type 0} {x y : A} → ok x ≡ ok y → x ≡ y
value_of e = cc

-- For slabs that use no word twice and whose free slots lie in pages that belong to them, after
-- any sequence of kmalloc of sizes of one order, each while some slab has a free slot, and kfree
-- of addresses that the callers hold, the slabs of the order are those that the calls leave by
-- count: every word that was a free slot at first is one still or is held, and not both or twice,
-- so that no slot goes to two callers and none is lost; the pages and the headers are as at
-- first, and each slot is at home in its slab.
pub Uses-Keeps :
    {order : ℕ} {m0 : Machine} {ss0 : List (ℕ × List ℕ)}
    → IsSlabs m0.mem (m0.slabs order) ss0
    → ((a : ℕ) → weight a ss0 ≤ 1)
    → homed m0.pool ss0 ≡ true
    → {m : Machine} {ss : List (ℕ × List ℕ)} {held : List ℕ} → Uses order m0 ss0 m ss held
    → Keeps order m0 ss0 m ss held
unfolding count_of
Uses-Keeps c once homes start = record {
  slabs = c;
  conserved = λ a. omega arith;
  same_pool = refl;
  same_headers = refl;
  home_free = homes;
  home_held = λ x h. absurd (cc);
}
Uses-Keeps {order} {m0} {ss0} c once homes
      (take {ss = ss} {held = held} fuel size s x y before small same e enough run) =
    let k = Uses-Keeps c once homes before in
    let (returns, after) = kmalloc_free once k fuel size s y small same e enough in
    subst (λ (r : Machine × ℕ). Keeps order m0 ss0 r.0 (without_first ss) (r.1 ∷ held))
      (value_of (sym returns ∙ run)) (take-Keeps once k s y e after)
Uses-Keeps {order} {m0} {ss0} c once homes (give {ss = ss} {held = held} x before h run) =
    let k = Uses-Keeps c once homes before in
    subst (λ r. Keeps order m0 ss0 r (give_back (home m0.pool x) x ss) (erase x held))
      (value_of (sym (kfree_held once k x h) ∙ run)) (give-Keeps once k x h)

-- For slabs that use no word twice and whose free slots lie in pages that belong to them, after
-- any sequence of kmalloc of sizes of one order, each while some slab has a free slot, and kfree
-- of addresses that the callers hold, kfree of any address that is held ends, and writes the
-- address to the header of the slab it came from and the former first slot to the address,
-- whatever the order of the calls.
pub Uses-kfree :
    {order : ℕ} {m0 m : Machine} {ss0 ss : List (ℕ × List ℕ)} {held : List ℕ} (x : ℕ)
    → IsSlabs m0.mem (m0.slabs order) ss0
    → ((a : ℕ) → weight a ss0 ≤ 1)
    → homed m0.pool ss0 ≡ true
    → Uses order m0 ss0 m ss held
    → contains x held ≡ true
    → kfree m x ≡ ok (record m { mem = given m.mem (home m0.pool x) x })
Uses-kfree x c once homes uses h = kfree_held once (Uses-Keeps c once homes uses) x h
