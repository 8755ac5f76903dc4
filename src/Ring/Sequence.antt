-- ===== src/Ring/Sequence.antt =====
-- A ring as the sequence of its nodes after the head: what the operations of list.h do to it.
use chcore_lab_v.Base.{
  ℕ, ◌≡◌, ◌≢◌, refl, sym, ◌∙◌, inl, inr, true, false, ◌||◌, ◌==◌, List, [], ◌∷◌, contains, erase,
  length, IsDistinct, if◌then◌else◌, Bool-cases, subst, IsDistinct-erase, ==-false_of_ne, eq_of_==,
  arith,
}
use chcore_lab_v.Ring.{Links, list_add, list_del, list_empty}

-- From the node `a` the next pointers lead through `xs` to `b`, and the prev pointers back.
unfoldable pub IsLinked : Links → ℕ → List ℕ → ℕ → Type 0
IsLinked s a [] b = (s.next a ≡ b) × (s.prev b ≡ a)
IsLinked s a (x ∷ xs) b = (s.next a ≡ x) × (s.prev x ≡ a) × IsLinked s x xs b

pub record IsRing (s : Links) (head : ℕ) (xs : List ℕ) : Type 0 where
  pub linked : IsLinked s head xs head
  pub apart : contains head xs ≡ false
  pub distinct : IsDistinct xs

-- A link that is not among those of the stretch does not matter.
IsLinked-frame :
    (s s' : Links) (a : ℕ) (xs : List ℕ) (b : ℕ)
    → ((y : ℕ) → (y == a || contains y xs) ≡ true → s'.next y ≡ s.next y)
    → ((y : ℕ) → (y == b || contains y xs) ≡ true → s'.prev y ≡ s.prev y)
    → IsLinked s a xs b
    → IsLinked s' a xs b
unfolding IsLinked
IsLinked-frame s s' a [] b n p (h, k) = (n a (ground arith) ∙ h, p b (ground arith) ∙ k)
IsLinked-frame s s' a (x ∷ xs) b n p (h, k, rest) = (
  n a (ground arith) ∙ h,
  p x (ground arith) ∙ k,
  IsLinked-frame s s' x xs b (λ y e. n y (ground arith)) (λ y e. p y (ground arith)) rest,
)

-- list_add puts a node that is neither the head nor on the ring right behind the head.
pub list_add-IsRing :
    (s : Links) (new head : ℕ) (xs : List ℕ)
    → IsRing s head xs
    → new ≢ head
    → contains new xs ≡ false
    → IsRing (list_add new head s) head (new ∷ xs)
unfolding list_add IsLinked
list_add-IsRing s new head [] v ne out = record {
  linked = ground (arith, v.linked);
  apart = ground arith;
  distinct = (refl, tt);
}
list_add-IsRing s new head (y ∷ ys) v ne out =
    let (h, k, rest) = v.linked in
    let new_y : new ≢ y = ground arith in
    let head_y : head ≢ y = ground (arith, v.apart) in
    record {
      linked = (
        ground arith,
        ground arith,
        (
          ground arith,
          ground arith,
          IsLinked-frame s (list_add new head s) y ys head
              (λ z e.
                let z_new : z ≢ new = ground (arith, e, out) in
                let z_head : z ≢ head = ground (arith, e, v.apart) in ground arith)
              (λ z e.
                let z_new : z ≢ new = ground (arith, e, out, ne) in
                let z_y : z ≢ y = ground (arith, e, v.distinct, head_y) in ground arith)
              rest,
        ),
      );
      apart = ground (arith, v.apart);
      distinct = (out, v.distinct);
    }

-- The neighbours of a node of a stretch are in the stretch, or its ends.
neighbours :
    (s : Links) (a : ℕ) (xs : List ℕ) (b node : ℕ)
    → IsLinked s a xs b
    → contains node xs ≡ true
    → ((s.prev node == a || contains (s.prev node) xs) ≡ true)
      × ((s.next node == b || contains (s.next node) xs) ≡ true)
unfolding IsLinked
neighbours s a [] b node l h = absurd (let bad : false ≡ true = h in cc)
neighbours s a (x ∷ []) b node (h, k, (h', k')) on = (ground (arith, on), ground (arith, on))
neighbours s a (x ∷ z ∷ zs) b node (h, k, rest) on = elim (Bool-cases (node == x)) [
  | inl here ↦ (ground (arith, here), ground (arith, here))
  | inr later ↦
      let n = neighbours s x (z ∷ zs) b node rest (ground (arith, on, later)) in
      (ground (arith, n), ground (arith, n))
]

-- The links after list_del, for a node that is not its own neighbour.
list_del_next :
    (s : Links) (node y : ℕ)
    → (list_del node s).next y ≡ (if y == s.prev node then s.next node else s.next y)
unfolding list_del
list_del_next s node y = refl

list_del_prev :
    (s : Links) (node y : ℕ)
    → node ≢ s.prev node
    → (list_del node s).prev y ≡ (if y == s.next node then s.prev node else s.prev y)
unfolding list_del
list_del_prev s node y ne = rw (==-false_of_ne node (s.prev node) ne) refl

unlink_first :
    (s : Links) (a x : ℕ) (xs : List ℕ) (b : ℕ)
    → IsLinked s a (x ∷ xs) b
    → contains a (x ∷ xs) ≡ false
    → contains b (x ∷ xs) ≡ false
    → contains x xs ≡ false
    → IsDistinct xs
    → IsLinked (list_del x s) a xs b
unfolding IsLinked
unlink_first s a x [] b (h, k, (h', k')) oa ob dx ds =
    let ne : x ≢ s.prev x = ground (arith, k) in
    (list_del_next s x a ∙ ground (arith, k, h'), list_del_prev s x b ne ∙ ground (arith, k, h'))
unlink_first s a x (z ∷ zs) b (h, k, (h', k', rest)) oa ob dx (dz, ds) =
    let ne : x ≢ s.prev x = ground (arith, k) in
    (
      list_del_next s x a ∙ ground (arith, k, h'),
      list_del_prev s x z ne ∙ ground (arith, k, h'),
      IsLinked-frame s (list_del x s) z zs b
          (λ y e.
            list_del_next s x y ∙ (let y_a : y ≢ a = ground (arith, e, oa) in ground (arith, k)))
          (λ y e.
            list_del_prev s x y ne
            ∙ (let y_z : y ≢ z = ground (arith, e, dz, ob) in ground (arith, h')))
          rest,
    )

-- A node of a stretch is not its own neighbour.
prev_ne :
    (s : Links) (a : ℕ) (xs : List ℕ) (b node : ℕ)
    → IsLinked s a xs b
    → contains a xs ≡ false
    → IsDistinct xs
    → contains node xs ≡ true
    → node ≢ s.prev node
unfolding IsLinked
prev_ne s a [] b node l oa d on = absurd (let bad : false ≡ true = on in cc)
prev_ne s a (x ∷ xs) b node (h, k, rest) oa (dx, ds) on = elim (Bool-cases (node == x)) [
  | inl here ↦ subst (λ (n : ℕ). n ≢ s.prev n) (sym (eq_of_== node x here)) (ground (arith, k, oa))
  | inr later ↦ prev_ne s x xs b node rest dx ds (ground (arith, on, later))
]

unlink_stretch :
    (s : Links) (a : ℕ) (xs : List ℕ) (b node : ℕ)
    → IsLinked s a xs b
    → contains a xs ≡ false
    → contains b xs ≡ false
    → IsDistinct xs
    → contains node xs ≡ true
    → IsLinked (list_del node s) a (erase node xs) b
unfolding IsLinked
unlink_stretch s a [] b node l oa ob d on = absurd (let bad : false ≡ true = on in cc)
unlink_stretch s a (x ∷ xs) b node l oa ob (dx, ds) on = elim (Bool-cases (node == x)) [
  | inl here ↦ rw here (
      subst (λ (n : ℕ). IsLinked (list_del n s) a xs b) (sym (eq_of_== node x here))
        (unlink_first s a x xs b l oa ob dx ds))
  | inr later ↦
      let (h, k, rest) = l in
      let inside : contains node xs ≡ true = ground (arith, on, later) in
      let n = neighbours s x xs b node rest inside in
      let ne : node ≢ s.prev node = prev_ne s x xs b node rest dx ds inside in
      rw later (
        list_del_next s node a
            ∙ (let a_p : a ≢ s.prev node = ground (arith, n, oa) in ground (arith, h)),
        list_del_prev s node x ne
            ∙ (let x_n : x ≢ s.next node = ground (arith, n, dx, ob) in ground (arith, k)),
        unlink_stretch s x xs b node rest dx (ground (arith, ob)) ds inside,
      )
]

-- list_del of a node of the ring takes it off the ring and keeps the others in order.
pub list_del-IsRing :
    (s : Links) (node head : ℕ) (xs : List ℕ)
    → IsRing s head xs
    → contains node xs ≡ true
    → IsRing (list_del node s) head (erase node xs)
list_del-IsRing s node head xs v on = record {
  linked = unlink_stretch s head xs head node v.linked v.apart v.apart v.distinct on;
  apart = contains-erase_out head node xs v.apart;
  distinct = IsDistinct-erase node xs v.distinct;
}
  where
    contains-erase_out :
        (a b : ℕ) (ys : List ℕ) → contains a ys ≡ false → contains a (erase b ys) ≡ false
    contains-erase_out a b [] e = refl
    contains-erase_out a b (y ∷ ys) e = ground (arith, contains-erase_out a b ys)

-- On a ring, list_empty tells whether it has no node but its head.
pub list_empty-IsRing :
    (s : Links) (head : ℕ) (xs : List ℕ) → IsRing s head xs → list_empty head s ≡ (length xs == 0)
unfolding IsLinked
list_empty-IsRing s head [] v = ground (arith, v.linked)
list_empty-IsRing s head (x ∷ xs) v = ground (arith, v.linked, v.apart)
