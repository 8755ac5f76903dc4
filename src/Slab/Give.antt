-- ===== src/Slab/Give.antt =====
-- A slot is given back to the chain of slabs of kernel/mm/slab.c, in whichever slab it lies.
use chcore_lab_v.Base.{
  ℕ, ◌+◌, ◌≤◌, ◌≡◌, ◌≢◌, sym, subst, ap, List, [], ◌∷◌, true, contains, ◌==◌, update, inl, inr,
  arith, Bool-cases, eq_of_==,
}
use chcore_lab_v.Slab.Chain.{IsChain, IsChain-update}
use chcore_lab_v.Slab.Slabs.{IsSlabs}
use chcore_lab_v.Slab.Words.{
  hit, count_of, contains_of_count, weight, headers, give_back, weight_header,
  IsSlabs-update_unused,
}

-- What free_in_slab writes.
abbrev pub given : (ℕ → ℕ) → ℕ → ℕ → ℕ → ℕ
given mem s x = update (update mem x (mem s)) s x

module _ (mem : ℕ → ℕ) (s x : ℕ) where
  IsChain-given :
      (head : ℕ) (ys : List ℕ)
      → count_of x ys ≡ 0
      → count_of s ys ≡ 0
      → IsChain mem head ys
      → IsChain (given mem s x) head ys
  IsChain-given head ys none none' c =
      IsChain-update (update mem x (mem s)) s x head ys (contains_of_count s ys none')
        (IsChain-update mem x (mem s) head ys (contains_of_count x ys none) c)

  IsSlabs-given :
      (head : ℕ) (ss : List (ℕ × List ℕ))
      → weight x ss ≡ 0
      → weight s ss ≡ 0
      → IsSlabs mem head ss
      → IsSlabs (given mem s x) head ss
  IsSlabs-given head ss none none' c =
      IsSlabs-update_unused (update mem x (mem s)) s x head ss none'
        (IsSlabs-update_unused mem x (mem s) head ss none c)

  pub IsSlabs-give_back :
      (head : ℕ) (ss : List (ℕ × List ℕ))
      → IsSlabs mem head ss
      → contains s (headers ss) ≡ true
      → ((a : ℕ) → weight a ss + hit a x ≤ 1)
      → x ≢ 0
      → IsSlabs (given mem s x) head (give_back s x ss)
  unfolding IsSlabs IsChain headers weight give_back
  IsSlabs-give_back head [] c h once pos = absurd (cc)
  IsSlabs-give_back head ((t, ys) ∷ ss) (at, there, chain, rest) h once pos =
      elim (Bool-cases (s == t)) [
        | inl same ↦
            let e : s ≡ t = eq_of_== s t same in
            let at_x = once x in
            let at_s = once s in
            let front : given mem s x t ≡ x = ground arith in
            let next : given mem s x x ≡ mem t = ground (arith, ap mem e) in
            let link : given mem s x (t + 8) ≡ mem (t + 8) = ground arith in
            let own : IsChain (given mem s x) (mem t) ys =
              IsChain-given (mem t) ys (ground arith) (ground arith) chain in
            let others : IsSlabs (given mem s x) (mem (t + 8)) ss =
              IsSlabs-given (mem (t + 8)) ss (ground arith) (ground arith) rest in
            rw same (
              at,
              there,
              (front, pos, subst (λ (a : ℕ). IsChain (given mem s x) a ys) (sym next) own),
              subst (λ (a : ℕ). IsSlabs (given mem s x) a ss) (sym link) others,
            )
        | inr other ↦
            let inside : contains s (headers ss) ≡ true = ground (arith, h, other) in
            let used = weight_header s ss inside in
            let at_x = once x in
            let at_s = once s in
            let front : given mem s x t ≡ mem t = ground arith in
            let link : given mem s x (t + 8) ≡ mem (t + 8) = ground arith in
            let own : IsChain (given mem s x) (mem t) ys =
              IsChain-given (mem t) ys (ground arith) (ground arith) chain in
            let below =
              IsSlabs-give_back (mem (t + 8)) ss rest inside (λ a. omega (arith, once a)) pos in
            rw other (
              at,
              there,
              subst (λ (a : ℕ). IsChain (given mem s x) a ys) (sym front) own,
              subst (λ (a : ℕ). IsSlabs (given mem s x) a (give_back s x ss)) (sym link) below,
            )
      ]
