-- ===== src/Buddy/Merge/Maximal.antt =====
-- merge_page of buddy.c: a chunk that cannot be merged further leaves no two free buddies.
use chcore_lab_v.Base.{ℕ, suc, ◌+◌, ◌^◌, ◌<◌, ◌≡◌, ap, ◌∙◌, subst, inl, inr, false, bit_xor, arith}
use chcore_lab_v.Base.Pow.{half_unaligned, IsAligned, IsAligned-down}
use chcore_lab_v.Buddy.{Pool, insert_free}
use chcore_lab_v.Buddy.Tiling.{bit_xor-AreBuddies}
use chcore_lab_v.Buddy.Chunk.{FoundBuddy, found_at}
use chcore_lab_v.Buddy.Invariant.{frame, order_of, AreFreeHalves, IsMergedBut, IsMerged}
use chcore_lab_v.Buddy.Step.{Floats}
use chcore_lab_v.Buddy.Merge.Loop.{IsStuck}

bit_xor_lower : (k f : ℕ) → IsAligned (suc k) f → bit_xor f (2 ^ k) ≡ f + 2 ^ k
bit_xor_lower k f al = elim (bit_xor-AreBuddies k f (IsAligned-down k (suc k) f (omega arith) al)) [
  | inl (al', e) ↦ e
  | inr (al', e) ↦
      absurd (half_unaligned k (bit_xor f (2 ^ k)) al' (subst (IsAligned (suc k)) e al))
]

bit_xor_upper :
    (k f : ℕ) → IsAligned k (f + 2 ^ k) → IsAligned (suc k) f → bit_xor (f + 2 ^ k) (2 ^ k) ≡ f
bit_xor_upper k f at al = elim (bit_xor-AreBuddies k (f + 2 ^ k) at) [
  | inl (al', e) ↦ absurd (half_unaligned k f al al')
  | inr (al', e) ↦ omega arith
]

module _ {s : Pool} {own : ℕ → ℕ} {p : ℕ} (f : Floats s own p) where
  -- A free half of the same order would have been merged with `p`.
  no_twin :
      (b : ℕ)
      → IsStuck s own p
      → order_of s p < 13
      → FoundBuddy s own p b
      → (s.pages b).allocated ≡ false
      → ¬ (order_of s b ≡ order_of s p)
  no_twin b (inl full) small g is_free e = omega arith
  no_twin b (inr stuck) small g is_free e = ground (arith, stuck b g)

  found_twin :
      (b : ℕ)
      → b < s.pool_phys_page_num
      → bit_xor (frame s + p) (2 ^ order_of s p) ≡ frame s + b
      → FoundBuddy s own p b
  found_twin b bN e = found_at f.valid.placed f.valid.tiling p b f.inside f.head bN e

  not_lower : (k u : ℕ) → k < 13 → IsStuck s own p → ¬ AreFreeHalves s own k p u
  not_lower k u small stuck (e, uN, al, hp, hu, op, ou, ap', au) =
      no_twin u stuck (omega arith)
        (found_twin u uN (
          ap (λ (x : ℕ). bit_xor (frame s + p) (2 ^ x)) op
          ∙ bit_xor_lower k (frame s + p) al
          ∙ omega arith))
        au (omega arith)

  not_upper : (k l : ℕ) → k < 13 → IsStuck s own p → ¬ AreFreeHalves s own k l p
  not_upper k l small stuck (e, uN, al, hl, hp, ol, op, al', ap') =
      let at : IsAligned k (frame s + l + 2 ^ k) =
        subst (IsAligned k) (omega arith)
          (subst (λ n. IsAligned n (frame s + p)) op (f.valid.tiling.aligned p f.inside f.head)) in
      no_twin l stuck (omega arith)
        (found_twin l (omega arith) (
          ap (λ (x : ℕ). bit_xor (frame s + p) (2 ^ x)) op
          ∙ ap (λ (x : ℕ). bit_xor x (2 ^ k)) (omega arith)
          ∙ bit_xor_upper k (frame s + l) at al))
        al' (omega arith)

  pub insert_free-IsMerged : IsStuck s own p → IsMergedBut s own p → IsMerged (insert_free p s) own
  insert_free-IsMerged stuck m k l u small pair = elim (m k l u small pair) [
    | inl e ↦ absurd (not_lower k u small stuck (subst (λ x. AreFreeHalves s own k x u) e pair))
    | inr e ↦ absurd (not_upper k l small stuck (subst (λ x. AreFreeHalves s own k l x) e pair))
  ]
