-- ===== src/Buddy/Tiling/Split.antt =====
-- split_page of buddy.c on the tiling.
use chcore_lab_v.Base.{
  ℕ, suc, ◌+◌, ◌*◌, ◌^◌, ◌≤◌, ◌<◌, ◌≡◌, ◌≢◌, sym, subst, ap, ◌∙◌, ◌⊎◌, inl, inr, arith, ◌/◌,
}
use chcore_lab_v.Base.Pow.{two-pow-suc, two-pow-pos, IsAligned, IsAligned-of_eq, IsAligned-down}
use chcore_lab_v.Buddy.Tiling.{IsTiling, own_chunk}

-- A chunk is split into two halves, `p` and `b`.
module _ {F N : ℕ} {o own o' : ℕ → ℕ} (t : IsTiling F N o own) (p b k : ℕ) (pN : p < N)
    (at : b ≡ p + 2 ^ k) (head : own p ≡ p) (order : o p ≡ suc k) (low : o' p ≡ k) (high : o' b ≡ k)
    (same : (i : ℕ) → i ≢ p → i ≢ b → o' i ≡ o i) where
  split_whole : 2 ^ o p ≡ 2 * 2 ^ k
  split_whole = ap (λ (x : ℕ). 2 ^ x) order ∙ two-pow-suc k

  split_owned : (i : ℕ) → p ≤ i → i < p + 2 * 2 ^ k → own i ≡ p
  split_owned i lo hi = t.own_all p i pN head lo (omega (arith, split_whole))

  split_pow_same : (i : ℕ) → i ≢ p → i ≢ b → 2 ^ o' i ≡ 2 ^ o i
  split_pow_same i np nb = ap (λ (x : ℕ). 2 ^ x) (same i np nb)

  split_pow_low : 2 ^ o' p ≡ 2 ^ k
  split_pow_low = ap (λ (x : ℕ). 2 ^ x) low

  split_pow_high : 2 ^ o' b ≡ 2 ^ k
  split_pow_high = ap (λ (x : ℕ). 2 ^ x) high

  -- A chunk after the split is the upper half, the lower half, or one that was there before.
  split_heads :
      (h : ℕ)
      → own_chunk b k b own h ≡ h
      → (h ≡ b) ⊎ ((own h ≡ h) × ((h ≡ p) ⊎ ((h < p) ⊎ (b + 2 ^ k ≤ h))))
  split_heads h e = ground (arith, two-pow-pos k, split_owned h)

  split-IsAligned_low : IsAligned k (F + p)
  split-IsAligned_low = IsAligned-down k (o p) (F + p) (omega arith) (t.aligned p pN head)

  split-IsAligned_high : IsAligned k (F + b)
  split-IsAligned_high =
      IsAligned-of_eq k ((F + p) / 2 ^ k + 1) (F + b) (omega (arith, split-IsAligned_low))

  split-IsAligned : (h : ℕ) → h < N → own_chunk b k b own h ≡ h → IsAligned (o' h) (F + h)
  split-IsAligned h hN hh = elim (split_heads h hh) [
    | inl upper ↦
        subst (λ x. IsAligned (o' x) (F + x)) (sym upper)
          (subst (λ n. IsAligned n (F + b)) (sym high) split-IsAligned_high)
    | inr (old, inl lower) ↦
        subst (λ x. IsAligned (o' x) (F + x)) (sym lower)
          (subst (λ n. IsAligned n (F + p)) (sym low) split-IsAligned_low)
    | inr (old, inr apart) ↦
        subst (λ n. IsAligned n (F + h))
          (sym (same h (omega (arith, two-pow-pos k)) (omega (arith, two-pow-pos k))))
          (t.aligned h hN old)
  ]

  pub split-IsTiling : IsTiling F N o' (own_chunk b k b own)
  split-IsTiling = record {
    own_in = λ i iN. ground (
      arith,
      t.own_in i,
      split_owned i,
      split_owned (own i),
      split_owned b,
      split_owned p,
      split_pow_low,
      split_pow_high,
      split_pow_same (own i),
      split_whole,
      two-pow-pos k,
    );
    own_all = λ h i hN hh lo hi. ground (
      arith,
      split_heads h hh,
      t.own_all h i hN,
      split_owned i,
      split_owned h,
      split_pow_low,
      split_pow_high,
      split_pow_same h,
      two-pow-pos k,
    );
    fits = λ h hN hh. ground (
      arith,
      split_heads h hh,
      t.fits h hN,
      t.fits p pN head,
      split_pow_low,
      split_pow_high,
      split_pow_same h,
      split_whole,
      two-pow-pos k,
    );
    small = λ h hN hh.
        ground (arith, split_heads h hh, t.small h hN, t.small p pN head, same h, two-pow-pos k);
    aligned = split-IsAligned;
  }
