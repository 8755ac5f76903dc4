-- ===== src/Buddy/Tiling/Join.antt =====
-- merge_page of buddy.c on the tiling.
use chcore_lab_v.Base.{
  ℕ, suc, ◌+◌, ◌*◌, ◌^◌, ◌≤◌, ◌<◌, ◌≡◌, ◌≢◌, sym, subst, ap, ◌∙◌, ◌⊎◌, inl, inr, arith,
}
use chcore_lab_v.Base.Pow.{two-pow-suc, two-pow-pos, IsAligned}
use chcore_lab_v.Buddy.Tiling.{IsTiling, own_chunk}

-- Two halves `l` and `u` become one chunk.
module _ {F N : ℕ} {o own o' : ℕ → ℕ} (t : IsTiling F N o own) (l u k : ℕ) (uN : u < N)
    (at : u ≡ l + 2 ^ k) (l_head : own l ≡ l) (u_head : own u ≡ u) (l_order : o l ≡ k)
    (u_order : o u ≡ k) (room : k < 13) (al : IsAligned (suc k) (F + l)) (grown : o' l ≡ suc k)
    (same : (i : ℕ) → i ≢ l → i ≢ u → o' i ≡ o i) where
  join_low : (i : ℕ) → l ≤ i → i < l + 2 ^ k → own i ≡ l
  join_low i lo hi =
      t.own_all l i (omega arith) l_head lo (omega (arith, ap (λ (x : ℕ). 2 ^ x) l_order))

  join_high : (i : ℕ) → u ≤ i → i < u + 2 ^ k → own i ≡ u
  join_high i lo hi = t.own_all u i uN u_head lo (omega (arith, ap (λ (x : ℕ). 2 ^ x) u_order))

  join_pow : 2 ^ o' l ≡ 2 * 2 ^ k
  join_pow = ap (λ (x : ℕ). 2 ^ x) grown ∙ two-pow-suc k

  join_pow_same : (i : ℕ) → i ≢ l → i ≢ u → 2 ^ o' i ≡ 2 ^ o i
  join_pow_same i nl nu = ap (λ (x : ℕ). 2 ^ x) (same i nl nu)

  join_heads :
      (h : ℕ) → own_chunk u k l own h ≡ h → (own h ≡ h) × ((h ≡ l) ⊎ ((h < l) ⊎ (u + 2 ^ k ≤ h)))
  join_heads h e = ground (arith, two-pow-pos k, join_low h, join_high h)

  join-IsAligned : (h : ℕ) → h < N → own_chunk u k l own h ≡ h → IsAligned (o' h) (F + h)
  join-IsAligned h hN hh =
      let (old, place) = join_heads h hh in
      elim place [
        | inl lower ↦
            subst (λ x. IsAligned (o' x) (F + x)) (sym lower)
              (subst (λ n. IsAligned n (F + l)) (sym grown) al)
        | inr apart ↦
            subst (λ n. IsAligned n (F + h))
              (sym (same h (omega (arith, two-pow-pos k)) (omega (arith, two-pow-pos k))))
              (t.aligned h hN old)
      ]

  pub join-IsTiling : IsTiling F N o' (own_chunk u k l own)
  join-IsTiling = record {
    own_in = λ i iN. ground (
      arith,
      t.own_in i,
      join_low i,
      join_high i,
      join_high (own i),
      join_pow,
      join_pow_same (own i),
      two-pow-pos k,
      ap (λ (x : ℕ). 2 ^ x) l_order,
      ap (λ (x : ℕ). 2 ^ x) u_order,
    );
    own_all = λ h i hN hh lo hi. ground (
      arith,
      join_heads h hh,
      t.own_all h i hN,
      join_low i,
      join_high i,
      join_pow,
      join_pow_same h,
      two-pow-pos k,
    );
    fits = λ h hN hh. ground (
      arith,
      join_heads h hh,
      t.fits h hN,
      t.fits u uN u_head,
      join_pow,
      join_pow_same h,
      ap (λ (x : ℕ). 2 ^ x) u_order,
      two-pow-pos k,
    );
    small = λ h hN hh. ground (arith, join_heads h hh, t.small h hN, same h, two-pow-pos k);
    aligned = join-IsAligned;
  }
