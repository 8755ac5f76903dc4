-- ===== src/Slab/Order.antt =====
-- size_to_order of kernel/mm/slab.c: the order of the slots that a request gets.
use chcore_lab_v.Base.{
  ℕ, zero, suc, ◌+◌, ◌*◌, ◌^◌, ◌≤◌, ◌<◌, ◌≡◌, ap, ◌∙◌, inl, inr, ltb, if◌then◌else◌, dec_le,
  Bool-cases, shr, arith,
}
use chcore_lab_v.Base.Pow.{two-pow-suc, two-pow-pos, two-pow_mono}
use chcore_lab_v.Slab.{count_halvings, int_of, size_to_order}

-- The halvings count the binary digits after the first.
pub record Halved (rounds tmp order : ℕ) : Type 0 where
  pub log : ℕ
  pub returns : count_halvings rounds tmp order ≡ order + log
  pub above : 2 ^ log ≤ tmp
  pub below : tmp < 2 ^ suc log

pub count_halvings-Halved :
    (rounds tmp order : ℕ) → 1 ≤ tmp → tmp < 2 ^ suc rounds → Halved rounds tmp order
unfolding count_halvings
count_halvings-Halved zero tmp order pos small = record {
  log = 0;
  returns = omega arith;
  above = pos;
  below = small;
}
count_halvings-Halved (suc rounds) tmp order pos small = elim (Bool-cases (ltb 1 tmp)) [
  | inl more ↦
      let half : 1 ≤ shr tmp 1 = ground arith in
      let h =
        count_halvings-Halved rounds (shr tmp 1) (order + 1) half
          (omega (arith, two-pow-suc (suc rounds))) in
      record {
        log = suc h.log;
        returns = rw more (h.returns ∙ omega arith);
        above = omega (arith, h.above, two-pow-suc h.log);
        below = omega (arith, h.below, two-pow-suc (suc h.log));
      }
  | inr done ↦ record {
    log = 0;
    returns = rw done (omega arith);
    above = pos;
    below = ground arith;
  }
]

-- The least order of a chunk of `unit * 2 ^ order` bytes with room for `size`.
pub record IsLeast (size unit order : ℕ) : Type 0 where
  pub fits : size ≤ unit * 2 ^ order
  pub least : (k : ℕ) → size ≤ unit * 2 ^ k → order ≤ k

-- Rounding the number of digits up gives the least power of two that is not below the number.
pub IsLeast-of_log :
    (n log order : ℕ)
    → 2 ^ log ≤ n
    → n < 2 ^ suc log
    → order ≡ (if ltb (2 ^ log) n then log + 1 else log)
    → IsLeast n 1 order
IsLeast-of_log n log order above below e = elim (Bool-cases (ltb (2 ^ log) n)) [
  | inl more ↦
      let at : order ≡ suc log = e ∙ ap (λ t. if t then log + 1 else log) more ∙ omega arith in
      record {
        fits = omega (arith, ap (λ (x : ℕ). 2 ^ x) at);
        least = λ k h. elim (dec_le (suc log) k) [
          | yes le ↦ omega arith
          | no less ↦ absurd (ground (arith, two-pow_mono {j = k} {k = log} (omega arith)))
        ];
      }
  | inr exact ↦
      let at : order ≡ log = e ∙ ap (λ t. if t then log + 1 else log) exact in
      record {
        fits = ground (arith, ap (λ (x : ℕ). 2 ^ x) at);
        least = λ k h. elim (dec_le log k) [
          | yes le ↦ omega arith
          | no less ↦ absurd (
              omega (
                arith,
                two-pow_mono {j = suc k} {k = log} (omega arith),
                two-pow-suc k,
                two-pow-pos k,
              ))
        ];
      }
]

-- For a size from 1 to 2^30, size_to_order gives the least order whose slots have room for it.
pub size_to_order-IsLeast :
    (size : ℕ) → 1 ≤ size → size ≤ 2 ^ 30 → IsLeast size 1 (size_to_order size)
unfolding size_to_order
size_to_order-IsLeast size pos small =
    let int : int_of size ≡ size = ground arith in
    let h = count_halvings-Halved 31 size 0 pos (omega arith) in
    let e : count_halvings 31 (int_of size) 0 ≡ h.log =
      ap (λ t. count_halvings 31 t 0) int ∙ h.returns ∙ omega arith in
    IsLeast-of_log size h.log _ h.above h.below
      (ap (λ (t : ℕ). if ltb (2 ^ t) size then t + 1 else t) e)
