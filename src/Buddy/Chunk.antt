-- ===== src/Buddy/Chunk.antt =====
-- page_to_virt, virt_to_page and get_buddy_chunk of buddy.c in terms of page frames.
use native.Mathlib.Nat.{mul-div-mul_right}
use chcore_lab_v.Base.{
  ℕ, ◌+◌, ◌-◌, ◌*◌, ◌/◌, ◌%◌, ◌^◌, ◌≤◌, ◌<◌, ◌≡◌, sym, subst, ap, ◌∙◌, ◌⊎◌, inl, inr, true, false,
  ◌&&◌, none, some, ltb, leb, ◌==◌, Bool-cases, bit_xor, ok, arith,
}
use chcore_lab_v.Base.Pow.{two-pow-add}
use chcore_lab_v.Base.Bits.{bit_xor_clear, bit_xor_set}
use chcore_lab_v.Buddy.{Pool, page_to_virt, virt_to_page, get_buddy_chunk}
use chcore_lab_v.Buddy.Tiling.{
  AreBuddies, bit_xor-AreBuddies, AreBuddies-facts, IsTiling, buddy_head,
}
use chcore_lab_v.Buddy.Invariant.{frame, order_of, IsPlaced}

odd_of_not_even : (a : ℕ) → (a % 2 == 0) ≡ false → a % 2 ≡ 1
odd_of_not_even a h = ground arith

even_of_test : (a : ℕ) → (a % 2 == 0) ≡ true → a % 2 ≡ 0
even_of_test a h = ground arith

-- The exclusive or of addresses is that of frames.
bit_xor-frames : (k f : ℕ) → bit_xor (f * 4096) (2 ^ (k + 12)) ≡ bit_xor f (2 ^ k) * 4096
bit_xor-frames k f = elim (Bool-cases (f / 2 ^ k % 2 == 0)) [
  | inl even ↦
      let e : f / 2 ^ k % 2 ≡ 0 = even_of_test (f / 2 ^ k) even in
      omega (
        arith,
        bit_xor_clear (k + 12) (f * 4096) (ap (λ (t : ℕ). t % 2) scaled ∙ e),
        bit_xor_clear k f e,
        two-pow-add k 12,
      )
  | inr other ↦
      let e : f / 2 ^ k % 2 ≡ 1 = odd_of_not_even (f / 2 ^ k) other in
      omega (
        arith,
        bit_xor_set (k + 12) (f * 4096) (ap (λ (t : ℕ). t % 2) scaled ∙ e),
        bit_xor_set k f e,
        two-pow-add k 12,
      )
]
  where
    scaled : f * 4096 / 2 ^ (k + 12) ≡ f / 2 ^ k
    scaled =
        ap (λ (t : ℕ). f * 4096 / t) (two-pow-add k 12)
        ∙ mul-div-mul_right {m = 4096} f (2 ^ k) (omega arith)

module _ {s : Pool} (placed : IsPlaced s) where
  frame_start : s.pool_start_addr ≡ frame s * 4096
  frame_start = omega (arith, placed.start_aligned)

  pub page_to_virt_lem :
      (p : ℕ) → p < s.pool_phys_page_num → page_to_virt s p ≡ ok ((frame s + p) * 4096)
  unfolding page_to_virt
  page_to_virt_lem p pN = ground (arith, placed.linked p pN, placed.start_aligned, placed.high)

  -- For a pool placed below the end of the address space, virt_to_page gives the page for each of
  -- the 4096 addresses from the page's own on.
  pub virt_to_page_lem :
      (p offset : ℕ)
      → p < s.pool_phys_page_num
      → offset < 4096
      → virt_to_page s ((frame s + p) * 4096 + offset) ≡ ok p
  unfolding virt_to_page
  virt_to_page_lem p offset pN small =
      ground (arith, placed.start_aligned, placed.high, placed.size)

  buddy_addr :
      (p : ℕ)
      → bit_xor ((frame s + p) * 4096) (2 ^ ((s.pages p).order + 12))
        ≡ bit_xor (frame s + p) (2 ^ (s.pages p).order) * 4096
  buddy_addr p = bit_xor-frames (s.pages p).order (frame s + p)

  virt_to_page_start :
      (p : ℕ) → p < s.pool_phys_page_num → virt_to_page s ((frame s + p) * 4096) ≡ ok p
  virt_to_page_start p pN =
      ap (virt_to_page s) (omega arith) ∙ virt_to_page_lem p 0 pN (omega arith)

  -- The buddy is in the pool.
  pub get_buddy_chunk_in :
      (p b : ℕ)
      → p < s.pool_phys_page_num
      → b < s.pool_phys_page_num
      → bit_xor (frame s + p) (2 ^ (s.pages p).order) ≡ frame s + b
      → get_buddy_chunk s p ≡ ok (some b)
  unfolding get_buddy_chunk
  get_buddy_chunk_in p b pN bN e =
      rw (page_to_virt_lem p pN, buddy_addr p, e)
        (ground (arith, placed.start_aligned, placed.high, placed.size))

  -- The buddy lies outside the pool.
  pub get_buddy_chunk_out :
      (p : ℕ)
      → p < s.pool_phys_page_num
      → (bit_xor (frame s + p) (2 ^ (s.pages p).order) < frame s)
        ⊎ (frame s + s.pool_phys_page_num ≤ bit_xor (frame s + p) (2 ^ (s.pages p).order))
      → get_buddy_chunk s p ≡ ok none
  unfolding get_buddy_chunk
  get_buddy_chunk_out p pN out =
      rw (page_to_virt_lem p pN, buddy_addr p)
        (ground (arith, placed.start_aligned, placed.high, placed.size))

-- What get_buddy_chunk finds for a chunk of the tiling: nothing, or a chunk that is no larger.
pub record FoundBuddy (s : Pool) (own : ℕ → ℕ) (p b : ℕ) : Type 0 where
  pub found : get_buddy_chunk s p ≡ ok (some b)
  pub inside : b < s.pool_phys_page_num
  pub buddies : AreBuddies (order_of s p) (frame s + p) (frame s + b)
  pub head : own b ≡ b
  pub no_larger : order_of s b ≤ order_of s p

module _ {s : Pool} {own : ℕ → ℕ} (placed : IsPlaced s)
    (t : IsTiling (frame s) s.pool_phys_page_num (order_of s) own) where
  pub found_at :
      (p b : ℕ)
      → p < s.pool_phys_page_num
      → own p ≡ p
      → b < s.pool_phys_page_num
      → bit_xor (frame s + p) (2 ^ order_of s p) ≡ frame s + b
      → FoundBuddy s own p b
  found_at p b pN head bN e =
      let al = t.aligned p pN head in
      let buddies : AreBuddies (order_of s p) (frame s + p) (frame s + b) =
        subst (AreBuddies (order_of s p) (frame s + p)) e
          (bit_xor-AreBuddies (order_of s p) (frame s + p) al) in
      let (al', same, ne) =
        AreBuddies-facts (order_of s p) (frame s + p) (frame s + b) buddies al in
      let (head', le) =
        buddy_head t p b pN bN head (λ eq. ne (ap (λ (x : ℕ). frame s + x) (sym eq))) al' same in
      record {
        found = get_buddy_chunk_in placed p b pN bN e;
        inside = bN;
        buddies = buddies;
        head = head';
        no_larger = le;
      }

  pub get_buddy_chunk_cases :
      (p : ℕ)
      → p < s.pool_phys_page_num
      → own p ≡ p
      → (get_buddy_chunk s p ≡ ok none) ⊎ ((b : ℕ) × FoundBuddy s own p b)
  get_buddy_chunk_cases p pN head =
      elim (Bool-cases (leb (frame s) g && ltb g (frame s + s.pool_phys_page_num))) [
        | inl within ↦
            inr (g - frame s, found_at p (g - frame s) pN head (ground arith) (ground arith))
        | inr outside ↦ inl (get_buddy_chunk_out placed p pN (ground arith))
      ]
    where
      g : ℕ
      g = bit_xor (frame s + p) (2 ^ order_of s p)
