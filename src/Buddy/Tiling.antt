-- ===== src/Buddy/Tiling.antt =====
-- How chunks of the buddy allocator tile the pages of the pool: each page has an owner, the first
-- page of its chunk. Page `i` lies in page frame `F + i`, and chunks are aligned in frames.
pub mod Split
pub mod Join
use chcore_lab_v.Base.{
  ℕ, zero, suc, ◌+◌, ◌-◌, ◌*◌, ◌/◌, ◌%◌, ◌^◌, ◌≤◌, ◌<◌, ◌≡◌, ◌≢◌, refl, sym, ap, subst, ◌∙◌, ◌⊎◌,
  inl, inr, Bool, true, false, ◌&&◌, ltb, leb, ◌==◌, if◌then◌else◌, Bool-cases, bit_xor, arith,
  dec_lt, dec_le,
}
use chcore_lab_v.Base.Pow.{
  two-pow-suc, two-pow-pos, IsAligned, IsAligned-suc, IsAligned-of_eq, IsAligned-of_le,
  block_of_IsAligned, in_block_of_IsAligned, div-two-pow-le, IsAligned-down, eq_of_same_block,
}
use chcore_lab_v.Base.Bits.{bit_xor_clear, bit_xor_set}

-- The frames `f` and `g` start the two halves of a block of `2 ^ (k + 1)` frames.
abbrev pub AreBuddies : ℕ → ℕ → ℕ → Type 0
AreBuddies k f g = (IsAligned (suc k) f × (g ≡ f + 2 ^ k)) ⊎ (IsAligned (suc k) g × (f ≡ g + 2 ^ k))

odd_of_not_even : (a : ℕ) → (a % 2 == 0) ≡ false → a % 2 ≡ 1
odd_of_not_even a h = ground arith

even_of_test : (a : ℕ) → (a % 2 == 0) ≡ true → a % 2 ≡ 0
even_of_test a h = ground arith

odd_quotient : (q t f : ℕ) → f ≡ q * t → q % 2 ≡ 1 → (f - t ≡ q / 2 * (2 * t)) × (f ≡ f - t + t)
odd_quotient q t f e odd = omega (arith, ap (λ (x : ℕ). x * t) as_odd)
  where
    as_odd : q ≡ 2 * (q / 2) + 1
    as_odd = omega arith

-- The exclusive or with `2 ^ k` finds the buddy of an aligned frame.
pub bit_xor-AreBuddies : (k f : ℕ) → IsAligned k f → AreBuddies k f (bit_xor f (2 ^ k))
bit_xor-AreBuddies k f al = elim (Bool-cases (f / 2 ^ k % 2 == 0)) [
  | inl even ↦
      let clear : f / 2 ^ k % 2 ≡ 0 = even_of_test (f / 2 ^ k) even in
      inl (IsAligned-suc k f al clear, bit_xor_clear k f clear)
  | inr other ↦
      let odd : f / 2 ^ k % 2 ≡ 1 = odd_of_not_even (f / 2 ^ k) other in
      let halves = odd_quotient (f / 2 ^ k) (2 ^ k) f al odd in
      inr (
        IsAligned-of_eq (suc k) (f / 2 ^ k / 2) (bit_xor f (2 ^ k)) (
            bit_xor_set k f odd
            ∙ halves.0
            ∙ ap (λ (t : ℕ). f / 2 ^ k / 2 * t) (sym (two-pow-suc k))),
        halves.1 ∙ ap (λ (t : ℕ). t + 2 ^ k) (sym (bit_xor_set k f odd)),
      )
]

-- The upper half of an aligned block is aligned to its own size, and lies in the block.
pub upper_half :
    (k f : ℕ)
    → IsAligned (suc k) f
    → IsAligned k (f + 2 ^ k) × ((f + 2 ^ k) / 2 ^ suc k ≡ f / 2 ^ suc k)
upper_half k f al = (
  IsAligned-of_eq k (f / 2 ^ suc k * 2 + 1) (f + 2 ^ k)
      (omega (arith, al, ap (λ (t : ℕ). f / 2 ^ suc k * t) (two-pow-suc k))),
  block_of_IsAligned (suc k) f (f + 2 ^ k) al (omega arith)
      (omega (arith, two-pow-suc k, two-pow-pos k)),
)

pub AreBuddies-facts :
    (k f g : ℕ)
    → AreBuddies k f g
    → IsAligned k f
    → IsAligned k g × (g / 2 ^ suc k ≡ f / 2 ^ suc k) × (f ≢ g)
AreBuddies-facts k f g (inl (al, e)) alf =
    let (up, same) = upper_half k f al in
    (
      subst (IsAligned k) (sym e) up,
      ap (λ (t : ℕ). t / 2 ^ suc k) e ∙ same,
      omega (arith, two-pow-pos k),
    )
AreBuddies-facts k f g (inr (al, e)) alf =
    let (up, same) = upper_half k g al in
    (
      IsAligned-down k (suc k) g (omega arith) al,
      sym (ap (λ (t : ℕ). t / 2 ^ suc k) e ∙ same),
      omega (arith, two-pow-pos k),
    )

pub record IsTiling (F N : ℕ) (o own : ℕ → ℕ) : Type 0 where
  -- The owner starts the chunk that the page lies in.
  pub own_in : (i : ℕ) → i < N → (own i ≤ i) × (i < own i + 2 ^ o (own i)) × (own (own i) ≡ own i)
  -- A chunk owns all of its pages.
  pub own_all : (h i : ℕ) → h < N → own h ≡ h → h ≤ i → i < h + 2 ^ o h → own i ≡ h
  pub fits : (h : ℕ) → h < N → own h ≡ h → h + 2 ^ o h ≤ N
  pub small : (h : ℕ) → h < N → own h ≡ h → o h < 14
  pub aligned : (h : ℕ) → h < N → own h ≡ h → IsAligned (o h) (F + h)

module _ {F N : ℕ} {o own : ℕ → ℕ} (t : IsTiling F N o own) where
  pub own_of_same_block :
      (h i : ℕ) → h < N → own h ≡ h → (F + i) / 2 ^ o h ≡ (F + h) / 2 ^ o h → own i ≡ h
  own_of_same_block h i hN head e =
      let inside = in_block_of_IsAligned (o h) (F + h) (F + i) (t.aligned h hN head) e in
      t.own_all h i hN head (omega arith) (omega arith)

  pub own_block : (i : ℕ) → i < N → (F + i) / 2 ^ o (own i) ≡ (F + own i) / 2 ^ o (own i)
  own_block i iN =
      let at = t.own_in i iN in
      block_of_IsAligned (o (own i)) (F + own i) (F + i) (t.aligned (own i) (omega arith) at.2)
        (omega arith) (omega arith)

  -- A larger chunk that owns `b` would own its buddy `c` too.
  owner_not_larger :
      (c b : ℕ)
      → c < N
      → b < N
      → own c ≡ c
      → b ≢ c
      → (F + b) / 2 ^ suc (o c) ≡ (F + c) / 2 ^ suc (o c)
      → o (own b) ≤ o c
  owner_not_larger c b cN bN head ne same = elim (dec_le (o (own b)) (o c)) [
    | yes h ↦ h
    | no h ↦
        let at = t.own_in b bN in
        let larger = div-two-pow-le (suc (o c)) (o (own b)) (F + b) (F + c) (omega arith) same in
        let owns = own_of_same_block (own b) c (omega arith) at.2 (sym larger ∙ own_block b bN) in
        absurd (omega (arith, ap o (sym owns ∙ head)))
  ]

  -- A page that starts the other half of a chunk's block starts a chunk itself, which is no
  -- larger.
  pub buddy_head :
      (c b : ℕ)
      → c < N
      → b < N
      → own c ≡ c
      → b ≢ c
      → IsAligned (o c) (F + b)
      → (F + b) / 2 ^ suc (o c) ≡ (F + c) / 2 ^ suc (o c)
      → (own b ≡ b) × (o b ≤ o c)
  buddy_head c b cN bN head ne al same =
      let at = t.own_in b bN in
      let le = owner_not_larger c b cN bN head ne same in
      let below = IsAligned-down (o (own b)) (o c) (F + b) le al in
      let start = t.aligned (own b) (omega arith) at.2 in
      let eq = eq_of_same_block (o (own b)) (F + b) (F + own b) below start (own_block b bN) in
      let self : own b ≡ b = omega arith in (self, subst (λ x. o x ≤ o c) self le)

-- The owner after the pages from `b` on, `2 ^ k` of them, have become a chunk of their own.
abbrev pub own_chunk : ℕ → ℕ → ℕ → (ℕ → ℕ) → ℕ → ℕ
own_chunk b k h own = λ i. if leb b i && ltb i (b + 2 ^ k) then h else own i
