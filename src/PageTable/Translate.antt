-- ===== src/PageTable/Translate.antt =====
-- A translation of addresses in arithmetic, one clause for all levels, and query_in_pgtbl.
use chcore_lab_v.Base.{
  ℕ, zero, suc, ◌+◌, ◌-◌, ◌*◌, ◌/◌, ◌%◌, ◌^◌, ◌<◌, ◌≡◌, refl, ap, ◌∙◌, inl, inr, Bool, true, false,
  not, ◌||◌, ◌&&◌, Option, none, some, bit_and, bit_or, ltb, ◌==◌, if◌then◌else◌, ok, shl64,
  Bool-cases, arith,
}
use native.Mathlib.Nat.{mod-eq_of_lt}
use chcore_lab_v.Base.Bits.{bit_and-mask, bit_and-two-pow, bit_or_fields}
use chcore_lab_v.Machine.{Machine}
use chcore_lab_v.PageTable.{
  kbase, is_pte_invalid, is_pte_table, get_next_of, get_next_ptp, table_addr,
}
use chcore_lab_v.PageTable.Query.{located, query_l3, query_l2, query_l1, query_in_pgtbl}

-- The entry for `va` in a table from which `k` more levels follow.
abbrev pub entry_at : ℕ → ℕ → ℕ → ℕ
entry_at k table va = table + 8 * (va / 2 ^ (9 * k + 12) % 512)

abbrev pub is_invalid : ℕ → Bool
is_invalid w = w % 2 == 0

-- The second bit tells a table from a block, on the levels that have both.
abbrev pub is_leaf : ℕ → ℕ → Bool
is_leaf k w = k == 0 || (ltb k 3 && (w / 2 % 2 == 0))

abbrev pub next_table : ℕ → ℕ
next_table w = (w / 2 ^ 12 % 2 ^ 36 * 2 ^ 12 + kbase) % 2 ^ 64

-- The address that a leaf gives, and the address of the leaf.
abbrev pub leaf_at : ℕ → ℕ → ℕ → ℕ → ℕ × ℕ
leaf_at k w e va =
    (w / 2 ^ (9 * k + 12) % 2 ^ (36 - 9 * k) * 2 ^ (9 * k + 12) + va % 2 ^ (9 * k + 12), e)

unfoldable pub lookup : ℕ → (ℕ → ℕ) → ℕ → ℕ → Option (ℕ × ℕ)
lookup zero mem table va =
    let e = entry_at 0 table va in
    if table == 0 || is_invalid (mem e) then none else some (leaf_at 0 (mem e) e va)
lookup (suc k) mem table va =
    let e = entry_at (suc k) table va in
    let below = lookup k mem (next_table (mem e)) va in
    if table == 0 || is_invalid (mem e)
    then none
    else (if is_leaf (suc k) (mem e) then some (leaf_at (suc k) (mem e) e va) else below)

pub invalid_lem : (w : ℕ) → is_pte_invalid w ≡ is_invalid w
invalid_lem w =
    let e : bit_and w 1 ≡ w % 2 = bit_and-two-pow 0 w ∙ omega arith in
    ap (λ t. not (not (t == 0))) e ∙ not_not (w % 2 == 0)
  where
    not_not : (b : Bool) → not (not b) ≡ b
    not_not true = refl
    not_not false = refl

pub table_lem : (w : ℕ) → is_pte_table w ≡ not (w / 2 % 2 == 0)
table_lem w =
    let e : bit_and w 2 ≡ w / 2 % 2 * 2 = bit_and-two-pow 1 w ∙ omega arith in ground (arith, e)

pub index_lem : (s va : ℕ) → bit_and (va / 2 ^ s) 511 ≡ va / 2 ^ s % 512
index_lem s va = bit_and-mask 9 (va / 2 ^ s)

pub next_lem : (w : ℕ) → get_next_of w ≡ next_table w
next_lem w =
    let e : shl64 (table_addr w) 12 ≡ w / 2 ^ 12 % 2 ^ 36 * 2 ^ 12 = omega arith in
    ap (λ (t : ℕ). (t + kbase) % 2 ^ 64) e

located_lem :
    (m : Machine) (pfn s pte va : ℕ)
    → pfn * 2 ^ s < 2 ^ 64
    → va % 2 ^ s < 2 ^ s
    → located m pfn s pte va ≡ some (pfn * 2 ^ s + va % 2 ^ s, pte)
located_lem m pfn s pte va fits low =
    let e : shl64 pfn s ≡ pfn * 2 ^ s = mod-eq_of_lt {n = pfn * 2 ^ s} {m = 2 ^ 64} fits in
    ap (λ (t : ℕ). some (t, pte))
      (ap (λ (t : ℕ). bit_or t (bit_and va (2 ^ s - 1))) e
        ∙ ap (λ (t : ℕ). bit_or (pfn * 2 ^ s) t) (bit_and-mask s va)
        ∙ bit_or_fields s pfn (va % 2 ^ s) low)

query_l3-lookup : (m : Machine) (t va : ℕ) → query_l3 m t va ≡ ok (lookup 0 m.mem t va)
unfolding query_l3 get_next_ptp lookup
query_l3-lookup m t va = elim (Bool-cases (t == 0)) [
  | inl null ↦ rw null refl
  | inr there ↦ elim (Bool-cases (is_invalid (m.mem (entry_at 0 t va)))) [
    | inl out ↦ rw (there, index_lem 12 va, invalid_lem (m.mem (entry_at 0 t va)), out) refl
    | inr valid ↦
        rw (there, index_lem 12 va, invalid_lem (m.mem (entry_at 0 t va)), valid)
          (ap (λ o. ok o)
            (located_lem m (m.mem (entry_at 0 t va) / 2 ^ 12 % 2 ^ 36) 12 (entry_at 0 t va) va
              (omega arith) (omega arith)))
  ]
]

query_l2-lookup : (m : Machine) (t va : ℕ) → query_l2 m t va ≡ ok (lookup 1 m.mem t va)
unfolding query_l2 get_next_ptp lookup
query_l2-lookup m t va =
    let e = entry_at 1 t va in
    elim (Bool-cases (t == 0)) [
      | inl null ↦ rw null refl
      | inr there ↦ elim (Bool-cases (is_invalid (m.mem e))) [
        | inl out ↦ rw (there, index_lem 21 va, invalid_lem (m.mem e), out) refl
        | inr valid ↦ elim (Bool-cases (m.mem e / 2 % 2 == 0)) [
          | inl block ↦
              rw (there, index_lem 21 va, invalid_lem (m.mem e), valid, table_lem (m.mem e), block)
                (ap (λ o. ok o)
                  (located_lem m (m.mem e / 2 ^ 21 % 2 ^ 27) 21 e va (omega arith) (omega arith)))
          | inr table ↦
              rw
                (
                  there,
                  index_lem 21 va,
                  invalid_lem (m.mem e),
                  valid,
                  table_lem (m.mem e),
                  table,
                  next_lem (m.mem e),
                )
                (query_l3-lookup m (next_table (m.mem e)) va)
        ]
      ]
    ]

query_l1-lookup : (m : Machine) (t va : ℕ) → query_l1 m t va ≡ ok (lookup 2 m.mem t va)
unfolding query_l1 get_next_ptp lookup
query_l1-lookup m t va =
    let e = entry_at 2 t va in
    elim (Bool-cases (t == 0)) [
      | inl null ↦ rw null refl
      | inr there ↦ elim (Bool-cases (is_invalid (m.mem e))) [
        | inl out ↦ rw (there, index_lem 30 va, invalid_lem (m.mem e), out) refl
        | inr valid ↦ elim (Bool-cases (m.mem e / 2 % 2 == 0)) [
          | inl block ↦
              rw (there, index_lem 30 va, invalid_lem (m.mem e), valid, table_lem (m.mem e), block)
                (ap (λ o. ok o)
                  (located_lem m (m.mem e / 2 ^ 30 % 2 ^ 18) 30 e va (omega arith) (omega arith)))
          | inr table ↦
              rw
                (
                  there,
                  index_lem 30 va,
                  invalid_lem (m.mem e),
                  valid,
                  table_lem (m.mem e),
                  table,
                  next_lem (m.mem e),
                )
                (query_l2-lookup m (next_table (m.mem e)) va)
        ]
      ]
    ]

-- query_in_pgtbl returns for every table and address, and gives what the translation gives, with
-- the entry: a page, a block on the levels that have blocks, or -ENOMAPPING.
pub query_in_pgtbl-lookup :
    (m : Machine) (pgtbl va : ℕ) → query_in_pgtbl m pgtbl va ≡ ok (lookup 3 m.mem pgtbl va)
unfolding query_in_pgtbl get_next_ptp lookup
query_in_pgtbl-lookup m t va =
    let e = entry_at 3 t va in
    elim (Bool-cases (t == 0)) [
      | inl null ↦ rw null refl
      | inr there ↦ elim (Bool-cases (is_invalid (m.mem e))) [
        | inl out ↦ rw (there, index_lem 39 va, invalid_lem (m.mem e), out) refl
        | inr valid ↦ elim (Bool-cases (m.mem e / 2 % 2 == 0)) [
          | inl block ↦
              rw
                (
                  there,
                  index_lem 39 va,
                  invalid_lem (m.mem e),
                  valid,
                  table_lem (m.mem e),
                  block,
                  next_lem (m.mem e),
                )
                (query_l1-lookup m (next_table (m.mem e)) va)
          | inr table ↦
              rw
                (
                  there,
                  index_lem 39 va,
                  invalid_lem (m.mem e),
                  valid,
                  table_lem (m.mem e),
                  table,
                  next_lem (m.mem e),
                )
                (query_l1-lookup m (next_table (m.mem e)) va)
        ]
      ]
    ]
