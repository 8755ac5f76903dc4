-- ===== src/CString/Compare.antt =====
-- strcmp and strncmp tell equal strings from others.
use chcore_lab_v.Base.{
  ℕ, zero, suc, ◌<◌, ◌≡◌, ◌≢◌, ◌↔◌, refl, inl, inr, true, false, List, [], ◌∷◌, ◌==◌, Bool-cases,
  eq_of_==, arith,
}
use chcore_lab_v.CString.{strcmp, strncmp, char_diff}

-- The codes of a string.
unfoldable pub IsString : List ℕ → Type 0
IsString [] = Unit
IsString (x ∷ xs) = (0 < x) × (x < 256) × IsString xs

-- The first `size` characters.
unfoldable pub prefix : ℕ → List ℕ → List ℕ
prefix zero s = []
prefix (suc size) [] = []
prefix (suc size) (x ∷ s) = x ∷ prefix size s

char_diff_ne : (x y : ℕ) → x < 256 → y < 256 → (x == y) ≡ false → char_diff x y ≢ 0
char_diff_ne x y hx hy ne e = ground arith

-- Strncmp of two strings of characters from 1 to 255 is 0 exactly if they agree on the first
-- characters, as many as the size says.
pub strncmp-prefix :
    (src dst : List ℕ) (size : ℕ)
    → IsString src
    → IsString dst
    → ((strncmp src dst size ≡ 0) ↔ (prefix size src ≡ prefix size dst))
unfolding strncmp prefix IsString
strncmp-prefix src dst size hs hd = (to src dst size hs hd, from src dst size)
  where
    cons_eq : (x y : ℕ) (s t : List ℕ) → x ≡ y → s ≡ t → (x ∷ s) ≡ (y ∷ t)
    cons_eq x y s t e e' = cc

    to :
        (src dst : List ℕ) (size : ℕ)
        → IsString src
        → IsString dst
        → strncmp src dst size ≡ 0
        → prefix size src ≡ prefix size dst
    to src dst zero hs hd e = refl
    to [] [] (suc size) hs hd e = refl
    to [] (y ∷ dst) (suc size) hs (py, ly, hd) e = absurd (ground arith)
    to (x ∷ src) [] (suc size) (px, lx, hs) hd e = absurd (ground arith)
    to (x ∷ src) (y ∷ dst) (suc size) (px, lx, hs) (py, ly, hd) e = elim (Bool-cases (x == y)) [
      | inl same ↦
          cons_eq x y (prefix size src) (prefix size dst) (eq_of_== x y same)
            (to src dst size hs hd (rw same at e))
      | inr ne ↦ absurd (char_diff_ne x y lx ly ne (rw ne at e))
    ]

    from :
        (src dst : List ℕ) (size : ℕ) → prefix size src ≡ prefix size dst → strncmp src dst size ≡ 0
    from src dst zero e = refl
    from [] [] (suc size) e = refl
    from [] (y ∷ dst) (suc size) e = absurd cc
    from (x ∷ src) [] (suc size) e = absurd cc
    from (x ∷ src) (y ∷ dst) (suc size) e =
        let head : x ≡ y = cc in
        let tail : prefix size src ≡ prefix size dst = cc in
        let same : (x == y) ≡ true = ground arith in rw same (from src dst size tail)

-- Strcmp of two strings of characters from 1 to 255 is 0 exactly if they are equal.
pub strcmp-eq :
    (src dst : List ℕ) → IsString src → IsString dst → ((strcmp src dst ≡ 0) ↔ (src ≡ dst))
unfolding strcmp IsString
strcmp-eq src dst hs hd = (to src dst hs hd, from src dst)
  where
    cons_eq : (x y : ℕ) (s t : List ℕ) → x ≡ y → s ≡ t → (x ∷ s) ≡ (y ∷ t)
    cons_eq x y s t e e' = cc

    to : (src dst : List ℕ) → IsString src → IsString dst → strcmp src dst ≡ 0 → src ≡ dst
    to [] [] hs hd e = refl
    to [] (y ∷ dst) hs hd e = absurd (ground arith)
    to (x ∷ src) [] hs hd e = absurd (ground arith)
    to (x ∷ src) (y ∷ dst) (px, lx, hs) (py, ly, hd) e = elim (Bool-cases (x == y)) [
      | inl same ↦ cons_eq x y src dst (eq_of_== x y same) (to src dst hs hd (rw same at e))
      | inr ne ↦ absurd (char_diff_ne x y lx ly ne (rw ne at e))
    ]

    from : (src dst : List ℕ) → src ≡ dst → strcmp src dst ≡ 0
    from [] [] e = refl
    from [] (y ∷ dst) e = absurd cc
    from (x ∷ src) [] e = absurd cc
    from (x ∷ src) (y ∷ dst) e =
        let head : x ≡ y = cc in
        let tail : src ≡ dst = cc in
        let same : (x == y) ≡ true = ground arith in rw same (from src dst tail)
