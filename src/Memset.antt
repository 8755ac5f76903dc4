-- ===== src/Memset.antt =====
-- kernel/arch/aarch64/mm/memset.c on a memory of bytes, and the zeros it writes as they are seen by
-- the code that reads 64-bit words (memset_zero of Machine; the machine is little-endian).
mod Tests
pub mod Words
use chcore_lab_v.Base.{ℕ, zero, suc, ◌+◌, ◌%◌, ◌≡◌, ◌&&◌, ltb, leb, if◌then◌else◌, update, arith}

-- `for (i = 0; i < size; ++i) buf[i] = ch;`, from `i` on with the rounds that are left.
unfoldable pub memset_from : ℕ → ℕ → ℕ → ℕ → (ℕ → ℕ) → ℕ → ℕ
memset_from zero buf i ch bytes = bytes
memset_from (suc rounds) buf i ch bytes =
    memset_from rounds buf (i + 1) ch (update bytes (buf + i) (ch % 256))

unfoldable pub memset : ℕ → ℕ → ℕ → (ℕ → ℕ) → ℕ → ℕ
unfolding memset_from
memset dst ch size bytes = memset_from size dst 0 ch bytes

memset_from_lem :
    (rounds buf i ch a : ℕ) (bytes : ℕ → ℕ)
    → memset_from rounds buf i ch bytes a
      ≡ (if leb (buf + i) a && ltb a (buf + i + rounds) then ch % 256 else bytes a)
unfolding memset_from
memset_from_lem zero buf i ch a bytes = ground arith
memset_from_lem (suc rounds) buf i ch a bytes =
    ground (arith, memset_from_lem rounds buf (i + 1) ch a (update bytes (buf + i) (ch % 256)))

pub memset_lem :
    (dst ch size a : ℕ) (bytes : ℕ → ℕ)
    → memset dst ch size bytes a ≡ (if leb dst a && ltb a (dst + size) then ch % 256 else bytes a)
unfolding memset
memset_lem dst ch size a bytes = ground (arith, memset_from_lem size dst 0 ch a bytes)
