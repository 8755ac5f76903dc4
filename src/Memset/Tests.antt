-- ===== src/Memset/Tests.antt =====
-- memset of eleven zeros from address 8 on.
use chcore_lab_v.Base.{ℕ, ◌%◌, ◌≡◌, refl, arith, false, []}
use chcore_lab_v.Machine.{Machine, memset_zero}
use chcore_lab_v.Buddy.{Pool}
use chcore_lab_v.Memset.{memset}
use chcore_lab_v.Memset.Words.{word_of, memset-words}

abbrev no_pool : Pool
no_pool = record {
  pool_start_addr = 0;
  pool_mem_size = 0;
  pool_phys_page_num = 0;
  pages = λ _. record { allocated = false; order = 0; slab = 0; in_pool = false };
  free_list = λ _. [];
  nr_free = λ _. 0;
}

abbrev bytes : ℕ → ℕ
bytes x = x % 256

abbrev machine : Machine
machine = record { pool = no_pool; mem = λ a. word_of 8 bytes a; slabs = λ _. 0 }

last_words : word_of 8 (memset 8 0 11 bytes) 16 ≡ 0x1716151413000000
unfolding memset word_of
last_words = refl

memset-words_example : (memset_zero 8 11 machine).mem 16 ≡ word_of 8 (memset 8 0 11 bytes) 16
memset-words_example = memset-words 8 11 16 bytes machine refl refl (λ x. omega arith) refl
