-- ===== src/MemInit/Layout.antt =====
-- The place of the pool in the memory that mm.c finds.
use chcore_lab_v.Base.{
  ℕ, ◌+◌, ◌-◌, ◌*◌, ◌/◌, ◌%◌, ◌^◌, ◌≤◌, ◌<◌, ◌≡◌, refl, ap, ◌∙◌, Result, arith, round_up, sub64,
  add64, mul64,
}
use chcore_lab_v.Base.Round.{round_up_page}
use chcore_lab_v.Buddy.{Page, Pool, init_buddy}
use chcore_lab_v.Buddy.Init.{Ready, init_buddy-Ready}
use chcore_lab_v.PageTable.{kbase, phys_to_virt}
use chcore_lab_v.MemInit.{PhysmemMap, parse_mem_map, page_count, pool_start, init_pool}

-- Kernel addresses of a range of physical memory.
pub record IsRange (map : PhysmemMap) : Type 0 where
  pub one : map.num ≡ 1
  pub ordered : map.start ≤ map.end
  pub start_aligned : map.start % 4096 ≡ 0
  pub end_aligned : map.end % 4096 ≡ 0
  pub low : map.end < 2 ^ 39

-- The pool of `page_num` pages from `start` on, after its metadata and inside the range.
pub record Laid (old : ℕ → Page) (map : PhysmemMap) (r : Result Pool) : Type 0 where
  pub page_num : ℕ
  pub start : ℕ
  pub places : r ≡ init_buddy old start page_num
  pub ready : Ready start page_num r
  pub aligned : start % 4096 ≡ 0
  pub after_metadata : kbase + map.start + page_num * 40 ≤ start
  pub before_end : start + page_num * 4096 ≤ kbase + map.end
  -- Each page takes 4136 bytes, and less than that is left over.
  pub no_waste : map.end < map.start + (page_num + 1) * 4136

module _ (map : PhysmemMap) (v : IsRange map) where
  pages_of : ℕ
  pages_of = (map.end - map.start) / 4136

  count_lem : page_count (phys_to_virt map.start) (phys_to_virt map.end) ≡ pages_of
  unfolding pages_of
  count_lem =
      let size : sub64 (phys_to_virt map.end) (phys_to_virt map.start) ≡ map.end - map.start =
        omega (arith, v.ordered, v.low) in
      ap (λ (t : ℕ). t / 4136) size

  start_of : ℕ
  start_of = (kbase + map.start + pages_of * 40 + 4095) / 4096 * 4096

  start_lem : pool_start (phys_to_virt map.start) pages_of ≡ start_of
  unfolding pool_start start_of pages_of
  start_lem =
      let sum : add64 (phys_to_virt map.start) (mul64 pages_of 40)
          ≡ kbase + map.start + pages_of * 40 =
        omega (arith, v.ordered, v.low) in
      ap (λ (t : ℕ). round_up t 4096) sum
      ∙ round_up_page (kbase + map.start + pages_of * 40) (omega (arith, v.ordered, v.low))

  end_lem : start_of + pages_of * 4096 ≤ kbase + map.end
  unfolding start_of pages_of
  end_lem = omega (arith, v.ordered, v.low, v.start_aligned, v.end_aligned)

  init_pool_run : (old : ℕ → Page) → init_pool old map ≡ init_buddy old start_of pages_of
  unfolding init_pool
  init_pool_run old = rw (v.one, count_lem, start_lem) refl

  -- For a page-aligned range of physical memory below 512G, mm_init makes a valid pool in which
  -- every page is free; it lies after its own metadata and inside the range, and the range has no
  -- room for one page more with its metadata.
  pub init_pool-Laid : (old : ℕ → Page) → Laid old map (init_pool old map)
  init_pool-Laid old = record {
    page_num = pages_of;
    start = start_of;
    places = init_pool_run old;
    ready = rw (init_pool_run old) (
        init_buddy-Ready old start_of pages_of (unfold start_of in omega arith)
          (omega (arith, end_lem, v.low)) (unfold pages_of in omega (arith, v.low)));
    aligned = unfold start_of in omega arith;
    after_metadata = unfold start_of in omega arith;
    before_end = end_lem;
    no_waste = unfold pages_of in omega (arith, v.ordered);
  }

-- The memory of the board: the image lies below the range, with less than a page between them, and
-- the 32M of the GPU lie above it, up to the end at 0x3f000000.
pub record IsBoard (img_end : ℕ) (map : PhysmemMap) : Type 0 where
  pub range : IsRange map
  pub after_image : img_end ≤ map.start
  pub close : map.start < img_end + 4096
  pub before_gpu : map.end + 32 * 1024 * 1024 ≡ 0x3f000000

-- For an image that ends at 0x3d000000 at the latest, the memory map of the board is one page-
-- aligned range, which starts at or after the end of the image, less than a page from it, and
-- ends 32M below 0x3f000000, where the memory of the GPU starts.
pub parse_mem_map-IsBoard :
    (img_end : ℕ) → img_end ≤ 0x3d000000 → IsBoard img_end (parse_mem_map img_end)
unfolding parse_mem_map
parse_mem_map-IsBoard img_end h =
    let up = round_up_page img_end (omega arith) in
    record {
      range = record {
        one = refl;
        ordered = omega (arith, up);
        start_aligned = omega (arith, up);
        end_aligned = refl;
        low = omega arith;
      };
      after_image = omega (arith, up);
      close = omega (arith, up);
      before_gpu = refl;
    }

-- The memory that mm_init hands out.
pub record OnBoard (img_end : ℕ) (r : Result Pool) : Type 0 where
  pub page_num : ℕ
  pub start : ℕ
  pub ready : Ready start page_num r
  pub metadata : ℕ
  -- The metadata lies after the image, then come the pages, then the memory of the GPU.
  pub after_image : kbase + img_end ≤ metadata
  pub after_metadata : metadata + page_num * 40 ≤ start
  pub before_gpu : start + page_num * 4096 + 32 * 1024 * 1024 ≤ kbase + 0x3f000000
