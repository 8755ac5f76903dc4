-- ===== src/MemInit/Tests.antt =====
-- The memory map of the raspi3 board, for an image that ends at 0x92345.
use chcore_lab_v.Base.{ℕ, ◌≡◌, refl, false, arith}
use chcore_lab_v.Buddy.{Page}
use chcore_lab_v.MemInit.{parse_mem_map, init_pool}
use chcore_lab_v.MemInit.Layout.{IsRange, Laid, IsBoard, parse_mem_map-IsBoard, init_pool-Laid}

abbrev no_page : Page
no_page = record { allocated = false; order = 0; slab = 0; in_pool = false }

abbrev img_end : ℕ
img_end = 0x92345

map_start : (parse_mem_map img_end).start ≡ 0x93000
unfolding parse_mem_map
map_start = refl

parse_mem_map-IsBoard_example : IsBoard img_end (parse_mem_map img_end)
parse_mem_map-IsBoard_example = parse_mem_map-IsBoard img_end (omega arith)

board-IsRange : IsRange (parse_mem_map img_end)
board-IsRange = (parse_mem_map-IsBoard img_end (omega arith)).range

init_pool-Laid_example :
    Laid (λ _. no_page) (parse_mem_map img_end) (init_pool (λ _. no_page) (parse_mem_map img_end))
init_pool-Laid_example = init_pool-Laid (parse_mem_map img_end) board-IsRange (λ _. no_page)
