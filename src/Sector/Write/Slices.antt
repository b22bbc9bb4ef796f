-- ===== src/Sector/Write/Slices.antt =====
-- How many slices an item takes: by the mask in jekv_sector_write_item, and by the division in
-- jekv_item_get_span.
use jekv.Base.{
  ℕ, List, holds_to, holds_to-true, arith, if◌then◌else◌, length, ltb, refl, some, true, ◌%◌, ◌*◌,
  ◌+◌, ◌-◌, ◌/◌, ◌<◌, ◌==◌, ◌≡◌, ◌≤◌, ==_iff,
}
use jekv.Config.{slice_size, entry_count, single_item_max_data_size}
use jekv.Item.{get_span, item_init}
use jekv.Sector.Write.{entry_cnt}

abbrev by_division : ℕ → ℕ
by_division size = if ltb 8 size then 1 + (size + (slice_size - 1)) / slice_size else 1

mask_table : holds_to (λ n. entry_cnt n == by_division n) 4033 ≡ true
unfolding holds_to entry_cnt
mask_table = refl

pub entry_cnt-eq-by_division : (n : ℕ) → n ≤ single_item_max_data_size → entry_cnt n ≡ by_division n
entry_cnt-eq-by_division n h = (==_iff _ _).0 (holds_to-true _ 4033 n (omega arith) mask_table)

-- For data of at most 4032 bytes the mask and the division give the same number of slices; it is
-- at least 1 and at most 127, and the slices behind the first hold the data, the last one in part.
pub get_span-item_init :
    (state gid type : ℕ) (key buf : List ℕ) (seg_id : ℕ)
    → length buf ≤ single_item_max_data_size
    → (get_span (item_init state gid type key (some buf) (length buf) seg_id)
        ≡ entry_cnt (length buf))
      × (1 ≤ entry_cnt (length buf))
      × (entry_cnt (length buf) ≤ entry_count)
      × (8 < length buf → length buf ≤ (entry_cnt (length buf) - 1) * slice_size)
      × (8 < length buf → (entry_cnt (length buf) - 1) * slice_size < length buf + slice_size)
unfolding get_span item_init
get_span-item_init state gid type key buf seg_id h =
    let e = entry_cnt-eq-by_division (length buf) h in
    let fits : length buf % 4096 ≡ length buf = omega arith in
    (
      rw (fits, e),
      rw e (ground arith),
      rw e (ground arith),
      λ big. rw e (ground arith),
      λ big. rw e (ground arith),
    )

pub entry_cnt_pos : (n : ℕ) → 1 ≤ entry_cnt n
unfolding entry_cnt
entry_cnt_pos n = ground arith
